-- ===== src/Connection/Delegate.antt =====
-- Source/ARTRealtime.m as the delegate of its transports, and the retry with fallback hosts.
--
-- A transport is known by its number; only the calls of the current one count. `none` stands for the
-- assertion of `onClosed` that fails.
mod Failing
unfoldable pub use Failing.*
use ably_cocoa.Base.{
  ℕ, Bool, true, false, ◌&&◌, not, Option, none, some, List, [], ◌∷◌, ◌++◌, Text, codes, ℤ, pos,
  ltb_ℤ, if◌then◌else◌, ◌==◌, is_some, is_none, same_text,
}
use ably_cocoa.Types.{Action, ConnectionState, ErrorInfo, connection_state_eq}
use ably_cocoa.Message.{ProtocolMessage, ConnectionDetails}
use ably_cocoa.Outbox.{ack, nack}
use ably_cocoa.Fallback.{hosts_from_options, fallback_init, pop_fallback_host}
use ably_cocoa.Connection.{
  Output, set_protocol_client_id, set_prioritized_host, set_idle_timer, pong, ask_internet,
  channel_message, Connection, Env, Result, ◌▷◌, quietly, outputs, on_outbox, error_with,
}
use ably_cocoa.Connection.Transports.{transport_reconnect_with_host}
use ably_cocoa.Connection.Transition.{transition, transition_to_disconnected_or_suspended}
use ably_cocoa.Connection.Events.{on_connected, on_disconnected, on_closed, on_auth, on_error}

abbrev pub is_current : ℕ → Connection → Bool
is_current id c = elim c.transport [ none ↦ false | some t ↦ t.id == id ]

-- onActivity, with setIdleTimer
unfoldable pub on_activity : Env → Connection → Result
on_activity env c = (
  record c { last_activity = some env.now },
  if c.max_idle_interval == 0 then [] else set_idle_timer ∷ [],
)

abbrev serial_of : Option ℤ → ℤ
serial_of none = pos 0
serial_of (some n) = n

abbrev client_id_calls : Option ConnectionDetails → List Output
client_id_calls none = []
client_id_calls (some d) = set_protocol_client_id d.client_id ∷ []

-- onChannelMessage: without a channel is nothing.
abbrev pub on_channel_message : ProtocolMessage → Connection → Result
on_channel_message pm c = (c, if is_some pm.channel then channel_message pm ∷ [] else [])

-- The `switch` on the action of a message.
unfoldable pub dispatch : Action → ProtocolMessage → Env → Connection → Option Result
dispatch Action.heartbeat pm env c = some (c, pong ∷ [])
dispatch Action.error pm env c =
    some (if is_some pm.channel then on_channel_message pm c else on_error pm.error env c)
dispatch Action.connected pm env c =
    some (outputs (client_id_calls pm.connection_details) c ▷ on_connected pm env)
dispatch Action.disconnect pm env c = some (on_disconnected pm.error env c)
dispatch Action.disconnected pm env c = some (on_disconnected pm.error env c)
dispatch Action.ack pm env c = some (on_outbox (ack (serial_of pm.msg_serial) pm.count pm.error) c)
dispatch Action.nack pm env c =
    some (on_outbox (nack (serial_of pm.msg_serial) pm.count pm.error) c)
dispatch Action.closed pm env c = on_closed env c
dispatch Action.auth pm env c = some (on_auth env c)
dispatch _ pm env c = some (on_channel_message pm c)

abbrev pub after : List Output → Option Result → Option Result
after out none = none
after out (some (c, more)) = some (c, out ++ more)

abbrev pub with_serial : ProtocolMessage → Connection → Connection
with_serial pm c =
    if pm.has_connection_serial then record c { serial = pm.connection_serial } else c

-- realtimeTransport:didReceiveMessage:
unfoldable pub did_receive_message : ℕ → Option ProtocolMessage → Env → Connection → Option Result
did_receive_message id none env c = some (on_activity env c)
did_receive_message id (some pm) env c =
    let r = on_activity env c in
    if not (is_current id r.0)
    then some r
    else if connection_state_eq r.0.outbox.state ConnectionState.disconnected
    then some r
    else after r.1 (dispatch pm.action pm env (with_serial pm r.0))

-- A call of the delegate that only the current transport may make.
abbrev pub if_current : ℕ → (Connection → Result) → Connection → Result
if_current id f c = if is_current id c then f c else quietly c

-- What the end of the current transport means in each state.
unfoldable pub lose_transport : Env → Connection → Result
lose_transport env c = elim c.outbox.state [
  | ConnectionState.closing ↦ transition ConnectionState.closed none env c
  | ConnectionState.closed ↦ quietly c
  | ConnectionState.failed ↦ quietly c
  | _ ↦ transition_to_disconnected_or_suspended none env c
]

-- realtimeTransportClosed:
unfoldable pub transport_closed : ℕ → Env → Connection → Result
transport_closed id env = if_current id (lose_transport env)

-- realtimeTransportFailed:withError:
unfoldable pub transport_failed : ℕ → TransportError → Env → Connection → Result
transport_failed id e env = if_current id (fail_transport e env)

-- What the disconnection of the current transport means.
unfoldable pub drop_transport : Option ErrorInfo → Env → Connection → Result
drop_transport e env c =
    if connection_state_eq c.outbox.state ConnectionState.closing
    then transition ConnectionState.closed none env c
    else transition_to_disconnected_or_suspended e env c

-- realtimeTransportDisconnected:withError:
unfoldable pub transport_disconnected : ℕ → Option ErrorInfo → Env → Connection → Result
transport_disconnected id e env = if_current id (drop_transport e env)

abbrev transport_error : Text → Option ErrorInfo
transport_error m = some (error_with (pos 1) (pos 0) m)

-- realtimeTransportNeverConnected:
unfoldable pub transport_never_connected : ℕ → Env → Connection → Result
transport_never_connected id env =
    if_current id
      (transition ConnectionState.failed (transport_error (codes "Transport never connected")) env)

abbrev pub refusal : Option TransportError → Text → Option ErrorInfo
refusal none url = none
refusal (some e) url = elim e.kind [
  | refused ↦ transport_error (codes "Connection refused using " ++ url)
  | _ ↦ some e.error
]

-- realtimeTransportRefused:withError:, with the description of the URL.
unfoldable pub transport_refused : ℕ → Option TransportError → Text → Env → Connection → Result
transport_refused id e url env =
    if_current id (transition ConnectionState.failed (refusal e url) env)

-- realtimeTransportTooBig:
unfoldable pub transport_too_big : ℕ → Env → Connection → Result
transport_too_big id env =
    if_current id
      (transition ConnectionState.failed (transport_error (codes "Transport too big")) env)

-- realtimeTransportSetMsgSerial:msgSerial:
unfoldable pub transport_set_msg_serial : ℕ → ℤ → Connection → Result
transport_set_msg_serial id n =
    if_current id (λ c. quietly (record c { outbox = record c.outbox { msg_serial = n } }))
