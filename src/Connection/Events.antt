-- ===== src/Connection/Events.antt =====
-- What Source/ARTRealtime.m does with the messages of its server, its timers, the network and the
-- answers of the authorisation.
use ably_cocoa.Base.{
  ℕ, ◌+◌, Bool, true, false, ◌&&◌, not, Option, none, some, [], ◌∷◌, Text, codes, ℤ, pos, negsuc,
  eqb_ℤ, if◌then◌else◌, ltb, ◌==◌, is_some, same_text,
}
use ably_cocoa.Types.{ConnectionState, ErrorInfo, connection_state_eq, is_token_error}
use ably_cocoa.Message.{ProtocolMessage, ConnectionDetails}
use ably_cocoa.Connection.{
  Timer, connection_time_out, close_time_out, retry_from_disconnected, retry_from_suspended,
  reattach_channels, set_idle_timer, cancel_auth_work, Connection, Env, Result, ◌▷◌, quietly,
  outputs, set_error_reason, set_id, set_renewing_token, error_with,
}
use ably_cocoa.Connection.Transports.{
  transport_connect, transport_reconnect, transport_reconnect_with_renewed_token,
}
use ably_cocoa.Connection.Transition.{
  transition, transition_to_disconnected_or_suspended, update_with_error_info,
}

-- isTokenError:
abbrev pub holds_token_error : Option ErrorInfo → Bool
holds_token_error none = false
holds_token_error (some e) = is_token_error e

-- `_connect`
unfoldable pub connect : Env → Connection → Result
connect env c = transition ConnectionState.connecting none env (
    if connection_state_eq c.outbox.state ConnectionState.closing
    then record c { transport = none }
    else c)

-- The id of the connection is not the one of the message, and resuming has failed.
abbrev pub resume_failed : ProtocolMessage → Connection → Bool
resume_failed pm c = c.resuming && not (same_text pm.connection_id c.outbox.connection_id)

-- The connection id has changed, or a recovery has failed: serials start again.
abbrev serials_reset : ProtocolMessage → Connection → Bool
serials_reset pm c = elim c.outbox.connection_id [
  | none ↦ is_some pm.error
  | some i ↦ not (same_text pm.connection_id (some i))
]

abbrev pub connection_key : ProtocolMessage → Option Text
connection_key pm = elim pm.connection_details [
  | none ↦ pm.own_connection_key
  | some d ↦ elim d.connection_key [ none ↦ pm.own_connection_key | some k ↦ some k ]
]

abbrev size_of : Option ConnectionDetails → ℕ
size_of none = 0
size_of (some d) = d.max_message_size

abbrev ttl_of : Option ConnectionDetails → ℕ → ℕ
ttl_of none t = t
ttl_of (some d) t = if d.connection_state_ttl == 0 then t else d.connection_state_ttl

abbrev idle_of : Option ConnectionDetails → ℕ
idle_of none = 0
idle_of (some d) = d.max_idle_interval

-- What `onConnected:` takes over from the message when the connection is connecting.
unfoldable pub adopt : ProtocolMessage → Env → Connection → Result
adopt pm env c =
    let o =
      if serials_reset pm c
      then record c.outbox { msg_serial = pos 0; pending_message_start_serial = pos 0 }
      else c.outbox in
    let d = record c {
      outbox = record o { connection_id = pm.connection_id };
      key = connection_key pm;
      max_message_size = size_of pm.connection_details;
      serial = pm.connection_serial;
      connection_state_ttl = ttl_of pm.connection_details c.connection_state_ttl;
    } in
    if idle_of pm.connection_details == 0 then quietly d else (
      record d { max_idle_interval = idle_of pm.connection_details; last_activity = some env.now },
      set_idle_timer ∷ [],
    )

-- The first part of onConnected:, without the call of the channels.
abbrev pub resumed : ProtocolMessage → Connection → Connection
resumed pm c =
    set_renewing_token false (if resume_failed pm c then record c { resuming = false } else c)

-- The `switch` of onConnected: on the state.
unfoldable pub take_up : ProtocolMessage → Env → Connection → Result
take_up pm env c = elim c.outbox.state [
  | ConnectionState.connecting ↦ adopt pm env c ▷ transition ConnectionState.connected pm.error env
  | ConnectionState.connected ↦ update_with_error_info pm.error env c
  | _ ↦ quietly c
]

-- onConnected:
unfoldable pub on_connected : ProtocolMessage → Env → Connection → Result
on_connected pm env c =
    outputs (if resume_failed pm c then reattach_channels pm.error ∷ [] else []) (resumed pm c)
    ▷ take_up pm env
    ▷ (λ x. quietly (record x { resuming = false }))

-- onDisconnected:
unfoldable pub on_disconnected : Option ErrorInfo → Env → Connection → Result
on_disconnected e env c =
    if holds_token_error e && not c.outbox.renewing_token
    then if not env.token_is_renewable
      then transition ConnectionState.failed e env c
      else transition_to_disconnected_or_suspended e env c ▷ (λ d.
        transition ConnectionState.connecting none env
          (set_renewing_token true (set_error_reason none d)))
    else transition_to_disconnected_or_suspended e env c

-- onClosed. In a state other than closing and closed an assertion fails.
unfoldable pub on_closed : Env → Connection → Option Result
on_closed env c = elim c.outbox.state [
  | ConnectionState.closed ↦ some (quietly c)
  | ConnectionState.closing ↦ some (transition ConnectionState.closed none env (set_id none c))
  | _ ↦ none
]

-- onAuth
unfoldable pub on_auth : Env → Connection → Result
on_auth env c = elim c.outbox.state [
  | ConnectionState.connecting ↦ transport_connect true false env c
  | ConnectionState.connected ↦ transport_connect true false env c
  | _ ↦ quietly c
]

-- onError: for a message without a channel.
unfoldable pub on_error : Option ErrorInfo → Env → Connection → Result
on_error e env c =
    if holds_token_error e && env.token_is_renewable
    then if c.outbox.renewing_token
      then transition_to_disconnected_or_suspended e env (set_error_reason e c)
      else transport_reconnect_with_renewed_token env c
    else transition ConnectionState.failed e env (set_id none c)

abbrev pub timed_out : ℤ → Option ErrorInfo
timed_out code = some (error_with code (pos 4) (codes "timed out"))

abbrev without_connecting_timer : Option Timer → Option Timer
without_connecting_timer (some connection_time_out) = none
without_connecting_timer t = t

-- onConnectionTimeOut, of the connection attempt or of its authorisation.
unfoldable pub on_connection_time_out : Env → Connection → Result
on_connection_time_out env c =
    let e =
      timed_out (if env.is_authorizing && env.has_auth_provider then pos 80019 else pos 80014) in
    outputs (cancel_auth_work ∷ []) (record c { timer = without_connecting_timer c.timer }) ▷ (λ d.
      if connection_state_eq d.outbox.state ConnectionState.connected
      then transition ConnectionState.connected e env d
      else transition_to_disconnected_or_suspended e env d)

-- A timer reaches its deadline.
unfoldable pub time_out : Env → Connection → Result
time_out env c = elim c.timer [
  | none ↦ quietly c
  | some connection_time_out ↦ on_connection_time_out env (record c { timer = none })
  | some close_time_out ↦ transition ConnectionState.closed none env (record c { timer = none })
  | some retry_from_disconnected ↦
      transition ConnectionState.connecting none env (record c { timer = none })
  | some retry_from_suspended ↦
      transition ConnectionState.connecting none env (record c { timer = none })
]

-- The idle timer of setIdleTimer reaches its deadline.
unfoldable pub idle_time_out : Env → Connection → Result
idle_time_out env c =
    transition_to_disconnected_or_suspended
      (some (error_with (pos 80003) (pos 408) (codes "Idle timer expired"))) env c

-- handleTokenAuthError:, for the code of an NSError, the ARTErrorInfo made of it, its status and its
-- description.
unfoldable pub handle_token_auth_error : ErrorInfo → Text → Env → Connection → Result
handle_token_auth_error e description env c =
    if eqb_ℤ e.code (pos 40102)
    then transition ConnectionState.failed (some e) env c
    else if env.has_auth_provider
    then if eqb_ℤ e.code (pos 40300)
      then transition ConnectionState.failed
          (some (error_with (pos 80019) e.status_code description)) env c
      else if connection_state_eq c.outbox.state ConnectionState.connected
      then quietly (set_error_reason (some (error_with (pos 80019) (pos 4) description)) c)
      else transition_to_disconnected_or_suspended
          (some (error_with (pos 80019) (pos 4) description)) env c
    else transition_to_disconnected_or_suspended (some e) env c

-- shouldRestartPendingConnectionAttempt
unfoldable pub should_restart_pending_connection_attempt : Env → Connection → Bool
should_restart_pending_connection_attempt env c = elim c.reachability_activated_at [
  | none ↦ false
  | some t ↦ ltb (t + 100) env.now
]

abbrev pub unreachable : Option ErrorInfo
unreachable = some (error_with (negsuc 1002) (negsuc 9) (codes "unreachable host"))

-- handleNetworkIsReachable:
unfoldable pub handle_network_is_reachable : Bool → Env → Connection → Result
handle_network_is_reachable true env c = elim c.outbox.state [
  | ConnectionState.connecting ↦
      if should_restart_pending_connection_attempt env c
      then transport_reconnect env c
      else quietly c
  | ConnectionState.disconnected ↦ transition ConnectionState.connecting none env c
  | ConnectionState.suspended ↦ transition ConnectionState.connecting none env c
  | _ ↦ quietly c
]
handle_network_is_reachable false env c = elim c.outbox.state [
  | ConnectionState.connecting ↦ transition_to_disconnected_or_suspended unreachable env c
  | ConnectionState.connected ↦ transition_to_disconnected_or_suspended unreachable env c
  | _ ↦ quietly c
]
