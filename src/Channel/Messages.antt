-- ===== src/Channel/Messages.antt =====
-- The messages that arrive on the channel of Source/ARTRealtimeChannel.m, and its publications.
mod Delivering
unfoldable pub use Delivering.*
use ably_cocoa.Base.{
  ℕ, zero, suc, ◌+◌, ◌/◌, ◌%◌, ltb, Bool, true, false, not, ◌||◌, Option, none, some, List, [], ◌∷◌,
  ◌++◌, Text, codes, ℤ, pos, if◌then◌else◌, is_some, text_eq, ◌==◌,
}
use ably_cocoa.Types.{connection_state_name, ConnectionState, ChannelEvent, ErrorInfo, Action}
use ably_cocoa.Types.Codes.{create_with_code}
use ably_cocoa.Message.{BaseMessage, ProtocolMessage, Message, PresenceMessage, new_message, items}
use ably_cocoa.Presence.Order.{or_null, colon}
use ably_cocoa.Presence.Map.{PresenceMap, add, in_progress}
use ably_cocoa.Channel.{
  recovery_ended, message, presence, Channel, Env, is_active, Result, client, ◌▷◌, ◌▷?◌, ◌>>?◌,
  ◌|?◌, quietly, answer,
}
use ably_cocoa.Channel.Transition.{emit_change, internal_attach}
use ably_cocoa.Channel.Events.{
  set_attached, set_detached, on_error, start_sync_of, end_sync_of, publish_protocol_message,
}

unfoldable pub take_presence :
    PresenceMessage → Channel → Option (PresenceMap × Bool) → Option Result
take_presence m c none = none
take_presence m c (some (pm, news)) =
    some (record c { presence_map = pm }, if news then presence m ∷ [] else [])

-- A presence message goes into the map, and to the listeners if it is news.
unfoldable pub add_presence : PresenceMessage → Env → Channel → Option Result
unfolding take_presence
add_presence m env c = take_presence m c (add env.connection_id m c.presence_map)

unfoldable pub decode_presence_data : Env → PresenceMessage → PresenceMessage
decode_presence_data env m = if is_some m.payload then env.decode_presence m else m

unfoldable pub add_presences :
    ProtocolMessage → ℕ → List PresenceMessage → Env → Channel → Option Result
add_presences pm i [] env c = some (quietly c)
add_presences pm i (m ∷ ms) env c =
    add_presence (fill_presence pm i (decode_presence_data env m)) env c
    >>? add_presences pm (suc i) ms env

-- onPresence:
unfoldable pub on_presence : ProtocolMessage → Env → Channel → Option Result
on_presence pm env c = add_presences pm 0 (items pm.presence) env c

unfoldable pub sync_presences : List PresenceMessage → Env → Channel → Option Result
sync_presences [] env c = some (quietly c)
sync_presences (m ∷ ms) env c = add_presence m env c >>? sync_presences ms env

-- What stands between the first and the second colon of a text that has one.
unfoldable pub is_cursor_empty : Text → Bool
is_cursor_empty [] = true
is_cursor_empty (x ∷ t) = x == colon

-- isLastChannelSerial:
unfoldable pub is_last_text : Text → Bool
is_last_text [] = true
is_last_text (x ∷ t) = if x == colon then is_cursor_empty t else is_last_text t

unfoldable pub is_last_channel_serial : Option Text → Bool
is_last_channel_serial none = true
is_last_channel_serial (some t) = is_last_text t

abbrev pub serial_value : Option ℤ → ℤ
serial_value none = pos 0
serial_value (some n) = n

unfoldable pub finish_sync_message : ProtocolMessage → Env → Channel → Option Result
finish_sync_message pm env c =
    if is_last_channel_serial pm.channel_serial
    then end_sync_of env c |? (λ d. quietly (record d { sync_channel_serial = none }))
    else some (quietly c)

-- onSync:
unfoldable pub on_sync : ProtocolMessage → Env → Channel → Option Result
on_sync pm env c =
    let d = record c {
      sync_msg_serial = serial_value pm.msg_serial;
      sync_channel_serial = pm.channel_serial;
    } in
    (if in_progress d.presence_map.sync_state then quietly d else start_sync_of d)
    ▷? sync_presences (items pm.presence) env
    >>? finish_sync_message pm env

unfoldable pub on_action : Action → ProtocolMessage → Env → Channel → Option Result
on_action Action.attached pm env c = set_attached pm env c
on_action Action.detach pm env c = some (set_detached pm env c)
on_action Action.detached pm env c = some (set_detached pm env c)
on_action Action.message pm env c =
    some (if c.decode_failure_recovery_in_progress then quietly c else on_message pm env c)
on_action Action.presence pm env c = on_presence pm env c
on_action Action.error pm env c = some (on_error pm env c)
on_action Action.sync pm env c = on_sync pm env c
on_action _ pm env c = some (quietly c)

-- onChannelMessage:
unfoldable pub on_channel_message : ProtocolMessage → Env → Channel → Option Result
unfolding on_action
on_channel_message pm env c = on_action pm.action pm env c

abbrev connection_error : ℕ → Text → Option ErrorInfo
connection_error code t = some (record { code = pos code; status_code = pos 400; message = t })

abbrev invalid_operation : ConnectionState → ℕ → Option ErrorInfo
invalid_operation s n = connection_error 80010 (
    codes "Invalid operation (connection state is "
    ++ decimal n
    ++ codes " - "
    ++ connection_state_name s
    ++ codes ")")

abbrev unavailable : ConnectionState → Option ErrorInfo
unavailable ConnectionState.disconnected =
    connection_error 80003 (codes "Connection to server temporarily unavailable")
unavailable ConnectionState.suspended =
    connection_error 80002 (codes "Connection to server unavailable")
unavailable ConnectionState.failed =
    connection_error 80000 (codes "Connection failed or disconnected by server")
unavailable ConnectionState.closing = connection_error 80017 (codes "Connection closing")
unavailable ConnectionState.closed = connection_error 80003 (codes "Connection closed")
unavailable ConnectionState.initialized = invalid_operation ConnectionState.initialized 0
unavailable ConnectionState.connecting = invalid_operation ConnectionState.connecting 1
unavailable ConnectionState.connected = invalid_operation ConnectionState.connected 2

-- error_nosync of the connection
unfoldable pub error_nosync : Env → Option ErrorInfo
error_nosync env = elim env.connection_error_reason [
  | some e ↦ some e
  | none ↦ unavailable env.connection_state
]

abbrev pub clashes : Option Text → List Message → Bool
clashes c [] = false
clashes c (m ∷ ms) = other_than m.client_id c || clashes c ms

abbrev pub mismatched_client_id : ErrorInfo
mismatched_client_id =
    create_with_code 14 (codes "attempted to publish message with an invalid clientId")

-- internalPostMessages:callback:
unfoldable pub internal_post_messages : List Message → Option ℕ → Env → Channel → Result
internal_post_messages ms k env c =
    if clashes env.client_id ms
    then answer (client k) (some mismatched_client_id) c
    else if not (is_active env)
    then answer (client k) (error_nosync env) c
    else publish_protocol_message
        (record (new_message Action.message) { channel = some c.name; messages = some ms }) k c
