-- ===== src/Types.antt =====
-- The enumerations and the error and status objects that the components share:
-- Source/include/Ably/ARTTypes.h, ARTStatus.h, ARTProtocolMessage.h, ARTPresenceMessage.h,
-- Source/ARTStatus.m and Source/ARTErrorChecker.m.
pub mod Codes
use ably_cocoa.Base.{
  eqb_ℤ, ℕ, Bool, true, false, ◌&&◌, not, Option, none, Text, codes, ◌==◌, ltb_ℤ, ℤ, pos,
}

-- ARTRealtimeConnectionState
pub data ConnectionState : Type 0 where
  initialized connecting connected disconnected suspended closing closed failed : ConnectionState

-- ARTRealtimeChannelState
pub data ChannelState : Type 0 where
  initialized attaching attached detaching detached suspended failed : ChannelState

-- ARTProtocolMessageAction
pub data Action : Type 0 where
  heartbeat ack nack connect connected disconnect disconnected close closed error : Action
  attach attached detach detached presence message sync auth : Action

-- ARTPresenceAction
pub data PresenceAction : Type 0 where
  absent present enter leave update : PresenceAction

-- ARTState
pub data State : Type 0 where
  ok connection_closed_by_client connection_disconnected connection_suspended : State
  connection_failed access_refused never_connected connection_timed_out attach_timed_out : State
  detach_timed_out not_attached invalid_args crypto_bad_padding no_client_id : State
  mismatched_client_id request_token_failed authorization_failed : State
  auth_url_incompatible_content bad_connection_state error : State

-- ARTRealtimeConnectionEvent
pub data ConnectionEvent : Type 0 where
  initialized connecting connected disconnected suspended closing closed failed : ConnectionEvent
  update : ConnectionEvent

-- ARTChannelEvent
pub data ChannelEvent : Type 0 where
  initialized attaching attached detaching detached suspended failed update : ChannelEvent

-- `(ARTRealtimeConnectionEvent)state`: the event with the number of the state.
abbrev pub connection_event : ConnectionState → ConnectionEvent
connection_event ConnectionState.initialized = ConnectionEvent.initialized
connection_event ConnectionState.connecting = ConnectionEvent.connecting
connection_event ConnectionState.connected = ConnectionEvent.connected
connection_event ConnectionState.disconnected = ConnectionEvent.disconnected
connection_event ConnectionState.suspended = ConnectionEvent.suspended
connection_event ConnectionState.closing = ConnectionEvent.closing
connection_event ConnectionState.closed = ConnectionEvent.closed
connection_event ConnectionState.failed = ConnectionEvent.failed

-- `(ARTChannelEvent)state`
abbrev pub channel_event : ChannelState → ChannelEvent
channel_event ChannelState.initialized = ChannelEvent.initialized
channel_event ChannelState.attaching = ChannelEvent.attaching
channel_event ChannelState.attached = ChannelEvent.attached
channel_event ChannelState.detaching = ChannelEvent.detaching
channel_event ChannelState.detached = ChannelEvent.detached
channel_event ChannelState.suspended = ChannelEvent.suspended
channel_event ChannelState.failed = ChannelEvent.failed

-- ARTErrorInfo: the code, the HTTP status and the message.
pub record ErrorInfo : Type 0 where
  pub code : ℤ
  pub status_code : ℤ
  pub message : Text

-- ARTStatus
pub record Status : Type 0 where
  pub state : State
  pub error_info : Option ErrorInfo

abbrev pub status_ok : Status
status_ok = record { state = State.ok; error_info = none }

abbrev pub status_error : Option ErrorInfo → Status
status_error e = record { state = State.error; error_info = e }

abbrev pub token_error_unspecified : ℕ
token_error_unspecified = 40140

abbrev pub connection_limits_exceeded : ℕ
connection_limits_exceeded = 40150

-- ARTDefaultErrorChecker: 401 with a code in the token error range.
unfoldable pub is_token_error : ErrorInfo → Bool
is_token_error e =
    eqb_ℤ e.status_code (pos 401)
    && (not (ltb_ℤ e.code (pos token_error_unspecified))
        && ltb_ℤ e.code (pos connection_limits_exceeded))

-- ARTChannelEventToStr
abbrev pub channel_event_name : ChannelEvent → Text
channel_event_name ChannelEvent.initialized = codes "Initialized"
channel_event_name ChannelEvent.attaching = codes "Attaching"
channel_event_name ChannelEvent.attached = codes "Attached"
channel_event_name ChannelEvent.detaching = codes "Detaching"
channel_event_name ChannelEvent.detached = codes "Detached"
channel_event_name ChannelEvent.suspended = codes "Suspended"
channel_event_name ChannelEvent.failed = codes "Failed"
channel_event_name ChannelEvent.update = codes "Update"

-- ARTRealtimeChannelStateToStr
abbrev pub channel_state_name : ChannelState → Text
channel_state_name ChannelState.initialized = codes "Initialized"
channel_state_name ChannelState.attaching = codes "Attaching"
channel_state_name ChannelState.attached = codes "Attached"
channel_state_name ChannelState.detaching = codes "Detaching"
channel_state_name ChannelState.detached = codes "Detached"
channel_state_name ChannelState.suspended = codes "Suspended"
channel_state_name ChannelState.failed = codes "Failed"

-- ARTRealtimeConnectionStateToStr
abbrev pub connection_state_name : ConnectionState → Text
connection_state_name ConnectionState.initialized = codes "Initialized"
connection_state_name ConnectionState.connecting = codes "Connecting"
connection_state_name ConnectionState.connected = codes "Connected"
connection_state_name ConnectionState.disconnected = codes "Disconnected"
connection_state_name ConnectionState.suspended = codes "Suspended"
connection_state_name ConnectionState.closing = codes "Closing"
connection_state_name ConnectionState.closed = codes "Closed"
connection_state_name ConnectionState.failed = codes "Failed"

abbrev pub connection_state_eq : ConnectionState → ConnectionState → Bool
connection_state_eq ConnectionState.initialized ConnectionState.initialized = true
connection_state_eq ConnectionState.connecting ConnectionState.connecting = true
connection_state_eq ConnectionState.connected ConnectionState.connected = true
connection_state_eq ConnectionState.disconnected ConnectionState.disconnected = true
connection_state_eq ConnectionState.suspended ConnectionState.suspended = true
connection_state_eq ConnectionState.closing ConnectionState.closing = true
connection_state_eq ConnectionState.closed ConnectionState.closed = true
connection_state_eq ConnectionState.failed ConnectionState.failed = true
connection_state_eq _ _ = false

abbrev pub action_number : Action → ℕ
action_number Action.heartbeat = 0
action_number Action.ack = 1
action_number Action.nack = 2
action_number Action.connect = 3
action_number Action.connected = 4
action_number Action.disconnect = 5
action_number Action.disconnected = 6
action_number Action.close = 7
action_number Action.closed = 8
action_number Action.error = 9
action_number Action.attach = 10
action_number Action.attached = 11
action_number Action.detach = 12
action_number Action.detached = 13
action_number Action.presence = 14
action_number Action.message = 15
action_number Action.sync = 16
action_number Action.auth = 17

abbrev pub action_eq : Action → Action → Bool
action_eq a b = action_number a == action_number b
