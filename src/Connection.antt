-- ===== src/Connection.antt =====
-- The connection of Source/ARTRealtime.m and ARTConnection.m: its state, what its methods read from
-- elsewhere, and what they start outside the object.
--
-- A method returns the new state and its outputs in order. Calls of channels, the transport, the
-- authorisation and the network are outputs; what they answer comes as a later call of a method.
-- Times are in milliseconds.
pub mod Transports
pub mod Transition
pub mod Events
pub mod Delegate
pub mod Authorization
pub mod Laws
pub mod Releases
pub mod Handled
pub mod Delegated
pub mod Authorized
pub mod Reachable
pub mod Closing
use ably_cocoa.Base.{
  ℕ, suc, ◌+◌, Bool, true, false, ◌&&◌, not, Option, none, some, List, [], ◌∷◌, ◌++◌, map, Text,
  codes, ℤ, pos,
}
use ably_cocoa.Types.{ConnectionEvent, connection_event, ConnectionState, State, ErrorInfo, Status}
use ably_cocoa.Message.{ProtocolMessage}
use ably_cocoa.Outbox.{Outbox, Wire}
use ably_cocoa.Outbox.{Output as Held}
use ably_cocoa.Retry.{RetryState}
use ably_cocoa.Fallback.{HostOptions}

-- What the object reads of its transport, an object known by a number.
pub record Transport : Type 0 where
  pub id : ℕ
  pub resume_key : Option Text
  pub connection_serial : Option ℤ

-- A wait before the next retry: milliseconds, or the ticks of a retry attempt.
pub data Delay : Type 0 where
  milliseconds : ℕ → Delay
  ticks : ℕ → Delay

-- The blocks that wait for a deadline unless the state changes before.
pub data Timer : Type 0 where
  connection_time_out : Timer
  close_time_out : Timer
  retry_from_disconnected : Timer
  retry_from_suspended : Timer

-- ARTConnectionStateChange
pub record StateChange : Type 0 where
  pub current : ConnectionState
  pub previous : ConnectionState
  pub event : ConnectionEvent
  pub reason : Option ErrorInfo
  pub retry_in : Delay

pub data Output : Type 0 where
  -- callbacks and messages of the outbox
  held : Held → Output
  -- calls of the transport with this number
  create_transport : ℕ → Option Text → Option ℤ → Output
  connect_with_key connect_with_token close_transport send_close : ℕ → Output
  set_host : ℕ → Text → Output
  abort_transport : ℕ → Status → Output
  -- the authorisation: `_authorize`, forcing a new token or not, for a new connection or not
  authorize : Bool → Bool → Output
  forget_token schedule_authentication_timeout when_transport_opens : Output
  cancel_authorization : Option ErrorInfo → Output
  set_protocol_client_id : Option Text → Output
  authorization_called : ℕ → ConnectionState → Option ErrorInfo → Output
  -- all channels
  attach_channels detach_channels : Output
  reattach_channels : Option ErrorInfo → Output
  suspend_channels fail_channels : State → Option ErrorInfo → Output
  -- the others
  set_reachability : Bool → Output
  set_prioritized_host : Option Text → Output
  set_idle_timer stop_idle_timer : Output
  cancel_auth_work stop_pings pong connected_event : Output
  ask_internet : Text → Output
  emit_change : StateChange → Output
  channel_message : ProtocolMessage → Output

-- The state of ARTRealtimeInternal and of its ARTConnectionInternal. `timer` is the block that waits
-- for its deadline, and `close_waits` says that a `close` waits for the next state.
pub record Connection : Type 0 where
  pub outbox : Outbox
  pub key : Option Text
  pub serial : ℤ
  pub max_message_size : ℕ
  pub resuming : Bool
  pub transport : Option Transport
  pub next_transport : ℕ
  pub connection_lost_at : Option ℕ
  pub connection_state_ttl : ℕ
  pub max_idle_interval : ℕ
  pub last_activity : Option ℕ
  pub reachability_activated_at : Option ℕ
  pub fallbacks : Option (List Text)
  pub retry_state : RetryState
  pub timer : Option Timer
  pub close_waits : Bool
  pub pending_authorizations : List ℕ

-- What a method reads from outside: the time, a draw for a retry, the options, and what ARTAuth says
-- of its token. `suspended_without_loss` and `inactive_without_activity` are what the comparisons
-- with a nil date give, which its documentation leaves undefined.
pub record Env : Type 0 where
  pub now : ℕ
  pub draw : ℕ
  pub wire : Wire
  pub is_basic_auth : Bool
  pub token_remains_valid : Bool
  pub token_is_renewable : Bool
  pub has_auth_provider : Bool
  pub is_authorizing : Bool
  pub should_immediately_reconnect : Bool
  pub suspended_retry_timeout : ℕ
  pub hosts : HostOptions
  pub shuffle : List Text → List Text
  pub suspended_without_loss : Bool
  pub inactive_without_activity : Bool

abbrev pub Result : Type 0
Result = Connection × List Output

-- One call after the other.
infixl 40 ◌▷◌
abbrev pub ◌▷◌ : Result → (Connection → Result) → Result
r ▷ f = ((f r.0).0, r.1 ++ (f r.0).1)

abbrev pub quietly : Connection → Result
quietly c = (c, [])

abbrev pub outputs : List Output → Connection → Result
outputs out c = (c, out)

-- An operation on the messages that the connection holds.
abbrev pub on_outbox : (Outbox → Outbox × List Held) → Connection → Result
on_outbox f c = (record c { outbox = (f c.outbox).0 }, map held (f c.outbox).1)

abbrev pub state_of : Connection → ConnectionState
state_of c = c.outbox.state

-- setState: and setErrorReason: of the connection.
abbrev pub set_state : ConnectionState → Option ErrorInfo → Connection → Connection
set_state s e c = record c { outbox = record c.outbox { state = s; error_reason = e } }

abbrev pub set_error_reason : Option ErrorInfo → Connection → Connection
set_error_reason e c = record c { outbox = record c.outbox { error_reason = e } }

-- setId:
abbrev pub set_id : Option Text → Connection → Connection
set_id i c = record c { outbox = record c.outbox { connection_id = i } }

abbrev pub set_renewing_token : Bool → Connection → Connection
set_renewing_token b c = record c { outbox = record c.outbox { renewing_token = b } }

-- createWithCode:message:, whose status is the code divided by 100.
abbrev pub error_with : ℤ → ℤ → Text → ErrorInfo
error_with code status message = record { code = code; status_code = status; message = message }
