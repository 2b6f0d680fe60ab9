-- ===== src/Channel.antt =====
-- The channel of Source/ARTRealtimeChannel.m: its data. What waits for a later event is a value: a
-- callback that waits for the end of an attach or a detach is a `Waiter`, a block that waits for a
-- deadline a `Timer`, and one that waits for the connection a `Reconnect`.
pub mod Transition
pub mod Events
pub mod Messages
pub mod Callbacks
pub mod Reachable
pub mod Delivery
pub mod Disorder
pub mod Answers
use ably_cocoa.Base.{
  ℕ, ◌+◌, Bool, true, false, ◌||◌, Option, none, some, List, [], ◌∷◌, ◌++◌, Text, ℤ,
}
use ably_cocoa.Types.{ConnectionState, ChannelState, ChannelEvent, State, ErrorInfo, Status}
use ably_cocoa.Message.{Message, PresenceMessage, ProtocolMessage}
use ably_cocoa.Retry.{RetryState, RetryAttempt}
use ably_cocoa.Presence.Map.{PresenceMap}
use ably_cocoa.Presence.Map.{Output as PresenceOutput}

-- ARTChannelStateChange
pub record ChannelStateChange : Type 0 where
  pub current : ChannelState
  pub previous : ChannelState
  pub event : ChannelEvent
  pub reason : Option ErrorInfo
  pub resumed : Bool
  pub retry_attempt : Option RetryAttempt

-- ARTChannelStateChangeMetadata
pub record ChannelStateChangeMetadata : Type 0 where
  pub state : State
  pub error_info : Option ErrorInfo
  pub store_error_info : Bool
  pub retry_attempt : Option RetryAttempt

-- initWithState:
abbrev pub with_state : State → ChannelStateChangeMetadata
with_state s = record {
  state = s;
  error_info = none;
  store_error_info = false;
  retry_attempt = none;
}

-- initWithState:errorInfo:
abbrev pub with_error : State → Option ErrorInfo → ChannelStateChangeMetadata
with_error s e = record { state = s; error_info = e; store_error_info = true; retry_attempt = none }

-- ARTAttachRequestMetadata
pub record AttachRequestMetadata : Type 0 where
  pub reason : Option ErrorInfo
  pub channel_serial : Option Text
  pub retry_attempt : Option RetryAttempt

-- initWithReason:
abbrev pub with_reason : Option ErrorInfo → AttachRequestMetadata
with_reason e = record { reason = e; channel_serial = none; retry_attempt = none }

-- ARTRealtimeChannelOptions; `modes` is a mask of ARTChannelMode.
pub record ChannelOptions : Type 0 where
  pub params : Option (List (Text × Text))
  pub modes : ℕ

-- A callback of the client, by its number, or the block that ends the recovery of a failed decode.
pub data Callback : Type 0 where
  client_callback : ℕ → Callback
  recovery_ended : Callback

-- A callback of the client that may be nil.
abbrev pub client : Option ℕ → Option Callback
client none = none
client (some k) = some (client_callback k)

-- A listener of the attached or of the detached emitter, which is called once.
pub data Waiter : Type 0 where
  call : Callback → Waiter
  attach_again detach_again : Option Callback → Waiter
  forget_reconnect : ℕ → Waiter

-- A block that runs at its deadline unless the channel emits before.
pub data Timer : Type 0 where
  reattach : RetryAttempt → Timer
  attach_time_out detach_time_out : Timer

-- A block that runs when the connection is connected again.
pub data Reconnect : Type 0 where
  attach_after_checks : Option Text → Reconnect
  detach_after_checks : Reconnect

pub data Output : Type 0 where
  call_back : ℕ → Option ErrorInfo → Output
  emit : ChannelStateChange → Output
  -- `send:sentCallback:ackCallback:` of the connection; the callback of a publication is a number
  send : ProtocolMessage → Output
  publish : ProtocolMessage → Option ℕ → Output
  refuse : Option ℕ → Status → Output
  -- listeners of the channel: messages, presence, and the events of the presence map
  message : Message → Output
  presence : PresenceMessage → Output
  presence_event : PresenceOutput → Output
  -- calls of the presence object of the channel
  fail_pending_presence : Status → Output
  send_pending_presence : Output
  enter_client : PresenceMessage → Output

-- ARTRealtimeChannelInternal
pub record Channel : Type 0 where
  pub name : Text
  pub state : ChannelState
  pub error_reason : Option ErrorInfo
  pub options : ChannelOptions
  pub attach_serial : Option Text
  pub presence_map : PresenceMap
  pub sync_msg_serial : ℤ
  pub sync_channel_serial : Option Text
  pub attach_resume : Bool
  pub attach_retry_state : RetryState
  pub last_payload_message_id : Option Text
  pub last_payload_channel_serial : Option Text
  pub decode_failure_recovery_in_progress : Bool
  pub attached_waiters : List Waiter
  pub detached_waiters : List Waiter
  pub reconnects : List (ℕ × Reconnect)
  pub next_reconnect : ℕ
  pub timers : List Timer

-- What a method reads of the connection and from outside. `sent` is how the connection answers a
-- message at once: not at all, while it is queued, or with an error or none. `decode` is
-- `decodeWithEncoder:error:` of the channel's encoder for the message with an index, with the code and
-- the reason of its error (the encoder has a state, so equal messages may decode differently),
-- `decode_presence` its counterpart, `delta_from` the entry `delta.from` of the extras, and
-- `description` what a format writes for a message.
pub record Env : Type 0 where
  pub now : ℕ
  pub draw : ℕ
  pub should_send_events : Bool
  pub should_queue_events : Bool
  pub sent : Option (Option ErrorInfo)
  pub connection_id : Option Text
  pub client_id : Option Text
  pub connection_state : ConnectionState
  pub connection_error_reason : Option ErrorInfo
  pub decode : ℕ → Message → Message × Option (ℕ × Text)
  pub decode_presence : PresenceMessage → PresenceMessage
  pub delta_from : Message → Option Text
  pub description : Message → Text

-- isActive of ARTRealtimeInternal
abbrev pub is_active : Env → Bool
is_active env = env.should_queue_events || env.should_send_events

abbrev pub Result : Type 0
Result = Channel × List Output

-- One call after the other.
infixl 40 ◌▷◌ ◌▷?◌ ◌>>?◌ ◌|?◌
abbrev pub ◌▷◌ : Result → (Channel → Result) → Result
r ▷ f = ((f r.0).0, r.1 ++ (f r.0).1)

-- The same with a call that may raise.
abbrev pub after : List Output → Option Result → Option Result
after out none = none
after out (some r) = some (r.0, out ++ r.1)

abbrev pub ◌▷?◌ : Result → (Channel → Option Result) → Option Result
r ▷? f = after r.1 (f r.0)

abbrev pub ◌>>?◌ : Option Result → (Channel → Option Result) → Option Result
none >>? f = none
some r >>? f = r ▷? f

-- A call that cannot raise, after one that may.
abbrev pub ◌|?◌ : Option Result → (Channel → Result) → Option Result
none |? f = none
some r |? f = some (r ▷ f)

abbrev pub quietly : Channel → Result
quietly c = (c, [])

abbrev pub outputs : List Output → Channel → Result
outputs out c = (c, out)

-- A callback that may be nil.
unfoldable pub answer : Option Callback → Option ErrorInfo → Channel → Result
answer none e c = quietly c
answer (some (client_callback k)) e c = (c, call_back k e ∷ [])
answer (some recovery_ended) e c =
    quietly (record c { decode_failure_recovery_in_progress = false })

-- canBeReattached
abbrev pub can_be_reattached : ChannelState → Bool
can_be_reattached ChannelState.attaching = true
can_be_reattached ChannelState.attached = true
can_be_reattached ChannelState.suspended = true
can_be_reattached _ = false
