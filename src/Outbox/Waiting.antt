-- ===== src/Outbox/Waiting.antt =====
-- The messages that the connection of Source/ARTRealtime.m holds, and when it sends or queues.
use ably_cocoa.Base.{ℕ, Bool, true, false, not, Option, List, map, Text, if◌then◌else◌, ℤ}
use ably_cocoa.Types.{ConnectionState, ErrorInfo, Status}
use ably_cocoa.Message.{ProtocolMessage}

-- ARTQueuedMessage
pub record Queued : Type 0 where
  pub msg : ProtocolMessage
  pub sent_callbacks : List ℕ
  pub ack_callbacks : List ℕ

-- ARTPendingMessage, a queued message with no sent callback.
pub record Pending : Type 0 where
  pub msg : ProtocolMessage
  pub ack_callbacks : List ℕ

-- What an operation does outside the object.
pub data Output : Type 0 where
  transmit : ProtocolMessage → Output
  sent_call : ℕ → Option ErrorInfo → Output
  ack_call : ℕ → Status → Output

-- The result of `encodeProtocolMessage:error:`.
pub data Encoded : Type 0 where
  bytes : List ℕ → Encoded
  refused : ErrorInfo → Encoded
  nothing : Encoded

-- What stands below the object: the message encoder, and whether the transport takes a message.
pub record Wire : Type 0 where
  pub encode : ProtocolMessage → Encoded
  pub transmits : ProtocolMessage → Bool

pub record Outbox : Type 0 where
  pub state : ConnectionState
  pub renewing_token : Bool
  pub queue_messages : Bool
  pub connection_id : Option Text
  pub error_reason : Option ErrorInfo
  pub msg_serial : ℤ
  pub pending_message_start_serial : ℤ
  pub queued_messages : List Queued
  pub pending_messages : List Pending

abbrev pub sent_calls : List ℕ → Option ErrorInfo → List Output
sent_calls cs e = map (λ c. sent_call c e) cs

abbrev pub ack_calls : List ℕ → Status → List Output
ack_calls cs s = map (λ c. ack_call c s) cs

-- shouldSendEvents
unfoldable pub should_send_events : Outbox → Bool
should_send_events o = elim o.state [ ConnectionState.connected ↦ not o.renewing_token | _ ↦ false ]

-- shouldQueueEvents
unfoldable pub should_queue_events : Outbox → Bool
should_queue_events o = if not o.queue_messages then false else elim o.state [
  | ConnectionState.initialized ↦ true
  | ConnectionState.connecting ↦ true
  | ConnectionState.disconnected ↦ true
  | ConnectionState.connected ↦ o.renewing_token
  | _ ↦ false
]
