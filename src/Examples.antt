-- ===== src/Examples.antt =====
-- Concrete runs of the modelled code: the data they share, and tests and instances of the theorems
-- in the modules below, by component.
mod Sending
mod Emitting
mod Counting
mod Configuring
mod Merging
mod Members
mod Activation
mod Connecting
mod Retrying
mod Attaching
mod Requesting
use ably_cocoa.Base.{ℕ, true, false, Option, none, some, List, [], ◌∷◌, Text, codes, pos}
use ably_cocoa.Types.{ConnectionState, Action, PresenceAction, ErrorInfo}
use ably_cocoa.Message.{BaseMessage, Message, PresenceMessage, ProtocolMessage, Payload, string}
use ably_cocoa.Outbox.{Outbox, Pending, Queued, Wire, bytes}

abbrev pub base : Option Text → Option Text → Option Text → BaseMessage
base id client connection = record {
  id = id;
  client_id = client;
  connection_id = connection;
  timestamp = none;
  encoding = none;
  payload = some (string (codes "hi"));
  extras = none;
}

abbrev pub message : Text → Message
message client = record { base = base none (some client) none; name = none }

abbrev pub protocol_message : Action → Option (List Message) → ProtocolMessage
protocol_message a ms = record {
  action = a;
  count = pos 0;
  id = none;
  channel = some (codes "c");
  channel_serial = none;
  connection_id = none;
  own_connection_key = none;
  connection_serial = pos 0;
  has_connection_serial = false;
  msg_serial = none;
  timestamp = none;
  messages = ms;
  presence = none;
  flags = 0;
  error = none;
  auth = none;
  connection_details = none;
  params = none;
}

abbrev pub published : ProtocolMessage
published = protocol_message Action.message (some (message (codes "me") ∷ []))

abbrev pub pending : ℕ → ℕ → Pending
pending serial callback = record {
  msg = record published { msg_serial = some (pos serial) };
  ack_callbacks = callback ∷ [];
}

abbrev pub queued : ℕ → Queued
queued callback = record {
  msg = published;
  sent_callbacks = callback ∷ [];
  ack_callbacks = callback ∷ [];
}

-- A transport that takes every message, and an encoder that encodes every one.
abbrev pub wire : Wire
wire = record { encode = λ pm. bytes (0 ∷ []); transmits = λ pm. true }

-- A connection that is up, where the messages 7, 8 and 9 wait.
abbrev pub outbox : Outbox
outbox = record {
  state = ConnectionState.connected;
  renewing_token = false;
  queue_messages = true;
  connection_id = some (codes "x");
  error_reason = none;
  msg_serial = pos 10;
  pending_message_start_serial = pos 7;
  queued_messages = queued 4 ∷ queued 5 ∷ [];
  pending_messages = pending 7 1 ∷ pending 8 2 ∷ pending 9 3 ∷ [];
}

abbrev pub failure : ErrorInfo
failure = record { code = pos 40142; status_code = pos 401; message = codes "expired" }

abbrev pub absent_member : PresenceMessage
absent_member = record {
  base = base none none none;
  action = PresenceAction.absent;
  sync_session_id = 0;
}
