-- ===== src/Outbox.antt =====
-- The messages that Source/ARTRealtime.m holds for its connection: those queued until it is up
-- (ARTQueuedMessage.m) and those sent and not acknowledged (ARTPendingMessage.m).
--
-- A callback block stands as the list of the client's callbacks that it calls, by number; a nil
-- block is the empty list. An operation returns the new state and its output: the messages handed to
-- the transport and the callbacks called, in order.
pub mod Callbacks
pub mod Acks
pub mod Serials
pub mod Session
pub mod Resend
pub mod Failing
mod Waiting
unfoldable pub use Waiting.*
use ably_cocoa.Base.{
  ℕ, ◌+◌, Bool, true, false, ◌&&◌, not, Option, none, some, List, [], ◌∷◌, ◌++◌, map, Text, codes,
  ltb, if◌then◌else◌, length, take, drop, ℤ, pos, ◌+ℤ◌, ◌-ℤ◌, ltb_ℤ, eqb_ℤ, int32, int64,
  unsigned64,
}
use ably_cocoa.Types.{
  ConnectionState, ErrorInfo, Status, State, status_ok, status_error, connection_state_name,
}
use ably_cocoa.Message.{Message, BaseMessage, ProtocolMessage, merge_from, ack_required}

abbrev with_connection_id : Option Text → List Message → List Message
with_connection_id c [] = []
with_connection_id c (m ∷ ms) =
    record m { base = record m.base { connection_id = c } } ∷ with_connection_id c ms

abbrev map_messages : (List Message → List Message) → Option (List Message) → Option (List Message)
map_messages f none = none
map_messages f (some ms) = some (f ms)

-- What `sendImpl:` writes into the message before it is encoded.
unfoldable pub stamp : Outbox → ProtocolMessage → ProtocolMessage
stamp o pm =
    let pm' = if ack_required pm then record pm { msg_serial = some o.msg_serial } else pm in
    record pm' { messages = map_messages (with_connection_id o.connection_id) pm.messages }

abbrev pub no_data : ErrorInfo
no_data = record {
  code = pos 0;
  status_code = pos 0;
  message = codes "Encoder as failed without error.";
}

abbrev send_failed : ErrorInfo → List ℕ → List ℕ → List Output
send_failed e sent acks = sent_calls sent (some e) ++ ack_calls acks (status_error (some e))

-- The part of `sendImpl:` after the encoding has succeeded.
unfoldable pub send_encoded :
    Wire → ProtocolMessage → List ℕ → List ℕ → Outbox → Outbox × List Output
send_encoded w pm sent acks o = (
  if ack_required pm
      then record o {
        msg_serial = int64 (o.msg_serial +ℤ pos 1);
        pending_messages = o.pending_messages ++ record { msg = pm; ack_callbacks = acks } ∷ [];
      }
      else o,
  if w.transmits pm then transmit pm ∷ sent_calls sent none else [],
)

-- sendImpl:sentCallback:ackCallback:
unfoldable pub send_impl : Wire → ProtocolMessage → List ℕ → List ℕ → Outbox → Outbox × List Output
send_impl w pm sent acks o =
    let pm' = stamp o pm in
    elim (w.encode pm') [
      | refused e ↦ (o, send_failed e sent acks)
      | nothing ↦ (o, send_failed no_data sent acks)
      | bytes b ↦ send_encoded w pm' sent acks o
    ]

-- Appends to the last queued message if that can be merged, and to the queue if not.
unfoldable pub enqueue : ProtocolMessage → List ℕ → List Queued → List Queued
enqueue pm acks [] = record { msg = pm; sent_callbacks = []; ack_callbacks = acks } ∷ []
enqueue pm acks (q ∷ []) =
    let (merged, done) = merge_from q.msg pm in
    if done
    then record q { msg = merged; ack_callbacks = q.ack_callbacks ++ acks } ∷ []
    else q ∷ record { msg = pm; sent_callbacks = []; ack_callbacks = acks } ∷ []
enqueue pm acks (q ∷ r ∷ qs) = q ∷ enqueue pm acks (r ∷ qs)

abbrev pub or_error : Option ErrorInfo → ErrorInfo → ErrorInfo
or_error none e = e
or_error (some e) _ = e

abbrev pub not_sendable : ConnectionState → ErrorInfo
not_sendable s = record {
  code = pos 90000;
  status_code = pos 400;
  message = codes "not possile to send message (state is " ++ connection_state_name s ++ codes ")";
}

-- send:sentCallback:ackCallback:
unfoldable pub send : Wire → ProtocolMessage → List ℕ → List ℕ → Outbox → Outbox × List Output
send w pm sent acks o =
    if should_send_events o
    then send_impl w pm sent acks o
    else if should_queue_events o
    then (record o { queued_messages = enqueue pm acks o.queued_messages }, [])
    else (o, ack_calls acks (status_error (some (or_error o.error_reason (not_sendable o.state)))))

unfoldable pub send_pending : Wire → List Pending → Outbox → Outbox × List Output
send_pending w [] o = (o, [])
send_pending w (p ∷ ps) o =
    let (o1, out1) = send w p.msg [] p.ack_callbacks o in
    let (o2, out2) = send_pending w ps o1 in (o2, out1 ++ out2)

-- resendPendingMessages
unfoldable pub resend_pending_messages : Wire → Outbox → Outbox × List Output
resend_pending_messages w o = send_pending w o.pending_messages (record o { pending_messages = [] })

abbrev pub acknowledge : Status → List Pending → List Output
acknowledge s [] = []
acknowledge s (p ∷ ps) = ack_calls p.ack_callbacks s ++ acknowledge s ps

-- failPendingMessages:
unfoldable pub fail_pending_messages : Status → Outbox → Outbox × List Output
fail_pending_messages s o = (record o { pending_messages = [] }, acknowledge s o.pending_messages)

unfoldable pub send_queued : Wire → List Queued → Outbox → Outbox × List Output
send_queued w [] o = (o, [])
send_queued w (q ∷ qs) o =
    let (o1, out1) = send_impl w q.msg q.sent_callbacks q.ack_callbacks o in
    let (o2, out2) = send_queued w qs o1 in (o2, out1 ++ out2)

-- sendQueuedMessages
unfoldable pub send_queued_messages : Wire → Outbox → Outbox × List Output
send_queued_messages w o = send_queued w o.queued_messages (record o { queued_messages = [] })

abbrev pub fail_all : Status → List Queued → List Output
fail_all s [] = []
fail_all s (q ∷ qs) =
    (sent_calls q.sent_callbacks s.error_info ++ ack_calls q.ack_callbacks s) ++ fail_all s qs

-- failQueuedMessages:
unfoldable pub fail_queued_messages : Status → Outbox → Outbox × List Output
fail_queued_messages s o = (record o { queued_messages = [] }, fail_all s o.queued_messages)

-- The length of an NSRange from 0 for an `int` count: `count > array.count` compares without signs.
unfoldable pub range_length : ℤ → List Pending → ℕ
range_length count ps = if ltb (length ps) (unsigned64 count) then length ps else unsigned64 count

-- The second `if` of `ack:`: how many messages stand before `serial`.
unfoldable pub skipped : ℤ → Outbox → ℕ
skipped serial o =
    if ltb_ℤ o.pending_message_start_serial serial
    then range_length (int32 (serial -ℤ o.pending_message_start_serial)) o.pending_messages
    else 0

-- The rest of `ack:`: the skipped messages are nacked, and `count` messages after them acked.
unfoldable pub settle : ℕ → ℤ → ℤ → Option ErrorInfo → Outbox → Outbox × List Output
settle before serial count e o =
    let rest = drop before o.pending_messages in
    let acked = range_length count rest in
    (
      record o {
        pending_messages = drop acked rest;
        pending_message_start_serial = int64 (serial +ℤ count);
      },
      acknowledge (status_error e) (take before o.pending_messages)
          ++ acknowledge status_ok (take acked rest),
    )

-- ack:
unfoldable pub ack : ℤ → ℤ → Option ErrorInfo → Outbox → Outbox × List Output
ack serial count e o =
    let start = o.pending_message_start_serial in
    if ltb_ℤ serial start
    then settle 0 start (int32 (count -ℤ int32 (start -ℤ serial))) e o
    else settle (skipped serial o) serial count e o

-- nack:
unfoldable pub nack : ℤ → ℤ → Option ErrorInfo → Outbox → Outbox × List Output
nack serial count e o =
    let start = o.pending_message_start_serial in
    let count' = if eqb_ℤ serial start then count else int32 (count -ℤ int32 (start -ℤ serial)) in
    let nacked = range_length count' o.pending_messages in
    (
      record o {
        pending_messages = drop nacked o.pending_messages;
        pending_message_start_serial = int64 (start +ℤ count');
      },
      acknowledge (status_error e) (take nacked o.pending_messages),
    )
