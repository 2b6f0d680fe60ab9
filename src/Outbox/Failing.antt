-- ===== src/Outbox/Failing.antt =====
-- The serials after `failPendingMessages:` of Source/ARTRealtime.m, which forgets the waiting messages.
use ably_cocoa.Base.{
  ℕ, ◌+◌, ◌-◌, ◌≤◌, ◌<◌, ◌≡◌, refl, ap, ◌∙◌, List, [], ◌∷◌, length, append-nil, Option, some, ℤ,
  pos, ltb_ℤ, int32-sub, unsigned64, map, arith, true, false,
}
use ably_cocoa.Types.{ErrorInfo, Status, status_error}
use ably_cocoa.Message.{ProtocolMessage, ack_required}
use ably_cocoa.Outbox.{
  Pending, Outbox, Wire, ack, settle, skipped, range_length, send, fail_pending_messages, ack_calls,
  should_send_events, stamp,
}
use ably_cocoa.Outbox.Acks.{IsSmall}
use ably_cocoa.Outbox.Serials.{IsConsistent, stamp-msg_serial}
use ably_cocoa.Outbox.Resend.{IsUp, take-none, send-up, sent_one}

range_length-one :
    (n : ℕ) (p : Pending) → 1 ≤ n → n < 2147483648 → range_length (pos n) (p ∷ []) ≡ 1
unfolding range_length unsigned64
range_length-one n p h k = ground arith

skipped-above :
    (s n : ℕ) (o : Outbox) (p : Pending)
    → o.pending_messages ≡ p ∷ []
    → o.pending_message_start_serial ≡ pos s
    → 1 ≤ n
    → n < 2147483648
    → skipped (pos (s + n)) o ≡ 1
unfolding skipped
skipped-above s n o p one start k l =
    rw (start, one, int32-sub (s + n) s (omega arith) (omega arith))
      (ground (arith, range_length-one (s + n - s) p))

settle-one :
    (serial count : ℤ) (e : Option ErrorInfo) (o : Outbox) (p : Pending)
    → o.pending_messages ≡ p ∷ []
    → (settle 1 serial count e o).1 ≡ ack_calls p.ack_callbacks (status_error e)
unfolding settle range_length
settle-one serial count e o p one =
    rw (one, take-none (range_length count []), append-nil, append-nil)

-- One message waits, and its ACK's serial is `n` above the start.
ack-above :
    (s n : ℕ) (e : Option ErrorInfo) (o : Outbox) (p : Pending)
    → o.pending_messages ≡ p ∷ []
    → o.pending_message_start_serial ≡ pos s
    → 1 ≤ n
    → n < 2147483648
    → (ack (pos (s + n)) (pos 1) e o).1 ≡ ack_calls p.ack_callbacks (status_error e)
unfolding ack
ack-above s n e o p one start k l =
    let late : ltb_ℤ (pos (s + n)) o.pending_message_start_serial ≡ false =
      rw start (ground arith) in
    rw (late, skipped-above s n o p one start k l) (settle-one (pos (s + n)) (pos 1) e o p one)

-- When waiting messages are failed, the start of the serials stays behind: the next message that is
-- sent carries the serial after theirs, and the server's ACK of exactly that message reports an error
-- to its callbacks.
pub fail_pending_messages-nacks :
    (w : Wire) (s : ℕ) (pm : ProtocolMessage) (acks : List ℕ) (st : Status) (e : Option ErrorInfo)
    (o : Outbox)
    → IsUp w o
    → IsConsistent s o
    → IsSmall s o
    → 1 ≤ length o.pending_messages
    → ack_required pm ≡ true
    → let n = length o.pending_messages in
      let o' = (send w pm [] acks (fail_pending_messages st o).0).0 in
      (map (λ p. p.msg.msg_serial) o'.pending_messages ≡ some (pos (s + n)) ∷ [])
      × ((ack (pos (s + n)) (pos 1) e o').1 ≡ ack_calls acks (status_error e))
unfolding fail_pending_messages should_send_events
fail_pending_messages-nacks w s pm acks st e o up v small some' wants =
    let o1 = record o { pending_messages = [] } in
    let sent = send-up w pm acks o1 (record { sends = up.sends; encodes = up.encodes }) wants in
    rw sent (
      ap (λ x. x ∷ []) (stamp-msg_serial o1 pm wants ∙ ap some v.next),
      ack-above s (length o.pending_messages) e (sent_one pm acks o1)
          (record { msg = stamp o1 pm; ack_callbacks = acks }) refl v.start some' small.few,
    )
