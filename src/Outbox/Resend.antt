-- ===== src/Outbox/Resend.antt =====
-- `resendPendingMessages` of Source/ARTRealtime.m, on a connection that was resumed.
use ably_cocoa.Base.{
  ℕ, zero, suc, ◌+◌, ◌<◌, ◌≡◌, refl, sym, ◌∙◌, ap, List, [], ◌∷◌, ◌++◌, append-nil, append_assoc,
  take, length, length-append, take-all, drop-all, Option, some, pos, arith, true, false, int64-add,
  ltb_ℤ, int64, ◌+ℤ◌,
}
use ably_cocoa.Types.{ErrorInfo, status_error}
use ably_cocoa.Message.{ProtocolMessage, ack_required}
use ably_cocoa.Outbox.{
  Pending, Outbox, Wire, bytes, acknowledge, ack, settle, send, send_impl, send_encoded,
  send_pending, resend_pending_messages, stamp, should_send_events, range_length,
}
use ably_cocoa.Outbox.Callbacks.{held, held-append}
use ably_cocoa.Outbox.Acks.{IsSmall, skipped_lem}
use ably_cocoa.Outbox.Serials.{
  Numbered, Numbered-snoc, IsConsistent, stamp-ack_required, stamp-msg_serial,
}

-- The connection is up and the encoder accepts every message.
pub record IsUp (w : Wire) (o : Outbox) : Type 0 where
  pub sends : should_send_events o ≡ true
  pub encodes : (pm : ProtocolMessage) → (b : List ℕ) × (w.encode pm ≡ bytes b)

-- The state after a message that wants an acknowledgement has been sent.
abbrev pub sent_one : ProtocolMessage → List ℕ → Outbox → Outbox
sent_one pm acks o = record o {
  msg_serial = int64 (o.msg_serial +ℤ pos 1);
  pending_messages = o.pending_messages ++ record { msg = stamp o pm; ack_callbacks = acks } ∷ [];
}

pub send-up :
    (w : Wire) (pm : ProtocolMessage) (acks : List ℕ) (o : Outbox)
    → IsUp w o
    → ack_required pm ≡ true
    → (send w pm [] acks o).0 ≡ sent_one pm acks o
unfolding send send_impl send_encoded
send-up w pm acks o up wants =
    let (b, e) = up.encodes (stamp o pm) in
    rw (up.sends, e, send_impl, stamp-ack_required o pm, wants)

IsUp-sent_one :
    (w : Wire) (pm : ProtocolMessage) (acks : List ℕ) (o : Outbox)
    → IsUp w o
    → IsUp w (sent_one pm acks o)
unfolding should_send_events
IsUp-sent_one w pm acks o up = record { sends = up.sends; encodes = up.encodes }

-- Every message waits for an acknowledgement of its own.
abbrev Required : List Pending → Type 0
Required [] = Unit {0}
Required (p ∷ ps) = (ack_required p.msg ≡ true) × Required ps

Numbered-Required : (n : ℕ) (ps : List Pending) → Numbered n ps → Required ps
Numbered-Required n [] h = tt
Numbered-Required n (p ∷ ps) h = (h.1, Numbered-Required (suc n) ps h.2)

-- The waiting messages after a resend: those before it, and those resent under the next serials.
record Resent (m : ℕ) (ps : List Pending) (o o' : Outbox) : Type 0 where
  same_start : o'.pending_message_start_serial ≡ o.pending_message_start_serial
  count : length o'.pending_messages ≡ length o.pending_messages + length ps
  callbacks : held o'.pending_messages ≡ held o.pending_messages ++ held ps
  serials : Numbered m o'.pending_messages

sent_one-length :
    (pm : ProtocolMessage) (acks : List ℕ) (o : Outbox)
    → length (sent_one pm acks o).pending_messages ≡ length o.pending_messages + 1
sent_one-length pm acks o = length-append o.pending_messages _

-- The serials before the next message, and those of the rest, make those of both.
Resent-cons :
    (m : ℕ) (p : Pending) (ps : List Pending) (o o' : Outbox)
    → Resent m ps (sent_one p.msg p.ack_callbacks o) o'
    → Resent m (p ∷ ps) o o'
Resent-cons m p ps o o' r = record {
  same_start = r.same_start;
  count = omega (arith, r.count, sent_one-length p.msg p.ack_callbacks o);
  callbacks = r.callbacks ∙ rw (held-append o.pending_messages _, append_assoc, append-nil);
  serials = r.serials;
}

send_pending-Resent :
    (w : Wire) (m : ℕ) (ps : List Pending) (o : Outbox)
    → IsUp w o
    → Required ps
    → m + length o.pending_messages + length ps < 4611686018427387904
    → o.msg_serial ≡ pos (m + length o.pending_messages)
    → Numbered m o.pending_messages
    → Resent m ps o (send_pending w ps o).0
unfolding send_pending
send_pending-Resent w m [] o up req room next num = record {
  same_start = refl;
  count = omega arith;
  callbacks = sym (append-nil _);
  serials = num;
}
send_pending-Resent w m (p ∷ ps) o up req room next num =
    let grown = sent_one-length p.msg p.ack_callbacks o in
    rw (send-up w p.msg p.ack_callbacks o up req.0) (
      Resent-cons m p ps o _ (
        send_pending-Resent w m ps (sent_one p.msg p.ack_callbacks o)
          (IsUp-sent_one w p.msg p.ack_callbacks o up) req.1 (omega arith)
          (ap (λ x. int64 (x +ℤ pos 1)) next
            ∙ int64-add (m + length o.pending_messages) 1 (omega arith)
            ∙ ap pos (omega arith))
          (Numbered-snoc m o.pending_messages _ num (stamp-msg_serial o p.msg req.0 ∙ ap some next)
            (stamp-ack_required o p.msg ∙ req.0))))

-- After a resend of the `n` waiting messages the first of them carries the serial `s + n`, but the
-- start stays at `s`.
pub resend-serials :
    (w : Wire) (s : ℕ) (o : Outbox)
    → IsUp w o
    → IsConsistent s o
    → s + length o.pending_messages + length o.pending_messages < 4611686018427387904
    → let o' = (resend_pending_messages w o).0 in
      (o'.pending_message_start_serial ≡ pos s)
      × (length o'.pending_messages ≡ length o.pending_messages)
      × (held o'.pending_messages ≡ held o.pending_messages)
      × Numbered (s + length o.pending_messages) o'.pending_messages
unfolding resend_pending_messages should_send_events
resend-serials w s o up v room =
    let r =
      send_pending-Resent w (s + length o.pending_messages) o.pending_messages
        (record o { pending_messages = [] }) (record { sends = up.sends; encodes = up.encodes })
        (Numbered-Required s o.pending_messages v.numbered) (omega arith)
        (v.next ∙ ap pos (omega arith)) tt in
    (r.same_start ∙ v.start, r.count ∙ omega arith, r.callbacks, r.serials)

pub take-none : (n : ℕ) → take {A = Pending} n [] ≡ []
take-none zero = refl
take-none (suc n) = refl

ack-beyond :
    (s : ℕ) (e : Option ErrorInfo) (o : Outbox)
    → IsSmall s o
    → (ack (pos (s + length o.pending_messages)) (pos (length o.pending_messages)) e o).1
      ≡ acknowledge (status_error e) o.pending_messages
unfolding ack settle
ack-beyond s e o small =
    let n = length o.pending_messages in
    let late : ltb_ℤ (pos (s + n)) o.pending_message_start_serial ≡ false =
      rw small.start (ground arith) in
    rw (
      late,
      skipped_lem s n o small (omega arith),
      take-all n o.pending_messages (omega arith),
      drop-all n o.pending_messages (omega arith),
      take-none (range_length (pos n) []),
      append-nil,
    )

-- After a successful resume, the ACK of exactly the messages that were resent, under the serials
-- they were resent with, reports an error to each of their callbacks.
pub resend-nacked :
    (w : Wire) (s : ℕ) (e : Option ErrorInfo) (o : Outbox)
    → IsUp w o
    → IsConsistent s o
    → IsSmall s o
    → let n = length o.pending_messages in
      let o' = (resend_pending_messages w o).0 in
      Numbered (s + n) o'.pending_messages
      × (held o'.pending_messages ≡ held o.pending_messages)
      × ((ack (pos (s + n)) (pos n) e o').1 ≡ acknowledge (status_error e) o'.pending_messages)
resend-nacked w s e o up v small =
    let r = resend-serials w s o up v (omega (arith, small.few, small.low)) in
    (
      r.3,
      r.2,
      rw (← r.1) (
          ack-beyond s e (resend_pending_messages w o).0
            (record { start = r.0; few = omega (arith, r.1, small.few); low = small.low })),
    )
