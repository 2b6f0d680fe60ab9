-- ===== src/Outbox/Session.antt =====
-- Runs of the messages that a connection holds (Source/ARTRealtime.m): messages are sent, the queue is
-- sent, and the server acknowledges messages that wait, in any order.
use ably_cocoa.Base.{ℕ, ◌+◌, ◌≤◌, ◌<◌, refl, ◌∙◌, ap, List, length, length-drop, Option, pos, arith}
use ably_cocoa.Types.{ErrorInfo}
use ably_cocoa.Message.{ProtocolMessage}
use ably_cocoa.Outbox.{Outbox, Wire, ack, nack, send, send_queued_messages}
use ably_cocoa.Outbox.Acks.{IsSmall, nack-exact}
use ably_cocoa.Outbox.Serials.{
  IsConsistent, Room, Numbered-drop, send-IsConsistent, send_queued_messages-IsConsistent,
  ack-IsConsistent,
}

-- `s` is the serial of the first message that waits, before and after.
pub data Step (w : Wire) : ℕ → Outbox → ℕ → Outbox → Type 0 where
  sends :
      (s : ℕ) (o : Outbox) (pm : ProtocolMessage) (sent acks : List ℕ)
      → Room s o
      → Step w s o s (send w pm sent acks o).0
  queue_sent :
      (s : ℕ) (o : Outbox)
      → s + length o.pending_messages + length o.queued_messages < 4611686018427387904
      → Step w s o s (send_queued_messages w o).0
  confirmed :
      (s : ℕ) (o : Outbox) (i c : ℕ) (e : Option ErrorInfo)
      → IsSmall s o
      → i + c ≤ length o.pending_messages
      → Step w s o (s + i + c) (ack (pos (s + i)) (pos c) e o).0
  denied :
      (s : ℕ) (o : Outbox) (c : ℕ) (e : Option ErrorInfo)
      → IsSmall s o
      → c ≤ length o.pending_messages
      → Step w s o (s + c) (nack (pos s) (pos c) e o).0

pub data Steps (w : Wire) (s : ℕ) (o : Outbox) : ℕ → Outbox → Type 0 where
  here : Steps w s o s o
  next : {t u : ℕ} {p q : Outbox} → Steps w s o t p → Step w t p u q → Steps w s o u q

-- A NACK of the first messages that wait leaves the serials of the rest consecutive.
nack-IsConsistent :
    (s c : ℕ) (e : Option ErrorInfo) (o : Outbox)
    → IsSmall s o
    → c ≤ length o.pending_messages
    → IsConsistent s o
    → IsConsistent (s + c) (nack (pos s) (pos c) e o).0
nack-IsConsistent s c e o small h v = rw (nack-exact s c e o small h) (record {
  start = refl;
  next = v.next ∙ ap pos (omega (arith, length-drop c o.pending_messages));
  numbered = Numbered-drop s c o.pending_messages v.numbered;
})

Step-IsConsistent :
    {w : Wire} {s t : ℕ} {o p : Outbox} → Step w s o t p → IsConsistent s o → IsConsistent t p
Step-IsConsistent {w} (sends s o pm sent acks r) v = send-IsConsistent w pm sent acks s o r v
Step-IsConsistent {w} (queue_sent s o r) v = send_queued_messages-IsConsistent w s o r v
Step-IsConsistent (confirmed s o i c e small h) v = ack-IsConsistent s i c e o small h v
Step-IsConsistent (denied s o c e small h) v = nack-IsConsistent s c e o small h v

-- However messages are sent, sent from the queue, and acknowledged or refused while they wait, the
-- messages that wait carry consecutive serials from the start serial up to the next one, and all want
-- an acknowledgement, when they did so before. The serials stay below 2 ^ 62.
pub Steps-IsConsistent :
    {w : Wire} {s : ℕ} {o : Outbox} {t : ℕ} {p : Outbox}
    → Steps w s o t p
    → IsConsistent s o
    → IsConsistent t p
Steps-IsConsistent here v = v
Steps-IsConsistent (next r st) v = Step-IsConsistent st (Steps-IsConsistent r v)
