-- ===== src/Outbox/Serials.antt =====
-- The serials of the waiting messages of Source/ARTRealtime.m: consecutive, from
-- `pendingMessageStartSerial` up to `msgSerial`.
use ably_cocoa.Base.{
  ℕ, zero, suc, ◌+◌, ◌≤◌, ◌<◌, ◌≡◌, refl, ◌∙◌, ap, List, [], ◌∷◌, ◌++◌, drop, length, length-append,
  length-drop, Option, some, pos, arith, true, Bool-cases, inl, inr, int64-add, int64, ◌+ℤ◌,
}
use ably_cocoa.Types.{ErrorInfo}
use ably_cocoa.Message.{ProtocolMessage, ack_required}
use ably_cocoa.Outbox.{
  Pending, Queued, Outbox, Wire, Encoded, bytes, refused, nothing, ack, send, send_impl,
  send_encoded, send_queued, send_queued_messages, stamp, should_send_events, should_queue_events,
}
use ably_cocoa.Outbox.Acks.{IsSmall, ack-exact}

-- The messages carry the serials `n`, `n + 1`, … and all want an acknowledgement.
abbrev pub Numbered : ℕ → List Pending → Type 0
Numbered n [] = Unit {0}
Numbered n (p ∷ ps) =
    (p.msg.msg_serial ≡ some (pos n)) × (ack_required p.msg ≡ true) × Numbered (suc n) ps

pub record IsConsistent (s : ℕ) (o : Outbox) : Type 0 where
  pub start : o.pending_message_start_serial ≡ pos s
  pub next : o.msg_serial ≡ pos (s + length o.pending_messages)
  pub numbered : Numbered s o.pending_messages

pub Numbered-snoc :
    (n : ℕ) (ps : List Pending) (p : Pending)
    → Numbered n ps
    → p.msg.msg_serial ≡ some (pos (n + length ps))
    → ack_required p.msg ≡ true
    → Numbered n (ps ++ p ∷ [])
Numbered-snoc n [] p h e a = (e ∙ rw (add-zero n), a, tt)
  where
    add-zero : (k : ℕ) → k + 0 ≡ k
    add-zero k = omega arith
Numbered-snoc n (q ∷ ps) p h e a =
    (h.0, h.1, Numbered-snoc (suc n) ps p h.2 (e ∙ rw (add_suc n (length ps))) a)
  where
    add_suc : (j k : ℕ) → j + suc k ≡ suc j + k
    add_suc j k = omega arith

pub Numbered-drop : (n k : ℕ) (ps : List Pending) → Numbered n ps → Numbered (n + k) (drop k ps)
Numbered-drop n zero ps h = rw (add-zero n) h
  where
    add-zero : (j : ℕ) → j + 0 ≡ j
    add-zero j = omega arith
Numbered-drop n (suc k) [] h = tt
Numbered-drop n (suc k) (p ∷ ps) h = rw (add_suc n k) (Numbered-drop (suc n) k ps h.2)
  where
    add_suc : (i j : ℕ) → i + suc j ≡ suc i + j
    add_suc i j = omega arith

pub stamp-ack_required :
    (o : Outbox) (pm : ProtocolMessage) → ack_required (stamp o pm) ≡ ack_required pm
unfolding stamp ack_required
stamp-ack_required o pm = ground arith

pub stamp-msg_serial :
    (o : Outbox) (pm : ProtocolMessage)
    → ack_required pm ≡ true
    → (stamp o pm).msg_serial ≡ some o.msg_serial
unfolding stamp
stamp-msg_serial o pm h = rw h

-- Room for one more serial.
abbrev pub Room : ℕ → Outbox → Type 0
Room s o = s + length o.pending_messages < 4611686018427387904

send_encoded-IsConsistent :
    (w : Wire) (pm : ProtocolMessage) (sent acks : List ℕ) (s : ℕ) (o : Outbox)
    → Room s o
    → IsConsistent s o
    → IsConsistent s (send_encoded w (stamp o pm) sent acks o).0
unfolding send_encoded
send_encoded-IsConsistent w pm sent acks s o r v = elim (Bool-cases (ack_required pm)) [
  | inr plain ↦ rw (stamp-ack_required o pm, plain) v
  | inl wants ↦
      rw (stamp-ack_required o pm, wants)
        (record {
          start = v.start;
          next =
              ap (λ x. int64 (x +ℤ pos 1)) v.next
              ∙ int64-add (s + length o.pending_messages) 1 (omega arith)
              ∙ ap pos (
                  omega (
                    arith,
                    length-append o.pending_messages
                        (record { msg = stamp o pm; ack_callbacks = acks } ∷ []),
                  ));
          numbered =
              Numbered-snoc s o.pending_messages _ v.numbered
                (stamp-msg_serial o pm wants ∙ ap some v.next) (stamp-ack_required o pm ∙ wants);
        })
]

-- Sending a message keeps the serials consecutive, whether the encoding succeeds or fails.
pub send_impl-IsConsistent :
    (w : Wire) (pm : ProtocolMessage) (sent acks : List ℕ) (s : ℕ) (o : Outbox)
    → Room s o
    → IsConsistent s o
    → IsConsistent s (send_impl w pm sent acks o).0
unfolding send_impl
send_impl-IsConsistent w pm sent acks s o r v = cases (w.encode (stamp o pm)) refl
  where
    cases :
        (x : Encoded) → w.encode (stamp o pm) ≡ x → IsConsistent s (send_impl w pm sent acks o).0
    cases (refused e) h = rw (h, send_impl) v
    cases nothing h = rw (h, send_impl) v
    cases (bytes b) h = rw (h, send_impl) (send_encoded-IsConsistent w pm sent acks s o r v)

-- `send:` keeps the serials consecutive in every connection state.
pub send-IsConsistent :
    (w : Wire) (pm : ProtocolMessage) (sent acks : List ℕ) (s : ℕ) (o : Outbox)
    → Room s o
    → IsConsistent s o
    → IsConsistent s (send w pm sent acks o).0
unfolding send
send-IsConsistent w pm sent acks s o r v = elim (Bool-cases (should_send_events o)) [
  | inl now ↦ rw now (send_impl-IsConsistent w pm sent acks s o r v)
  | inr later ↦ rw later (elim (Bool-cases (should_queue_events o)) [
    | inl queue ↦ rw queue (record { start = v.start; next = v.next; numbered = v.numbered })
    | inr no' ↦ rw no' v
  ])
]

send_encoded-length :
    (w : Wire) (pm : ProtocolMessage) (sent acks : List ℕ) (o : Outbox)
    → length (send_encoded w pm sent acks o).0.pending_messages ≤ length o.pending_messages + 1
unfolding send_encoded
send_encoded-length w pm sent acks o =
    ground
      (arith, length-append o.pending_messages (record { msg = pm; ack_callbacks = acks } ∷ []))

send_impl-length :
    (w : Wire) (pm : ProtocolMessage) (sent acks : List ℕ) (o : Outbox)
    → length (send_impl w pm sent acks o).0.pending_messages ≤ length o.pending_messages + 1
unfolding send_impl
send_impl-length w pm sent acks o = cases (w.encode (stamp o pm)) refl
  where
    cases :
        (x : Encoded)
        → w.encode (stamp o pm) ≡ x
        → length (send_impl w pm sent acks o).0.pending_messages ≤ length o.pending_messages + 1
    cases (refused e) h = rw (h, send_impl) (omega arith)
    cases nothing h = rw (h, send_impl) (omega arith)
    cases (bytes b) h = rw (h, send_impl) (send_encoded-length w (stamp o pm) sent acks o)

send_queued-IsConsistent :
    (w : Wire) (qs : List Queued) (s : ℕ) (o : Outbox)
    → s + length o.pending_messages + length qs < 4611686018427387904
    → IsConsistent s o
    → IsConsistent s (send_queued w qs o).0
unfolding send_queued
send_queued-IsConsistent w [] s o r v = v
send_queued-IsConsistent w (q ∷ qs) s o r v =
    send_queued-IsConsistent w qs s (send_impl w q.msg q.sent_callbacks q.ack_callbacks o).0
      (omega (arith, send_impl-length w q.msg q.sent_callbacks q.ack_callbacks o))
      (send_impl-IsConsistent w q.msg q.sent_callbacks q.ack_callbacks s o (omega arith) v)

-- Sending the queue keeps the serials consecutive.
pub send_queued_messages-IsConsistent :
    (w : Wire) (s : ℕ) (o : Outbox)
    → s + length o.pending_messages + length o.queued_messages < 4611686018427387904
    → IsConsistent s o
    → IsConsistent s (send_queued_messages w o).0
unfolding send_queued_messages
send_queued_messages-IsConsistent w s o r v =
    send_queued-IsConsistent w o.queued_messages s (record o { queued_messages = [] }) r
      (record { start = v.start; next = v.next; numbered = v.numbered })

-- An ACK of messages that wait leaves the serials of the rest consecutive, from the new start.
pub ack-IsConsistent :
    (s i c : ℕ) (e : Option ErrorInfo) (o : Outbox)
    → IsSmall s o
    → i + c ≤ length o.pending_messages
    → IsConsistent s o
    → IsConsistent (s + i + c) (ack (pos (s + i)) (pos c) e o).0
ack-IsConsistent s i c e o small h v = rw (ack-exact s i c e o small h) (record {
  start = refl;
  next = v.next ∙ ap pos (omega (arith, length-drop (i + c) o.pending_messages));
  numbered = rw (plus_assoc s i c) (Numbered-drop s (i + c) o.pending_messages v.numbered);
})
  where
    plus_assoc : (a b d : ℕ) → a + b + d ≡ a + (b + d)
    plus_assoc a b d = omega arith
