-- ===== src/Outbox/Callbacks.antt =====
-- Which callbacks the message operations of Source/ARTRealtime.m call, and which they keep.
use ably_cocoa.Base.{
  ℕ, zero, suc, ◌≡◌, refl, ap, List, [], ◌∷◌, ◌++◌, append_assoc, take, drop, Option, ℤ, ltb_ℤ,
  Bool-cases, inl, inr,
}
use ably_cocoa.Types.{ErrorInfo, Status}
use ably_cocoa.Outbox.{
  Pending, Output, transmit, sent_call, ack_call, Outbox, ack_calls, acknowledge, ack, settle,
}

-- The callbacks that an output calls with a status.
abbrev pub ack_called : List Output → List ℕ
ack_called [] = []
ack_called (transmit pm ∷ out) = ack_called out
ack_called (sent_call c e ∷ out) = ack_called out
ack_called (ack_call c s ∷ out) = c ∷ ack_called out

-- The callbacks that wait for an acknowledgement.
abbrev pub held : List Pending → List ℕ
held [] = []
held (p ∷ ps) = p.ack_callbacks ++ held ps

pub ack_called-append :
    (xs ys : List Output) → ack_called (xs ++ ys) ≡ ack_called xs ++ ack_called ys
ack_called-append [] ys = refl
ack_called-append (transmit pm ∷ xs) ys = ack_called-append xs ys
ack_called-append (sent_call c e ∷ xs) ys = ack_called-append xs ys
ack_called-append (ack_call c s ∷ xs) ys = ap (◌∷◌ c) (ack_called-append xs ys)

pub ack_called-ack_calls : (cs : List ℕ) (s : Status) → ack_called (ack_calls cs s) ≡ cs
ack_called-ack_calls [] s = refl
ack_called-ack_calls (c ∷ cs) s = ap (◌∷◌ c) (ack_called-ack_calls cs s)

pub ack_called-acknowledge :
    (s : Status) (ps : List Pending) → ack_called (acknowledge s ps) ≡ held ps
ack_called-acknowledge s [] = refl
ack_called-acknowledge s (p ∷ ps) = rw (
  ack_called-append (ack_calls p.ack_callbacks s) (acknowledge s ps),
  ack_called-ack_calls p.ack_callbacks s,
  ack_called-acknowledge s ps,
)

pub held-append : (xs ys : List Pending) → held (xs ++ ys) ≡ held xs ++ held ys
held-append [] ys = refl
held-append (x ∷ xs) ys = rw (held-append xs ys, append_assoc)

pub held-split : (n : ℕ) (ps : List Pending) → held (take n ps) ++ held (drop n ps) ≡ held ps
held-split zero ps = refl
held-split (suc n) [] = refl
held-split (suc n) (p ∷ ps) = rw append_assoc (ap (◌++◌ p.ack_callbacks) (held-split n ps))

-- Nacking a prefix and acking the next messages calls their callbacks, in order.
split_called :
    (s t : Status) (n k : ℕ) (ps : List Pending)
    → ack_called (acknowledge s (take n ps) ++ acknowledge t (take k (drop n ps)))
        ++ held (drop k (drop n ps))
      ≡ held ps
split_called s t n k ps =
    rw
      (
        ack_called-append (acknowledge s (take n ps)) (acknowledge t (take k (drop n ps))),
        ack_called-acknowledge s (take n ps),
        ack_called-acknowledge t (take k (drop n ps)),
        append_assoc,
        held-split k (drop n ps),
      )
      (held-split n ps)

settle-called :
    (before : ℕ) (serial count : ℤ) (e : Option ErrorInfo) (o : Outbox)
    → ack_called (settle before serial count e o).1
        ++ held (settle before serial count e o).0.pending_messages
      ≡ held o.pending_messages
unfolding settle
settle-called before serial count e o = split_called _ _ _ _ o.pending_messages

-- Whatever serial and count the server sends, an ACK calls each waiting callback at most once and in
-- the order of sending: those it calls, followed by those that still wait, are those that waited.
pub ack_called-ack :
    (serial count : ℤ) (e : Option ErrorInfo) (o : Outbox)
    → ack_called (ack serial count e o).1 ++ held (ack serial count e o).0.pending_messages
      ≡ held o.pending_messages
unfolding ack
ack_called-ack serial count e o = elim (Bool-cases (ltb_ℤ serial o.pending_message_start_serial)) [
  | inl early ↦ rw early (settle-called _ _ _ e o)
  | inr late ↦ rw late (settle-called _ _ _ e o)
]
