-- ===== src/Emitter/Delivered.antt =====
-- What the delivery of an event by Source/ARTEventEmitter.m takes from the weight of a listener.
use ably_cocoa.Base.{
  ℕ, suc, ◌+◌, ◌≤◌, ◌≡◌, refl, ◌∙◌, ap, subst, Bool, true, false, ◌&&◌, ◌||◌, not, Option, none,
  some, List, [], ◌∷◌, Text, ltb, ◌==◌, ==_iff, if◌then◌else◌, is_some, Bool-cases, inl, inr, arith,
}
use ably_cocoa.Emitter.{
  Listener, Emitter, called, Result, stop_timer, remove_observer, forgotten, counted, receive,
  receive_once, receive_on, then_do, notify, same_event, emit, post,
}
use ably_cocoa.Emitter.Notified.{
  calls, calls-append, weight, weigh, weigh-update_other, weigh-update_same, remove_observer-weigh,
  remove_observer-weigh_other, forgotten-observers,
}

-- The calls of the listener `k` and the weight that remains come from the weight before; `rest` remains
-- at least.
pub record Spends (k rest : ℕ) (m : Emitter) (r : Result) : Type 0 where
  pub spent : calls k r.1 + weigh k r.0.observers ≤ weigh k m.observers
  pub left : rest ≤ weigh k r.0.observers
  pub next : r.0.next_id ≡ m.next_id

pub unchanged-Spends :
    (k rest : ℕ) (m : Emitter) → rest ≤ weigh k m.observers → Spends k rest m (m, [])
unchanged-Spends k rest m h = record { spent = omega arith; left = h; next = refl }

pub then_do-Spends :
    (k rest rest' : ℕ) (m : Emitter) (r : Result) (f : Emitter → Result)
    → Spends k rest m r
    → Spends k rest' r.0 (f r.0)
    → Spends k rest' m (then_do r f)
then_do-Spends k rest rest' m (m', out) f a b = record {
  spent = omega (arith, a.spent, b.spent, calls-append k out (f m').1);
  left = b.left;
  next = b.next ∙ a.next;
}

counted-weigh : (k j : ℕ) (m : Emitter) → weigh k (counted j m).observers ≡ weigh k m.observers
counted-weigh k j m =
    weigh-update_same k j (λ l. record l { count = suc l.count }) m.observers (λ l. refl)

remove_observer-next_id : (k : ℕ) (m : Emitter) → (remove_observer k m).next_id ≡ m.next_id
unfolding remove_observer
remove_observer-next_id k m = refl

forgotten-next_id :
    (k : ℕ) (event : Option Text) (m : Emitter) → (forgotten k event m).next_id ≡ m.next_id
forgotten-next_id k none m = refl
forgotten-next_id k (some e) m = refl

-- A listener that is called once and is live: its own call takes its whole weight.
module _ (k rest : ℕ) (l : Listener) (m : Emitter) (live : l.invalidated ≡ false)
    (held : weight k l + rest ≤ weigh k m.observers) (single : weigh k m.observers ≤ 1) where
  abbrev taken : Emitter
  taken = forgotten l.id l.event (remove_observer l.id (counted l.id m))

  taken-weigh :
      (b : Bool)
      → (l.id == k) ≡ b
      → weigh k taken.observers ≡ (if b then 0 else weigh k m.observers)
  taken-weigh true e =
      ap (weigh k) (forgotten-observers l.id l.event (remove_observer l.id (counted l.id m)))
      ∙ subst (λ j. weigh j (remove_observer l.id (counted l.id m)).observers ≡ 0)
          ((==_iff l.id k).0 e) (remove_observer-weigh l.id (counted l.id m))
  taken-weigh false e =
      ap (weigh k) (forgotten-observers l.id l.event (remove_observer l.id (counted l.id m)))
      ∙ remove_observer-weigh_other k l.id (counted l.id m) e
      ∙ counted-weigh k l.id m

  taken-next_id : taken.next_id ≡ m.next_id
  taken-next_id =
      forgotten-next_id l.id l.event (remove_observer l.id (counted l.id m))
      ∙ remove_observer-next_id l.id (counted l.id m)

  taken-Spends :
      (b : Bool)
      → (l.id == k) ≡ b
      → l.is_once ≡ true
      → Spends k rest m (taken, called l.id l.callback ∷ [])
  taken-Spends true e once = record {
    spent = ground (arith, taken-weigh true e);
    left = ground (arith, taken-weigh true e);
    next = taken-next_id;
  }
  taken-Spends false e once = record {
    spent = ground (arith, taken-weigh false e);
    left = ground (arith, taken-weigh false e);
    next = taken-next_id;
  }

  receive_once-Spends : l.is_once ≡ true → Spends k rest m (receive_once l m)
  receive_once-Spends once = elim (Bool-cases (ltb 0 l.count)) [
    | inl again ↦ rw again (record {
      spent = omega (arith, counted-weigh k l.id m);
      left = omega (arith, counted-weigh k l.id m);
      next = refl;
    })
    | inr first ↦ rw first (taken-Spends (l.id == k) refl once)
  ]

  receive_on-Spends : l.is_once ≡ false → Spends k rest m (receive_on l m)
  receive_on-Spends on = elim (Bool-cases (l.id == k)) [
    | inl same ↦ absurd (ground (arith))
    | inr other ↦
        let e = weigh-update_other k l.id stop_timer m.observers (λ j. refl) other in
        record { spent = ground (arith, e); left = ground (arith, e); next = refl }
  ]

-- Whatever a listener does on an event is paid from the weight.
receive-Spends :
    (k rest : ℕ) (l : Listener) (m : Emitter)
    → weight k l + rest ≤ weigh k m.observers
    → weigh k m.observers ≤ 1
    → Spends k rest m (receive l m)
unfolding receive
receive-Spends k rest l m held single =
    elim (Bool-cases (l.invalidated || is_some l.timeout && not l.timer_is_running)) [
      | inl deaf ↦ rw deaf (unchanged-Spends k rest m (omega arith))
      | inr hears ↦ rw hears (elim (Bool-cases l.is_once) [
        | inl once ↦
            rw once (
              receive_once-Spends k rest l m (not_invalidated l.invalidated hears) held single once)
        | inr on ↦
            rw on
              (receive_on-Spends k rest l m (not_invalidated l.invalidated hears) held single on)
      ])
    ]
  where
    not_invalidated :
        (b : Bool) → (b || is_some l.timeout && not l.timer_is_running) ≡ false → b ≡ false
    not_invalidated true h = h
    not_invalidated false h = refl

notify-Spends :
    (k : ℕ) (name : Option Text) (ls : List Listener) (m : Emitter)
    → weigh k ls ≤ weigh k m.observers
    → weigh k m.observers ≤ 1
    → Spends k 0 m (notify name ls m)
unfolding notify
notify-Spends k name [] m held single = unchanged-Spends k 0 m (omega arith)
notify-Spends k name (l ∷ ls) m held single =
    let first = if same_event l.event name then receive l m else (m, []) in
    let spends : Spends k (weigh k ls) m first = elim (Bool-cases (same_event l.event name)) [
      | inl named ↦ rw named (receive-Spends k (weigh k ls) l m held single)
      | inr other ↦ rw other (unchanged-Spends k (weigh k ls) m (omega arith))
    ] in
    then_do-Spends k (weigh k ls) 0 m first (notify name ls) spends
      (notify-Spends k name ls first.0 spends.left (omega (arith, spends.spent)))

-- An event that is emitted.
pub emit-Spends :
    (k : ℕ) (event : Option Text) (m : Emitter)
    → weigh k m.observers ≤ 1
    → Spends k 0 m (emit event m)
unfolding emit
emit-Spends k none m single = notify-Spends k none m.observers m (omega arith) single
emit-Spends k (some e) m single =
    let first = notify-Spends k (some e) m.observers m (omega arith) single in
    let middle = (notify (some e) m.observers m).0 in
    then_do-Spends k 0 0 m (post (some e) m) (post none) first
      (notify-Spends k none middle.observers middle (omega arith) (omega (arith, first.spent)))
