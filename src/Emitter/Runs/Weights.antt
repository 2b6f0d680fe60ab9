-- ===== src/Emitter/Runs/Weights.antt =====
-- Runs of calls of an emitter (Source/ARTEventEmitter.m), and what a listener may still be called.
use ably_cocoa.Base.{
  ℕ, suc, ◌+◌, ◌≤◌, ◌<◌, ◌≡◌, refl, ◌∙◌, ap, subst, ==_iff, ◌⊎◌, inl, inr, Bool, true, false, ◌&&◌,
  not, Option, none, some, List, [], ◌∷◌, ◌++◌, Text, ◌==◌, Bool-cases, arith,
}
use ably_cocoa.Emitter.{
  Listener, Emitter, Result, stop_timer, update, listener, enlist, listen, same_event, off_event,
  off_listener, remove_observer, remove_observers, all_ids, off, removed_from_center, emit,
  set_timer, start_timer, stop_timer_of, time_out, run_block, then_do,
}
use ably_cocoa.Emitter.Notified.{
  calls, calls-append, weight, weigh, weigh-append, weigh-update_same, weigh-keep,
  remove_observer-weigh, remove_observer-weigh_other,
}
use ably_cocoa.Emitter.Delivered.{emit-Spends}

-- The calls of an emitter, and the two events of its queues: the time-out of a listener whose timer is
-- running, and the removal of an observer on the user queue.
pub data Call : Type 0 where
  listens : Bool → Option Text → ℕ → Call
  takes_off_event : Text → ℕ → Option Text → Call
  takes_off : ℕ → Option Text → Call
  takes_all_off : Call
  emits : Option Text → Call
  sets_timer : ℕ → ℕ → Call
  starts_timer stops_timer : ℕ → Call
  times_out : Listener → Call
  removes : ℕ → Call

abbrev pub run : Call → Emitter → Result
run (listens is_once event callback) m = (listen is_once event callback m, [])
run (takes_off_event e k event) m = (off_event e k event m, [])
run (takes_off k event) m = (off_listener k event m, [])
run takes_all_off m = (off m, [])
run (emits event) m = emit event m
run (sets_timer k block) m = (set_timer k block m, [])
run (starts_timer k) m = (start_timer k m, [])
run (stops_timer k) m = (stop_timer_of k m, [])
run (times_out l) m = time_out l m
run (removes k) m = (removed_from_center k m, [])

unfoldable pub run_all : List Call → Emitter → Result
run_all [] m = (m, [])
run_all (c ∷ cs) m = then_do (run c m) (run_all cs)

-- No call of the listener `k` but one that its weight pays for.
pub record Paid (k : ℕ) (m : Emitter) (r : Result) : Type 0 where
  pub spent : calls k r.1 + weigh k r.0.observers ≤ weigh k m.observers
  pub next : m.next_id ≤ r.0.next_id

pub remove_observer-Paid : (k j : ℕ) (m : Emitter) → Paid k m (remove_observer j m, [])
unfolding remove_observer
remove_observer-Paid k j m = elim (Bool-cases (j == k)) [
  | inl e ↦ record {
    spent = omega (
      arith,
      subst (λ i. weigh i (remove_observer j m).observers ≡ 0) ((==_iff j k).0 e)
          (remove_observer-weigh j m),
    );
    next = omega arith;
  }
  | inr e ↦ record {
    spent = omega (arith, remove_observer-weigh_other k j m e);
    next = omega arith;
  }
]

pub remove_observers-Paid :
    (k : ℕ) (js : List ℕ) (m : Emitter) → Paid k m (remove_observers js m, [])
remove_observers-Paid k [] m = record { spent = omega arith; next = omega arith }
remove_observers-Paid k (j ∷ js) m =
    let first = remove_observer-Paid k j m in
    let rest = remove_observers-Paid k js (remove_observer j m) in
    record {
      spent = omega (arith, first.spent, rest.spent);
      next = omega (arith, first.next, rest.next);
    }

pub enlist-observers :
    (k : ℕ) (event : Option Text) (m : Emitter) → (enlist k event m).observers ≡ m.observers
enlist-observers k none m = refl
enlist-observers k (some e) m = refl

pub enlist-next_id :
    (k : ℕ) (event : Option Text) (m : Emitter) → (enlist k event m).next_id ≡ m.next_id
enlist-next_id k none m = refl
enlist-next_id k (some e) m = refl

pub listen-weigh :
    (k : ℕ) (is_once : Bool) (event : Option Text) (callback : ℕ) (m : Emitter)
    → weigh k (listen is_once event callback m).observers
      ≡ weigh k m.observers + weight k (listener m.next_id event is_once callback)
unfolding listen
listen-weigh k is_once event callback m =
    ap (weigh k) (enlist-observers m.next_id event _)
    ∙ weigh-append k m.observers (listener m.next_id event is_once callback)

pub listen-next_id :
    (is_once : Bool) (event : Option Text) (callback : ℕ) (m : Emitter)
    → (listen is_once event callback m).next_id ≡ suc m.next_id
unfolding listen
listen-next_id is_once event callback m = enlist-next_id m.next_id event _

pub same_weight :
    (k j : ℕ) (f : Listener → Listener) (m : Emitter)
    → ((l : Listener) → weight k (f l) ≡ weight k l)
    → Paid k m (record m { observers = update j f m.observers }, [])
same_weight k j f m same = record {
  spent = omega (arith, weigh-update_same k j f m.observers same);
  next = omega arith;
}

pub calls-run_block : (k j : ℕ) (b : Option ℕ) → calls k (run_block j b) ≡ 0
calls-run_block k j none = refl
calls-run_block k j (some b) = refl

-- The listener `k` is one that was made before, or will be made later.
pub run-Paid :
    (k : ℕ) (c : Call) (m : Emitter)
    → (k < m.next_id) ⊎ ((run c m).0.next_id ≤ k)
    → weigh k m.observers ≤ 1
    → Paid k m (run c m)
unfolding off_listener off_event off set_timer start_timer stop_timer_of time_out
    removed_from_center
run-Paid k (listens is_once event callback) m h single =
    let e = listen-next_id is_once event callback m in
    let w = listen-weigh k is_once event callback m in
    let new : (m.next_id == k) ≡ false = elim h [
      | inl before ↦ ground arith
      | inr later ↦ ground (arith, e)
    ] in
    record { spent = ground (arith, w, new); next = omega (arith, e) }
run-Paid k (takes_off_event e j event) m h single =
    let p = remove_observer-Paid k j m in
    elim (Bool-cases (same_event (some e) event)) [
      | inl same ↦ rw same (record { spent = p.spent; next = p.next })
      | inr other ↦ rw other (record { spent = omega arith; next = omega arith })
    ]
run-Paid k (takes_off j event) m h single =
    let p = remove_observer-Paid k j m in record { spent = p.spent; next = p.next }
run-Paid k takes_all_off m h single =
    let p = remove_observers-Paid k (all_ids m.listeners ++ m.any_listeners) m in
    record { spent = p.spent; next = p.next }
run-Paid k (emits event) m h single =
    let p = emit-Spends k event m single in record { spent = p.spent; next = omega (arith, p.next) }
run-Paid k (sets_timer j block) m h single =
    same_weight k j (λ l. record l { timeout = some block }) m (λ l. refl)
run-Paid k (starts_timer j) m h single =
    same_weight k j (λ l. record l { timer_is_running = true }) m (λ l. refl)
run-Paid k (stops_timer j) m h single = same_weight k j stop_timer m (λ l. refl)
run-Paid k (times_out l) m h single =
    let p = remove_observer-Paid k l.id m in
    record { spent = omega (arith, p.spent, calls-run_block k l.id l.timeout); next = p.next }
run-Paid k (removes j) m h single = record {
  spent =
      omega (arith, weigh-keep k (λ (l : Listener). not (l.id == j && l.invalidated)) m.observers);
  next = omega arith;
}

pub run_all-Paid :
    (k : ℕ) (cs : List Call) (m : Emitter)
    → k < m.next_id
    → weigh k m.observers ≤ 1
    → calls k (run_all cs m).1 ≤ weigh k m.observers
unfolding run_all
run_all-Paid k [] m h single = omega arith
run_all-Paid k (c ∷ cs) m h single =
    let p = run-Paid k c m (inl h) single in
    let q = run_all-Paid k cs (run c m).0 (omega (arith, p.next)) (omega (arith, p.spent)) in
    omega (arith, calls-append k (run c m).1 (run_all cs (run c m).0).1, p.spent, q)
