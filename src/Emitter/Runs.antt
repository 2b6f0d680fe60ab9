-- ===== src/Emitter/Runs.antt =====
-- Runs of the emitter of Source/ARTEventEmitter.m: any calls of it, in any order.
mod Weights
unfoldable pub use Weights.*
use ably_cocoa.Base.{
  ℕ, suc, ◌+◌, ◌≤◌, ◌<◌, ◌≡◌, refl, ◌∙◌, ap, subst, ==_iff, ◌⊎◌, inl, inr, Bool, true, false, ◌&&◌,
  not, Option, none, some, List, [], ◌∷◌, ◌++◌, Text, text_eq_refl, ◌==◌, if◌then◌else◌, Bool-cases,
  arith,
}
use ably_cocoa.Emitter.{
  Listener, Emitter, Result, new_emitter, stop_timer, update, listener, enlist, listen, same_event,
  off_event, off_listener, remove_observer, remove_observers, all_ids, off, removed_from_center,
  receive, notify, emit, post, set_timer, start_timer, stop_timer_of, time_out, run_block, then_do,
}
use ably_cocoa.Emitter.Notified.{
  calls, calls-append, weight, weigh, weigh-append, weigh-update_same, weigh-keep,
  remove_observer-weigh, remove_observer-weigh_other,
}
use ably_cocoa.Emitter.Delivered.{emit-Spends}

-- No observer has a number that is still to be given.
abbrev Fresh : Emitter → Type 0
Fresh m = (k : ℕ) → m.next_id ≤ k → weigh k m.observers ≡ 0

run-Fresh : (c : Call) (m : Emitter) → Fresh m → Fresh (run c m).0
run-Fresh c m fresh k h =
    let far = m.next_id + (run c m).0.next_id in
    let grown = run-Paid far c m (inr (omega arith)) (omega (arith, fresh far (omega arith))) in
    let none_yet = fresh k (omega (arith, grown.next)) in
    omega (arith, none_yet, (run-Paid k c m (inr h) (omega (arith, none_yet))).spent)

run_all-Fresh : (cs : List Call) (m : Emitter) → Fresh m → Fresh (run_all cs m).0
unfolding run_all
run_all-Fresh [] m fresh = fresh
run_all-Fresh (c ∷ cs) m fresh = run_all-Fresh cs (run c m).0 (run-Fresh c m fresh)

-- A listener that has been taken off is never called again, whatever is done with the emitter later.
pub off_listener-IsSilent :
    (k : ℕ) (event : Option Text) (m : Emitter) (later : List Call)
    → k < m.next_id
    → calls k (run_all later (off_listener k event m)).1 ≡ 0
unfolding off_listener
off_listener-IsSilent k event m later h =
    let removed : weigh k (off_listener k event m).observers ≡ 0 = remove_observer-weigh k m in
    omega (
      arith,
      removed,
      run_all-Paid k later (off_listener k event m)
          (omega (arith, (remove_observer-Paid k k m).next)) (omega (arith, removed)),
    )

receive-first :
    (k : ℕ) (event : Option Text) (callback : ℕ) (m : Emitter)
    → calls k (receive (listener k event true callback) m).1 ≡ 1
unfolding receive
receive-first k event callback m = ground arith

-- The observer that was added last is called when the event is its own.
notify-last :
    (k : ℕ) (event : Option Text) (callback : ℕ) (ls : List Listener) (m : Emitter)
    → same_event event event ≡ true
    → 1 ≤ calls k (notify event (ls ++ listener k event true callback ∷ []) m).1
unfolding notify
notify-last k event callback [] m same =
    let last = listener k event true callback in
    rw same (omega (arith, receive-first k event callback m, calls-append k (receive last m).1 []))
notify-last k event callback (l ∷ ls) m same =
    let last = listener k event true callback in
    let first = if same_event l.event event then receive l m else (m, []) in
    omega (
      arith,
      notify-last k event callback ls first.0 same,
      calls-append k first.1 (notify event (ls ++ last ∷ []) first.0).1,
    )

emit-last :
    (m : Emitter) (event : Text) (callback : ℕ)
    → 1 ≤ calls m.next_id (emit (some event) (listen true (some event) callback m)).1
unfolding emit listen
emit-last m event callback =
    let listening = listen true (some event) callback m in
    let first = post (some event) listening in
    omega (
      arith,
      notify-last m.next_id (some event) callback m.observers listening (text_eq_refl event),
      calls-append m.next_id first.1 (post none first.0).1,
    )

once_listening :
    (m : Emitter) (event : Text) (callback : ℕ)
    → weigh m.next_id m.observers ≡ 0
    → weigh m.next_id (listen true (some event) callback m).observers ≤ 1
once_listening m event callback fresh =
    ground (arith, listen-weigh m.next_id true (some event) callback m, fresh)

-- A listener of `once:` is called at most once, whatever was done with the emitter before and is done
-- later; and when its event is emitted first, it is called exactly once.
pub listen-once :
    (q : Bool) (before later : List Call) (event : Text) (callback : ℕ)
    → let m = (run_all before (new_emitter q)).0 in
      let listening = listen true (some event) callback m in
      (calls m.next_id (run_all later listening).1 ≤ 1)
      × (calls m.next_id (run_all (emits (some event) ∷ later) listening).1 ≡ 1)
unfolding run_all
listen-once q before later event callback =
    let m = (run_all before (new_emitter q)).0 in
    let listening = listen true (some event) callback m in
    let fresh = run_all-Fresh before (new_emitter q) (λ k h. refl) m.next_id (omega arith) in
    let one : weigh m.next_id listening.observers ≤ 1 = once_listening m event callback fresh in
    let next = listen-next_id true (some event) callback m in
    let atmost =
      λ (cs : List Call). run_all-Paid m.next_id cs listening (omega (arith, next)) one in
    (
      omega (arith, atmost later, one),
      omega (
        arith,
        atmost (emits (some event) ∷ later),
        one,
        calls-append m.next_id (emit (some event) listening).1
            (run_all later (emit (some event) listening).0).1,
        emit-last m event callback,
      ),
    )
