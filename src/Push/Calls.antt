-- ===== src/Push/Calls.antt =====
-- Runs of the activation machine of Source/ARTPushActivationStateMachine.m, and the calls of a client
-- after a deregistration that failed.
use ably_cocoa.Base.{
  ◌≡◌, refl, sym, ◌∙◌, ap, true, false, Bool, none, some, List, [], ◌∷◌, ◌++◌, arith, all, keep,
  Bool-cases, inr, append-nil, append_assoc, inl,
}
use ably_cocoa.Push.{
  waiting_for_deregistration, Event, called_activate, called_deactivate, Effect, Machine,
  transition, consume, handle_event, persist, is_activate, after_effects,
}
use ably_cocoa.Push.Laws.{
  Blocked, IsQuiet, Settles, handle_event-IsQuiet, handle_event-none, handle_event-some,
  consume-none, moved, postponed-IsQuiet, persist-IsQuiet, Blocked-same,
}

-- The machine handles the events one after the other.
abbrev pub run : List Event → Machine → Machine × List Effect
run [] m = (m, [])
run (e ∷ es) m = let r = handle_event e m in after_effects r.1 (run es r.0)

IsQuiet-run : (es : List Event) (m : Machine) → IsQuiet m → IsQuiet (run es m).0
IsQuiet-run [] m q = q
IsQuiet-run (e ∷ es) m q = IsQuiet-run es (handle_event e m).0 (handle_event-IsQuiet e m (inl q))

-- If the first pending event is not for the current state (as when no event is pending), or the first
-- event is taken, then after any events that are handled one after the other the first one pending, if
-- there is one, is not for the state that is reached.
pub run-IsQuiet :
    (e : Event) (es : List Event) (m : Machine) → Settles e m → IsQuiet (run (e ∷ es) m).0
run-IsQuiet e es m h = IsQuiet-run es (handle_event e m).0 (handle_event-IsQuiet e m h)

-- The events that `activate` and `deactivate` send.
abbrev pub is_call : Event → Bool
is_call called_activate = true
is_call called_deactivate = true
is_call _ = false

-- The machine has not moved, nor has it done anything; the events are pending after the earlier ones.
record Stuck (es : List Event) (m : Machine) (r : Machine × List Effect) : Type 0 where
  current : r.0.current ≡ waiting_for_deregistration
  effects : r.1 ≡ []
  device : r.0.device ≡ m.device
  pending : r.0.pending_events ≡ m.pending_events ++ es
  quiet : IsQuiet r.0

waiting-Stuck :
    (m : Machine) → m.current ≡ waiting_for_deregistration → IsQuiet m → Stuck [] m (m, [])
waiting-Stuck m h q = record {
  current = h;
  effects = refl;
  device = refl;
  pending = sym (append-nil m.pending_events);
  quiet = q;
}

consume-quiet :
    (es : List Event) (m : Machine)
    → Blocked m es
    → consume es m ≡ (record m { pending_events = es }, [])
unfolding consume
consume-quiet [] m b = refl
consume-quiet (e ∷ es) m b = consume-none e es m b

refuses-activate :
    (m : Machine)
    → m.current ≡ waiting_for_deregistration
    → transition m.instance_client_id m.current called_activate m.device ≡ none
unfolding transition
refuses-activate m h = rw h refl

takes-deactivate :
    (m : Machine)
    → m.current ≡ waiting_for_deregistration
    → transition m.instance_client_id m.current called_deactivate m.device
      ≡ some (waiting_for_deregistration, m.device, [])
unfolding transition
takes-deactivate m h = rw h refl

activate-Stuck :
    (m : Machine)
    → m.current ≡ waiting_for_deregistration
    → IsQuiet m
    → Stuck (called_activate ∷ []) m (handle_event called_activate m)
activate-Stuck m h q =
    let refused = refuses-activate m h in
    rw (handle_event-none called_activate m refused) (record {
      current = h;
      effects = refl;
      device = refl;
      pending = refl;
      quiet = postponed-IsQuiet called_activate m q refused;
    })

-- The machine that has taken `deactivate`, before it is stored.
abbrev untouched : Machine → Machine
untouched m = moved called_deactivate m waiting_for_deregistration m.device

deactivate-Stuck :
    (m : Machine)
    → m.current ≡ waiting_for_deregistration
    → IsQuiet m
    → Stuck [] m (handle_event called_deactivate m)
unfolding persist
deactivate-Stuck m h q =
    let b = Blocked-same m (untouched m) m.pending_events refl (sym h) refl q in
    rw
      (
        handle_event-some called_deactivate m waiting_for_deregistration m.device []
            (takes-deactivate m h),
        consume-quiet m.pending_events (untouched m) b,
      )
      (record {
        current = refl;
        effects = refl;
        device = refl;
        pending = sym (append-nil m.pending_events);
        quiet = persist-IsQuiet (untouched m) b;
      })

call-Stuck :
    (e : Event) (m : Machine)
    → is_call e ≡ true
    → m.current ≡ waiting_for_deregistration
    → IsQuiet m
    → Stuck (keep is_activate (e ∷ [])) m (handle_event e m)
call-Stuck called_activate m c h q = activate-Stuck m h q
call-Stuck called_deactivate m c h q = deactivate-Stuck m h q
call-Stuck _ m c h q = absurd (ground arith)

keep-cons :
    (e : Event) (es : List Event)
    → keep is_activate (e ∷ []) ++ keep is_activate es ≡ keep is_activate (e ∷ es)
keep-cons e es = elim (Bool-cases (is_activate e)) [
  | inl hit ↦ rw hit refl
  | inr miss ↦ rw miss refl
]

and_then-Stuck :
    (e : Event) (es : List Event) (m : Machine)
    → Stuck (keep is_activate (e ∷ [])) m (handle_event e m)
    → Stuck (keep is_activate es) (handle_event e m).0 (run es (handle_event e m).0)
    → Stuck (keep is_activate (e ∷ es)) m (run (e ∷ es) m)
and_then-Stuck e es m a b = record {
  current = b.current;
  effects = rw (a.effects, b.effects) refl;
  device = b.device ∙ a.device;
  pending =
      b.pending
      ∙ ap (λ xs. xs ++ keep is_activate es) a.pending
      ∙ append_assoc m.pending_events (keep is_activate (e ∷ [])) (keep is_activate es)
      ∙ ap (λ xs. m.pending_events ++ xs) (keep-cons e es);
  quiet = b.quiet;
}

run-Stuck :
    (es : List Event) (m : Machine)
    → all is_call es ≡ true
    → m.current ≡ waiting_for_deregistration
    → IsQuiet m
    → Stuck (keep is_activate es) m (run es m)
run-Stuck [] m c h q = waiting-Stuck m h q
run-Stuck (e ∷ es) m c h q =
    let a = call-Stuck e m (ground arith) h q in
    and_then-Stuck e es m a (run-Stuck es (handle_event e m).0 (ground arith) a.current a.quiet)

-- A machine that waits for a deregistration, and whose first pending event (if there is one) is not
-- for that state, never leaves it by calls of the client: over any calls of `activate` and
-- `deactivate`, handled one after the other, it stays in the state, with the same device, and starts no
-- request and no callback. Every `activate` is queued, in order, and every `deactivate` is swallowed.
pub deregistration_stuck :
    (calls : List Event) (m : Machine)
    → all is_call calls ≡ true
    → m.current ≡ waiting_for_deregistration
    → IsQuiet m
    → let r = run calls m in
      (r.0.current ≡ waiting_for_deregistration)
      × (r.0.device ≡ m.device)
      × (r.1 ≡ [])
      × (r.0.pending_events ≡ m.pending_events ++ keep is_activate calls)
deregistration_stuck calls m c h q =
    let s = run-Stuck calls m c h q in (s.current, s.device, s.effects, s.pending)
