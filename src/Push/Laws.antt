-- ===== src/Push/Laws.antt =====
-- How the activation machine of Source/ARTPushActivationStateMachine.m takes its events.
use ably_cocoa.Base.{
  ◌≡◌, refl, ap, true, false, Option, none, some, List, [], ◌∷◌, ◌++◌, Text, arith, ◌⊎◌, inl, inr,
  Option-cases, is_some,
}
use ably_cocoa.Push.{
  State, Event, Effect, Device, Machine, transition, consume, handle_event, persist, is_persistent,
}

-- The machine takes the events one after the other, each in the state that the one before led to.
pub data Takes (c : Option Text)
    : State → Device → List Event → State → Device → List Effect → Type 0 where
  done : {s : State} {d : Device} → Takes c s d [] s d []
  step :
      {s t u : State} {d d' d'' : Device} {e : Event} {es : List Event} {out more : List Effect}
      → transition c s e d ≡ some (t, d', out)
      → Takes c t d' es u d'' more
      → Takes c s d (e ∷ es) u d'' (out ++ more)

-- The first pending event, if there is one, is not for the current state.
abbrev pub Blocked : Machine → List Event → Type 0
Blocked m [] = Unit {0}
Blocked m (e ∷ es) = transition m.instance_client_id m.current e m.device ≡ none

abbrev pub IsQuiet : Machine → Type 0
IsQuiet m = Blocked m m.pending_events

-- What a run over pending events has taken, and where it stands.
record Consumed (m : Machine) (es : List Event) (r : Machine × List Effect) : Type 0 where
  taken : List Event
  split : taken ++ r.0.pending_events ≡ es
  takes : Takes m.instance_client_id m.current m.device taken r.0.current r.0.device r.1
  quiet : IsQuiet r.0
  stored_state : r.0.stored_state ≡ m.stored_state
  client : r.0.instance_client_id ≡ m.instance_client_id

consume-some :
    (e : Event) (es : List Event) (m : Machine) (s : State) (d : Device) (out : List Effect)
    → transition m.instance_client_id m.current e m.device ≡ some (s, d, out)
    → let r = consume es (record m { current = s; device = d }) in
      consume (e ∷ es) m ≡ (r.0, out ++ r.1)
unfolding consume
consume-some e es m s d out h = rw (consume, h)

pub consume-none :
    (e : Event) (es : List Event) (m : Machine)
    → transition m.instance_client_id m.current e m.device ≡ none
    → consume (e ∷ es) m ≡ (record m { pending_events = e ∷ es }, [])
unfolding consume
consume-none e es m h = rw (consume, h)

consume-Consumed : (es : List Event) (m : Machine) → Consumed m es (consume es m)
unfolding consume
consume-Consumed [] m = record {
  taken = [];
  split = refl;
  takes = done;
  quiet = tt;
  stored_state = refl;
  client = refl;
}
consume-Consumed (e ∷ es) m =
    elim (Option-cases (transition m.instance_client_id m.current e m.device)) [
      | inl blocked ↦ rw (consume-none e es m blocked) (record {
        taken = [];
        split = refl;
        takes = done;
        quiet = blocked;
        stored_state = refl;
        client = refl;
      })
      | inr ((s, d, out), moved) ↦
          let c = consume-Consumed es (record m { current = s; device = d }) in
          rw (consume-some e es m s d out moved) (record {
            taken = e ∷ c.taken;
            split = ap (◌∷◌ e) c.split;
            takes = step moved c.takes;
            quiet = c.quiet;
            stored_state = c.stored_state;
            client = c.client;
          })
    ]

pub handle_event-none :
    (e : Event) (m : Machine)
    → transition m.instance_client_id m.current e m.device ≡ none
    → handle_event e m
      ≡ (record m { last_handled_event = some e; pending_events = m.pending_events ++ e ∷ [] }, [])
unfolding handle_event
handle_event-none e m h = rw (handle_event, h)

-- The machine right after an event that it took, before the pending ones.
abbrev pub moved : Event → Machine → State → Device → Machine
moved e m s d = record m { last_handled_event = some e; current = s; device = d }

pub handle_event-some :
    (e : Event) (m : Machine) (s : State) (d : Device) (out : List Effect)
    → transition m.instance_client_id m.current e m.device ≡ some (s, d, out)
    → let r = consume m.pending_events (moved e m s d) in
      handle_event e m ≡ (persist r.0, out ++ r.1)
unfolding handle_event
handle_event-some e m s d out h = rw (handle_event, h)

Blocked-append :
    (m : Machine) (es : List Event) (e : Event)
    → Blocked m es
    → transition m.instance_client_id m.current e m.device ≡ none
    → Blocked m (es ++ e ∷ [])
Blocked-append m [] e b h = h
Blocked-append m (f ∷ es) e b h = b

pub Blocked-same :
    (m m' : Machine) (es : List Event)
    → m'.instance_client_id ≡ m.instance_client_id
    → m'.current ≡ m.current
    → m'.device ≡ m.device
    → Blocked m es
    → Blocked m' es
Blocked-same m m' [] c s d b = tt
Blocked-same m m' (e ∷ es) c s d b = rw (c, s, d) b

pub persist-IsQuiet : (m : Machine) → IsQuiet m → IsQuiet (persist m)
unfolding persist
persist-IsQuiet m q = Blocked-same m (persist m) m.pending_events refl refl refl q

-- What `handleEvent:` does with an event that the state takes.
pub record Taken (e : Event) (m : Machine) (r : Machine × List Effect) : Type 0 where
  pub taken : List Event
  pub split : taken ++ r.0.pending_events ≡ m.pending_events
  pub takes : Takes m.instance_client_id m.current m.device (e ∷ taken) r.0.current r.0.device r.1
  pub quiet : IsQuiet r.0
  pub stored : r.0.stored_events ≡ some r.0.pending_events
  pub stored_current : is_persistent r.0.current ≡ true → r.0.stored_state ≡ some r.0.current
  pub kept_state : is_persistent r.0.current ≡ false → r.0.stored_state ≡ m.stored_state

-- What it does with one that the state does not take.
pub record Postponed (e : Event) (m : Machine) (r : Machine × List Effect) : Type 0 where
  pub refused : transition m.instance_client_id m.current e m.device ≡ none
  pub last : r.0.pending_events ≡ m.pending_events ++ e ∷ []
  pub same : (r.0.current ≡ m.current) × (r.0.device ≡ m.device) × (r.1 ≡ [])
  pub unstored : (r.0.stored_events ≡ m.stored_events) × (r.0.stored_state ≡ m.stored_state)

Taken-some :
    (e : Event) (m : Machine) (s : State) (d : Device) (out : List Effect)
    → transition m.instance_client_id m.current e m.device ≡ some (s, d, out)
    → let r = consume m.pending_events (moved e m s d) in Taken e m (persist r.0, out ++ r.1)
unfolding persist
Taken-some e m s d out h =
    let c = consume-Consumed m.pending_events (moved e m s d) in
    record {
      taken = c.taken;
      split = c.split;
      takes = step h c.takes;
      quiet = persist-IsQuiet (consume m.pending_events (moved e m s d)).0 c.quiet;
      stored = refl;
      stored_current = λ p. rw p;
      kept_state = λ p. rw p c.stored_state;
    }

-- Every event is either taken at once, and after it as many pending events as the states take, in
-- their order, so that the first one still pending, if any, is not taken by the state that is
-- reached; or it is queued last, and nothing else happens. Only in the first case are the state (where
-- it is persistent) and the events that are still pending stored.
pub handle_event-cases :
    (e : Event) (m : Machine) → Taken e m (handle_event e m) ⊎ Postponed e m (handle_event e m)
handle_event-cases e m =
    elim (Option-cases (transition m.instance_client_id m.current e m.device)) [
      | inl refused ↦ inr (
          rw (handle_event-none e m refused) (record {
            refused = refused;
            last = refl;
            same = (refl, refl, refl);
            unstored = (refl, refl);
          }))
      | inr ((s, d, out), h) ↦ inl (rw (handle_event-some e m s d out h) (Taken-some e m s d out h))
    ]

abbrev postponed : Event → Machine → Machine
postponed e m = record m {
  last_handled_event = some e;
  pending_events = m.pending_events ++ e ∷ [];
}

pub postponed-IsQuiet :
    (e : Event) (m : Machine)
    → IsQuiet m
    → transition m.instance_client_id m.current e m.device ≡ none
    → IsQuiet (postponed e m)
postponed-IsQuiet e m q refused =
    Blocked-same m (postponed e m) (m.pending_events ++ e ∷ []) refl refl refl
      (Blocked-append m m.pending_events e q refused)

-- The machine is quiet, or takes the event.
abbrev pub Settles : Event → Machine → Type 0
Settles e m = IsQuiet m ⊎ (is_some (transition m.instance_client_id m.current e m.device) ≡ true)

pub handle_event-IsQuiet : (e : Event) (m : Machine) → Settles e m → IsQuiet (handle_event e m).0
handle_event-IsQuiet e m q = elim (handle_event-cases e m) [
  | inl t ↦ t.quiet
  | inr p ↦ elim q [
    | inl quiet ↦ rw (handle_event-none e m p.refused) (postponed-IsQuiet e m quiet p.refused)
    | inr takes ↦ absurd (ground arith)
  ]
]
