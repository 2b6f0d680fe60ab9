-- ===== src/Push/Restart.antt =====
-- The activation machine after a restart of the program, from what it stored.
use ably_cocoa.Base.{
  ◌≡◌, refl, ◌∙◌, ap, sym, Bool, true, ◌&&◌, Option, none, some, List, [], ◌∷◌, Text, arith, ◌⊎◌,
  inl, inr, Bool-cases, is_some, subst,
}
use ably_cocoa.Push.{
  State, not_activated, waiting_for_device_registration, waiting_for_push_device_details,
  waiting_for_new_push_device_details, after_registration_sync_failed, waiting_for_deregistration,
  after_registration_update_failed, waiting_for_registration_sync, Event, got_push_device_details,
  Effect, Device, Machine, Outcome, transition, handle_event, is_persistent, init, restored,
  set_identity_token_details, load, apns_device_token_from_storage, validate_and_sync, or_start,
  or_empty, migrate, waits_for_details,
}
use ably_cocoa.Push.Laws.{Taken, Takes, done, step, handle_event-cases}

-- No transition leads to the state of old versions, nor to waiting for details that are there.
transition-fresh :
    (c : Option Text) (s s' : State) (e : Event) (d d' : Device) (out : List Effect)
    → transition c s e d ≡ some (s', d', out)
    → s' ≡ after_registration_update_failed
    → ⊥
unfolding transition validate_and_sync
transition-fresh c s s' e d d' out h p = ground arith

Takes-fresh :
    (c : Option Text) (s s' : State) (d d' : Device) (es : List Event) (out : List Effect)
    → Takes c s d es s' d' out
    → s' ≡ after_registration_update_failed
    → s ≡ after_registration_update_failed
Takes-fresh c s s' d d' es out done p = p
Takes-fresh c s s' d d' es out (step {t = t} h r) p =
    absurd (transition-fresh _ _ _ _ _ _ _ h (Takes-fresh _ _ _ _ _ _ _ r p))

migrate-id : (s : State) → (s ≡ after_registration_update_failed → ⊥) → migrate s ≡ s
migrate-id after_registration_update_failed h = absurd (h refl)
migrate-id not_activated h = refl
migrate-id waiting_for_device_registration h = refl
migrate-id waiting_for_push_device_details h = refl
migrate-id waiting_for_new_push_device_details h = refl
migrate-id after_registration_sync_failed h = refl
migrate-id waiting_for_deregistration h = refl
migrate-id (waiting_for_registration_sync e) h = refl

-- The tokens of the device are the ones in its storage.
abbrev pub IsStored : Device → Type 0
IsStored d =
    (d.identity_token_details ≡ d.storage.identity_token)
    × (d.apns_device_token ≡ apns_device_token_from_storage d.storage)

transition-IsStored :
    (c : Option Text) (s s' : State) (e : Event) (d d' : Device) (out : List Effect)
    → transition c s e d ≡ some (s', d', out)
    → IsStored d
    → IsStored d'
unfolding transition validate_and_sync set_identity_token_details
transition-IsStored c s s' e d d' out h k = ground arith

Takes-IsStored :
    {c : Option Text} {s s' : State} {d d' : Device} {es : List Event} {out : List Effect}
    → Takes c s d es s' d' out
    → IsStored d
    → IsStored d'
Takes-IsStored done k = k
Takes-IsStored (step h r) k = Takes-IsStored r (transition-IsStored _ _ _ _ _ _ _ h k)

-- The machine that `init` reads from what another one has stored.
abbrev pub reloaded : Machine → Machine
reloaded m =
    restored m.instance_client_id (load m.instance_client_id m.device.storage) m.stored_state
      m.stored_events

-- The second machine has the state, the pending events and the tokens of the first one, and the client
-- id of the instance for its device.
abbrev pub IsSame : Machine → Machine → Type 0
IsSame m n =
    (n.current ≡ m.current)
    × (n.pending_events ≡ m.pending_events)
    × (n.device.identity_token_details ≡ m.device.identity_token_details)
    × (n.device.apns_device_token ≡ m.device.apns_device_token)
    × (n.device.client_id ≡ m.instance_client_id)

abbrev pub restart : Machine → Machine × List Effect
restart m = init m.instance_client_id m.device.storage m.stored_state m.stored_events

-- What a restart finds: the machine as it was, or the one that has to be told once more of the
-- details that came in while it was down.
abbrev pub Restarts : Machine → Type 0
Restarts m =
    (restart m ≡ (reloaded m, []))
    ⊎ ((m.current ≡ waiting_for_push_device_details)
        × (restart m ≡ handle_event got_push_device_details (reloaded m)))

first-fresh :
    {c : Option Text} {s s' : State} {d d' : Device} {e : Event} {es : List Event}
    {out : List Effect}
    → Takes c s d (e ∷ es) s' d' out
    → s' ≡ after_registration_update_failed
    → ⊥
first-fresh (step h k) p = transition-fresh _ _ _ _ _ _ _ h (Takes-fresh _ _ _ _ _ _ _ k p)

IsSame-reloaded :
    (e : Event) (m : Machine) (r : Machine × List Effect)
    → Taken e m r
    → is_persistent r.0.current ≡ true
    → IsStored m.device
    → IsSame r.0 (reloaded r.0)
unfolding load
IsSame-reloaded e m r t p k =
    let k' = Takes-IsStored t.takes k in
    (
      ap or_start (t.stored_current p) ∙ migrate-id r.0.current (first-fresh t.takes),
      ap or_empty t.stored,
      sym k'.0,
      sym k'.1,
      refl,
    )

waits :
    (s : State) (b : Bool) → waits_for_details s && b ≡ true → s ≡ waiting_for_push_device_details
waits s b h = ground arith

restart-cases : (m : Machine) → (reloaded m).current ≡ m.current → Restarts m
unfolding init load
restart-cases m h =
    let t = is_some (apns_device_token_from_storage m.device.storage) in
    elim (Bool-cases (waits_for_details (reloaded m).current && t)) [
      | inl told ↦
          inr (waits m.current t (subst (λ s. waits_for_details s && t ≡ true) h told), rw told)
      | inr untold ↦ inl (rw untold)
    ]

refuses : {o : Outcome} → is_some o ≡ true → o ≡ none → ⊥
refuses h p = ground arith

-- An event that was taken and led to a persistent state survives a restart, where the tokens of the
-- device were the ones in its storage: the machine that is read back has the same state, pending events,
-- identity token and APNs token, while its device has the client id of the instance, whatever client id
-- it had from an identity token. Then the machine either stays as it is, without an effect, or, when it
-- waits for the details of the device and they are there, takes them at once.
pub handle_event-restart :
    (e : Event) (m : Machine)
    → is_some (transition m.instance_client_id m.current e m.device) ≡ true
    → is_persistent (handle_event e m).0.current ≡ true
    → IsStored m.device
    → let m' = (handle_event e m).0 in IsSame m' (reloaded m') × Restarts m'
handle_event-restart e m h p k = elim (handle_event-cases e m) [
  | inl t ↦
      let same = IsSame-reloaded e m (handle_event e m) t p k in
      (same, restart-cases (handle_event e m).0 same.0)
  | inr q ↦ absurd (refuses h q.refused)
]
