-- ===== src/Examples/Activation.antt =====
-- Instances for the activation machine (Source/ARTPushActivationStateMachine.m).
use ably_cocoa.Base.{List, ◌≡◌, refl, true, none, some, [], ◌∷◌, codes, ◌⊎◌, inl, is_some}
use ably_cocoa.Push.{
  Event, IdentityToken, set_identity_token_details, load, init, waiting_for_new_push_device_details,
  waiting_for_deregistration, waiting_for_device_registration, waiting_for_push_device_details,
  called_activate, called_deactivate, got_push_device_details, getting_device_registration_failed,
  device_registration, Device, Machine, transition, consume, handle_event, persist, is_persistent,
}
use ably_cocoa.Push.Laws.{Taken, Postponed, IsQuiet, handle_event-cases}
use ably_cocoa.Push.Calls.{run, run-IsQuiet, deregistration_stuck}
use ably_cocoa.Push.Restart.{Restarts, reloaded, IsSame, handle_event-restart}
use ably_cocoa.Examples.{failure}

abbrev device : Device
device = record {
  identity_token_details = none;
  client_id = none;
  apns_device_token = some (codes "t");
  storage = record {
    identity_token = none;
    apns_token = none;
    legacy_apns_token = some (codes "t");
  };
}

abbrev own_token : IdentityToken
own_token = record { token = codes "i"; client_id = some (codes "me") }

-- Not activated, with a deactivation that waits behind an event that the state does not take.
abbrev machine : Machine
machine = record {
  current = waiting_for_device_registration;
  pending_events = called_deactivate ∷ [];
  last_handled_event = some called_deactivate;
  device = device;
  instance_client_id = some (codes "me");
  stored_state = none;
  stored_events = none;
}

blocked :
    transition (some (codes "me")) waiting_for_device_registration called_deactivate device ≡ none
unfolding transition
blocked = refl

handle_event-cases_example :
    let r = handle_event (getting_device_registration_failed failure) machine in
    Taken (getting_device_registration_failed failure) machine r
    ⊎ Postponed (getting_device_registration_failed failure) machine r
handle_event-cases_example = handle_event-cases (getting_device_registration_failed failure) machine

run-IsQuiet_example :
    IsQuiet
      (run
        (getting_device_registration_failed failure ∷ called_activate ∷ called_deactivate ∷ [])
        machine).0
run-IsQuiet_example =
    run-IsQuiet (getting_device_registration_failed failure)
      (called_activate ∷ called_deactivate ∷ []) machine (inl blocked)

requested :
    transition none waiting_for_push_device_details got_push_device_details device
    ≡ some (waiting_for_device_registration, device, device_registration ∷ [])
unfolding transition
requested = refl

-- The server has refused to deregister the device, and an `activate` is pending.
abbrev refused : Machine
refused = record machine {
  current = waiting_for_deregistration;
  pending_events = called_activate ∷ [];
}

queued : transition (some (codes "me")) waiting_for_deregistration called_activate device ≡ none
unfolding transition
queued = refl

abbrev calls : List Event
calls = called_deactivate ∷ called_activate ∷ called_deactivate ∷ []

deregistration_stuck_example :
    let r = run calls refused in
    (r.0.current ≡ waiting_for_deregistration)
    × (r.0.device ≡ device)
    × (r.1 ≡ [])
    × (r.0.pending_events ≡ called_activate ∷ called_activate ∷ [])
deregistration_stuck_example = deregistration_stuck calls refused refl refl queued

taken :
    is_some (
      transition
        (some (codes "me"))
        waiting_for_device_registration
        (getting_device_registration_failed failure)
        device)
    ≡ true
unfolding transition
taken = refl

settled :
    is_persistent (handle_event (getting_device_registration_failed failure) machine).0.current
    ≡ true
unfolding handle_event transition consume persist
settled = refl

handle_event-restart_example :
    let m' = (handle_event (getting_device_registration_failed failure) machine).0 in
    IsSame m' (reloaded m') × Restarts m'
handle_event-restart_example =
    handle_event-restart (getting_device_registration_failed failure) machine taken settled
      (refl, refl)

-- A registration gives the device the client id of its identity token; after a restart of the program
-- the device has the token, and no client id.
registered_device :
    (set_identity_token_details (some own_token) device).client_id ≡ some (codes "me")
unfolding set_identity_token_details
registered_device = refl

reloaded_device :
    load none (set_identity_token_details (some own_token) device).storage ≡ record device {
      identity_token_details = some own_token;
      storage = record device.storage { identity_token = some own_token };
    }
unfolding load set_identity_token_details
reloaded_device = refl

-- A restart during a registration sync reads an older state than the pending events, and leaves a
-- `deactivate` pending that this state takes.
restored_unquiet :
    is_some (
      transition none
        (init none device.storage
          (some waiting_for_new_push_device_details)
          (some (called_deactivate ∷ []))).0.current
        called_deactivate
        device)
    ≡ true
unfolding init transition
restored_unquiet = refl
