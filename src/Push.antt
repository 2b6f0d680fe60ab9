-- ===== src/Push.antt =====
-- Activation of push notifications (Source/ARTPushActivationState.m,
-- ARTPushActivationStateMachine.m and ARTPushActivationEvent.m), as built for iOS.
--
-- A transition returns the next state, the device and its effects in order; `none` is the `nil` of a
-- state that does not take the event. Effects are what the machine starts outside itself: requests
-- and callbacks to the delegate, whose answers come back as later events.
pub mod Laws
pub mod Calls
pub mod Restart
mod States
unfoldable pub use States.*
use ably_cocoa.Base.{
  Bool, true, false, ◌&&◌, not, Option, none, some, List, [], ◌∷◌, ◌++◌, Text, codes, text_eq,
  is_some, is_none, same_text, if◌then◌else◌, ℤ, pos,
}
use ably_cocoa.Types.{ErrorInfo}

-- The subclasses of ARTPushActivationPersistentState.
abbrev pub is_persistent : State → Bool
is_persistent not_activated = true
is_persistent waiting_for_push_device_details = true
is_persistent waiting_for_new_push_device_details = true
is_persistent after_registration_sync_failed = true
is_persistent after_registration_update_failed = true
is_persistent _ = false

-- ARTPushActivationStateMachine, with what it keeps in the device storage.
pub record Machine : Type 0 where
  pub current : State
  pub pending_events : List Event
  pub last_handled_event : Option Event
  pub device : Device
  pub instance_client_id : Option Text
  pub stored_state : Option State
  pub stored_events : Option (List Event)

-- persist
unfoldable pub persist : Machine → Machine
persist m = record m {
  stored_state = if is_persistent m.current then some m.current else m.stored_state;
  stored_events = some m.pending_events;
}

-- The loop of `handleEvent:` over the pending events: the first one that the state does not take
-- ends it.
unfoldable pub consume : List Event → Machine → Machine × List Effect
consume [] m = (record m { pending_events = [] }, [])
consume (e ∷ es) m = elim (transition m.instance_client_id m.current e m.device) [
  | none ↦ (record m { pending_events = e ∷ es }, [])
  | some (s, d, out) ↦
      let (m', more) = consume es (record m { current = s; device = d }) in (m', out ++ more)
]

abbrev persisted : Machine × List Effect → Machine × List Effect
persisted (m, out) = (persist m, out)

abbrev pub after_effects : List Effect → Machine × List Effect → Machine × List Effect
after_effects out (m, more) = (m, out ++ more)

-- handleEvent:
unfoldable pub handle_event : Event → Machine → Machine × List Effect
handle_event e m = elim (transition m.instance_client_id m.current e m.device) [
  | none ↦
      (record m { last_handled_event = some e; pending_events = m.pending_events ++ e ∷ [] }, [])
  | some (s, d, out) ↦ after_effects out (
      persisted (
        consume m.pending_events
          (record m { last_handled_event = some e; current = s; device = d })))
]

-- `migrate` of the deprecated state.
abbrev pub migrate : State → State
migrate after_registration_update_failed = after_registration_sync_failed
migrate s = s

abbrev pub or_start : Option State → State
or_start none = not_activated
or_start (some s) = migrate s

abbrev pub or_empty : Option (List Event) → List Event
or_empty none = []
or_empty (some es) = es

abbrev pub restored : Option Text → Device → Option State → Option (List Event) → Machine
restored c d s es = record {
  current = or_start s;
  pending_events = or_empty es;
  last_handled_event = none;
  device = d;
  instance_client_id = c;
  stored_state = s;
  stored_events = es;
}

abbrev pub waits_for_details : State → Bool
waits_for_details waiting_for_push_device_details = true
waits_for_details _ = false

-- initWithRest:delegate:logger: from the archives in the storage, and the device that is loaded from
-- there with the client id of the instance.
unfoldable pub init :
    Option Text → Storage → Option State → Option (List Event) → Machine × List Effect
unfolding load
init c kept s es =
    let m = restored c (load c kept) s es in
    if waits_for_details m.current && is_some m.device.apns_device_token
    then handle_event got_push_device_details m
    else (m, [])
