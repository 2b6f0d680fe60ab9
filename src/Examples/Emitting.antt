-- ===== src/Examples/Emitting.antt =====
-- Instances for the event emitter (Source/ARTEventEmitter.m).
use ably_cocoa.Base.{◌≡◌, ◌≤◌, refl, true, false, none, some, List, [], ◌∷◌, Text, codes, arith}
use ably_cocoa.Emitter.{
  Emitter, called, new_emitter, listen, off_listener, emit, set_timer, start_timer,
  removed_from_center,
}
use ably_cocoa.Emitter.Notified.{calls}
use ably_cocoa.Emitter.Runs.{
  Call, listens, takes_off, emits, sets_timer, starts_timer, removes, run_all, listen-once,
  off_listener-IsSilent,
}
use ably_cocoa.Emitter.Deferred.{settled}
use ably_cocoa.Emitter.Refined.{run_all-refines}

abbrev event : Text
event = codes "connected"

abbrev before : List Call
before = listens false none 70 ∷ listens true (some event) 71 ∷ emits (some event) ∷ []

abbrev later : List Call
later = emits (some event) ∷ takes_off 0 none ∷ emits none ∷ emits (some event) ∷ []

-- Two listeners to one event, of which one is called once, and one whose timer is not started.
abbrev session : List Call
session =
    listens true (some event) 71
    ∷ listens false none 72
    ∷ listens false (some event) 73
    ∷ sets_timer 2 90
    ∷ emits (some event)
    ∷ removes 0
    ∷ starts_timer 2
    ∷ emits (some event)
    ∷ []

session-run :
    (run_all session (new_emitter true)).1
    ≡ called 0 71 ∷ called 1 72 ∷ called 2 73 ∷ called 1 72 ∷ []
unfolding run_all emit set_timer listen start_timer removed_from_center
session-run = refl

listen-once_example :
    let m = (run_all before (new_emitter true)).0 in
    let listening = listen true (some event) 74 m in
    (calls m.next_id (run_all later listening).1 ≤ 1)
    × (calls m.next_id (run_all (emits (some event) ∷ later) listening).1 ≡ 1)
listen-once_example = listen-once true before later event 74

abbrev listening : Emitter
listening = (run_all before (new_emitter false)).0

off_listener-IsSilent_example :
    calls 0 (run_all (emits (some event) ∷ []) (off_listener 0 none listening)).1 ≡ 0
unfolding run_all emit listen
off_listener-IsSilent_example =
    off_listener-IsSilent 0 none listening (emits (some event) ∷ []) (omega arith)

run_all-refines_example :
    run_all session (new_emitter false)
    ≡ (settled (run_all session (new_emitter true)).0, (run_all session (new_emitter true)).1)
run_all-refines_example = run_all-refines session
