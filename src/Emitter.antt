-- ===== src/Emitter.antt =====
-- The event emitter: Source/ARTEventEmitter.m with Source/include/Ably/ARTEventEmitter.h. A listener
-- has a number, which stands for its identity. The notification centre calls its observers in the order
-- in which they were added. What a callback does to the emitter is a later call.
pub mod Notified
pub mod Delivered
pub mod Runs
pub mod Deferred
pub mod Refined
mod Listeners
unfoldable pub use Listeners.*
use ably_cocoa.Base.{
  ℕ, suc, ◌+◌, Bool, true, false, ◌&&◌, ◌||◌, not, Option, none, some, List, [], ◌∷◌, ◌++◌, map,
  Text, text_eq, same_text, ltb, ◌==◌, if◌then◌else◌, is_some, is_none, keep, any,
}

abbrev listener : ℕ → Option Text → Bool → ℕ → Listener
listener k event is_once callback = record {
  id = k;
  event = event;
  is_once = is_once;
  callback = callback;
  invalidated = false;
  count = 0;
  timeout = none;
  timer_is_running = false;
}

abbrev enlist : ℕ → Option Text → Emitter → Emitter
enlist k none m = record m { any_listeners = m.any_listeners ++ k ∷ [] }
enlist k (some e) m = record m { listeners = add_object k e m.listeners }

-- on: and on:callback:, once: and once:callback:, by the flag; the new listener has the number
-- `next_id`.
unfoldable pub listen : Bool → Option Text → ℕ → Emitter → Emitter
unfolding add_object
listen is_once event callback m = enlist m.next_id event (record m {
  observers = m.observers ++ listener m.next_id event is_once callback ∷ [];
  next_id = suc m.next_id;
})

-- The event of an id, and whether it is the same.
abbrev pub same_event : Option Text → Option Text → Bool
same_event none b = is_none b
same_event (some a) b = same_text (some a) b

-- off:listener: of the listener with a number and an event
unfoldable pub off_event : Text → ℕ → Option Text → Emitter → Emitter
unfolding remove_observer remove_object
off_event e k event m =
    if same_event (some e) event
    then record (remove_observer k m) { listeners = remove_object k e m.listeners }
    else m

abbrev delisted : ℕ → Option Text → List (Text × List ℕ) → List (Text × List ℕ)
delisted k none d = d
delisted k (some e) d = remove_from_array k e d

-- off:
unfoldable pub off_listener : ℕ → Option Text → Emitter → Emitter
unfolding remove_observer remove_from_array
off_listener k event m = record (remove_observer k m) {
  listeners = delisted k event m.listeners;
  any_listeners = without_id k m.any_listeners;
}

abbrev remove_observers : List ℕ → Emitter → Emitter
remove_observers [] m = m
remove_observers (k ∷ ks) m = remove_observers ks (remove_observer k m)

abbrev all_ids : List (Text × List ℕ) → List ℕ
all_ids [] = []
all_ids ((j, ids) ∷ d) = ids ++ all_ids d

-- off, by resetListeners
unfoldable pub off : Emitter → Emitter
unfolding remove_observer
off m = record (remove_observers (all_ids m.listeners ++ m.any_listeners) m) {
  listeners = [];
  any_listeners = [];
}

abbrev forgotten : ℕ → Option Text → Emitter → Emitter
forgotten k none m = record m { any_listeners = without_id k m.any_listeners }
forgotten k (some e) m = record m { listeners = remove_object k e m.listeners }

abbrev counted : ℕ → Emitter → Emitter
counted k m = record m { observers = update k (λ l. record l { count = suc l.count }) m.observers }

-- The observer block of `once:`, after the tests of the listener and its timer.
abbrev receive_once : Listener → Emitter → Result
receive_once l m = if ltb 0 l.count then (counted l.id m, []) else (
  forgotten l.id l.event (remove_observer l.id (counted l.id m)),
  called l.id l.callback ∷ [],
)

abbrev receive_on : Listener → Emitter → Result
receive_on l m =
    (record m { observers = update l.id stop_timer m.observers }, called l.id l.callback ∷ [])

-- The observer blocks.
unfoldable pub receive : Listener → Emitter → Result
unfolding update remove_observer remove_object
receive l m =
    if l.invalidated || is_some l.timeout && not l.timer_is_running
    then (m, [])
    else if l.is_once
    then receive_once l m
    else receive_on l m

abbrev pub then_do : Result → (Emitter → Result) → Result
then_do (m, out) f = let (m', out') = f m in (m', out ++ out')

-- postNotificationName:object: to the observers of a name
unfoldable pub notify : Option Text → List Listener → Emitter → Result
unfolding receive
notify name [] m = (m, [])
notify name (l ∷ ls) m =
    then_do (if same_event l.event name then receive l m else (m, [])) (notify name ls)

abbrev post : Option Text → Emitter → Result
post name m = notify name m.observers m

-- emit:with:
unfoldable pub emit : Option Text → Emitter → Result
unfolding notify
emit none m = post none m
emit (some e) m = then_do (post (some e) m) (post none)

-- setTimer:onTimeout:, startTimer, stopTimer and restartTimer
unfoldable pub set_timer : ℕ → ℕ → Emitter → Emitter
unfolding update
set_timer k block m = record m {
  observers = update k (λ l. record l { timeout = some block }) m.observers;
}

unfoldable pub start_timer : ℕ → Emitter → Emitter
unfolding update
start_timer k m = record m {
  observers = update k (λ l. record l { timer_is_running = true }) m.observers;
}

unfoldable pub stop_timer_of : ℕ → Emitter → Emitter
unfolding update
stop_timer_of k m = record m { observers = update k stop_timer m.observers }

abbrev run_block : ℕ → Option ℕ → List Output
run_block k none = []
run_block k (some block) = timed_out k block ∷ []

-- timeout, of a listener whose timer is running
unfoldable pub time_out : Listener → Emitter → Result
unfolding off_listener
time_out l m = (off_listener l.id l.event m, run_block l.id l.timeout)
