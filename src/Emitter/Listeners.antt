-- ===== src/Emitter/Listeners.antt =====
-- The state of Source/ARTEventEmitter.m: listeners, observers and dictionaries.
use ably_cocoa.Base.{
  ℕ, Bool, true, false, ◌&&◌, not, Option, none, List, [], ◌∷◌, ◌++◌, Text, text_eq, ◌==◌,
  if◌then◌else◌, keep, any,
}

-- ARTEventListener. `event` is the event of its id, none where it listens to all events, `is_once` tells
-- which observer block it has, and `timeout` is its time-out block.
pub record Listener : Type 0 where
  pub id : ℕ
  pub event : Option Text
  pub is_once : Bool
  pub callback : ℕ
  pub invalidated : Bool
  pub count : ℕ
  pub timeout : Option ℕ
  pub timer_is_running : Bool

-- ARTEventEmitter. `observers` are those of the notification centre; `has_user_queue` tells whether an
-- observer is removed from it later, on that queue.
pub record Emitter : Type 0 where
  pub observers : List Listener
  pub listeners : List (Text × List ℕ)
  pub any_listeners : List ℕ
  pub next_id : ℕ
  pub has_user_queue : Bool

pub data Output : Type 0 where
  called : ℕ → ℕ → Output
  timed_out : ℕ → ℕ → Output

abbrev pub Result : Type 0
Result = Emitter × List Output

-- initWithQueues:userQueue:
abbrev pub new_emitter : Bool → Emitter
new_emitter user_queue = record {
  observers = [];
  listeners = [];
  any_listeners = [];
  next_id = 0;
  has_user_queue = user_queue;
}

-- stopTimer and invalidate
abbrev pub stop_timer : Listener → Listener
stop_timer l = record l { timer_is_running = false; timeout = none }

abbrev pub invalidate : Listener → Listener
invalidate l = record (stop_timer l) { invalidated = true }

unfoldable pub update : ℕ → (Listener → Listener) → List Listener → List Listener
update k f [] = []
update k f (l ∷ ls) = (if l.id == k then f l else l) ∷ update k f ls

abbrev pub without : ℕ → List Listener → List Listener
without k ls = keep (λ l. not (l.id == k)) ls

-- removeObserver
unfoldable pub remove_observer : ℕ → Emitter → Emitter
unfolding update
remove_observer k m = record m {
  observers = if m.has_user_queue then update k invalidate m.observers else without k m.observers;
}

-- The block of removeObserver on the user queue.
unfoldable pub removed_from_center : ℕ → Emitter → Emitter
removed_from_center k m = record m {
  observers = keep (λ l. not (l.id == k && l.invalidated)) m.observers;
}

abbrev pub has_id : ℕ → List ℕ → Bool
has_id k ids = any (λ i. i == k) ids

abbrev pub without_id : ℕ → List ℕ → List ℕ
without_id k ids = keep (λ i. not (i == k)) ids

-- addObject:toArrayWithKey:inDictionary:
unfoldable pub add_object : ℕ → Text → List (Text × List ℕ) → List (Text × List ℕ)
add_object k key [] = (key, k ∷ []) ∷ []
add_object k key ((j, ids) ∷ d) =
    if text_eq j key
    then (j, if has_id k ids then ids else ids ++ k ∷ []) ∷ d
    else (j, ids) ∷ add_object k key d

abbrev pub without_empty : Text → List ℕ → List (Text × List ℕ) → List (Text × List ℕ)
without_empty key [] d = d
without_empty key (i ∷ ids) d = (key, i ∷ ids) ∷ d

-- removeObject:fromArrayWithKey:inDictionary:
unfoldable pub remove_object : ℕ → Text → List (Text × List ℕ) → List (Text × List ℕ)
remove_object k key [] = []
remove_object k key ((j, ids) ∷ d) =
    if text_eq j key then without_empty j (without_id k ids) d else (j, ids) ∷ remove_object k key d

-- `[self.listeners[key] removeObject:listener]`, which leaves an empty array.
unfoldable pub remove_from_array : ℕ → Text → List (Text × List ℕ) → List (Text × List ℕ)
remove_from_array k key [] = []
remove_from_array k key ((j, ids) ∷ d) =
    if text_eq j key then (j, without_id k ids) ∷ d else (j, ids) ∷ remove_from_array k key d
