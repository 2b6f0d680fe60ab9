-- ===== src/Examples/Members.antt =====
-- Instances for presence (Source/ARTPresenceMessage.m and ARTPresenceMap.m).
use ably_cocoa.Base.{
  none, map as messages, ℕ, ◌==◌, false, ◌≡◌, refl, Bool, true, false, some, List, [], ◌∷◌, Text,
  codes, pos, text_eq, if◌then◌else◌, All,
}
use ably_cocoa.Types.{PresenceAction}
use ably_cocoa.Message.{PresenceMessage}
use ably_cocoa.Presence.Order.{
  member_key, same_member, parse_id, three_parts, split_colon, is_synthesized, serial_and_index,
  integer_value, digits_value, newer_by_serial, compare_ids, is_newer_than,
}
use ably_cocoa.Presence.Order.Laws.{
  IsReal, Trichotomy, is_newer_than-Trichotomy, is_newer_than_trans,
}
use ably_cocoa.Presence.Map.{
  clean_up_absent_members, remove_keys, leave_members_not_present_in_sync, leave_stale,
  internal_remove, leaves_local, PresenceMap, entries, started, ended, get, add, end_sync, Output,
  reenter_member, sync_ended,
}
use ably_cocoa.Presence.Map.Sync.{IsSound}
use ably_cocoa.Presence.Map.EndSync.{Current, end_sync-Current}
use ably_cocoa.Presence.Map.Adding.{as_present, add-enters}
use ably_cocoa.Presence.Map.Local.{Awaits, local_update_lost}
use ably_cocoa.Examples.{base}

abbrev member : Text → PresenceMessage
member id = record {
  base = base (some id) (some (codes "me")) (some (codes "x"));
  action = PresenceAction.present;
  sync_session_id = 0;
}

abbrev first : PresenceMessage
first = member (codes "x:1:0")

abbrev second : PresenceMessage
second = member (codes "x:1:4")

abbrev third : PresenceMessage
third = member (codes "x:12:0")

first-IsReal : IsReal first (pos 1, pos 0)
unfolding is_synthesized serial_and_index parse_id three_parts split_colon integer_value
    digits_value
first-IsReal = record { real = refl; at = refl }

second-IsReal : IsReal second (pos 1, pos 4)
unfolding is_synthesized serial_and_index parse_id three_parts split_colon integer_value
    digits_value
second-IsReal = record { real = refl; at = refl }

third-IsReal : IsReal third (pos 12, pos 0)
unfolding is_synthesized serial_and_index parse_id three_parts split_colon integer_value
    digits_value
third-IsReal = record { real = refl; at = refl }

second-newer : is_newer_than second (some first) ≡ some true
unfolding is_newer_than compare_ids newer_by_serial is_synthesized serial_and_index parse_id
    three_parts split_colon integer_value digits_value
second-newer = refl

third-newer : is_newer_than third (some second) ≡ some true
unfolding is_newer_than compare_ids newer_by_serial is_synthesized serial_and_index parse_id
    three_parts split_colon integer_value digits_value
third-newer = refl

is_newer_than-Trichotomy_example :
    (f : Bool) × (g : Bool) × (is_newer_than third (some first) ≡ some f)
    × (is_newer_than first (some third) ≡ some g)
    × Trichotomy f g (pos 12, pos 0) (pos 1, pos 0)
is_newer_than-Trichotomy_example =
    is_newer_than-Trichotomy third first (pos 12, pos 0) (pos 1, pos 0) third-IsReal first-IsReal

is_newer_than_trans_example : is_newer_than third (some first) ≡ some true
is_newer_than_trans_example =
    is_newer_than_trans third second first (pos 12, pos 0) (pos 1, pos 4) (pos 1, pos 0)
      third-IsReal second-IsReal first-IsReal third-newer second-newer

-- One member from before the sync 1, which is in progress.
abbrev map : PresenceMap
map = record {
  sync_state = started;
  sync_session_id = 1;
  members = (codes "x:me", 0) ∷ [];
  local_members = [];
  store = λ r. first;
  fresh = 1;
}

map-IsSound : IsSound map
unfolding member_key is_synthesized parse_id three_parts split_colon
map-IsSound = record { distinct = (refl, tt); keyed = (refl, tt); readable = λ r. (false, refl) }

end_sync-Current_example :
    (m' : PresenceMap) × (out : List Output) × (end_sync (some (codes "x")) map ≡ some (m', out))
    × All (λ e. Current 1 (m'.store e.1)) m'.members
    × (m'.sync_state ≡ ended)
end_sync-Current_example = end_sync-Current (some (codes "x")) map refl map-IsSound

-- A member of the own connection whose id has one part, as the first message of a member may.
abbrev with_bad_id : PresenceMap
with_bad_id = record map { store = λ r. member (codes "bad") }

end_sync-with_bad_id : end_sync (some (codes "x")) with_bad_id ≡ none
unfolding end_sync clean_up_absent_members remove_keys leave_members_not_present_in_sync leave_stale
    internal_remove leaves_local is_synthesized parse_id three_parts split_colon
end_sync-with_bad_id = refl

found : get (member_key third) map.members ≡ some 0
unfolding get member_key
found = refl

third-newest : is_newer_than third (some first) ≡ some true
unfolding is_newer_than compare_ids newer_by_serial is_synthesized serial_and_index parse_id
    three_parts split_colon integer_value digits_value
third-newest = refl

add-enters_example :
    (m' : PresenceMap) × (add (some (codes "x")) third map ≡ some (m', true))
    × (m'.store 1 ≡ record (as_present third) { sync_session_id = 1 })
    × ((k : Text)
        → get k m'.members ≡ (if text_eq (member_key third) k then some 1 else get k map.members))
    × ((x : ℕ) → (x == 1) ≡ false → m'.store x ≡ map.store x)
add-enters_example = add-enters (some (codes "x")) third (some 0) map found third-newest refl

-- Of two local members, the object 0 was entered before the sync 1, and 1 has been seen in it.
abbrev other : PresenceMessage
other = record first {
  base = base (some (codes "x:2:0")) (some (codes "you")) (some (codes "x"));
  sync_session_id = 1;
}

abbrev two : PresenceMap
two = record {
  sync_state = started;
  sync_session_id = 1;
  members = (codes "x:me", 0) ∷ (codes "x:you", 1) ∷ [];
  local_members = 0 ∷ 1 ∷ [];
  store = λ r. if r == 0 then first else other;
  fresh = 2;
}

two-Awaits : Awaits (some (codes "x")) third 0 [] ((codes "x:you", 1) ∷ []) two
unfolding member_key same_member
two-Awaits = record {
  members = refl;
  before = refl;
  after = refl;
  settled_before = tt;
  settled_after = ((refl, (refl, refl)), tt);
  local = refl;
  stale = refl;
  known = (refl, (refl, tt));
  older = refl;
  key = refl;
  own = refl;
  real = first-IsReal.real;
  own_message = refl;
  newer = third-newest;
  present = refl;
}

local_update_lost_example :
    (m1 m2 : PresenceMap) × (add (some (codes "x")) third two ≡ some (m1, true))
    × (m1.members ≡ (member_key third, 2) ∷ (codes "x:you", 1) ∷ [])
    × (m1.store 2 ≡ record (as_present third) { sync_session_id = 1 })
    × (end_sync (some (codes "x")) m1
        ≡ some
            (m2, reenter_member first ∷ sync_ended (messages m2.store (entries m2.members)) ∷ []))
    × (m2.members ≡ (codes "x:you", 1) ∷ [])
local_update_lost_example =
    local_update_lost (some (codes "x")) third 0 [] ((codes "x:you", 1) ∷ []) two two-Awaits
