-- ===== src/Presence/Map/Entries.antt =====
-- The state of Source/ARTPresenceMap.m: the objects, the members and the local ones.
use ably_cocoa.Base.{
  ℕ, Bool, true, false, not, Option, none, some, List, [], ◌∷◌, ◌++◌, Text, text_eq, ◌==◌,
  if◌then◌else◌, any, keep,
}
use ably_cocoa.Types.{PresenceAction, ErrorInfo}
use ably_cocoa.Message.{PresenceMessage}
use ably_cocoa.Presence.Order.{member_key, same_member}

-- ARTPresenceSyncState
pub data SyncState : Type 0 where
  initialized started ended failed : SyncState

pub data Output : Type 0 where
  -- map:didRemovedMemberNoLongerPresent:
  removed_member : PresenceMessage → Output
  -- map:shouldReenterLocalMember:
  reenter_member : PresenceMessage → Output
  sync_started : Output
  sync_ended : List PresenceMessage → Output
  sync_failed : Option ErrorInfo → Output

pub record PresenceMap : Type 0 where
  pub sync_state : SyncState
  pub sync_session_id : ℕ
  pub members : List (Text × ℕ)
  pub local_members : List ℕ
  pub store : ℕ → PresenceMessage
  pub fresh : ℕ

abbrev pub update : (ℕ → PresenceMessage) → ℕ → PresenceMessage → ℕ → PresenceMessage
update s r m x = if x == r then m else s x

-- setObject:forKey:, objectForKey: and removeObjectForKey: of the dictionary.
unfoldable pub put : Text → ℕ → List (Text × ℕ) → List (Text × ℕ)
put k r [] = (k, r) ∷ []
put k r ((j, q) ∷ es) = if text_eq j k then (k, r) ∷ es else (j, q) ∷ put k r es

unfoldable pub get : Text → List (Text × ℕ) → Option ℕ
get k [] = none
get k ((j, q) ∷ es) = if text_eq j k then some q else get k es

unfoldable pub remove : Text → List (Text × ℕ) → List (Text × ℕ)
remove k [] = []
remove k ((j, q) ∷ es) = let rest = remove k es in if text_eq j k then rest else (j, q) ∷ rest

abbrev pub entries : List (Text × ℕ) → List ℕ
entries [] = []
entries ((k, r) ∷ es) = r ∷ entries es

-- syncInProgress
abbrev pub in_progress : SyncState → Bool
in_progress started = true
in_progress _ = false

-- syncComplete
abbrev pub sync_complete : SyncState → Bool
sync_complete initialized = false
sync_complete started = false
sync_complete _ = true

abbrev pub is_absent : PresenceMessage → Bool
is_absent m = elim m.action [ PresenceAction.absent ↦ true | _ ↦ false ]

-- addObject: of the set, which keeps an equal object that it has.
unfoldable pub add_local : ℕ → PresenceMap → PresenceMap
add_local r m =
    if any (λ q. same_member (m.store q) (m.store r)) m.local_members
    then m
    else record m { local_members = m.local_members ++ r ∷ [] }

-- removeObject: of the set, which removes the object that is equal.
unfoldable pub remove_local : ℕ → PresenceMap → PresenceMap
remove_local r m = record m {
  local_members = keep (λ q. not (same_member (m.store q) (m.store r))) m.local_members;
}

unfoldable pub set_session : ℕ → ℕ → PresenceMap → PresenceMap
set_session r n m = record m {
  store = update m.store r (record (m.store r) { sync_session_id = n });
}

unfoldable pub set_action : ℕ → PresenceAction → PresenceMap → PresenceMap
set_action r a m = record m { store = update m.store r (record (m.store r) { action = a }) }

unfoldable pub put_member : ℕ → PresenceMap → PresenceMap
put_member r m = record m { members = put (member_key (m.store r)) r m.members }
