-- ===== src/Presence/Map.antt =====
-- Source/ARTPresenceMap.m. Presence messages are objects with an identity, since the dictionary of
-- members and the set of local members share them and the code writes into them: an object is a
-- number, and `store` holds its fields. The dictionary is walked in the order of its entries here.
--
-- An operation returns the new map and its output, in order; `none` stands for the exception that a
-- malformed message id raises. `connection` is the delegate's connection id.
pub mod Keys
pub mod Removal
pub mod Sync
pub mod EndSync
pub mod Adding
pub mod Local
mod Entries
unfoldable pub use Entries.*
use ably_cocoa.Base.{
  ℕ, suc, ◌+◌, ◌%◌, Bool, true, false, ◌&&◌, not, Option, none, some, List, [], ◌∷◌, ◌++◌, map,
  Text, text_eq, same_text, ◌==◌, if◌then◌else◌, any, keep,
}
use ably_cocoa.Types.{PresenceAction, ErrorInfo}
use ably_cocoa.Message.{PresenceMessage}
use ably_cocoa.Presence.Order.{member_key, same_member, is_synthesized, is_newer_than}

-- internalAdd:withSessionId:
unfoldable pub internal_add : Option Text → ℕ → ℕ → PresenceMap → PresenceMap
internal_add connection r n m =
    let m1 = put_member r (set_session r n m) in
    if same_text (m.store r).connection_id connection then add_local r m1 else m1

-- The test on the local members in `internalRemove:force:`, which may raise.
unfoldable pub leaves_local : Option Text → PresenceMessage → Option Bool
leaves_local connection msg =
    if same_text msg.connection_id connection
    then elim (is_synthesized msg) [ none ↦ none | some b ↦ some (not b) ]
    else some false

-- The rest of `internalRemove:force:`.
unfoldable pub drop_member : Option Text → Bool → ℕ → PresenceMap → PresenceMap
drop_member connection force r m =
    if not force && in_progress m.sync_state
    then internal_add connection r (m.store r).sync_session_id
        (set_action r PresenceAction.absent m)
    else record m { members = remove (member_key (m.store r)) m.members }

-- internalRemove:force:
unfoldable pub internal_remove : Option Text → Bool → ℕ → PresenceMap → Option PresenceMap
internal_remove connection force r m = elim (leaves_local connection (m.store r)) [
  | none ↦ none
  | some true ↦ some (drop_member connection force r (remove_local r m))
  | some false ↦ some (drop_member connection force r m)
]

-- The copy that `add:` makes, a new object.
unfoldable pub allocate : PresenceMessage → PresenceMap → PresenceMap
allocate msg m = record m { store = update m.store m.fresh msg; fresh = suc m.fresh }

-- The `switch` on the action in `add:`.
unfoldable pub add_newer : Option Text → PresenceAction → ℕ → PresenceMap → Option PresenceMap
add_newer connection PresenceAction.enter r m =
    some (internal_add connection r m.sync_session_id (set_action r PresenceAction.present m))
add_newer connection PresenceAction.update r m =
    some (internal_add connection r m.sync_session_id (set_action r PresenceAction.present m))
add_newer connection PresenceAction.present r m =
    some (internal_add connection r m.sync_session_id m)
add_newer connection PresenceAction.leave r m = internal_remove connection false r m
add_newer connection PresenceAction.absent r m = some m

abbrev pub content : PresenceMap → Option ℕ → Option PresenceMessage
content m none = none
content m (some r) = some (m.store r)

-- The message that is not newer only marks the member as seen in this sync.
abbrev pub mark_seen : Option ℕ → PresenceMap → PresenceMap
mark_seen none m = m
mark_seen (some r) m = set_session r m.sync_session_id m

abbrev pub returning : Bool → Option PresenceMap → Option (PresenceMap × Bool)
returning b none = none
returning b (some m) = some (m, b)

-- add:
unfoldable pub add : Option Text → PresenceMessage → PresenceMap → Option (PresenceMap × Bool)
add connection msg m =
    let latest = get (member_key msg) m.members in
    elim (is_newer_than msg (content m latest)) [
      | none ↦ none
      | some true ↦ returning true (add_newer connection msg.action m.fresh (allocate msg m))
      | some false ↦ returning false (some (mark_seen latest m))
    ]

abbrev pub absent_keys : (ℕ → PresenceMessage) → List (Text × ℕ) → List Text
absent_keys s [] = []
absent_keys s ((k, r) ∷ es) = if is_absent (s r) then k ∷ absent_keys s es else absent_keys s es

unfoldable pub remove_keys : Option Text → List Text → PresenceMap → Option PresenceMap
remove_keys connection [] m = some m
remove_keys connection (k ∷ ks) m = elim (get k m.members) [
  | none ↦ none
  | some r ↦ elim (internal_remove connection true r m) [
    | none ↦ none
    | some m1 ↦ remove_keys connection ks m1
  ]
]

-- cleanUpAbsentMembers
unfoldable pub clean_up_absent_members : Option Text → PresenceMap → Option PresenceMap
clean_up_absent_members connection m = remove_keys connection (absent_keys m.store m.members) m

abbrev pub emitting :
    Output → Option (PresenceMap × List Output) → Option (PresenceMap × List Output)
emitting x none = none
emitting x (some (m, out)) = some (m, x ∷ out)

-- The loop of `leaveMembersNotPresentInSync`.
unfoldable pub leave_stale : Option Text → List ℕ → PresenceMap → Option (PresenceMap × List Output)
leave_stale connection [] m = some (m, [])
leave_stale connection (r ∷ rs) m = elim ((m.store r).sync_session_id == m.sync_session_id) [
  | true ↦ leave_stale connection rs m
  | false ↦ elim (internal_remove connection false r m) [
    | none ↦ none
    | some m1 ↦ emitting (removed_member (m.store r)) (leave_stale connection rs m1)
  ]
]

-- leaveMembersNotPresentInSync
unfoldable pub leave_members_not_present_in_sync :
    Option Text → PresenceMap → Option (PresenceMap × List Output)
leave_members_not_present_in_sync connection m = leave_stale connection (entries m.members) m

-- The loop of `reenterLocalMembersMissingFromSync`.
unfoldable pub reenter_each :
    Option Text → List ℕ → PresenceMap → Option (PresenceMap × List Output)
reenter_each connection [] m = some (m, [])
reenter_each connection (r ∷ rs) m = elim (internal_remove connection false r m) [
  | none ↦ none
  | some m1 ↦ emitting (reenter_member (m.store r)) (reenter_each connection rs m1)
]

abbrev pub stale_local : PresenceMap → List ℕ
stale_local m = keep (λ r. not ((m.store r).sync_session_id == m.sync_session_id)) m.local_members

abbrev pub cleaned :
    Option Text → Option (PresenceMap × List Output) → Option (PresenceMap × List Output)
cleaned connection none = none
cleaned connection (some (m, out)) = elim (clean_up_absent_members connection m) [
  | none ↦ none
  | some m1 ↦ some (m1, out)
]

-- reenterLocalMembersMissingFromSync
unfoldable pub reenter_local_members_missing_from_sync :
    Option Text → PresenceMap → Option (PresenceMap × List Output)
reenter_local_members_missing_from_sync connection m =
    cleaned connection (reenter_each connection (stale_local m) m)

-- reset
unfoldable pub reset : PresenceMap → PresenceMap
reset m = record m { members = []; local_members = [] }

-- startSync
unfoldable pub start_sync : PresenceMap → PresenceMap × List Output
start_sync m = (
  record m {
    sync_session_id = (m.sync_session_id + 1) % 18446744073709551616;
    sync_state = started;
  },
  sync_started ∷ [],
)

-- The end of `endSync`: the last step and the event with the members that are left.
unfoldable pub finish_sync :
    Option Text → List Output → PresenceMap → Option (PresenceMap × List Output)
finish_sync connection out m =
    elim (reenter_local_members_missing_from_sync connection (record m { sync_state = ended })) [
      | none ↦ none
      | some (m1, out1) ↦
          some (m1, out ++ out1 ++ sync_ended (map m1.store (entries m1.members)) ∷ [])
    ]

-- endSync
unfoldable pub end_sync : Option Text → PresenceMap → Option (PresenceMap × List Output)
end_sync connection m = elim (clean_up_absent_members connection m) [
  | none ↦ none
  | some m1 ↦ elim (leave_members_not_present_in_sync connection m1) [
    | none ↦ none
    | some (m2, out) ↦ finish_sync connection out m2
  ]
]

-- failsSync:
unfoldable pub fails_sync : Option ErrorInfo → PresenceMap → PresenceMap × List Output
fails_sync e m = (record (reset m) { sync_state = failed }, sync_failed e ∷ [])
