-- ===== src/Presence/Map/Local/Ending.antt =====
-- The end of a sync in Source/ARTPresenceMap.m when every member is confirmed.
use ably_cocoa.Base.{
  ℕ, ◌≡◌, refl, true, false, not, Option, none, some, List, [], ◌∷◌, map, Text, text_eq, ◌==◌,
  same_text, keep, All, Bool-cases, inl, inr,
}
use ably_cocoa.Message.{PresenceMessage}
use ably_cocoa.Presence.Order.{member_key, same_member, is_synthesized}
use ably_cocoa.Presence.Map.{
  PresenceMap, reenter_member, sync_ended, ended, in_progress, get, remove, entries, is_absent,
  absent_keys, remove_local, internal_remove, leaves_local, drop_member, clean_up_absent_members,
  remove_keys, leave_stale, leave_members_not_present_in_sync, reenter_each,
  reenter_local_members_missing_from_sync, finish_sync, end_sync, stale_local,
}
use ably_cocoa.Presence.Map.Keys.{All-remove}

-- Seen in the sync `n`, and not absent.
abbrev pub Confirmed : ℕ → PresenceMessage → Type 0
Confirmed n m = ((m.sync_session_id == n) ≡ true) × (is_absent m ≡ false)

abbrev pub AllConfirmed : ℕ → (ℕ → PresenceMessage) → List (Text × ℕ) → Type 0
AllConfirmed n s es = All (λ e. Confirmed n (s e.1)) es

absent_keys-none :
    (n : ℕ) (s : ℕ → PresenceMessage) (es : List (Text × ℕ))
    → AllConfirmed n s es
    → absent_keys s es ≡ []
absent_keys-none n s [] h = refl
absent_keys-none n s ((k, r) ∷ es) h = rw (h.0.1) (absent_keys-none n s es h.1)

clean_up-confirmed :
    (connection : Option Text) (n : ℕ) (m : PresenceMap)
    → AllConfirmed n m.store m.members
    → clean_up_absent_members connection m ≡ some m
unfolding clean_up_absent_members remove_keys
clean_up-confirmed connection n m h = rw (absent_keys-none n m.store m.members h) refl

leave_stale-confirmed :
    (connection : Option Text) (es : List (Text × ℕ)) (m : PresenceMap)
    → AllConfirmed m.sync_session_id m.store es
    → leave_stale connection (entries es) m ≡ some (m, [])
unfolding leave_stale
leave_stale-confirmed connection [] m h = refl
leave_stale-confirmed connection ((k, r) ∷ es) m h =
    rw (leave_stale, h.0.0) (leave_stale-confirmed connection es m h.1)

get-remove : (k : Text) (es : List (Text × ℕ)) → get k (remove k es) ≡ none
unfolding get remove
get-remove k [] = refl
get-remove k ((j, q) ∷ es) = elim (Bool-cases (text_eq j k)) [
  | inl hit ↦ rw hit (get-remove k es)
  | inr miss ↦ rw (miss, miss) (get-remove k es)
]

-- The map without the local member `r`, which the connection has to enter again.
abbrev pub without : ℕ → PresenceMap → PresenceMap
without r m = record m {
  members = remove (member_key (m.store r)) m.members;
  local_members = keep (λ q. not (same_member (m.store q) (m.store r))) m.local_members;
}

internal_remove-own :
    (connection : Option Text) (r : ℕ) (m : PresenceMap)
    → in_progress m.sync_state ≡ false
    → same_text (m.store r).connection_id connection ≡ true
    → is_synthesized (m.store r) ≡ some false
    → internal_remove connection false r m ≡ some (without r m)
unfolding internal_remove leaves_local drop_member remove_local
internal_remove-own connection r m over own real = rw (internal_remove, own, real, over) refl

reenter_each-one :
    (connection : Option Text) (r : ℕ) (m m1 : PresenceMap)
    → internal_remove connection false r m ≡ some m1
    → reenter_each connection (r ∷ []) m ≡ some (m1, reenter_member (m.store r) ∷ [])
unfolding reenter_each
reenter_each-one connection r m m1 e = rw (reenter_each, e) refl

-- Where every member is confirmed, and one local member is not, the end of the sync removes it.
pub end_sync-removes :
    (connection : Option Text) (r : ℕ) (m : PresenceMap)
    → AllConfirmed m.sync_session_id m.store m.members
    → stale_local m ≡ r ∷ []
    → same_text (m.store r).connection_id connection ≡ true
    → is_synthesized (m.store r) ≡ some false
    → let m' = without r (record m { sync_state = ended }) in
      end_sync connection m
      ≡ some (m', reenter_member (m.store r) ∷ sync_ended (map m.store (entries m'.members)) ∷ [])
unfolding end_sync leave_members_not_present_in_sync finish_sync
    reenter_local_members_missing_from_sync
end_sync-removes connection r m h stale own real =
    let over = record m { sync_state = ended } in
    rw
      (
        end_sync,
        clean_up-confirmed connection m.sync_session_id m h,
        leave_stale-confirmed connection m.members m h,
        finish_sync,
        stale,
        reenter_each-one connection r over (without r over)
            (internal_remove-own connection r over refl own real),
        clean_up-confirmed connection m.sync_session_id (without r over)
            (All-remove _ (member_key (m.store r)) m.members h),
      )
      refl
