-- ===== src/Presence/Map/EndSync.antt =====
-- `endSync` of Source/ARTPresenceMap.m as a whole.
use ably_cocoa.Base.{
  ℕ, ◌≡◌, refl, sym, ◌∙◌, subst, Bool, true, false, not, Option, some, List, [], ◌∷◌, ◌++◌, map,
  Text, arith, Bool-cases, inl, inr, ==_iff, All, keep,
}
use ably_cocoa.Message.{PresenceMessage}
use ably_cocoa.Presence.Order.{member_key}
use ably_cocoa.Presence.Map.{
  PresenceMap, Output, reenter_member, sync_ended, ended, remove, entries, in_progress, is_absent,
  internal_remove, clean_up_absent_members, leave_members_not_present_in_sync, reenter_each,
  reenter_local_members_missing_from_sync, stale_local, finish_sync, end_sync, cleaned,
}
use ably_cocoa.Presence.Map.Keys.{
  Distinct, Keyed, Distinct-remove, All-remove, Keyed-remove, Distinct-keep, Keyed-keep,
}
use ably_cocoa.Presence.Map.Removal.{
  Readable, SameSync, SameSync-trans, Dropped, internal_remove-drops,
}
use ably_cocoa.Presence.Map.Sync.{
  IsSound, CleanedUp, present_entries, clean_up-present, Settled, leave_stale-Left, IsSound-Faded,
}

All-keep {κ} :
    (P : Text × ℕ → Type κ) (p : Text × ℕ → Bool) (es : List (Text × ℕ))
    → All P es
    → All (λ e. P e × (p e ≡ true)) (keep p es)
All-keep P p [] h = tt
All-keep P p (e ∷ es) h = elim (Bool-cases (p e)) [
  | inl hit ↦ rw hit ((h.0, hit), All-keep P p es h.1)
  | inr miss ↦ rw miss (All-keep P p es h.1)
]

All-map {κ} :
    (P Q : Text × ℕ → Type κ) (es : List (Text × ℕ))
    → ((e : Text × ℕ) → P e → Q e)
    → All P es
    → All Q es
All-map P Q [] f h = tt
All-map P Q (e ∷ es) f h = (f e h.0, All-map P Q es f h.1)

-- Some entries may be gone, and nothing else has changed.
record Thinned (m m' : PresenceMap) : Type 1 where
  store : m'.store ≡ m.store
  sync : SameSync m m'
  sound : IsSound m'
  subset : (P : Text × ℕ → Type 0) → All P m.members → All P m'.members

IsSound-Dropped : (r : ℕ) (m m1 : PresenceMap) → Dropped r m m1 → IsSound m → IsSound m1
IsSound-Dropped r m m1 d v = record {
  distinct = subst Distinct (sym d.members) (Distinct-remove _ m.members v.distinct);
  keyed = subst (Keyed m1.store) (sym d.members) (
      subst (λ s. Keyed s (remove (member_key (m.store r)) m.members)) (sym d.store)
        (Keyed-remove m.store _ m.members v.keyed));
  readable = subst Readable (sym d.store) v.readable;
}

reenter_each-step :
    (connection : Option Text) (r : ℕ) (rs : List ℕ) (m m1 m' : PresenceMap) (out : List Output)
    → internal_remove connection false r m ≡ some m1
    → reenter_each connection rs m1 ≡ some (m', out)
    → reenter_each connection (r ∷ rs) m ≡ some (m', reenter_member (m.store r) ∷ out)
unfolding reenter_each
reenter_each-step connection r rs m m1 m' out e rest = rw (reenter_each, e, rest)

reenter_each-Thinned :
    (connection : Option Text) (rs : List ℕ) (m : PresenceMap)
    → in_progress m.sync_state ≡ false
    → IsSound m
    → (m' : PresenceMap) × (out : List Output) × (reenter_each connection rs m ≡ some (m', out))
      × Thinned m m'
unfolding reenter_each
reenter_each-Thinned connection [] m over v = (
  m,
  [],
  refl,
  record {
    store = refl;
    sync = record { state = refl; session = refl; fresh = refl };
    sound = v;
    subset = λ P h. h;
  },
)
reenter_each-Thinned connection (r ∷ rs) m over v =
    let (m1, e1, d) = internal_remove-drops connection false r m v.readable over in
    let (m', out, e, t) =
      reenter_each-Thinned connection rs m1 (rw d.sync.state over) (IsSound-Dropped r m m1 d v) in
    (
      m',
      _,
      reenter_each-step connection r rs m m1 m' out e1 e,
      record {
        store = t.store ∙ d.store;
        sync = SameSync-trans m m1 m' d.sync t.sync;
        sound = t.sound;
        subset = λ P h. t.subset P (rw d.members (All-remove P _ m.members h));
      },
    )

-- Seen in the sync `n`, and not absent.
abbrev pub Current : ℕ → PresenceMessage → Type 0
Current n m = (is_absent m ≡ false) × (m.sync_session_id ≡ n)

Settled-Current :
    (n : ℕ) (m : PresenceMessage) → Settled n m → not (is_absent m) ≡ true → Current n m
Settled-Current n m (inl gone) h = absurd (ground arith)
Settled-Current n m (inr seen) h = (ground arith, (==_iff m.sync_session_id n).0 seen)

cleaned-some :
    (connection : Option Text) (m m1 : PresenceMap) (out : List Output)
    → clean_up_absent_members connection m ≡ some m1
    → cleaned connection (some (m, out)) ≡ some (m1, out)
cleaned-some connection m m1 out e = rw (cleaned, e)

-- What is left after the last step, where every member has been settled before.
record Finished (n : ℕ) (m m' : PresenceMap) : Type 0 where
  current : All (λ e. Current n (m'.store e.1)) m'.members
  store : m'.store ≡ m.store
  sync : SameSync m m'

reenter-Finished :
    (connection : Option Text) (n : ℕ) (m : PresenceMap)
    → in_progress m.sync_state ≡ false
    → IsSound m
    → All (λ e. Settled n (m.store e.1)) m.members
    → (m' : PresenceMap) × (out : List Output) × (reenter_local_members_missing_from_sync connection
          m
        ≡ some (m', out))
      × Finished n m m'
unfolding reenter_local_members_missing_from_sync
reenter-Finished connection n m over v settled =
    let (m1, out, e1, t) = reenter_each-Thinned connection (stale_local m) m over v in
    let (m2, e2, c) = clean_up-present connection m1 t.sound in
    let left : All (λ e. Settled n (m1.store e.1)) m1.members =
      subst (λ s. All (λ e. Settled n (s e.1)) m1.members) (sym t.store) (t.subset _ settled) in
    (
      m2,
      out,
      rw e1 (cleaned-some connection m1 m2 out e2),
      record {
        current =
            subst (λ s. All (λ e. Current n (s e.1)) m2.members) (sym c.store)
              (subst (All (λ e. Current n (m1.store e.1))) (sym c.members) (
                All-map _ _ _ (λ e h. Settled-Current n (m1.store e.1) h.0 h.1)
                  (All-keep _ (λ e. not (is_absent (m1.store e.1))) m1.members left)));
        store = c.store ∙ t.store;
        sync = SameSync-trans m m1 m2 t.sync c.sync;
      },
    )

finish_sync-some :
    (connection : Option Text) (out out1 : List Output) (m m1 : PresenceMap)
    → reenter_local_members_missing_from_sync connection (record m { sync_state = ended })
      ≡ some (m1, out1)
    → finish_sync connection out m
      ≡ some (m1, out ++ out1 ++ sync_ended (map m1.store (entries m1.members)) ∷ [])
unfolding finish_sync
finish_sync-some connection out out1 m m1 e = rw (finish_sync, e)

end_sync-some :
    (connection : Option Text) (m m1 m2 : PresenceMap) (out : List Output)
    → clean_up_absent_members connection m ≡ some m1
    → leave_members_not_present_in_sync connection m1 ≡ some (m2, out)
    → end_sync connection m ≡ finish_sync connection out m2
unfolding end_sync
end_sync-some connection m m1 m2 out e l = rw (end_sync, e, l)

IsSound-CleanedUp : (m m1 : PresenceMap) → CleanedUp m m1 → IsSound m → IsSound m1
IsSound-CleanedUp m m1 c v = record {
  distinct = subst Distinct (sym c.members) (Distinct-keep _ m.members v.distinct);
  keyed = subst (Keyed m1.store) (sym c.members) (
      subst (λ s. Keyed s (present_entries m.store m.members)) (sym c.store)
        (Keyed-keep m.store _ m.members v.keyed));
  readable = subst Readable (sym c.store) v.readable;
}

-- Where no two members have the same key, each is kept under the key of its message, and every message
-- id can be read (the removal of a local member whose id cannot be read raises an exception), ending a
-- sync that is in progress gives a map whose every member has been seen in this sync and is not absent.
pub end_sync-Current :
    (connection : Option Text) (m : PresenceMap)
    → in_progress m.sync_state ≡ true
    → IsSound m
    → (m' : PresenceMap) × (out : List Output) × (end_sync connection m ≡ some (m', out))
      × All (λ e. Current m.sync_session_id (m'.store e.1)) m'.members
      × (m'.sync_state ≡ ended)
unfolding leave_members_not_present_in_sync
end_sync-Current connection m going v =
    let (m1, e1, c) = clean_up-present connection m v in
    let v1 = IsSound-CleanedUp m m1 c v in
    let (m2, out, e2, l) =
      leave_stale-Left connection [] m1.members m1 refl (rw c.sync.state going) v1 in
    let v2 = IsSound-Faded m1 m2 l.members l.faded v1 in
    let settled : All (λ e. Settled m.sync_session_id (m2.store e.1)) m2.members =
      subst (All (λ e. Settled m.sync_session_id (m2.store e.1))) (sym l.members)
        (subst (λ n. All (λ e. Settled n (m2.store e.1)) m1.members) c.sync.session l.settled) in
    let (m3, out3, e3, f) =
      reenter-Finished connection m.sync_session_id (record m2 { sync_state = ended }) refl
        (record { distinct = v2.distinct; keyed = v2.keyed; readable = v2.readable }) settled in
    (
      m3,
      _,
      end_sync-some connection m m1 m2 out e1 e2 ∙ finish_sync-some connection out out3 m2 m3 e3,
      f.current,
      f.sync.state,
    )
