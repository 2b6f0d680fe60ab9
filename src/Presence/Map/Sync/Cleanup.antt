-- ===== src/Presence/Map/Sync/Cleanup.antt =====
-- The clean up of absent members in Source/ARTPresenceMap.m.
use ably_cocoa.Base.{
  ℕ, ◌≡◌, refl, sym, ◌∙◌, ap, subst, true, not, Option, some, List, [], ◌∷◌, ◌++◌, append_assoc,
  Text, Bool-cases, inl, inr, keep,
}
use ably_cocoa.Message.{PresenceMessage}
use ably_cocoa.Presence.Order.{member_key}
use ably_cocoa.Presence.Map.{
  PresenceMap, get, is_absent, internal_remove, absent_keys, remove_keys, clean_up_absent_members,
}
use ably_cocoa.Presence.Map.Keys.{
  Distinct, Keyed, Distinct-middle, get-middle, remove-middle, Distinct-remove,
}
use ably_cocoa.Presence.Map.Removal.{Readable, SameSync, SameSync-trans, internal_remove-drops}

-- What an operation on the map relies on: distinct keys, each that of its message, and message ids
-- that can be read.
pub record IsSound (m : PresenceMap) : Type 0 where
  pub distinct : Distinct m.members
  pub keyed : Keyed m.store m.members
  pub readable : Readable m.store

-- The entries whose message is not absent.
abbrev pub present_entries : (ℕ → PresenceMessage) → List (Text × ℕ) → List (Text × ℕ)
present_entries s es = keep (λ e. not (is_absent (s e.1))) es

pub record CleanedUp (m m' : PresenceMap) : Type 0 where
  pub members : m'.members ≡ present_entries m.store m.members
  pub store : m'.store ≡ m.store
  pub sync : SameSync m m'

pub Keyed-middle :
    (s : ℕ → PresenceMessage) (k : Text) (r : ℕ) (xs ys : List (Text × ℕ))
    → Keyed s (xs ++ (k, r) ∷ ys)
    → member_key (s r) ≡ k
Keyed-middle s k r [] ys h = h.0
Keyed-middle s k r ((j, q) ∷ xs) ys h = Keyed-middle s k r xs ys h.1

pub Distinct-drop :
    (k : Text) (r : ℕ) (xs ys : List (Text × ℕ))
    → Distinct (xs ++ (k, r) ∷ ys)
    → Distinct (xs ++ ys)
Distinct-drop k r xs ys d =
    let (before, after) = Distinct-middle k r xs ys d in
    subst Distinct (remove-middle k r xs ys before after) (Distinct-remove k (xs ++ (k, r) ∷ ys) d)

pub Keyed-drop :
    (s : ℕ → PresenceMessage) (k : Text) (r : ℕ) (xs ys : List (Text × ℕ))
    → Keyed s (xs ++ (k, r) ∷ ys)
    → Keyed s (xs ++ ys)
Keyed-drop s k r [] ys h = h.1
Keyed-drop s k r ((j, q) ∷ xs) ys h = (h.0, Keyed-drop s k r xs ys h.1)

pub IsSound-drop :
    (k : Text) (r : ℕ) (xs ys : List (Text × ℕ)) (m m1 : PresenceMap)
    → m.members ≡ xs ++ (k, r) ∷ ys
    → m1.members ≡ xs ++ ys
    → m1.store ≡ m.store
    → IsSound m
    → IsSound m1
IsSound-drop k r xs ys m m1 at left same v = record {
  distinct = subst Distinct (sym left) (Distinct-drop k r xs ys (subst Distinct at v.distinct));
  keyed = subst (Keyed m1.store) (sym left) (
      subst (λ s. Keyed s (xs ++ ys)) (sym same)
        (Keyed-drop m.store k r xs ys (subst (Keyed m.store) at v.keyed)));
  readable = subst Readable (sym same) v.readable;
}

pub remove_keys-step :
    (connection : Option Text) (k : Text) (ks : List Text) (r : ℕ) (m m1 : PresenceMap)
    → get k m.members ≡ some r
    → internal_remove connection true r m ≡ some m1
    → remove_keys connection (k ∷ ks) m ≡ remove_keys connection ks m1
unfolding remove_keys
remove_keys-step connection k ks r m m1 found e = rw (remove_keys, found, e)

-- Removing the absent ones among the entries `es` leaves the others, after those already passed.
pub remove_keys-keeps :
    (connection : Option Text) (xs es : List (Text × ℕ)) (m : PresenceMap)
    → m.members ≡ xs ++ es
    → IsSound m
    → (m' : PresenceMap) × (remove_keys connection (absent_keys m.store es) m ≡ some m')
      × (m'.members ≡ xs ++ present_entries m.store es)
      × (m'.store ≡ m.store)
      × SameSync m m'
unfolding remove_keys
remove_keys-keeps connection xs [] m at v =
    (m, refl, at, refl, record { state = refl; session = refl; fresh = refl })
remove_keys-keeps connection xs ((k, r) ∷ es) m at v = elim (Bool-cases (is_absent (m.store r))) [
  | inr here ↦
      let (m', e, members, store, sync) =
        remove_keys-keeps connection (xs ++ (k, r) ∷ []) es m
          (at ∙ sym (append_assoc xs ((k, r) ∷ []) es)) v in
      (m', rw here e, rw here (members ∙ append_assoc xs ((k, r) ∷ []) _), store, sync)
  | inl gone ↦
      let d = subst Distinct at v.distinct in
      let (before, after) = Distinct-middle k r xs es d in
      let (m1, e1, dropped) = internal_remove-drops connection true r m v.readable refl in
      let key = Keyed-middle m.store k r xs es (subst (Keyed m.store) at v.keyed) in
      let left : m1.members ≡ xs ++ es =
        dropped.members ∙ rw (key, at) (remove-middle k r xs es before after) in
      let found : get k m.members ≡ some r = rw at (get-middle k r xs es before) in
      let (m', e, members, store, sync) =
        remove_keys-keeps connection xs es m1 left
          (IsSound-drop k r xs es m m1 at left dropped.store v) in
      (
        m',
        rw gone (
            remove_keys-step connection k _ r m m1 found e1
            ∙ ap (λ s. remove_keys connection (absent_keys s es) m1) (sym dropped.store)
            ∙ e),
        rw gone (members ∙ ap (λ s. xs ++ present_entries s es) dropped.store),
        store ∙ dropped.store,
        SameSync-trans m m1 m' dropped.sync sync,
      )
]

-- `cleanUpAbsentMembers` removes exactly the absent members.
pub clean_up-present :
    (connection : Option Text) (m : PresenceMap)
    → IsSound m
    → (m' : PresenceMap) × (clean_up_absent_members connection m ≡ some m') × CleanedUp m m'
unfolding clean_up_absent_members
clean_up-present connection m v =
    let (m', e, members, store, sync) = remove_keys-keeps connection [] m.members m refl v in
    (m', e, record { members = members; store = store; sync = sync })
