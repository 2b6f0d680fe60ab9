-- ===== src/Presence/Map/Sync.antt =====
-- What `endSync` of Source/ARTPresenceMap.m leaves in the map.
mod Cleanup
pub use Cleanup.*
use ably_cocoa.Base.{
  ℕ, ◌≡◌, refl, sym, ◌∙◌, ap, subst, true, false, not, Option, some, List, [], ◌∷◌, ◌++◌,
  append_assoc, Text, Bool-cases, inl, inr, ◌⊎◌, ◌==◌, All, keep,
}
use ably_cocoa.Message.{PresenceMessage}
use ably_cocoa.Presence.Order.{member_key}
use ably_cocoa.Presence.Map.{
  PresenceMap, Output, removed_member, get, entries, in_progress, is_absent, internal_remove,
  absent_keys, remove_keys, clean_up_absent_members, leave_stale,
}
use ably_cocoa.Presence.Map.Keys.{
  Distinct, Keyed, Distinct-middle, put-middle, get-middle, remove-middle, Distinct-remove,
}
use ably_cocoa.Presence.Map.Removal.{
  Readable, Faded, Faded-refl, Faded-trans, Readable-Faded, key-Faded, session-Faded, absent-Faded,
  SameSync, SameSync-trans, internal_remove-drops, internal_remove-marks,
}

-- A member seen in the sync `n`, or absent.
abbrev pub Settled : ℕ → PresenceMessage → Type 0
Settled n m = (is_absent m ≡ true) ⊎ ((m.sync_session_id == n) ≡ true)

Settled-Faded :
    (n : ℕ) (s t : ℕ → PresenceMessage) → Faded s t → (r : ℕ) → Settled n (s r) → Settled n (t r)
Settled-Faded n s t f r (inl gone) = inl (absent-Faded s t f r gone)
Settled-Faded n s t f r (inr seen) = inr (rw (session-Faded s t f r) seen)

-- What `leaveMembersNotPresentInSync` does during a sync.
pub record Left (n : ℕ) (es : List (Text × ℕ)) (m m' : PresenceMap) : Type 0 where
  pub members : m'.members ≡ m.members
  pub faded : Faded m.store m'.store
  pub settled : All (λ e. Settled n (m'.store e.1)) es
  pub sync : SameSync m m'

leave_stale-step :
    (connection : Option Text) (r : ℕ) (rs : List ℕ) (m m1 m' : PresenceMap) (out : List Output)
    → ((m.store r).sync_session_id == m.sync_session_id) ≡ false
    → internal_remove connection false r m ≡ some m1
    → leave_stale connection rs m1 ≡ some (m', out)
    → leave_stale connection (r ∷ rs) m ≡ some (m', removed_member (m.store r) ∷ out)
unfolding leave_stale
leave_stale-step connection r rs m m1 m' out stale e rest = rw (leave_stale, stale, e, rest)

leave_stale-skip :
    (connection : Option Text) (r : ℕ) (rs : List ℕ) (m : PresenceMap)
    → ((m.store r).sync_session_id == m.sync_session_id) ≡ true
    → leave_stale connection (r ∷ rs) m ≡ leave_stale connection rs m
unfolding leave_stale
leave_stale-skip connection r rs m seen = rw (leave_stale, seen)

Keyed-Faded :
    (s t : ℕ → PresenceMessage) (es : List (Text × ℕ)) → Faded s t → Keyed s es → Keyed t es
Keyed-Faded s t [] f h = tt
Keyed-Faded s t ((k, r) ∷ es) f h = (key-Faded s t f r ∙ h.0, Keyed-Faded s t es f h.1)

pub IsSound-Faded :
    (m m1 : PresenceMap) → m1.members ≡ m.members → Faded m.store m1.store → IsSound m → IsSound m1
IsSound-Faded m m1 same f v = record {
  distinct = subst Distinct (sym same) v.distinct;
  keyed = subst (Keyed m1.store) (sym same) (Keyed-Faded m.store m1.store m.members f v.keyed);
  readable = Readable-Faded m.store m1.store f v.readable;
}

pub leave_stale-Left :
    (connection : Option Text) (xs es : List (Text × ℕ)) (m : PresenceMap)
    → m.members ≡ xs ++ es
    → in_progress m.sync_state ≡ true
    → IsSound m
    → (m' : PresenceMap) × (out : List Output) × (leave_stale connection (entries es) m
        ≡ some (m', out))
      × Left m.sync_session_id es m m'
unfolding leave_stale
leave_stale-Left connection xs [] m at going v = (
  m,
  [],
  refl,
  record {
    members = refl;
    faded = Faded-refl m.store;
    settled = tt;
    sync = record { state = refl; session = refl; fresh = refl };
  },
)
leave_stale-Left connection xs ((k, r) ∷ es) m at going v =
    elim (Bool-cases ((m.store r).sync_session_id == m.sync_session_id)) [
      | inl seen ↦
          let (m', out, e, l) =
            leave_stale-Left connection (xs ++ (k, r) ∷ []) es m
              (at ∙ sym (append_assoc xs ((k, r) ∷ []) es)) going v in
          (
            m',
            out,
            leave_stale-skip connection r (entries es) m seen ∙ e,
            record {
              members = l.members;
              faded = l.faded;
              sync = l.sync;
              settled = (Settled-Faded _ m.store m'.store l.faded r (inr seen), l.settled);
            },
          )
      | inr stale ↦
          let before = (Distinct-middle k r xs es (subst Distinct at v.distinct)).0 in
          let (m1, e1, marks) = internal_remove-marks connection r m v.readable going in
          let key = Keyed-middle m.store k r xs es (subst (Keyed m.store) at v.keyed) in
          let same : m1.members ≡ m.members =
            marks.members ∙ rw (key, at) (put-middle k r xs es before) in
          let (m', out, e, l) =
            leave_stale-Left connection (xs ++ (k, r) ∷ []) es m1
              (same ∙ at ∙ sym (append_assoc xs ((k, r) ∷ []) es)) (rw marks.sync.state going)
              (IsSound-Faded m m1 same marks.faded v) in
          (
            m',
            _,
            leave_stale-step connection r (entries es) m m1 m' out stale e1 e,
            record {
              members = l.members ∙ same;
              faded = Faded-trans m.store m1.store m'.store marks.faded l.faded;
              sync = SameSync-trans m m1 m' marks.sync l.sync;
              settled = (
                inl (absent-Faded m1.store m'.store l.faded r marks.gone),
                subst (λ n. All (λ e'. Settled n (m'.store e'.1)) es) marks.sync.session l.settled,
              );
            },
          )
    ]
