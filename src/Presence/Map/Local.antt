-- ===== src/Presence/Map/Local.antt =====
-- A local member of Source/ARTPresenceMap.m that is updated during a sync.
mod Ending
pub use Ending.*
use ably_cocoa.Base.{
  ℕ, ◌≡◌, refl, ◌∙◌, ap, sym, subst, true, false, Bool, not, Option, none, some, List, [], ◌∷◌,
  ◌++◌, map, Text, text_eq, text_eq_refl, All-append, arith, ◌==◌, ==_iff, same_text, keep, any,
  All, Bool-cases, inl, inr, ◌⊎◌,
}
use mathlib.Core.Path.{ap₂}
use ably_cocoa.Types.{PresenceAction}
use ably_cocoa.Message.{PresenceMessage}
use ably_cocoa.Presence.Order.{member_key, same_member, is_synthesized, is_newer_than}
use ably_cocoa.Presence.Map.{
  PresenceMap, Output, reenter_member, sync_ended, started, ended, in_progress, put, get, remove,
  entries, is_absent, absent_keys, add, add_newer, allocate, internal_add, add_local, remove_local,
  put_member, set_session, returning, content, internal_remove, leaves_local, drop_member,
  clean_up_absent_members, remove_keys, leave_stale, leave_members_not_present_in_sync,
  reenter_each, reenter_local_members_missing_from_sync, finish_sync, end_sync, stale_local,
}
use ably_cocoa.Presence.Map.Keys.{All-remove, has_key, get-middle, remove-middle}
use ably_cocoa.Presence.Map.Adding.{
  Added, Prepared, put_session, with_session, enters, as_present, add_newer-enters, add-accepts,
  internal_add-own, add_local-old, same_member-session,
}

-- What `add:` leaves of a map that holds the member and its local object already.
record Updated (msg : PresenceMessage) (m m' : PresenceMap) : Type 0 where
  members : m'.members ≡ put (member_key msg) m.fresh m.members
  message : m'.store m.fresh ≡ record (as_present msg) { sync_session_id = m.sync_session_id }
  others : (x : ℕ) → (x == m.fresh) ≡ false → m'.store x ≡ m.store x
  locals : m'.local_members ≡ m.local_members
  session : m'.sync_session_id ≡ m.sync_session_id

any-cong : (p q : ℕ → Bool) (xs : List ℕ) → All (λ x. p x ≡ q x) xs → any p xs ≡ any q xs
any-cong p q [] h = refl
any-cong p q (x ∷ xs) h = rw (h.0, any-cong p q xs h.1) refl

keep-cong : (p q : ℕ → Bool) (xs : List ℕ) → All (λ x. p x ≡ q x) xs → keep p xs ≡ keep q xs
keep-cong p q [] h = refl
keep-cong p q (x ∷ xs) h = rw (h.0, keep-cong p q xs h.1) refl

All-mapped : (P Q : ℕ → Type 0) (xs : List ℕ) → ((x : ℕ) → P x → Q x) → All P xs → All Q xs
All-mapped P Q [] f h = tt
All-mapped P Q (x ∷ xs) f h = (f x h.0, All-mapped P Q xs f h.1)

put-replaces :
    (k : Text) (r q : ℕ) (xs ys : List (Text × ℕ))
    → has_key k xs ≡ false
    → put k r (xs ++ (k, q) ∷ ys) ≡ xs ++ (k, r) ∷ ys
unfolding put
put-replaces k r q [] ys h = rw (text_eq_refl k)
put-replaces k r q ((j, p) ∷ xs) ys h = ground (arith, put-replaces k r q xs ys)

-- A member other than the new object, which is confirmed.
abbrev pub Settled : PresenceMap → Text × ℕ → Type 0
Settled m e = ((e.1 == m.fresh) ≡ false) × Confirmed m.sync_session_id (m.store e.1)

AllConfirmed-same :
    (m : PresenceMap) (t : ℕ → PresenceMessage) (es : List (Text × ℕ))
    → ((x : ℕ) → (x == m.fresh) ≡ false → t x ≡ m.store x)
    → All (Settled m) es
    → AllConfirmed m.sync_session_id t es
AllConfirmed-same m t [] away h = tt
AllConfirmed-same m t ((k, r) ∷ es) away h = (
  subst (Confirmed m.sync_session_id) (sym (away r h.0.0)) h.0.1,
  AllConfirmed-same m t es away h.1,
)

Confirmed-present :
    (n : ℕ) (msg : PresenceMessage) → Confirmed n (record (as_present msg) { sync_session_id = n })
Confirmed-present n msg = (ground arith, refl)

-- A map in which the local member `r` waits for its confirmation in the sync in progress, and the
-- message that confirms it.
pub record Awaits (connection : Option Text) (msg : PresenceMessage) (r : ℕ)
    (xs ys : List (Text × ℕ)) (m : PresenceMap) : Type 0 where
  pub members : m.members ≡ xs ++ (member_key msg, r) ∷ ys
  pub before : has_key (member_key msg) xs ≡ false
  pub after : has_key (member_key msg) ys ≡ false
  pub settled_before : All (Settled m) xs
  pub settled_after : All (Settled m) ys
  pub local : any (λ q. same_member (m.store q) msg) m.local_members ≡ true
  pub stale : stale_local m ≡ r ∷ []
  pub known : All (λ q. (q == m.fresh) ≡ false) m.local_members
  pub older : (r == m.fresh) ≡ false
  pub key : member_key (m.store r) ≡ member_key msg
  pub own : same_text (m.store r).connection_id connection ≡ true
  pub real : is_synthesized (m.store r) ≡ some false
  pub own_message : same_text msg.connection_id connection ≡ true
  pub newer : is_newer_than msg (some (m.store r)) ≡ some true
  pub present : enters msg.action ≡ true

same_members :
    (m2 m : PresenceMap) (msg : PresenceMessage) (r n q : ℕ)
    → m2.store q ≡ m.store q
    → m2.store r ≡ record (as_present msg) { sync_session_id = n }
    → same_member (m2.store q) (m2.store r) ≡ same_member (m.store q) msg
unfolding same_member
same_members m2 m msg r n q a b = rw (a, b) refl

internal_add-Updated :
    (connection : Option Text) (msg : PresenceMessage) (m m1 : PresenceMap)
    → Prepared msg m m1
    → same_text msg.connection_id connection ≡ true
    → any (λ q. same_member (m.store q) msg) m.local_members ≡ true
    → All (λ q. (q == m.fresh) ≡ false) m.local_members
    → Updated msg m (internal_add connection m.fresh m.sync_session_id m1)
unfolding put_member set_session member_key
internal_add-Updated connection msg m m1 p own local known =
    let r = m.fresh in
    let n = m.sync_session_id in
    let m2 = put_member r (set_session r n m1) in
    let a = put_session r n m1 in
    let own' : same_text (m1.store r).connection_id connection ≡ true =
      ap (λ x. same_text x.connection_id connection) p.message ∙ own in
    let message : m2.store r ≡ record (as_present msg) { sync_session_id = n } =
      a.message ∙ with_session n p.message in
    let others : (x : ℕ) → (x == r) ≡ false → m2.store x ≡ m.store x =
      λ x h. a.others x h ∙ p.others x h in
    let held : any (λ q. same_member (m2.store q) (m2.store r)) m2.local_members ≡ true =
      ap (any _) p.locals
      ∙ any-cong _ _ m.local_members (
          All-mapped _ _ m.local_members (λ q h. same_members m2 m msg r n q (others q h) message)
            known)
      ∙ local in
    subst (Updated msg m) (sym (internal_add-own connection r n m1 own' ∙ add_local-old r m2 held))
      (record {
        members = a.members ∙ ap₂ (λ x es. put (member_key x) r es) p.message p.members;
        message = message;
        others = others;
        locals = p.locals;
        session = p.session;
      })

Updated-stale :
    (connection : Option Text) (msg : PresenceMessage) (r : ℕ) (xs ys : List (Text × ℕ))
    (m m1 : PresenceMap)
    → Awaits connection msg r xs ys m
    → Updated msg m m1
    → stale_local m1 ≡ r ∷ []
Updated-stale connection msg r xs ys m m1 w u =
    rw (u.locals, u.session)
      (keep-cong _ _ m.local_members (
          All-mapped _ _ m.local_members
            (λ q h. ap (λ x. not (x.sync_session_id == m.sync_session_id)) (u.others q h)) w.known)
        ∙ w.stale)

Updated-members :
    (connection : Option Text) (msg : PresenceMessage) (r : ℕ) (xs ys : List (Text × ℕ))
    (m m1 : PresenceMap)
    → Awaits connection msg r xs ys m
    → Updated msg m m1
    → m1.members ≡ xs ++ (member_key msg, m.fresh) ∷ ys
Updated-members connection msg r xs ys m m1 w u =
    u.members
    ∙ ap (put (member_key msg) m.fresh) w.members
    ∙ put-replaces (member_key msg) m.fresh r xs ys w.before

Updated-confirmed :
    (connection : Option Text) (msg : PresenceMessage) (r : ℕ) (xs ys : List (Text × ℕ))
    (m m1 : PresenceMap)
    → Awaits connection msg r xs ys m
    → Updated msg m m1
    → AllConfirmed m1.sync_session_id m1.store m1.members
Updated-confirmed connection msg r xs ys m m1 w u =
    let n = m.sync_session_id in
    rw (Updated-members connection msg r xs ys m m1 w u, u.session)
      (All-append _ xs ((member_key msg, m.fresh) ∷ ys)
        (AllConfirmed-same m m1.store xs u.others w.settled_before)
        (
          subst (Confirmed n) (sym u.message) (Confirmed-present n msg),
          AllConfirmed-same m m1.store ys u.others w.settled_after,
        ))

add-Updated :
    (connection : Option Text) (msg : PresenceMessage) (r : ℕ) (xs ys : List (Text × ℕ))
    (m : PresenceMap)
    → Awaits connection msg r xs ys m
    → (m1 : PresenceMap) × (add connection msg m ≡ some (m1, true)) × Updated msg m m1
add-Updated connection msg r xs ys m w =
    let (m1, e, p) = add_newer-enters connection msg.action msg m w.present refl in
    let found : get (member_key msg) m.members ≡ some r =
      rw w.members (get-middle (member_key msg) r xs ys w.before) in
    (
      _,
      add-accepts connection msg (some r) m found w.newer ∙ ap (returning true) e,
      internal_add-Updated connection msg m m1 p w.own_message w.local w.known,
    )

-- A member of the own connection is the only local one that has not been seen in the current sync; its
-- message is not synthesized and no other member has its key; every other member has been seen in this
-- sync and is not absent. A newer message of the same member, to enter, to update or of action PRESENT,
-- is then taken, and its object is the member, seen in this sync. All the same the end of the sync asks
-- to enter the member again and removes it from the members, and leaves the others: the set of local
-- members still holds the object from before.
pub local_update_lost :
    (connection : Option Text) (msg : PresenceMessage) (r : ℕ) (xs ys : List (Text × ℕ))
    (m : PresenceMap)
    → Awaits connection msg r xs ys m
    → (m1 m2 : PresenceMap) × (add connection msg m ≡ some (m1, true))
      × (m1.members ≡ xs ++ (member_key msg, m.fresh) ∷ ys)
      × (m1.store m.fresh ≡ record (as_present msg) { sync_session_id = m.sync_session_id })
      × (end_sync connection m1
          ≡ some (
            m2,
            reenter_member (m.store r) ∷ sync_ended (map m2.store (entries m2.members)) ∷ [],
          ))
      × (m2.members ≡ xs ++ ys)
local_update_lost connection msg r xs ys m w =
    let (m1, e, u) = add-Updated connection msg r xs ys m w in
    let gone = without r (record m1 { sync_state = ended }) in
    let same = u.others r w.older in
    let at = Updated-members connection msg r xs ys m m1 w u in
    (
      m1,
      gone,
      e,
      at,
      u.message,
      end_sync-removes connection r m1 (Updated-confirmed connection msg r xs ys m m1 w u)
            (Updated-stale connection msg r xs ys m m1 w u) (rw same w.own) (rw same w.real)
          ∙ ap
              (λ x.
                some (
                  gone,
                  reenter_member x ∷ sync_ended (map gone.store (entries gone.members)) ∷ [],
                ))
              same,
      rw (same, w.key, at) (remove-middle (member_key msg) m.fresh xs ys w.before w.after),
    )
