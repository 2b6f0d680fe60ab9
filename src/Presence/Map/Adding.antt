-- ===== src/Presence/Map/Adding.antt =====
-- `add:` of Source/ARTPresenceMap.m: which messages it accepts, and what it does with them.
use ably_cocoa.Base.{
  ℕ, ◌≡◌, refl, ◌∙◌, ap, Bool, true, false, Option, some, Text, text_eq, arith, if◌then◌else◌, ◌==◌,
  same_text, any,
}
use mathlib.Core.Path.{ap₂}
use ably_cocoa.Presence.Map.Keys.{get-put}
use ably_cocoa.Presence.Map.Removal.{local_either}
use ably_cocoa.Types.{PresenceAction}
use ably_cocoa.Message.{PresenceMessage}
use ably_cocoa.Presence.Order.{member_key, same_member, is_newer_than}
use ably_cocoa.Presence.Map.{
  PresenceMap, put, get, add, add_newer, allocate, internal_add, add_local, put_member, set_session,
  set_action, content, returning, mark_seen,
}

pub add-accepts :
    (connection : Option Text) (msg : PresenceMessage) (latest : Option ℕ) (m : PresenceMap)
    → get (member_key msg) m.members ≡ latest
    → is_newer_than msg (content m latest) ≡ some true
    → add connection msg m
      ≡ returning true (add_newer connection msg.action m.fresh (allocate msg m))
unfolding add
add-accepts connection msg latest m found newer = rw (add, found, newer)

add-ignores :
    (connection : Option Text) (msg : PresenceMessage) (latest : Option ℕ) (m : PresenceMap)
    → get (member_key msg) m.members ≡ latest
    → is_newer_than msg (content m latest) ≡ some false
    → add connection msg m ≡ some (mark_seen latest m, false)
unfolding add
add-ignores connection msg latest m found older = rw (add, found, older) (rw found refl)

pub internal_add-own :
    (connection : Option Text) (r n : ℕ) (m : PresenceMap)
    → same_text (m.store r).connection_id connection ≡ true
    → internal_add connection r n m ≡ add_local r (put_member r (set_session r n m))
unfolding internal_add
internal_add-own connection r n m own = rw (internal_add, own)

pub same_member-session :
    (a b : PresenceMessage) (n : ℕ)
    → same_member a (record b { sync_session_id = n }) ≡ same_member a b
unfolding same_member
same_member-session a b n = refl

pub add_local-old :
    (r : ℕ) (m : PresenceMap)
    → any (λ q. same_member (m.store q) (m.store r)) m.local_members ≡ true
    → add_local r m ≡ m
unfolding add_local
add_local-old r m old = rw (add_local, old)

-- The member's new object is in the dictionary, marked as seen in the current sync.
pub record Added (r n : ℕ) (m m' : PresenceMap) : Type 0 where
  pub members : m'.members ≡ put (member_key (m.store r)) r m.members
  pub message : m'.store r ≡ record (m.store r) { sync_session_id = n }
  pub others : (x : ℕ) → (x == r) ≡ false → m'.store x ≡ m.store x

pub put_session : (r n : ℕ) (m : PresenceMap) → Added r n m (put_member r (set_session r n m))
unfolding put_member set_session member_key
put_session r n m =
    let hit : (r == r) ≡ true = ground arith in
    record { members = rw hit; message = rw hit; others = λ x h. rw h }

Added-either :
    (b : Bool) (r n : ℕ) (m : PresenceMap)
    → let m1 = put_member r (set_session r n m) in Added r n m (if b then add_local r m1 else m1)
Added-either b r n m =
    let m1 = put_member r (set_session r n m) in
    let side = local_either b r m1 in
    let put' = put_session r n m in
    record {
      members = side.0 ∙ put'.members;
      message = ap (λ s. s r) side.1 ∙ put'.message;
      others = λ x h. ap (λ s. s x) side.1 ∙ put'.others x h;
    }

internal_add-Added :
    (connection : Option Text) (r n : ℕ) (m : PresenceMap)
    → Added r n m (internal_add connection r n m)
unfolding internal_add
internal_add-Added connection r n m = Added-either _ r n m

-- The actions that make a member present.
abbrev pub enters : PresenceAction → Bool
enters PresenceAction.enter = true
enters PresenceAction.update = true
enters PresenceAction.present = true
enters _ = false

abbrev pub as_present : PresenceMessage → PresenceMessage
as_present msg = record msg { action = PresenceAction.present }

-- The object that `add:` has allocated, and made present.
pub record Prepared (msg : PresenceMessage) (m m1 : PresenceMap) : Type 0 where
  pub message : m1.store m.fresh ≡ as_present msg
  pub members : m1.members ≡ m.members
  pub session : m1.sync_session_id ≡ m.sync_session_id
  pub others : (x : ℕ) → (x == m.fresh) ≡ false → m1.store x ≡ m.store x
  pub locals : m1.local_members ≡ m.local_members
  pub state : m1.sync_state ≡ m.sync_state

allocate-Prepared :
    (msg : PresenceMessage) (m : PresenceMap)
    → Prepared msg m (set_action m.fresh PresenceAction.present (allocate msg m))
unfolding set_action allocate
allocate-Prepared msg m =
    let hit : (m.fresh == m.fresh) ≡ true = ground arith in
    record {
      message = rw hit;
      members = refl;
      session = refl;
      others = λ x h. rw h;
      locals = refl;
      state = refl;
    }

pub add_newer-enters :
    (connection : Option Text) (a : PresenceAction) (msg : PresenceMessage) (m : PresenceMap)
    → enters a ≡ true
    → msg.action ≡ a
    → (m1 : PresenceMap) × (add_newer connection a m.fresh (allocate msg m)
        ≡ some (internal_add connection m.fresh m.sync_session_id m1))
      × Prepared msg m m1
unfolding add_newer allocate
add_newer-enters connection PresenceAction.enter msg m h e = (_, refl, allocate-Prepared msg m)
add_newer-enters connection PresenceAction.update msg m h e = (_, refl, allocate-Prepared msg m)
add_newer-enters connection PresenceAction.present msg m h e =
    let hit : (m.fresh == m.fresh) ≡ true = ground arith in
    (
      allocate msg m,
      refl,
      record {
        message = rw (hit, ← e);
        members = refl;
        session = refl;
        others = λ x h. rw h;
        locals = refl;
        state = refl;
      },
    )
add_newer-enters connection PresenceAction.leave msg m h e = cc
add_newer-enters connection PresenceAction.absent msg m h e = cc

pub with_session :
    (n : ℕ) {a b : PresenceMessage}
    → a ≡ b
    → ◌≡◌ {A = PresenceMessage}
        (record a { sync_session_id = n })
        (record b { sync_session_id = n })
with_session n p = λ i. record (p i) { sync_session_id = n }

-- A presence message of action enter, update or present that is newer than the one known is added:
-- its member is present, seen in the current sync, and every other member is the object that it was.
-- The new message is a new object, and no other object has changed.
pub add-enters :
    (connection : Option Text) (msg : PresenceMessage) (latest : Option ℕ) (m : PresenceMap)
    → get (member_key msg) m.members ≡ latest
    → is_newer_than msg (content m latest) ≡ some true
    → enters msg.action ≡ true
    → (m' : PresenceMap) × (add connection msg m ≡ some (m', true))
      × (m'.store m.fresh ≡ record (as_present msg) { sync_session_id = m.sync_session_id })
      × ((k : Text)
          → get k m'.members
            ≡ (if text_eq (member_key msg) k then some m.fresh else get k m.members))
      × ((x : ℕ) → (x == m.fresh) ≡ false → m'.store x ≡ m.store x)
unfolding member_key
add-enters connection msg latest m found newer h =
    let (m1, e, p) = add_newer-enters connection msg.action msg m h refl in
    let a = internal_add-Added connection m.fresh m.sync_session_id m1 in
    (
      _,
      add-accepts connection msg latest m found newer ∙ ap (returning true) e,
      a.message ∙ with_session m.sync_session_id p.message,
      λ k.
          ap (get k) (a.members ∙ ap₂ (λ x es. put (member_key x) m.fresh es) p.message p.members)
          ∙ get-put (member_key msg) k m.fresh m.members,
      λ x away. a.others x away ∙ p.others x away,
    )
