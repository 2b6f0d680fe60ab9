-- ===== src/Presence/Map/Removal.antt =====
-- What `internalRemove:force:` of Source/ARTPresenceMap.m does to the members and their messages.
mod Fading
pub use Fading.*
use ably_cocoa.Base.{
  ℕ, subst, ◌≡◌, refl, ◌∙◌, ap, Bool, true, false, ◌&&◌, not, Option, some, Text, arith, Bool-cases,
  inl, inr, ◌⊎◌, if◌then◌else◌, ◌==◌, same_text, any,
}
use ably_cocoa.Types.{PresenceAction}
use ably_cocoa.Message.{PresenceMessage}
use ably_cocoa.Presence.Order.{member_key, is_synthesized, same_member}
use ably_cocoa.Presence.Map.{
  PresenceMap, put, remove, in_progress, is_absent, internal_remove, leaves_local, drop_member,
  remove_local, internal_add, set_action, set_session, put_member, add_local, update,
}

-- A removal that is final: the key is gone, and no message has changed.
pub record Dropped (r : ℕ) (m m' : PresenceMap) : Type 0 where
  pub members : m'.members ≡ remove (member_key (m.store r)) m.members
  pub store : m'.store ≡ m.store
  pub sync : SameSync m m'

-- A removal during a sync: the member stays, as an absent one.
pub record Marked (r : ℕ) (m m' : PresenceMap) : Type 0 where
  pub members : m'.members ≡ put (member_key (m.store r)) r m.members
  pub faded : Faded m.store m'.store
  pub gone : is_absent (m'.store r) ≡ true
  pub sync : SameSync m m'

drop_member-final :
    (connection : Option Text) (force : Bool) (r : ℕ) (m : PresenceMap)
    → (not force && in_progress m.sync_state) ≡ false
    → Dropped r m (drop_member connection force r m)
unfolding drop_member
drop_member-final connection force r m h = rw h (record {
  members = refl;
  store = refl;
  sync = record { state = refl; session = refl; fresh = refl };
})

-- The store after a member is marked: its message is absent, the others are as they were.
marked_store :
    (s : ℕ → PresenceMessage) (r : ℕ)
    → let a : PresenceMessage = record (s r) { action = PresenceAction.absent } in
      let t = update s r a in
      Faded s (update t r (record (t r) { sync_session_id = (s r).sync_session_id }))
marked_store s r x = elim (Bool-cases (x == r)) [
  | inr other ↦ inl (rw other)
  | inl same ↦ inr (rw same (same_message s r x (ground arith)))
]
  where
    same_message :
        (u : ℕ → PresenceMessage) (q y : ℕ)
        → y ≡ q
        → record (update u q (record (u q) { action = PresenceAction.absent }) q) {
          sync_session_id = (u q).sync_session_id;
        }
          ≡ record (u y) { action = PresenceAction.absent }
    same_message u q y e = let hit : (q == q) ≡ true = ground arith in rw (e, hit)

-- Adding to the local members, or not, leaves all else as it is.
pub local_either :
    (b : Bool) (r : ℕ) (m : PresenceMap)
    → let m' = if b then add_local r m else m in
      (m'.members ≡ m.members) × (m'.store ≡ m.store) × SameSync m m'
unfolding add_local
local_either false r m = (refl, refl, record { state = refl; session = refl; fresh = refl })
local_either true r m =
    elim (Bool-cases (any (λ q. same_member (m.store q) (m.store r)) m.local_members)) [
      | inl old ↦ rw old (refl, refl, record { state = refl; session = refl; fresh = refl })
      | inr new ↦ rw new (refl, refl, record { state = refl; session = refl; fresh = refl })
    ]

absent_hit :
    (s : ℕ → PresenceMessage) (r : ℕ)
    → let t = update s r (record (s r) { action = PresenceAction.absent }) in
      is_absent (update t r (record (t r) { sync_session_id = (s r).sync_session_id }) r) ≡ true
absent_hit s r = let hit : (r == r) ≡ true = ground arith in rw hit refl

-- The map with the member marked absent, before the local members are looked at.
abbrev marked : ℕ → PresenceMap → PresenceMap
marked r m =
    put_member r (set_session r (m.store r).sync_session_id (set_action r PresenceAction.absent m))

marked-store : (r : ℕ) (m : PresenceMap) → Faded m.store (marked r m).store
unfolding put_member set_session set_action
marked-store r m = marked_store m.store r

marked-absent : (r : ℕ) (m : PresenceMap) → is_absent ((marked r m).store r) ≡ true
unfolding put_member set_session set_action
marked-absent r m = absent_hit m.store r

marked-members :
    (r : ℕ) (m : PresenceMap)
    → (marked r m).members ≡ put (member_key ((marked r m).store r)) r m.members
unfolding put_member set_session set_action
marked-members r m = refl

marked-SameSync : (r : ℕ) (m : PresenceMap) → SameSync m (marked r m)
unfolding put_member set_session set_action
marked-SameSync r m = record { state = refl; session = refl; fresh = refl }

local_either-marked :
    (b : Bool) (r : ℕ) (m : PresenceMap)
    → Marked r m (if b then add_local r (marked r m) else marked r m)
local_either-marked b r m =
    let side = local_either b r (marked r m) in
    record {
      members =
          side.0
          ∙ marked-members r m
          ∙ ap (λ k. put k r m.members) (key-Faded m.store _ (marked-store r m) r);
      faded = rw side.1 (marked-store r m);
      gone = rw side.1 (marked-absent r m);
      sync = SameSync-trans m (marked r m) _ (marked-SameSync r m) side.2;
    }

drop_member-marks :
    (connection : Option Text) (r : ℕ) (m : PresenceMap)
    → in_progress m.sync_state ≡ true
    → Marked r m (drop_member connection false r m)
unfolding drop_member internal_add
drop_member-marks connection r m h = rw h (
    local_either-marked
      (same_text ((set_action r PresenceAction.absent m).store r).connection_id connection) r m)

remove_local-same :
    (b : Bool) (r : ℕ) (m : PresenceMap)
    → let m' = if b then remove_local r m else m in
      (m'.members ≡ m.members) × (m'.store ≡ m.store) × SameSync m m'
unfolding remove_local
remove_local-same false r m = (refl, refl, record { state = refl; session = refl; fresh = refl })
remove_local-same true r m = (refl, refl, record { state = refl; session = refl; fresh = refl })

leaves_local-reads :
    (connection : Option Text) (m : PresenceMessage) (b : Bool)
    → is_synthesized m ≡ some b
    → (c : Bool) × (leaves_local connection m ≡ some c)
unfolding leaves_local
leaves_local-reads connection m b e = elim (Bool-cases (same_text m.connection_id connection)) [
  | inl own ↦ (not b, rw (own, e))
  | inr other ↦ (false, rw other)
]

-- A removal of a message with a readable id does not raise: it drops the member after a local
-- member may have been removed.
internal_remove-reads :
    (connection : Option Text) (force : Bool) (r : ℕ) (m : PresenceMap)
    → Readable m.store
    → (c : Bool) × (internal_remove connection force r m
        ≡ some (drop_member connection force r (if c then remove_local r m else m)))
unfolding internal_remove
internal_remove-reads connection force r m readable =
    let (b, e) = readable r in
    let (c, leaves) = leaves_local-reads connection (m.store r) b e in (c, cases c leaves)
  where
    cases :
        (c : Bool)
        → leaves_local connection (m.store r) ≡ some c
        → internal_remove connection force r m
          ≡ some (drop_member connection force r (if c then remove_local r m else m))
    cases true h = rw (h, internal_remove)
    cases false h = rw (h, internal_remove)

pub internal_remove-drops :
    (connection : Option Text) (force : Bool) (r : ℕ) (m : PresenceMap)
    → Readable m.store
    → (not force && in_progress m.sync_state) ≡ false
    → (m' : PresenceMap) × (internal_remove connection force r m ≡ some m') × Dropped r m m'
internal_remove-drops connection force r m readable h =
    let (c, e) = internal_remove-reads connection force r m readable in
    let side = remove_local-same c r m in
    let d = drop_member-final connection force r _ (rw side.2.state h) in
    (
      _,
      e,
      record {
        members = d.members ∙ rw (side.0, side.1);
        store = d.store ∙ side.1;
        sync = SameSync-trans m _ _ side.2 d.sync;
      },
    )

pub internal_remove-marks :
    (connection : Option Text) (r : ℕ) (m : PresenceMap)
    → Readable m.store
    → in_progress m.sync_state ≡ true
    → (m' : PresenceMap) × (internal_remove connection false r m ≡ some m') × Marked r m m'
internal_remove-marks connection r m readable h =
    let (c, e) = internal_remove-reads connection false r m readable in
    let side = remove_local-same c r m in
    let d = drop_member-marks connection r _ (rw side.2.state h) in
    (
      _,
      e,
      record {
        members = d.members ∙ rw (side.0, side.1);
        faded = Faded-from _ _ _ side.1 d.faded;
        gone = d.gone;
        sync = SameSync-trans m _ _ side.2 d.sync;
      },
    )
