-- ===== src/Presence/Map/Removal/Fading.antt =====
-- The objects of Source/ARTPresenceMap.m that a removal leaves as they were or marks absent.
use ably_cocoa.Base.{ℕ, subst, ◌≡◌, refl, ◌∙◌, Bool, true, some, inl, inr, ◌⊎◌}
use ably_cocoa.Types.{PresenceAction}
use ably_cocoa.Message.{PresenceMessage}
use ably_cocoa.Presence.Order.{member_key, is_synthesized}
use ably_cocoa.Presence.Map.{PresenceMap, is_absent}

-- The ids of all messages can be read.
abbrev pub Readable : (ℕ → PresenceMessage) → Type 0
Readable store = (r : ℕ) → (b : Bool) × (is_synthesized (store r) ≡ some b)

-- Messages only become absent from one store to the other.
abbrev pub Faded : (ℕ → PresenceMessage) → (ℕ → PresenceMessage) → Type 0
Faded s s' = (x : ℕ) → (s' x ≡ s x) ⊎ (s' x ≡ record (s x) { action = PresenceAction.absent })

pub Faded-refl : (s : ℕ → PresenceMessage) → Faded s s
Faded-refl s x = inl refl

pub Faded-from : (s s' t : ℕ → PresenceMessage) → s' ≡ s → Faded s' t → Faded s t
Faded-from s s' t p f = subst (λ u. Faded u t) p f

pub Faded-trans : (s t u : ℕ → PresenceMessage) → Faded s t → Faded t u → Faded s u
Faded-trans s t u f g x = cases (f x) (g x)
  where
    cases :
        (t x ≡ s x) ⊎ (t x ≡ record (s x) { action = PresenceAction.absent })
        → (u x ≡ t x) ⊎ (u x ≡ record (t x) { action = PresenceAction.absent })
        → (u x ≡ s x) ⊎ (u x ≡ record (s x) { action = PresenceAction.absent })
    cases (inl p) (inl q) = inl (q ∙ p)
    cases (inr p) (inl q) = inr (q ∙ p)
    cases (inl p) (inr q) = inr (q ∙ rw p)
    cases (inr p) (inr q) = inr (q ∙ rw p)

pub synthesized-Faded :
    (s t : ℕ → PresenceMessage) → Faded s t → (r : ℕ) → is_synthesized (t r) ≡ is_synthesized (s r)
unfolding is_synthesized
synthesized-Faded s t f r = elim (f r) [ inl p ↦ rw p | inr p ↦ rw p ]

pub Readable-Faded : (s t : ℕ → PresenceMessage) → Faded s t → Readable s → Readable t
Readable-Faded s t f h r = let (b, e) = h r in (b, synthesized-Faded s t f r ∙ e)

pub key-Faded :
    (s t : ℕ → PresenceMessage) → Faded s t → (r : ℕ) → member_key (t r) ≡ member_key (s r)
unfolding member_key
key-Faded s t f r = elim (f r) [ inl p ↦ rw p | inr p ↦ rw p ]

pub session-Faded :
    (s t : ℕ → PresenceMessage)
    → Faded s t
    → (r : ℕ) → (t r).sync_session_id ≡ (s r).sync_session_id
session-Faded s t f r = elim (f r) [ inl p ↦ rw p | inr p ↦ rw p ]

pub absent-Faded :
    (s t : ℕ → PresenceMessage)
    → Faded s t
    → (r : ℕ) → is_absent (s r) ≡ true
    → is_absent (t r) ≡ true
absent-Faded s t f r h = elim (f r) [ inl p ↦ rw p h | inr p ↦ rw p refl ]

-- What stays the same of a map while members are removed.
pub record SameSync (m m' : PresenceMap) : Type 0 where
  pub state : m'.sync_state ≡ m.sync_state
  pub session : m'.sync_session_id ≡ m.sync_session_id
  pub fresh : m'.fresh ≡ m.fresh

pub SameSync-trans : (a b c : PresenceMap) → SameSync a b → SameSync b c → SameSync a c
SameSync-trans a b c p q = record {
  state = q.state ∙ p.state;
  session = q.session ∙ p.session;
  fresh = q.fresh ∙ p.fresh;
}
