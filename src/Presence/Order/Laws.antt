-- ===== src/Presence/Order/Laws.antt =====
-- `isNewerThan:` of Source/ARTPresenceMessage.m orders the messages that a connection has sent.
use ably_cocoa.Base.{◌≡◌, ◌∙◌, ap, Bool, true, false, some, arith, ◌⊎◌, ℤ, eqb_ℤ-iff}
use ably_cocoa.Message.{PresenceMessage}
use ably_cocoa.Presence.Order.{
  is_synthesized, serial_and_index, newer_by_serial, compare_ids, is_newer_than,
}

-- A message of its own connection, with the serial and the index of its id.
pub record IsReal (m : PresenceMessage) (a : ℤ × ℤ) : Type 0 where
  pub real : is_synthesized m ≡ some false
  pub at : serial_and_index m ≡ some a

is_newer_than-real :
    (m l : PresenceMessage) (a b : ℤ × ℤ)
    → IsReal m a
    → IsReal l b
    → is_newer_than m (some l) ≡ some (newer_by_serial a b)
unfolding is_newer_than compare_ids
is_newer_than-real m l a b p q = rw (is_newer_than, p.real, q.real, compare_ids, p.at, q.at)

-- Exactly one of three: the first is newer, the second is, or they agree.
abbrev pub Trichotomy : Bool → Bool → ℤ × ℤ → ℤ × ℤ → Type 0
Trichotomy f g a b =
    ((f ≡ true) × (g ≡ false)) ⊎ ((f ≡ false) × (g ≡ true)) ⊎ ((f ≡ false) × (g ≡ false) × (a ≡ b))

trichotomy_lem : (a b : ℤ × ℤ) → Trichotomy (newer_by_serial a b) (newer_by_serial b a) a b
unfolding newer_by_serial
trichotomy_lem (s, i) (t, j) = ground (arith, eqb_ℤ-iff s t, eqb_ℤ-iff t s, eqb_ℤ-iff i j)

newer_trans :
    (a b c : ℤ × ℤ)
    → newer_by_serial a b ≡ true
    → newer_by_serial b c ≡ true
    → newer_by_serial a c ≡ true
unfolding newer_by_serial
newer_trans (s, i) (t, j) (u, k) p q = ground arith

-- Of two messages that their connections sent, exactly one is newer than the other, unless their
-- serials and indices agree; then neither is.
pub is_newer_than-Trichotomy :
    (m l : PresenceMessage) (a b : ℤ × ℤ)
    → IsReal m a
    → IsReal l b
    → (f : Bool) × (g : Bool) × (is_newer_than m (some l) ≡ some f)
      × (is_newer_than l (some m) ≡ some g)
      × Trichotomy f g a b
is_newer_than-Trichotomy m l a b p q =
    (_, _, is_newer_than-real m l a b p q, is_newer_than-real l m b a q p, trichotomy_lem a b)

-- Among messages that their connections sent, "newer" is transitive.
pub is_newer_than_trans :
    (m l k : PresenceMessage) (a b c : ℤ × ℤ)
    → IsReal m a
    → IsReal l b
    → IsReal k c
    → is_newer_than m (some l) ≡ some true
    → is_newer_than l (some k) ≡ some true
    → is_newer_than m (some k) ≡ some true
is_newer_than_trans m l k a b c p q r ml lk =
    let ab : newer_by_serial a b ≡ true = cc (is_newer_than-real m l a b p q) in
    let bc : newer_by_serial b c ≡ true = cc (is_newer_than-real l k b c q r) in
    is_newer_than-real m k a c p r ∙ ap some (newer_trans a b c ab bc)
