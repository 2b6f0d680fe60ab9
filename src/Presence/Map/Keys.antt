-- ===== src/Presence/Map/Keys.antt =====
-- The dictionary of members of Source/ARTPresenceMap.m: its keys are distinct.
use ably_cocoa.Base.{
  ℕ, ◌≡◌, refl, Bool, false, ◌||◌, some, List, [], ◌∷◌, ◌++◌, Text, text_eq, text_eq_iff,
  text_eq_refl, All, arith, Bool-cases, inl, inr, if◌then◌else◌, keep,
}
use ably_cocoa.Message.{PresenceMessage}
use ably_cocoa.Presence.Order.{member_key}
use ably_cocoa.Presence.Map.{put, get, remove}

abbrev pub has_key : Text → List (Text × ℕ) → Bool
has_key k [] = false
has_key k ((j, q) ∷ es) = text_eq j k || has_key k es

abbrev pub Distinct : List (Text × ℕ) → Type 0
Distinct [] = Unit {0}
Distinct ((k, r) ∷ es) = (has_key k es ≡ false) × Distinct es

-- Each entry stands under the key of its message.
abbrev pub Keyed : (ℕ → PresenceMessage) → List (Text × ℕ) → Type 0
Keyed store [] = Unit {0}
Keyed store ((k, r) ∷ es) = (member_key (store r) ≡ k) × Keyed store es

pub get-put :
    (k j : Text) (r : ℕ) (es : List (Text × ℕ))
    → get j (put k r es) ≡ (if text_eq k j then some r else get j es)
unfolding get put
get-put k j r [] = refl
get-put k j r ((i, q) ∷ es) =
    ground (arith, text_eq_iff k j, text_eq_iff i k, text_eq_iff i j, get-put k j r es)

pub put-middle :
    (k : Text) (r : ℕ) (xs ys : List (Text × ℕ))
    → has_key k xs ≡ false
    → put k r (xs ++ (k, r) ∷ ys) ≡ xs ++ (k, r) ∷ ys
unfolding put
put-middle k r [] ys h = rw (text_eq_refl k)
put-middle k r ((j, q) ∷ xs) ys h = ground (arith, put-middle k r xs ys)

pub get-middle :
    (k : Text) (r : ℕ) (xs ys : List (Text × ℕ))
    → has_key k xs ≡ false
    → get k (xs ++ (k, r) ∷ ys) ≡ some r
unfolding get
get-middle k r [] ys h = rw (text_eq_refl k)
get-middle k r ((j, q) ∷ xs) ys h = ground (arith, get-middle k r xs ys)

remove-missing : (k : Text) (xs : List (Text × ℕ)) → has_key k xs ≡ false → remove k xs ≡ xs
unfolding remove
remove-missing k [] h = refl
remove-missing k ((j, q) ∷ xs) h = ground (arith, remove-missing k xs)

pub remove-middle :
    (k : Text) (r : ℕ) (xs ys : List (Text × ℕ))
    → has_key k xs ≡ false
    → has_key k ys ≡ false
    → remove k (xs ++ (k, r) ∷ ys) ≡ xs ++ ys
unfolding remove
remove-middle k r [] ys h l = rw (text_eq_refl k) (remove-missing k ys l)
remove-middle k r ((j, q) ∷ xs) ys h l = ground (arith, remove-middle k r xs ys)

has_key-append :
    (k : Text) (xs ys : List (Text × ℕ)) → has_key k (xs ++ ys) ≡ (has_key k xs || has_key k ys)
has_key-append k [] ys = refl
has_key-append k ((j, q) ∷ xs) ys = ground (arith, has_key-append k xs ys)

-- In a list of distinct keys the key of an entry stands neither before nor after it.
pub Distinct-middle :
    (k : Text) (r : ℕ) (xs ys : List (Text × ℕ))
    → Distinct (xs ++ (k, r) ∷ ys)
    → (has_key k xs ≡ false) × (has_key k ys ≡ false)
Distinct-middle k r [] ys d = (refl, d.0)
Distinct-middle k r ((j, q) ∷ xs) ys d = ground (
  arith,
  Distinct-middle k r xs ys d.1,
  has_key-append j xs ((k, r) ∷ ys),
  text_eq_iff k j,
  text_eq_iff j k,
)

pub has_key-remove :
    (k j : Text) (es : List (Text × ℕ)) → has_key j es ≡ false → has_key j (remove k es) ≡ false
unfolding remove
has_key-remove k j [] h = refl
has_key-remove k j ((i, q) ∷ es) h = ground (arith, has_key-remove k j es)

pub Distinct-remove : (k : Text) (es : List (Text × ℕ)) → Distinct es → Distinct (remove k es)
unfolding remove
Distinct-remove k [] d = tt
Distinct-remove k ((j, q) ∷ es) d =
    ground (arith, Distinct-remove k es d.1, has_key-remove k j es d.0)

pub All-remove {κ} :
    (P : Text × ℕ → Type κ) (k : Text) (es : List (Text × ℕ)) → All P es → All P (remove k es)
unfolding remove
All-remove P k [] h = tt
All-remove P k ((j, q) ∷ es) h = elim (Bool-cases (text_eq j k)) [
  | inl hit ↦ rw hit (All-remove P k es h.1)
  | inr miss ↦ rw miss (h.0, All-remove P k es h.1)
]

pub Keyed-remove :
    (store : ℕ → PresenceMessage) (k : Text) (es : List (Text × ℕ))
    → Keyed store es
    → Keyed store (remove k es)
unfolding remove
Keyed-remove store k [] h = tt
Keyed-remove store k ((j, q) ∷ es) h = elim (Bool-cases (text_eq j k)) [
  | inl hit ↦ rw hit (Keyed-remove store k es h.1)
  | inr miss ↦ rw miss (h.0, Keyed-remove store k es h.1)
]

has_key-keep :
    (p : Text × ℕ → Bool) (k : Text) (es : List (Text × ℕ))
    → has_key k es ≡ false
    → has_key k (keep p es) ≡ false
has_key-keep p k [] h = refl
has_key-keep p k ((j, q) ∷ es) h = ground (arith, has_key-keep p k es)

pub Distinct-keep :
    (p : Text × ℕ → Bool) (es : List (Text × ℕ)) → Distinct es → Distinct (keep p es)
Distinct-keep p [] d = tt
Distinct-keep p ((k, r) ∷ es) d = elim (Bool-cases (p (k, r))) [
  | inl hit ↦ rw hit (has_key-keep p k es d.0, Distinct-keep p es d.1)
  | inr miss ↦ rw miss (Distinct-keep p es d.1)
]

pub Keyed-keep :
    (store : ℕ → PresenceMessage) (p : Text × ℕ → Bool) (es : List (Text × ℕ))
    → Keyed store es
    → Keyed store (keep p es)
Keyed-keep store p [] h = tt
Keyed-keep store p ((k, r) ∷ es) h = elim (Bool-cases (p (k, r))) [
  | inl hit ↦ rw hit (h.0, Keyed-keep store p es h.1)
  | inr miss ↦ rw miss (Keyed-keep store p es h.1)
]
