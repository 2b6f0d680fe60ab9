-- ===== src/Fallback/Laws.antt =====
-- Source/ARTFallback.m tries every host exactly once, in whatever order is drawn.
use ably_cocoa.Base.{
  ℕ, zero, suc, ◌+◌, ◌<◌, ◌≤◌, ◌≡◌, refl, sym, ◌∙◌, ap, Bool, none, some, List, [], ◌∷◌, Text,
  if◌then◌else◌, length, arith, text_eq,
}
use ably_cocoa.Fallback.{
  at, set, exchange, shuffle_from, shuffle_array, fallback_init, pop_fallback_host,
}

abbrev pub bit : Bool → ℕ
bit b = if b then 1 else 0

abbrev pub occurrences : Text → List Text → ℕ
occurrences h [] = 0
occurrences h (x ∷ xs) = bit (text_eq h x) + occurrences h xs

occurrences-set :
    (h y : Text) (i : ℕ) (xs : List Text)
    → i < length xs
    → occurrences h (set i y xs) + bit (text_eq h (at i xs)) ≡ occurrences h xs + bit (text_eq h y)
occurrences-set h y i [] k = ground arith
occurrences-set h y zero (x ∷ xs) k = omega arith
occurrences-set h y (suc i) (x ∷ xs) k = omega (arith, occurrences-set h y i xs (omega arith))

length-set : (i : ℕ) (y : Text) (xs : List Text) → length (set i y xs) ≡ length xs
length-set i y [] = refl
length-set zero y (x ∷ xs) = refl
length-set (suc i) y (x ∷ xs) = ap suc (length-set i y xs)

-- Writing the element of `i` anywhere leaves it at `i`.
at-set : (i j : ℕ) (xs : List Text) → at i (set j (at i xs) xs) ≡ at i xs
at-set i j [] = refl
at-set zero zero (x ∷ xs) = refl
at-set zero (suc j) (x ∷ xs) = refl
at-set (suc i) zero (x ∷ xs) = refl
at-set (suc i) (suc j) (x ∷ xs) = at-set i j xs

length-exchange : (i j : ℕ) (xs : List Text) → length (exchange i j xs) ≡ length xs
unfolding exchange
length-exchange i j xs = length-set i _ _ ∙ length-set j _ xs

occurrences-exchange :
    (h : Text) (i j : ℕ) (xs : List Text)
    → i < length xs
    → j < length xs
    → occurrences h (exchange i j xs) ≡ occurrences h xs
unfolding exchange
occurrences-exchange h i j xs k l =
    let ys = set j (at i xs) xs in
    let a : i < length ys = rw (length-set j (at i xs) xs) k in
    let b = occurrences-set h (at j xs) i ys a in
    let c = occurrences-set h (at i xs) j xs l in
    let d = ap (λ x. bit (text_eq h x)) (at-set i j xs) in omega (arith, b, c, d)

shuffle_from-occurrences :
    (draw : ℕ → ℕ) (h : Text) (i : ℕ) (xs : List Text)
    → ((n : ℕ) → 0 < n → draw n < n)
    → i ≤ length xs
    → occurrences h (shuffle_from draw i xs) ≡ occurrences h xs
unfolding shuffle_from
shuffle_from-occurrences draw h zero xs u k = refl
shuffle_from-occurrences draw h (suc zero) xs u k = refl
shuffle_from-occurrences draw h (suc (suc i)) xs u k =
    let d = u (suc (suc i)) (omega arith) in
    shuffle_from-occurrences draw h (suc i) (exchange (suc i) (draw (suc (suc i))) xs) u
      (rw (length-exchange (suc i) (draw (suc (suc i))) xs) (omega arith))
    ∙ occurrences-exchange h (suc i) (draw (suc (suc i))) xs (omega arith) (omega arith)

-- The hosts that `n` calls of popFallbackHost return, up to the first nil.
abbrev pub tried : ℕ → List Text → List Text
tried zero hs = []
tried (suc n) hs = elim (pop_fallback_host hs).0 [
  | none ↦ []
  | some h ↦ h ∷ tried n (pop_fallback_host hs).1
]

-- What a call takes off a list of hosts.
record Popped (h : Text) (hs : List Text) (n : ℕ) : Type 0 where
  host : Text
  popped : (pop_fallback_host hs).0 ≡ some host
  fewer : length (pop_fallback_host hs).1 ≡ n
  count : bit (text_eq h host) + occurrences h (pop_fallback_host hs).1 ≡ occurrences h hs

Popped_lem : (h x : Text) (xs : List Text) → Popped h (x ∷ xs) (length xs)
unfolding pop_fallback_host
Popped_lem h x [] = record { host = x; popped = refl; fewer = refl; count = refl }
Popped_lem h x (y ∷ ys) =
    let p = Popped_lem h y ys in
    record {
      host = p.host;
      popped = p.popped;
      fewer = ap suc p.fewer;
      count = omega (arith, p.count);
    }

tried-some :
    (n : ℕ) (h : Text) (hs : List Text)
    → (pop_fallback_host hs).0 ≡ some h
    → tried (suc n) hs ≡ h ∷ tried n (pop_fallback_host hs).1
tried-some n h hs e = rw (tried, e)

tried-occurrences :
    (n : ℕ) (h : Text) (hs : List Text)
    → length hs ≤ n
    → occurrences h (tried n hs) ≡ occurrences h hs
unfolding pop_fallback_host
tried-occurrences zero h [] k = refl
tried-occurrences zero h (x ∷ xs) k = ground arith
tried-occurrences (suc n) h [] k = refl
tried-occurrences (suc n) h (x ∷ xs) k =
    let p = Popped_lem h x xs in
    let rest = tried-occurrences n h (pop_fallback_host (x ∷ xs)).1 (rw p.fewer (omega arith)) in
    ap (occurrences h) (tried-some n p.host (x ∷ xs) p.popped)
    ∙ ap (◌+◌ (bit (text_eq h p.host))) rest
    ∙ p.count

-- The hosts that the pops return until the first nil, for a list of hosts that the shuffle has put
-- in the order of any draws, are the given ones, each as often as it was given.
pub fallback_init-tries :
    (draw : ℕ → ℕ) (h : Text) (hs given : List Text)
    → ((n : ℕ) → 0 < n → draw n < n)
    → fallback_init (shuffle_array draw) (some given) ≡ some hs
    → occurrences h (tried (suc (length hs)) hs) ≡ occurrences h given
unfolding fallback_init shuffle_array
fallback_init-tries draw h hs [] u e = ground arith
fallback_init-tries draw h hs (g ∷ gs) u e =
    tried-occurrences (suc (length hs)) h hs (omega arith)
    ∙ ap (occurrences h) (sym (some_injective e))
    ∙ shuffle_from-occurrences draw h (suc (length gs)) (g ∷ gs) u (omega arith)
  where
    some_injective : {x y : List Text} → some x ≡ some y → x ≡ y
    some_injective q = cc
