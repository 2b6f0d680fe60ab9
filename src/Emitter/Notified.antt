-- ===== src/Emitter/Notified.antt =====
-- How often the emitter of Source/ARTEventEmitter.m can still call a listener: the weight of its live
-- observers, one for each that is called once and two for each other.
use ably_cocoa.Base.{
  ℕ, ◌+◌, ◌≤◌, ◌≡◌, refl, Bool, false, ◌&&◌, not, Option, none, some, List, [], ◌∷◌, ◌++◌, Text,
  ◌==◌, if◌then◌else◌, Bool-cases, inl, inr, keep, arith,
}
use ably_cocoa.Emitter.{
  Listener, Emitter, Output, called, timed_out, invalidate, update, without, remove_observer,
  forgotten,
}

-- The calls of a listener.
abbrev pub calls : ℕ → List Output → ℕ
calls k [] = 0
calls k (called j c ∷ out) = (if j == k then 1 else 0) + calls k out
calls k (timed_out j c ∷ out) = calls k out

pub calls-append : (k : ℕ) (a b : List Output) → calls k (a ++ b) ≡ calls k a + calls k b
calls-append k [] b = omega arith
calls-append k (called j c ∷ a) b = omega (arith, calls-append k a b)
calls-append k (timed_out j c ∷ a) b = calls-append k a b

abbrev pub weight : ℕ → Listener → ℕ
weight k l = if l.id == k && not l.invalidated then (if l.is_once then 1 else 2) else 0

abbrev pub weigh : ℕ → List Listener → ℕ
weigh k [] = 0
weigh k (l ∷ ls) = weight k l + weigh k ls

pub weigh-append :
    (k : ℕ) (ls : List Listener) (l : Listener) → weigh k (ls ++ l ∷ []) ≡ weigh k ls + weight k l
weigh-append k [] l = omega arith
weigh-append k (j ∷ ls) l = omega (arith, weigh-append k ls l)

-- A change of the listeners with another number, which keeps their numbers.
pub weigh-update_other :
    (k j : ℕ) (f : Listener → Listener) (ls : List Listener)
    → ((l : Listener) → (f l).id ≡ l.id)
    → (j == k) ≡ false
    → weigh k (update j f ls) ≡ weigh k ls
unfolding update
weigh-update_other k j f [] same other = refl
weigh-update_other k j f (l ∷ ls) same other =
    ground (arith, same l, weigh-update_other k j f ls same other)

-- A change that keeps the weight of each listener, or lowers it.
pub weigh-update_same :
    (k j : ℕ) (f : Listener → Listener) (ls : List Listener)
    → ((l : Listener) → weight k (f l) ≡ weight k l)
    → weigh k (update j f ls) ≡ weigh k ls
unfolding update
weigh-update_same k j f [] same = refl
weigh-update_same k j f (l ∷ ls) same = elim (Bool-cases (l.id == j)) [
  | inl e ↦ rw (e, same l, weigh-update_same k j f ls same)
  | inr e ↦ rw (e, weigh-update_same k j f ls same)
]

pub weigh-invalidate : (k : ℕ) (ls : List Listener) → weigh k (update k invalidate ls) ≡ 0
unfolding update
weigh-invalidate k [] = refl
weigh-invalidate k (l ∷ ls) = ground (arith, weigh-invalidate k ls)

pub weigh-keep :
    (k : ℕ) (p : Listener → Bool) (ls : List Listener) → weigh k (keep p ls) ≤ weigh k ls
weigh-keep k p [] = omega arith
weigh-keep k p (l ∷ ls) = ground (arith, weigh-keep k p ls)

pub weigh-without : (k : ℕ) (ls : List Listener) → weigh k (without k ls) ≡ 0
weigh-without k [] = refl
weigh-without k (l ∷ ls) = ground (arith, weigh-without k ls)

pub weigh-without_other :
    (k j : ℕ) (ls : List Listener) → (j == k) ≡ false → weigh k (without j ls) ≡ weigh k ls
weigh-without_other k j [] other = refl
weigh-without_other k j (l ∷ ls) other = ground (arith, weigh-without_other k j ls other)

-- An observer that is removed has no weight, and the others keep theirs.
pub remove_observer-weigh : (k : ℕ) (m : Emitter) → weigh k (remove_observer k m).observers ≡ 0
unfolding remove_observer
remove_observer-weigh k m =
    ground (arith, weigh-invalidate k m.observers, weigh-without k m.observers)

pub remove_observer-weigh_other :
    (k j : ℕ) (m : Emitter)
    → (j == k) ≡ false
    → weigh k (remove_observer j m).observers ≡ weigh k m.observers
unfolding remove_observer
remove_observer-weigh_other k j m other = ground (
  arith,
  weigh-update_other k j invalidate m.observers (λ (l : Listener). refl) other,
  weigh-without_other k j m.observers other,
)

pub forgotten-observers :
    (k : ℕ) (event : Option Text) (m : Emitter) → (forgotten k event m).observers ≡ m.observers
forgotten-observers k none m = refl
forgotten-observers k (some e) m = refl
