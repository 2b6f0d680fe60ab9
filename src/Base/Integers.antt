-- ===== src/Base/Integers.antt =====
-- Signed integers over the native numbers, and the machine integers that the sources use.
use Prim.Native.Nat.{ℕ, suc, ◌+◌, ◌-◌, ◌%◌, ◌≤◌, ◌<◌}
use mathlib.Core.Path.{◌≡◌}
use mathlib.Core.Logic.{◌↔◌}
use mathlib.Core.Bool.{Bool, true}
use native.Mathlib.Omega.{arith}
use ably_cocoa.Base.Tests.{ltb, leb, ◌==◌, if◌then◌else◌}

-- `negsuc n` is -(n + 1).
pub data ℤ : Type 0 where
  pos : ℕ → ℤ
  negsuc : ℕ → ℤ

abbrev pub pos_part : ℤ → ℕ
pos_part (pos n) = n
pos_part (negsuc n) = 0

abbrev pub neg_part : ℤ → ℕ
neg_part (pos n) = 0
neg_part (negsuc n) = suc n

-- a - b, as an integer.
abbrev pub sub_ℕ : ℕ → ℕ → ℤ
sub_ℕ a b = if leb b a then pos (a - b) else negsuc (b - a - 1)

infixl 65 ◌+ℤ◌ ◌-ℤ◌
infix 50 ◌≤ℤ◌
unfoldable pub ◌+ℤ◌ : ℤ → ℤ → ℤ
a +ℤ b = sub_ℕ (pos_part a + pos_part b) (neg_part a + neg_part b)

unfoldable pub ◌-ℤ◌ : ℤ → ℤ → ℤ
a -ℤ b = sub_ℕ (pos_part a + neg_part b) (neg_part a + pos_part b)

abbrev pub ◌≤ℤ◌ : ℤ → ℤ → Type 0
a ≤ℤ b = pos_part a + neg_part b ≤ pos_part b + neg_part a

abbrev pub ltb_ℤ : ℤ → ℤ → Bool
ltb_ℤ a b = ltb (pos_part a + neg_part b) (pos_part b + neg_part a)

abbrev pub eqb_ℤ : ℤ → ℤ → Bool
eqb_ℤ a b = pos_part a + neg_part b == pos_part b + neg_part a

pub eqb_ℤ-iff : (a b : ℤ) → (eqb_ℤ a b ≡ true) ↔ (a ≡ b)
eqb_ℤ-iff (pos a) (pos b) = ground arith
eqb_ℤ-iff (pos a) (negsuc b) = ground arith
eqb_ℤ-iff (negsuc a) (pos b) = ground arith
eqb_ℤ-iff (negsuc a) (negsuc b) = ground arith

-- The conversion of an `int64_t` to `int`: two's complement, the low 32 bits.
abbrev signed32 : ℕ → ℤ
signed32 r = if ltb r 2147483648 then pos r else negsuc (4294967295 - r)

unfoldable pub int32 : ℤ → ℤ
int32 (pos n) = signed32 (n % 4294967296)
int32 (negsuc n) = signed32 (4294967295 - n % 4294967296)

-- Arithmetic on `int64_t`, kept to the low 64 bits.
abbrev signed64 : ℕ → ℤ
signed64 r = if ltb r 9223372036854775808 then pos r else negsuc (18446744073709551615 - r)

unfoldable pub int64 : ℤ → ℤ
int64 (pos n) = signed64 (n % 18446744073709551616)
int64 (negsuc n) = signed64 (18446744073709551615 - n % 18446744073709551616)

pub int64-pos : (n : ℕ) → n < 9223372036854775808 → int64 (pos n) ≡ pos n
unfolding int64
int64-pos n h = ground arith

-- The conversion of an `int` to `NSUInteger`: a negative number becomes a huge one.
unfoldable pub unsigned64 : ℤ → ℕ
unsigned64 (pos n) = n % 18446744073709551616
unsigned64 (negsuc n) = 18446744073709551615 - n % 18446744073709551616

pub int32-pos : (n : ℕ) → n < 2147483648 → int32 (pos n) ≡ pos n
unfolding int32
int32-pos n h = ground arith

pub int32-negsuc : (n : ℕ) → n < 2147483648 → int32 (negsuc n) ≡ negsuc n
unfolding int32
int32-negsuc n h = ground arith

pub add_pos : (a b : ℕ) → pos a +ℤ pos b ≡ pos (a + b)
unfolding ◌+ℤ◌
add_pos a b = ground arith

pub sub_pos : (a b : ℕ) → b ≤ a → pos a -ℤ pos b ≡ pos (a - b)
unfolding ◌-ℤ◌
sub_pos a b h = ground arith

pub int64-add : (a b : ℕ) → a + b < 9223372036854775808 → int64 (pos a +ℤ pos b) ≡ pos (a + b)
int64-add a b h = rw (add_pos a b) (int64-pos (a + b) h)

pub int32-sub : (a b : ℕ) → b ≤ a → a - b < 2147483648 → int32 (pos a -ℤ pos b) ≡ pos (a - b)
int32-sub a b h k = rw (sub_pos a b h) (int32-pos (a - b) k)

pub sub_below : (a b : ℕ) → a < b → pos a -ℤ pos b ≡ negsuc (b - a - 1)
unfolding ◌-ℤ◌
sub_below a b h = ground arith

pub int32-sub_below :
    (a b : ℕ) → a < b → b - a ≤ 2147483648 → int32 (pos a -ℤ pos b) ≡ negsuc (b - a - 1)
int32-sub_below a b h k = rw (sub_below a b h) (int32-negsuc (b - a - 1) (omega arith))

pub int64-back :
    (a k : ℕ) → k < a → a < 9223372036854775808 → int64 (pos a +ℤ negsuc k) ≡ pos (a - suc k)
unfolding ◌+ℤ◌ int64
int64-back a k h l = ground arith
