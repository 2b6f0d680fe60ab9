-- ===== src/Json/Numbers.antt =====
-- The `doubleValue` of a whole NSNumber, converted back to NSUInteger, as the counts of
-- Source/ARTJsonLikeEncoder.m are: a double keeps 53 significant bits.
use ably_cocoa.Base.{ℕ, zero, suc, ◌+◌, ◌*◌, ◌/◌, ◌%◌, ◌<◌, ◌≡◌, arith, ltb, ◌==◌, if◌then◌else◌}

abbrev pub exact_limit : ℕ
exact_limit = 9007199254740992

-- The quotient rounded to the nearest, a tie to the even one.
unfoldable pub round_div : ℕ → ℕ → ℕ
round_div n d =
    let q = n / d in
    let r = n % d in if ltb (2 * r) d then q else if 2 * r == d then q + q % 2 else q + 1

-- A number below 2 ^ 64 has at most 11 bits beyond the 53 that a double keeps: the fuel is 11.
unfoldable pub double_from : ℕ → ℕ → ℕ → ℕ
double_from zero unit n = round_div n unit * unit
double_from (suc fuel) unit n =
    let rest = double_from fuel (2 * unit) n in
    if ltb n (exact_limit * unit) then round_div n unit * unit else rest

unfoldable pub double_value : ℕ → ℕ
unfolding double_from
double_value n = double_from 11 1 n

-- Counts below 2 ^ 53 are kept.
pub double_value-exact : (n : ℕ) → n < exact_limit → double_value n ≡ n
unfolding double_value double_from round_div
double_value-exact n h = ground arith

rounds_down : double_value 9007199254740993 ≡ 9007199254740992
unfolding double_value round_div
rounds_down = omega arith

rounds_up : double_value 9007199254740995 ≡ 9007199254740996
unfolding double_value round_div
rounds_up = omega arith
