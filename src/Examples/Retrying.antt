-- ===== src/Examples/Retrying.antt =====
-- Instances for retries, fallback hosts and resume requests (Source/ARTRetrySequence.m, ARTFallback.m,
-- ARTResumeRequestResponse.m).
use ably_cocoa.Base.{
  ℕ, zero, suc, ◌*◌, ◌<◌, ◌≤◌, ◌≡◌, refl, some, List, [], ◌∷◌, Text, codes, arith,
}
use ably_cocoa.Types.{ConnectionState}
use ably_cocoa.Retry.{ticks_per_millisecond, delay_for_retry_number}
use ably_cocoa.Retry.Laws.{delay-bounds, RetryEvent, retry, change}
use ably_cocoa.Fallback.{shuffle_array, shuffle_from, exchange, fallback_init}
use ably_cocoa.Fallback.Laws.{occurrences, tried, fallback_init-tries}

delay-bounds_example :
    (4 * (15000 * ticks_per_millisecond) ≤ 5 * delay_for_retry_number 15000 7 2)
    × (delay_for_retry_number 15000 7 2 ≤ 2 * (15000 * ticks_per_millisecond))
delay-bounds_example = delay-bounds 15000 7 2 (omega arith) (omega arith)

-- The latest event first: two retries since the connection was last up.
abbrev events : List RetryEvent
events =
    change ConnectionState.connecting
    ∷ retry 5
    ∷ change ConnectionState.disconnected
    ∷ retry 6
    ∷ change ConnectionState.connected
    ∷ retry 7
    ∷ []

-- A draw below each number above 0.
abbrev last_below : ℕ → ℕ
last_below zero = 0
last_below (suc n) = 0

last_below-fits : (n : ℕ) → 0 < n → last_below n < n
last_below-fits zero h = omega arith
last_below-fits (suc n) h = omega arith

abbrev given : List Text
given = codes "a" ∷ codes "b" ∷ codes "c" ∷ []

shuffled :
    fallback_init (shuffle_array last_below) (some given)
    ≡ some (codes "b" ∷ codes "c" ∷ codes "a" ∷ [])
unfolding fallback_init shuffle_array shuffle_from exchange
shuffled = refl

fallback_init-tries_example :
    occurrences (codes "c") (tried 4 (codes "b" ∷ codes "c" ∷ codes "a" ∷ []))
    ≡ occurrences (codes "c") given
fallback_init-tries_example =
    fallback_init-tries last_below (codes "c") (codes "b" ∷ codes "c" ∷ codes "a" ∷ []) given
      last_below-fits shuffled
