-- ===== src/Retry/Laws.antt =====
-- The delays of Source/ARTBackoffRetryDelayCalculator.m, and the retries that
-- Source/ARTConnectRetryState.m counts.
use native.Mathlib.Nat.{mul-le-mul, mul-le-mul_left, le_refl}
use ably_cocoa.Base.{
  ℕ, suc, ◌*◌, ◌≤◌, ◌≡◌, refl, ap, Bool, true, false, if◌then◌else◌, none, List, [], ◌∷◌, arith,
}
use ably_cocoa.Types.{ConnectionState}
use ably_cocoa.Retry.{
  max_draw, ticks_per_millisecond, backoff_thirds, jitter_coefficient, delay_for_retry_number,
  RetryState, sequence_or_new, add_to_sequence, add_retry_attempt,
  connection_will_transition_to_state,
}

backoff_thirds-bounds : (n : ℕ) → 1 ≤ n → (3 ≤ backoff_thirds n) × (backoff_thirds n ≤ 6)
unfolding backoff_thirds
backoff_thirds-bounds n h = ground arith

jitter_coefficient-bounds :
    (draw : ℕ)
    → draw ≤ max_draw
    → (4 * max_draw ≤ jitter_coefficient draw) × (jitter_coefficient draw ≤ 5 * max_draw)
unfolding jitter_coefficient
jitter_coefficient-bounds draw h = omega arith

-- Whatever is drawn, every retry waits between four fifths and twice the initial timeout.
pub delay-bounds :
    (t draw n : ℕ)
    → 1 ≤ n
    → draw ≤ max_draw
    → (4 * (t * ticks_per_millisecond) ≤ 5 * delay_for_retry_number t draw n)
      × (delay_for_retry_number t draw n ≤ 2 * (t * ticks_per_millisecond))
unfolding delay_for_retry_number
delay-bounds t draw n h k =
    let b = backoff_thirds-bounds n h in
    let j = jitter_coefficient-bounds draw k in
    (
      omega (arith, mul-le-mul (mul-le-mul_left t b.0) j.0),
      omega (arith, mul-le-mul (mul-le-mul_left t b.1) j.1),
    )

-- What happens to a retry state: a retry with its draw, or a change of the connection's state.
pub data RetryEvent : Type 0 where
  retry : ℕ → RetryEvent
  change : ConnectionState → RetryEvent

-- The state after the events, the latest of which stands first.
abbrev pub after : RetryState → List RetryEvent → RetryState
after r [] = r
after r (retry draw ∷ es) = (add_retry_attempt draw (after r es)).0
after r (change s ∷ es) = connection_will_transition_to_state s (after r es)

abbrev pub fresh_state : ℕ → RetryState
fresh_state t = record { initial_retry_timeout = t; retry_sequence = none }

abbrev is_retrying : ConnectionState → Bool
is_retrying ConnectionState.connecting = true
is_retrying ConnectionState.disconnected = true
is_retrying _ = false

-- The retries since the connection was in another state than connecting or disconnected.
abbrev pub retries_since : List RetryEvent → ℕ
retries_since [] = 0
retries_since (retry draw ∷ es) = suc (retries_since es)
retries_since (change s ∷ es) = if is_retrying s then retries_since es else 0

-- The sequence goes by the timeout `t` and has counted `n` retries.
record Counts (t n : ℕ) (r : RetryState) : Type 0 where
  timeout : r.initial_retry_timeout ≡ t
  sequence_timeout : (sequence_or_new r).initial_retry_timeout ≡ t
  counted : (sequence_or_new r).retry_count ≡ n

Counts-change :
    (t n : ℕ) (s : ConnectionState) (r : RetryState)
    → Counts t n r
    → Counts t (if is_retrying s then n else 0) (connection_will_transition_to_state s r)
unfolding connection_will_transition_to_state
Counts-change t n ConnectionState.connecting r h = h
Counts-change t n ConnectionState.disconnected r h = h
Counts-change t n _ r h = record {
  timeout = h.timeout;
  sequence_timeout = h.timeout;
  counted = refl;
}

after-Counts :
    (t : ℕ) (es : List RetryEvent) → Counts t (retries_since es) (after (fresh_state t) es)
unfolding add_retry_attempt add_to_sequence
after-Counts t [] = record { timeout = refl; sequence_timeout = refl; counted = refl }
after-Counts t (retry draw ∷ es) =
    let h = after-Counts t es in
    record {
      timeout = h.timeout;
      sequence_timeout = h.sequence_timeout;
      counted = ap suc h.counted;
    }
after-Counts t (change s ∷ es) =
    Counts-change t (retries_since es) s (after (fresh_state t) es) (after-Counts t es)

-- Whatever happens to a new retry state, the next retry waits as long as the number of the retries
-- since the connection was last in another state than connecting or disconnected says.
pub add_retry_attempt-counts :
    (t draw : ℕ) (es : List RetryEvent)
    → (add_retry_attempt draw (after (fresh_state t) es)).1.delay
      ≡ delay_for_retry_number t draw (suc (retries_since es))
unfolding add_retry_attempt add_to_sequence
add_retry_attempt-counts t draw es =
    let h = after-Counts t es in rw (h.sequence_timeout, h.counted) refl

backoff_thirds_mono : (m n : ℕ) → m ≤ n → backoff_thirds m ≤ backoff_thirds n
unfolding backoff_thirds
backoff_thirds_mono m n h = ground arith

-- With the same draw, a later retry waits at least as long.
pub delay_mono :
    (t draw m n : ℕ) → m ≤ n → delay_for_retry_number t draw m ≤ delay_for_retry_number t draw n
unfolding delay_for_retry_number
delay_mono t draw m n h = mul-le-mul (mul-le-mul_left t (backoff_thirds_mono m n h)) (le_refl _)
