-- ===== src/Retry.antt =====
-- The delays between retries: Source/ARTRetrySequence.m, ARTBackoffRetryDelayCalculator.m,
-- ARTJitterCoefficientGenerator.m, ARTConnectRetryState.m and ARTAttachRetryState.m.
--
-- The factors are fractions (thirds, and fifths of 2^32 - 1), so a delay is exact as a number of
-- `ticks_per_millisecond`. A draw stands for what `arc4random` returns.
pub mod Laws
use ably_cocoa.Base.{ℕ, suc, ◌+◌, ◌*◌, Option, none, some, min}
use ably_cocoa.Types.{ConnectionState, ChannelState}

-- UINT32_MAX
abbrev pub max_draw : ℕ
max_draw = 4294967295

abbrev pub ticks_per_millisecond : ℕ
ticks_per_millisecond = 15 * max_draw

-- backoffCoefficientForRetryNumber:, in thirds.
unfoldable pub backoff_thirds : ℕ → ℕ
backoff_thirds n = min (n + 2) 6

-- generateJitterCoefficient, in units of 1 / (5 * max_draw): four fifths and a fifth of the draw.
unfoldable pub jitter_coefficient : ℕ → ℕ
jitter_coefficient draw = 4 * max_draw + draw

-- delayForRetryNumber:, in ticks, for the initial timeout in milliseconds.
unfoldable pub delay_for_retry_number : ℕ → ℕ → ℕ → ℕ
delay_for_retry_number initial_retry_timeout draw n =
    initial_retry_timeout * backoff_thirds n * jitter_coefficient draw

-- ARTRetrySequence
pub record RetrySequence : Type 0 where
  pub initial_retry_timeout : ℕ
  pub retry_count : ℕ

-- ARTRetryAttempt
pub record RetryAttempt : Type 0 where
  pub delay : ℕ

-- addRetryAttempt of ARTRetrySequence
unfoldable pub add_to_sequence : ℕ → RetrySequence → RetrySequence × RetryAttempt
add_to_sequence draw s =
    let n = suc s.retry_count in
    (
      record s { retry_count = n },
      record { delay = delay_for_retry_number s.initial_retry_timeout draw n },
    )

-- ARTConnectRetryState and ARTAttachRetryState have the same fields.
pub record RetryState : Type 0 where
  pub initial_retry_timeout : ℕ
  pub retry_sequence : Option RetrySequence

abbrev pub sequence_or_new : RetryState → RetrySequence
sequence_or_new r = elim r.retry_sequence [
  | none ↦ record { initial_retry_timeout = r.initial_retry_timeout; retry_count = 0 }
  | some s ↦ s
]

-- addRetryAttempt
unfoldable pub add_retry_attempt : ℕ → RetryState → RetryState × RetryAttempt
add_retry_attempt draw r =
    let (s, a) = add_to_sequence draw (sequence_or_new r) in
    (record r { retry_sequence = some s }, a)

-- connectionWillTransitionToState:
unfoldable pub connection_will_transition_to_state : ConnectionState → RetryState → RetryState
connection_will_transition_to_state ConnectionState.connecting r = r
connection_will_transition_to_state ConnectionState.disconnected r = r
connection_will_transition_to_state _ r = record r { retry_sequence = none }

-- channelWillTransitionToState:
unfoldable pub channel_will_transition_to_state : ChannelState → RetryState → RetryState
channel_will_transition_to_state ChannelState.attaching r = r
channel_will_transition_to_state ChannelState.suspended r = r
channel_will_transition_to_state _ r = record r { retry_sequence = none }
