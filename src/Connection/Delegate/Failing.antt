-- ===== src/Connection/Delegate/Failing.antt =====
-- Failures of a transport in Source/ARTRealtime.m, and the retry with fallback hosts.
use ably_cocoa.Base.{
  Bool, true, false, ◌&&◌, not, Option, none, some, List, [], ◌∷◌, Text, codes, ℤ, pos, ltb_ℤ,
  if◌then◌else◌, is_some, is_none, same_text,
}
use ably_cocoa.Types.{ConnectionState, ErrorInfo}
use ably_cocoa.Fallback.{hosts_from_options, fallback_init, pop_fallback_host}
use ably_cocoa.Connection.{
  set_prioritized_host, ask_internet, Connection, Env, Result, ◌▷◌, outputs, error_with,
}
use ably_cocoa.Connection.Transports.{transport_reconnect_with_host}
use ably_cocoa.Connection.Transition.{transition, transition_to_disconnected_or_suspended}

-- The type of an ARTRealtimeTransportError.
pub data ErrorType : Type 0 where
  other host_unreachable no_internet timeout bad_response refused : ErrorType

-- ARTRealtimeTransportError: its NSError stands as the ARTErrorInfo made of it.
pub record TransportError : Type 0 where
  pub kind : ErrorType
  pub bad_response_code : ℤ
  pub host : Option Text
  pub error : ErrorInfo

-- shouldRetryWithFallback:
unfoldable pub should_retry_with_fallback : TransportError → Bool
should_retry_with_fallback e = elim e.kind [
  | bad_response ↦
      not (ltb_ℤ e.bad_response_code (pos 500)) && not (ltb_ℤ (pos 504) e.bad_response_code)
  | host_unreachable ↦ true
  | timeout ↦ true
  | _ ↦ false
]

abbrev pub first_host : Option (List Text) → Option Text
first_host none = none
first_host (some hs) = (pop_fallback_host hs).0

abbrev pub other_hosts : Option (List Text) → Option (List Text)
other_hosts none = none
other_hosts (some hs) = some (pop_fallback_host hs).1

-- reconnectWithFallback, up to the answer of `internetIsUp:`.
unfoldable pub reconnect_with_fallback : Connection → Result × Bool
reconnect_with_fallback c = elim (first_host c.fallbacks) [
  | none ↦ ((record c { fallbacks = none }, []), false)
  | some h ↦ ((record c { fallbacks = other_hosts c.fallbacks }, ask_internet h ∷ []), true)
]

-- What reconnectWithFallback does with the answer, whatever has happened in between.
unfoldable pub internet_answered : Text → Bool → Env → Connection → Result
internet_answered host false env c =
    transition ConnectionState.disconnected
      (some (error_with (pos 0) (pos 0) (codes "no Internet connection"))) env c
internet_answered host true env c =
    outputs (set_prioritized_host (some host) ∷ []) c ▷ transport_reconnect_with_host host env

-- The `switch` on the type of an error that is not retried.
unfoldable pub give_up : TransportError → Env → Connection → Result
give_up e env c = elim e.kind [
  | bad_response ↦ transition ConnectionState.failed (some e.error) env c
  | other ↦ transition ConnectionState.failed (some e.error) env c
  | _ ↦ transition_to_disconnected_or_suspended (some e.error) env c
]

-- The first retry, with the hosts that the options give.
unfoldable pub start_fallback : TransportError → Env → Connection → Result
start_fallback e env c = elim (fallback_init env.shuffle (hosts_from_options env.hosts)) [
  | none ↦ transition ConnectionState.failed (some e.error) env c
  | some hs ↦ (reconnect_with_fallback (record c { fallbacks = some hs })).0
]

-- A further retry, or none if no host is left.
unfoldable pub continue_fallback : TransportError → Env → Connection → Result
continue_fallback e env c =
    let r = reconnect_with_fallback c in if r.1 then r.0 else r.0 ▷ give_up e env

-- What the failure of the current transport leads to.
unfoldable pub fail_transport : TransportError → Env → Connection → Result
fail_transport e env c =
    if should_retry_with_fallback e
    then if is_none c.fallbacks && same_text e.host (some (codes "realtime.ably.io"))
      then start_fallback e env c
      else if is_some c.fallbacks
      then continue_fallback e env c
      else give_up e env c
    else give_up e env c
