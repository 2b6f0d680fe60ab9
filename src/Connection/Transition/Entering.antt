-- ===== src/Connection/Transition/Entering.antt =====
-- The `switch` of `performTransitionWithStateChange:` in Source/ARTRealtime.m: what entering each state
-- of the connection does.
use ably_cocoa.Base.{
  ℕ, ◌+◌, Bool, true, false, ◌&&◌, Option, none, some, [], ◌∷◌, codes, ℤ, pos, if◌then◌else◌, ltb,
  is_some, is_none,
}
use ably_cocoa.Types.{ConnectionState, State, ErrorInfo, status_error, connection_state_eq}
use ably_cocoa.Outbox.{fail_pending_messages, resend_pending_messages}
use ably_cocoa.Retry.{add_retry_attempt}
use ably_cocoa.Connection.{
  milliseconds, ticks, StateChange, send_close, cancel_authorization, set_prioritized_host,
  stop_idle_timer, connected_event, Connection, Env, Result, ◌▷◌, quietly, outputs, on_outbox,
  set_id, error_with,
}
use ably_cocoa.Connection.Transports.{
  to_transport, abort_and_release_transport, close_and_release_transport,
  create_and_connect_transport, set_reachability_active,
}

abbrev pub lost_state : ConnectionState → Bool
lost_state ConnectionState.disconnected = true
lost_state ConnectionState.suspended = true
lost_state _ = false

abbrev pub resumable : ConnectionState → Bool
resumable ConnectionState.failed = true
resumable s = lost_state s

-- No activity for longer than the idle interval and the time to live.
abbrev pub is_inactive : Env → Connection → Bool
is_inactive env c = elim c.last_activity [
  | none ↦ env.inactive_without_activity
  | some t ↦ ltb (t + (c.max_idle_interval + c.connection_state_ttl)) env.now
]

-- clearConnectionStateIfInactive
unfoldable pub clear_connection_state_if_inactive : Env → Connection → Connection
clear_connection_state_if_inactive env c =
    if is_inactive env c then record (set_id none c) { key = none; serial = pos 0 } else c

-- The state of `_connectionLostAt` after a disconnection.
abbrev pub lost_since : ℕ → Option ℕ → Option ℕ
lost_since now none = some now
lost_since now (some t) = some t

abbrev pub broken : ℤ → Option ErrorInfo
broken code = some (
    error_with code (pos 800)
      (codes "connection broken before receiving publishing acknowledgment"))

-- The delay of the next retry, which the change carries.
unfoldable pub with_retry : Env → StateChange → Connection → StateChange
with_retry env ch c = elim ch.current [
  | ConnectionState.disconnected ↦ record ch {
    retry_in =
        if connection_state_eq ch.previous ConnectionState.connected
          && env.should_immediately_reconnect
        then milliseconds 100
        else ticks (add_retry_attempt env.draw c.retry_state).1.delay;
  }
  | ConnectionState.suspended ↦ record ch { retry_in = milliseconds env.suspended_retry_timeout }
  | _ ↦ ch
]

abbrev pub cleared : ConnectionState → Env → Connection → Connection
cleared previous env c = if lost_state previous then clear_connection_state_if_inactive env c else c

-- A transport, unless there is one.
unfoldable pub open_transport : ConnectionState → Env → Connection → Result
open_transport previous env c =
    if is_none c.transport
    then create_and_connect_transport (resumable previous) env c
    else quietly c

unfoldable pub enter_connecting : ConnectionState → Env → Connection → Result
enter_connecting previous env c =
    open_transport previous env (cleared previous env c) ▷ set_reachability_active true env

unfoldable pub enter_closing : Env → Connection → Result
enter_closing env c =
    outputs (stop_idle_timer ∷ []) c
    ▷ set_reachability_active false env
    ▷ (λ d. (d, to_transport send_close d))

unfoldable pub enter_closed : Env → Connection → Result
enter_closed env c =
    outputs (stop_idle_timer ∷ []) c
    ▷ set_reachability_active false env
    ▷ close_and_release_transport
    ▷ (λ d. (
      set_id none (record d { key = none }),
      set_prioritized_host none ∷ cancel_authorization none ∷ [],
    ))
    ▷ on_outbox (fail_pending_messages (status_error (broken (pos 80017))))

unfoldable pub enter_failed : Option ErrorInfo → Env → Connection → Result
enter_failed reason env c =
    abort_and_release_transport (record { state = State.connection_failed; error_info = reason }) c
    ▷ outputs (set_prioritized_host none ∷ cancel_authorization reason ∷ [])
    ▷ on_outbox (fail_pending_messages (status_error (broken (pos 80000))))

unfoldable pub enter_disconnected : ConnectionState → Env → Connection → Result
enter_disconnected previous env c = close_and_release_transport c ▷ (λ d. quietly (record d {
  connection_lost_at = lost_since env.now d.connection_lost_at;
  retry_state =
      if connection_state_eq previous ConnectionState.connected && env.should_immediately_reconnect
      then d.retry_state
      else (add_retry_attempt env.draw d.retry_state).0;
}))

unfoldable pub enter_suspended : Env → Connection → Result
enter_suspended env c = outputs (cancel_authorization none ∷ []) c ▷ close_and_release_transport

unfoldable pub enter_connected : Option ErrorInfo → Env → Connection → Result
enter_connected reason env c =
    quietly (record c { fallbacks = none; connection_lost_at = none })
    ▷ on_outbox (
        if is_some reason
        then fail_pending_messages (status_error reason)
        else resend_pending_messages env.wire)
    ▷ outputs (connected_event ∷ [])

-- The `switch` on the new state.
unfoldable pub enter : StateChange → Env → Connection → Result
enter ch env c = elim ch.current [
  | ConnectionState.connecting ↦ enter_connecting ch.previous env c
  | ConnectionState.closing ↦ enter_closing env c
  | ConnectionState.closed ↦ enter_closed env c
  | ConnectionState.failed ↦ enter_failed ch.reason env c
  | ConnectionState.disconnected ↦ enter_disconnected ch.previous env c
  | ConnectionState.suspended ↦ enter_suspended env c
  | ConnectionState.connected ↦ enter_connected ch.reason env c
  | ConnectionState.initialized ↦ quietly c
]
