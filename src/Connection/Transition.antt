-- ===== src/Connection/Transition.antt =====
-- The transitions of Source/ARTRealtime.m: `transition:withMetadata:` and what it performs.
mod Entering
unfoldable pub use Entering.*
use ably_cocoa.Base.{
  ℕ, ◌+◌, Bool, true, false, ◌&&◌, Option, none, some, List, [], ◌∷◌, codes, ℤ, pos, if◌then◌else◌,
  ltb, is_some, is_none,
}
use ably_cocoa.Types.{
  ConnectionEvent, connection_event, ConnectionState, State, ErrorInfo, Status, status_error,
  connection_state_eq,
}
use ably_cocoa.Outbox.{
  fail_pending_messages, resend_pending_messages, send_queued_messages, fail_queued_messages,
  should_send_events, should_queue_events,
}
use ably_cocoa.Retry.{add_retry_attempt, connection_will_transition_to_state}
use ably_cocoa.Connection.{
  milliseconds, ticks, Timer, connection_time_out, close_time_out, retry_from_disconnected,
  retry_from_suspended, StateChange, Output, send_close, cancel_authorization, authorization_called,
  attach_channels, detach_channels, suspend_channels, fail_channels, set_prioritized_host,
  stop_idle_timer, cancel_auth_work, stop_pings, connected_event, emit_change, Connection, Env,
  Result, ◌▷◌, quietly, outputs, on_outbox, set_state, set_id, error_with,
}
use ably_cocoa.Connection.Transports.{
  to_transport, abort_and_release_transport, close_and_release_transport,
  create_and_connect_transport, set_reachability_active,
}

-- The status that queued messages and channels are told of.
unfoldable pub channel_status : StateChange → Status
channel_status ch = elim ch.current [
  | ConnectionState.failed ↦ record { state = State.connection_failed; error_info = ch.reason }
  | _ ↦ record { state = State.error; error_info = ch.reason }
]

unfoldable pub channel_calls : StateChange → List Output
channel_calls ch = elim ch.current [
  | ConnectionState.closed ↦ detach_channels ∷ []
  | ConnectionState.suspended ↦ suspend_channels State.error ch.reason ∷ []
  | ConnectionState.failed ↦ fail_channels State.connection_failed ch.reason ∷ []
  | _ ↦ []
]

abbrev pub attaches_after : ConnectionState → Bool
attaches_after ConnectionState.initialized = true
attaches_after ConnectionState.connecting = true
attaches_after ConnectionState.disconnected = true
attaches_after _ = false

-- Queued messages and channels, once the state is entered.
unfoldable pub settle_queue : StateChange → Env → Connection → Result
settle_queue ch env c =
    if should_send_events c.outbox
    then on_outbox (send_queued_messages env.wire) c
      ▷ outputs (if attaches_after ch.previous then attach_channels ∷ [] else [])
    else if should_queue_events c.outbox
    then quietly c
    else on_outbox (fail_queued_messages (channel_status ch)) c ▷ outputs (channel_calls ch)

abbrev pub keeps_authorizations : ConnectionState → Bool
keeps_authorizations ConnectionState.connected = true
keeps_authorizations ConnectionState.failed = true
keeps_authorizations _ = false

abbrev authorization_error : ConnectionState → Option ErrorInfo → Option ErrorInfo
authorization_error ConnectionState.connected e = none
authorization_error _ e = e

abbrev next_authorization : ConnectionState → Option ErrorInfo → List ℕ → List ℕ × List Output
next_authorization s e [] = ([], [])
next_authorization s e (a ∷ rest) = (
  if keeps_authorizations s then rest else [],
  authorization_called a s (authorization_error s e) ∷ [],
)

-- performPendingAuthorizationWithState:error:
unfoldable pub perform_pending_authorization :
    ConnectionState → Option ErrorInfo → Connection → Result
perform_pending_authorization s e c =
    let (rest, out) = next_authorization s e c.pending_authorizations in
    (record c { pending_authorizations = rest }, out)

-- performTransitionWithStateChange:, without the listener it returns.
unfoldable pub perform_transition : StateChange → Env → Connection → Result
perform_transition ch env c =
    let d = record c {
      retry_state = connection_will_transition_to_state ch.current c.retry_state;
    } in
    enter ch env d
    ▷ settle_queue ch env
    ▷ outputs (emit_change (with_retry env ch d) ∷ [])
    ▷ perform_pending_authorization ch.current ch.reason

-- The listener that performTransitionWithStateChange: returns: the block that waits.
abbrev pub timer_of : ConnectionState → Option Timer
timer_of ConnectionState.connecting = some connection_time_out
timer_of ConnectionState.closing = some close_time_out
timer_of ConnectionState.disconnected = some retry_from_disconnected
timer_of ConnectionState.suspended = some retry_from_suspended
timer_of _ = none

abbrev pub change_to : ConnectionState → Option ErrorInfo → Connection → StateChange
change_to s reason c = record {
  current = s;
  previous = c.outbox.state;
  event = connection_event s;
  reason = reason;
  retry_in = milliseconds 0;
}

-- transition:withMetadata: where no close waits. The change cancels the timer of the state before.
unfoldable pub move_to : ConnectionState → Option ErrorInfo → Env → Connection → Result
move_to s reason env c =
    perform_transition (change_to s reason c) env (set_state s reason c)
    ▷ (λ d. quietly (record d { timer = timer_of s }))

-- The timers that cancelTimers stops: all but the one of a close.
abbrev pub stopped : Option Timer → Option Timer
stopped (some close_time_out) = some close_time_out
stopped _ = none

-- cancelTimers
unfoldable pub cancel_timers : Connection → Result
cancel_timers c =
    (record c { timer = stopped c.timer }, cancel_auth_work ∷ stop_idle_timer ∷ stop_pings ∷ [])

-- `_close` in the states in which it does not wait.
unfoldable pub close_now : Env → Connection → Result
close_now env c = elim c.outbox.state [
  | ConnectionState.disconnected ↦ move_to ConnectionState.closed none env c
  | ConnectionState.suspended ↦ move_to ConnectionState.closed none env c
  | ConnectionState.connected ↦ move_to ConnectionState.closing none env c
  | _ ↦ quietly c
]

-- `_close`
unfoldable pub close : Env → Connection → Result
close env c = set_reachability_active false env c ▷ cancel_timers ▷ (λ d.
    if connection_state_eq d.outbox.state ConnectionState.connecting
    then quietly (record d { close_waits = true })
    else close_now env d)

-- transition:withMetadata:. A close that waits for the next state runs when the change is emitted.
unfoldable pub transition : ConnectionState → Option ErrorInfo → Env → Connection → Result
transition s reason env c =
    move_to s reason env c
    ▷ (λ d. if d.close_waits then close env (record d { close_waits = false }) else quietly d)

-- isSuspendMode
unfoldable pub is_suspend_mode : Env → Connection → Bool
is_suspend_mode env c = elim c.connection_lost_at [
  | none ↦ env.suspended_without_loss
  | some t ↦ ltb (t + c.connection_state_ttl) env.now
]

-- transitionToDisconnectedOrSuspendedWithMetadata:
unfoldable pub transition_to_disconnected_or_suspended :
    Option ErrorInfo → Env → Connection → Result
transition_to_disconnected_or_suspended reason env c =
    if is_suspend_mode env c
    then transition ConnectionState.suspended reason env c
    else transition ConnectionState.disconnected reason env c

-- updateWithErrorInfo:
unfoldable pub update_with_error_info : Option ErrorInfo → Env → Connection → Result
update_with_error_info e env c =
    if connection_state_eq c.outbox.state ConnectionState.connected
    then perform_transition
        (record (change_to ConnectionState.connected e c) { event = ConnectionEvent.update }) env c
    else quietly c
