-- ===== src/Connection/Closing.antt =====
-- A close of the connection of Source/ARTRealtime.m that has to wait for the next state.
use ably_cocoa.Base.{◌≡◌, refl, ◌∙◌, ap, true, false, Option, none}
use ably_cocoa.Types.{ConnectionState, ErrorInfo, connection_state_eq}
use ably_cocoa.Connection.{Timer, Connection, Env}
use ably_cocoa.Connection.Transports.{set_reachability_active}
use ably_cocoa.Connection.Transition.{
  transition, close, close_now, move_to, cancel_timers, stopped, timer_of,
}
use ably_cocoa.Connection.Laws.{move_to-Moved}

-- What a close makes of a state.
abbrev pub closed_from : ConnectionState → ConnectionState
closed_from ConnectionState.connected = ConnectionState.closing
closed_from ConnectionState.disconnected = ConnectionState.closed
closed_from ConnectionState.suspended = ConnectionState.closed
closed_from s = s

-- The timer that is left: the one of the state, but no retry and no connection attempt.
abbrev pub left_timer : ConnectionState → Option Timer
left_timer s = stopped (timer_of (closed_from s))

close-from :
    (s : ConnectionState) (env : Env) (c : Connection)
    → connection_state_eq s ConnectionState.connecting ≡ false
    → c.outbox.state ≡ s
    → c.timer ≡ timer_of s
    → ((close env c).0.outbox.state ≡ closed_from s) × ((close env c).0.timer ≡ left_timer s)
unfolding close close_now set_reachability_active cancel_timers
close-from ConnectionState.connecting env c h k t = cc
close-from ConnectionState.connected env c h k t =
    rw (close_now, k)
      (let m = move_to-Moved ConnectionState.closing none env _ in (m.state, m.timer))
close-from ConnectionState.disconnected env c h k t =
    rw (close_now, k)
      (let m = move_to-Moved ConnectionState.closed none env _ in (m.state, m.timer))
close-from ConnectionState.suspended env c h k t =
    rw (close_now, k)
      (let m = move_to-Moved ConnectionState.closed none env _ in (m.state, m.timer))
close-from ConnectionState.initialized env c h k t = rw (close_now, k) (k, ap stopped t)
close-from ConnectionState.closing env c h k t = rw (close_now, k) (k, ap stopped t)
close-from ConnectionState.closed env c h k t = rw (close_now, k) (k, ap stopped t)
close-from ConnectionState.failed env c h k t = rw (close_now, k) (k, ap stopped t)

close-waits :
    (env : Env) (c : Connection)
    → c.outbox.state ≡ ConnectionState.connecting
    → (close env c).0.close_waits ≡ true
unfolding close cancel_timers set_reachability_active
close-waits env c h = rw (ap (λ s. connection_state_eq s ConnectionState.connecting) h) refl

-- A close that comes while the connection is connecting is made up for in the next state: whatever
-- that is, other than connecting, the connection is closing if it was connected, closed if it was
-- disconnected or suspended, and no retry is left to run.
pub transition-closes :
    (s : ConnectionState) (r : Option ErrorInfo) (env env' : Env) (c : Connection)
    → c.outbox.state ≡ ConnectionState.connecting
    → connection_state_eq s ConnectionState.connecting ≡ false
    → let d = (transition s r env' (close env c).0).0 in
      (d.outbox.state ≡ closed_from s) × (d.timer ≡ left_timer s)
unfolding transition
transition-closes s r env env' c h k =
    let c' = (close env c).0 in
    let m = move_to-Moved s r env' c' in
    rw (m.waits ∙ close-waits env c h)
      (close-from s env' (record (move_to s r env' c').0 { close_waits = false }) k m.state m.timer)
