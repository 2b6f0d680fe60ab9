-- ===== src/Connection/Handled.antt =====
-- Each event that Source/ARTRealtime.m handles leaves a connection that holds on to nothing its state
-- has no use for.
use ably_cocoa.Base.{
  ◌≡◌, refl, ◌∙◌, ap, Bool, true, false, ◌&&◌, not, Option, none, some, Text, pos, eqb_ℤ,
  if◌then◌else◌, inl, inr, Bool-cases,
}
use ably_cocoa.Types.{ConnectionEvent, ConnectionState, ErrorInfo, connection_state_eq}
use ably_cocoa.Message.{ProtocolMessage}
use ably_cocoa.Connection.{
  milliseconds, Timer, connection_time_out, close_time_out, retry_from_disconnected,
  retry_from_suspended, Connection, Env, Result, ◌▷◌, set_renewing_token,
}
use ably_cocoa.Connection.Transports.{
  close_and_release_transport, set_transport, reset_transport, transport_connect,
  transport_reconnect, transport_reconnect_with_renewed_token,
}
use ably_cocoa.Connection.Transition.{
  update_with_error_info, perform_transition, enter, perform_pending_authorization,
}
use ably_cocoa.Connection.Events.{
  connect, resume_failed, resumed, take_up, on_connected, on_disconnected, on_auth, on_error,
  on_connection_time_out, time_out, idle_time_out, handle_token_auth_error,
  handle_network_is_reachable, should_restart_pending_connection_attempt, holds_token_error,
}
use ably_cocoa.Connection.Laws.{
  has_no_transport, refuses_messages, IsReleased, transport_connect-keeps, enter-Entered,
  settle_queue-Settles, to_enter,
}
use ably_cocoa.Connection.Releases.{
  SameHold, IsReleased-SameHold, transition-IsReleased, lose-IsReleased, IsReleased-active,
}
use ably_cocoa.Retry.{connection_will_transition_to_state}

pub connect-IsReleased : (env : Env) (c : Connection) → IsReleased (connect env c).0
unfolding connect
connect-IsReleased env c = transition-IsReleased _ none env _

-- An update is made in the connected state only, and keeps it.
update-IsReleased :
    (e : Option ErrorInfo) (env : Env) (c : Connection)
    → IsReleased c
    → IsReleased (update_with_error_info e env c).0
unfolding update_with_error_info perform_transition perform_pending_authorization
update-IsReleased e env c v = by_state c.outbox.state refl
  where
    active : (c : Connection) → c.outbox.state ≡ ConnectionState.connected → IsReleased c
    active c h = IsReleased-active c (ap has_no_transport h) (ap refuses_messages h)

    by_state :
        (s : ConnectionState) → c.outbox.state ≡ s → IsReleased (update_with_error_info e env c).0
    by_state ConnectionState.connected h =
        let c1 = record c {
          retry_state = connection_will_transition_to_state ConnectionState.connected c.retry_state;
        } in
        let x =
          enter-Entered ConnectionState.connected c.outbox.state ConnectionEvent.update e
            (milliseconds 0) env c1 h in
        let ch =
          to_enter ConnectionState.connected c.outbox.state ConnectionEvent.update e
            (milliseconds 0) in
        let y = settle_queue-Settles ch env (enter ch env c1).0 in
        rw (ap (λ s. connection_state_eq s ConnectionState.connected) h)
          (active _ (y.state ∙ x.state))
    by_state _ h = rw (ap (λ s. connection_state_eq s ConnectionState.connected) h) v

take_up-IsReleased :
    (pm : ProtocolMessage) (env : Env) (c : Connection)
    → IsReleased c
    → IsReleased (take_up pm env c).0
unfolding take_up
take_up-IsReleased pm env c v = by_state c.outbox.state refl
  where
    by_state : (s : ConnectionState) → c.outbox.state ≡ s → IsReleased (take_up pm env c).0
    by_state ConnectionState.connecting h = rw (take_up, h) (transition-IsReleased _ pm.error env _)
    by_state ConnectionState.connected h = rw (take_up, h) (update-IsReleased pm.error env _ v)
    by_state _ h = rw (take_up, h) v

resumed-SameHold : (pm : ProtocolMessage) (c : Connection) → SameHold c (resumed pm c)
resumed-SameHold pm c = elim (Bool-cases (resume_failed pm c)) [
  | inl lost ↦ rw lost (record { state = refl; transport = refl; queue = refl; pending = refl })
  | inr kept ↦ rw kept (record { state = refl; transport = refl; queue = refl; pending = refl })
]

pub on_connected-IsReleased :
    (pm : ProtocolMessage) (env : Env) (c : Connection)
    → IsReleased c
    → IsReleased (on_connected pm env c).0
unfolding on_connected
on_connected-IsReleased pm env c v =
    let d = resumed pm c in
    let w = take_up-IsReleased pm env d (IsReleased-SameHold c d (resumed-SameHold pm c) v) in
    IsReleased-SameHold (take_up pm env d).0 _
      (record { state = refl; transport = refl; queue = refl; pending = refl }) w

pub if-IsReleased :
    (b : Bool) (x y : Result) → IsReleased x.0 → IsReleased y.0 → IsReleased (if b then x else y).0
if-IsReleased true x y v w = v
if-IsReleased false x y v w = w

pub on_disconnected-IsReleased :
    (e : Option ErrorInfo) (env : Env) (c : Connection) → IsReleased (on_disconnected e env c).0
unfolding on_disconnected
on_disconnected-IsReleased e env c =
    if-IsReleased (holds_token_error e && not c.outbox.renewing_token) _ _
      (if-IsReleased (not env.token_is_renewable) _ _
        (transition-IsReleased ConnectionState.failed e env c)
        (transition-IsReleased ConnectionState.connecting none env _))
      (lose-IsReleased e env c)

pub on_auth-IsReleased : (env : Env) (c : Connection) → IsReleased c → IsReleased (on_auth env c).0
unfolding on_auth
on_auth-IsReleased env c v = by_state c.outbox.state refl
  where
    by_state : (s : ConnectionState) → c.outbox.state ≡ s → IsReleased (on_auth env c).0
    by_state ConnectionState.connecting h =
        rw (on_auth, h) (rw (transport_connect-keeps true false env c) v)
    by_state ConnectionState.connected h =
        rw (on_auth, h) (rw (transport_connect-keeps true false env c) v)
    by_state _ h = rw (on_auth, h) v

-- A reconnection keeps the state and the messages, and makes a transport.
pub reconnect-IsReleased :
    (force : Bool) (env : Env) (c : Connection)
    → has_no_transport c.outbox.state ≡ false
    → IsReleased c
    → IsReleased (reset_transport c ▷ transport_connect force true env).0
unfolding reset_transport set_transport close_and_release_transport
reconnect-IsReleased force env c h v =
    rw (transport_connect-keeps force true env _)
      (record { transport = λ x. cc; queue = v.queue; settled = v.settled })

pub on_error-IsReleased :
    (e : Option ErrorInfo) (env : Env) (c : Connection)
    → has_no_transport c.outbox.state ≡ false
    → IsReleased c
    → IsReleased (on_error e env c).0
unfolding on_error transport_reconnect_with_renewed_token
on_error-IsReleased e env c h v =
    if-IsReleased (holds_token_error e && env.token_is_renewable) _ _
      (if-IsReleased c.outbox.renewing_token _ _ (lose-IsReleased e env _) (
        reconnect-IsReleased true env (set_renewing_token true c) h (
          IsReleased-SameHold c _
            (record { state = refl; transport = refl; queue = refl; pending = refl }) v)))
      (transition-IsReleased ConnectionState.failed e env _)

pub on_connection_time_out-IsReleased :
    (env : Env) (c : Connection) → IsReleased (on_connection_time_out env c).0
unfolding on_connection_time_out
on_connection_time_out-IsReleased env c =
    if-IsReleased (connection_state_eq c.outbox.state ConnectionState.connected) _ _
      (transition-IsReleased ConnectionState.connected _ env _) (lose-IsReleased _ env _)

pub time_out-IsReleased :
    (env : Env) (c : Connection) → IsReleased c → IsReleased (time_out env c).0
unfolding time_out
time_out-IsReleased env c v = by_timer c.timer refl
  where
    by_timer : (t : Option Timer) → c.timer ≡ t → IsReleased (time_out env c).0
    by_timer none h = rw (time_out, h) v
    by_timer (some connection_time_out) h =
        rw (time_out, h) (on_connection_time_out-IsReleased env _)
    by_timer (some close_time_out) h = rw (time_out, h) (transition-IsReleased _ none env _)
    by_timer (some retry_from_disconnected) h =
        rw (time_out, h) (transition-IsReleased _ none env _)
    by_timer (some retry_from_suspended) h = rw (time_out, h) (transition-IsReleased _ none env _)

pub idle_time_out-IsReleased : (env : Env) (c : Connection) → IsReleased (idle_time_out env c).0
unfolding idle_time_out
idle_time_out-IsReleased env c = lose-IsReleased _ env c

pub handle_token_auth_error-IsReleased :
    (e : ErrorInfo) (t : Text) (env : Env) (c : Connection)
    → IsReleased c
    → IsReleased (handle_token_auth_error e t env c).0
unfolding handle_token_auth_error
handle_token_auth_error-IsReleased e t env c v =
    if-IsReleased (eqb_ℤ e.code (pos 40102)) _ _
      (transition-IsReleased ConnectionState.failed _ env c)
      (if-IsReleased env.has_auth_provider _ _
        (if-IsReleased (eqb_ℤ e.code (pos 40300)) _ _
          (transition-IsReleased ConnectionState.failed _ env c)
          (if-IsReleased (connection_state_eq c.outbox.state ConnectionState.connected) _ _
            (IsReleased-SameHold c _
              (record { state = refl; transport = refl; queue = refl; pending = refl }) v)
            (lose-IsReleased _ env c)))
        (lose-IsReleased _ env c))

pub handle_network_is_reachable-IsReleased :
    (b : Bool) (env : Env) (c : Connection)
    → IsReleased c
    → IsReleased (handle_network_is_reachable b env c).0
unfolding handle_network_is_reachable transport_reconnect
handle_network_is_reachable-IsReleased true env c v = by_state c.outbox.state refl
  where
    by_state :
        (s : ConnectionState)
        → c.outbox.state ≡ s
        → IsReleased (handle_network_is_reachable true env c).0
    by_state ConnectionState.connecting h =
        rw (handle_network_is_reachable, h)
          (if-IsReleased (should_restart_pending_connection_attempt env _) _ _
            (reconnect-IsReleased false env _ (ap has_no_transport h) v) v)
    by_state ConnectionState.disconnected h =
        rw (handle_network_is_reachable, h) (transition-IsReleased _ none env _)
    by_state ConnectionState.suspended h =
        rw (handle_network_is_reachable, h) (transition-IsReleased _ none env _)
    by_state _ h = rw (handle_network_is_reachable, h) v
handle_network_is_reachable-IsReleased false env c v = by_state c.outbox.state refl
  where
    by_state :
        (s : ConnectionState)
        → c.outbox.state ≡ s
        → IsReleased (handle_network_is_reachable false env c).0
    by_state ConnectionState.connecting h =
        rw (handle_network_is_reachable, h) (lose-IsReleased _ env _)
    by_state ConnectionState.connected h =
        rw (handle_network_is_reachable, h) (lose-IsReleased _ env _)
    by_state _ h = rw (handle_network_is_reachable, h) v
