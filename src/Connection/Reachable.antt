-- ===== src/Connection/Reachable.antt =====
-- The runs of the connection of Source/ARTRealtime.m: what every reachable state satisfies.
use ably_cocoa.Base.{
  ℕ, ◌≡◌, refl, subst, Bool, true, false, Option, none, some, List, Text, codes, ℤ, pos, is_some,
}
use ably_cocoa.Types.{ConnectionState, ErrorInfo, connection_state_eq}
use ably_cocoa.Message.{ProtocolMessage}
use ably_cocoa.Outbox.{Wire, send}
use ably_cocoa.Connection.{
  retry_from_disconnected, Output, Connection, Env, quietly, on_outbox, error_with,
}
use ably_cocoa.Connection.Transports.{
  close_and_release_transport, set_transport, reset_transport, transport_reconnect_with_host,
}
use ably_cocoa.Connection.Transition.{close}
use ably_cocoa.Connection.Events.{connect, time_out, idle_time_out, handle_network_is_reachable}
use ably_cocoa.Connection.Delegate.{
  TransportError, did_receive_message, transport_closed, transport_disconnected, fail_transport,
  drop_transport, transport_failed, transport_never_connected, transport_refused, transport_too_big,
  transport_set_msg_serial, lose_transport, internet_answered,
}
use ably_cocoa.Connection.Laws.{IsReleased, transport_connect-keeps}
use ably_cocoa.Connection.Releases.{
  transition-Moved, close-IsReleased, transition-IsReleased, lose-IsReleased,
}
use ably_cocoa.Connection.Handled.{
  connect-IsReleased, time_out-IsReleased, idle_time_out-IsReleased, if-IsReleased,
  handle_network_is_reachable-IsReleased,
}
use ably_cocoa.Base.{inl, inr}
use ably_cocoa.Connection.Laws.{has_no_transport}
use ably_cocoa.Connection.Authorization.{
  Answer, authorized, did_authorize, halt_current_connection_and_reconnect,
}
use ably_cocoa.Connection.Authorized.{
  authorized-IsReleased, did_authorize-IsReleased, halt-IsReleased,
}
use ably_cocoa.Connection.Events.{on_connection_time_out}
use ably_cocoa.Connection.Handled.{on_connection_time_out-IsReleased}
use ably_cocoa.Connection.Delegated.{
  if_current-IsReleased, failed-IsReleased, lose_transport-IsReleased, fail_transport-IsReleased,
  send-IsReleased, did_receive_message-Releases, Releases,
}

-- What happens to a connection: a call of the client, of a timer, of the network, of the
-- authorisation or of a transport, each with what the methods read at that time.
pub data Step : Connection → Connection → Type 0 where
  connects : (env : Env) {c : Connection} → Step c (connect env c).0
  closes : (env : Env) {c : Connection} → Step c (close env c).0
  sends :
      (w : Wire) (pm : ProtocolMessage) (sent acks : List ℕ) {c : Connection}
      → Step c (on_outbox (send w pm sent acks) c).0
  times_out : (env : Env) {c : Connection} → Step c (time_out env c).0
  idles : (env : Env) {c : Connection} → Step c (idle_time_out env c).0
  network : (b : Bool) (env : Env) {c : Connection} → Step c (handle_network_is_reachable b env c).0
  token_arrives :
      (new : Bool) (answer : Answer) (env : Env) {c : Connection}
      → Step c (authorized false new answer env c).0
  renewed_token_arrives :
      (new : Bool) (answer : Answer) (env : Env) {c : Connection}
      → has_no_transport c.outbox.state ≡ false
      → Step c (authorized true new answer env c).0
  authorization_times_out : (env : Env) {c : Connection} → Step c (on_connection_time_out env c).0
  authorizes : (t : Text) (a : ℕ) (env : Env) {c : Connection} → Step c (did_authorize t a env c).0
  transport_opens :
      (a : ℕ) {c : Connection}
      → has_no_transport c.outbox.state ≡ false
      → Step c (halt_current_connection_and_reconnect a c).0
  receives :
      (id : ℕ) (pm : Option ProtocolMessage) (env : Env) {c d : Connection} {out : List Output}
      → did_receive_message id pm env c ≡ some (d, out)
      → Step c d
  transport_closes : (id : ℕ) (env : Env) {c : Connection} → Step c (transport_closed id env c).0
  transport_disconnects :
      (id : ℕ) (e : Option ErrorInfo) (env : Env) {c : Connection}
      → Step c (transport_disconnected id e env c).0
  transport_fails :
      (id : ℕ) (e : TransportError) (env : Env) {c : Connection}
      → Step c (transport_failed id e env c).0
  transport_never_connects :
      (id : ℕ) (env : Env) {c : Connection} → Step c (transport_never_connected id env c).0
  transport_refuses :
      (id : ℕ) (e : Option TransportError) (url : Text) (env : Env) {c : Connection}
      → Step c (transport_refused id e url env c).0
  transport_overflows :
      (id : ℕ) (env : Env) {c : Connection} → Step c (transport_too_big id env c).0
  transport_recovers :
      (id : ℕ) (n : ℤ) {c : Connection} → Step c (transport_set_msg_serial id n c).0

pub data Steps : Connection → Connection → Type 0 where
  here : {c : Connection} → Steps c c
  then_step : {a b c : Connection} → Steps a b → Step b c → Steps a c

Step-IsReleased : (c d : Connection) → Step c d → IsReleased c → IsReleased d
unfolding transport_closed transport_disconnected transport_failed transport_never_connected
    transport_refused transport_too_big transport_set_msg_serial drop_transport
Step-IsReleased c d (connects env) v = connect-IsReleased env c
Step-IsReleased c d (closes env) v = close-IsReleased env c v
Step-IsReleased c d (sends w pm sent acks) v = send-IsReleased w pm sent acks c v
Step-IsReleased c d (times_out env) v = time_out-IsReleased env c v
Step-IsReleased c d (idles env) v = idle_time_out-IsReleased env c
Step-IsReleased c d (network b env) v = handle_network_is_reachable-IsReleased b env c v
Step-IsReleased c d (token_arrives new answer env) v =
    authorized-IsReleased false new answer env c (inr refl) v
Step-IsReleased c d (renewed_token_arrives new answer env h) v =
    authorized-IsReleased true new answer env c (inl h) v
Step-IsReleased c d (authorization_times_out env) v = on_connection_time_out-IsReleased env c
Step-IsReleased c d (authorizes t a env) v = did_authorize-IsReleased t a env c v
Step-IsReleased c d (transport_opens a h) v = halt-IsReleased a c h v
Step-IsReleased c d (receives id pm env e) v =
    subst Releases e (did_receive_message-Releases id pm env c v)
Step-IsReleased c d (transport_closes id env) v =
    if_current-IsReleased id (lose_transport env) c (lose_transport-IsReleased env c) v
Step-IsReleased c d (transport_disconnects id e env) v =
    if_current-IsReleased id (drop_transport e env) c
      (λ w.
        if-IsReleased (connection_state_eq c.outbox.state ConnectionState.closing) _ _
          (transition-IsReleased ConnectionState.closed none env c) (lose-IsReleased e env c))
      v
Step-IsReleased c d (transport_fails id e env) v =
    if_current-IsReleased id (fail_transport e env) c (fail_transport-IsReleased e env c) v
Step-IsReleased c d (transport_never_connects id env) v = failed-IsReleased id _ env c v
Step-IsReleased c d (transport_refuses id e url env) v = failed-IsReleased id _ env c v
Step-IsReleased c d (transport_overflows id env) v = failed-IsReleased id _ env c v
Step-IsReleased c d (transport_recovers id n) v =
    if_current-IsReleased id
      (λ x. quietly (record x { outbox = record x.outbox { msg_serial = n } })) c
      (λ w. record { transport = w.transport; queue = w.queue; settled = w.settled }) v

-- However a connection comes about by calls of the client, timers, the network, the authorisation and
-- its transports: while it is disconnected, suspended, closed or failed it has no transport; while it
-- is suspended, closing, closed or failed no message is queued; and while it is closed or failed no
-- message waits for an acknowledgement. Two calls are left out: the late answer of `internetIsUp:`,
-- and a forced token, or the opening of a transport, that comes when there should be no transport.
pub Steps-IsReleased : (a c : Connection) → Steps a c → IsReleased a → IsReleased c
Steps-IsReleased a c here v = v
Steps-IsReleased a c (then_step {b = b} h k) v = Step-IsReleased b c k (Steps-IsReleased a b h v)

-- The late answer of `internetIsUp:` is obeyed by a closed connection too: it gets a transport when
-- the network is up, and when it is down it becomes disconnected, from where a timer reconnects it.
pub internet_answered-reopens :
    (host : Text) (env : Env) (c : Connection)
    → c.outbox.state ≡ ConnectionState.closed
    → c.close_waits ≡ false
    → ((internet_answered host true env c).0.outbox.state ≡ ConnectionState.closed)
      × (is_some (internet_answered host true env c).0.transport ≡ true)
      × ((internet_answered host false env c).0.outbox.state ≡ ConnectionState.disconnected)
      × ((internet_answered host false env c).0.timer ≡ some retry_from_disconnected)
unfolding internet_answered transport_reconnect_with_host reset_transport set_transport
    close_and_release_transport
internet_answered-reopens host env c h k =
    let m =
      transition-Moved ConnectionState.disconnected
        (some (error_with (pos 0) (pos 0) (codes "no Internet connection"))) env c k in
    (
      rw (transport_connect-keeps false true env _) h,
      rw (transport_connect-keeps false true env _) refl,
      m.state,
      m.timer,
    )
