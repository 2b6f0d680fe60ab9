-- ===== src/Connection/Authorized.antt =====
-- What the answers of the authorisation do to the connection of Source/ARTRealtime.m.
use ably_cocoa.Base.{ℕ, ◌≡◌, refl, ap, Bool, true, false, none, some, [], Text, ◌⊎◌, inl, inr}
use ably_cocoa.Types.{ConnectionState}
use ably_cocoa.Connection.{Connection, Env}
use ably_cocoa.Connection.Transports.{
  abort_and_release_transport, close_and_release_transport, set_transport, reset_transport,
}
use ably_cocoa.Connection.Transports.{resume_key_of, connection_serial_of}
use ably_cocoa.Connection.Authorization.{
  Answer, token, refusal, is_closing, connect_authorized, authorized,
  cancel_all_pending_authorizations, wait_for_response, halt_current_connection_and_reconnect,
  did_authorize, auth_message,
}
use ably_cocoa.Connection.Laws.{has_no_transport, IsReleased}
use ably_cocoa.Connection.Releases.{SameHold, IsReleased-SameHold, transition-IsReleased}
use ably_cocoa.Connection.Handled.{if-IsReleased, handle_token_auth_error-IsReleased}
use ably_cocoa.Connection.Delegated.{send-IsReleased}

connect_authorized-IsReleased :
    (force new : Bool) (c : Connection)
    → (has_no_transport c.outbox.state ≡ false) ⊎ (force ≡ false)
    → IsReleased c
    → IsReleased (connect_authorized force new c).0
unfolding connect_authorized reset_transport set_transport close_and_release_transport
connect_authorized-IsReleased false new c h v = v
connect_authorized-IsReleased true false c h v = v
connect_authorized-IsReleased true true c (inl h) v = record {
  transport = λ x. cc;
  queue = v.queue;
  settled = v.settled;
}
connect_authorized-IsReleased true true c (inr h) v = cc

pub authorized-IsReleased :
    (force new : Bool) (answer : Answer) (env : Env) (c : Connection)
    → (has_no_transport c.outbox.state ≡ false) ⊎ (force ≡ false)
    → IsReleased c
    → IsReleased (authorized force new answer env c).0
unfolding authorized
authorized-IsReleased force new token env c h v =
    if-IsReleased (is_closing c.outbox.state) _ _ v (connect_authorized-IsReleased force new c h v)
authorized-IsReleased force new (refusal e t) env c h v =
    if-IsReleased (is_closing c.outbox.state) _ _ v (handle_token_auth_error-IsReleased e t env c v)

wait-SameHold : (a : ℕ) (c : Connection) → SameHold c (wait_for_response a c).0
unfolding wait_for_response
wait-SameHold a c = record { state = refl; transport = refl; queue = refl; pending = refl }

cancel-SameHold : (c : Connection) → SameHold c (cancel_all_pending_authorizations c).0
unfolding cancel_all_pending_authorizations
cancel-SameHold c = record { state = refl; transport = refl; queue = refl; pending = refl }

pub halt-IsReleased :
    (a : ℕ) (c : Connection)
    → has_no_transport c.outbox.state ≡ false
    → IsReleased c
    → IsReleased (halt_current_connection_and_reconnect a c).0
unfolding halt_current_connection_and_reconnect abort_and_release_transport set_transport
    cancel_all_pending_authorizations wait_for_response
halt-IsReleased a c h v = record { transport = λ x. cc; queue = v.queue; settled = v.settled }

pub did_authorize-IsReleased :
    (t : Text) (a : ℕ) (env : Env) (c : Connection)
    → IsReleased c
    → IsReleased (did_authorize t a env c).0
unfolding did_authorize
did_authorize-IsReleased t a env c v = by_state c.outbox.state refl
  where
    by_state : (s : ConnectionState) → c.outbox.state ≡ s → IsReleased (did_authorize t a env c).0
    by_state ConnectionState.connected h =
        rw (did_authorize, h)
          (IsReleased-SameHold _ _ (wait-SameHold a _)
            (send-IsReleased env.wire (auth_message t) [] [] _ v))
    by_state ConnectionState.connecting h = rw (did_authorize, h) v
    by_state ConnectionState.closing h =
        rw (did_authorize, h) (IsReleased-SameHold _ _ (cancel-SameHold _) v)
    by_state _ h =
        rw (did_authorize, h)
          (IsReleased-SameHold _ _ (wait-SameHold a _)
            (transition-IsReleased ConnectionState.connecting none env _))

-- A token that was forced and arrives when the connection is disconnected gives it a transport, which
-- is made to connect, all the same.
pub authorized-reopens :
    (env : Env) (c : Connection)
    → c.outbox.state ≡ ConnectionState.disconnected
    → let d = (authorized true true token env c).0 in
      (d.outbox.state ≡ ConnectionState.disconnected)
      × (d.transport
          ≡ some (record {
            id = c.next_transport;
            resume_key = resume_key_of c.transport;
            connection_serial = connection_serial_of c.transport;
          }))
unfolding authorized connect_authorized reset_transport set_transport close_and_release_transport
authorized-reopens env c h = rw (ap is_closing h) (h, refl)

-- The reconnection with a new token reads the resume key of the transport that it has just let go:
-- whatever key that had, the new transport has none, so the connection is not resumed.
halt-forgets :
    (a : ℕ) (c : Connection)
    → (halt_current_connection_and_reconnect a c).0.transport
      ≡ some (record { id = c.next_transport; resume_key = none; connection_serial = none })
unfolding halt_current_connection_and_reconnect abort_and_release_transport set_transport
    cancel_all_pending_authorizations wait_for_response
halt-forgets a c = refl
