-- ===== src/Connection/Delegated.antt =====
-- The calls of the transports and the messages of the server leave a connection of
-- Source/ARTRealtime.m that holds on to nothing its state has no use for.
mod Messages
pub use Messages.*
use ably_cocoa.Base.{
  ℕ, ◌≡◌, refl, ◌∙◌, ap, subst, Bool, true, false, ◌&&◌, not, Option, none, some, List, [], Text,
  codes, ℤ, ltb_ℤ, if◌then◌else◌, is_some, is_none, same_text, arith, inl, inr, Bool-cases,
}
use ably_cocoa.Base.{drop, drop-all}
use ably_cocoa.Types.{ConnectionState, Action, ErrorInfo, connection_state_eq}
use ably_cocoa.Message.{ProtocolMessage}
use ably_cocoa.Outbox.{
  Outbox, Wire, send, ack, nack, settle, Pending, should_send_events, should_queue_events,
}
use ably_cocoa.Fallback.{fallback_init, hosts_from_options}
use ably_cocoa.Connection.{Output, Connection, Env, Result, on_outbox}
use ably_cocoa.Connection.Transition.{transition}
use ably_cocoa.Connection.Events.{on_closed}
use ably_cocoa.Connection.Delegate.{
  TransportError, ErrorType, other, bad_response, is_current, on_activity, dispatch,
  did_receive_message, if_current, should_retry_with_fallback, reconnect_with_fallback, give_up,
  start_fallback, continue_fallback, fail_transport, first_host, lose_transport, with_serial, after,
}
use ably_cocoa.Connection.Laws.{has_no_transport, refuses_messages, IsReleased, send_impl-state}
use ably_cocoa.Outbox.{Output as Held}
use ably_cocoa.Connection.Releases.{
  IsReleased-active, SameHold, IsReleased-SameHold, transition-IsReleased, lose-IsReleased,
}
use ably_cocoa.Connection.Handled.{
  on_connected-IsReleased, on_disconnected-IsReleased, on_auth-IsReleased, on_error-IsReleased,
  if-IsReleased,
}

-- The current transport is there, so the state is one that has a transport.
is_current-has_transport :
    (id : ℕ) (c : Connection)
    → IsReleased c
    → is_current id c ≡ true
    → has_no_transport c.outbox.state ≡ false
is_current-has_transport id c v h = elim (Bool-cases (has_no_transport c.outbox.state)) [
  | inl bare ↦ absurd (
      current-none
        (subst (λ t. is_current id (record c { transport = t }) ≡ true) (v.transport bare) h))
  | inr kept ↦ kept
]
  where
    current-none : false ≡ true → ⊥
    current-none x = ground arith

-- The result, if there is one, holds on to nothing.
abbrev pub Releases : Option Result → Type 0
Releases none = Unit {0}
Releases (some r) = IsReleased r.0

pub on_closed-Releases : (env : Env) (c : Connection) → IsReleased c → Releases (on_closed env c)
unfolding on_closed
on_closed-Releases env c v = by_state c.outbox.state refl
  where
    by_state : (s : ConnectionState) → c.outbox.state ≡ s → Releases (on_closed env c)
    by_state ConnectionState.closed h = rw (on_closed, h) v
    by_state ConnectionState.closing h =
        rw (on_closed, h) (transition-IsReleased ConnectionState.closed none env _)
    by_state _ h = rw (on_closed, h) tt

pub dispatch-Releases :
    (a : Action) (pm : ProtocolMessage) (env : Env) (c : Connection)
    → has_no_transport c.outbox.state ≡ false
    → IsReleased c
    → Releases (dispatch a pm env c)
unfolding dispatch
dispatch-Releases Action.heartbeat pm env c h v = v
dispatch-Releases Action.error pm env c h v =
    if-IsReleased (is_some pm.channel) _ _ v (on_error-IsReleased pm.error env c h v)
dispatch-Releases Action.connected pm env c h v = on_connected-IsReleased pm env c v
dispatch-Releases Action.disconnect pm env c h v = on_disconnected-IsReleased pm.error env c
dispatch-Releases Action.disconnected pm env c h v = on_disconnected-IsReleased pm.error env c
dispatch-Releases Action.ack pm env c h v = ack-IsReleased _ pm.count pm.error c v
dispatch-Releases Action.nack pm env c h v = nack-IsReleased _ pm.count pm.error c v
dispatch-Releases Action.closed pm env c h v = on_closed-Releases env c v
dispatch-Releases Action.auth pm env c h v = on_auth-IsReleased env c v
dispatch-Releases _ pm env c h v = v

pub after-Releases : (out : List Output) (r : Option Result) → Releases r → Releases (after out r)
after-Releases out none v = tt
after-Releases out (some r) v = v

on_activity-SameHold : (env : Env) (c : Connection) → SameHold c (on_activity env c).0
unfolding on_activity
on_activity-SameHold env c = record { state = refl; transport = refl; queue = refl; pending = refl }

with_serial-SameHold : (pm : ProtocolMessage) (c : Connection) → SameHold c (with_serial pm c)
with_serial-SameHold pm c = by_flag pm.has_connection_serial refl
  where
    by_flag : (b : Bool) → pm.has_connection_serial ≡ b → SameHold c (with_serial pm c)
    by_flag true h = rw h (record { state = refl; transport = refl; queue = refl; pending = refl })
    by_flag false h = rw h (record { state = refl; transport = refl; queue = refl; pending = refl })

pub if-Releases :
    (b : Bool) (x y : Option Result)
    → (b ≡ true → Releases x)
    → (b ≡ false → Releases y)
    → Releases (if b then x else y)
if-Releases true x y v w = v refl
if-Releases false x y v w = w refl

pub did_receive_message-Releases :
    (id : ℕ) (pm : Option ProtocolMessage) (env : Env) (c : Connection)
    → IsReleased c
    → Releases (did_receive_message id pm env c)
unfolding did_receive_message
did_receive_message-Releases id none env c v =
    IsReleased-SameHold c _ (on_activity-SameHold env c) v
did_receive_message-Releases id (some pm) env c v =
    let d = (on_activity env c).0 in
    let w = IsReleased-SameHold c d (on_activity-SameHold env c) v in
    let k = with_serial-SameHold pm d in
    if-Releases (not (is_current id d)) _ _ (λ h. w)
      (λ h.
        if-Releases (connection_state_eq d.outbox.state ConnectionState.disconnected) _ _ (λ g. w)
          (λ g. after-Releases _ _ (
            dispatch-Releases pm.action pm env (with_serial pm d)
              (ap has_no_transport k.state ∙ is_current-has_transport id d w (ground arith))
              (IsReleased-SameHold d _ k w))))
