-- ===== src/Connection/Laws.antt =====
-- What the transitions of Source/ARTRealtime.m do to the state, the transport and the messages.
mod Keeping
pub use Keeping.*
use ably_cocoa.Base.{
  ℕ, ◌≡◌, refl, sym, ◌∙◌, subst, Bool, true, false, Option, none, some, List, [], ◌∷◌, is_none,
  arith, inl, inr, Bool-cases,
}
use ably_cocoa.Types.{ConnectionEvent, connection_event, ConnectionState, ErrorInfo}
use ably_cocoa.Message.{ProtocolMessage}
use ably_cocoa.Outbox.{
  Outbox, Wire, Queued, Pending, Encoded, bytes, refused, nothing, send, send_impl, send_encoded,
  stamp, send_queued, send_queued_messages, send_pending, resend_pending_messages,
  fail_queued_messages, fail_pending_messages, should_send_events, should_queue_events,
}
use ably_cocoa.Retry.{connection_will_transition_to_state}
use ably_cocoa.Connection.{Delay, milliseconds, StateChange, Connection, Env, set_state}
use ably_cocoa.Connection.Transports.{
  abort_and_release_transport, close_and_release_transport, set_transport, transport_connect,
  create_and_connect_transport, set_reachability_active,
}
use ably_cocoa.Connection.Transition.{
  enter, enter_connecting, enter_closing, enter_closed, enter_failed, enter_disconnected,
  enter_suspended, enter_connected, settle_queue, perform_pending_authorization, perform_transition,
  move_to, change_to, timer_of, clear_connection_state_if_inactive, is_inactive, lost_state,
  resumable, cleared, open_transport,
}

-- The states that a connection leaves its transport in.
abbrev pub has_no_transport : ConnectionState → Bool
has_no_transport ConnectionState.disconnected = true
has_no_transport ConnectionState.suspended = true
has_no_transport ConnectionState.closed = true
has_no_transport ConnectionState.failed = true
has_no_transport _ = false

-- The states that refuse messages: they neither send nor queue them.
abbrev pub refuses_messages : ConnectionState → Bool
refuses_messages ConnectionState.suspended = true
refuses_messages ConnectionState.closing = true
refuses_messages ConnectionState.closed = true
refuses_messages ConnectionState.failed = true
refuses_messages _ = false

-- The states in which no acknowledgement can come any more.
abbrev pub is_ended : ConnectionState → Bool
is_ended ConnectionState.closed = true
is_ended ConnectionState.failed = true
is_ended _ = false

-- The connection holds on to nothing that its state has no use for.
pub record IsReleased (c : Connection) : Type 0 where
  pub transport : has_no_transport c.outbox.state ≡ true → c.transport ≡ none
  pub queue : refuses_messages c.outbox.state ≡ true → c.outbox.queued_messages ≡ []
  pub settled : is_ended c.outbox.state ≡ true → c.outbox.pending_messages ≡ []

pub refuses-both :
    (o : Outbox)
    → refuses_messages o.state ≡ true
    → (should_send_events o ≡ false) × (should_queue_events o ≡ false)
unfolding should_send_events should_queue_events
refuses-both o h = ground arith

-- What entering a state leaves.
pub record Entered (s : ConnectionState) (c d : Connection) : Type 0 where
  pub state : d.outbox.state ≡ s
  pub waits : d.close_waits ≡ c.close_waits
  pub transport : has_no_transport s ≡ true → d.transport ≡ none
  pub settled : is_ended s ≡ true → d.outbox.pending_messages ≡ []

abbrev pub to_enter :
    ConnectionState → ConnectionState → ConnectionEvent → Option ErrorInfo → Delay → StateChange
to_enter s p u r t = record { current = s; previous = p; event = u; reason = r; retry_in = t }

pub transport_connect-keeps :
    (force new : Bool) (env : Env) (c : Connection) → (transport_connect force new env c).0 ≡ c
unfolding transport_connect
transport_connect-keeps force new env c = ground arith

clear-keeps :
    (env : Env) (c : Connection)
    → let d = clear_connection_state_if_inactive env c in
      (d.outbox.state ≡ c.outbox.state) × (d.close_waits ≡ c.close_waits)
unfolding clear_connection_state_if_inactive
clear-keeps env c = elim (Bool-cases (is_inactive env c)) [
  | inl yes' ↦ rw yes' (refl, refl)
  | inr no' ↦ rw no' (refl, refl)
]

create-keeps :
    (resume : Bool) (env : Env) (c : Connection)
    → let d = (create_and_connect_transport resume env c).0 in
      (d.outbox.state ≡ c.outbox.state) × (d.close_waits ≡ c.close_waits)
unfolding create_and_connect_transport set_transport
create-keeps true env c = rw (transport_connect-keeps _ _ env _) (refl, refl)
create-keeps false env c = rw (transport_connect-keeps _ _ env _) (refl, refl)

open_transport-keeps :
    (p : ConnectionState) (env : Env) (c : Connection)
    → let d = (open_transport p env c).0 in
      (d.outbox.state ≡ c.outbox.state) × (d.close_waits ≡ c.close_waits)
unfolding open_transport
open_transport-keeps p env c = elim (Bool-cases (is_none c.transport)) [
  | inl absent ↦ rw absent (create-keeps (resumable p) env c)
  | inr there ↦ rw there (refl, refl)
]

cleared-keeps :
    (p : ConnectionState) (env : Env) (c : Connection)
    → let d = cleared p env c in (d.outbox.state ≡ c.outbox.state) × (d.close_waits ≡ c.close_waits)
cleared-keeps p env c = elim (Bool-cases (lost_state p)) [
  | inl lost ↦ rw lost (clear-keeps env c)
  | inr kept ↦ rw kept (refl, refl)
]

connecting-keeps :
    (p : ConnectionState) (env : Env) (c : Connection)
    → let d = (enter_connecting p env c).0 in
      (d.outbox.state ≡ c.outbox.state) × (d.close_waits ≡ c.close_waits)
unfolding enter_connecting set_reachability_active
connecting-keeps p env c =
    let a = cleared-keeps p env c in
    let b = open_transport-keeps p env (cleared p env c) in (b.0 ∙ a.0, b.1 ∙ a.1)

pub enter-Entered :
    (s p : ConnectionState) (u : ConnectionEvent) (r : Option ErrorInfo) (t : Delay) (env : Env)
    (c : Connection)
    → c.outbox.state ≡ s
    → Entered s c (enter (to_enter s p u r t) env c).0
unfolding enter enter_closing enter_closed enter_failed enter_disconnected enter_suspended
    enter_connected fail_pending_messages resend_pending_messages close_and_release_transport
    abort_and_release_transport set_reachability_active
enter-Entered ConnectionState.initialized p u r t env c h = record {
  state = h;
  waits = refl;
  transport = λ x. cc;
  settled = λ x. cc;
}
enter-Entered ConnectionState.connecting p u r t env c h =
    let k = connecting-keeps p env c in
    record { state = k.0 ∙ h; waits = k.1; transport = λ x. cc; settled = λ x. cc }
enter-Entered ConnectionState.connected p u none t env c h = record {
  state =
      send_pending-state env.wire c.outbox.pending_messages
        (record c.outbox { pending_messages = [] })
      ∙ h;
  waits = refl;
  transport = λ x. cc;
  settled = λ x. cc;
}
enter-Entered ConnectionState.connected p u (some e) t env c h = record {
  state = h;
  waits = refl;
  transport = λ x. cc;
  settled = λ x. cc;
}
enter-Entered ConnectionState.disconnected p u r t env c h = record {
  state = h;
  waits = refl;
  transport = λ x. refl;
  settled = λ x. cc;
}
enter-Entered ConnectionState.suspended p u r t env c h = record {
  state = h;
  waits = refl;
  transport = λ x. refl;
  settled = λ x. cc;
}
enter-Entered ConnectionState.closing p u r t env c h = record {
  state = h;
  waits = refl;
  transport = λ x. cc;
  settled = λ x. cc;
}
enter-Entered ConnectionState.closed p u r t env c h = record {
  state = h;
  waits = refl;
  transport = λ x. refl;
  settled = λ x. refl;
}
enter-Entered ConnectionState.failed p u r t env c h = record {
  state = h;
  waits = refl;
  transport = λ x. refl;
  settled = λ x. refl;
}

-- What a transition leaves where no close waits.
pub record Moved (s : ConnectionState) (c d : Connection) : Type 0 where
  pub state : d.outbox.state ≡ s
  pub waits : d.close_waits ≡ c.close_waits
  pub released : IsReleased d
  pub timer : d.timer ≡ timer_of s

pub move_to-Moved :
    (s : ConnectionState) (r : Option ErrorInfo) (env : Env) (c : Connection)
    → Moved s c (move_to s r env c).0
unfolding move_to perform_transition perform_pending_authorization
move_to-Moved s r env c =
    let ch = change_to s r c in
    let c1 = record (set_state s r c) {
      retry_state = connection_will_transition_to_state s c.retry_state;
    } in
    let e = enter-Entered s c.outbox.state (connection_event s) r (milliseconds 0) env c1 refl in
    let d = (enter ch env c1).0 in
    let q = settle_queue-Settles ch env d in
    let state = q.state ∙ e.state in
    record {
      state = state;
      waits = q.waits ∙ e.waits;
      timer = refl;
      released = record {
        transport = λ h. q.transport ∙ e.transport (subst (λ x. has_no_transport x ≡ true) state h);
        queue = λ h. (failing ch env d (subst (λ x. refuses_messages x ≡ true) q.state h)).0;
        settled = λ h.
            let ended = subst (λ x. is_ended x ≡ true) state h in
            (failing ch env d
              (subst (λ x. refuses_messages x ≡ true) (sym e.state) (ended-refuses s ended))).1
            ∙ e.settled ended;
      };
    }
  where
    ended-refuses : (t : ConnectionState) → is_ended t ≡ true → refuses_messages t ≡ true
    ended-refuses t h = ground arith

    failing :
        (ch : StateChange) (env : Env) (d : Connection)
        → refuses_messages d.outbox.state ≡ true
        → ((settle_queue ch env d).0.outbox.queued_messages ≡ [])
          × ((settle_queue ch env d).0.outbox.pending_messages ≡ d.outbox.pending_messages)
    failing ch env d h = let b = refuses-both d.outbox h in settle_queue-fails ch env d b.0 b.1
