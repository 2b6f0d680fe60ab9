-- ===== src/Connection/Releases.antt =====
-- The transitions of Source/ARTRealtime.m release the transport and the messages that the new state
-- has no use for.
use ably_cocoa.Base.{◌≡◌, refl, ◌∙◌, subst, Bool, true, false, Option, arith, inl, inr, Bool-cases}
use ably_cocoa.Types.{ConnectionState, ErrorInfo, connection_state_eq}
use ably_cocoa.Connection.{Connection, Env, ◌▷◌}
use ably_cocoa.Connection.Transports.{set_reachability_active}
use ably_cocoa.Connection.Transition.{
  transition, close, close_now, move_to, cancel_timers, is_suspend_mode,
  transition_to_disconnected_or_suspended,
}
use ably_cocoa.Connection.Laws.{
  has_no_transport, refuses_messages, is_ended, IsReleased, Moved, move_to-Moved,
}

-- The invariant reads the state, the transport and the messages only.
pub record SameHold (c d : Connection) : Type 0 where
  pub state : d.outbox.state ≡ c.outbox.state
  pub transport : d.transport ≡ c.transport
  pub queue : d.outbox.queued_messages ≡ c.outbox.queued_messages
  pub pending : d.outbox.pending_messages ≡ c.outbox.pending_messages

pub IsReleased-SameHold : (c d : Connection) → SameHold c d → IsReleased c → IsReleased d
IsReleased-SameHold c d k v = record {
  transport = λ h. k.transport ∙ v.transport (subst (λ s. has_no_transport s ≡ true) k.state h);
  queue = λ h. k.queue ∙ v.queue (subst (λ s. refuses_messages s ≡ true) k.state h);
  settled = λ h. k.pending ∙ v.settled (subst (λ s. is_ended s ≡ true) k.state h);
}

move_to-IsReleased :
    (s : ConnectionState) (r : Option ErrorInfo) (env : Env) (c : Connection)
    → IsReleased (move_to s r env c).0
move_to-IsReleased s r env c = (move_to-Moved s r env c).released

close_now-IsReleased : (env : Env) (c : Connection) → IsReleased c → IsReleased (close_now env c).0
unfolding close_now
close_now-IsReleased env c v = by_state c.outbox.state refl
  where
    by_state : (s : ConnectionState) → c.outbox.state ≡ s → IsReleased (close_now env c).0
    by_state ConnectionState.disconnected h = rw (close_now, h) (move_to-IsReleased _ _ env _)
    by_state ConnectionState.suspended h = rw (close_now, h) (move_to-IsReleased _ _ env _)
    by_state ConnectionState.connected h = rw (close_now, h) (move_to-IsReleased _ _ env _)
    by_state _ h = rw (close_now, h) v

cancelled-SameHold :
    (env : Env) (c : Connection)
    → SameHold c (set_reachability_active false env c ▷ cancel_timers).0
unfolding set_reachability_active cancel_timers
cancelled-SameHold env c = record { state = refl; transport = refl; queue = refl; pending = refl }

waiting-SameHold : (b : Bool) (c : Connection) → SameHold c (record c { close_waits = b })
waiting-SameHold b c = record { state = refl; transport = refl; queue = refl; pending = refl }

pub close-IsReleased : (env : Env) (c : Connection) → IsReleased c → IsReleased (close env c).0
unfolding close
close-IsReleased env c v =
    let d = (set_reachability_active false env c ▷ cancel_timers).0 in
    let w = IsReleased-SameHold c d (cancelled-SameHold env c) v in
    elim (Bool-cases (connection_state_eq d.outbox.state ConnectionState.connecting)) [
      | inl busy ↦ rw busy (IsReleased-SameHold d _ (waiting-SameHold true d) w)
      | inr idle ↦ rw idle (close_now-IsReleased env d w)
    ]

-- A transition leaves a connection that holds on to nothing, whatever it was before.
pub transition-IsReleased :
    (s : ConnectionState) (r : Option ErrorInfo) (env : Env) (c : Connection)
    → IsReleased (transition s r env c).0
unfolding transition
transition-IsReleased s r env c =
    let d = (move_to s r env c).0 in
    let v = move_to-IsReleased s r env c in
    elim (Bool-cases d.close_waits) [
      | inl closing' ↦
          rw closing'
            (close-IsReleased env _ (IsReleased-SameHold d _ (waiting-SameHold false d) v))
      | inr open' ↦ rw open' v
    ]

-- Where no close waits, a transition does what it says.
pub transition-Moved :
    (s : ConnectionState) (r : Option ErrorInfo) (env : Env) (c : Connection)
    → c.close_waits ≡ false
    → Moved s c (transition s r env c).0
unfolding transition
transition-Moved s r env c h =
    let m = move_to-Moved s r env c in
    rw (m.waits ∙ h)
      (record { state = m.state; waits = m.waits; released = m.released; timer = m.timer })

pub lose-IsReleased :
    (r : Option ErrorInfo) (env : Env) (c : Connection)
    → IsReleased (transition_to_disconnected_or_suspended r env c).0
unfolding transition_to_disconnected_or_suspended
lose-IsReleased r env c = elim (Bool-cases (is_suspend_mode env c)) [
  | inl late ↦ rw late (transition-IsReleased _ r env c)
  | inr soon ↦ rw soon (transition-IsReleased _ r env c)
]

-- A connection in a state that may have a transport and takes messages.
pub IsReleased-active :
    (c : Connection)
    → has_no_transport c.outbox.state ≡ false
    → refuses_messages c.outbox.state ≡ false
    → IsReleased c
IsReleased-active c h k = record {
  transport = λ x. cc;
  queue = λ x. cc;
  settled = λ x. cc (ended-refuses c.outbox.state x);
}
  where
    ended-refuses : (s : ConnectionState) → is_ended s ≡ true → refuses_messages s ≡ true
    ended-refuses s x = ground arith
