-- ===== src/Channel/Answers.antt =====
-- Which events answer the callbacks that wait in Source/ARTRealtimeChannel.m, and which do not.
mod Counted
pub use Counted.*
use ably_cocoa.Base.{
  ℕ, ◌+◌, ◌≡◌, refl, ap, false, Option, none, some, List, [], ◌∷◌, ◌++◌, arith, All,
}
use ably_cocoa.Types.{ChannelState, ErrorInfo}
use ably_cocoa.Message.{ProtocolMessage}
use ably_cocoa.Retry.{add_retry_attempt}
use ably_cocoa.Base.{subst, sym, ◌∙◌}
use ably_cocoa.Presence.Map.{fails_sync}
use ably_cocoa.Channel.{
  ChannelStateChangeMetadata, Callback, client_callback, recovery_ended, Waiter, call, attach_again,
  detach_again, forget_reconnect, Channel, Env, Result, ◌▷◌, emit, answer, send_pending_presence,
}
use ably_cocoa.Channel.Transition.{
  run, run_all, emit_attached, emit_detached, transition, transition_with, enter, begin, change_to,
  emit_change, add_timers, retry_timers, fail_sync,
}
use ably_cocoa.Channel.Events.{
  complete_attach, complete_attach_in, set_suspended, set_failed, detach_channel, detach_channel_in,
  fail_presence, attached_metadata,
}
use ably_cocoa.Channel.Callbacks.{
  asks, waits_in, waits, calls, held, calls-append, calls-presence_events,
}

-- A call that calls `n` callbacks with number `k`, and after which no callback waits for an attach.
abbrev pub IsAnswered : ℕ → ℕ → Result → Type 0
IsAnswered k n r = (calls k r.1 ≡ n) × (r.0.attached_waiters ≡ [])

attached-IsAnswered :
    (k : ℕ) (pm : ProtocolMessage) (env : Env) (c : Channel)
    → All IsPlain c.attached_waiters
    → IsAnswered k (waits k c.attached_waiters) (complete_attach_in ChannelState.attaching pm env c)
unfolding complete_attach_in transition transition_with enter emit_change add_timers retry_timers
    begin
attached-IsAnswered k pm env c h =
    let d = (transition ChannelState.attached (attached_metadata pm.error) env c).0 in
    let a = emit_attached-Answers k env none d h in
    (
      omega (
        arith,
        a.called,
        calls-append k (emit_attached env none d).1 (send_pending_presence ∷ []),
      ),
      a.attached,
    )

suspended-IsAnswered :
    (k : ℕ) (md : ChannelStateChangeMetadata) (env : Env) (c : Channel)
    → All IsPlain c.attached_waiters
    → IsAnswered k (waits k c.attached_waiters) (set_suspended md env c)
unfolding set_suspended fail_presence transition transition_with enter emit_change add_timers begin
suspended-IsAnswered k md env c h =
    let b = begin ChannelState.suspended md c in
    let d = record b { attach_retry_state = (add_retry_attempt env.draw b.attach_retry_state).0 } in
    let a = emit_attached-Answers k env md.error_info d h in
    let x = emit_attached env md.error_info d in
    let ch = emit (change_to ChannelState.suspended md c) in
    let p : 0 + calls k ((x.1 ++ ch ∷ []) ++ []) ≡ waits k c.attached_waiters =
      omega (arith, a.called, calls-append k (x.1 ++ ch ∷ []) [], calls-append k x.1 (ch ∷ [])) in
    (p, a.attached)

failed-IsAnswered :
    (k : ℕ) (md : ChannelStateChangeMetadata) (env : Env) (c : Channel)
    → All IsPlain c.attached_waiters
    → All IsPlain c.detached_waiters
    → IsAnswered k (held k c) (set_failed md env c)
unfolding set_failed fail_presence transition transition_with enter emit_change add_timers begin
failed-IsAnswered k md env c h g =
    let e = md.error_info in
    let d = record (begin ChannelState.failed md c) { attach_resume = false } in
    let a = emit_attached-Answers k env e d h in
    let x = emit_attached env e d in
    let b = emit_detached-Answers k env e x.0 (subst (All IsPlain) (sym a.detached) g) in
    let y = emit_detached env e x.0 in
    let f = fail_sync-Answers k e y.0 in
    let z = (fail_sync e y.0).1 in
    let ch = emit (change_to ChannelState.failed md c) in
    let p : 0 + calls k ((((x.1 ++ y.1) ++ z) ++ ch ∷ []) ++ []) ≡ held k c = omega (
      arith,
      a.called,
      b.called,
      f.called,
      ap (waits k) a.detached,
      calls-append k (((x.1 ++ y.1) ++ z) ++ ch ∷ []) [],
      calls-append k ((x.1 ++ y.1) ++ z) (ch ∷ []),
      calls-append k (x.1 ++ y.1) z,
      calls-append k x.1 y.1,
    ) in
    (p, f.attached ∙ b.attached ∙ a.attached)

-- When an attach ends, with an ATTACHED message, by suspending the channel or by failing it, every
-- callback that waits for it is called, as often as it waits, and none is left; where the channel
-- fails, so are those that wait for a detach. This holds if no detach waits for the attach and no
-- attach for a detach.
pub attach-IsAnswered :
    (k : ℕ) (pm : ProtocolMessage) (md : ChannelStateChangeMetadata) (env : Env) (c : Channel)
    → c.state ≡ ChannelState.attaching
    → All IsPlain c.attached_waiters
    → All IsPlain c.detached_waiters
    → IsAnswered k (waits k c.attached_waiters) (complete_attach pm env c)
      × IsAnswered k (waits k c.attached_waiters) (set_suspended md env c)
      × IsAnswered k (held k c) (set_failed md env c)
unfolding complete_attach
attach-IsAnswered k pm md env c s h g = (
  subst (λ t. IsAnswered k (waits k c.attached_waiters) (complete_attach_in t pm env c)) (sym s)
      (attached-IsAnswered k pm env c h),
  suspended-IsAnswered k md env c h,
  failed-IsAnswered k md env c h g,
)

-- Detaching a channel that is not detached calls none of the callbacks.
transition-detached_silent :
    (k : ℕ) (md : ChannelStateChangeMetadata) (env : Env) (c : Channel)
    → Answers k 0 c (fail_presence md c ▷ transition ChannelState.detached md env)
unfolding fail_presence transition transition_with enter emit_change add_timers retry_timers begin
transition-detached_silent k md env c =
    let f = fail_sync-Answers k md.error_info (begin ChannelState.detached md c) in
    let out = (fail_sync md.error_info (begin ChannelState.detached md c)).1 in
    let ch = emit (change_to ChannelState.detached md c) in
    let p : 0 + calls k ((out ++ ch ∷ []) ++ []) ≡ 0 =
      omega (arith, f.called, calls-append k (out ++ ch ∷ []) [], calls-append k out (ch ∷ [])) in
    record { called = p; attached = f.attached; detached = f.detached }

-- A channel that is detached because the connection is closed calls no callback: those of an attach
-- or a detach that has not ended go on waiting.
pub detach_channel-IsUnanswered :
    (k : ℕ) (md : ChannelStateChangeMetadata) (env : Env) (c : Channel)
    → (calls k (detach_channel md env c).1 ≡ 0)
      × ((detach_channel md env c).0.state ≡ ChannelState.detached)
      × ((detach_channel md env c).0.attached_waiters ≡ c.attached_waiters)
      × ((detach_channel md env c).0.detached_waiters ≡ c.detached_waiters)
unfolding detach_channel transition transition_with enter fail_presence emit_change add_timers begin
    fail_sync
detach_channel-IsUnanswered k md env c = by_state c.state refl
  where
    by_state :
        (s : ChannelState)
        → c.state ≡ s
        → (calls k (detach_channel_in s md env c).1 ≡ 0)
          × ((detach_channel_in s md env c).0.state ≡ ChannelState.detached)
          × ((detach_channel_in s md env c).0.attached_waiters ≡ c.attached_waiters)
          × ((detach_channel_in s md env c).0.detached_waiters ≡ c.detached_waiters)
    by_state ChannelState.detached h = (refl, h, refl, refl)
    by_state _ h =
        let a = transition-detached_silent k md env c in (a.called, refl, a.attached, a.detached)
