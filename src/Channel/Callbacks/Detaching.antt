-- ===== src/Channel/Callbacks/Detaching.antt =====
-- What `_detach:`, the waiting callbacks and the whole `transition:withMetadata:` of
-- Source/ARTRealtimeChannel.m do with the callbacks of the client.
use ably_cocoa.Base.{ℕ, Option, none, some, List, [], ◌∷◌, ◌++◌, arith}
use ably_cocoa.Types.{ChannelState, State, ErrorInfo}
use ably_cocoa.Channel.{
  ChannelStateChangeMetadata, with_state, Callback, Waiter, call, attach_again, detach_again,
  forget_reconnect, Channel, Env, is_active, answer,
}
use ably_cocoa.Channel.Transition.{
  detach_after, waits_for, detach_in, start_detach, detach, detach_waited, run, run_all,
  emit_attached, emit_detached, transition, request_detach,
}
use ably_cocoa.Channel.Callbacks.{
  asks, waits_in, waits, Balanced, waits-append, ▷-Balanced, ▷-then, if-Balanced, moved-Balanced,
  quietly-Balanced, zero-▷, answer-Balanced,
}
use ably_cocoa.Channel.Callbacks.Attaching.{
  inner_transition-Balanced, waits-waits_for, detach_after-Balanced, attach-Balanced,
  transition_with-Balanced, IsBalanced,
}

start_detach-Balanced :
    (k : ℕ) (f : Option Callback) (env : Env) (c : Channel)
    → Balanced k (asks k f) c (start_detach f env c)
unfolding start_detach request_detach
start_detach-Balanced k f env c =
    let d = record c { detached_waiters = c.detached_waiters ++ waits_for f } in
    if-Balanced k (asks k f) c (is_active env) _ _
      (▷-then k (asks k f) c _ (detach_after env)
        (moved-Balanced k (asks k f) c d _
          (omega (arith, waits-append k c.detached_waiters (waits_for f), waits-waits_for k f))
          (inner_transition-Balanced k ChannelState.detaching (with_state State.ok) env d))
        (detach_after-Balanced k env))
      (answer-Balanced k f _ c)

detach_in-Balanced :
    (k : ℕ) (s : ChannelState) (f : Option Callback) (env : Env) (c : Channel)
    → Balanced k (asks k f) c (detach_in s f env c)
unfolding detach_in
detach_in-Balanced k ChannelState.attaching f env c = record {
  balance = omega (arith, waits-append k c.attached_waiters (detach_again f ∷ []));
}
detach_in-Balanced k ChannelState.detaching f env c = record {
  balance = omega (arith, waits-append k c.detached_waiters (waits_for f), waits-waits_for k f);
}
detach_in-Balanced k ChannelState.suspended f env c =
    zero-▷ k (asks k f) c _ (answer f none)
      (inner_transition-Balanced k ChannelState.detached (with_state State.ok) env c)
      (answer-Balanced k f none)
detach_in-Balanced k ChannelState.attached f env c = start_detach-Balanced k f env c
detach_in-Balanced k _ f env c = answer-Balanced k f _ c

pub detach-Balanced :
    (k : ℕ) (f : Option Callback) (env : Env) (c : Channel)
    → Balanced k (asks k f) c (detach f env c)
unfolding detach
detach-Balanced k f env c = detach_in-Balanced k c.state f env c

detach_waited-Balanced :
    (k : ℕ) (f : Option Callback) (e : Option ErrorInfo) (env : Env) (c : Channel)
    → Balanced k (asks k f) c (detach_waited f e env c)
unfolding detach_waited
detach_waited-Balanced k (some f) (some e) env c = answer-Balanced k (some f) (some e) c
detach_waited-Balanced k (some f) none env c = detach-Balanced k (some f) env c
detach_waited-Balanced k none e env c = detach-Balanced k none env c

run-Balanced :
    (k : ℕ) (env : Env) (e : Option ErrorInfo) (w : Waiter) (c : Channel)
    → Balanced k (waits_in k w) c (run env e w c)
unfolding run
run-Balanced k env e (call f) c = answer-Balanced k (some f) e c
run-Balanced k env e (attach_again f) c = attach-Balanced k f env c
run-Balanced k env e (detach_again f) c = detach_waited-Balanced k f e env c
run-Balanced k env e (forget_reconnect n) c = record { balance = omega arith }

run_all-Balanced :
    (k : ℕ) (env : Env) (e : Option ErrorInfo) (ws : List Waiter) (c : Channel)
    → Balanced k (waits k ws) c (run_all env e ws c)
unfolding run_all
run_all-Balanced k env e [] c = quietly-Balanced k c
run_all-Balanced k env e (w ∷ ws) c =
    ▷-Balanced k (waits_in k w) (waits k ws) c _ (run_all env e ws) (run-Balanced k env e w c)
      (run_all-Balanced k env e ws)

pub emit_attached-Balanced : (k : ℕ) (env : Env) → IsBalanced k (emit_attached env)
unfolding emit_attached
emit_attached-Balanced k env e c =
    let b = run_all-Balanced k env e c.attached_waiters (record c { attached_waiters = [] }) in
    record { balance = omega (arith, b.balance) }

pub emit_detached-Balanced : (k : ℕ) (env : Env) → IsBalanced k (emit_detached env)
unfolding emit_detached
emit_detached-Balanced k env e c =
    let b = run_all-Balanced k env e c.detached_waiters (record c { detached_waiters = [] }) in
    record { balance = omega (arith, b.balance) }

pub transition-Balanced :
    (k : ℕ) (s : ChannelState) (md : ChannelStateChangeMetadata) (env : Env) (c : Channel)
    → Balanced k 0 c (transition s md env c)
unfolding transition
transition-Balanced k s md env c =
    transition_with-Balanced k (emit_attached env) (emit_detached env)
      (emit_attached-Balanced k env) (emit_detached-Balanced k env) s md env c
