-- ===== src/Channel/Callbacks/Attaching.antt =====
-- What the transitions, `_attach:` and `_detach:` of Source/ARTRealtimeChannel.m do with the
-- callbacks of the client.
use ably_cocoa.Base.{
  ℕ, ◌≡◌, refl, false, Option, none, some, List, [], ◌∷◌, ◌++◌, arith, inl, inr, Bool-cases, Text,
}
use ably_cocoa.Types.{ChannelState, ErrorInfo}
use ably_cocoa.Presence.Map.{in_progress, fails_sync}
use ably_cocoa.Channel.{
  ChannelStateChange, ChannelStateChangeMetadata, AttachRequestMetadata, with_reason, Callback,
  attach_again, forget_reconnect, Timer, detach_time_out, quietly, outputs, send, Channel, Env,
  is_active, Result, ◌▷◌, can_be_reattached,
}
use ably_cocoa.Channel.Transition.{
  Call, no_call, fail_sync, emit_change, add_timers, enter, transition_with, inner_transition,
  attach_after, attach_sent, sent_at_once, detach_after, waits_for, start_attach, internal_attach,
  internal_attach_in, attach_in, attach, reattach_with_metadata, begin, change_to, retry_timers,
  await_reconnect, await_attached, await_detached, stop_sync, attach_message, detach_message,
  request_attach,
}
use ably_cocoa.Channel.Callbacks.{
  asks, waits, Balanced, waits-append, ▷-then, calls-presence_events, if-Balanced, same-Balanced,
  moved-Balanced, quietly-Balanced, answer-Balanced,
}

pub fail_sync-Balanced :
    (k : ℕ) (e : Option ErrorInfo) (c : Channel) → Balanced k 0 c (fail_sync e c)
unfolding fail_sync
fail_sync-Balanced k e c = omega (arith, calls-presence_events k (fails_sync e c.presence_map).1)

pub emit_change-Balanced :
    (k : ℕ) (ch : ChannelStateChange) (c : Channel) → Balanced k 0 c (emit_change ch c)
unfolding emit_change
emit_change-Balanced k ch c = omega arith

pub add_timers-Balanced : (k : ℕ) (ts : List Timer) (c : Channel) → Balanced k 0 c (add_timers ts c)
unfolding add_timers
add_timers-Balanced k ts c = omega arith

-- What calls the listeners calls or keeps each callback.
abbrev pub IsBalanced : ℕ → Call → Type 0
IsBalanced k f = (e : Option ErrorInfo) (c : Channel) → Balanced k 0 c (f e c)

enter-Balanced :
    (k : ℕ) (f g : Call)
    → IsBalanced k f
    → IsBalanced k g
    → (s : ChannelState) (e : Option ErrorInfo) (env : Env) (c : Channel)
    → Balanced k 0 c (enter f g s e env c)
unfolding enter
enter-Balanced k f g p q ChannelState.attached e env c = omega arith
enter-Balanced k f g p q ChannelState.suspended e env c = same-Balanced k 0 c _ _ refl (p e _)
enter-Balanced k f g p q ChannelState.detached e env c = fail_sync-Balanced k e c
enter-Balanced k f g p q ChannelState.failed e env c =
    ▷-then k 0 c _ (fail_sync e)
      (▷-then k 0 c _ (g e)
        (same-Balanced k 0 c _ _ refl (p e (record c { attach_resume = false }))) (q e))
      (fail_sync-Balanced k e)
enter-Balanced k f g p q _ e env c = omega arith

pub transition_with-Balanced :
    (k : ℕ) (f g : Call)
    → IsBalanced k f
    → IsBalanced k g
    → (s : ChannelState) (md : ChannelStateChangeMetadata) (env : Env) (c : Channel)
    → Balanced k 0 c (transition_with f g s md env c)
unfolding transition_with begin
transition_with-Balanced k f g p q s md env c =
    ▷-then k 0 c _ (add_timers (retry_timers s env (begin s md c)))
      (▷-then k 0 c _ (emit_change (change_to s md c))
        (same-Balanced k 0 c _ _ refl (enter-Balanced k f g p q s md.error_info env (begin s md c)))
        (emit_change-Balanced k (change_to s md c)))
      (add_timers-Balanced k (retry_timers s env (begin s md c)))

pub inner_transition-Balanced :
    (k : ℕ) (s : ChannelState) (md : ChannelStateChangeMetadata) (env : Env) (c : Channel)
    → Balanced k 0 c (inner_transition s md env c)
unfolding inner_transition
inner_transition-Balanced k s md env c =
    transition_with-Balanced k no_call no_call (λ e d. omega arith) (λ e d. omega arith) s md env c

pub waits-waits_for : (k : ℕ) (f : Option Callback) → waits k (waits_for f) ≡ asks k f
waits-waits_for k none = refl
waits-waits_for k (some f) = omega arith

sent_at_once-Balanced :
    (k : ℕ) (a : Option (Option ErrorInfo)) (c : Channel) → Balanced k 0 c (sent_at_once a c)
unfolding attach_sent add_timers
sent_at_once-Balanced k none c = omega arith
sent_at_once-Balanced k (some none) c = omega arith
sent_at_once-Balanced k (some (some e)) c = omega arith

-- A waiter that drops a reconnection holds no callback.
await_attached-Balanced :
    (k : ℕ) (serial : Option Text) (env : Env) (c : Channel)
    → Balanced k 0 c (quietly (await_attached serial env c))
unfolding await_attached await_reconnect
await_attached-Balanced k serial env c = elim (Bool-cases env.should_queue_events) [
  | inl h ↦ rw h (omega arith)
  | inr h ↦
      rw h
        (omega (arith, waits-append k c.attached_waiters (forget_reconnect c.next_reconnect ∷ [])))
]

await_detached-Balanced :
    (k : ℕ) (env : Env) (c : Channel) → Balanced k 0 c (quietly (await_detached env c))
unfolding await_detached await_reconnect
await_detached-Balanced k env c = elim (Bool-cases env.should_queue_events) [
  | inl h ↦ rw h (omega arith)
  | inr h ↦
      rw h
        (omega (arith, waits-append k c.detached_waiters (forget_reconnect c.next_reconnect ∷ [])))
]

stop_sync-Balanced : (k : ℕ) (c : Channel) → Balanced k 0 c (stop_sync c)
unfolding stop_sync
stop_sync-Balanced k c = elim (Bool-cases (in_progress c.presence_map.sync_state)) [
  | inl h ↦ rw h (fail_sync-Balanced k _ c)
  | inr h ↦ rw h (omega arith)
]

pub attach_after-Balanced :
    (k : ℕ) (serial : Option Text) (env : Env) (c : Channel)
    → Balanced k 0 c (attach_after serial env c)
unfolding attach_after
attach_after-Balanced k serial env c =
    let sends : Result = outputs (send (attach_message serial c) ∷ []) c in
    ▷-then k 0 c (sends ▷ sent_at_once env.sent) (λ d. quietly (await_attached serial env d))
      (▷-then k 0 c sends (sent_at_once env.sent) (omega arith) (sent_at_once-Balanced k env.sent))
      (await_attached-Balanced k serial env)

pub detach_after-Balanced : (k : ℕ) (env : Env) (c : Channel) → Balanced k 0 c (detach_after env c)
unfolding detach_after
detach_after-Balanced k env c =
    ▷-then k 0 c _ stop_sync
      (▷-then k 0 c _ (λ d. quietly (await_detached env d))
        (▷-then k 0 c (outputs (send (detach_message c) ∷ []) c) (add_timers (detach_time_out ∷ []))
          (omega arith) (add_timers-Balanced k (detach_time_out ∷ [])))
        (await_detached-Balanced k env))
      (stop_sync-Balanced k)

request_attach-Balanced :
    (k : ℕ) (f : Option Callback) (md : AttachRequestMetadata) (env : Env) (c : Channel)
    → Balanced k (asks k f) c (request_attach f md env c)
unfolding request_attach
request_attach-Balanced k f md env c =
    let d = record c { attached_waiters = c.attached_waiters ++ waits_for f } in
    ▷-then k (asks k f) c _ (attach_after md.channel_serial env)
      (moved-Balanced k (asks k f) c d _
        (omega (arith, waits-append k c.attached_waiters (waits_for f), waits-waits_for k f))
        (inner_transition-Balanced k ChannelState.attaching _ env d))
      (attach_after-Balanced k md.channel_serial env)

start_attach-Balanced :
    (k : ℕ) (f : Option Callback) (md : AttachRequestMetadata) (env : Env) (c : Channel)
    → Balanced k (asks k f) c (start_attach f md env c)
unfolding start_attach
start_attach-Balanced k f md env c =
    if-Balanced k (asks k f) c (is_active env) _ _
      (same-Balanced k (asks k f) c _ _ refl (request_attach-Balanced k f md env _))
      (same-Balanced k (asks k f) c _ _ refl (answer-Balanced k f _ _))

internal_attach_in-Balanced :
    (k : ℕ) (s : ChannelState) (f : Option Callback) (md : AttachRequestMetadata) (env : Env)
    (c : Channel)
    → Balanced k (asks k f) c (internal_attach_in s f md env c)
unfolding internal_attach_in
internal_attach_in-Balanced k ChannelState.detaching f md env c = record {
  balance = omega (arith, waits-append k c.detached_waiters (attach_again f ∷ []));
}
internal_attach_in-Balanced k _ f md env c = start_attach-Balanced k f md env c

pub internal_attach-Balanced :
    (k : ℕ) (f : Option Callback) (md : AttachRequestMetadata) (env : Env) (c : Channel)
    → Balanced k (asks k f) c (internal_attach f md env c)
unfolding internal_attach
internal_attach-Balanced k f md env c = internal_attach_in-Balanced k c.state f md env c

attach_in-Balanced :
    (k : ℕ) (s : ChannelState) (f : Option Callback) (env : Env) (c : Channel)
    → Balanced k (asks k f) c (attach_in s f env c)
unfolding attach_in
attach_in-Balanced k ChannelState.attaching f env c = record {
  balance = omega (arith, waits-append k c.attached_waiters (waits_for f), waits-waits_for k f);
}
attach_in-Balanced k ChannelState.attached f env c = answer-Balanced k f none c
attach_in-Balanced k _ f env c = internal_attach-Balanced k f (with_reason none) env c

pub attach-Balanced :
    (k : ℕ) (f : Option Callback) (env : Env) (c : Channel)
    → Balanced k (asks k f) c (attach f env c)
unfolding attach
attach-Balanced k f env c = attach_in-Balanced k c.state f env c

pub reattach-Balanced :
    (k : ℕ) (md : AttachRequestMetadata) (env : Env) (c : Channel)
    → Balanced k 0 c (reattach_with_metadata md env c)
unfolding reattach_with_metadata
reattach-Balanced k md env c =
    if-Balanced k 0 c (can_be_reattached c.state) _ _ (internal_attach-Balanced k none md env c)
      (quietly-Balanced k c)
