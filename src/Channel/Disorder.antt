-- ===== src/Channel/Disorder.antt =====
-- An attach that waits while the channel of Source/ARTRealtimeChannel.m fails.
use ably_cocoa.Base.{
  ◌≡◌, refl, ◌∙◌, ap, sym, subst, if◌then◌else◌, true, false, Option, none, some, List, [], ◌∷◌,
  ◌++◌, map, All, inl, inr, Bool-cases, Text,
}
use ably_cocoa.Types.{ChannelState, State, ErrorInfo}
use ably_cocoa.Message.{ProtocolMessage}
use ably_cocoa.Presence.Map.{Output as PresenceOutput}
use ably_cocoa.Channel.{
  with_error, with_reason, AttachRequestMetadata, Callback, client_callback, recovery_ended, Waiter,
  call, attach_again, detach_again, forget_reconnect, Result, answer, Output, emit, presence_event,
  Channel, Env, is_active,
}
use ably_cocoa.Channel.Transition.{
  run, run_all, emit_attached, emit_detached, transition, transition_with, inner_transition, enter,
  begin, change_to, emit_change, add_timers, retry_timers, fail_sync, attach, internal_attach,
  internal_attach_in, attach_in, start_attach, request_attach, attach_after, await_attached,
  await_reconnect, sent_at_once, attach_sent, attaching_metadata, waits_for, inactive,
}
use ably_cocoa.Channel.Events.{on_error, fail_presence}
use ably_cocoa.Channel.Answers.{IsPlain}

-- The states that the events name, in order.
abbrev pub changes : List Output → List ChannelState
changes [] = []
changes (emit ch ∷ os) = ch.current ∷ changes os
changes (o ∷ os) = changes os

changes-append : (xs ys : List Output) → changes (xs ++ ys) ≡ changes xs ++ changes ys
changes-append [] ys = refl
changes-append (emit ch ∷ xs) ys = ap (λ t. ch.current ∷ t) (changes-append xs ys)
changes-append (_ ∷ xs) ys = changes-append xs ys

sent_at_once-quiet :
    (a : Option (Option ErrorInfo)) (c : Channel)
    → ((sent_at_once a c).0.state ≡ c.state) × ((sent_at_once a c).1 ≡ [])
unfolding attach_sent add_timers
sent_at_once-quiet none c = (refl, refl)
sent_at_once-quiet (some none) c = (refl, refl)
sent_at_once-quiet (some (some e)) c = (refl, refl)

await_attached-state :
    (serial : Option Text) (env : Env) (c : Channel) → (await_attached serial env c).state ≡ c.state
unfolding await_attached await_reconnect
await_attached-state serial env c = elim (Bool-cases env.should_queue_events) [
  | inl h ↦ rw h
  | inr h ↦ rw h
]

attach_after-quiet :
    (serial : Option Text) (env : Env) (c : Channel)
    → ((attach_after serial env c).0.state ≡ c.state) × (changes (attach_after serial env c).1 ≡ [])
unfolding attach_after
attach_after-quiet serial env c =
    let (s, o) = sent_at_once-quiet env.sent c in
    (
      await_attached-state serial env (sent_at_once env.sent c).0 ∙ s,
      changes-append (sent_at_once env.sent c).1 [] ∙ ap (λ t. changes t ++ []) o,
    )

-- An attach whose connection is active goes to ATTACHING at once.
request_attach-goes :
    (f : Option Callback) (md : AttachRequestMetadata) (env : Env) (c : Channel)
    → ((request_attach f md env c).0.state ≡ ChannelState.attaching)
      × (changes (request_attach f md env c).1 ≡ ChannelState.attaching ∷ [])
unfolding request_attach inner_transition transition_with enter emit_change add_timers retry_timers
    begin change_to
request_attach-goes f md env c =
    let d =
      record (begin ChannelState.attaching (attaching_metadata md)
        (record c { attached_waiters = c.attached_waiters ++ waits_for f })) { timers = [] } in
    let q = attach_after-quiet md.channel_serial env d in
    (q.0, ap (λ t. ChannelState.attaching ∷ t) q.1)

start_attach-goes :
    (f : Option Callback) (md : AttachRequestMetadata) (env : Env) (c : Channel)
    → is_active env ≡ true
    → ((start_attach f md env c).0.state ≡ ChannelState.attaching)
      × (changes (start_attach f md env c).1 ≡ ChannelState.attaching ∷ [])
unfolding start_attach
start_attach-goes f md env c a =
    subst
      (λ b.
        let r =
          if b then request_attach f md env (record c { error_reason = none }) else inactive f c in
        (r.0.state ≡ ChannelState.attaching) × (changes r.1 ≡ ChannelState.attaching ∷ []))
      (sym a) (request_attach-goes f md env (record c { error_reason = none }))

changes-presence_events : (os : List PresenceOutput) → changes (map presence_event os) ≡ []
changes-presence_events [] = refl
changes-presence_events (o ∷ os) = changes-presence_events os

-- A call that neither changes the state nor emits an event.
record Quiet (c : Channel) (r : Result) : Type 0 where
  state : r.0.state ≡ c.state
  detached : r.0.detached_waiters ≡ c.detached_waiters
  changed : changes r.1 ≡ []

answer-Quiet : (f : Callback) (e : Option ErrorInfo) (c : Channel) → Quiet c (answer (some f) e c)
unfolding answer
answer-Quiet (client_callback j) e c = record { state = refl; detached = refl; changed = refl }
answer-Quiet recovery_ended e c = record { state = refl; detached = refl; changed = refl }

run-Quiet :
    (env : Env) (e : Option ErrorInfo) (w : Waiter) (c : Channel)
    → IsPlain w
    → Quiet c (run env e w c)
unfolding run
run-Quiet env e (call f) c h = answer-Quiet f e c
run-Quiet env e (forget_reconnect n) c h = record { state = refl; detached = refl; changed = refl }
run-Quiet env e (attach_again f) c h = elim h [ ]
run-Quiet env e (detach_again f) c h = elim h [ ]

run_all-Quiet :
    (env : Env) (e : Option ErrorInfo) (ws : List Waiter) (c : Channel)
    → All IsPlain ws
    → Quiet c (run_all env e ws c)
unfolding run_all
run_all-Quiet env e [] c h = record { state = refl; detached = refl; changed = refl }
run_all-Quiet env e (w ∷ ws) c h =
    let r = run env e w c in
    let a = run-Quiet env e w c h.0 in
    let b = run_all-Quiet env e ws r.0 h.1 in
    record {
      state = b.state ∙ a.state;
      detached = b.detached ∙ a.detached;
      changed =
          changes-append r.1 (run_all env e ws r.0).1
          ∙ ap (λ t. t ++ changes (run_all env e ws r.0).1) a.changed
          ∙ b.changed;
    }

-- The channel is ATTACHING, and has said so and no more.
abbrev Goes : Result → Type 0
Goes r = (r.0.state ≡ ChannelState.attaching) × (changes r.1 ≡ ChannelState.attaching ∷ [])

attach-failed :
    (f : Option Callback) (env : Env) (c : Channel)
    → c.state ≡ ChannelState.failed
    → attach f env c ≡ start_attach f (with_reason none) env c
unfolding attach attach_in internal_attach internal_attach_in
attach-failed f env c h = rw h refl

attach-waits :
    (f : Option Callback) (env : Env) (c : Channel)
    → c.state ≡ ChannelState.detaching
    → attach f env c
      ≡ (record c { detached_waiters = c.detached_waiters ++ attach_again f ∷ [] }, [])
unfolding attach attach_in internal_attach internal_attach_in
attach-waits f env c h = rw h refl

run_all-Goes :
    (f : Option Callback) (env : Env) (e : Option ErrorInfo) (ws : List Waiter) (c : Channel)
    → All IsPlain ws
    → is_active env ≡ true
    → c.state ≡ ChannelState.failed
    → Goes (run_all env e (ws ++ attach_again f ∷ []) c)
unfolding run_all run
run_all-Goes f env e [] c h a s =
    let (t, o) = start_attach-goes f (with_reason none) env c a in
    rw (attach-failed f env c s)
      (t, changes-append (start_attach f (with_reason none) env c).1 [] ∙ ap (λ x. x ++ []) o)
run_all-Goes f env e (w ∷ ws) c h a s =
    let r = run env e w c in
    let q = run-Quiet env e w c h.0 in
    let more = run_all env e (ws ++ attach_again f ∷ []) r.0 in
    let (t, o) = run_all-Goes f env e ws r.0 h.1 a (q.state ∙ s) in
    (t, changes-append r.1 more.1 ∙ ap (λ x. x ++ changes more.1) q.changed ∙ o)

emit_detached-Goes :
    (f : Option Callback) (env : Env) (e : Option ErrorInfo) (ws : List Waiter) (c : Channel)
    → All IsPlain ws
    → is_active env ≡ true
    → c.state ≡ ChannelState.failed
    → c.detached_waiters ≡ ws ++ attach_again f ∷ []
    → Goes (emit_detached env e c)
unfolding emit_detached
emit_detached-Goes f env e ws c h a s w =
    rw w (run_all-Goes f env e ws (record c { detached_waiters = [] }) h a s)

-- In a detaching channel whose waiters neither attach nor detach again, an attach waits. When the channel
-- then fails while the connection is active, this attach is started before the event of the failure:
-- the client sees ATTACHING and then FAILED, while the channel is ATTACHING and no timer runs, even if
-- the ATTACH was sent at once.
pub on_error-Disorder :
    (f : Option Callback) (pm : ProtocolMessage) (env later : Env) (c : Channel)
    → c.state ≡ ChannelState.detaching
    → All IsPlain c.attached_waiters
    → All IsPlain c.detached_waiters
    → is_active later ≡ true
    → let r = on_error pm later (attach f env c).0 in
      (r.0.state ≡ ChannelState.attaching)
      × (changes r.1 ≡ ChannelState.attaching ∷ ChannelState.failed ∷ [])
      × (r.0.timers ≡ [])
unfolding on_error fail_presence transition transition_with enter emit_attached emit_change
    add_timers retry_timers begin fail_sync change_to
on_error-Disorder f pm env later c s p q a =
    let d = record c { detached_waiters = c.detached_waiters ++ attach_again f ∷ [] } in
    let g = record (begin ChannelState.failed (with_error State.error pm.error) d) {
      attach_resume = false;
      attached_waiters = [];
    } in
    let r1 = run_all later pm.error c.attached_waiters g in
    let u = run_all-Quiet later pm.error c.attached_waiters g p in
    let (t, o) =
      emit_detached-Goes f later pm.error c.detached_waiters r1.0 q a u.state u.detached in
    rw (attach-waits f env c s)
      (t, simp (changes-append, u.changed, o, changes-presence_events), refl)
