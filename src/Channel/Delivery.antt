-- ===== src/Channel/Delivery.antt =====
-- Which messages `onMessage:` of Source/ARTRealtimeChannel.m delivers.
use ably_cocoa.Base.{
  ℕ, suc, ◌≡◌, refl, ◌∙◌, ap, Bool, true, false, Option, none, some, List, [], ◌∷◌, ◌++◌, Text,
  if◌then◌else◌, inl, inr, Bool-cases,
}
use ably_cocoa.Types.{ChannelState, ErrorInfo}
use ably_cocoa.Message.{Message, ProtocolMessage, items}
use ably_cocoa.Channel.{
  Callback, recovery_ended, Output, message, Channel, Env, Result, ◌▷◌, quietly,
  AttachRequestMetadata, is_active, answer, client_callback,
}
use ably_cocoa.Channel.Transition.{
  internal_attach, internal_attach_in, start_attach, request_attach, inactive, attach_after,
  sent_at_once, attach_sent, add_timers, await_attached, inner_transition, transition_with, enter,
  emit_change, retry_timers,
}
use ably_cocoa.Channel.Messages.{
  Decoded, decoded, reported, undecodable, decode_message, deliver, deliver_decoded, deliver_all,
  report_decode_error, start_decode_failure_recovery, fill, is_incompatible, on_message,
}

-- The messages that the listeners get.
abbrev pub received : List Output → List Message
received [] = []
received (message m ∷ os) = m ∷ received os
received (o ∷ os) = received os

received-append : (xs ys : List Output) → received (xs ++ ys) ≡ received xs ++ received ys
received-append [] ys = refl
received-append (message m ∷ xs) ys = ap (λ t. m ∷ t) (received-append xs ys)
received-append (_ ∷ xs) ys = received-append xs ys

-- The messages before the first one that cannot be decoded, each as it is decoded and filled in with
-- its index in the protocol message.
abbrev pub readable_as : Decoded → ProtocolMessage → ℕ → List Message → List Message
readable_as (decoded m) pm i rest = fill pm i m ∷ rest
readable_as (reported e m) pm i rest = fill pm i m ∷ rest
readable_as (undecodable e) pm i rest = []

abbrev pub readable : Env → ProtocolMessage → ℕ → List Message → List Message
readable env pm i [] = []
readable env pm i (m ∷ ms) = readable_as (decode_message env i m) pm i (readable env pm (suc i) ms)

-- A call that delivers nothing.
abbrev IsSilent : Result → Type 0
IsSilent r = received r.1 ≡ []

▷-IsSilent :
    (r : Result) (f : Channel → Result)
    → IsSilent r
    → ((d : Channel) → IsSilent (f d))
    → IsSilent (r ▷ f)
▷-IsSilent r f h g = received-append r.1 (f r.0).1 ∙ ap (λ t. t ++ received (f r.0).1) h ∙ g r.0

sent-IsSilent : (a : Option (Option ErrorInfo)) (c : Channel) → IsSilent (sent_at_once a c)
unfolding attach_sent add_timers
sent-IsSilent none c = refl
sent-IsSilent (some none) c = refl
sent-IsSilent (some (some e)) c = refl

attach_after-IsSilent :
    (serial : Option Text) (env : Env) (c : Channel) → IsSilent (attach_after serial env c)
unfolding attach_after
attach_after-IsSilent serial env c =
    ▷-IsSilent (sent_at_once env.sent c) (λ d. quietly (await_attached serial env d))
      (sent-IsSilent env.sent c) (λ d. refl)

request_attach-IsSilent :
    (f : Option Callback) (md : AttachRequestMetadata) (env : Env) (c : Channel)
    → IsSilent (request_attach f md env c)
unfolding request_attach inner_transition transition_with enter emit_change add_timers retry_timers
request_attach-IsSilent f md env c = attach_after-IsSilent md.channel_serial env _

answer-IsSilent :
    (f : Option Callback) (e : Option ErrorInfo) (c : Channel) → IsSilent (answer f e c)
unfolding answer
answer-IsSilent none e c = refl
answer-IsSilent (some (client_callback k)) e c = refl
answer-IsSilent (some recovery_ended) e c = refl

start_attach-IsSilent :
    (f : Option Callback) (md : AttachRequestMetadata) (env : Env) (c : Channel)
    → IsSilent (start_attach f md env c)
unfolding start_attach
start_attach-IsSilent f md env c = by_case (is_active env)
  where
    by_case :
        (b : Bool)
        → IsSilent
            (if b then request_attach f md env (record c { error_reason = none }) else inactive f c)
    by_case true = request_attach-IsSilent f md env (record c { error_reason = none })
    by_case false = answer-IsSilent f _ _

internal_attach-IsSilent :
    (f : Option Callback) (md : AttachRequestMetadata) (env : Env) (c : Channel)
    → IsSilent (internal_attach f md env c)
unfolding internal_attach
internal_attach-IsSilent f md env c = by_state c.state
  where
    by_state : (s : ChannelState) → IsSilent (internal_attach_in s f md env c)
    by_state ChannelState.detaching = refl
    by_state _ = start_attach-IsSilent f md env c

recovery-IsSilent :
    (serial : Option Text) (e : Option ErrorInfo) (env : Env) (c : Channel)
    → IsSilent (start_decode_failure_recovery serial e env c)
unfolding start_decode_failure_recovery
recovery-IsSilent serial e env c = elim (Bool-cases c.decode_failure_recovery_in_progress) [
  | inl h ↦ rw h
  | inr h ↦ rw h (internal_attach-IsSilent _ _ env _)
]

deliver-received :
    (pm : ProtocolMessage) (i : ℕ) (m : Message) (rest : Channel → Result) (c : Channel)
    (ms : List Message)
    → ((d : Channel) → received (rest d).1 ≡ ms)
    → received (deliver pm i m c ▷ rest).1 ≡ fill pm i m ∷ ms
unfolding deliver
deliver-received pm i m rest c ms h = ap (λ t. fill pm i m ∷ t) (h _)

decoded-received :
    (d : Decoded) (pm : ProtocolMessage) (i : ℕ) (rest : Channel → Result) (env : Env) (c : Channel)
    (ms : List Message)
    → ((x : Channel) → received (rest x).1 ≡ ms)
    → received (deliver_decoded d pm i rest env c).1 ≡ readable_as d pm i ms
unfolding deliver_decoded report_decode_error emit_change
decoded-received (decoded m) pm i rest env c ms h = deliver-received pm i m rest c ms h
decoded-received (reported e m) pm i rest env c ms h =
    deliver-received pm i m rest (report_decode_error e c).0 ms h
decoded-received (undecodable e) pm i rest env c ms h =
    recovery-IsSilent c.last_payload_channel_serial (some e) env (report_decode_error e c).0

deliver_all-received :
    (pm : ProtocolMessage) (i : ℕ) (ms : List Message) (env : Env) (c : Channel)
    → received (deliver_all pm i ms env c).1 ≡ readable env pm i ms
unfolding deliver_all
deliver_all-received pm i [] env c = refl
deliver_all-received pm i (m ∷ ms) env c =
    decoded-received (decode_message env i m) pm i (deliver_all pm (suc i) ms env) env c
      (readable env pm (suc i) ms) (deliver_all-received pm (suc i) ms env)

-- A protocol message delivers its messages in order, each as it decodes and with the id and the
-- timestamp filled in, up to the first one that cannot be decoded; and none, if the first is a delta
-- to another message than the last that was delivered.
pub on_message-received :
    (pm : ProtocolMessage) (env : Env) (c : Channel)
    → received (on_message pm env c).1 ≡ (
        if is_incompatible env c (items pm.messages)
        then []
        else readable env pm 0 (items pm.messages))
unfolding on_message
on_message-received pm env c = elim (Bool-cases (is_incompatible env c (items pm.messages))) [
  | inl h ↦ rw h (recovery-IsSilent _ _ env c)
  | inr h ↦ rw h (deliver_all-received pm 0 (items pm.messages) env c)
]
