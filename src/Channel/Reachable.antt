-- ===== src/Channel/Reachable.antt =====
-- The runs of the channel of Source/ARTRealtimeChannel.m, and what they do with callbacks.
use ably_cocoa.Base.{ℕ, ◌+◌, ◌≡◌, subst, Option, none, some, List, [], ◌∷◌, ◌++◌, arith}
use ably_cocoa.Types.{ChannelState, ErrorInfo}
use ably_cocoa.Message.{ProtocolMessage}
use ably_cocoa.Channel.{
  ChannelStateChangeMetadata, AttachRequestMetadata, ChannelOptions, client, Timer, Output, Channel,
  Env, Result, answer,
}
use ably_cocoa.Channel.Transition.{attach, detach, attach_sent, reattach_with_metadata}
use ably_cocoa.Channel.Events.{
  subscribe, subscribe_all, subscribe_all_in, set_options, time_out, connected, detach_channel,
  set_failed, set_suspended,
}
use ably_cocoa.Channel.Messages.{on_channel_message}
use ably_cocoa.Channel.Callbacks.{asks, calls, held, Balanced, calls-append, quietly-Balanced}
use ably_cocoa.Channel.Callbacks.Attaching.{attach-Balanced, reattach-Balanced, add_timers-Balanced}
use ably_cocoa.Channel.Callbacks.Detaching.{detach-Balanced}
use ably_cocoa.Channel.Callbacks.Handled.{
  IsFair, detach_channel-Balanced, set_failed-Balanced, set_suspended-Balanced,
}
use ably_cocoa.Channel.Callbacks.Called.{
  subscribe-Balanced, set_options-Balanced, time_out-Balanced, connected-Balanced,
  on_channel_message-IsFair,
}

-- What happens to a channel, with the callback that the client passes in: a call of the client, a
-- message of the server, the sending of an ATTACH, a deadline, or a call of the connection.
pub data Step (c : Channel) : Option ℕ → Result → Type 0 where
  attaches : (f : Option ℕ) (env : Env) → Step c f (attach (client f) env c)
  detaches : (f : Option ℕ) (env : Env) → Step c f (detach (client f) env c)
  subscribes : (f : Option ℕ) (env : Env) → Step c f (subscribe (client f) env c)
  subscribes_all : (env : Env) → Step c none (subscribe_all none env c)
  sets_options :
      (o : ChannelOptions) (f : Option ℕ) (env : Env) → Step c f (set_options o (client f) env c)
  receives :
      (pm : ProtocolMessage) (env : Env) (r : Result)
      → on_channel_message pm env c ≡ some r
      → Step c none r
  attach_is_sent : (e : Option ErrorInfo) → Step c none (attach_sent e c)
  times_out : (t : Timer) (env : Env) → Step c none (time_out t env c)
  is_connected : (env : Env) → Step c none (connected env c)
  reattaches :
      (md : AttachRequestMetadata) (env : Env) → Step c none (reattach_with_metadata md env c)
  is_detached :
      (md : ChannelStateChangeMetadata) (env : Env) → Step c none (detach_channel md env c)
  is_suspended :
      (md : ChannelStateChangeMetadata) (env : Env) → Step c none (set_suspended md env c)
  fails : (md : ChannelStateChangeMetadata) (env : Env) → Step c none (set_failed md env c)

-- A run, with the callbacks that were passed in and all output.
pub data Steps (c : Channel) : List (Option ℕ) → List Output → Channel → Type 0 where
  here : Steps c [] [] c
  then_step :
      {fs : List (Option ℕ)} {out : List Output} {d : Channel} (f : Option ℕ) (r : Result)
      → Steps c fs out d
      → Step d f r
      → Steps c (f ∷ fs) (out ++ r.1) r.0

-- How often a number was passed in.
abbrev pub asked : ℕ → List (Option ℕ) → ℕ
asked k [] = 0
asked k (f ∷ fs) = asks k (client f) + asked k fs

attach_sent-Balanced :
    (k : ℕ) (e : Option ErrorInfo) (c : Channel) → Balanced k 0 c (attach_sent e c)
unfolding attach_sent
attach_sent-Balanced k none c = add_timers-Balanced k _ c
attach_sent-Balanced k (some e) c = quietly-Balanced k c

subscribe_all-Balanced :
    (k : ℕ) (env : Env) (c : Channel) → Balanced k 0 c (subscribe_all none env c)
unfolding subscribe_all answer
subscribe_all-Balanced k env c = by_state c.state
  where
    by_state : (s : ChannelState) → Balanced k 0 c (subscribe_all_in s none env c)
    by_state ChannelState.failed = quietly-Balanced k c
    by_state ChannelState.initialized = attach-Balanced k none env c
    by_state _ = quietly-Balanced k c

pub Step-Balanced :
    (k : ℕ) (c : Channel) (f : Option ℕ) (r : Result)
    → Step c f r
    → Balanced k (asks k (client f)) c r
Step-Balanced k c f r (attaches _ env) = attach-Balanced k (client f) env c
Step-Balanced k c f r (detaches _ env) = detach-Balanced k (client f) env c
Step-Balanced k c f r (subscribes _ env) = subscribe-Balanced k (client f) env c
Step-Balanced k c f r (subscribes_all env) = subscribe_all-Balanced k env c
Step-Balanced k c f r (sets_options o _ env) = set_options-Balanced k o (client f) env c
Step-Balanced k c f r (receives pm env _ e) =
    subst (IsFair k c) e (on_channel_message-IsFair k pm env c)
Step-Balanced k c f r (attach_is_sent e) = attach_sent-Balanced k e c
Step-Balanced k c f r (times_out t env) = time_out-Balanced k t env c
Step-Balanced k c f r (is_connected env) = connected-Balanced k env c
Step-Balanced k c f r (reattaches md env) = reattach-Balanced k md env c
Step-Balanced k c f r (is_detached md env) = detach_channel-Balanced k md env c
Step-Balanced k c f r (is_suspended md env) = set_suspended-Balanced k md env c
Step-Balanced k c f r (fails md env) = set_failed-Balanced k md env c

-- No callback of an attach, a detach, a subscription by name or a change of the options is lost or
-- called twice: whatever happens to a channel, the calls of the callback with a number, and those of
-- its occurrences that still wait, are together as many as waited at first and were passed in.
pub Steps-Balanced :
    (k : ℕ) (c d : Channel) (fs : List (Option ℕ)) (out : List Output)
    → Steps c fs out d
    → calls k out + held k d ≡ held k c + asked k fs
Steps-Balanced k c d fs out here = omega arith
Steps-Balanced k c d fs out (then_step {fs = gs} {out = o} {d = e} f r s st) =
    let b = Step-Balanced k e f r st in
    omega (arith, Steps-Balanced k c e gs o s, b.balance, calls-append k o r.1)
