-- ===== src/RealtimePresence/Runs.antt =====
-- Runs of the presence of a channel (Source/ARTRealtimePresence.m): calls of the client, and methods of
-- the channel that have it send or fail the messages which wait.
use ably_cocoa.Base.{
  ℕ, ◌+◌, ◌≡◌, not, Option, none, some, List, [], ◌∷◌, ◌++◌, Text, ltb, Bool-cases, inl, inr, arith,
}
use ably_cocoa.Types.{ChannelState, PresenceAction, ErrorInfo}
use ably_cocoa.Message.{PresenceMessage, ProtocolMessage, base_size, Payload}
use ably_cocoa.Channel.{Channel, is_active}
use ably_cocoa.Channel
use ably_cocoa.Channel.Transition.{attach}
use ably_cocoa.RealtimePresence.{
  Pending, Session, Surroundings, Result, channel_did, lacks_client_id, refuse, add_pending, added,
  publish_in, publish_presence, enter_or_update_in, enter_or_update, leave_after_checks, Operation,
  enter, update, leave, enter_client, update_client, leave_client, perform, encoded_payload,
  presence_of, acting, message_for,
}
use ably_cocoa.RealtimePresence.Answered.{
  asks, taken, held, taken-append, held-append, taken-answer, carry_out-total,
}

-- A call of the client, or a method of the channel, whatever it does.
pub data Event : Type 0 where
  performs : Operation → Surroundings → Event
  channel_does : (Channel → Channel.Result) → Event

abbrev pub happen : Event → Session → Result
happen (performs o e) s = perform o e s
happen (channel_does f) s = channel_did (f s.channel) s.presence

abbrev pub callback_of : Operation → Option ℕ
callback_of (enter d k) = k
callback_of (update d k) = k
callback_of (leave d k) = k
callback_of (enter_client c d k) = k
callback_of (update_client c d k) = k
callback_of (leave_client c d k) = k

abbrev pub run_all : List Event → Session → Result
run_all [] s = (s, [])
run_all (v ∷ vs) s =
    let (s', out) = happen v s in let (s'', out') = run_all vs s' in (s'', out ++ out')

-- How often calls with the callback `k` are made.
abbrev pub requests : ℕ → List Event → ℕ
requests k [] = 0
requests k (performs o e ∷ vs) = asks k (callback_of o) + requests k vs
requests k (channel_does f ∷ vs) = requests k vs

-- What is taken by a result, and what is held after it.
abbrev account : ℕ → Result → ℕ
account k (s, out) = taken k out + held k s.presence.pending_presence

refuse-account :
    (k : ℕ) (c : Option ℕ) (e : Option ErrorInfo) (s : Session)
    → account k (refuse c e s) ≡ asks k c + held k s.presence.pending_presence
refuse-account k c e s = omega (arith, taken-answer k c e)

channel_did-account :
    (k : ℕ) (r : Channel.Result) (p : Pending)
    → account k (channel_did r p) ≡ held k p.pending_presence
unfolding channel_did
channel_did-account k (c, out) p = carry_out-total k c.state out p

added-account :
    (k : ℕ) (pm : ProtocolMessage) (c : Option ℕ) (r : Result)
    → account k (added pm c r) ≡ asks k c + account k r
unfolding add_pending
added-account k pm c (s, out) =
    omega (arith, held-append k s.presence.pending_presence (record { msg = pm; callback = c }))

publish_in-account :
    (k : ℕ) (state : ChannelState) (pm : ProtocolMessage) (c : Option ℕ) (e : Surroundings)
    (s : Session)
    → account k (publish_in state pm c e s) ≡ asks k c + held k s.presence.pending_presence
unfolding publish_in
publish_in-account k ChannelState.initialized pm c e s =
    let r = attach none e.env s.channel in
    omega
      (arith, added-account k pm c (channel_did r s.presence), channel_did-account k r s.presence)
publish_in-account k ChannelState.detached pm c e s =
    let r = attach none e.env s.channel in
    omega
      (arith, added-account k pm c (channel_did r s.presence), channel_did-account k r s.presence)
publish_in-account k ChannelState.attaching pm c e s = omega (arith, added-account k pm c (s, []))
publish_in-account k ChannelState.attached pm c e s = omega arith
publish_in-account k ChannelState.suspended pm c e s = refuse-account k c _ s
publish_in-account k ChannelState.detaching pm c e s = refuse-account k c _ s
publish_in-account k ChannelState.failed pm c e s = refuse-account k c _ s

publish_presence-account :
    (k : ℕ) (m : PresenceMessage) (c : Option ℕ) (e : Surroundings) (s : Session)
    → account k (publish_presence m c e s) ≡ asks k c + held k s.presence.pending_presence
unfolding publish_presence
publish_presence-account k m c e s = elim (Bool-cases (lacks_client_id e m)) [
  | inl lacks ↦ rw lacks (refuse-account k c _ s)
  | inr has ↦ rw has (elim (Bool-cases (not (is_active e.env))) [
    | inl idle ↦ rw idle (refuse-account k c _ s)
    | inr up ↦ rw up (elim (Bool-cases (ltb e.max_message_size (base_size m.base))) [
      | inl big ↦ rw big (refuse-account k c _ s)
      | inr fits ↦ rw fits (
          publish_in-account k s.channel.state
            (presence_of s.channel (encoded_payload e m.payload m)) c e (acting m s))
    ])
  ])
]

enter_or_update_in-account :
    (k : ℕ) (state : ChannelState) (m : PresenceMessage) (c : Option ℕ) (e : Surroundings)
    (s : Session)
    → account k (enter_or_update_in state m c e s) ≡ asks k c + held k s.presence.pending_presence
unfolding enter_or_update_in
enter_or_update_in-account k ChannelState.detached m c e s = refuse-account k c _ s
enter_or_update_in-account k ChannelState.failed m c e s = refuse-account k c _ s
enter_or_update_in-account k _ m c e s = publish_presence-account k m c e s

enter_or_update-account :
    (k : ℕ) (a : PresenceAction) (id : Option Text) (d : Option Payload) (c : Option ℕ)
    (e : Surroundings) (s : Session)
    → account k (enter_or_update a id d c e s) ≡ asks k c + held k s.presence.pending_presence
unfolding enter_or_update
enter_or_update-account k a id d c e s =
    enter_or_update_in-account k s.channel.state (message_for a id d e) c e s

leave-account :
    (k : ℕ) (id : Option Text) (d : Option Payload) (c : Option ℕ) (e : Surroundings) (s : Session)
    → account k (leave_after_checks id d c e s) ≡ asks k c + held k s.presence.pending_presence
unfolding leave_after_checks
leave-account k id d c e s =
    publish_presence-account k (message_for PresenceAction.leave id d e) c e s

perform-account :
    (k : ℕ) (o : Operation) (e : Surroundings) (s : Session)
    → account k (perform o e s) ≡ asks k (callback_of o) + held k s.presence.pending_presence
unfolding perform
perform-account k (enter d c) e s = enter_or_update-account k PresenceAction.enter none d c e s
perform-account k (update d c) e s = enter_or_update-account k PresenceAction.update none d c e s
perform-account k (leave d c) e s = leave-account k none d c e s
perform-account k (enter_client id d c) e s =
    enter_or_update-account k PresenceAction.enter (some id) d c e s
perform-account k (update_client id d c) e s =
    enter_or_update-account k PresenceAction.update (some id) d c e s
perform-account k (leave_client id d c) e s = leave-account k (some id) d c e s

-- Over any run, the callbacks that were called, or handed to the connection with a message, and those
-- that wait with a message are together exactly the callbacks of the calls that were made and those
-- that waited before: none is lost, and none is called twice for one call.
pub run_all-answers :
    (k : ℕ) (vs : List Event) (s : Session)
    → taken k (run_all vs s).1 + held k (run_all vs s).0.presence.pending_presence
      ≡ requests k vs + held k s.presence.pending_presence
run_all-answers k [] s = omega arith
run_all-answers k (performs o e ∷ vs) s =
    let r = perform o e s in
    omega (
      arith,
      perform-account k o e s,
      run_all-answers k vs r.0,
      taken-append k r.1 (run_all vs r.0).1,
    )
run_all-answers k (channel_does f ∷ vs) s =
    let r = channel_did (f s.channel) s.presence in
    omega (
      arith,
      channel_did-account k (f s.channel) s.presence,
      run_all-answers k vs r.0,
      taken-append k r.1 (run_all vs r.0).1,
    )
