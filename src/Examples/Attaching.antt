-- ===== src/Examples/Attaching.antt =====
-- Instances for the channel (Source/ARTRealtimeChannel.m) and the error codes.
use ably_cocoa.Base.{◌≡◌, refl, true, false, none, some, [], ◌∷◌, ◌++◌, ◌+◌, codes, pos}
use ably_cocoa.Types.{ConnectionState, ChannelState, State, Action}
use ably_cocoa.Retry.Laws.{fresh_state}
use ably_cocoa.Presence.Map.{PresenceMap}
use ably_cocoa.Presence.Map.{initialized as no_sync}
use ably_cocoa.Base.{◌==◌, if◌then◌else◌}
use ably_cocoa.Message.{ProtocolMessage}
use ably_cocoa.Channel.Messages.{on_message, fill, decode_message, is_incompatible}
use ably_cocoa.Channel.Delivery.{received, on_message-received}
use ably_cocoa.Examples.{message, protocol_message, failure, absent_member}
use ably_cocoa.Channel.{
  Channel, Env, Result, with_error, client, client_callback, call, forget_reconnect,
  ChannelStateChangeMetadata,
}
use ably_cocoa.Channel.Transition.{attach}
use ably_cocoa.Channel.Events.{complete_attach, set_suspended, set_failed, detach_channel, on_error}
use ably_cocoa.Channel.Callbacks.{calls, held as held_by_channel, waits}
use ably_cocoa.Types.{PresenceAction}
use ably_cocoa.Base.{List}
use ably_cocoa.RealtimePresence.{Session, Surroundings, enter, update, leave}
use ably_cocoa.RealtimePresence.Answered.{taken, held}
use ably_cocoa.RealtimePresence.Runs.{Event, performs, channel_does, run_all, run_all-answers}
use ably_cocoa.Channel.Reachable.{
  Steps, here, then_step, attaches, is_suspended, asked, Steps-Balanced,
}
use ably_cocoa.Channel.Answers.{IsAnswered, attach-IsAnswered, detach_channel-IsUnanswered}
use ably_cocoa.Channel.Disorder.{changes, on_error-Disorder}

abbrev no_members : PresenceMap
no_members = record {
  sync_state = no_sync;
  sync_session_id = 0;
  members = [];
  local_members = [];
  store = λ r. absent_member;
  fresh = 0;
}

abbrev fresh : Channel
fresh = record {
  name = codes "c";
  state = ChannelState.initialized;
  error_reason = none;
  options = record { params = none; modes = 0 };
  attach_serial = none;
  presence_map = no_members;
  sync_msg_serial = pos 0;
  sync_channel_serial = none;
  attach_resume = false;
  attach_retry_state = fresh_state 15000;
  last_payload_message_id = none;
  last_payload_channel_serial = none;
  decode_failure_recovery_in_progress = false;
  attached_waiters = [];
  detached_waiters = [];
  reconnects = [];
  next_reconnect = 0;
  timers = [];
}

-- A connection that is up and sends at once.
abbrev env : Env
env = record {
  now = 7;
  draw = 0;
  should_send_events = true;
  should_queue_events = false;
  sent = some none;
  connection_id = some (codes "x");
  client_id = none;
  connection_state = ConnectionState.connected;
  connection_error_reason = none;
  decode = λ i m. (m, none);
  decode_presence = λ m. m;
  delta_from = λ m. none;
  description = λ m. [];
}

abbrev denied : ChannelStateChangeMetadata
denied = with_error State.error (some failure)

abbrev requested : Result
requested = attach (client (some 1)) env fresh

abbrev suspended : Result
suspended = set_suspended denied env requested.0

-- Attached by the client with the callback 1, and suspended.
abbrev run : Steps fresh (none ∷ some 1 ∷ []) (([] ++ requested.1) ++ suspended.1) suspended.0
run =
    then_step none suspended (then_step (some 1) requested here (attaches (some 1) env))
      (is_suspended denied env)

Steps-Balanced_example :
    calls 1 (([] ++ requested.1) ++ suspended.1) + held_by_channel 1 suspended.0
    ≡ held_by_channel 1 fresh + asked 1 (none ∷ some 1 ∷ [])
Steps-Balanced_example = Steps-Balanced 1 fresh suspended.0 _ _ run

abbrev waiting : Channel
waiting = record fresh {
  state = ChannelState.attaching;
  attached_waiters = call (client_callback 1) ∷ call (client_callback 2) ∷ [];
}

attach-IsAnswered_example :
    IsAnswered 2
      (waits 2 waiting.attached_waiters)
      (complete_attach (protocol_message Action.attached none) env waiting)
    × IsAnswered 2 (waits 2 waiting.attached_waiters) (set_suspended denied env waiting)
    × IsAnswered 2 (held_by_channel 2 waiting) (set_failed denied env waiting)
attach-IsAnswered_example =
    attach-IsAnswered 2 (protocol_message Action.attached none) denied env waiting refl
      (tt, (tt, tt)) tt

detach_channel-IsUnanswered_example :
    (calls 2 (detach_channel denied env waiting).1 ≡ 0)
    × ((detach_channel denied env waiting).0.state ≡ ChannelState.detached)
    × ((detach_channel denied env waiting).0.attached_waiters ≡ waiting.attached_waiters)
    × ((detach_channel denied env waiting).0.detached_waiters ≡ [])
detach_channel-IsUnanswered_example = detach_channel-IsUnanswered 2 denied env waiting

-- The client detaches the channel and attaches it again, and the server answers with an error.
abbrev detaching : Channel
detaching = record fresh {
  state = ChannelState.detaching;
  detached_waiters = call (client_callback 1) ∷ forget_reconnect 0 ∷ [];
}

abbrev rejected : Result
rejected =
    on_error (protocol_message Action.error none) env (attach (client (some 2)) env detaching).0

on_error-Disorder_example :
    (rejected.0.state ≡ ChannelState.attaching)
    × (changes rejected.1 ≡ ChannelState.attaching ∷ ChannelState.failed ∷ [])
    × (rejected.0.timers ≡ [])
on_error-Disorder_example =
    on_error-Disorder (client (some 2)) (protocol_message Action.error none) env env detaching refl
      tt (tt, (tt, tt)) refl

-- The second message cannot be decoded, so the third is not delivered.
abbrev garbled : Env
garbled = record env { decode = λ i m. (m, if i == 1 then some (40018, codes "vcdiff") else none) }

abbrev three : ProtocolMessage
three =
    protocol_message Action.message
      (some (message (codes "a") ∷ message (codes "b") ∷ message (codes "c") ∷ []))

on_message-received_example :
    received (on_message three garbled waiting).1 ≡ fill three 0 (message (codes "a")) ∷ []
unfolding decode_message is_incompatible
on_message-received_example = on_message-received three garbled waiting

-- A client enters while the channel is not attached, the channel is attached, the client updates its
-- data, and leaves when the channel has failed.
abbrev around : Surroundings
around = record {
  env = env;
  auth_client_id = some (codes "me");
  max_message_size = 65536;
  encode = λ d. (some d, none);
}

abbrev outside : Session
outside = record {
  channel = fresh;
  presence = record { pending_presence = []; last_presence_action = PresenceAction.absent };
}

abbrev visit : List Event
visit =
    performs (enter none (some 5)) around
    ∷ channel_does (complete_attach (protocol_message Action.attached none) env)
    ∷ performs (update none (some 6)) around
    ∷ channel_does (set_failed (with_error State.error (some failure)) env)
    ∷ performs (leave none (some 5)) around
    ∷ []

run_all-answers_example :
    taken 5 (run_all visit outside).1 + held 5 (run_all visit outside).0.presence.pending_presence
    ≡ 2
run_all-answers_example = run_all-answers 5 visit outside
