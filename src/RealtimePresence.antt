-- ===== src/RealtimePresence.antt =====
-- The presence of a channel, Source/ARTRealtimePresence.m: entering, updating and leaving, and the
-- messages that wait until the channel is attached. It acts on the channel, and the channel on it.

pub mod Answered
pub mod Runs
mod Waiting
unfoldable pub use Waiting.*
use ably_cocoa.Base.{
  ℕ, Bool, true, false, ◌&&◌, ◌||◌, not, Option, none, some, List, [], ◌∷◌, ◌++◌, Text, codes,
  same_text, ltb, if◌then◌else◌, is_none,
}
use ably_cocoa.Types.{
  Action, PresenceAction, ConnectionState, ChannelState, ErrorInfo, Status, action_eq,
  channel_state_name, connection_state_eq,
}
use ably_cocoa.Types.Codes.{create_with_code}
use ably_cocoa.Message.{Payload, PresenceMessage, ProtocolMessage, new_message, base_size}
use ably_cocoa.Channel.{Channel, Env, send_pending_presence, fail_pending_presence, is_active}
use ably_cocoa.Channel
use ably_cocoa.Channel.Transition.{attach}
use ably_cocoa.Channel.Events.{invalid_state}
use ably_cocoa.Channel.Messages.{error_nosync}

-- What the channel has done, and the calls of this object that are among it. They come last of what
-- changes the state of the channel, so they see the state that it has then.
unfoldable pub carry_out : ChannelState → List Channel.Output → Pending → Pending × List Output
unfolding send_pending fail_pending
carry_out s [] p = (p, [])
carry_out s (send_pending_presence ∷ out) p =
    let (p', now) = send_pending s p in also now (carry_out s out p')
carry_out s (fail_pending_presence status ∷ out) p =
    let (p', now) = fail_pending status p in also now (carry_out s out p')
carry_out s (o ∷ out) p = also (of_channel o ∷ []) (carry_out s out p)

-- A method of the channel that has run.
unfoldable pub channel_did : Channel.Result → Pending → Result
unfolding carry_out
channel_did (c, out) p =
    let (p', out') = carry_out c.state out p in (record { channel = c; presence = p' }, out')

abbrev no_client_id : ErrorInfo
no_client_id =
    create_with_code 13 (codes "Invalid attempt to publish presence message without clientId.")

abbrev too_big : ErrorInfo
too_big = create_with_code 40009 (codes "Maximum message length exceeded.")

abbrev lacks_client_id : Surroundings → PresenceMessage → Bool
lacks_client_id e m =
    is_none m.client_id
    && connection_state_eq e.env.connection_state ConnectionState.connected
    && (is_none e.auth_client_id || same_text e.auth_client_id (some (codes "*")))

abbrev encoded_payload : Surroundings → Option Payload → PresenceMessage → PresenceMessage
encoded_payload e none m = m
encoded_payload e (some d) m = record m {
  base = record m.base { payload = (e.encode d).0; encoding = (e.encode d).1 };
}

abbrev presence_of : Channel → PresenceMessage → ProtocolMessage
presence_of c m = record (new_message Action.presence) {
  channel = some c.name;
  presence = some (m ∷ []);
}

abbrev refuse : Option ℕ → Option ErrorInfo → Session → Result
refuse k e s = (s, answer k e)

-- addPendingPresence:callback:
unfoldable pub add_pending : ProtocolMessage → Option ℕ → Session → Session
add_pending pm k s = record s { presence = hold (record { msg = pm; callback = k }) s.presence }

abbrev added : ProtocolMessage → Option ℕ → Result → Result
added pm k (s, out) = (add_pending pm k s, out)

-- The switch on the state of the channel.
unfoldable pub publish_in :
    ChannelState → ProtocolMessage → Option ℕ → Surroundings → Session → Result
unfolding add_pending channel_did
publish_in ChannelState.initialized pm k e s =
    added pm k (channel_did (attach none e.env s.channel) s.presence)
publish_in ChannelState.detached pm k e s =
    added pm k (channel_did (attach none e.env s.channel) s.presence)
publish_in ChannelState.attaching pm k e s = (add_pending pm k s, [])
publish_in ChannelState.attached pm k e s = (s, sent pm k ∷ [])
publish_in ChannelState.suspended pm k e s =
    refuse k (some (invalid_state ChannelState.suspended)) s
publish_in ChannelState.detaching pm k e s =
    refuse k (some (invalid_state ChannelState.detaching)) s
publish_in ChannelState.failed pm k e s = refuse k (some (invalid_state ChannelState.failed)) s

abbrev acting : PresenceMessage → Session → Session
acting m s = record s { presence = record s.presence { last_presence_action = m.action } }

-- publishPresence:callback:
unfoldable pub publish_presence : PresenceMessage → Option ℕ → Surroundings → Session → Result
unfolding publish_in
publish_presence m k e s =
    if lacks_client_id e m
    then refuse k (some no_client_id) s
    else if not (is_active e.env)
    then refuse k (error_nosync e.env) s
    else if ltb e.max_message_size (base_size m.base)
    then refuse k (some too_big) s
    else publish_in s.channel.state (presence_of s.channel (encoded_payload e m.payload m)) k e
        (acting m s)

abbrev message_for : PresenceAction → Option Text → Option Payload → Surroundings → PresenceMessage
message_for action client_id payload e = record {
  base = record {
    id = none;
    client_id = client_id;
    connection_id = e.env.connection_id;
    timestamp = none;
    encoding = none;
    payload = payload;
    extras = none;
  };
  action = action;
  sync_session_id = 0;
}

abbrev incompatible : ChannelState → ErrorInfo
incompatible state = create_with_code 90001 (
    codes "unable to enter presence channel (incompatible channel state: "
    ++ channel_state_name state
    ++ codes ")")

unfoldable pub enter_or_update_in :
    ChannelState → PresenceMessage → Option ℕ → Surroundings → Session → Result
unfolding publish_presence
enter_or_update_in ChannelState.detached m k e s =
    refuse k (some (incompatible ChannelState.detached)) s
enter_or_update_in ChannelState.failed m k e s =
    refuse k (some (incompatible ChannelState.failed)) s
enter_or_update_in _ m k e s = publish_presence m k e s

-- The methods of ARTRealtimePresenceProtocol that change the presence of a client.
pub data Operation : Type 0 where
  enter update leave : Option Payload → Option ℕ → Operation
  enter_client update_client leave_client : Text → Option Payload → Option ℕ → Operation

-- enterOrUpdateAfterChecks:clientId:data:callback: and leaveAfterChecks:data:callback:
unfoldable pub enter_or_update :
    PresenceAction → Option Text → Option Payload → Option ℕ → Surroundings → Session → Result
unfolding enter_or_update_in
enter_or_update action client_id d k e s =
    enter_or_update_in s.channel.state (message_for action client_id d e) k e s

unfoldable pub leave_after_checks :
    Option Text → Option Payload → Option ℕ → Surroundings → Session → Result
unfolding publish_presence
leave_after_checks client_id d k e s =
    publish_presence (message_for PresenceAction.leave client_id d e) k e s

unfoldable pub perform : Operation → Surroundings → Session → Result
unfolding enter_or_update leave_after_checks
perform (enter d k) e s = enter_or_update PresenceAction.enter none d k e s
perform (update d k) e s = enter_or_update PresenceAction.update none d k e s
perform (leave d k) e s = leave_after_checks none d k e s
perform (enter_client c d k) e s = enter_or_update PresenceAction.enter (some c) d k e s
perform (update_client c d k) e s = enter_or_update PresenceAction.update (some c) d k e s
perform (leave_client c d k) e s = leave_after_checks (some c) d k e s
