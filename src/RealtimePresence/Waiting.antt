-- ===== src/RealtimePresence/Waiting.antt =====
-- The presence messages that wait in Source/ARTRealtimePresence.m, and how they are sent or failed.
use ably_cocoa.Base.{
  ℕ, Bool, true, false, ◌&&◌, not, Option, none, some, List, [], ◌∷◌, ◌++◌, Text, if◌then◌else◌,
}
use ably_cocoa.Types.{Action, PresenceAction, ChannelState, ErrorInfo, Status, action_eq}
use ably_cocoa.Message.{Payload, ProtocolMessage}
use ably_cocoa.Channel.{Channel, Env, send_pending_presence, fail_pending_presence, is_active}
use ably_cocoa.Channel

-- A message that waits, as an ARTQueuedMessage with one callback for its status, and the callback of
-- the client that this one calls, if there is one.
pub record Held : Type 0 where
  pub msg : ProtocolMessage
  pub callback : Option ℕ

-- ARTRealtimePresenceInternal
pub record Pending : Type 0 where
  pub pending_presence : List Held
  pub last_presence_action : PresenceAction

pub record Session : Type 0 where
  pub channel : Channel
  pub presence : Pending

-- What the methods read: what the channel does, `clientId_nosync` of the authorisation, the bound of
-- ARTDefault, and the encoding of the data by the data encoder of the channel, whose error is logged.
pub record Surroundings : Type 0 where
  pub env : Env
  pub auth_client_id : Option Text
  pub max_message_size : ℕ
  pub encode : Payload → Option Payload × Option Text

-- A call of a callback, a message that is handed to the connection with a callback, and what the channel
-- does.
pub data Output : Type 0 where
  answered : ℕ → Option ErrorInfo → Output
  sent : ProtocolMessage → Option ℕ → Output
  of_channel : Channel.Output → Output

abbrev pub Result : Type 0
Result = Session × List Output

abbrev pub answer : Option ℕ → Option ErrorInfo → List Output
answer none e = []
answer (some k) e = answered k e ∷ []

abbrev pub is_attached : ChannelState → Bool
is_attached ChannelState.attached = true
is_attached _ = false

abbrev pub hold : Held → Pending → Pending
hold h p = record p { pending_presence = p.pending_presence ++ h ∷ [] }

abbrev pub also : List Output → Pending × List Output → Pending × List Output
also out (p, out') = (p, out ++ out')

-- The loop of sendPendingPresence.
unfoldable pub send_each : ChannelState → List Held → Pending → Pending × List Output
send_each s [] p = (p, [])
send_each s (h ∷ hs) p =
    let kept = send_each s hs (hold h p) in
    let gone = also (sent h.msg h.callback ∷ []) (send_each s hs p) in
    if action_eq h.msg.action Action.presence && not (is_attached s) then kept else gone

-- sendPendingPresence
unfoldable pub send_pending : ChannelState → Pending → Pending × List Output
unfolding send_each
send_pending s p = send_each s p.pending_presence (record p { pending_presence = [] })

abbrev pub fail_each : Status → List Held → List Output
fail_each status [] = []
fail_each status (h ∷ hs) = answer h.callback status.error_info ++ fail_each status hs

-- failPendingPresence:
unfoldable pub fail_pending : Status → Pending → Pending × List Output
fail_pending status p = (record p { pending_presence = [] }, fail_each status p.pending_presence)
