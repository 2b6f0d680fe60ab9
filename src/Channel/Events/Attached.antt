-- ===== src/Channel/Events/Attached.antt =====
-- What an ATTACHED message does to a channel of Source/ARTRealtimeChannel.m.
use ably_cocoa.Base.{
  ℕ, ◌==◌, Bool, not, ◌&&◌, ◌||◌, Option, none, some, List, [], ◌∷◌, if◌then◌else◌, is_some, length,
  ltb,
}
use Prim.Native.Nat.{bit_and}
use ably_cocoa.Types.{ChannelState, ChannelEvent, State, ErrorInfo}
use ably_cocoa.Message.{ProtocolMessage}
use ably_cocoa.Presence.Map.{start_sync, end_sync, removed_member, reenter_member}
use ably_cocoa.Presence.Map.{Output as PresenceOutput}
use ably_cocoa.Types.{PresenceAction}
use ably_cocoa.Channel.{
  ChannelStateChangeMetadata, with_state, with_error, Output, presence, presence_event,
  send_pending_presence, enter_client, Channel, Env, Result, ◌▷◌, ◌▷?◌, ◌|?◌, quietly, outputs,
}
use ably_cocoa.Channel.Transition.{transition, emit_change, emit_attached}

-- The flags of an ATTACHED message.
abbrev pub has_flag : ℕ → ProtocolMessage → Bool
has_flag f pm = not (bit_and pm.flags f == 0)

-- hasPresence
abbrev pub has_presence : ProtocolMessage → Bool
has_presence pm = has_flag 1 pm

-- resumed
abbrev pub resumed : ProtocolMessage → Bool
resumed pm = has_flag 4 pm

-- What the channel does as the delegate of the map: a member that is gone leaves now, with no id, and a
-- local member that is missed is entered again.
unfoldable pub as_delegate : ℕ → PresenceOutput → Output
as_delegate now (removed_member m) = presence (record m {
  base = record m.base { id = none; timestamp = some now };
  action = PresenceAction.leave;
})
as_delegate now (reenter_member m) = enter_client m
as_delegate now o = presence_event o

abbrev pub as_delegates : ℕ → List PresenceOutput → List Output
as_delegates now [] = []
as_delegates now (o ∷ os) = as_delegate now o ∷ as_delegates now os

unfoldable pub start_sync_of : Channel → Result
start_sync_of c =
    let (m, out) = start_sync c.presence_map in (record c { presence_map = m }, as_delegates 0 out)

unfoldable pub end_sync_of : Env → Channel → Option Result
end_sync_of env c = elim (end_sync env.connection_id c.presence_map) [
  | none ↦ none
  | some (m, out) ↦ some (record c { presence_map = m }, as_delegates env.now out)
]

abbrev pub has_members : Channel → Bool
has_members c = ltb 0 (length c.presence_map.members) || ltb 0 (length c.presence_map.local_members)

-- The presence map at an ATTACHED message.
unfoldable pub attached_presence : ProtocolMessage → Env → Channel → Option Result
attached_presence pm env c =
    if has_presence pm
    then some (start_sync_of c)
    else if has_members c && not (resumed pm)
    then start_sync_of c ▷? end_sync_of env
    else some (quietly c)

abbrev pub attached_metadata : Option ErrorInfo → ChannelStateChangeMetadata
attached_metadata none = with_state State.ok
attached_metadata (some e) = with_error State.error (some e)

-- An ATTACHED message for a channel that is attached is an update.
unfoldable pub update_attached : ProtocolMessage → Channel → Result
update_attached pm c =
    emit_change
      (record {
        current = c.state;
        previous = c.state;
        event = ChannelEvent.update;
        reason = pm.error;
        resumed = resumed pm;
        retry_attempt = none;
      })
      (record c { error_reason = if is_some pm.error then pm.error else c.error_reason })

unfoldable pub complete_attach_in : ChannelState → ProtocolMessage → Env → Channel → Result
complete_attach_in ChannelState.attached pm env c = update_attached pm c
complete_attach_in _ pm env c =
    transition ChannelState.attached (attached_metadata pm.error) env c
    ▷ emit_attached env none
    ▷ outputs (send_pending_presence ∷ [])

unfoldable pub complete_attach : ProtocolMessage → Env → Channel → Result
unfolding complete_attach_in
complete_attach pm env c = complete_attach_in c.state pm env c

-- setAttached:, in a state that does not ignore it.
unfoldable pub accept_attached : ProtocolMessage → Env → Channel → Option Result
accept_attached pm env c =
    quietly (record c { attach_serial = pm.channel_serial })
    ▷? attached_presence pm env
    |? complete_attach pm env

unfoldable pub set_attached_in : ChannelState → ProtocolMessage → Env → Channel → Option Result
set_attached_in ChannelState.detaching pm env c = some (quietly c)
set_attached_in ChannelState.failed pm env c = some (quietly c)
set_attached_in _ pm env c = accept_attached pm env c

-- setAttached:
unfoldable pub set_attached : ProtocolMessage → Env → Channel → Option Result
unfolding set_attached_in
set_attached pm env c = set_attached_in c.state pm env c
