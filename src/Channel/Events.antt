-- ===== src/Channel/Events.antt =====
-- What happens to the channel of Source/ARTRealtimeChannel.m: the messages of the server that concern
-- its state, the deadlines, the connection, and the calls of the client. `none` stands for the
-- exception that the presence map raises for a malformed id.
mod Attached
unfoldable pub use Attached.*
use ably_cocoa.Base.{
  ℕ, ◌==◌, Bool, false, not, ◌&&◌, ◌||◌, Option, none, some, List, [], ◌∷◌, ◌++◌, codes,
  if◌then◌else◌, is_none, is_some, length, ltb,
}
use Prim.Native.Nat.{bit_and}
use ably_cocoa.Types.{ChannelState, ChannelEvent, State, ErrorInfo, channel_state_name}
use ably_cocoa.Types.Codes.{create_with_code}
use ably_cocoa.Message.{ProtocolMessage}
use ably_cocoa.Presence.Map.{start_sync, end_sync, removed_member, reenter_member}
use ably_cocoa.Presence.Map.{Output as PresenceOutput}
use ably_cocoa.Types.{PresenceAction}
use ably_cocoa.Channel.{
  ChannelStateChangeMetadata, with_state, with_error, with_reason, ChannelOptions, Callback, Timer,
  reattach, attach_time_out, detach_time_out, Reconnect, attach_after_checks, detach_after_checks,
  Output, publish, refuse, presence, presence_event, fail_pending_presence, send_pending_presence,
  enter_client, Channel, Env, Result, ◌▷◌, ◌▷?◌, ◌|?◌, quietly, outputs, answer,
}
use ably_cocoa.Channel.Transition.{
  transition, emit_change, emit_attached, emit_detached, attach, attach_after, detach_after,
  internal_attach, reattach_with_metadata,
}

unfoldable pub fail_presence : ChannelStateChangeMetadata → Channel → Result
fail_presence md c =
    outputs (fail_pending_presence (record { state = md.state; error_info = md.error_info }) ∷ []) c

unfoldable pub detach_channel_in :
    ChannelState → ChannelStateChangeMetadata → Env → Channel → Result
detach_channel_in ChannelState.detached md env c = quietly c
detach_channel_in _ md env c = fail_presence md c ▷ transition ChannelState.detached md env

-- detachChannel:
unfoldable pub detach_channel : ChannelStateChangeMetadata → Env → Channel → Result
unfolding detach_channel_in
detach_channel md env c = detach_channel_in c.state md env c

-- setFailed:
unfoldable pub set_failed : ChannelStateChangeMetadata → Env → Channel → Result
set_failed md env c = fail_presence md c ▷ transition ChannelState.failed md env

-- setSuspended:
unfoldable pub set_suspended : ChannelStateChangeMetadata → Env → Channel → Result
set_suspended md env c = fail_presence md c ▷ transition ChannelState.suspended md env

abbrev pub detached_reason : Option ErrorInfo → Option ErrorInfo
detached_reason none = some (create_with_code 0 (codes "channel has detached"))
detached_reason (some e) = some e

unfoldable pub accept_detached : ProtocolMessage → Env → Channel → Result
accept_detached pm env c =
    detach_channel (with_error State.not_attached (detached_reason pm.error)) env
      (record c { attach_serial = none })
    ▷ emit_detached env none

unfoldable pub set_detached_in : ChannelState → ProtocolMessage → Env → Channel → Result
set_detached_in ChannelState.attached pm env c = reattach_with_metadata (with_reason pm.error) env c
set_detached_in ChannelState.suspended pm env c =
    reattach_with_metadata (with_reason pm.error) env c
set_detached_in ChannelState.attaching pm env c =
    set_suspended
      (record {
        state = if is_some pm.error then State.error else State.ok;
        error_info = pm.error;
        store_error_info = false;
        retry_attempt = none;
      })
      env c
set_detached_in ChannelState.failed pm env c = quietly c
set_detached_in _ pm env c = accept_detached pm env c

-- setDetached:
unfoldable pub set_detached : ProtocolMessage → Env → Channel → Result
unfolding set_detached_in
set_detached pm env c = set_detached_in c.state pm env c

-- onError:
unfoldable pub on_error : ProtocolMessage → Env → Channel → Result
on_error pm env c =
    transition ChannelState.failed (with_error State.error pm.error) env c
    ▷ fail_presence (with_error State.error pm.error)

-- The blocks of `unlessStateChangesBefore:do:`.
unfoldable pub time_out : Timer → Env → Channel → Result
time_out (reattach a) env c =
    reattach_with_metadata (record { reason = none; channel_serial = none; retry_attempt = some a })
      env c
time_out attach_time_out env c =
    set_suspended
      (with_error State.attach_timed_out (some (create_with_code 8 (codes "attach timed out")))) env
      c
time_out detach_time_out env c =
    let e = some (create_with_code 9 (codes "detach timed out")) in
    transition ChannelState.attached (with_error State.attach_timed_out e) env c
    ▷ emit_detached env e

unfoldable pub run_reconnect : Env → Reconnect → Channel → Result
run_reconnect env (attach_after_checks serial) c = attach_after serial env c
run_reconnect env detach_after_checks c = detach_after env c

unfoldable pub run_reconnects : Env → List (ℕ × Reconnect) → Channel → Result
run_reconnects env [] c = quietly c
run_reconnects env ((n, r) ∷ rs) c = run_reconnect env r c ▷ run_reconnects env rs

-- The connected event of the connection.
unfoldable pub connected : Env → Channel → Result
connected env c = run_reconnects env c.reconnects (record c { reconnects = [] })

unfoldable pub reattach_in : ChannelState → Option Callback → Env → Channel → Result
reattach_in ChannelState.attached k env c = internal_attach k (with_reason none) env c
reattach_in ChannelState.attaching k env c = internal_attach k (with_reason none) env c
reattach_in _ k env c = answer k none c

-- setOptions_nosync:callback:
unfoldable pub set_options : ChannelOptions → Option Callback → Env → Channel → Result
set_options o k env c =
    if o.modes == 0 && is_none o.params
    then answer k none (record c { options = o })
    else reattach_in c.state k env (record c { options = o })

abbrev pub not_subscribed : Option ErrorInfo
not_subscribed =
    some (create_with_code 0 (codes "attempted to subscribe while channel is in FAILED state."))

unfoldable pub subscribe_all_in : ChannelState → Option Callback → Env → Channel → Result
subscribe_all_in ChannelState.failed k env c = answer k not_subscribed c
subscribe_all_in ChannelState.initialized k env c = attach k env c
subscribe_all_in _ k env c = quietly c

-- subscribeWithAttachCallback:callback:, as far as the state goes.
unfoldable pub subscribe_all : Option Callback → Env → Channel → Result
unfolding subscribe_all_in
subscribe_all k env c = subscribe_all_in c.state k env c

unfoldable pub subscribe_in : ChannelState → Option Callback → Env → Channel → Result
subscribe_in ChannelState.failed k env c = answer k not_subscribed c
subscribe_in _ k env c = attach k env c

-- subscribe:onAttach:callback:, as far as the state goes.
unfoldable pub subscribe : Option Callback → Env → Channel → Result
unfolding subscribe_in
subscribe k env c = subscribe_in c.state k env c

abbrev pub invalid_state : ChannelState → ErrorInfo
invalid_state s =
    create_with_code 90001 (
      codes "channel operation failed (invalid channel state: "
      ++ channel_state_name s
      ++ codes ")")

unfoldable pub refused : ChannelState → Option ℕ → Channel → Result
refused s k c =
    outputs (refuse k (record { state = State.error; error_info = some (invalid_state s) }) ∷ []) c

unfoldable pub publish_in : ChannelState → ProtocolMessage → Option ℕ → Channel → Result
publish_in ChannelState.suspended pm k c = refused ChannelState.suspended k c
publish_in ChannelState.failed pm k c = refused ChannelState.failed k c
publish_in _ pm k c = outputs (publish pm k ∷ []) c

-- publishProtocolMessage:callback:
unfoldable pub publish_protocol_message : ProtocolMessage → Option ℕ → Channel → Result
publish_protocol_message pm k c = publish_in c.state pm k c
