-- ===== src/Channel/Transition.antt =====
-- The transitions of Source/ARTRealtimeChannel.m: `transition:withMetadata:`, attaching and
-- detaching.
--
-- A transition to SUSPENDED or FAILED calls the callbacks that wait, and one of these may attach or
-- detach again, which is a transition of its own; that one goes to ATTACHING, DETACHING or DETACHED,
-- where no callbacks are called. So `transition_with` takes what is called as arguments, the inner
-- transition is `transition_with` without any, and `transition` closes the circle.
mod Entering
unfoldable pub use Entering.*
use ably_cocoa.Base.{
  ℕ, suc, ◌==◌, true, false, not, Option, none, some, List, [], ◌∷◌, ◌++◌, map, Text, codes,
  if◌then◌else◌, keep,
}
use Prim.Native.Nat.{bit_or}
use ably_cocoa.Types.{ChannelState, State, ErrorInfo, Action, channel_event}
use ably_cocoa.Types.Codes.{create_with_code}
use ably_cocoa.Message.{ProtocolMessage, new_message}
use ably_cocoa.Retry.{add_retry_attempt, channel_will_transition_to_state}
use ably_cocoa.Presence.Map.{fails_sync, in_progress}
use ably_cocoa.Channel.{
  ChannelStateChange, ChannelStateChangeMetadata, with_state, AttachRequestMetadata, with_reason,
  Callback, Waiter, call, attach_again, detach_again, forget_reconnect, Timer, reattach,
  attach_time_out, detach_time_out, Reconnect, attach_after_checks, detach_after_checks, emit, send,
  presence_event, Channel, Env, is_active, Result, ◌▷◌, quietly, outputs, answer, can_be_reattached,
}

unfoldable pub attach_message : Option Text → Channel → ProtocolMessage
attach_message serial c = record (new_message Action.attach) {
  channel = some c.name;
  channel_serial = serial;
  params = c.options.params;
  flags = if c.attach_resume then bit_or c.options.modes flag_attach_resume else c.options.modes;
}

-- The sent callback of the ATTACH message.
unfoldable pub attach_sent : Option ErrorInfo → Channel → Result
attach_sent (some e) c = quietly c
attach_sent none c = add_timers (attach_time_out ∷ []) c

abbrev pub sent_at_once : Option (Option ErrorInfo) → Channel → Result
sent_at_once none c = quietly c
sent_at_once (some e) c = attach_sent e c

unfoldable pub await_attached : Option Text → Env → Channel → Channel
await_attached serial env c =
    if env.should_queue_events then c else record (await_reconnect (attach_after_checks serial) c) {
      attached_waiters = c.attached_waiters ++ forget_reconnect c.next_reconnect ∷ [];
    }

-- attachAfterChecks:channelSerial:
unfoldable pub attach_after : Option Text → Env → Channel → Result
attach_after serial env c =
    outputs (send (attach_message serial c) ∷ []) c
    ▷ sent_at_once env.sent
    ▷ (λ d. quietly (await_attached serial env d))

unfoldable pub await_detached : Env → Channel → Channel
await_detached env c =
    if env.should_queue_events then c else record (await_reconnect detach_after_checks c) {
      detached_waiters = c.detached_waiters ++ forget_reconnect c.next_reconnect ∷ [];
    }

-- A sync that is in progress fails.
unfoldable pub stop_sync : Channel → Result
stop_sync c =
    if in_progress c.presence_map.sync_state
    then fail_sync (some (create_with_code 90000 (codes "channel is being DETACHED"))) c
    else quietly c

unfoldable pub detach_message : Channel → ProtocolMessage
detach_message c = record (new_message Action.detach) { channel = some c.name }

-- detachAfterChecks:
unfoldable pub detach_after : Env → Channel → Result
detach_after env c =
    outputs (send (detach_message c) ∷ []) c
    ▷ add_timers (detach_time_out ∷ [])
    ▷ (λ d. quietly (await_detached env d))
    ▷ stop_sync

abbrev pub waits_for : Option Callback → List Waiter
waits_for none = []
waits_for (some k) = call k ∷ []

abbrev pub state_for : Option ErrorInfo → State
state_for none = State.ok
state_for (some e) = State.error

abbrev pub attaching_metadata : AttachRequestMetadata → ChannelStateChangeMetadata
attaching_metadata md = record {
  state = state_for md.reason;
  error_info = md.reason;
  store_error_info = false;
  retry_attempt = md.retry_attempt;
}

-- What `internalAttach:metadata:` does with a connection that is active.
unfoldable pub request_attach : Option Callback → AttachRequestMetadata → Env → Channel → Result
request_attach k md env c =
    inner_transition ChannelState.attaching (attaching_metadata md) env
      (record c { attached_waiters = c.attached_waiters ++ waits_for k })
    ▷ attach_after md.channel_serial env

abbrev pub not_active : Text → Option ErrorInfo
not_active t = some (create_with_code 90000 t)

unfoldable pub inactive : Option Callback → Channel → Result
inactive k c =
    answer k (not_active (codes "Can't attach when not in an active state"))
      (record c { error_reason = none })

-- The rest of `internalAttach:metadata:`, once the channel is not detaching.
unfoldable pub start_attach : Option Callback → AttachRequestMetadata → Env → Channel → Result
unfolding inactive
start_attach k md env c =
    if is_active env
    then request_attach k md env (record c { error_reason = none })
    else inactive k c

unfoldable pub internal_attach_in :
    ChannelState → Option Callback → AttachRequestMetadata → Env → Channel → Result
internal_attach_in ChannelState.detaching k md env c =
    quietly (record c { detached_waiters = c.detached_waiters ++ attach_again k ∷ [] })
internal_attach_in _ k md env c = start_attach k md env c

-- internalAttach:metadata:
unfoldable pub internal_attach : Option Callback → AttachRequestMetadata → Env → Channel → Result
unfolding internal_attach_in
internal_attach k md env c = internal_attach_in c.state k md env c

unfoldable pub attach_in : ChannelState → Option Callback → Env → Channel → Result
attach_in ChannelState.attaching k env c =
    quietly (record c { attached_waiters = c.attached_waiters ++ waits_for k })
attach_in ChannelState.attached k env c = answer k none c
attach_in _ k env c = internal_attach k (with_reason none) env c

-- _attach:
unfoldable pub attach : Option Callback → Env → Channel → Result
unfolding attach_in
attach k env c = attach_in c.state k env c

-- reattachWithMetadata:
unfoldable pub reattach_with_metadata : AttachRequestMetadata → Env → Channel → Result
reattach_with_metadata md env c =
    if can_be_reattached c.state then internal_attach none md env c else quietly c

unfoldable pub request_detach : Option Callback → Env → Channel → Result
request_detach k env c =
    inner_transition ChannelState.detaching (with_state State.ok) env
      (record c { detached_waiters = c.detached_waiters ++ waits_for k })
    ▷ detach_after env

-- The rest of `_detach:` for a channel that is attached.
unfoldable pub start_detach : Option Callback → Env → Channel → Result
start_detach k env c =
    if is_active env
    then request_detach k env c
    else answer k (not_active (codes "Can't detach when not in an active state")) c

unfoldable pub detach_in : ChannelState → Option Callback → Env → Channel → Result
detach_in ChannelState.initialized k env c = answer k none c
detach_in ChannelState.attaching k env c =
    quietly (record c { attached_waiters = c.attached_waiters ++ detach_again k ∷ [] })
detach_in ChannelState.detaching k env c =
    quietly (record c { detached_waiters = c.detached_waiters ++ waits_for k })
detach_in ChannelState.detached k env c = answer k none c
detach_in ChannelState.suspended k env c =
    inner_transition ChannelState.detached (with_state State.ok) env c ▷ answer k none
detach_in ChannelState.failed k env c =
    answer k (some (create_with_code 90000 (codes "can't detach when in a failed state"))) c
detach_in ChannelState.attached k env c = start_detach k env c

-- _detach:
unfoldable pub detach : Option Callback → Env → Channel → Result
unfolding detach_in
detach k env c = detach_in c.state k env c

-- The block with which a detach waits for the end of an attach.
unfoldable pub detach_waited : Option Callback → Option ErrorInfo → Env → Channel → Result
detach_waited (some k) (some e) env c = answer (some k) (some e) c
detach_waited k e env c = detach k env c

unfoldable pub run : Env → Option ErrorInfo → Waiter → Channel → Result
run env e (call k) c = answer (some k) e c
run env e (attach_again k) c = attach k env c
run env e (detach_again k) c = detach_waited k e env c
run env e (forget_reconnect n) c =
    quietly (record c { reconnects = keep (λ r. not (r.0 == n)) c.reconnects })

unfoldable pub run_all : Env → Option ErrorInfo → List Waiter → Channel → Result
run_all env e [] c = quietly c
run_all env e (w ∷ ws) c = run env e w c ▷ run_all env e ws

-- `[_attachedEventEmitter emit:nil with:error]`: those that wait are called once, in the order in
-- which they came.
unfoldable pub emit_attached : Env → Call
emit_attached env e c = run_all env e c.attached_waiters (record c { attached_waiters = [] })

unfoldable pub emit_detached : Env → Call
emit_detached env e c = run_all env e c.detached_waiters (record c { detached_waiters = [] })

-- transition:withMetadata:
unfoldable pub transition : ChannelState → ChannelStateChangeMetadata → Env → Channel → Result
transition s md env c = transition_with (emit_attached env) (emit_detached env) s md env c
