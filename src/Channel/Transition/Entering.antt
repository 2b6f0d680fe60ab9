-- ===== src/Channel/Transition/Entering.antt =====
-- The states that a channel of Source/ARTRealtimeChannel.m enters, and what waits there.
use ably_cocoa.Base.{ℕ, suc, true, false, Option, List, [], ◌∷◌, ◌++◌, map, if◌then◌else◌}
use ably_cocoa.Types.{ChannelState, ErrorInfo, channel_event}
use ably_cocoa.Retry.{add_retry_attempt, channel_will_transition_to_state}
use ably_cocoa.Presence.Map.{fails_sync}
use ably_cocoa.Channel.{
  ChannelStateChange, ChannelStateChangeMetadata, Timer, reattach, Reconnect, emit, presence_event,
  Channel, Env, Result, ◌▷◌, quietly,
}

-- `failsSync:` of the presence map
unfoldable pub fail_sync : Option ErrorInfo → Channel → Result
fail_sync e c =
    let (m, out) = fails_sync e c.presence_map in
    (record c { presence_map = m }, map presence_event out)

-- `emit:with:`: the listeners, and the internal emitter, where any event cancels the timers.
unfoldable pub emit_change : ChannelStateChange → Channel → Result
emit_change ch c = (record c { timers = [] }, emit ch ∷ [])

unfoldable pub add_timers : List Timer → Channel → Result
add_timers ts c = quietly (record c { timers = c.timers ++ ts })

-- The retry of a suspended channel, whose timer starts after the event.
unfoldable pub retry_timers : ChannelState → Env → Channel → List Timer
retry_timers ChannelState.suspended env c =
    if env.should_send_events
    then reattach (add_retry_attempt env.draw c.attach_retry_state).1 ∷ []
    else []
retry_timers _ env c = []

-- What calls the listeners of an emitter.
abbrev pub Call : Type 0
Call = Option ErrorInfo → Channel → Result

abbrev pub no_call : Call
no_call e c = quietly c

-- The switch of `transition:withMetadata:`.
unfoldable pub enter : Call → Call → ChannelState → Option ErrorInfo → Env → Channel → Result
enter on_attached on_detached ChannelState.attached e env c =
    quietly (record c { attach_resume = true })
enter on_attached on_detached ChannelState.suspended e env c =
    on_attached e
      (record c { attach_retry_state = (add_retry_attempt env.draw c.attach_retry_state).0 })
enter on_attached on_detached ChannelState.detaching e env c =
    quietly (record c { attach_resume = false })
enter on_attached on_detached ChannelState.detached e env c = fail_sync e c
enter on_attached on_detached ChannelState.failed e env c =
    on_attached e (record c { attach_resume = false }) ▷ on_detached e ▷ fail_sync e
enter on_attached on_detached _ e env c = quietly c

unfoldable pub change_to : ChannelState → ChannelStateChangeMetadata → Channel → ChannelStateChange
change_to s md c = record {
  current = s;
  previous = c.state;
  event = channel_event s;
  reason = md.error_info;
  resumed = false;
  retry_attempt = md.retry_attempt;
}

-- The state, the error and the retries, before the switch.
unfoldable pub begin : ChannelState → ChannelStateChangeMetadata → Channel → Channel
begin s md c = record c {
  state = s;
  error_reason = if md.store_error_info then md.error_info else c.error_reason;
  attach_retry_state = channel_will_transition_to_state s c.attach_retry_state;
}

-- transition:withMetadata:, for given calls of the listeners.
unfoldable pub transition_with :
    Call → Call → ChannelState → ChannelStateChangeMetadata → Env → Channel → Result
transition_with on_attached on_detached s md env c =
    let d = begin s md c in
    enter on_attached on_detached s md.error_info env d
    ▷ emit_change (change_to s md c)
    ▷ add_timers (retry_timers s env d)

unfoldable pub inner_transition : ChannelState → ChannelStateChangeMetadata → Env → Channel → Result
inner_transition s md env c = transition_with no_call no_call s md env c

-- A block for `connectedEventEmitter`, if the connection does not queue; it is dropped when the
-- attach or the detach ends.
unfoldable pub await_reconnect : Reconnect → Channel → Channel
await_reconnect r c = record c {
  reconnects = c.reconnects ++ (c.next_reconnect, r) ∷ [];
  next_reconnect = suc c.next_reconnect;
}

-- ARTProtocolMessageFlagAttachResume
abbrev pub flag_attach_resume : ℕ
flag_attach_resume = 32
