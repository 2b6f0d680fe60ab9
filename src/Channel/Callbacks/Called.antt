-- ===== src/Channel/Callbacks/Called.antt =====
-- What deadlines, the connection, the client's calls and the messages that arrive do with the callbacks
-- of the client of Source/ARTRealtimeChannel.m.
use ably_cocoa.Base.{
  ℕ, refl, Bool, true, false, ◌&&◌, Option, none, some, List, [], ◌∷◌, arith, ◌==◌, is_none,
}
use ably_cocoa.Types.{ChannelState, ErrorInfo}
use ably_cocoa.Message.{ProtocolMessage}
use ably_cocoa.Presence.Map.{PresenceMap}
use ably_cocoa.Channel.{
  ChannelOptions, Callback, Timer, reattach, attach_time_out, detach_time_out, Reconnect,
  attach_after_checks, detach_after_checks, Channel, Env, Result, quietly,
}
use ably_cocoa.Channel.Transition.{emit_detached}
use ably_cocoa.Channel.Events.{
  time_out, run_reconnect, run_reconnects, connected, reattach_in, set_options, subscribe_in,
  subscribe, not_subscribed,
}
use ably_cocoa.Channel.Callbacks.{
  asks, Balanced, ▷-then, quietly-Balanced, answer-Balanced, if-Balanced, same-Balanced,
}
use ably_cocoa.Channel.Callbacks.Attaching.{
  emit_change-Balanced, internal_attach-Balanced, attach-Balanced, reattach-Balanced,
  attach_after-Balanced, detach_after-Balanced,
}
use ably_cocoa.Channel.Callbacks.Detaching.{emit_detached-Balanced, transition-Balanced}
use ably_cocoa.Base.{suc, Text}
use ably_cocoa.Types.{Action}
use ably_cocoa.Message.{Message, PresenceMessage, items}
use ably_cocoa.Presence.Map.{add, in_progress}
use ably_cocoa.Channel.{recovery_ended}
use ably_cocoa.Channel.Messages.{
  start_decode_failure_recovery, report_decode_error, Decoded, decoded, reported, undecodable,
  decode_message, deliver, deliver_all, deliver_decoded, is_incompatible, on_message, add_presence,
  take_presence, add_presences, on_presence, sync_presences, finish_sync_message, on_sync,
  on_channel_message, is_last_channel_serial, on_action,
}
use ably_cocoa.Channel.Callbacks.Handled.{
  IsFair, ▷?-IsFair, |?-IsFair, >>?-IsFair, if-IsFair, start_sync_of-Balanced, end_sync_of-IsFair,
  set_attached-IsFair, set_suspended-Balanced, set_detached-Balanced, on_error-Balanced,
}

pub time_out-Balanced :
    (k : ℕ) (t : Timer) (env : Env) (c : Channel) → Balanced k 0 c (time_out t env c)
unfolding time_out
time_out-Balanced k (reattach a) env c = reattach-Balanced k _ env c
time_out-Balanced k attach_time_out env c = set_suspended-Balanced k _ env c
time_out-Balanced k detach_time_out env c =
    ▷-then k 0 c _ (emit_detached env _) (transition-Balanced k ChannelState.attached _ env c)
      (emit_detached-Balanced k env _)

run_reconnects-Balanced :
    (k : ℕ) (env : Env) (rs : List (ℕ × Reconnect)) (c : Channel)
    → Balanced k 0 c (run_reconnects env rs c)
unfolding run_reconnects run_reconnect
run_reconnects-Balanced k env [] c = quietly-Balanced k c
run_reconnects-Balanced k env ((n, attach_after_checks serial) ∷ rs) c =
    ▷-then k 0 c _ (run_reconnects env rs) (attach_after-Balanced k serial env c)
      (run_reconnects-Balanced k env rs)
run_reconnects-Balanced k env ((n, detach_after_checks) ∷ rs) c =
    ▷-then k 0 c _ (run_reconnects env rs) (detach_after-Balanced k env c)
      (run_reconnects-Balanced k env rs)

pub connected-Balanced : (k : ℕ) (env : Env) (c : Channel) → Balanced k 0 c (connected env c)
unfolding connected
connected-Balanced k env c =
    same-Balanced k 0 c _ _ refl (run_reconnects-Balanced k env c.reconnects _)

reattach_in-Balanced :
    (k : ℕ) (s : ChannelState) (f : Option Callback) (env : Env) (c : Channel)
    → Balanced k (asks k f) c (reattach_in s f env c)
unfolding reattach_in
reattach_in-Balanced k ChannelState.attached f env c = internal_attach-Balanced k f _ env c
reattach_in-Balanced k ChannelState.attaching f env c = internal_attach-Balanced k f _ env c
reattach_in-Balanced k _ f env c = answer-Balanced k f none c

pub set_options-Balanced :
    (k : ℕ) (o : ChannelOptions) (f : Option Callback) (env : Env) (c : Channel)
    → Balanced k (asks k f) c (set_options o f env c)
unfolding set_options
set_options-Balanced k o f env c =
    let d = record c { options = o } in
    if-Balanced k (asks k f) c (o.modes == 0 && is_none o.params) _ _
      (same-Balanced k (asks k f) c d _ refl (answer-Balanced k f none d))
      (same-Balanced k (asks k f) c d _ refl (reattach_in-Balanced k c.state f env d))

pub subscribe-Balanced :
    (k : ℕ) (f : Option Callback) (env : Env) (c : Channel)
    → Balanced k (asks k f) c (subscribe f env c)
unfolding subscribe
subscribe-Balanced k f env c = by_state c.state
  where
    by_state : (s : ChannelState) → Balanced k (asks k f) c (subscribe_in s f env c)
    by_state ChannelState.failed = answer-Balanced k f not_subscribed c
    by_state _ = attach-Balanced k f env c

recovery-Balanced :
    (k : ℕ) (serial : Option Text) (e : Option ErrorInfo) (env : Env) (c : Channel)
    → Balanced k 0 c (start_decode_failure_recovery serial e env c)
unfolding start_decode_failure_recovery
recovery-Balanced k serial e env c =
    if-Balanced k 0 c c.decode_failure_recovery_in_progress _ _ (quietly-Balanced k c)
      (same-Balanced k 0 c _ _ refl (internal_attach-Balanced k (some recovery_ended) _ env _))

report-Balanced : (k : ℕ) (e : ErrorInfo) (c : Channel) → Balanced k 0 c (report_decode_error e c)
unfolding report_decode_error
report-Balanced k e c = same-Balanced k 0 c _ _ refl (emit_change-Balanced k _ _)

deliver-Balanced :
    (k : ℕ) (pm : ProtocolMessage) (i : ℕ) (m : Message) (c : Channel)
    → Balanced k 0 c (deliver pm i m c)
unfolding deliver
deliver-Balanced k pm i m c = record { balance = omega arith }

decoded-Balanced :
    (k : ℕ) (d : Decoded) (pm : ProtocolMessage) (i : ℕ) (rest : Channel → Result) (env : Env)
    (c : Channel)
    → ((x : Channel) → Balanced k 0 x (rest x))
    → Balanced k 0 c (deliver_decoded d pm i rest env c)
unfolding deliver_decoded
decoded-Balanced k (decoded d) pm i rest env c h =
    ▷-then k 0 c _ rest (deliver-Balanced k pm i d c) h
decoded-Balanced k (reported e d) pm i rest env c h =
    ▷-then k 0 c _ rest
      (▷-then k 0 c _ (deliver pm i d) (report-Balanced k e c) (deliver-Balanced k pm i d)) h
decoded-Balanced k (undecodable e) pm i rest env c h =
    ▷-then k 0 c _ (start_decode_failure_recovery c.last_payload_channel_serial (some e) env)
      (report-Balanced k e c) (recovery-Balanced k c.last_payload_channel_serial (some e) env)

deliver_all-Balanced :
    (k : ℕ) (pm : ProtocolMessage) (i : ℕ) (ms : List Message) (env : Env) (c : Channel)
    → Balanced k 0 c (deliver_all pm i ms env c)
unfolding deliver_all
deliver_all-Balanced k pm i [] env c = record { balance = omega arith }
deliver_all-Balanced k pm i (m ∷ ms) env c =
    decoded-Balanced k (decode_message env i m) pm i (deliver_all pm (suc i) ms env) env c
      (deliver_all-Balanced k pm (suc i) ms env)

pub on_message-Balanced :
    (k : ℕ) (pm : ProtocolMessage) (env : Env) (c : Channel) → Balanced k 0 c (on_message pm env c)
unfolding on_message
on_message-Balanced k pm env c =
    if-Balanced k 0 c (is_incompatible env c (items pm.messages)) _ _
      (recovery-Balanced k _ _ env c) (deliver_all-Balanced k pm 0 (items pm.messages) env c)

add_presence-IsFair :
    (k : ℕ) (m : PresenceMessage) (env : Env) (c : Channel) → IsFair k c (add_presence m env c)
unfolding add_presence
add_presence-IsFair k m env c = from (add env.connection_id m c.presence_map)
  where
    from : (o : Option (PresenceMap × Bool)) → IsFair k c (take_presence m c o)
    from none = tt
    from (some (pm, true)) = record { balance = omega arith }
    from (some (pm, false)) = record { balance = omega arith }

add_presences-IsFair :
    (k : ℕ) (pm : ProtocolMessage) (i : ℕ) (ms : List PresenceMessage) (env : Env) (c : Channel)
    → IsFair k c (add_presences pm i ms env c)
unfolding add_presences
add_presences-IsFair k pm i [] env c = quietly-Balanced k c
add_presences-IsFair k pm i (m ∷ ms) env c =
    >>?-IsFair k c _ (add_presences pm (suc i) ms env) (add_presence-IsFair k _ env c)
      (add_presences-IsFair k pm (suc i) ms env)

sync_presences-IsFair :
    (k : ℕ) (ms : List PresenceMessage) (env : Env) (c : Channel)
    → IsFair k c (sync_presences ms env c)
unfolding sync_presences
sync_presences-IsFair k [] env c = quietly-Balanced k c
sync_presences-IsFair k (m ∷ ms) env c =
    >>?-IsFair k c _ (sync_presences ms env) (add_presence-IsFair k m env c)
      (sync_presences-IsFair k ms env)

finish_sync_message-IsFair :
    (k : ℕ) (pm : ProtocolMessage) (env : Env) (c : Channel)
    → IsFair k c (finish_sync_message pm env c)
unfolding finish_sync_message
finish_sync_message-IsFair k pm env c =
    if-IsFair k c (is_last_channel_serial pm.channel_serial) _ _
      (|?-IsFair k c _ (λ d. quietly (record d { sync_channel_serial = none }))
        (end_sync_of-IsFair k env c) (λ d. record { balance = omega arith }))
      (quietly-Balanced k c)

on_sync-IsFair :
    (k : ℕ) (pm : ProtocolMessage) (env : Env) (c : Channel) → IsFair k c (on_sync pm env c)
unfolding on_sync
on_sync-IsFair k pm env c =
    >>?-IsFair k c _ (finish_sync_message pm env)
      (▷?-IsFair k c _ (sync_presences (items pm.presence) env)
        (if-Balanced k 0 c (in_progress c.presence_map.sync_state) _ _
          (same-Balanced k 0 c _ _ refl (quietly-Balanced k _))
          (same-Balanced k 0 c _ _ refl (start_sync_of-Balanced k _)))
        (sync_presences-IsFair k (items pm.presence) env))
      (finish_sync_message-IsFair k pm env)

on_action-IsFair :
    (k : ℕ) (a : Action) (pm : ProtocolMessage) (env : Env) (c : Channel)
    → IsFair k c (on_action a pm env c)
unfolding on_action on_presence
on_action-IsFair k Action.attached pm env c = set_attached-IsFair k pm env c
on_action-IsFair k Action.detach pm env c = set_detached-Balanced k pm env c
on_action-IsFair k Action.detached pm env c = set_detached-Balanced k pm env c
on_action-IsFair k Action.message pm env c =
    if-Balanced k 0 c c.decode_failure_recovery_in_progress _ _ (quietly-Balanced k c)
      (on_message-Balanced k pm env c)
on_action-IsFair k Action.presence pm env c = add_presences-IsFair k pm 0 (items pm.presence) env c
on_action-IsFair k Action.error pm env c = on_error-Balanced k pm env c
on_action-IsFair k Action.sync pm env c = on_sync-IsFair k pm env c
on_action-IsFair k _ pm env c = quietly-Balanced k c

pub on_channel_message-IsFair :
    (k : ℕ) (pm : ProtocolMessage) (env : Env) (c : Channel)
    → IsFair k c (on_channel_message pm env c)
unfolding on_channel_message
on_channel_message-IsFair k pm env c = on_action-IsFair k pm.action pm env c
