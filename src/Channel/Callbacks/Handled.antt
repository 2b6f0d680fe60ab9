-- ===== src/Channel/Callbacks/Handled.antt =====
-- What the handlers of Source/ARTRealtimeChannel.m do with the callbacks of the client: those of the
-- server's messages about the state, of the deadlines, of the connection and of the options.
use ably_cocoa.Base.{
  ℕ, ◌≡◌, refl, Bool, true, false, not, ◌&&◌, Option, none, some, List, [], ◌∷◌, arith,
  if◌then◌else◌,
}
use ably_cocoa.Types.{ChannelState, State}
use ably_cocoa.Message.{ProtocolMessage}
use ably_cocoa.Presence.Map.{removed_member, reenter_member, start_sync, end_sync}
use ably_cocoa.Presence.Map.{Output as PresenceOutput}
use ably_cocoa.Presence.Map.{sync_started, sync_ended, sync_failed, PresenceMap}
use ably_cocoa.Channel.{
  ChannelStateChangeMetadata, with_error, Channel, Env, after, Result, ◌▷◌, ◌▷?◌, ◌|?◌, ◌>>?◌,
  quietly, outputs, send_pending_presence,
}
use ably_cocoa.Channel.Transition.{transition, emit_attached, emit_detached}
use ably_cocoa.Channel.Events.{
  as_delegate, as_delegates, start_sync_of, end_sync_of, has_presence, has_members, resumed,
  attached_presence, attached_metadata, update_attached, complete_attach_in, complete_attach,
  accept_attached, set_attached_in, set_attached, fail_presence, detach_channel_in, detach_channel,
  set_failed, set_suspended, accept_detached, set_detached_in, set_detached, on_error,
}
use ably_cocoa.Channel.Callbacks.{
  calls, Balanced, ▷-then, quietly-Balanced, same-Balanced, calls-append,
}
use ably_cocoa.Channel.Callbacks.Attaching.{emit_change-Balanced, reattach-Balanced}
use ably_cocoa.Channel.Callbacks.Detaching.{
  emit_attached-Balanced, emit_detached-Balanced, transition-Balanced,
}

-- The balance of a call that may raise.
abbrev pub IsFair : ℕ → Channel → Option Result → Type 0
IsFair k c none = Unit {0}
IsFair k c (some r) = Balanced k 0 c r

pub ▷?-IsFair :
    (k : ℕ) (c : Channel) (r : Result) (f : Channel → Option Result)
    → Balanced k 0 c r
    → ((d : Channel) → IsFair k d (f d))
    → IsFair k c (r ▷? f)
▷?-IsFair k c r f b h = from (f r.0) (h r.0)
  where
    from : (o : Option Result) → IsFair k r.0 o → IsFair k c (after r.1 o)
    from none u = tt
    from (some q) u = record {
      balance = omega (arith, b.balance, u.balance, calls-append k r.1 q.1);
    }

pub if-IsFair :
    (k : ℕ) (c : Channel) (b : Bool) (x y : Option Result)
    → IsFair k c x
    → IsFair k c y
    → IsFair k c (if b then x else y)
if-IsFair k c true x y p q = p
if-IsFair k c false x y p q = q

pub |?-IsFair :
    (k : ℕ) (c : Channel) (o : Option Result) (f : Channel → Result)
    → IsFair k c o
    → ((d : Channel) → Balanced k 0 d (f d))
    → IsFair k c (o |? f)
|?-IsFair k c none f u h = tt
|?-IsFair k c (some r) f u h = ▷-then k 0 c r f u h

pub >>?-IsFair :
    (k : ℕ) (c : Channel) (o : Option Result) (f : Channel → Option Result)
    → IsFair k c o
    → ((d : Channel) → IsFair k d (f d))
    → IsFair k c (o >>? f)
>>?-IsFair k c none f u h = tt
>>?-IsFair k c (some r) f u h = ▷?-IsFair k c r f u h

calls-as_delegates : (k now : ℕ) (os : List PresenceOutput) → calls k (as_delegates now os) ≡ 0
unfolding as_delegate
calls-as_delegates k now [] = refl
calls-as_delegates k now (removed_member m ∷ os) = omega (arith, calls-as_delegates k now os)
calls-as_delegates k now (reenter_member m ∷ os) = omega (arith, calls-as_delegates k now os)
calls-as_delegates k now (sync_started ∷ os) = omega (arith, calls-as_delegates k now os)
calls-as_delegates k now (sync_ended ms ∷ os) = omega (arith, calls-as_delegates k now os)
calls-as_delegates k now (sync_failed e ∷ os) = omega (arith, calls-as_delegates k now os)

pub start_sync_of-Balanced : (k : ℕ) (c : Channel) → Balanced k 0 c (start_sync_of c)
unfolding start_sync_of
start_sync_of-Balanced k c = record {
  balance = omega (arith, calls-as_delegates k 0 (start_sync c.presence_map).1);
}

pub end_sync_of-IsFair : (k : ℕ) (env : Env) (c : Channel) → IsFair k c (end_sync_of env c)
unfolding end_sync_of
end_sync_of-IsFair k env c = from (end_sync env.connection_id c.presence_map) refl
  where
    from :
        (o : Option (PresenceMap × List PresenceOutput))
        → end_sync env.connection_id c.presence_map ≡ o
        → IsFair k c (end_sync_of env c)
    from none h = rw (end_sync_of, h) tt
    from (some (m, out)) h =
        rw (end_sync_of, h) (record { balance = omega (arith, calls-as_delegates k env.now out) })

attached_presence-IsFair :
    (k : ℕ) (pm : ProtocolMessage) (env : Env) (c : Channel)
    → IsFair k c (attached_presence pm env c)
unfolding attached_presence
attached_presence-IsFair k pm env c =
    if-IsFair k c (has_presence pm) _ _ (start_sync_of-Balanced k c) (
      if-IsFair k c (has_members c && not (resumed pm)) _ _
        (▷?-IsFair k c (start_sync_of c) (end_sync_of env) (start_sync_of-Balanced k c)
          (end_sync_of-IsFair k env))
        (quietly-Balanced k c))

fail_presence-Balanced :
    (k : ℕ) (md : ChannelStateChangeMetadata) (c : Channel) → Balanced k 0 c (fail_presence md c)
unfolding fail_presence
fail_presence-Balanced k md c = record { balance = omega arith }

complete_attach_in-Balanced :
    (k : ℕ) (s : ChannelState) (pm : ProtocolMessage) (env : Env) (c : Channel)
    → Balanced k 0 c (complete_attach_in s pm env c)
unfolding complete_attach_in update_attached
complete_attach_in-Balanced k ChannelState.attached pm env c =
    same-Balanced k 0 c _ _ refl (emit_change-Balanced k _ _)
complete_attach_in-Balanced k _ pm env c =
    ▷-then k 0 c _ (outputs (send_pending_presence ∷ []))
      (▷-then k 0 c _ (emit_attached env none)
        (transition-Balanced k ChannelState.attached (attached_metadata pm.error) env c)
        (emit_attached-Balanced k env none))
      (λ d. record { balance = omega arith })

accept_attached-IsFair :
    (k : ℕ) (pm : ProtocolMessage) (env : Env) (c : Channel) → IsFair k c (accept_attached pm env c)
unfolding accept_attached complete_attach
accept_attached-IsFair k pm env c =
    |?-IsFair k c _ (complete_attach pm env)
      (▷?-IsFair k c (quietly (record c { attach_serial = pm.channel_serial }))
        (attached_presence pm env) (record { balance = omega arith })
        (attached_presence-IsFair k pm env))
      (λ d. complete_attach_in-Balanced k d.state pm env d)

set_attached_in-IsFair :
    (k : ℕ) (s : ChannelState) (pm : ProtocolMessage) (env : Env) (c : Channel)
    → IsFair k c (set_attached_in s pm env c)
unfolding set_attached_in
set_attached_in-IsFair k ChannelState.detaching pm env c = quietly-Balanced k c
set_attached_in-IsFair k ChannelState.failed pm env c = quietly-Balanced k c
set_attached_in-IsFair k _ pm env c = accept_attached-IsFair k pm env c

pub set_attached-IsFair :
    (k : ℕ) (pm : ProtocolMessage) (env : Env) (c : Channel) → IsFair k c (set_attached pm env c)
unfolding set_attached
set_attached-IsFair k pm env c = set_attached_in-IsFair k c.state pm env c

-- A transition after the presence object has been told.
told-Balanced :
    (k : ℕ) (s : ChannelState) (md : ChannelStateChangeMetadata) (env : Env) (c : Channel)
    → Balanced k 0 c (fail_presence md c ▷ transition s md env)
told-Balanced k s md env c =
    ▷-then k 0 c _ (transition s md env) (fail_presence-Balanced k md c)
      (transition-Balanced k s md env)

detach_channel_in-Balanced :
    (k : ℕ) (s : ChannelState) (md : ChannelStateChangeMetadata) (env : Env) (c : Channel)
    → Balanced k 0 c (detach_channel_in s md env c)
unfolding detach_channel_in
detach_channel_in-Balanced k ChannelState.detached md env c = quietly-Balanced k c
detach_channel_in-Balanced k _ md env c = told-Balanced k ChannelState.detached md env c

pub detach_channel-Balanced :
    (k : ℕ) (md : ChannelStateChangeMetadata) (env : Env) (c : Channel)
    → Balanced k 0 c (detach_channel md env c)
unfolding detach_channel
detach_channel-Balanced k md env c = detach_channel_in-Balanced k c.state md env c

pub set_failed-Balanced :
    (k : ℕ) (md : ChannelStateChangeMetadata) (env : Env) (c : Channel)
    → Balanced k 0 c (set_failed md env c)
unfolding set_failed
set_failed-Balanced k md env c = told-Balanced k ChannelState.failed md env c

pub set_suspended-Balanced :
    (k : ℕ) (md : ChannelStateChangeMetadata) (env : Env) (c : Channel)
    → Balanced k 0 c (set_suspended md env c)
unfolding set_suspended
set_suspended-Balanced k md env c = told-Balanced k ChannelState.suspended md env c

set_detached_in-Balanced :
    (k : ℕ) (s : ChannelState) (pm : ProtocolMessage) (env : Env) (c : Channel)
    → Balanced k 0 c (set_detached_in s pm env c)
unfolding set_detached_in accept_detached
set_detached_in-Balanced k ChannelState.attached pm env c = reattach-Balanced k _ env c
set_detached_in-Balanced k ChannelState.suspended pm env c = reattach-Balanced k _ env c
set_detached_in-Balanced k ChannelState.attaching pm env c = set_suspended-Balanced k _ env c
set_detached_in-Balanced k ChannelState.failed pm env c = quietly-Balanced k c
set_detached_in-Balanced k _ pm env c =
    ▷-then k 0 c _ (emit_detached env none)
      (same-Balanced k 0 c _ _ refl (detach_channel-Balanced k _ env _))
      (emit_detached-Balanced k env none)

pub set_detached-Balanced :
    (k : ℕ) (pm : ProtocolMessage) (env : Env) (c : Channel)
    → Balanced k 0 c (set_detached pm env c)
unfolding set_detached
set_detached-Balanced k pm env c = set_detached_in-Balanced k c.state pm env c

pub on_error-Balanced :
    (k : ℕ) (pm : ProtocolMessage) (env : Env) (c : Channel) → Balanced k 0 c (on_error pm env c)
unfolding on_error
on_error-Balanced k pm env c =
    ▷-then k 0 c _ (fail_presence (with_error State.error pm.error))
      (transition-Balanced k ChannelState.failed (with_error State.error pm.error) env c)
      (fail_presence-Balanced k (with_error State.error pm.error))
