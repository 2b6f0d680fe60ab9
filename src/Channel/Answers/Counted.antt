-- ===== src/Channel/Answers/Counted.antt =====
-- How often the methods of Source/ARTRealtimeChannel.m call a callback that waits.
use ably_cocoa.Base.{ℕ, ◌+◌, ◌≡◌, refl, Option, some, List, [], ◌∷◌, arith, All}
use ably_cocoa.Types.{ErrorInfo}
use ably_cocoa.Presence.Map.{fails_sync}
use ably_cocoa.Channel.{
  Callback, client_callback, recovery_ended, Waiter, call, attach_again, detach_again,
  forget_reconnect, Channel, Env, Result, ◌▷◌, answer,
}
use ably_cocoa.Channel.Transition.{run, run_all, emit_attached, emit_detached, fail_sync}
use ably_cocoa.Channel.Callbacks.{asks, waits_in, waits, calls, calls-append, calls-presence_events}

-- A waiter that is only called: it does not attach or detach again.
abbrev pub IsPlain : Waiter → Type 0
IsPlain (call f) = Unit {0}
IsPlain (forget_reconnect n) = Unit {0}
IsPlain (attach_again f) = ⊥
IsPlain (detach_again f) = ⊥

-- A call that calls `n` callbacks with number `k`, and leaves the waiters alone.
pub record Answers (k n : ℕ) (c : Channel) (r : Result) : Type 0 where
  pub called : calls k r.1 ≡ n
  pub attached : r.0.attached_waiters ≡ c.attached_waiters
  pub detached : r.0.detached_waiters ≡ c.detached_waiters

pub ▷-Answers :
    (k m n : ℕ) (c : Channel) (r : Result) (f : Channel → Result)
    → Answers k m c r
    → ((d : Channel) → Answers k n d (f d))
    → Answers k (m + n) c (r ▷ f)
▷-Answers k m n c r f a h =
    let b = h r.0 in
    record {
      called = omega (arith, a.called, b.called, calls-append k r.1 (f r.0).1);
      attached = cc (a.attached, b.attached);
      detached = cc (a.detached, b.detached);
    }

pub answer-Answers :
    (k : ℕ) (f : Callback) (e : Option ErrorInfo) (c : Channel)
    → Answers k (asks k (some f)) c (answer (some f) e c)
unfolding answer
answer-Answers k (client_callback j) e c = record {
  called = omega arith;
  attached = refl;
  detached = refl;
}
answer-Answers k recovery_ended e c = record { called = refl; attached = refl; detached = refl }

pub run-Answers :
    (k : ℕ) (env : Env) (e : Option ErrorInfo) (w : Waiter) (c : Channel)
    → IsPlain w
    → Answers k (waits_in k w) c (run env e w c)
unfolding run
run-Answers k env e (call f) c h = answer-Answers k f e c
run-Answers k env e (forget_reconnect n) c h = record {
  called = refl;
  attached = refl;
  detached = refl;
}
run-Answers k env e (attach_again f) c h = elim h [ ]
run-Answers k env e (detach_again f) c h = elim h [ ]

pub run_all-Answers :
    (k : ℕ) (env : Env) (e : Option ErrorInfo) (ws : List Waiter) (c : Channel)
    → All IsPlain ws
    → Answers k (waits k ws) c (run_all env e ws c)
unfolding run_all
run_all-Answers k env e [] c h = record { called = refl; attached = refl; detached = refl }
run_all-Answers k env e (w ∷ ws) c h =
    ▷-Answers k (waits_in k w) (waits k ws) c _ (run_all env e ws) (run-Answers k env e w c h.0)
      (λ d. run_all-Answers k env e ws d h.1)

pub fail_sync-Answers : (k : ℕ) (e : Option ErrorInfo) (c : Channel) → Answers k 0 c (fail_sync e c)
unfolding fail_sync
fail_sync-Answers k e c = record {
  called = calls-presence_events k (fails_sync e c.presence_map).1;
  attached = refl;
  detached = refl;
}

pub emit_attached-Answers :
    (k : ℕ) (env : Env) (e : Option ErrorInfo) (c : Channel)
    → All IsPlain c.attached_waiters
    → Answers k
        (waits k c.attached_waiters)
        (record c { attached_waiters = [] })
        (emit_attached env e c)
unfolding emit_attached
emit_attached-Answers k env e c h =
    run_all-Answers k env e c.attached_waiters (record c { attached_waiters = [] }) h

pub emit_detached-Answers :
    (k : ℕ) (env : Env) (e : Option ErrorInfo) (c : Channel)
    → All IsPlain c.detached_waiters
    → Answers k
        (waits k c.detached_waiters)
        (record c { detached_waiters = [] })
        (emit_detached env e c)
unfolding emit_detached
emit_detached-Answers k env e c h =
    run_all-Answers k env e c.detached_waiters (record c { detached_waiters = [] }) h
