-- ===== src/Channel/Callbacks.antt =====
-- The callbacks of the client of Source/ARTRealtimeChannel.m: which wait, and which are called.
pub mod Attaching
pub mod Detaching
pub mod Handled
pub mod Called
use ably_cocoa.Base.{
  ℕ, ◌+◌, ◌≡◌, refl, ◌==◌, if◌then◌else◌, Bool, true, false, Option, none, some, List, [], ◌∷◌,
  ◌++◌, map, arith,
}
use ably_cocoa.Types.{ChannelState, ErrorInfo}
use ably_cocoa.Presence.Map.{Output as PresenceOutput}
use ably_cocoa.Channel.{
  Callback, client_callback, recovery_ended, Waiter, call, attach_again, detach_again,
  forget_reconnect, Output, call_back, presence_event, Channel, Result, ◌▷◌, quietly, answer,
}

-- How often the callback with number `k` is asked for, waits, and is called.
abbrev pub asks : ℕ → Option Callback → ℕ
asks k none = 0
asks k (some (client_callback j)) = if j == k then 1 else 0
asks k (some recovery_ended) = 0

abbrev pub waits_in : ℕ → Waiter → ℕ
waits_in k (call f) = asks k (some f)
waits_in k (attach_again f) = asks k f
waits_in k (detach_again f) = asks k f
waits_in k (forget_reconnect n) = 0

abbrev pub waits : ℕ → List Waiter → ℕ
waits k [] = 0
waits k (w ∷ ws) = waits_in k w + waits k ws

abbrev pub calls_in : ℕ → Output → ℕ
calls_in k (call_back j e) = if j == k then 1 else 0
calls_in k _ = 0

abbrev pub calls : ℕ → List Output → ℕ
calls k [] = 0
calls k (o ∷ os) = calls_in k o + calls k os

abbrev pub held : ℕ → Channel → ℕ
held k c = waits k c.attached_waiters + waits k c.detached_waiters

-- With `n` of these callbacks passed in: those that wait afterwards and those that are called are
-- those that waited before and those passed in.
pub record Balanced (k n : ℕ) (c : Channel) (r : Result) : Type 0 where
  pub balance : calls k r.1 + held k r.0 ≡ held k c + n

pub calls-append : (k : ℕ) (xs ys : List Output) → calls k (xs ++ ys) ≡ calls k xs + calls k ys
calls-append k [] ys = omega arith
calls-append k (x ∷ xs) ys = omega (arith, calls-append k xs ys)

pub waits-append : (k : ℕ) (xs ys : List Waiter) → waits k (xs ++ ys) ≡ waits k xs + waits k ys
waits-append k [] ys = omega arith
waits-append k (x ∷ xs) ys = omega (arith, waits-append k xs ys)

pub ▷-Balanced :
    (k m n : ℕ) (c : Channel) (r : Result) (f : Channel → Result)
    → Balanced k m c r
    → ((d : Channel) → Balanced k n d (f d))
    → Balanced k (m + n) c (r ▷ f)
▷-Balanced k m n c r f h g = let x = g r.0 in omega (arith, calls-append k r.1 (f r.0).1)

-- The same where nothing is passed to the second call.
pub ▷-then :
    (k n : ℕ) (c : Channel) (r : Result) (f : Channel → Result)
    → Balanced k n c r
    → ((d : Channel) → Balanced k 0 d (f d))
    → Balanced k n c (r ▷ f)
▷-then k n c r f h g = let x = ▷-Balanced k n 0 c r f h g in omega arith

-- The same where all is passed to the second call.
pub zero-▷ :
    (k n : ℕ) (c : Channel) (r : Result) (f : Channel → Result)
    → Balanced k 0 c r
    → ((d : Channel) → Balanced k n d (f d))
    → Balanced k n c (r ▷ f)
zero-▷ k n c r f h g =
    let x = ▷-Balanced k 0 n c r f h g in record { balance = omega (arith, x.balance) }

pub quietly-Balanced : (k : ℕ) (c : Channel) → Balanced k 0 c (quietly c)
quietly-Balanced k c = record { balance = omega arith }

pub calls-presence_events : (k : ℕ) (os : List PresenceOutput) → calls k (map presence_event os) ≡ 0
calls-presence_events k [] = refl
calls-presence_events k (o ∷ os) = omega (arith, calls-presence_events k os)

pub answer-Balanced :
    (k : ℕ) (f : Option Callback) (e : Option ErrorInfo) (c : Channel)
    → Balanced k (asks k f) c (answer f e c)
unfolding answer
answer-Balanced k none e c = omega arith
answer-Balanced k (some (client_callback j)) e c = omega arith
answer-Balanced k (some recovery_ended) e c = omega arith

pub if-Balanced :
    (k n : ℕ) (c : Channel) (b : Bool) (x y : Result)
    → Balanced k n c x
    → Balanced k n c y
    → Balanced k n c (if b then x else y)
if-Balanced k n c true x y p q = p
if-Balanced k n c false x y p q = q

-- The same call from a channel with as many waiting callbacks, and from one with `n` less.
pub same-Balanced :
    (k n : ℕ) (c d : Channel) (r : Result)
    → held k d ≡ held k c
    → Balanced k n d r
    → Balanced k n c r
same-Balanced k n c d r h b = record { balance = omega (arith, b.balance) }

pub moved-Balanced :
    (k n : ℕ) (c d : Channel) (r : Result)
    → held k d ≡ held k c + n
    → Balanced k 0 d r
    → Balanced k n c r
moved-Balanced k n c d r h b = record { balance = omega (arith, b.balance) }
