-- ===== src/RealtimePresence/Answered.antt =====
-- The callbacks of the presence calls of Source/ARTRealtimePresence.m, over any run.
use ably_cocoa.Base.{
  ℕ, ◌+◌, ◌≡◌, refl, ◌&&◌, not, Option, none, some, List, [], ◌∷◌, ◌++◌, ◌==◌, if◌then◌else◌,
  Bool-cases, inl, inr, arith,
}
use ably_cocoa.Types.{Action, ChannelState, ErrorInfo, Status, action_eq}
use ably_cocoa.Channel.{Channel, send_pending_presence, fail_pending_presence, is_active}
use ably_cocoa.Channel
use ably_cocoa.RealtimePresence.{
  Held, Pending, Output, answered, sent, of_channel, answer, is_attached, hold, also, send_each,
  send_pending, fail_each, fail_pending, carry_out,
}

-- How often a callback that may be nil is the callback `k`.
abbrev pub asks : ℕ → Option ℕ → ℕ
asks k none = 0
asks k (some j) = if j == k then 1 else 0

-- How often the callback `k` is called, or handed to the connection with a message.
abbrev pub taken : ℕ → List Output → ℕ
taken k [] = 0
taken k (answered j e ∷ out) = asks k (some j) + taken k out
taken k (sent pm c ∷ out) = asks k c + taken k out
taken k (of_channel o ∷ out) = taken k out

-- How often it waits with a message.
abbrev pub held : ℕ → List Held → ℕ
held k [] = 0
held k (h ∷ hs) = asks k h.callback + held k hs

pub taken-append : (k : ℕ) (a b : List Output) → taken k (a ++ b) ≡ taken k a + taken k b
taken-append k [] b = omega arith
taken-append k (answered j e ∷ a) b = omega (arith, taken-append k a b)
taken-append k (sent pm c ∷ a) b = omega (arith, taken-append k a b)
taken-append k (of_channel o ∷ a) b = taken-append k a b

pub held-append :
    (k : ℕ) (hs : List Held) (h : Held) → held k (hs ++ h ∷ []) ≡ held k hs + asks k h.callback
held-append k [] h = omega arith
held-append k (j ∷ hs) h = omega (arith, held-append k hs h)

pub taken-answer : (k : ℕ) (c : Option ℕ) (e : Option ErrorInfo) → taken k (answer c e) ≡ asks k c
taken-answer k none e = refl
taken-answer k (some j) e = omega arith

-- What is taken, and what is held afterwards.
abbrev pub total : ℕ → Pending × List Output → ℕ
total k (p, out) = taken k out + held k p.pending_presence

also-total :
    (k : ℕ) (out : List Output) (r : Pending × List Output)
    → total k (also out r) ≡ taken k out + total k r
also-total k out (p, out') = omega (arith, taken-append k out out')

send_each-total :
    (k : ℕ) (s : ChannelState) (hs : List Held) (p : Pending)
    → total k (send_each s hs p) ≡ held k hs + held k p.pending_presence
unfolding send_each
send_each-total k s [] p = refl
send_each-total k s (h ∷ hs) p =
    elim (Bool-cases (action_eq h.msg.action Action.presence && not (is_attached s))) [
      | inl kept ↦
          rw kept
            (omega (arith, send_each-total k s hs (hold h p), held-append k p.pending_presence h))
      | inr gone ↦ rw gone (
          omega (
            arith,
            also-total k (sent h.msg h.callback ∷ []) (send_each s hs p),
            send_each-total k s hs p,
          ))
    ]

fail_each-taken :
    (k : ℕ) (status : Status) (hs : List Held) → taken k (fail_each status hs) ≡ held k hs
fail_each-taken k status [] = refl
fail_each-taken k status (h ∷ hs) = omega (
  arith,
  taken-append k (answer h.callback status.error_info) (fail_each status hs),
  taken-answer k h.callback status.error_info,
  fail_each-taken k status hs,
)

send_pending-total :
    (k : ℕ) (s : ChannelState) (p : Pending)
    → total k (send_pending s p) ≡ held k p.pending_presence
unfolding send_pending
send_pending-total k s p =
    omega (arith, send_each-total k s p.pending_presence (record p { pending_presence = [] }))

fail_pending-total :
    (k : ℕ) (status : Status) (p : Pending)
    → total k (fail_pending status p) ≡ held k p.pending_presence
unfolding fail_pending
fail_pending-total k status p = omega (arith, fail_each-taken k status p.pending_presence)

pub carry_out-total :
    (k : ℕ) (s : ChannelState) (out : List Channel.Output) (p : Pending)
    → total k (carry_out s out p) ≡ held k p.pending_presence
unfolding carry_out
carry_out-total k s [] p = omega arith
carry_out-total k s (send_pending_presence ∷ out) p =
    let r = send_pending s p in
    omega (
      arith,
      also-total k r.1 (carry_out s out r.0),
      send_pending-total k s p,
      carry_out-total k s out r.0,
    )
carry_out-total k s (fail_pending_presence status ∷ out) p =
    let r = fail_pending status p in
    omega (
      arith,
      also-total k r.1 (carry_out s out r.0),
      fail_pending-total k status p,
      carry_out-total k s out r.0,
    )
carry_out-total k s (o ∷ out) p =
    omega (arith, also-total k (of_channel o ∷ []) (carry_out s out p), carry_out-total k s out p)
