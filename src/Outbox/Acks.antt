-- ===== src/Outbox/Acks.antt =====
-- What `ack:` and `nack:` of Source/ARTRealtime.m do to the messages that wait.
use ably_cocoa.Base.{
  ℕ, zero, suc, ◌+◌, ◌-◌, ◌≤◌, ◌<◌, ◌≡◌, List, [], ◌++◌, take, drop, take-all, drop-all, drop-drop,
  length, length-drop, Option, pos, negsuc, ltb_ℤ, eqb_ℤ, unsigned64, int64-add, int32-sub,
  int32-sub_below, int64-back, arith, true, false,
}
use ably_cocoa.Types.{ErrorInfo, status_ok, status_error}
use ably_cocoa.Outbox.{
  Pending, Output, Outbox, acknowledge, ack, nack, settle, skipped, range_length,
}

-- Fewer than 2^31 messages wait, and their serials are far from overflow.
pub record IsSmall (s : ℕ) (o : Outbox) : Type 0 where
  pub start : o.pending_message_start_serial ≡ pos s
  pub few : length o.pending_messages < 2147483648
  pub low : s < 2305843009213693952

range_length-fits :
    (c : ℕ) (ps : List Pending)
    → c ≤ length ps
    → length ps < 2147483648
    → range_length (pos c) ps ≡ c
unfolding unsigned64 range_length
range_length-fits c ps h k = ground arith

-- A negative `int` is compared as a huge number, so the range is the whole array.
range_length-negative :
    (k : ℕ) (ps : List Pending)
    → k < 2147483648
    → length ps < 2147483648
    → range_length (negsuc k) ps ≡ length ps
unfolding unsigned64 range_length
range_length-negative k ps h l = ground arith

-- The messages that an ACK of `count` messages from serial `s + i` leaves and settles.
abbrev pub acked : ℕ → ℕ → ℕ → Option ErrorInfo → Outbox → Outbox × List Output
acked s i c e o = (
  record o {
    pending_messages = drop (i + c) o.pending_messages;
    pending_message_start_serial = pos (s + i + c);
  },
  acknowledge (status_error e) (take i o.pending_messages)
      ++ acknowledge status_ok (take c (drop i o.pending_messages)),
)

pub skipped_lem :
    (s i : ℕ) (o : Outbox)
    → IsSmall s o
    → i ≤ length o.pending_messages
    → skipped (pos (s + i)) o ≡ i
unfolding skipped
skipped_lem s zero o v h = rw v.start (ground arith)
skipped_lem s (suc i) o v h =
    rw (v.start, int32-sub (s + suc i) s (omega arith) (omega (arith, v.few)))
      (ground (arith, range_length-fits (s + suc i - s) o.pending_messages, v.few))

settle_lem :
    (s i c : ℕ) (e : Option ErrorInfo) (o : Outbox)
    → IsSmall s o
    → i + c ≤ length o.pending_messages
    → settle i (pos (s + i)) (pos c) e o ≡ acked s i c e o
unfolding settle
settle_lem s i c e o v h = rw (
  range_length-fits c (drop i o.pending_messages) (omega (arith, length-drop i o.pending_messages))
      (omega (arith, length-drop i o.pending_messages, v.few)),
  int64-add (s + i) c (omega (arith, v.few, v.low)),
  drop-drop i c o.pending_messages,
)

-- An ACK of `c` messages from the serial of the `i`-th waiting message on nacks the `i` messages
-- before it, acks the next `c` in order, keeps the rest, and moves the start past them.
pub ack-exact :
    (s i c : ℕ) (e : Option ErrorInfo) (o : Outbox)
    → IsSmall s o
    → i + c ≤ length o.pending_messages
    → ack (pos (s + i)) (pos c) e o ≡ acked s i c e o
unfolding ack
ack-exact s i c e o v h =
    let late : ltb_ℤ (pos (s + i)) o.pending_message_start_serial ≡ false =
      rw v.start (ground arith) in
    rw (late, skipped_lem s i o v (omega arith)) (settle_lem s i c e o v h)

same_start :
    (s j c : ℕ) (ps : List Pending) (o : Outbox) (e : Option ErrorInfo)
    → j + c < s
    → ◌≡◌ {A = Outbox × List Output}
        (
          record o {
            pending_messages = [];
            pending_message_start_serial = pos (s - suc (s - j - c - 1));
          },
          acknowledge (status_error e) ps,
        )
        (
          record o { pending_messages = []; pending_message_start_serial = pos (j + c) },
          acknowledge (status_error e) ps,
        )
same_start s j c ps o e h = let back : s - suc (s - j - c - 1) ≡ j + c = omega arith in rw back

settle-negative :
    (s k t : ℕ) (e : Option ErrorInfo) (o : Outbox)
    → IsSmall s o
    → k < s
    → k < 2147483648
    → t ≡ s - suc k
    → settle 0 (pos s) (negsuc k) e o ≡ (
      record o { pending_messages = []; pending_message_start_serial = pos t },
      acknowledge status_ok o.pending_messages,
    )
unfolding settle
settle-negative s k t e o v h l back = rw (
  back,
  range_length-negative k o.pending_messages l v.few,
  int64-back s k h (omega (arith, v.low)),
  drop-all (length o.pending_messages) o.pending_messages (omega arith),
  take-all (length o.pending_messages) o.pending_messages (omega arith),
)

-- An ACK of messages that were all settled before (their serials end below the start) acks every
-- message that waits, and moves the start back to where those serials end.
pub ack-stale :
    (s j c : ℕ) (e : Option ErrorInfo) (o : Outbox)
    → IsSmall s o
    → j + c < s
    → s - j < 2147483648
    → ack (pos j) (pos c) e o ≡ (
      record o { pending_messages = []; pending_message_start_serial = pos (j + c) },
      acknowledge status_ok o.pending_messages,
    )
unfolding ack settle
ack-stale s j c e o v h k =
    let early : ltb_ℤ (pos j) o.pending_message_start_serial ≡ true = rw v.start (ground arith) in
    rw
      (
        early,
        v.start,
        int32-sub s j (omega arith) k,
        int32-sub_below c (s - j) (omega arith) (omega arith),
      )
      (settle-negative s (s - j - c - 1) (j + c) e o v (omega arith) (omega arith) (omega arith))

-- A NACK of messages that were all settled before fails every message that waits.
pub nack-stale :
    (s j c : ℕ) (e : Option ErrorInfo) (o : Outbox)
    → IsSmall s o
    → j + c < s
    → s - j < 2147483648
    → nack (pos j) (pos c) e o ≡ (
      record o { pending_messages = []; pending_message_start_serial = pos (j + c) },
      acknowledge (status_error e) o.pending_messages,
    )
unfolding nack
nack-stale s j c e o v h k =
    let other : eqb_ℤ (pos j) o.pending_message_start_serial ≡ false = rw v.start (ground arith) in
    rw
      (
        other,
        v.start,
        int32-sub s j (omega arith) k,
        int32-sub_below c (s - j) (omega arith) (omega arith),
        range_length-negative (s - j - c - 1) o.pending_messages (omega arith) v.few,
        int64-back s (s - j - c - 1) (omega arith) (omega (arith, v.low)),
        drop-all (length o.pending_messages) o.pending_messages (omega arith),
        take-all (length o.pending_messages) o.pending_messages (omega arith),
      )
      (same_start s j c o.pending_messages o e (omega arith))

-- A NACK of the first `c` waiting messages fails those and keeps the rest.
pub nack-exact :
    (s c : ℕ) (e : Option ErrorInfo) (o : Outbox)
    → IsSmall s o
    → c ≤ length o.pending_messages
    → nack (pos s) (pos c) e o ≡ (
      record o {
        pending_messages = drop c o.pending_messages;
        pending_message_start_serial = pos (s + c);
      },
      acknowledge (status_error e) (take c o.pending_messages),
    )
unfolding nack
nack-exact s c e o v h =
    let same : eqb_ℤ (pos s) o.pending_message_start_serial ≡ true = rw v.start (ground arith) in
    rw (
      same,
      v.start,
      range_length-fits c o.pending_messages h v.few,
      int64-add s c (omega (arith, v.few, v.low)),
    )
