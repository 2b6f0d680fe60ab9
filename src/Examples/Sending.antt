-- ===== src/Examples/Sending.antt =====
-- Instances for the messages that a connection holds (Source/ARTRealtime.m).
use ably_cocoa.Base.{◌≡◌, refl, none, some, [], ◌∷◌, ◌++◌, length, arith, pos, negsuc}
use ably_cocoa.Types.{status_ok, status_error}
use ably_cocoa.Message.{ack_required}
use ably_cocoa.Outbox.{
  ack, send, send_encoded, send_impl, resend_pending_messages, stamp, acknowledge,
  should_send_events, ack_call,
}
use ably_cocoa.Outbox.Acks.{IsSmall, acked, ack-exact, ack-stale}
use ably_cocoa.Outbox.Callbacks.{ack_called, held, ack_called-ack}
use ably_cocoa.Outbox.Serials.{IsConsistent, Numbered}
use ably_cocoa.Outbox.Session.{Steps-IsConsistent, here, next, sends, confirmed}
use ably_cocoa.Outbox.Resend.{IsUp, resend-serials, resend-nacked}
use ably_cocoa.Base.{map, true}
use ably_cocoa.Outbox.{fail_pending_messages}
use ably_cocoa.Outbox.Failing.{fail_pending_messages-nacks}
use ably_cocoa.Examples.{outbox, wire, published}

outbox-IsSmall : IsSmall 7 outbox
outbox-IsSmall = record { start = refl; few = omega arith; low = omega arith }

outbox-IsConsistent : IsConsistent 7 outbox
unfolding ack_required
outbox-IsConsistent = record {
  start = refl;
  next = refl;
  numbered = (refl, refl, (refl, refl, (refl, refl, tt)));
}

outbox-IsUp : IsUp wire outbox
unfolding should_send_events
outbox-IsUp = record { sends = refl; encodes = λ pm. (_, refl) }

ack-exact_example : ack (pos 8) (pos 1) none outbox ≡ acked 7 1 1 none outbox
ack-exact_example = ack-exact 7 1 1 none outbox outbox-IsSmall (omega arith)

ack_called-ack_example :
    ack_called (ack (pos 8) (negsuc 3) none outbox).1
      ++ held (ack (pos 8) (negsuc 3) none outbox).0.pending_messages
    ≡ 1 ∷ 2 ∷ 3 ∷ []
ack_called-ack_example = ack_called-ack (pos 8) (negsuc 3) none outbox

-- An ACK of the message 5, which was acknowledged before, acks the messages 7, 8 and 9.
ack-stale_example : ack (pos 5) (pos 1) none outbox ≡ (
  record outbox { pending_messages = []; pending_message_start_serial = pos 6 },
  ack_call 1 status_ok ∷ ack_call 2 status_ok ∷ ack_call 3 status_ok ∷ [],
)
ack-stale_example = ack-stale 7 5 1 none outbox outbox-IsSmall (omega arith) (omega arith)

resend-serials_example :
    let o' = (resend_pending_messages wire outbox).0 in
    (o'.pending_message_start_serial ≡ pos 7)
    × (length o'.pending_messages ≡ 3)
    × (held o'.pending_messages ≡ 1 ∷ 2 ∷ 3 ∷ [])
    × Numbered 10 o'.pending_messages
resend-serials_example = resend-serials wire 7 outbox outbox-IsUp outbox-IsConsistent (omega arith)

resend-nacked_example :
    let o' = (resend_pending_messages wire outbox).0 in
    Numbered 10 o'.pending_messages
    × (held o'.pending_messages ≡ 1 ∷ 2 ∷ 3 ∷ [])
    × ((ack (pos 10) (pos 3) none o').1 ≡ acknowledge (status_error none) o'.pending_messages)
resend-nacked_example =
    resend-nacked wire 7 none outbox outbox-IsUp outbox-IsConsistent outbox-IsSmall

published-wants : ack_required published ≡ true
unfolding ack_required
published-wants = refl

fail_pending_messages-nacks_example :
    let o' = (send wire published [] (6 ∷ []) (fail_pending_messages status_ok outbox).0).0 in
    (map (λ p. p.msg.msg_serial) o'.pending_messages ≡ some (pos 10) ∷ [])
    × ((ack (pos 10) (pos 1) none o').1 ≡ ack_call 6 (status_error none) ∷ [])
fail_pending_messages-nacks_example =
    fail_pending_messages-nacks wire 7 published (6 ∷ []) status_ok none outbox outbox-IsUp
      outbox-IsConsistent outbox-IsSmall (omega arith) published-wants

-- A message is published, and then the first two of the four that wait are acknowledged.
Steps-IsConsistent_example :
    let sent = (send wire published [] (6 ∷ []) outbox).0 in
    IsConsistent 9 (ack (pos 7) (pos 2) none sent).0
unfolding send send_impl send_encoded stamp should_send_events ack_required
Steps-IsConsistent_example =
    Steps-IsConsistent {w = wire}
      (next (next here (sends 7 outbox published [] (6 ∷ []) (omega arith))) (
        confirmed 7 (send wire published [] (6 ∷ []) outbox).0 0 2 none
          (record { start = refl; few = omega arith; low = omega arith }) (omega arith)))
      outbox-IsConsistent
