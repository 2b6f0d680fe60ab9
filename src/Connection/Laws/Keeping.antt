-- ===== src/Connection/Laws/Keeping.antt =====
-- What sending, queueing and failing messages leaves of the connection of Source/ARTRealtime.m.
use ably_cocoa.Base.{ℕ, ◌≡◌, refl, ◌∙◌, false, List, [], ◌∷◌, arith, inl, inr, Bool-cases}
use ably_cocoa.Message.{ProtocolMessage}
use ably_cocoa.Outbox.{
  Outbox, Wire, Queued, Pending, Encoded, bytes, refused, nothing, send, send_impl, send_encoded,
  stamp, send_queued, send_queued_messages, send_pending, fail_queued_messages, should_send_events,
  should_queue_events,
}
use ably_cocoa.Connection.{StateChange, Connection, Env}
use ably_cocoa.Connection.Transition.{settle_queue}

pub send_encoded-state :
    (w : Wire) (pm : ProtocolMessage) (sent acks : List ℕ) (o : Outbox)
    → (send_encoded w pm sent acks o).0.state ≡ o.state
unfolding send_encoded
send_encoded-state w pm sent acks o = ground arith

pub send_impl-state :
    (w : Wire) (pm : ProtocolMessage) (sent acks : List ℕ) (o : Outbox)
    → (send_impl w pm sent acks o).0.state ≡ o.state
unfolding send_impl
send_impl-state w pm sent acks o = cases (w.encode (stamp o pm)) refl
  where
    cases :
        (x : Encoded) → w.encode (stamp o pm) ≡ x → (send_impl w pm sent acks o).0.state ≡ o.state
    cases (refused e) h = rw (send_impl, h)
    cases nothing h = rw (send_impl, h)
    cases (bytes b) h = rw (send_impl, h) (send_encoded-state w (stamp o pm) sent acks o)

pub send_queued-state :
    (w : Wire) (qs : List Queued) (o : Outbox) → (send_queued w qs o).0.state ≡ o.state
unfolding send_queued
send_queued-state w [] o = refl
send_queued-state w (q ∷ qs) o =
    send_queued-state w qs (send_impl w q.msg q.sent_callbacks q.ack_callbacks o).0
    ∙ send_impl-state w q.msg q.sent_callbacks q.ack_callbacks o

pub send-state :
    (w : Wire) (pm : ProtocolMessage) (sent acks : List ℕ) (o : Outbox)
    → (send w pm sent acks o).0.state ≡ o.state
unfolding send
send-state w pm sent acks o = elim (Bool-cases (should_send_events o)) [
  | inl now ↦ rw now (send_impl-state w pm sent acks o)
  | inr later ↦
      rw later
        (elim (Bool-cases (should_queue_events o)) [ inl queue ↦ rw queue | inr drop' ↦ rw drop' ])
]

pub send_pending-state :
    (w : Wire) (ps : List Pending) (o : Outbox) → (send_pending w ps o).0.state ≡ o.state
unfolding send_pending
send_pending-state w [] o = refl
send_pending-state w (p ∷ ps) o =
    send_pending-state w ps (send w p.msg [] p.ack_callbacks o).0
    ∙ send-state w p.msg [] p.ack_callbacks o

-- What `settle_queue` leaves as it was.
pub record Settles (c d : Connection) : Type 0 where
  pub state : d.outbox.state ≡ c.outbox.state
  pub transport : d.transport ≡ c.transport
  pub waits : d.close_waits ≡ c.close_waits

pub settle_queue-Settles :
    (ch : StateChange) (env : Env) (c : Connection) → Settles c (settle_queue ch env c).0
unfolding settle_queue send_queued_messages fail_queued_messages
settle_queue-Settles ch env c = elim (Bool-cases (should_send_events c.outbox)) [
  | inl now ↦ rw now (record {
    state =
        send_queued-state env.wire c.outbox.queued_messages
          (record c.outbox { queued_messages = [] });
    transport = refl;
    waits = refl;
  })
  | inr later ↦ rw later (elim (Bool-cases (should_queue_events c.outbox)) [
    | inl queue ↦ rw queue (record { state = refl; transport = refl; waits = refl })
    | inr fail ↦ rw fail (record { state = refl; transport = refl; waits = refl })
  ])
]

-- In a state that neither sends nor queues, the queue is emptied and the waiting messages stay.
pub settle_queue-fails :
    (ch : StateChange) (env : Env) (c : Connection)
    → should_send_events c.outbox ≡ false
    → should_queue_events c.outbox ≡ false
    → ((settle_queue ch env c).0.outbox.queued_messages ≡ [])
      × ((settle_queue ch env c).0.outbox.pending_messages ≡ c.outbox.pending_messages)
unfolding settle_queue fail_queued_messages
settle_queue-fails ch env c h k = rw (settle_queue, h, k) (refl, refl)
