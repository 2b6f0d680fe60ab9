-- ===== src/Connection/Delegated/Messages.antt =====
-- Acknowledgements, sent messages and failing transports of Source/ARTRealtime.m leave a connection
-- that holds on to nothing its state has no use for.
use ably_cocoa.Base.{
  ℕ, ◌≡◌, refl, ◌∙◌, ap, Bool, true, false, ◌&&◌, Option, none, some, List, [], Text, codes, ℤ,
  ltb_ℤ, if◌then◌else◌, is_some, is_none, same_text, arith,
}
use ably_cocoa.Base.{drop, drop-all}
use ably_cocoa.Types.{ConnectionState, ErrorInfo}
use ably_cocoa.Message.{ProtocolMessage}
use ably_cocoa.Outbox.{
  Outbox, Wire, send, ack, nack, settle, Pending, should_send_events, should_queue_events,
}
use ably_cocoa.Fallback.{fallback_init, hosts_from_options}
use ably_cocoa.Connection.{Connection, Env, Result, on_outbox}
use ably_cocoa.Connection.Transition.{transition}
use ably_cocoa.Connection.Delegate.{
  TransportError, ErrorType, other, bad_response, is_current, if_current,
  should_retry_with_fallback, reconnect_with_fallback, give_up, start_fallback, continue_fallback,
  fail_transport, first_host, lose_transport,
}
use ably_cocoa.Connection.Laws.{has_no_transport, refuses_messages, IsReleased, send_impl-state}
use ably_cocoa.Outbox.{Output as Held}
use ably_cocoa.Connection.Releases.{
  IsReleased-active, SameHold, IsReleased-SameHold, transition-IsReleased, lose-IsReleased,
}
use ably_cocoa.Connection.Handled.{if-IsReleased}

pub none-left : (n : ℕ) → ◌≡◌ {A = List Pending} (drop n []) []
none-left n = drop-all n [] (omega arith)

pub settle-none :
    (n : ℕ) (serial count : ℤ) (e : Option ErrorInfo) (o : Outbox)
    → o.pending_messages ≡ []
    → (settle n serial count e o).0.pending_messages ≡ []
unfolding settle
settle-none n serial count e o h = rw (h, none-left n, none-left)

pub if_current-IsReleased :
    (id : ℕ) (f : Connection → Result) (c : Connection)
    → (IsReleased c → IsReleased (f c).0)
    → IsReleased c
    → IsReleased (if_current id f c).0
if_current-IsReleased id f c k v = if-IsReleased (is_current id c) _ _ (k v) v

pub failed-IsReleased :
    (id : ℕ) (r : Option ErrorInfo) (env : Env) (c : Connection)
    → IsReleased c
    → IsReleased (if_current id (transition ConnectionState.failed r env) c).0
failed-IsReleased id r env c v =
    if_current-IsReleased id (transition ConnectionState.failed r env) c
      (λ w. transition-IsReleased ConnectionState.failed r env c) v

pub lose_transport-IsReleased :
    (env : Env) (c : Connection) → IsReleased c → IsReleased (lose_transport env c).0
unfolding lose_transport
lose_transport-IsReleased env c v = by_state c.outbox.state refl
  where
    by_state : (s : ConnectionState) → c.outbox.state ≡ s → IsReleased (lose_transport env c).0
    by_state ConnectionState.closing h = rw (lose_transport, h) (transition-IsReleased _ none env _)
    by_state ConnectionState.closed h = rw (lose_transport, h) v
    by_state ConnectionState.failed h = rw (lose_transport, h) v
    by_state _ h = rw (lose_transport, h) (lose-IsReleased none env _)

pub give_up-IsReleased :
    (e : TransportError) (env : Env) (c : Connection) → IsReleased (give_up e env c).0
unfolding give_up
give_up-IsReleased e env c = by_kind e.kind refl
  where
    by_kind : (k : ErrorType) → e.kind ≡ k → IsReleased (give_up e env c).0
    by_kind bad_response h = rw (give_up, h) (transition-IsReleased ConnectionState.failed _ env _)
    by_kind other h = rw (give_up, h) (transition-IsReleased ConnectionState.failed _ env _)
    by_kind _ h = rw (give_up, h) (lose-IsReleased _ env _)

pub reconnect_with_fallback-SameHold : (c : Connection) → SameHold c (reconnect_with_fallback c).0.0
unfolding reconnect_with_fallback
reconnect_with_fallback-SameHold c = by_host (first_host c.fallbacks) refl
  where
    by_host :
        (h : Option Text) → first_host c.fallbacks ≡ h → SameHold c (reconnect_with_fallback c).0.0
    by_host none h =
        rw (reconnect_with_fallback, h)
          (record { state = refl; transport = refl; queue = refl; pending = refl })
    by_host (some x) h =
        rw (reconnect_with_fallback, h)
          (record { state = refl; transport = refl; queue = refl; pending = refl })

pub start_fallback-IsReleased :
    (e : TransportError) (env : Env) (c : Connection)
    → IsReleased c
    → IsReleased (start_fallback e env c).0
unfolding start_fallback
start_fallback-IsReleased e env c v =
    by_hosts (fallback_init env.shuffle (hosts_from_options env.hosts)) refl
  where
    by_hosts :
        (h : Option (List Text))
        → fallback_init env.shuffle (hosts_from_options env.hosts) ≡ h
        → IsReleased (start_fallback e env c).0
    by_hosts none h = rw (start_fallback, h) (transition-IsReleased ConnectionState.failed _ env c)
    by_hosts (some hs) h =
        rw (start_fallback, h)
          (IsReleased-SameHold _ _
            (reconnect_with_fallback-SameHold (record c { fallbacks = some hs }))
            (IsReleased-SameHold c _
              (record { state = refl; transport = refl; queue = refl; pending = refl }) v))

pub continue_fallback-IsReleased :
    (e : TransportError) (env : Env) (c : Connection)
    → IsReleased c
    → IsReleased (continue_fallback e env c).0
unfolding continue_fallback
continue_fallback-IsReleased e env c v =
    if-IsReleased (reconnect_with_fallback c).1 _ _
      (IsReleased-SameHold c _ (reconnect_with_fallback-SameHold c) v)
      (give_up-IsReleased e env (reconnect_with_fallback c).0.0)

pub fail_transport-IsReleased :
    (e : TransportError) (env : Env) (c : Connection)
    → IsReleased c
    → IsReleased (fail_transport e env c).0
unfolding fail_transport
fail_transport-IsReleased e env c v =
    if-IsReleased (should_retry_with_fallback e) _ _
      (if-IsReleased (is_none c.fallbacks && same_text e.host (some (codes "realtime.ably.io"))) _ _
        (start_fallback-IsReleased e env c v)
        (if-IsReleased (is_some c.fallbacks) _ _ (continue_fallback-IsReleased e env c v)
          (give_up-IsReleased e env c)))
      (give_up-IsReleased e env c)

abbrev pub with_outbox : Connection → Outbox → Connection
with_outbox c o = record c { outbox = o }

pub if-outbox-IsReleased :
    (b : Bool) (x y : Outbox × List Held) (c : Connection)
    → (b ≡ true → IsReleased (with_outbox c x.0))
    → (b ≡ false → IsReleased (with_outbox c y.0))
    → IsReleased (with_outbox c (if b then x else y).0)
if-outbox-IsReleased true x y c v w = v refl
if-outbox-IsReleased false x y c v w = w refl

pub settle-IsReleased :
    (n : ℕ) (serial count : ℤ) (e : Option ErrorInfo) (c : Connection)
    → IsReleased c
    → IsReleased (with_outbox c (settle n serial count e c.outbox).0)
unfolding settle
settle-IsReleased n serial count e c v = record {
  transport = v.transport;
  queue = v.queue;
  settled = λ h. settle-none n serial count e c.outbox (v.settled h);
}

pub ack-IsReleased :
    (serial count : ℤ) (e : Option ErrorInfo) (c : Connection)
    → IsReleased c
    → IsReleased (on_outbox (ack serial count e) c).0
unfolding ack
ack-IsReleased serial count e c v =
    if-outbox-IsReleased (ltb_ℤ serial c.outbox.pending_message_start_serial) _ _ c
      (λ h. settle-IsReleased _ _ _ e c v) (λ h. settle-IsReleased _ _ _ e c v)

pub nack-IsReleased :
    (serial count : ℤ) (e : Option ErrorInfo) (c : Connection)
    → IsReleased c
    → IsReleased (on_outbox (nack serial count e) c).0
unfolding nack
nack-IsReleased serial count e c v = record {
  transport = v.transport;
  queue = v.queue;
  settled = λ h. rw (v.settled h, none-left);
}

pub sends-connected :
    (o : Outbox) → should_send_events o ≡ true → o.state ≡ ConnectionState.connected
unfolding should_send_events
sends-connected o h = ground arith

pub connected-IsReleased :
    (c : Connection) → c.outbox.state ≡ ConnectionState.connected → IsReleased c
connected-IsReleased c h = IsReleased-active c (ap has_no_transport h) (ap refuses_messages h)

pub queues-takes : (o : Outbox) → should_queue_events o ≡ true → refuses_messages o.state ≡ false
unfolding should_queue_events
queues-takes o h = ground arith

pub send-IsReleased :
    (w : Wire) (pm : ProtocolMessage) (sent acks : List ℕ) (c : Connection)
    → IsReleased c
    → IsReleased (on_outbox (send w pm sent acks) c).0
unfolding send
send-IsReleased w pm sent acks c v =
    if-outbox-IsReleased (should_send_events c.outbox) _ _ c
      (λ h.
        connected-IsReleased _
          (send_impl-state w pm sent acks c.outbox ∙ sends-connected c.outbox h))
      (λ g.
        if-outbox-IsReleased (should_queue_events c.outbox) _ _ c
          (λ h. record {
            transport = v.transport;
            queue = λ k. cc (queues-takes c.outbox h);
            settled = v.settled;
          })
          (λ h. v))
