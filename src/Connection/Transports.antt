-- ===== src/Connection/Transports.antt =====
-- How Source/ARTRealtime.m makes, connects and releases its transport.
use ably_cocoa.Base.{
  ℕ, suc, Bool, true, false, ◌&&◌, not, Option, none, some, List, [], ◌∷◌, Text, ℤ, if◌then◌else◌,
}
use ably_cocoa.Types.{Status}
use ably_cocoa.Connection.{
  Transport, Output, create_transport, connect_with_key, connect_with_token, close_transport,
  set_host, abort_transport, authorize, forget_token, schedule_authentication_timeout,
  set_reachability, Connection, Env, Result, ◌▷◌, set_renewing_token,
}

-- A message to the transport, which is none to nil.
abbrev pub to_transport : (ℕ → Output) → Connection → List Output
to_transport f c = elim c.transport [ none ↦ [] | some t ↦ f t.id ∷ [] ]

-- abortAndReleaseTransport:
unfoldable pub abort_and_release_transport : Status → Connection → Result
abort_and_release_transport s c =
    (record c { transport = none }, to_transport (λ t. abort_transport t s) c)

-- closeAndReleaseTransport
unfoldable pub close_and_release_transport : Connection → Result
close_and_release_transport c = (record c { transport = none }, to_transport close_transport c)

-- setTransportWithResumeKey:connectionSerial:
unfoldable pub set_transport : Option Text → Option ℤ → Connection → Result
set_transport key serial c = (
  record c {
    transport =
        some (record { id = c.next_transport; resume_key = key; connection_serial = serial });
    next_transport = suc c.next_transport;
  },
  create_transport c.next_transport key serial ∷ [],
)

abbrev pub resume_key_of : Option Transport → Option Text
resume_key_of none = none
resume_key_of (some t) = t.resume_key

abbrev pub connection_serial_of : Option Transport → Option ℤ
connection_serial_of none = none
connection_serial_of (some t) = t.connection_serial

-- resetTransportWithResumeKey:connectionSerial:, always called with those of the transport.
unfoldable pub reset_transport : Connection → Result
reset_transport c =
    close_and_release_transport c
    ▷ set_transport (resume_key_of c.transport) (connection_serial_of c.transport)

-- transportConnectForcingNewToken:newConnection:, up to the answer of the authorisation.
unfoldable pub transport_connect : Bool → Bool → Env → Connection → Result
transport_connect force new env c =
    if env.is_basic_auth
    then (c, to_transport connect_with_key c)
    else if not force && env.token_remains_valid
    then (c, to_transport connect_with_token c)
    else (c, forget_token ∷ schedule_authentication_timeout ∷ authorize force new ∷ [])

-- createAndConnectTransportWithConnectionResume:
unfoldable pub create_and_connect_transport : Bool → Env → Connection → Result
create_and_connect_transport resume env c =
    (if resume
      then set_transport c.key (some c.serial) (record c { resuming = true })
      else set_transport none none c)
    ▷ transport_connect c.outbox.renewing_token true env

-- transportReconnectWithExistingParameters: `reconnectionRealtimeHost` is for tests, otherwise nil.
unfoldable pub transport_reconnect : Env → Connection → Result
transport_reconnect env c = reset_transport c ▷ transport_connect false true env

-- transportReconnectWithHost:
unfoldable pub transport_reconnect_with_host : Text → Env → Connection → Result
transport_reconnect_with_host host env c =
    reset_transport c
    ▷ (λ d. (d, to_transport (λ t. set_host t host) d))
    ▷ transport_connect false true env

-- transportReconnectWithRenewedToken. The timer of a connection attempt starts again.
unfoldable pub transport_reconnect_with_renewed_token : Env → Connection → Result
transport_reconnect_with_renewed_token env c =
    reset_transport (set_renewing_token true c) ▷ transport_connect true true env

-- setReachabilityActive:
unfoldable pub set_reachability_active : Bool → Env → Connection → Result
set_reachability_active b env c = (
  record c { reachability_activated_at = if b then some env.now else none },
  set_reachability b ∷ [],
)
