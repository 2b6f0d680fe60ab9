-- ===== src/Connection/Authorization.antt =====
-- The authorisation of a connection in Source/ARTRealtime.m: the answer of `_authorize`, and
-- `auth:didAuthorize:completion:` with the authorisations that wait for the connection.
use ably_cocoa.Base.{
  ℕ, Bool, true, false, ◌&&◌, Option, none, some, List, [], ◌∷◌, ◌++◌, Text, codes, pos,
  if◌then◌else◌,
}
use ably_cocoa.Types.{Action, ConnectionState, ErrorInfo, status_ok}
use ably_cocoa.Message.{ProtocolMessage}
use ably_cocoa.Outbox.{send}
use ably_cocoa.Connection.{
  Output, connect_with_token, when_transport_opens, authorization_called, cancel_auth_work,
  Connection, Env, Result, ◌▷◌, quietly, outputs, on_outbox, error_with,
}
use ably_cocoa.Connection.Transports.{
  resume_key_of, connection_serial_of, to_transport, abort_and_release_transport, set_transport,
  reset_transport,
}
use ably_cocoa.Connection.Transition.{transition}
use ably_cocoa.Connection.Events.{handle_token_auth_error}

-- What `_authorize` answers: a token, or an error with its description.
pub data Answer : Type 0 where
  token : Answer
  refusal : ErrorInfo → Text → Answer

abbrev pub is_closing : ConnectionState → Bool
is_closing ConnectionState.closing = true
is_closing ConnectionState.closed = true
is_closing _ = false

-- The connection with the token of a new connection; a forced one gets a new transport first.
unfoldable pub connect_authorized : Bool → Bool → Connection → Result
connect_authorized force new c =
    (if force && new then reset_transport c else quietly c)
    ▷ (λ d. (d, if new then to_transport connect_with_token d else []))

-- The callback in transportConnectForcingNewToken:newConnection:.
unfoldable pub authorized : Bool → Bool → Answer → Env → Connection → Result
authorized force new answer env c = outputs (cancel_auth_work ∷ []) c ▷ (λ d.
    if is_closing d.outbox.state then quietly d else elim answer [
      | refusal e t ↦ handle_token_auth_error e t env d
      | token ↦ connect_authorized force new d
    ])

abbrev called : List ℕ → List Output
called [] = []
called (a ∷ rest) = authorization_called a ConnectionState.disconnected none ∷ called rest

-- cancelAllPendingAuthorizations
unfoldable pub cancel_all_pending_authorizations : Connection → Result
cancel_all_pending_authorizations c =
    (record c { pending_authorizations = [] }, called c.pending_authorizations)

-- The block `waitForResponse`, for the authorisation with this number.
unfoldable pub wait_for_response : ℕ → Connection → Result
wait_for_response a c =
    quietly (record c { pending_authorizations = c.pending_authorizations ++ a ∷ [] })

-- The block `haltCurrentConnectionAndReconnect`, when the transport has opened.
unfoldable pub halt_current_connection_and_reconnect : ℕ → Connection → Result
halt_current_connection_and_reconnect a c =
    abort_and_release_transport status_ok c
    ▷ (λ d. set_transport (resume_key_of d.transport) (connection_serial_of d.transport) d)
    ▷ (λ d. (d, to_transport connect_with_token d))
    ▷ cancel_all_pending_authorizations
    ▷ wait_for_response a

-- The AUTH message with a token.
abbrev pub auth_message : Text → ProtocolMessage
auth_message t = record {
  action = Action.auth;
  count = pos 0;
  id = none;
  channel = none;
  channel_serial = none;
  connection_id = none;
  own_connection_key = none;
  connection_serial = pos 0;
  has_connection_serial = false;
  msg_serial = none;
  timestamp = none;
  messages = none;
  presence = none;
  flags = 0;
  error = none;
  auth = some t;
  connection_details = none;
  params = none;
}

-- auth:didAuthorize:completion:, for a token and the number of the completion.
unfoldable pub did_authorize : Text → ℕ → Env → Connection → Result
did_authorize t a env c = elim c.outbox.state [
  | ConnectionState.connected ↦
      on_outbox (send env.wire (auth_message t) [] []) c ▷ wait_for_response a
  | ConnectionState.connecting ↦ outputs (when_transport_opens ∷ []) c
  | ConnectionState.closing ↦ cancel_all_pending_authorizations c
  | _ ↦ transition ConnectionState.connecting none env c ▷ wait_for_response a
]

-- ARTAuthorizationState, with the error of a failure.
pub data Outcome : Type 0 where
  succeeded cancelled : Outcome
  failed : Option ErrorInfo → Outcome

abbrev pub authorization_failed : Text → Option ErrorInfo
authorization_failed m = some (error_with (pos 16) (pos 0) m)

-- What the waiting block tells its completion of a state; of some states it tells nothing.
unfoldable pub outcome : ConnectionState → Option ErrorInfo → Option Outcome
outcome ConnectionState.connected e = some succeeded
outcome ConnectionState.failed e = some (failed e)
outcome ConnectionState.suspended e =
    some (failed (authorization_failed (codes "Connection has been suspended")))
outcome ConnectionState.closed e =
    some (failed (authorization_failed (codes "Connection has been closed")))
outcome ConnectionState.disconnected e = some cancelled
outcome _ e = none
