-- ===== src/Examples/Connecting.antt =====
-- Instances for the connection (Source/ARTRealtime.m).
use ably_cocoa.Base.{◌≡◌, refl, true, false, none, some, [], codes, negsuc, is_some}
use ably_cocoa.Types.{ConnectionState}
use ably_cocoa.Fallback.{HostOptions}
use ably_cocoa.Retry.Laws.{fresh_state}
use ably_cocoa.Connection.{retry_from_disconnected, Connection, Env}
use ably_cocoa.Connection.Transition.{transition, close}
use ably_cocoa.Connection.Events.{connect}
use ably_cocoa.Connection.Delegate.{internet_answered, transport_never_connected}
use ably_cocoa.Connection.Laws.{IsReleased}
use ably_cocoa.Connection.Closing.{transition-closes}
use ably_cocoa.Connection.Reachable.{
  Steps, here, then_step, connects, transport_never_connects, Steps-IsReleased,
  internet_answered-reopens,
}
use ably_cocoa.Examples.{wire, outbox, failure}

abbrev hosts : HostOptions
hosts = record {
  fallback_hosts = none;
  fallback_hosts_use_default = false;
  environment = none;
  rest_host = none;
  realtime_host = none;
  port = 80;
  tls_port = 443;
}

abbrev env : Env
env = record {
  now = 1000;
  draw = 7;
  wire = wire;
  is_basic_auth = true;
  token_remains_valid = false;
  token_is_renewable = false;
  has_auth_provider = false;
  is_authorizing = false;
  should_immediately_reconnect = true;
  suspended_retry_timeout = 30000;
  hosts = hosts;
  shuffle = λ hs. hs;
  suspended_without_loss = false;
  inactive_without_activity = false;
}

abbrev in_state : ConnectionState → Connection
in_state s = record {
  outbox = record outbox {
    state = s;
    queued_messages = [];
    pending_messages = [];
    connection_id = none;
  };
  key = none;
  serial = negsuc 0;
  max_message_size = 0;
  resuming = false;
  transport = none;
  next_transport = 0;
  connection_lost_at = none;
  connection_state_ttl = 60000;
  max_idle_interval = 0;
  last_activity = none;
  reachability_activated_at = none;
  fallbacks = none;
  retry_state = fresh_state 15000;
  timer = none;
  close_waits = false;
  pending_authorizations = [];
}

initial-IsReleased : IsReleased (in_state ConnectionState.initialized)
initial-IsReleased = record { transport = λ h. refl; queue = λ h. refl; settled = λ h. refl }

-- The client connects, and the transport that this makes never connects.
abbrev never_connected : Connection
never_connected =
    (transport_never_connected 0 env (connect env (in_state ConnectionState.initialized)).0).0

run : Steps (in_state ConnectionState.initialized) never_connected
run = then_step (then_step here (connects env)) (transport_never_connects 0 env)

Steps-IsReleased_example : IsReleased never_connected
Steps-IsReleased_example =
    Steps-IsReleased (in_state ConnectionState.initialized) never_connected run initial-IsReleased

transition-closes_example :
    let d =
      (transition ConnectionState.disconnected
        (some failure)
        env
        (close env (in_state ConnectionState.connecting)).0).0 in
    (d.outbox.state ≡ ConnectionState.closed) × (d.timer ≡ none)
transition-closes_example =
    transition-closes ConnectionState.disconnected (some failure) env env
      (in_state ConnectionState.connecting) refl refl

internet_answered-reopens_example :
    let c = in_state ConnectionState.closed in
    ((internet_answered (codes "h") true env c).0.outbox.state ≡ ConnectionState.closed)
    × (is_some (internet_answered (codes "h") true env c).0.transport ≡ true)
    × ((internet_answered (codes "h") false env c).0.outbox.state ≡ ConnectionState.disconnected)
    × ((internet_answered (codes "h") false env c).0.timer ≡ some retry_from_disconnected)
internet_answered-reopens_example =
    internet_answered-reopens (codes "h") env (in_state ConnectionState.closed) refl refl
