-- ===== src/Examples/Requesting.antt =====
-- Instances for the requests of a client (Source/ARTRest.m).
use ably_cocoa.Base.{
  ℕ, ◌+◌, ◌*◌, ◌≤◌, ◌≡◌, refl, true, false, none, some, List, [], ◌∷◌, codes, pos, negsuc, arith,
  All, length,
}
use ably_cocoa.Options.{AuthOptions, init_defaults, with_token}
use ably_cocoa.Options.Client.{ClientOptions, Fresh, init_client, rest_host}
use ably_cocoa.Fallback.{hosts_from_options, fallback_init, pop_fallback_host}
use ably_cocoa.Rest.{
  called, on, token, Request, Auth, Env, Rest, other, execute, execute_request,
  execute_request_with_authentication, execute_request_with_auth_option, execute_with, authorized,
  set_current_fallback_host, prepare, base_host, token_remains_valid, token_is_renewable,
}
use ably_cocoa.Rest.Completion.{
  Reply, Answer, answered, run, trace, is_called, complete, complete_read, read_content, judge_body,
  judged, retry_at, retry_with, retry_popped, retry_or_call_back, should_retry_with_fallback,
  should_renew_token, prioritize,
}
use ably_cocoa.Rest.Ending.{run-ends}
use ably_cocoa.Rest.Exhausted.{IsDown, hosts_of}
use ably_cocoa.Rest.Outage.{trace-outage, outage-prioritizes}
use ably_cocoa.Rest.Recovered.{recovers}
use ably_cocoa.Rest.Named.{IsNamed, execute-IsNamed}

abbrev fresh : Fresh
fresh = record {
  default_environment = none;
  log_handler = 1;
  main_queue = 2;
  internal_queue = 3;
  test_options = 4;
}

abbrev with_key : AuthOptions
with_key = record init_defaults { key = some (codes "k:s") }

abbrev defaults : ClientOptions
defaults = init_client fresh with_key

abbrev options : ClientOptions
options = record defaults {
  hosts = record defaults.hosts { fallback_hosts = some (codes "a" ∷ codes "b" ∷ []) };
  http_max_retry_count = 2;
  add_request_ids = true;
}

abbrev client : Rest
client = record {
  options = options;
  token_error_retries = 0;
  current_fallback_host = none;
  prioritized_host = none;
  fallback_retry_expiration = none;
}

abbrev auth : Auth
auth = record {
  method = token;
  options = with_key;
  token_details = some (with_token (codes "t"));
  authorizations_count = 0;
  time_offset = none;
}

-- The JSON encoder reads an expired token from every body.
abbrev at_time : ℕ → Env
at_time now = record {
  now = now;
  date = now;
  auth = auth;
  uuid = codes "id";
  shuffle = λ l. l;
  encoders =
      (
        codes "application/json",
        λ b. (some (record { code = pos 40142; status_code = pos 401; message = [] }), none),
      )
      ∷ [];
  url_host = λ u. none;
  text_of = λ b. b;
  short_string = λ t. t;
}

abbrev request : Request
request = record {
  host = codes "own";
  relative = false;
  request_ids = [];
  authorization = none;
  client_id = none;
  host_header = none;
}

abbrev answer : ℕ → Reply → Answer
answer now reply = record {
  env = at_time now;
  reply = reply;
  details = some (with_token (codes "u"));
  refusal = none;
}

abbrev unavailable : Reply
unavailable = record {
  status_code = 503;
  content_type = none;
  mime_type = none;
  body = none;
  error = none;
}

abbrev timed_out : Reply
timed_out = record unavailable {
  status_code = 0;
  error = some (other (codes "NSURLErrorDomain") (negsuc 1000) none);
}

abbrev expired : Reply
expired = record {
  status_code = 401;
  content_type = some (codes "application/json; charset=utf-8");
  mime_type = some (codes "application/json");
  body = some (1 ∷ []);
  error = none;
}

abbrev success : Reply
success = record expired { status_code = 200 }

abbrev outage : List Answer
outage = answer 2 timed_out ∷ answer 3 unavailable ∷ []

abbrev answers : List Answer
answers =
    answer 1 unavailable
    ∷ answer 2 expired
    ∷ answer 3 expired
    ∷ answer 4 expired
    ∷ answer 5 success
    ∷ answer 6 success
    ∷ answer 7 success
    ∷ answer 8 success
    ∷ []

-- An own host that is down, an expired token at the fallback host `b`, a new token, and again an expired
-- token: three requests, and the callback.
renewed_once :
    hosts_of (trace answers (execute_request_with_auth_option (at_time 0) on request client))
    ≡ codes "own" ∷ codes "b" ∷ codes "b" ∷ []
unfolding init_client rest_host hosts_from_options fallback_init pop_fallback_host execute
    execute_request_with_authentication execute_request_with_auth_option execute_with authorized
    set_current_fallback_host prepare base_host token_remains_valid token_is_renewable answered
    complete complete_read read_content judge_body judged retry_at retry_with retry_popped
    retry_or_call_back should_retry_with_fallback should_renew_token prioritize
renewed_once = refl

run-ends_example :
    (is_called (run answers (execute_request_with_auth_option (at_time 0) on request client)).1
      ≡ true)
    × (length (trace answers (execute_request_with_auth_option (at_time 0) on request client))
        ≤ 2 * (client.options.http_max_retry_count + 1))
unfolding init_client
run-ends_example = run-ends answers (at_time 0) on request client (omega arith)

abbrev all_down : All (IsDown 0 600000) (answer 1 unavailable ∷ outage)
all_down = (
  record { down = refl; begun = omega arith; timely = omega arith },
  (
    record { down = refl; begun = omega arith; timely = omega arith },
    (record { down = refl; begun = omega arith; timely = omega arith }, tt),
  ),
)

trace-outage_example :
    hosts_of (trace (answer 1 unavailable ∷ outage) (execute_request (at_time 0) request client))
    ≡ codes "own" ∷ codes "b" ∷ codes "a" ∷ []
unfolding init_client fallback_init hosts_from_options pop_fallback_host
trace-outage_example =
    trace-outage (at_time 0) client (record { no_auth_url = refl; no_fallback = refl })
      (answer 1 unavailable) outage request all_down (omega arith)

-- The own host answers again, and the next requests go to the host `a` that was down.
outage-prioritizes_example :
    base_host
      (answered (answer 10 success) (
        execute_request
          (at_time 9)
          request
          (run (answer 1 unavailable ∷ outage) (execute_request (at_time 0) request client)).0)).0
    ≡ codes "a"
unfolding init_client fallback_init hosts_from_options pop_fallback_host
outage-prioritizes_example =
    outage-prioritizes (at_time 0) client (record { no_auth_url = refl; no_fallback = refl })
      (answer 1 unavailable) outage request (codes "a") (at_time 9) request (answer 10 success)
      all_down (omega arith) refl (omega arith)
      (record { status = refl; no_error = refl; readable = refl })

execute-IsNamed_example :
    All IsNamed (trace answers (execute_request_with_auth_option (at_time 0) on request client))
execute-IsNamed_example = execute-IsNamed answers (at_time 0) on request client refl

-- The own host is down, and the fallback host `b` answers.
recovers_example :
    (hosts_of (trace (answer 1 unavailable ∷ []) (execute_request (at_time 0) request client))
      ≡ codes "own" ∷ codes "b" ∷ [])
    × ((answered
          (answer 5 success)
          (run (answer 1 unavailable ∷ []) (execute_request (at_time 0) request client))).1
        ≡ called (record { status_code = 200; body = some (1 ∷ []); error = none }))
    × (base_host
          (answered
            (answer 5 success)
            (run (answer 1 unavailable ∷ []) (execute_request (at_time 0) request client))).0
        ≡ codes "b")
unfolding init_client fallback_init hosts_from_options pop_fallback_host
recovers_example =
    recovers (at_time 0) client (record { no_auth_url = refl; no_fallback = refl })
      (answer 1 unavailable) [] request (answer 5 success) (codes "b") (all_down.0, tt)
      (omega arith) refl (record { status = refl; no_error = refl; readable = refl })
