-- ===== src/Examples/Configuring.antt =====
-- Instances for the options of a client (Source/ARTClientOptions.m, ARTAuthOptions.m,
-- ARTTokenParams.m).
use ably_cocoa.Base.{◌≡◌, true, false, none, some, List, [], ◌∷◌, codes}
use ably_cocoa.Fallback.{HostOptions}
use ably_cocoa.Options.{AuthOptions, QueryItem, init_defaults, with_token}
use ably_cocoa.Options.Params.{TokenParams, with_client_id, item}
use ably_cocoa.Options.Client.{ClientOptions, Fresh, init_client, copy_client}
use ably_cocoa.Options.Hosts.{Setting, fallback_hosts, use_default}
use ably_cocoa.Options.Copies.{copy_client_lem}

abbrev fresh : Fresh
fresh = record {
  default_environment = none;
  log_handler = 1;
  main_queue = 2;
  internal_queue = 3;
  test_options = 4;
}

abbrev with_key : AuthOptions
with_key = record init_defaults { key = some (codes "name:secret") }

abbrev posting : AuthOptions
posting = record init_defaults { auth_method = codes "POST"; query_time = true }

abbrev with_details : AuthOptions
with_details = record init_defaults { token_details = some (with_token (codes "token")) }

abbrev short_lived : TokenParams
short_lived = record (with_client_id (some (codes "me")) none) { ttl = some 60 }

abbrev configured : ClientOptions
configured = record (init_client fresh with_key) { default_token_params = some short_lived }

copy_client_lem_example :
    copy_client fresh configured ≡ record configured { default_token_params = none }
unfolding init_client
copy_client_lem_example = copy_client_lem fresh configured (λ h. cc)

abbrev hosts : HostOptions
hosts = record {
  fallback_hosts = none;
  fallback_hosts_use_default = false;
  environment = some (codes "sandbox");
  rest_host = none;
  realtime_host = none;
  port = 80;
  tls_port = 443;
}

abbrev settings : List Setting
settings =
    fallback_hosts (some (codes "a.example" ∷ []))
    ∷ use_default true
    ∷ fallback_hosts none
    ∷ use_default true
    ∷ []

abbrev items : List QueryItem
items = item (codes "ttl") (codes "1") ∷ item (codes "rnd") (codes "5") ∷ []
