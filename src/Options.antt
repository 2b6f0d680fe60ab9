-- ===== src/Options.antt =====
-- The options for authorisation and the tokens: Source/ARTAuthOptions.m, ARTTokenDetails.m,
-- ARTTokenParams.m and ARTTokenRequest.m with their headers. Objects whose classes are not under
-- Source, such as blocks, are numbers that stand for their identity.
pub mod Params
pub mod Client
pub mod Hosts
pub mod Copies
use ably_cocoa.Base.{
  ℕ, zero, suc, Bool, true, false, ◌||◌, Option, none, some, List, [], ◌∷◌, Text, codes, text_eq,
  same_text, ◌==◌, if◌then◌else◌, length, is_some,
}
use ably_cocoa.Presence.Order.{split_colon}

-- NSURLQueryItem
pub record QueryItem : Type 0 where
  pub name : Text
  pub value : Option Text

-- ARTTokenDetails
pub record TokenDetails : Type 0 where
  pub token : Text
  pub expires : Option ℕ
  pub issued : Option ℕ
  pub capability : Option Text
  pub client_id : Option Text

-- initWithToken:
abbrev pub with_token : Text → TokenDetails
with_token t = record {
  token = t;
  expires = none;
  issued = none;
  capability = none;
  client_id = none;
}

-- ARTAuthOptions
pub record AuthOptions : Type 0 where
  pub key : Option Text
  pub token_details : Option TokenDetails
  pub auth_callback : Option ℕ
  pub auth_url : Option Text
  pub auth_method : Text
  pub auth_headers : Option (List (Text × Text))
  pub auth_params : Option (List QueryItem)
  pub query_time : Bool
  pub use_token_auth : Bool

abbrev pub method_default : Text
method_default = codes "GET"

-- init and initDefaults
abbrev pub init_defaults : AuthOptions
init_defaults = record {
  key = none;
  token_details = none;
  auth_callback = none;
  auth_url = none;
  auth_method = method_default;
  auth_headers = none;
  auth_params = none;
  query_time = false;
  use_token_auth = false;
}

-- decomposeKey
abbrev pub decompose_key : Text → List Text
decompose_key k = split_colon k

-- initWithKey:, where `none` is the exception for an invalid key
unfoldable pub init_with_key : Option Text → Option AuthOptions
init_with_key none = some init_defaults
init_with_key (some k) =
    if length (decompose_key k) == 2 then some (record init_defaults { key = some k }) else none

-- The getter `token`.
abbrev pub token_of : Option TokenDetails → Option Text
token_of none = none
token_of (some d) = some d.token

abbrev pub token : AuthOptions → Option Text
token o = token_of o.token_details

-- setToken:
unfoldable pub set_token : Option Text → AuthOptions → AuthOptions
set_token none o = o
set_token (some []) o = o
set_token (some (c ∷ t)) o = record o { token_details = some (with_token (c ∷ t)) }

-- initWithToken: and initWithTokenDetails:
unfoldable pub init_with_token : Option Text → AuthOptions
unfolding set_token
init_with_token t = set_token t init_defaults

unfoldable pub init_with_token_details : Option TokenDetails → AuthOptions
init_with_token_details d = record init_defaults { token_details = d }

-- setAuthMethod:
unfoldable pub set_auth_method : Option Text → AuthOptions → AuthOptions
set_auth_method none o = record o { auth_method = method_default }
set_auth_method (some []) o = record o { auth_method = method_default }
set_auth_method (some (c ∷ t)) o = record o { auth_method = c ∷ t }

-- The assignments of copyWithZone:, in their order, to new options.
unfoldable pub copy_to : AuthOptions → AuthOptions → AuthOptions
unfolding set_token set_auth_method
copy_to new o =
    let keyed = record new { key = o.key } in
    let with_details = record (set_token (token o) keyed) { token_details = o.token_details } in
    let called = record with_details { auth_callback = o.auth_callback; auth_url = o.auth_url } in
    record (set_auth_method (some o.auth_method) called) {
      auth_headers = o.auth_headers;
      auth_params = o.auth_params;
      query_time = o.query_time;
      use_token_auth = o.use_token_auth;
    }

-- copyWithZone:
unfoldable pub copy : AuthOptions → AuthOptions
unfolding copy_to
copy o = copy_to init_defaults o

-- The value of the options that take precedence, where they have one.
abbrev pub preferred {ℓ} : {A : Type ℓ} → Option A → Option A → Option A
preferred none old = old
preferred (some a) old = some a

-- mergeWith: of options that are not nil
unfoldable pub merge_with : AuthOptions → AuthOptions → AuthOptions
unfolding copy set_auth_method
merge_with o precedence =
    let base = copy o in
    let merged = record base {
      key = preferred precedence.key base.key;
      auth_callback = preferred precedence.auth_callback base.auth_callback;
      auth_url = preferred precedence.auth_url base.auth_url;
    } in
    record (set_auth_method (some precedence.auth_method) merged) {
      auth_headers = preferred precedence.auth_headers base.auth_headers;
      auth_params = preferred precedence.auth_params base.auth_params;
      query_time = precedence.query_time || base.query_time;
      use_token_auth = precedence.use_token_auth || base.use_token_auth;
    }

-- isMethodPOST and isMethodGET
abbrev pub is_method_post : AuthOptions → Bool
is_method_post o = text_eq o.auth_method (codes "POST")

abbrev pub is_method_get : AuthOptions → Bool
is_method_get o = text_eq o.auth_method (codes "GET")
