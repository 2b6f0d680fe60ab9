-- ===== src/Rest.antt =====
-- Requests to the server: Source/ARTRest.m with the answers of ARTAuth.m that it asks for, and the
-- categories ARTNSMutableURLRequest+ARTUtils.m and ARTNSURL+ARTUtils.m.
--
-- The completion of a request is given. What Foundation does (the host of a URL, texts from bytes) and
-- what the encoders read from an answer are arguments, in `Env`.
pub mod Completion
pub mod Ending
pub mod Retried
pub mod Exhausted
pub mod Outage
pub mod Recovered
pub mod Named
mod Requests
unfoldable pub use Requests.*
use ably_cocoa.Base.{
  ℕ, ◌+◌, Bool, true, false, ◌&&◌, ◌||◌, not, Option, none, some, List, [], ◌∷◌, ◌++◌, Text, ltb,
  if◌then◌else◌, is_some, is_none, same_text, ℤ, pos, ◌+ℤ◌, ltb_ℤ,
}
use ably_cocoa.Types.{ErrorInfo}
use ably_cocoa.Options.{TokenDetails, AuthOptions}
use ably_cocoa.Options.Client.{ClientOptions, rest_host, rest_url_components}

abbrev remains : Option ℕ → Option ℤ → ℕ → Bool
remains none offset date = true
remains (some x) none date = true
remains (some x) (some offset) date = ltb_ℤ (pos date +ℤ offset) (pos x)

-- tokenRemainsValid
unfoldable pub token_remains_valid : Env → Bool
token_remains_valid e = elim e.auth.token_details [
  | none ↦ false
  | some d ↦ remains d.expires e.auth.time_offset e.date
]

-- canRenewTokenAutomatically:
unfoldable pub token_is_renewable : Auth → Bool
token_is_renewable a =
    is_some a.options.auth_callback || is_some a.options.auth_url || is_some a.options.key

abbrev pub is_token_auth : Auth → Bool
is_token_auth a = is_some a.token_details || ltb 0 a.authorizations_count

-- The host of getBaseUrl.
unfoldable pub base_host : Rest → Text
unfolding rest_url_components
base_host r = elim r.prioritized_host [ none ↦ (rest_url_components r.options).host | some h ↦ h ]

-- setCurrentFallbackHost:
unfoldable pub set_current_fallback_host : ℕ → Option Text → Rest → Rest
set_current_fallback_host now value r =
    let r1 = if is_none value then record r { fallback_retry_expiration = none } else r in
    if same_text r1.current_fallback_host value then r1 else record r1 {
      current_fallback_host = value;
      fallback_retry_expiration = some (now + r.options.fallback_retry_timeout);
    }

abbrev pub with_host : Text → Request → Request
with_host h q = record q { host = h; relative = false }

abbrev pub passed : Option ℕ → ℕ → Bool
passed none now = false
passed (some x) now = ltb x now

-- Whether the fallback host in use has expired.
abbrev pub is_expired : Env → Rest → Bool
is_expired e r = is_some r.current_fallback_host && passed r.fallback_retry_expiration e.now

abbrev pub reset_host : Env → Rest → Rest
reset_host e r = record (set_current_fallback_host e.now none r) { prioritized_host = none }

abbrev pub new_request_id : Env → Option (List Text) → Option Text → Rest → Option Text
new_request_id e fallbacks original r =
    if r.options.add_request_ids
    then (if is_some fallbacks then original else some e.uuid)
    else none

-- The headers and the query item of a request.
unfoldable pub prepare : Env → Option Text → Request → Rest → Request
prepare e id q r =
    let named =
      if is_some r.options.client_id && not (is_token_auth e.auth)
      then record q { client_id = r.options.client_id }
      else q in
    if r.options.add_request_ids
    then record named { relative = false; request_ids = named.request_ids ++ id ∷ [] }
    else named

-- executeRequest:fallbacks:retries:originalRequestId:completion:, up to the HTTP executor
unfoldable pub execute : Env → Option (List Text) → ℕ → Option Text → Request → Rest → Rest × Next
execute e fallbacks retries original q r =
    let id = new_request_id e fallbacks original r in
    let prepared = prepare e id q r in
    let request =
      if is_expired e r then with_host (rest_host r.options.hosts) prepared else prepared in
    (
      if is_expired e r then reset_host e r else r,
      sent (record {
        request = request;
        fallbacks = fallbacks;
        retries = retries;
        original_request_id = original;
        request_id = id;
      }),
    )

abbrev pub execute_request : Env → Request → Rest → Rest × Next
execute_request e q r = execute e none 0 none q r

abbrev pub token_text : Option TokenDetails → Option Text
token_text none = none
token_text (some d) = some d.token

abbrev pub with_authorization : Authorization → Request → Request
with_authorization a q = record q { authorization = some a }

-- executeRequestWithAuthentication:withMethod:force:completion:
unfoldable pub execute_request_with_authentication :
    Env → AuthMethod → Bool → Request → Rest → Rest × Next
execute_request_with_authentication e basic force q r =
    execute_request e (with_authorization (basic_key r.options.auth.key) q) r
execute_request_with_authentication e token force q r =
    if not force && token_remains_valid e
    then execute_request e (with_authorization (bearer (token_text e.auth.token_details)) q) r
    else (r, authorizing q)

-- The block that _authorize:options:callback: calls.
unfoldable pub authorized :
    Env → Option TokenDetails → Option Failure → Request → Rest → Rest × Next
authorized e details (some error) q r =
    (r, called (record { status_code = 0; body = none; error = some error }))
authorized e details none q r =
    execute_request e (with_authorization (bearer (token_text details)) q) r

abbrev pub rebase : Rest → Request → Request
rebase r q = if q.relative then record q { host = base_host r } else q

-- executeRequest:withAuthOption:completion:, after the URL is set
unfoldable pub execute_with : Env → Authentication → Request → Rest → Rest × Next
execute_with e off q r = execute_request e q r
execute_with e on q r =
    execute_request_with_authentication e e.auth.method false q
      (record r { token_error_retries = 0 })
execute_with e new_token q r =
    execute_request_with_authentication e e.auth.method true q
      (record r { token_error_retries = 0 })
execute_with e token_retry q r =
    execute_request_with_authentication e e.auth.method true q
      (record r { token_error_retries = r.token_error_retries + 1 })
execute_with e use_basic q r = execute_request_with_authentication e basic false q r

-- executeRequest:withAuthOption:completion:
unfoldable pub execute_request_with_auth_option :
    Env → Authentication → Request → Rest → Rest × Next
execute_request_with_auth_option e option q r = execute_with e option (rebase r q) r
