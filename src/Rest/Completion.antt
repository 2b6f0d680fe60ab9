-- ===== src/Rest/Completion.antt =====
-- The completion of a request in Source/ARTRest.m: the answer of the server is read, a token renewed, a
-- fallback host tried, or the callback called.
mod Reading
unfoldable pub use Reading.*
use ably_cocoa.Base.{
  ℕ, ◌+◌, ◌*◌, Bool, true, false, ◌&&◌, ◌||◌, not, Option, none, some, List, [], ◌∷◌, ◌++◌, Text,
  codes, ltb, leb, any, if◌then◌else◌, is_some, is_none, same_text, text_eq, pos, negsuc, eqb_ℤ,
  ◌==◌,
}
use ably_cocoa.Types.{ErrorInfo, is_token_error}
use ably_cocoa.Types.Codes.{create_with_code}
use ably_cocoa.Options.{TokenDetails}
use ably_cocoa.Fallback.{hosts_from_options, fallback_init, pop_fallback_host}
use ably_cocoa.Rest.{
  Authentication, Failure, info, other, Env, Rest, Flight, Next, sent, authorizing, called,
  token_is_renewable, set_current_fallback_host, with_host, execute, authorized,
  execute_request_with_auth_option,
}

abbrev pub is_unreachable : Option Failure → Bool
is_unreachable none = false
is_unreachable (some (info e id)) = false
is_unreachable (some (other domain code id)) =
    text_eq domain (codes "NSURLErrorDomain")
    && (eqb_ℤ code (negsuc 1002) || eqb_ℤ code (negsuc 1000))

-- shouldRetryWithFallback:response:error:
unfoldable pub should_retry_with_fallback : Env → Rest → Flight → Reply → Bool
should_retry_with_fallback e r f a =
    if same_text (some f.request.host) (auth_url_host e r)
    then false
    else if leb 500 a.status_code && leb a.status_code 504
    then true
    else is_unreachable a.error

-- copyFromError:withRequestId: on the errors that are no ARTErrorInfo
abbrev pub with_request_id : Option Text → Option Failure → Option Failure
with_request_id id none = none
with_request_id id (some (info e k)) = some (info e k)
with_request_id id (some (other domain code k)) = some (other domain code id)

abbrev pub call_back : Flight → Reply → Rest → Rest × Next
call_back f a r = (
  r,
  called (record {
    status_code = a.status_code;
    body = a.body;
    error = with_request_id f.request_id a.error;
  }),
)

-- The request at a fallback host.
unfoldable pub retry_at : Env → Text → List Text → Flight → Rest → Rest × Next
retry_at e h hosts f r =
    execute e (some hosts) (f.retries + 1) f.original_request_id
      (record (with_host h f.request) { host_header = some h })
      (set_current_fallback_host e.now (some h) r)

abbrev pub fallbacks_of : Env → Rest → Flight → Option (List Text)
fallbacks_of e r f = elim f.fallbacks [
  | none ↦ fallback_init e.shuffle (hosts_from_options r.options.hosts)
  | some hosts ↦ some hosts
]

-- What popFallbackHost answers is tried.
unfoldable pub retry_popped : Env → Option Text × List Text → Flight → Reply → Rest → Rest × Next
retry_popped e (none, hosts) f a r = call_back f a r
retry_popped e (some h, hosts) f a r = retry_at e h hosts f r

unfoldable pub retry_with : Env → Option (List Text) → Flight → Reply → Rest → Rest × Next
retry_with e none f a r = call_back f a r
retry_with e (some hosts) f a r = retry_popped e (pop_fallback_host hosts) f a r

unfoldable pub retry_or_call_back : Env → Flight → Reply → Rest → Rest × Next
retry_or_call_back e f a r =
    if ltb f.retries r.options.http_max_retry_count && should_retry_with_fallback e r f a
    then retry_with e (fallbacks_of e r f) f a r
    else call_back f a r

-- A success at a fallback host makes it the preferred one.
unfoldable pub prioritize : Reply → Rest → Rest
prioritize a r =
    if is_none a.error && is_some r.current_fallback_host
    then record r { prioritized_host = r.current_fallback_host }
    else r

unfoldable pub judged : Judgement → Env → Flight → Reply → Rest → Rest × Next
judged renew e f a r = execute_request_with_auth_option e Authentication.token_retry f.request r
judged (failed error) e f a r = retry_or_call_back e f (record a { error = some error }) r

unfoldable pub complete_read : Env → Flight → Reply → Rest → Rest × Next
complete_read e f a r =
    if leb 400 a.status_code
    then judged (judge_body e r f a a.body) e f a r
    else retry_or_call_back e f a (prioritize a r)

-- The completion block.
unfoldable pub complete : Env → Reply → Flight → Rest → Rest × Next
complete e a f r = complete_read e f (read_content e r f a) r

-- The answer to what a request waits for: of the server, or of the authorisation.
pub record Answer : Type 0 where
  pub env : Env
  pub reply : Reply
  pub details : Option TokenDetails
  pub refusal : Option Failure

unfoldable pub answered : Answer → Rest × Next → Rest × Next
answered a (r, sent f) = complete a.env a.reply f r
answered a (r, authorizing q) = authorized a.env a.details a.refusal q r
answered a (r, called o) = (r, called o)

abbrev pub run : List Answer → Rest × Next → Rest × Next
run [] s = s
run (a ∷ l) s = run l (answered a s)

abbrev pub is_called : Next → Bool
is_called (sent f) = false
is_called (authorizing q) = false
is_called (called o) = true

abbrev pub sent_by : Next → List Flight
sent_by (sent f) = f ∷ []
sent_by (authorizing q) = []
sent_by (called o) = []

-- The requests that are sent to the server.
abbrev pub trace : List Answer → Rest × Next → List Flight
trace [] s = sent_by s.1
trace (a ∷ l) s = sent_by s.1 ++ trace l (answered a s)
