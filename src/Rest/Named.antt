-- ===== src/Rest/Named.antt =====
-- The request ids of Source/ARTRest.m.
mod Items
pub use Items.*
use ably_cocoa.Base.{
  ℕ, zero, suc, ◌+◌, ◌≡◌, refl, ap, ◌∙◌, inl, inr, Bool, true, false, not, ◌&&◌, Option, none, some,
  List, [], ◌∷◌, ◌++◌, append_assoc, Text, arith, ltb, leb, ◌==◌, is_some, is_none, Bool-cases,
  if◌then◌else◌, All, All-append,
}
use ably_cocoa.Fallback.{pop_fallback_host}
use ably_cocoa.Rest.{
  Authentication, off, on, use_basic, new_token, token_retry, AuthMethod, basic, token, Failure,
  Request, Env, Rest, Flight, Next, sent, authorizing, called, execute, prepare, new_request_id,
  is_expired, set_current_fallback_host, with_host, is_token_auth,
  execute_request_with_authentication, execute_with, execute_request_with_auth_option, authorized,
  rebase, token_remains_valid, with_authorization,
}
use ably_cocoa.Rest.Completion.{
  Reply, Judgement, renew, failed, read_content, judge_body, judged, retry_at, retry_with,
  retry_popped, retry_or_call_back, should_retry_with_fallback, prioritize, complete_read, complete,
  fallbacks_of, Answer, answered, trace, sent_by,
}
use ably_cocoa.Rest.Ending.{limit}

with_authentication-Unpassed :
    (e : Env) (m : AuthMethod) (force : Bool) (q : Request) (r : Rest)
    → Adds r
    → Unpassed (execute_request_with_authentication e m force q r)
unfolding execute_request_with_authentication
with_authentication-Unpassed e basic force q r h = first-Unpassed e (with_authorization _ q) r h
with_authentication-Unpassed e token force q r h =
    elim (Bool-cases (not force && token_remains_valid e)) [
      | inl kept ↦ rw kept (first-Unpassed e (with_authorization _ q) r h)
      | inr renewed ↦ rw renewed (h, tt)
    ]

with_option-Unpassed :
    (e : Env) (o : Authentication) (q : Request) (r : Rest)
    → Adds r
    → Unpassed (execute_request_with_auth_option e o q r)
unfolding execute_request_with_auth_option execute_with
with_option-Unpassed e off q r h = first-Unpassed e (rebase r q) r h
with_option-Unpassed e on q r h =
    with_authentication-Unpassed e e.auth.method false (rebase r q)
      (record r { token_error_retries = 0 }) h
with_option-Unpassed e new_token q r h =
    with_authentication-Unpassed e e.auth.method true (rebase r q)
      (record r { token_error_retries = 0 }) h
with_option-Unpassed e token_retry q r h =
    with_authentication-Unpassed e e.auth.method true (rebase r q)
      (record r { token_error_retries = r.token_error_retries + 1 }) h
with_option-Unpassed e use_basic q r h = with_authentication-Unpassed e basic false (rebase r q) r h

retry_popped-Unpassed :
    (e : Env) (x : Option Text × List Text) (f : Flight) (a : Reply) (r : Rest)
    → Adds r
    → Passing (sent f)
    → Unpassed (retry_popped e x f a r)
unfolding retry_popped
retry_popped-Unpassed e (none, rest) f a r h p = (h, tt)
retry_popped-Unpassed e (some host, rest) f a r h p = retry_at-Unpassed e host rest f r h p

retry_with-Unpassed :
    (e : Env) (o : Option (List Text)) (f : Flight) (a : Reply) (r : Rest)
    → Adds r
    → Passing (sent f)
    → Unpassed (retry_with e o f a r)
unfolding retry_with
retry_with-Unpassed e none f a r h p = (h, tt)
retry_with-Unpassed e (some hosts) f a r h p =
    retry_popped-Unpassed e (pop_fallback_host hosts) f a r h p

retry_or_call_back-Unpassed :
    (e : Env) (f : Flight) (a : Reply) (r : Rest)
    → Adds r
    → Passing (sent f)
    → Unpassed (retry_or_call_back e f a r)
unfolding retry_or_call_back
retry_or_call_back-Unpassed e f a r h p =
    elim (Bool-cases (ltb f.retries (limit r) && should_retry_with_fallback e r f a)) [
      | inl more ↦ rw more (retry_with-Unpassed e (fallbacks_of e r f) f a r h p)
      | inr final ↦ rw final (h, tt)
    ]

judged-Unpassed :
    (j : Judgement) (e : Env) (f : Flight) (a : Reply) (r : Rest)
    → Adds r
    → Passing (sent f)
    → Unpassed (judged j e f a r)
unfolding judged
judged-Unpassed renew e f a r h p = with_option-Unpassed e token_retry f.request r h
judged-Unpassed (failed x) e f a r h p =
    retry_or_call_back-Unpassed e f (record a { error = some x }) r h p

prioritize-Adds : (a : Reply) (r : Rest) → Adds r → Adds (prioritize a r)
unfolding prioritize
prioritize-Adds a r h = elim (Bool-cases (is_none a.error && is_some r.current_fallback_host)) [
  | inl taken ↦ rw taken h
  | inr left ↦ rw left h
]

complete-Unpassed :
    (e : Env) (a : Reply) (f : Flight) (r : Rest)
    → Adds r
    → Passing (sent f)
    → Unpassed (complete e a f r)
unfolding complete complete_read
complete-Unpassed e a f r h p =
    let b = read_content e r f a in
    elim (Bool-cases (leb 400 b.status_code)) [
      | inl bad ↦ rw bad (judged-Unpassed (judge_body e r f b b.body) e f b r h p)
      | inr good ↦
          rw good (retry_or_call_back-Unpassed e f b (prioritize b r) (prioritize-Adds b r h) p)
    ]

answered-Unpassed : (a : Answer) (s : Rest × Next) → Unpassed s → Unpassed (answered a s)
unfolding answered authorized
answered-Unpassed a (r, sent f) (h, p) = complete-Unpassed a.env a.reply f r h p
answered-Unpassed a (r, authorizing q) (h, p) = granted a.refusal
  where
    granted : (x : Option Failure) → Unpassed (authorized a.env a.details x q r)
    granted none = first-Unpassed a.env (with_authorization _ q) r h
    granted (some x) = (h, tt)
answered-Unpassed a (r, called o) u = u

sent_by-IsNamed : (n : Next) → Passing n → All IsNamed (sent_by n)
sent_by-IsNamed (sent f) p = (p.1, tt)
sent_by-IsNamed (authorizing q) p = tt
sent_by-IsNamed (called o) p = tt

trace-IsNamed : (l : List Answer) (s : Rest × Next) → Unpassed s → All IsNamed (trace l s)
trace-IsNamed [] s u = sent_by-IsNamed s.1 u.1
trace-IsNamed (a ∷ l) s u =
    All-append IsNamed (sent_by s.1) (trace l (answered a s)) (sent_by-IsNamed s.1 u.1)
      (trace-IsNamed l (answered a s) (answered-Unpassed a s u))

-- Where the client adds request ids, and whatever is answered, every request that is sent has a request
-- id in its URL, followed by one request_id item without a value for each retry at a fallback host that
-- it is. The id that is given to the errors of a request is the one in its URL if it is not a retry, and
-- nil if it is one.
pub execute-IsNamed :
    (l : List Answer) (e : Env) (o : Authentication) (q : Request) (r : Rest)
    → Adds r
    → All IsNamed (trace l (execute_request_with_auth_option e o q r))
execute-IsNamed l e o q r h =
    trace-IsNamed l (execute_request_with_auth_option e o q r) (with_option-Unpassed e o q r h)
