-- ===== src/Rest/Ending.antt =====
-- A request of Source/ARTRest.m ends: how much a request may still wait for.
mod Potential
pub use Potential.*
use ably_cocoa.Base.{
  ℕ, zero, suc, ◌+◌, ◌-◌, ◌*◌, ◌≤◌, ◌<◌, ◌≡◌, ◌≢◌, refl, Bool, true, false, not, ◌&&◌, Option, none,
  some, List, [], ◌∷◌, Text, length-append, arith, length, length-append, ltb, leb, ltb→lt,
  Bool-cases, inl, inr,
}
use ably_cocoa.Options.{TokenDetails}
use ably_cocoa.Fallback.{pop_fallback_host}
use ably_cocoa.Rest.{
  Authentication, off, on, use_basic, new_token, token_retry, AuthMethod, basic, token, Failure,
  Request, Env, Rest, Flight, Next, sent, authorizing, called, execute,
  execute_request_with_authentication, execute_with, execute_request_with_auth_option, authorized,
  set_current_fallback_host, rebase, token_remains_valid, with_authorization, with_host, bearer,
  token_text,
}
use ably_cocoa.Rest.Completion.{
  Reply, Judgement, renew, failed, read_content, or_http_error, decode_error_info, chosen_error,
  should_renew_token, judge_body, judged, retry_at, retry_with, retry_popped, retry_or_call_back,
  should_retry_with_fallback, prioritize, complete_read, complete, fallbacks_of, Answer, answered,
  run, trace, is_called, sent_by,
}

answered-sent :
    (a : Answer) (s : Rest × Next)
    → length (sent_by s.1) + potential 1 (answered a s) ≤ potential 1 s
unfolding answered
answered-sent a (r, sent f) = omega (arith, complete-potential 1 a.env a.reply f r (omega arith))
answered-sent a (r, authorizing q) =
    omega (arith, authorized-potential 1 a.env a.details a.refusal q r (omega arith))
answered-sent a (r, called o) = omega arith

trace-bound : (l : List Answer) (s : Rest × Next) → length (trace l s) ≤ potential 1 s
trace-bound [] (r, sent f) = omega arith
trace-bound [] (r, authorizing q) = omega arith
trace-bound [] (r, called o) = omega arith
trace-bound (a ∷ l) s = omega (
  arith,
  trace-bound l (answered a s),
  answered-sent a s,
  length-append (sent_by s.1) (trace l (answered a s)),
)

answered-waits : (a : Answer) (s : Rest × Next) → potential 2 (answered a s) ≤ potential 2 s - 1
unfolding answered
answered-waits a (r, sent f) = omega (arith, complete-potential 2 a.env a.reply f r (omega arith))
answered-waits a (r, authorizing q) =
    omega (arith, authorized-potential 2 a.env a.details a.refusal q r (omega arith))
answered-waits a (r, called o) = omega arith

run-waits : (l : List Answer) (s : Rest × Next) → potential 2 (run l s) ≤ potential 2 s - length l
run-waits [] s = omega arith
run-waits (a ∷ l) s = omega (arith, run-waits l (answered a s), answered-waits a s)

is_called-potential : (s : Rest × Next) → potential 2 s ≡ 0 → is_called s.1 ≡ true
is_called-potential (r, sent f) h = absurd (omega arith)
is_called-potential (r, authorizing q) h = absurd (omega arith)
is_called-potential (r, called o) h = refl

-- Whatever the server and the authorisation answer to a request, while no other request of the client
-- runs: with 2 * (httpMaxRetryCount + 2) answers it has called its callback, and it has sent at most
-- 2 * (httpMaxRetryCount + 1) requests to the server.
pub run-ends :
    (l : List Answer) (e : Env) (o : Authentication) (q : Request) (r : Rest)
    → 2 * (limit r + 2) ≤ length l
    → (is_called (run l (execute_request_with_auth_option e o q r)).1 ≡ true)
      × (length (trace l (execute_request_with_auth_option e o q r)) ≤ 2 * (limit r + 1))
unfolding execute_request_with_auth_option
run-ends l e o q r h =
    let q' = rebase r q in
    let s = execute_with e o q' r in
    (
      is_called-potential (run l s)
          (omega (arith, run-waits l s, with_option-potential 2 e o q' r (omega arith))),
      omega (arith, trace-bound l s, with_option-potential 1 e o q' r (omega arith)),
    )
