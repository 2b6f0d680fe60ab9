-- ===== src/Rest/Retried.antt =====
-- The hosts that Source/ARTRest.m tries while the servers are down.
use ably_cocoa.Base.{
  ℕ, ◌+◌, ◌≤◌, ◌≡◌, refl, Bool, true, false, ◌&&◌, ◌||◌, Option, none, some, List, Text, arith, ltb,
  leb, Bool-cases, inl, inr, if◌then◌else◌, is_none,
}
use ably_cocoa.Rest.{
  Request, Env, Rest, Failure, Flight, Next, sent, execute, set_current_fallback_host, prepare,
  new_request_id, is_expired, with_host,
}
use ably_cocoa.Rest.Completion.{
  Reply, read_content, judge_body, judged, retry_at, retry_with, retry_or_call_back, prioritize,
  complete_read, complete, fallbacks_of, call_back, is_unreachable, has_length,
  should_retry_with_fallback, failed, or_http_error,
}
use ably_cocoa.Rest.Ending.{limit}

-- No server was there, or it had an internal error; no body says more.
abbrev pub is_down : Reply → Bool
is_down a =
    is_none a.body && (leb 500 a.status_code && leb a.status_code 504 || is_unreachable a.error)

-- The host in use does not expire before this time.
abbrev pub InTime : ℕ → Rest → Type 0
InTime until r = (e : Env) → e.now ≤ until → is_expired e r ≡ false

abbrev pub following : Env → Text → List Text → Flight → Rest → Flight
following e h hosts f r =
    let id = new_request_id e (some hosts) f.original_request_id r in
    record {
      request = prepare e id (record (with_host h f.request) { host_header = some h }) r;
      fallbacks = some hosts;
      retries = f.retries + 1;
      original_request_id = f.original_request_id;
      request_id = id;
    }

pub set_current-InTime :
    (now until : ℕ) (h : Text) (r : Rest)
    → until ≤ now + r.options.fallback_retry_timeout
    → InTime until r
    → InTime until (set_current_fallback_host now (some h) r)
unfolding set_current_fallback_host
set_current-InTime now until h r k t e u = ground (arith, t e u)

pub retry_at_in_time :
    (e : Env) (h : Text) (hosts : List Text) (f : Flight) (r : Rest)
    → is_expired e (set_current_fallback_host e.now (some h) r) ≡ false
    → retry_at e h hosts f r ≡ (
      set_current_fallback_host e.now (some h) r,
      sent (following e h hosts f (set_current_fallback_host e.now (some h) r)),
    )
unfolding retry_at execute
retry_at_in_time e h hosts f r x = rw x

pub prepare-host :
    (e : Env) (id : Option Text) (q : Request) (r : Rest) → (prepare e id q r).host ≡ q.host
unfolding prepare
prepare-host e id q r = ground arith

has_length-none : (b : Option (List ℕ)) → is_none b ≡ true → has_length b ≡ false
has_length-none none h = refl
has_length-none (some b) h = cc

read-down :
    (e : Env) (r : Rest) (f : Flight) (a : Reply) → is_none a.body ≡ true → read_content e r f a ≡ a
unfolding read_content
read-down e r f a h = ground (arith, has_length-none a.body h)

should_retry-down :
    (e : Env) (r : Rest) (f : Flight) (a : Reply)
    → r.options.auth.auth_url ≡ none
    → (leb 500 a.status_code && leb a.status_code 504 || is_unreachable a.error) ≡ true
    → should_retry_with_fallback e r f a ≡ true
unfolding should_retry_with_fallback
should_retry-down e r f a n d = ground arith

-- An answer of a server that is down leads to a retry or to the callback, with some reply.
retry-down :
    (e : Env) (f : Flight) (a : Reply) (r : Rest)
    → r.options.auth.auth_url ≡ none
    → (leb 500 a.status_code && leb a.status_code 504 || is_unreachable a.error) ≡ true
    → retry_or_call_back e f a r ≡ (
        if ltb f.retries (limit r)
        then retry_with e (fallbacks_of e r f) f a r
        else call_back f a r)
unfolding retry_or_call_back
retry-down e f a r n d =
    rw (should_retry-down e r f a n d) (rw (and_true (ltb f.retries (limit r))) refl)
  where
    and_true : (b : Bool) → (b && true) ≡ b
    and_true true = refl
    and_true false = refl

judge-down :
    (e : Env) (r : Rest) (f : Flight) (a : Reply) (b : Option (List ℕ))
    → is_none b ≡ true
    → (x : Failure) × (judge_body e r f a b ≡ failed x)
      × ((leb 500 a.status_code && leb a.status_code 504 || is_unreachable a.error) ≡ true
          → (leb 500 a.status_code && leb a.status_code 504 || is_unreachable (some x)) ≡ true)
unfolding judge_body
judge-down e r f a none h = chosen a.error
  where
    chosen :
        (y : Option Failure)
        → (x : Failure) × (or_http_error e f a y ≡ failed x)
          × ((leb 500 a.status_code && leb a.status_code 504 || is_unreachable y) ≡ true
              → (leb 500 a.status_code && leb a.status_code 504 || is_unreachable (some x)) ≡ true)
    chosen none = (_, refl, λ d. d)
    chosen (some y) = (y, refl, λ d. d)
judge-down e r f a (some b) h = cc

-- The state after an answer of a server that is down, when the reply comes to `b`.
abbrev pub after_down : Env → Flight → Reply → Rest → Rest × Next
after_down e f b r =
    if ltb f.retries (limit r) then retry_with e (fallbacks_of e r f) f b r else call_back f b r

and_split : (b c : Bool) → (b && c) ≡ true → (b ≡ true) × (c ≡ true)
and_split true c h = (refl, h)
and_split false c h = cc

prioritize-down :
    (a : Reply) (r : Rest)
    → (leb 500 a.status_code && leb a.status_code 504 || is_unreachable a.error) ≡ true
    → leb 400 a.status_code ≡ false
    → prioritize a r ≡ r
unfolding prioritize
prioritize-down a r d h = ground arith

pub complete-down :
    (e : Env) (a : Reply) (f : Flight) (r : Rest)
    → r.options.auth.auth_url ≡ none
    → is_down a ≡ true
    → (b : Reply) × (complete e a f r ≡ after_down e f b r)
unfolding complete complete_read judged
complete-down e a f r n d =
    let parts = and_split (is_none a.body) _ d in
    let (x, failing, still) = judge-down e r f a a.body parts.0 in
    rw (read-down e r f a parts.0) (elim (Bool-cases (leb 400 a.status_code)) [
      | inl bad ↦ (
        record a { error = some x },
        rw bad (rw failing (retry-down e f (record a { error = some x }) r n (still parts.1))),
      )
      | inr good ↦
          (a, rw good (rw (prioritize-down a r parts.1 good) (retry-down e f a r n parts.1)))
    ])
