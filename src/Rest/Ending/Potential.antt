-- ===== src/Rest/Ending/Potential.antt =====
-- What a request of Source/ARTRest.m may still need, in requests and in answers.
use ably_cocoa.Base.{
  ℕ, zero, suc, ◌+◌, ◌-◌, ◌*◌, ◌≤◌, ◌<◌, ◌≡◌, ◌≢◌, refl, Bool, true, false, not, ◌&&◌, Option, none,
  some, List, Text, arith, ltb, leb, ltb→lt, Bool-cases, inl, inr,
}
use ably_cocoa.Options.{TokenDetails}
use ably_cocoa.Fallback.{pop_fallback_host}
use ably_cocoa.Rest.{
  Authentication, off, on, use_basic, new_token, token_retry, AuthMethod, basic, token, Failure,
  Request, Env, Rest, Flight, Next, sent, authorizing, called, execute,
  execute_request_with_authentication, execute_with, execute_request_with_auth_option, authorized,
  set_current_fallback_host, rebase, token_remains_valid, with_authorization, with_host, bearer,
  token_text,
}
use ably_cocoa.Rest.Completion.{
  Reply, Judgement, renew, failed, read_content, or_http_error, decode_error_info, chosen_error,
  should_renew_token, judge_body, judged, retry_at, retry_with, retry_popped, retry_or_call_back,
  should_retry_with_fallback, prioritize, complete_read, complete, fallbacks_of,
}

-- What is there for the renewal of the token, before it is used.
abbrev pub spare : ℕ → ℕ → ℕ
spare zero n = n
spare (suc t) n = 0

abbrev pub limit : Rest → ℕ
limit r = r.options.http_max_retry_count

-- How much a request may still need, where a token is worth `c - 1` requests.
abbrev pub potential : ℕ → Rest × Next → ℕ
potential c (r, sent f) = spare r.token_error_retries (limit r + c) + (limit r - f.retries) + 1
potential c (r, authorizing q) = spare r.token_error_retries (limit r + c) + limit r + c
potential c (r, called o) = 0

abbrev pub unused : Rest → Rest
unused r = record r { token_error_retries = 0 }

abbrev pub used : Rest → Rest
used r = record r { token_error_retries = r.token_error_retries + 1 }

pub spare-le : (t n : ℕ) → spare t n ≤ n
spare-le zero n = omega arith
spare-le (suc t) n = omega arith

pub spare_used : (t n : ℕ) → spare (t + 1) n ≡ 0
spare_used t n = ground arith

pub spare_unused : (t n : ℕ) → ltb t 1 ≡ true → spare t n ≡ n
spare_unused zero n h = refl
spare_unused (suc t) n h = ground arith

pub or_http_error-failed :
    (e : Env) (f : Flight) (a : Reply) (x : Option Failure) → or_http_error e f a x ≢ renew
or_http_error-failed e f a none = cc
or_http_error-failed e f a (some x) = cc

-- A token is renewed only by a request that has not had one renewed.
pub judge_body-renew :
    (e : Env) (r : Rest) (f : Flight) (a : Reply) (b : Option (List ℕ))
    → judge_body e r f a b ≡ renew
    → ltb r.token_error_retries 1 ≡ true
unfolding judge_body
judge_body-renew e r f a none h = ground (arith, or_http_error-failed e f a a.error)
judge_body-renew e r f a (some b) h =
    let d = decode_error_info e a.mime_type b in
    let x = or_http_error-failed e f a (chosen_error (should_renew_token e d.0).1 d.1 a.error) in
    ground (arith, x)

module _ (c : ℕ) where
  pub execute-potential :
      (e : Env) (fallbacks : Option (List Text)) (n : ℕ) (o : Option Text) (q : Request) (r : Rest)
      → potential c (execute e fallbacks n o q r)
        ≡ spare r.token_error_retries (limit r + c) + (limit r - n) + 1
  unfolding execute set_current_fallback_host
  execute-potential e fallbacks n o q r = ground arith

  pub with_authentication-potential :
      (e : Env) (m : AuthMethod) (force : Bool) (q : Request) (r : Rest)
      → 1 ≤ c
      → potential c (execute_request_with_authentication e m force q r)
        ≤ spare r.token_error_retries (limit r + c) + limit r + c
  unfolding execute_request_with_authentication
  with_authentication-potential e basic force q r h =
      omega (arith, execute-potential e none 0 none (with_authorization _ q) r)
  with_authentication-potential e token force q r h =
      elim (Bool-cases (not force && token_remains_valid e)) [
        | inl valid ↦
            rw valid (omega (arith, execute-potential e none 0 none (with_authorization _ q) r))
        | inr new ↦ rw new (omega arith)
      ]

  -- Whatever the authorisation that is asked for, two rounds are enough.
  pub with_option-potential :
      (e : Env) (o : Authentication) (q : Request) (r : Rest)
      → 1 ≤ c
      → potential c (execute_with e o q r) ≤ 2 * (limit r + c)
  unfolding execute_with
  with_option-potential e off q r h =
      omega
        (arith, execute-potential e none 0 none q r, spare-le r.token_error_retries (limit r + c))
  with_option-potential e on q r h =
      omega (arith, with_authentication-potential e e.auth.method false q (unused r) h)
  with_option-potential e new_token q r h =
      omega (arith, with_authentication-potential e e.auth.method true q (unused r) h)
  with_option-potential e token_retry q r h = omega (
    arith,
    with_authentication-potential e e.auth.method true q (used r) h,
    spare-le (r.token_error_retries + 1) (limit r + c),
  )
  with_option-potential e use_basic q r h = omega (
    arith,
    with_authentication-potential e basic false q r h,
    spare-le r.token_error_retries (limit r + c),
  )

  abbrev pub budget : Rest → ℕ
  budget r = spare r.token_error_retries (limit r + c)

  -- A renewal takes what was there for it.
  pub renewal-potential :
      (e : Env) (f : Flight) (r : Rest)
      → 1 ≤ c
      → ltb r.token_error_retries 1 ≡ true
      → potential c (execute_request_with_auth_option e token_retry f.request r)
        < potential c (r, sent f)
  unfolding execute_request_with_auth_option execute_with
  renewal-potential e f r h t = omega (
    arith,
    with_authentication-potential e e.auth.method true (rebase r f.request) (used r) h,
    spare_used r.token_error_retries (limit r + c),
    spare_unused r.token_error_retries (limit r + c) t,
  )

  pub set_current-keeps :
      (now : ℕ) (x : Option Text) (r : Rest)
      → (budget (set_current_fallback_host now x r) ≡ budget r)
        × (limit (set_current_fallback_host now x r) ≡ limit r)
  unfolding set_current_fallback_host
  set_current-keeps now x r = ground arith

  pub retry_at-potential :
      (e : Env) (x : Text) (hosts : List Text) (f : Flight) (r : Rest)
      → ltb f.retries (limit r) ≡ true
      → potential c (retry_at e x hosts f r) < potential c (r, sent f)
  unfolding retry_at
  retry_at-potential e x hosts f r h =
      let k = set_current-keeps e.now (some x) r in
      omega (
        arith,
        execute-potential e (some hosts) (f.retries + 1) f.original_request_id
            (record (with_host x f.request) { host_header = some x })
            (set_current_fallback_host e.now (some x) r),
        k.0,
        k.1,
        ltb→lt f.retries (limit r) h,
      )

  pub retry_popped-potential :
      (e : Env) (popped : Option Text × List Text) (f : Flight) (a : Reply) (r : Rest)
      → ltb f.retries (limit r) ≡ true
      → potential c (retry_popped e popped f a r) < potential c (r, sent f)
  unfolding retry_popped
  retry_popped-potential e (none, hosts) f a r h = omega arith
  retry_popped-potential e (some x, hosts) f a r h = retry_at-potential e x hosts f r h

  pub retry_with-potential :
      (e : Env) (o : Option (List Text)) (f : Flight) (a : Reply) (r : Rest)
      → ltb f.retries (limit r) ≡ true
      → potential c (retry_with e o f a r) < potential c (r, sent f)
  unfolding retry_with
  retry_with-potential e none f a r h = omega arith
  retry_with-potential e (some hosts) f a r h =
      retry_popped-potential e (pop_fallback_host hosts) f a r h

  pub retry_or_call_back-potential :
      (e : Env) (f : Flight) (a : Reply) (r : Rest)
      → potential c (retry_or_call_back e f a r) < potential c (r, sent f)
  unfolding retry_or_call_back
  retry_or_call_back-potential e f a r = elim (Bool-cases (ltb f.retries (limit r))) [
    | inl more ↦ rw more (elim (Bool-cases (should_retry_with_fallback e r f a)) [
      | inl retries ↦ rw retries (retry_with-potential e (fallbacks_of e r f) f a r more)
      | inr final ↦ rw final (omega arith)
    ])
    | inr enough ↦ rw enough (omega arith)
  ]

  pub prioritize-keeps :
      (a : Reply) (r : Rest)
      → (budget (prioritize a r) ≡ budget r) × (limit (prioritize a r) ≡ limit r)
  unfolding prioritize
  prioritize-keeps a r = ground arith

  pub judged-potential :
      (j : Judgement) (e : Env) (f : Flight) (a : Reply) (r : Rest)
      → 1 ≤ c
      → (j ≡ renew → ltb r.token_error_retries 1 ≡ true)
      → potential c (judged j e f a r) < potential c (r, sent f)
  unfolding judged
  judged-potential renew e f a r h u = renewal-potential e f r h (u refl)
  judged-potential (failed x) e f a r h u =
      retry_or_call_back-potential e f (record a { error = some x }) r

  pub complete-potential :
      (e : Env) (a : Reply) (f : Flight) (r : Rest)
      → 1 ≤ c
      → potential c (complete e a f r) < potential c (r, sent f)
  unfolding complete complete_read
  complete-potential e a f r h =
      let b = read_content e r f a in
      elim (Bool-cases (leb 400 b.status_code)) [
        | inl bad ↦ rw bad (
            judged-potential (judge_body e r f b b.body) e f b r h
              (judge_body-renew e r f b b.body))
        | inr good ↦ rw good (
            omega
              (arith, retry_or_call_back-potential e f b (prioritize b r), prioritize-keeps b r))
      ]

  pub authorized-potential :
      (e : Env) (d : Option TokenDetails) (x : Option Failure) (q : Request) (r : Rest)
      → 1 ≤ c
      → potential c (authorized e d x q r) + c ≤ potential c (r, authorizing q) + 1
  unfolding authorized
  authorized-potential e d (some x) q r h = omega arith
  authorized-potential e d none q r h =
      omega
        (arith, execute-potential e none 0 none (with_authorization (bearer (token_text d)) q) r)
