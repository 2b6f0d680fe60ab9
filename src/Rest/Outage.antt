-- ===== src/Rest/Outage.antt =====
-- What a request of Source/ARTRest.m does when all servers are down, and what it leaves for later ones.
use ably_cocoa.Base.{
  suc, ◌+◌, ◌-◌, ◌≤◌, ◌≡◌, refl, sym, ◌∙◌, ap, subst, true, false, Option, none, some, List, ◌∷◌,
  Text, arith, length, leb, All,
}
use ably_cocoa.Fallback.{fallback_init, hosts_from_options}
use ably_cocoa.Rest.{
  Request, Env, Rest, Flight, sent, execute, execute_request, prepare, new_request_id, is_expired,
  base_host,
}
use ably_cocoa.Rest.Completion.{
  Reply, Answer, answered, run, trace, complete, complete_read, read_content, retry_or_call_back,
  should_retry_with_fallback, prioritize, is_valid_content_type, call_back,
}
use ably_cocoa.Rest.Ending.{limit}
use ably_cocoa.Rest.Retried.{prepare-host}
use ably_cocoa.Rest.Exhausted.{IsDown, tries, last_of, hosts_of, IsWaiting, IsTried, down-IsTried}

-- The fallback hosts, in the order that is drawn at an answer.
abbrev pub drawn : Answer → Rest → Option (List Text)
drawn a r = fallback_init a.env.shuffle (hosts_from_options r.options.hosts)

abbrev pub first : Env → Request → Rest → Flight
first e q r =
    let id = new_request_id e none none r in
    record {
      request = prepare e id q r;
      fallbacks = none;
      retries = 0;
      original_request_id = none;
      request_id = id;
    }

pub execute_in_time :
    (e : Env) (q : Request) (r : Rest)
    → is_expired e r ≡ false
    → execute_request e q r ≡ (r, sent (first e q r))
unfolding execute
execute_in_time e q r h = rw h refl

-- A success: the answer has a status below 400, no error, and a content that the client reads.
pub record IsSuccess (b : Answer) : Type 0 where
  pub status : leb 400 b.reply.status_code ≡ false
  pub no_error : b.reply.error ≡ none
  pub readable : is_valid_content_type b.env b.reply.content_type ≡ true

pub success-read :
    (b : Answer) (f : Flight) (r : Rest) → IsSuccess b → read_content b.env r f b.reply ≡ b.reply
unfolding read_content
success-read b f r ok = ground (arith, ok.readable, ok.no_error)

success-final :
    (b : Answer) (f : Flight) (r : Rest)
    → IsSuccess b
    → should_retry_with_fallback b.env r f b.reply ≡ false
unfolding should_retry_with_fallback
success-final b f r ok = ground (arith, ok.status, ok.no_error)

pub success-retry :
    (b : Answer) (f : Flight) (r : Rest)
    → IsSuccess b
    → retry_or_call_back b.env f b.reply r ≡ call_back f b.reply r
unfolding retry_or_call_back
success-retry b f r ok = rw (success-final b f r ok) (ground arith)

prioritize-host :
    (a : Reply) (r : Rest) (h : Text)
    → r.current_fallback_host ≡ some h
    → a.error ≡ none
    → base_host (prioritize a r) ≡ h
unfolding prioritize base_host
prioritize-host a r h c n = rw (n, c) refl

pub success-prioritizes :
    (b : Answer) (f : Flight) (r : Rest) (h : Text)
    → r.current_fallback_host ≡ some h
    → IsSuccess b
    → base_host (answered b (r, sent f)).0 ≡ h
unfolding answered complete complete_read
success-prioritizes b f r h c ok =
    ap (λ a. base_host (complete_read b.env f a r).0) (success-read b f r ok)
    ∙ rw ok.status (
        ap (λ s. base_host s.0) (success-retry b f (prioritize b.reply r) ok)
        ∙ prioritize-host b.reply r h c ok.no_error)

-- A client that does not use a fallback host, and has its authorisation from elsewhere than a URL.
pub record IsFresh (r : Rest) : Type 0 where
  pub no_auth_url : r.options.auth.auth_url ≡ none
  pub no_fallback : r.current_fallback_host ≡ none

module _ (e : Env) (r : Rest) (fresh : IsFresh r) where
  pub fresh-IsWaiting : IsWaiting e.now (e.now + r.options.fallback_retry_timeout) r
  fresh-IsWaiting = record {
    no_auth_url = fresh.no_auth_url;
    in_time = λ d h. rw fresh.no_fallback refl;
    within = omega arith;
  }

  outage-IsTried :
      (a : Answer) (l : List Answer) (q : Request)
      → All (IsDown e.now (e.now + r.options.fallback_retry_timeout)) (a ∷ l)
      → limit r ≤ suc (length l)
      → IsTried e.now
          (e.now + r.options.fallback_retry_timeout)
          (limit r)
          q.host
          (drawn a r)
          r
          (a ∷ l)
          (execute_request e q r)
  outage-IsTried a l q d k =
      let until = e.now + r.options.fallback_retry_timeout in
      let g = first e q r in
      let start = execute_in_time e q r (fresh-IsWaiting.in_time e (omega arith)) in
      let k' : limit r - g.retries ≤ suc (length l) = omega arith in
      let t = down-IsTried e.now until (a ∷ l) g r (drawn a r) fresh-IsWaiting d k' refl in
      let all : limit r - g.retries ≡ limit r = omega arith in
      let counted =
        subst (λ m. IsTried e.now until m g.request.host (drawn a r) r (a ∷ l) (r, sent g)) all t in
      let named =
        subst (λ x. IsTried e.now until (limit r) x (drawn a r) r (a ∷ l) (r, sent g))
          (prepare-host e g.request_id q r) counted in
      subst (IsTried e.now until (limit r) q.host (drawn a r) r (a ∷ l)) (sym start) named

  -- While all servers are down, a request is sent to its own host and then to the fallback hosts in the
  -- order of the pops, `httpMaxRetryCount` at most. This is where the client uses no fallback host before
  -- and has no URL for its authorisation, no other request of it runs, and all the answers come within
  -- the fallback retry timeout.
  pub trace-outage :
      (a : Answer) (l : List Answer) (q : Request)
      → All (IsDown e.now (e.now + r.options.fallback_retry_timeout)) (a ∷ l)
      → limit r ≤ suc (length l)
      → hosts_of (trace (a ∷ l) (execute_request e q r)) ≡ q.host ∷ tries (limit r) (drawn a r)
  trace-outage a l q d k = (outage-IsTried a l q d k).hosts

  -- After such an outage, where a fallback host was tried, the success of a later request, at whatever
  -- host, makes the last fallback host that failed the host of the next requests, while the fallback
  -- retry timeout has not passed.
  pub outage-prioritizes :
      (a : Answer) (l : List Answer) (q : Request) (h : Text) (e' : Env) (q' : Request) (b : Answer)
      → All (IsDown e.now (e.now + r.options.fallback_retry_timeout)) (a ∷ l)
      → limit r ≤ suc (length l)
      → last_of none (tries (limit r) (drawn a r)) ≡ some h
      → e'.now ≤ e.now + r.options.fallback_retry_timeout
      → IsSuccess b
      → base_host (answered b (execute_request e' q' (run (a ∷ l) (execute_request e q r)).0)).0 ≡ h
  outage-prioritizes a l q h e' q' b d k last t ok =
      let s = run (a ∷ l) (execute_request e q r) in
      let left = outage-IsTried a l q d k in
      let host : s.0.current_fallback_host ≡ some h =
        left.left ∙ ap (λ x. last_of x (tries (limit r) (drawn a r))) fresh.no_fallback ∙ last in
      let sent_now = execute_in_time e' q' s.0 (left.waiting.in_time e' t) in
      ap (λ x. base_host (answered b x).0) sent_now
      ∙ success-prioritizes b (first e' q' s.0) s.0 h host ok
