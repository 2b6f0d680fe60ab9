-- ===== src/Rest/Recovered.antt =====
-- A request of Source/ARTRest.m that finds a server which is up, after others that are down.
use ably_cocoa.Base.{
  ℕ, suc, ◌+◌, ◌-◌, ◌≤◌, ◌<◌, ◌≡◌, refl, sym, ◌∙◌, ap, subst, Option, none, some, List, [], ◌∷◌,
  Text, arith, length, take, ltb, ltb→lt, Bool-cases, inl, inr, if◌then◌else◌, All,
}
use ably_cocoa.Fallback.{pop_fallback_host}
use ably_cocoa.Fallback.Laws.{tried}
use ably_cocoa.Rest.{
  Request, Env, Rest, Flight, Next, sent, called, execute_request, set_current_fallback_host,
  with_host, base_host,
}
use ably_cocoa.Rest.Completion.{
  Reply, retry_with, retry_popped, fallbacks_of, call_back, complete, complete_read, Answer,
  answered, run, trace, prioritize, with_request_id,
}
use ably_cocoa.Rest.Ending.{limit}
use ably_cocoa.Rest.Retried.{following, retry_at_in_time, prepare-host, complete-down}
use ably_cocoa.Rest.Exhausted.{
  IsDown, tries, last_of, hosts_of, Offers, IsWaiting, current, next-IsWaiting, set_current-host,
  set_current-limit, Offers-some, tried-popped, tried-empty, tries-zero,
}
use ably_cocoa.Rest.Outage.{
  IsFresh, IsSuccess, drawn, first, execute_in_time, fresh-IsWaiting, success-read, success-retry,
  success-prioritizes,
}

-- After these answers a request waits at the host that it was last sent to.
record IsReached (start until n : ℕ) (host : Text) (o : Option (List Text)) (r : Rest)
    (l : List Answer) (s : Rest × Next) : Type 0 where
  flight : Flight
  reached : (run l s).1 ≡ sent flight
  hosts : hosts_of (trace l s) ≡ host ∷ take (length l) (tries n o)
  left : current (run l s) ≡ last_of r.current_fallback_host (take (length l) (tries n o))
  waiting : IsWaiting start until (run l s).0

module _ (start until : ℕ) where
  IsReached-next :
      (n : ℕ) (h : Text) (hosts rest : List Text) (a : Answer) (l : List Answer) (f g : Flight)
      (r r' : Rest)
      → answered a (r, sent f) ≡ (r', sent g)
      → r'.current_fallback_host ≡ some h
      → tried (suc n) hosts ≡ h ∷ tried n rest
      → IsReached start until n h (some rest) r' l (r', sent g)
      → IsReached start until (suc n) f.request.host (some hosts) r (a ∷ l) (r, sent f)
  IsReached-next n h hosts rest a l f g r r' e c t k = record {
    flight = k.flight;
    reached = ap (λ s. s.1) (ap (run l) e) ∙ k.reached;
    hosts = rw (e, t) (ap (◌∷◌ f.request.host) k.hosts);
    left =
        ap current (ap (run l) e)
        ∙ k.left
        ∙ ap (λ x. last_of x (take (length l) (tried n rest))) c
        ∙ ap (λ x. last_of r.current_fallback_host (take (suc (length l)) x)) (sym t);
    waiting = subst (λ s. IsWaiting start until s.0) (sym (ap (run l) e)) k.waiting;
  }

  abbrev Reaches : List Answer → Type 0
  Reaches l =
      (f : Flight) (r : Rest) (o : Option (List Text))
      → IsWaiting start until r
      → All (IsDown start until) l
      → length l ≤ length (tries (limit r - f.retries) o)
      → Offers l r f o
      → IsReached start until (limit r - f.retries) f.request.host o r l (r, sent f)

  popped-IsReached :
      (popped : Option Text × List Text) (a : Answer) (l : List Answer) (f : Flight) (r : Rest)
      (hosts : List Text) (b : Reply)
      → Reaches l
      → IsWaiting start until r
      → All (IsDown start until) (a ∷ l)
      → suc (length l) ≤ length (tried (limit r - f.retries) hosts)
      → f.retries < limit r
      → pop_fallback_host hosts ≡ popped
      → answered a (r, sent f) ≡ retry_popped a.env popped f b r
      → IsReached start until
          (limit r - f.retries)
          f.request.host
          (some hosts)
          r
          (a ∷ l)
          (r, sent f)
  unfolding retry_popped
  popped-IsReached (none, rest) a l f r hosts b ih w d k m p e =
      absurd (omega (arith, ap length (tried-empty (limit r - f.retries) hosts rest p)))
  popped-IsReached (some h, rest) a l f r hosts b ih w d k m p e =
      let r' = set_current_fallback_host a.env.now (some h) r in
      let g = following a.env h rest f r' in
      let w' = next-IsWaiting start until a.env h r d.0.begun w in
      let at = retry_at_in_time a.env h rest f r (w'.in_time a.env d.0.timely) in
      let n = limit r - (f.retries + 1) in
      let one : limit r - f.retries ≡ suc n = omega arith in
      let same = ap (λ m. m - (f.retries + 1)) (set_current-limit a.env.now h r) in
      let more = ap (λ m. length (tried m hosts)) one in
      let found = ap length (tried-popped n hosts rest h p) in
      let enough : length l ≤ length (tried n rest) = omega arith in
      let k' = subst (λ m. length l ≤ length (tried m rest)) (sym same) enough in
      let rest_reached = ih g r' (some rest) w' d.1 k' (Offers-some l r' g rest refl) in
      let counted =
        subst (λ m. IsReached start until m g.request.host (some rest) r' l (r', sent g)) same
          rest_reached in
      let named =
        subst (λ x. IsReached start until n x (some rest) r' l (r', sent g))
          (prepare-host a.env g.request_id (record (with_host h f.request) { host_header = some h })
            r')
          counted in
      subst (λ m. IsReached start until m f.request.host (some hosts) r (a ∷ l) (r, sent f))
        (sym one)
        (IsReached-next n h hosts rest a l f g r r' (e ∙ at) (set_current-host a.env.now h r)
          (tried-popped n hosts rest h p) named)

  retried-IsReached :
      (o : Option (List Text)) (a : Answer) (l : List Answer) (f : Flight) (r : Rest) (b : Reply)
      → Reaches l
      → IsWaiting start until r
      → All (IsDown start until) (a ∷ l)
      → suc (length l) ≤ length (tries (limit r - f.retries) o)
      → f.retries < limit r
      → answered a (r, sent f) ≡ retry_with a.env o f b r
      → IsReached start until (limit r - f.retries) f.request.host o r (a ∷ l) (r, sent f)
  unfolding retry_with
  retried-IsReached none a l f r b ih w d k m e = absurd (omega arith)
  retried-IsReached (some hosts) a l f r b ih w d k m e =
      popped-IsReached (pop_fallback_host hosts) a l f r hosts b ih w d k m refl e

  down-IsReached : (l : List Answer) → Reaches l
  unfolding answered
  down-IsReached [] f r o w d k q = record {
    flight = f;
    reached = refl;
    hosts = refl;
    left = refl;
    waiting = w;
  }
  down-IsReached (a ∷ l) f r o w d k q =
      let (b, step) = complete-down a.env a.reply f r w.no_auth_url d.0.down in
      elim (Bool-cases (ltb f.retries (limit r))) [
        | inl more ↦
            retried-IsReached o a l f r b (down-IsReached l) w d k (ltb→lt f.retries (limit r) more)
              (step
                ∙ ap
                    (λ t.
                      if t
                      then retry_with a.env (fallbacks_of a.env r f) f b r
                      else call_back f b r)
                    more
                ∙ ap (λ x. retry_with a.env x f b r) q)
        | inr enough ↦
            let z : limit r - f.retries ≡ 0 = ground arith in
            absurd (omega (arith, ap length (ap (λ m. tries m o) z ∙ tries-zero o)))
      ]

success-called :
    (b : Answer) (f : Flight) (r : Rest)
    → IsSuccess b
    → (answered b (r, sent f)).1
      ≡ called (record { status_code = b.reply.status_code; body = b.reply.body; error = none })
unfolding answered complete complete_read
success-called b f r ok =
    ap (λ a. (complete_read b.env f a r).1) (success-read b f r ok)
    ∙ rw ok.status (
        ap (λ s. s.1) (success-retry b f (prioritize b.reply r) ok)
        ∙ ap
            (λ x. called (record {
              status_code = b.reply.status_code;
              body = b.reply.body;
              error = with_request_id f.request_id x;
            }))
            ok.no_error)

module _ (e : Env) (r : Rest) (fresh : IsFresh r) where
  recovery-IsReached :
      (a : Answer) (l : List Answer) (q : Request)
      → All (IsDown e.now (e.now + r.options.fallback_retry_timeout)) (a ∷ l)
      → suc (length l) ≤ length (tries (limit r) (drawn a r))
      → IsReached e.now
          (e.now + r.options.fallback_retry_timeout)
          (limit r)
          q.host
          (drawn a r)
          r
          (a ∷ l)
          (execute_request e q r)
  recovery-IsReached a l q d k =
      let until = e.now + r.options.fallback_retry_timeout in
      let g = first e q r in
      let w = fresh-IsWaiting e r fresh in
      let start = execute_in_time e q r (w.in_time e (omega arith)) in
      let all : limit r - g.retries ≡ limit r = omega arith in
      let k' = subst (λ m. suc (length l) ≤ length (tries m (drawn a r))) (sym all) k in
      let t = down-IsReached e.now until (a ∷ l) g r (drawn a r) w d k' refl in
      let counted =
        subst (λ m. IsReached e.now until m g.request.host (drawn a r) r (a ∷ l) (r, sent g)) all
          t in
      let named =
        subst (λ x. IsReached e.now until (limit r) x (drawn a r) r (a ∷ l) (r, sent g))
          (prepare-host e g.request_id q r) counted in
      subst (IsReached e.now until (limit r) q.host (drawn a r) r (a ∷ l)) (sym start) named

  -- When some servers are down, the own host first and then fallback hosts in the order of the pops, and
  -- the server at the next host answers with a success, the callback gets that answer without an error,
  -- and the last host that was tried is the host of the next requests. This is where the client uses no
  -- fallback host before and has no URL for its authorisation, no other request of it runs, the hosts and
  -- the retries that are allowed are enough, and the answers of the servers that are down come within the
  -- fallback retry timeout.
  pub recovers :
      (a : Answer) (l : List Answer) (q : Request) (b : Answer) (h : Text)
      → All (IsDown e.now (e.now + r.options.fallback_retry_timeout)) (a ∷ l)
      → suc (length l) ≤ length (tries (limit r) (drawn a r))
      → last_of none (take (suc (length l)) (tries (limit r) (drawn a r))) ≡ some h
      → IsSuccess b
      → (hosts_of (trace (a ∷ l) (execute_request e q r))
          ≡ q.host ∷ take (suc (length l)) (tries (limit r) (drawn a r)))
        × ((answered b (run (a ∷ l) (execute_request e q r))).1
            ≡ called
                (record { status_code = b.reply.status_code; body = b.reply.body; error = none }))
        × (base_host (answered b (run (a ∷ l) (execute_request e q r))).0 ≡ h)
  recovers a l q b h d k last ok =
      let s = run (a ∷ l) (execute_request e q r) in
      let found = recovery-IsReached a l q d k in
      let whole : s ≡ (s.0, sent found.flight) = ap (λ n. (s.0, n)) found.reached in
      let host =
        found.left
        ∙ ap (λ x. last_of x (take (suc (length l)) (tries (limit r) (drawn a r))))
            fresh.no_fallback
        ∙ last in
      (
        found.hosts,
        ap (λ x. (answered b x).1) whole ∙ success-called b found.flight s.0 ok,
        ap (λ x. base_host (answered b x).0) whole
            ∙ success-prioritizes b found.flight s.0 h host ok,
      )
