-- ===== src/Rest/Exhausted/Hosts.antt =====
-- The hosts that a request of Source/ARTRest.m has tried, and what holds between two answers.
use ably_cocoa.Base.{
  ℕ, zero, suc, ◌+◌, ◌≤◌, ◌≡◌, refl, sym, ◌∙◌, ap, subst, true, Option, none, some, List, [], ◌∷◌,
  map, Text, text_eq_iff, arith,
}
use ably_cocoa.Fallback.{pop_fallback_host}
use ably_cocoa.Fallback.Laws.{tried}
use ably_cocoa.Rest.{Env, Rest, Flight, Next, sent, set_current_fallback_host}
use ably_cocoa.Rest.Completion.{Reply, fallbacks_of, call_back, Answer, answered, run, trace}
use ably_cocoa.Rest.Ending.{limit}
use ably_cocoa.Rest.Retried.{is_down, InTime, set_current-InTime}

-- An answer of a server that is down, at a time within the given ones.
pub record IsDown (start until : ℕ) (a : Answer) : Type 0 where
  pub down : is_down a.reply ≡ true
  pub begun : start ≤ a.env.now
  pub timely : a.env.now ≤ until

-- The hosts that are tried, with `n` retries at most.
abbrev pub tries : ℕ → Option (List Text) → List Text
tries n none = []
tries n (some hosts) = tried n hosts

abbrev pub last_of : Option Text → List Text → Option Text
last_of d [] = d
last_of d (h ∷ l) = last_of (some h) l

abbrev pub Offers : List Answer → Rest → Flight → Option (List Text) → Type 0
Offers [] r f o = Unit
Offers (a ∷ l) r f o = fallbacks_of a.env r f ≡ o

abbrev pub hosts_of : List Flight → List Text
hosts_of l = map (λ f. f.request.host) l

-- What holds between two answers.
pub record IsWaiting (start until : ℕ) (r : Rest) : Type 0 where
  pub no_auth_url : r.options.auth.auth_url ≡ none
  pub in_time : InTime until r
  pub within : until ≤ start + r.options.fallback_retry_timeout

-- What a request that is sent to `host`, with `n` retries left, comes to by these answers.
pub record IsTried (start until n : ℕ) (host : Text) (o : Option (List Text)) (r : Rest)
    (l : List Answer) (s : Rest × Next) : Type 0 where
  pub hosts : hosts_of (trace l s) ≡ host ∷ tries n o
  pub left : (run l s).0.current_fallback_host ≡ last_of r.current_fallback_host (tries n o)
  pub waiting : IsWaiting start until (run l s).0

abbrev pub current : Rest × Next → Option Text
current s = s.0.current_fallback_host

pub trace-called :
    (l : List Answer) (r : Rest) (f : Flight) (b : Reply) → trace l (call_back f b r) ≡ []
unfolding answered
trace-called [] r f b = refl
trace-called (a ∷ l) r f b = trace-called l r f b

pub run-called :
    (l : List Answer) (r : Rest) (f : Flight) (b : Reply)
    → run l (call_back f b r) ≡ call_back f b r
unfolding answered
run-called [] r f b = refl
run-called (a ∷ l) r f b = run-called l r f b

module _ (start until : ℕ) where
  -- The callback is called.
  pub IsTried-called :
      (n : ℕ) (o : Option (List Text)) (a : Answer) (l : List Answer) (f : Flight) (r : Rest)
      (b : Reply)
      → IsWaiting start until r
      → answered a (r, sent f) ≡ call_back f b r
      → tries n o ≡ []
      → IsTried start until n f.request.host o r (a ∷ l) (r, sent f)
  IsTried-called n o a l f r b w e t = record {
    hosts = rw (e, t, trace-called l r f b) refl;
    left = ap current (ap (run l) e ∙ run-called l r f b) ∙ ap (last_of _) (sym t);
    waiting = subst (λ s. IsWaiting start until s.0) (sym (ap (run l) e ∙ run-called l r f b)) w;
  }

  -- Another host is tried.
  pub IsTried-next :
      (n : ℕ) (h : Text) (hosts rest : List Text) (a : Answer) (l : List Answer) (f g : Flight)
      (r r' : Rest)
      → answered a (r, sent f) ≡ (r', sent g)
      → r'.current_fallback_host ≡ some h
      → tried (suc n) hosts ≡ h ∷ tried n rest
      → IsTried start until n h (some rest) r' l (r', sent g)
      → IsTried start until (suc n) f.request.host (some hosts) r (a ∷ l) (r, sent f)
  IsTried-next n h hosts rest a l f g r r' e c t k = record {
    hosts = rw (e, t) (ap (◌∷◌ f.request.host) k.hosts);
    left =
        ap current (ap (run l) e)
        ∙ k.left
        ∙ ap (λ x. last_of x (tried n rest)) c
        ∙ ap (last_of r.current_fallback_host) (sym t);
    waiting = subst (λ s. IsWaiting start until s.0) (sym (ap (run l) e)) k.waiting;
  }

  pub next-IsWaiting :
      (e : Env) (h : Text) (r : Rest)
      → start ≤ e.now
      → IsWaiting start until r
      → IsWaiting start until (set_current_fallback_host e.now (some h) r)
  unfolding set_current_fallback_host
  next-IsWaiting e h r b w = record {
    no_auth_url = ground (arith, w.no_auth_url);
    in_time = set_current-InTime e.now until h r (omega (arith, w.within)) w.in_time;
    within = ground (arith, w.within);
  }

pub set_current-host :
    (now : ℕ) (h : Text) (r : Rest)
    → (set_current_fallback_host now (some h) r).current_fallback_host ≡ some h
unfolding set_current_fallback_host
set_current-host now h r = same r.current_fallback_host refl
  where
    same :
        (o : Option Text)
        → o ≡ r.current_fallback_host
        → (set_current_fallback_host now (some h) r).current_fallback_host ≡ some h
    same none e = rw (← e) refl
    same (some g) e = ground (arith, text_eq_iff g h)

pub set_current-limit :
    (now : ℕ) (h : Text) (r : Rest) → limit (set_current_fallback_host now (some h) r) ≡ limit r
unfolding set_current_fallback_host
set_current-limit now h r = ground arith

pub Offers-some :
    (l : List Answer) (r : Rest) (f : Flight) (hosts : List Text)
    → f.fallbacks ≡ some hosts
    → Offers l r f (some hosts)
Offers-some [] r f hosts e = tt
Offers-some (a ∷ l) r f hosts e = rw e refl

pub tried-popped :
    (n : ℕ) (hosts rest : List Text) (h : Text)
    → pop_fallback_host hosts ≡ (some h, rest)
    → tried (suc n) hosts ≡ h ∷ tried n rest
tried-popped n hosts rest h e = rw (tried, e) (rw (ap (λ p. p.1) e) refl)

pub tried-empty :
    (n : ℕ) (hosts rest : List Text) → pop_fallback_host hosts ≡ (none, rest) → tried n hosts ≡ []
tried-empty zero hosts rest e = refl
tried-empty (suc n) hosts rest e = rw (tried, e) refl

pub tries-zero : (o : Option (List Text)) → tries 0 o ≡ []
tries-zero none = refl
tries-zero (some hosts) = refl
