-- ===== src/Rest/Exhausted.antt =====
-- A request of Source/ARTRest.m while all servers are down.
mod Hosts
pub use Hosts.*
use ably_cocoa.Base.{
  ℕ, zero, suc, ◌+◌, ◌-◌, ◌≤◌, ◌<◌, ◌≡◌, refl, sym, ◌∙◌, ap, subst, true, Option, none, some, List,
  [], ◌∷◌, map, Text, text_eq_iff, arith, length, ltb, ltb→lt, Bool-cases, inl, inr, if◌then◌else◌,
  All,
}
use ably_cocoa.Fallback.{pop_fallback_host}
use ably_cocoa.Fallback.Laws.{tried}
use ably_cocoa.Rest.{Env, Rest, Flight, Next, sent, set_current_fallback_host, with_host}
use ably_cocoa.Rest.Completion.{
  Reply, retry_with, retry_popped, fallbacks_of, call_back, Answer, answered, run, trace,
}
use ably_cocoa.Rest.Ending.{limit}
use ably_cocoa.Rest.Retried.{
  is_down, InTime, following, set_current-InTime, retry_at_in_time, prepare-host, complete-down,
}

module _ (start until : ℕ) where
  abbrev pub Done : List Answer → Type 0
  Done l =
      (f : Flight) (r : Rest) (o : Option (List Text))
      → IsWaiting start until r
      → All (IsDown start until) l
      → limit r - f.retries ≤ length l
      → Offers l r f o
      → IsTried start until (limit r - f.retries) f.request.host o r l (r, sent f)

  -- Where retries are left and the hosts are known.
  popped-IsTried :
      (popped : Option Text × List Text) (a : Answer) (l : List Answer) (f : Flight) (r : Rest)
      (hosts : List Text) (b : Reply)
      → Done l
      → IsWaiting start until r
      → All (IsDown start until) (a ∷ l)
      → limit r - f.retries ≤ suc (length l)
      → f.retries < limit r
      → pop_fallback_host hosts ≡ popped
      → answered a (r, sent f) ≡ retry_popped a.env popped f b r
      → IsTried start until (limit r - f.retries) f.request.host (some hosts) r (a ∷ l) (r, sent f)
  unfolding retry_popped
  popped-IsTried (none, rest) a l f r hosts b ih w d k m p e =
      IsTried-called start until (limit r - f.retries) (some hosts) a l f r b w e
        (tried-empty (limit r - f.retries) hosts rest p)
  popped-IsTried (some h, rest) a l f r hosts b ih w d k m p e =
      let r' = set_current_fallback_host a.env.now (some h) r in
      let g = following a.env h rest f r' in
      let w' = next-IsWaiting start until a.env h r d.0.begun w in
      let at = retry_at_in_time a.env h rest f r (w'.in_time a.env d.0.timely) in
      let n = limit r - (f.retries + 1) in
      let one : limit r - f.retries ≡ suc n = omega arith in
      let same = set_current-limit a.env.now h r in
      let rest_tried =
        ih g r' (some rest) w' d.1 (rw same (omega arith)) (Offers-some l r' g rest refl) in
      let counted =
        subst (λ m. IsTried start until m g.request.host (some rest) r' l (r', sent g))
          (ap (λ m. m - (f.retries + 1)) same) rest_tried in
      let named =
        subst (λ x. IsTried start until n x (some rest) r' l (r', sent g))
          (prepare-host a.env g.request_id (record (with_host h f.request) { host_header = some h })
            r')
          counted in
      subst (λ m. IsTried start until m f.request.host (some hosts) r (a ∷ l) (r, sent f)) (sym one)
        (IsTried-next start until n h hosts rest a l f g r r' (e ∙ at)
          (set_current-host a.env.now h r) (tried-popped n hosts rest h p) named)

  retried-IsTried :
      (o : Option (List Text)) (a : Answer) (l : List Answer) (f : Flight) (r : Rest) (b : Reply)
      → Done l
      → IsWaiting start until r
      → All (IsDown start until) (a ∷ l)
      → limit r - f.retries ≤ suc (length l)
      → f.retries < limit r
      → answered a (r, sent f) ≡ retry_with a.env o f b r
      → IsTried start until (limit r - f.retries) f.request.host o r (a ∷ l) (r, sent f)
  unfolding retry_with
  retried-IsTried none a l f r b ih w d k m e =
      IsTried-called start until (limit r - f.retries) none a l f r b w e refl
  retried-IsTried (some hosts) a l f r b ih w d k m e =
      popped-IsTried (pop_fallback_host hosts) a l f r hosts b ih w d k m refl e

  pub down-IsTried : (l : List Answer) → Done l
  unfolding answered
  down-IsTried [] f r o w d k q =
      let z : limit r - f.retries ≡ 0 = omega arith in
      subst (λ m. IsTried start until m f.request.host o r [] (r, sent f)) (sym z)
        (record { hosts = rw (tries-zero o) refl; left = rw (tries-zero o) refl; waiting = w })
  down-IsTried (a ∷ l) f r o w d k q =
      let (b, step) = complete-down a.env a.reply f r w.no_auth_url d.0.down in
      elim (Bool-cases (ltb f.retries (limit r))) [
        | inl more ↦
            retried-IsTried o a l f r b (down-IsTried l) w d k (ltb→lt f.retries (limit r) more) (
              step
              ∙ ap
                  (λ t.
                    if t then retry_with a.env (fallbacks_of a.env r f) f b r else call_back f b r)
                  more
              ∙ ap (λ x. retry_with a.env x f b r) q)
        | inr enough ↦
            let z : limit r - f.retries ≡ 0 = ground arith in
            IsTried-called start until (limit r - f.retries) o a l f r b w
              (step
                ∙ ap
                    (λ t.
                      if t
                      then retry_with a.env (fallbacks_of a.env r f) f b r
                      else call_back f b r)
                    enough)
              (ap (λ m. tries m o) z ∙ tries-zero o)
      ]
