-- ===== src/Rest/Named/Items.antt =====
-- The request ids of a request of Source/ARTRest.m as it is sent.
use ably_cocoa.Base.{
  ℕ, zero, suc, ◌+◌, ◌≡◌, refl, ap, ◌∙◌, inl, inr, Bool, true, false, not, ◌&&◌, Option, none, some,
  List, [], ◌∷◌, ◌++◌, append_assoc, Text, arith, ◌==◌, is_some, Bool-cases, if◌then◌else◌,
}
use ably_cocoa.Rest.{
  Request, Env, Rest, Flight, Next, sent, authorizing, called, execute, prepare, new_request_id,
  is_expired, set_current_fallback_host, with_host, is_token_auth,
}
use ably_cocoa.Rest.Completion.{retry_at}

-- Query items without a value.
abbrev pub blanks : ℕ → List (Option Text)
blanks zero = []
blanks (suc n) = none ∷ blanks n

blanks-suc : (n : ℕ) → blanks n ++ none ∷ [] ≡ blanks (n + 1)
blanks-suc zero = let e : 1 ≡ zero + 1 = omega arith in ap blanks e
blanks-suc (suc n) =
    let e : suc (n + 1) ≡ suc n + 1 = omega arith in ap (λ t. none ∷ t) (blanks-suc n) ∙ ap blanks e

-- The URL has a request id, and after it one item without a value for each retry. The id that errors
-- are given is the one in the URL at first, and none in a retry.
pub record IsNamed (f : Flight) : Type 0 where
  pub earlier : List (Option Text)
  pub id : Text
  pub items : f.request.request_ids ≡ earlier ++ some id ∷ blanks f.retries
  pub reported : f.request_id ≡ (if f.retries == 0 then some id else none)

-- The client adds request ids.
abbrev pub Adds : Rest → Type 0
Adds r = r.options.add_request_ids ≡ true

-- No request id is passed on to a retry.
abbrev pub Passing : Next → Type 0
Passing (sent f) = (f.original_request_id ≡ none) × IsNamed f
Passing (authorizing q) = Unit
Passing (called o) = Unit

abbrev pub Unpassed : Rest × Next → Type 0
Unpassed (r, n) = Adds r × Passing n

set_current_fallback_host-Adds :
    (now : ℕ) (v : Option Text) (r : Rest) → Adds r → Adds (set_current_fallback_host now v r)
unfolding set_current_fallback_host
set_current_fallback_host-Adds now v r h = ground arith

execute-Adds :
    (e : Env) (fallbacks : Option (List Text)) (n : ℕ) (original : Option Text) (q : Request)
    (r : Rest)
    → Adds r
    → Adds (execute e fallbacks n original q r).0
unfolding execute
execute-Adds e fallbacks n original q r h = elim (Bool-cases (is_expired e r)) [
  | inl over ↦ rw over (set_current_fallback_host-Adds e.now none r h)
  | inr going ↦ rw going h
]

prepare-request_ids :
    (e : Env) (id : Option Text) (q : Request) (r : Rest)
    → Adds r
    → (prepare e id q r).request_ids ≡ q.request_ids ++ id ∷ []
unfolding prepare
prepare-request_ids e id q r h =
    elim (Bool-cases (is_some r.options.client_id && not (is_token_auth e.auth))) [
      | inl own ↦ rw (h, own) refl
      | inr other ↦ rw (h, other) refl
    ]

-- The items of a request as it is sent, which may go to another host.
sent-request_ids :
    (b : Bool) (h : Text) (q : Request)
    → (if b then with_host h q else q).request_ids ≡ q.request_ids
sent-request_ids true h q = refl
sent-request_ids false h q = refl

pub first-Unpassed :
    (e : Env) (q : Request) (r : Rest) → Adds r → Unpassed (execute e none 0 none q r)
unfolding execute
first-Unpassed e q r h = (
  execute-Adds e none 0 none q r h,
  (
    refl,
    record {
      earlier = q.request_ids;
      id = e.uuid;
      items =
          sent-request_ids (is_expired e r) _ (prepare e (new_request_id e none none r) q r)
          ∙ prepare-request_ids e (new_request_id e none none r) q r h
          ∙ rw h refl;
      reported = rw h refl;
    },
  ),
)

pub retry_at-Unpassed :
    (e : Env) (host : Text) (hosts : List Text) (f : Flight) (r : Rest)
    → Adds r
    → Passing (sent f)
    → Unpassed (retry_at e host hosts f r)
unfolding retry_at execute
retry_at-Unpassed e host hosts f r h (n, p) =
    let r1 = set_current_fallback_host e.now (some host) r in
    let h1 = set_current_fallback_host-Adds e.now (some host) r h in
    let q = record (with_host host f.request) { host_header = some host } in
    let id = new_request_id e (some hosts) f.original_request_id r1 in
    (
      execute-Adds e (some hosts) (f.retries + 1) f.original_request_id q r1 h1,
      (
        n,
        record {
          earlier = p.earlier;
          id = p.id;
          items =
              sent-request_ids (is_expired e r1) _ (prepare e id q r1)
              ∙ prepare-request_ids e id q r1 h1
              ∙ rw (h1, n, p.items)
                  (append_assoc p.earlier (some p.id ∷ blanks f.retries) (none ∷ [])
                    ∙ ap (λ t. p.earlier ++ some p.id ∷ t) (blanks-suc f.retries));
          reported =
              let later : (f.retries + 1 == 0) ≡ false = ground arith in rw (h1, n, later) refl;
        },
      ),
    )
