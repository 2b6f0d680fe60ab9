-- ===== src/Options/Copies.antt =====
-- Copies and merges of the options of Source/ARTAuthOptions.m and ARTClientOptions.m.
use ably_cocoa.Base.{
  ◌≡◌, ◌≢◌, refl, sym, ap, ◌∙◌, Bool, true, false, ◌||◌, Option, none, some, [], ◌∷◌, Text,
}
use mathlib.Core.Path.{◌≡⟨◌⟩◌, ◌∎}
use ably_cocoa.Options.{
  AuthOptions, TokenDetails, init_defaults, copy, copy_to, merge_with, set_token, set_auth_method,
  preferred, token,
}
use ably_cocoa.Options.Client.{ClientOptions, Fresh, copy_client, init_client}

set_token_details :
    (d : Option TokenDetails) (t : Option Text) (o : AuthOptions)
    → record (set_token t o) { token_details = d } ≡ record o { token_details = d }
unfolding set_token
set_token_details d none o = refl
set_token_details d (some []) o = refl
set_token_details d (some (c ∷ t)) o = refl

set_method :
    (t : Text) (o : AuthOptions)
    → t ≢ []
    → set_auth_method (some t) o ≡ record o { auth_method = t }
unfolding set_auth_method
set_method [] o h = absurd (h refl)
set_method (c ∷ t) o h = refl

pub copy_to_lem : (new o : AuthOptions) → o.auth_method ≢ [] → copy_to new o ≡ o
unfolding copy_to
copy_to_lem new o h =
    let finish = λ (x : AuthOptions). record x {
      auth_headers = o.auth_headers;
      auth_params = o.auth_params;
      query_time = o.query_time;
      use_token_auth = o.use_token_auth;
    } in
    let call =
      λ (x : AuthOptions). record x { auth_callback = o.auth_callback; auth_url = o.auth_url } in
    let keyed = record new { key = o.key } in
    ap (λ x. finish (set_auth_method (some o.auth_method) (call x)))
      (set_token_details o.token_details (token o) keyed)
    ∙ ap finish
        (set_method o.auth_method (call (record keyed { token_details = o.token_details })) h)

-- A copy of the options for authorisation is equal to them, when they have a method.
pub copy_lem : (o : AuthOptions) → o.auth_method ≢ [] → copy o ≡ o
unfolding copy
copy_lem o h = copy_to_lem init_defaults o h

-- A copy of the options of a client agrees with them in everything except that it has no default
-- token parameters, whatever these were, when the options have a method for authorisation.
pub copy_client_lem :
    (f : Fresh) (o : ClientOptions)
    → o.auth.auth_method ≢ []
    → copy_client f o ≡ record o { default_token_params = none }
unfolding copy_client init_client
copy_client_lem f o h = rw (copy_to_lem init_defaults o.auth h)

preferred_assoc {ℓ} :
    {A : Type ℓ} (a b c : Option A) → preferred c (preferred b a) ≡ preferred (preferred c b) a
preferred_assoc a b none = refl
preferred_assoc a b (some x) = refl

-- The properties of options merged with others that take precedence.
abbrev merged : AuthOptions → AuthOptions → AuthOptions
merged o p = record o {
  key = preferred p.key o.key;
  auth_callback = preferred p.auth_callback o.auth_callback;
  auth_url = preferred p.auth_url o.auth_url;
  auth_method = p.auth_method;
  auth_headers = preferred p.auth_headers o.auth_headers;
  auth_params = preferred p.auth_params o.auth_params;
  query_time = p.query_time || o.query_time;
  use_token_auth = p.use_token_auth || o.use_token_auth;
}

merge_with-merged :
    (o p : AuthOptions) → o.auth_method ≢ [] → p.auth_method ≢ [] → merge_with o p ≡ merged o p
unfolding merge_with
merge_with-merged o p h k =
    let finish = λ (b x : AuthOptions). record x {
      auth_headers = preferred p.auth_headers b.auth_headers;
      auth_params = preferred p.auth_params b.auth_params;
      query_time = p.query_time || b.query_time;
      use_token_auth = p.use_token_auth || b.use_token_auth;
    } in
    let call = λ (b : AuthOptions). record b {
      key = preferred p.key b.key;
      auth_callback = preferred p.auth_callback b.auth_callback;
      auth_url = preferred p.auth_url b.auth_url;
    } in
    ap (λ b. finish b (set_auth_method (some p.auth_method) (call b))) (copy_lem o h)
    ∙ ap (finish o) (set_method p.auth_method (call o) k)

or_assoc : (a b c : Bool) → (c || (b || a)) ≡ ((c || b) || a)
or_assoc a b true = refl
or_assoc a b false = refl

merged_assoc : (a b c : AuthOptions) → merged (merged a b) c ≡ merged a (merged b c)
merged_assoc a b c = rw (
  preferred_assoc a.key b.key c.key,
  preferred_assoc a.auth_callback b.auth_callback c.auth_callback,
  preferred_assoc a.auth_url b.auth_url c.auth_url,
  preferred_assoc a.auth_headers b.auth_headers c.auth_headers,
  preferred_assoc a.auth_params b.auth_params c.auth_params,
  or_assoc a.query_time b.query_time c.query_time,
  or_assoc a.use_token_auth b.use_token_auth c.use_token_auth,
)

-- Merging options by precedence is associative, when the options have a method for authorisation.
pub merge_with_assoc :
    (a b c : AuthOptions)
    → a.auth_method ≢ []
    → b.auth_method ≢ []
    → c.auth_method ≢ []
    → merge_with (merge_with a b) c ≡ merge_with a (merge_with b c)
merge_with_assoc a b c h k l =
    merge_with (merge_with a b) c
    ≡⟨ ap (λ x. merge_with x c) (merge_with-merged a b h k) ⟩ merge_with (merged a b) c
    ≡⟨ merge_with-merged (merged a b) c k l ⟩ merged (merged a b) c
    ≡⟨ merged_assoc a b c ⟩ merged a (merged b c)
    ≡⟨ sym (merge_with-merged a (merged b c) h l) ⟩ merge_with a (merged b c)
    ≡⟨ ap (merge_with a) (sym (merge_with-merged b c k l)) ⟩ merge_with a (merge_with b c) ∎
