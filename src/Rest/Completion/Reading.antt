-- ===== src/Rest/Completion/Reading.antt =====
-- How Source/ARTRest.m reads the answer of the server.
use ably_cocoa.Base.{
  ℕ, ◌*◌, Bool, true, false, ◌&&◌, ◌||◌, not, Option, none, some, List, [], ◌∷◌, Text, codes, ltb,
  any, if◌then◌else◌, is_none, same_text, text_eq, pos, ◌==◌,
}
use ably_cocoa.Types.{ErrorInfo, is_token_error}
use ably_cocoa.Types.Codes.{create_with_code}
use ably_cocoa.Rest.{Failure, info, Env, Rest, Flight, token_is_renewable}

-- What the HTTP executor hands to the completion block; without a response the status is 0.
pub record Reply : Type 0 where
  pub status_code : ℕ
  pub content_type : Option Text
  pub mime_type : Option Text
  pub body : Option (List ℕ)
  pub error : Option Failure

abbrev pub starts_with : Text → Text → Bool
starts_with [] t = true
starts_with (c ∷ p) [] = false
starts_with (c ∷ p) (d ∷ t) = c == d && starts_with p t

-- containsString:, of texts that are not empty
abbrev pub contains_string : Text → Text → Bool
contains_string [] p = false
contains_string (c ∷ t) p = starts_with p (c ∷ t) || contains_string t p

abbrev pub is_valid_content_type : Env → Option Text → Bool
is_valid_content_type e none = false
is_valid_content_type e (some t) = any (λ c. contains_string t c.0) e.encoders

abbrev pub auth_url_host : Env → Rest → Option Text
auth_url_host e r = elim r.options.auth.auth_url [ none ↦ none | some u ↦ e.url_host u ]

abbrev pub http_error : Reply → Text → Option Text → Failure
http_error a message id =
    info
      (record {
        code = pos (a.status_code * 100);
        status_code = pos a.status_code;
        message = message;
      })
      id

abbrev pub bytes : Option (List ℕ) → List ℕ
bytes none = []
bytes (some b) = b

abbrev pub has_length : Option (List ℕ) → Bool
has_length none = false
has_length (some []) = false
has_length (some (c ∷ b)) = true

-- Error messages in plain text and HTML.
unfoldable pub read_content : Env → Rest → Flight → Reply → Reply
read_content e r f a =
    if is_none a.error
      && has_length a.body
      && not (same_text (some f.request.host) (auth_url_host e r))
      && not (is_valid_content_type e a.content_type)
    then record a {
      error = some (http_error a (e.short_string (e.text_of (bytes a.body))) f.request_id);
      body = none;
    }
    else a

abbrev pub no_means_to_renew_token : ErrorInfo
no_means_to_renew_token =
    create_with_code 15
      (codes "no means to renew the token is provided (either an API key, authCallback or authUrl)")

-- shouldRenewToken:, with the error that it leaves
unfoldable pub should_renew_token : Env → Option ErrorInfo → Bool × Option ErrorInfo
unfolding is_token_error token_is_renewable create_with_code
should_renew_token e none = (false, none)
should_renew_token e (some error) =
    if is_token_error error
    then (if token_is_renewable e.auth
        then (true, some error)
        else (false, some no_means_to_renew_token))
    else (false, some error)

abbrev pub find_encoder :
    Text
    → List (Text × (List ℕ → Option ErrorInfo × Option Failure))
    → List ℕ
    → Option ErrorInfo × Option Failure
find_encoder m [] b = (none, none)
find_encoder m ((n, decode) ∷ l) b = if text_eq m n then decode b else find_encoder m l b

-- decodeErrorInfo:error: of the encoder for the MIME type, if there is one
abbrev pub decode_error_info : Env → Option Text → List ℕ → Option ErrorInfo × Option Failure
decode_error_info e none b = (none, none)
decode_error_info e (some m) b = find_encoder m e.encoders b

abbrev pub chosen_error : Option ErrorInfo → Option Failure → Option Failure → Option Failure
chosen_error (some error) decode_error old = some (info error none)
chosen_error none (some error) old = some error
chosen_error none none old = old

-- What an answer with a status of 400 or more leads to: the token is renewed, or there is this error.
pub data Judgement : Type 0 where
  renew : Judgement
  failed : Failure → Judgement

abbrev pub or_http_error : Env → Flight → Reply → Option Failure → Judgement
or_http_error e f a (some error) = failed error
or_http_error e f a none = failed (http_error a (e.text_of (bytes a.body)) f.request_id)

unfoldable pub judge_body : Env → Rest → Flight → Reply → Option (List ℕ) → Judgement
judge_body e r f a none = or_http_error e f a a.error
judge_body e r f a (some b) =
    let (data_error, decode_error) = decode_error_info e a.mime_type b in
    let (renews, left) = should_renew_token e data_error in
    if renews && ltb r.token_error_retries 1
    then renew
    else or_http_error e f a (chosen_error left decode_error a.error)
