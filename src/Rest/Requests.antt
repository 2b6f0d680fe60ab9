-- ===== src/Rest/Requests.antt =====
-- The state of Source/ARTRest.m, its requests, and what they meet.
use ably_cocoa.Base.{ℕ, Bool, Option, List, Text, ℤ}
use ably_cocoa.Types.{ErrorInfo}
use ably_cocoa.Options.{TokenDetails, AuthOptions}
use ably_cocoa.Options.Client.{ClientOptions}

-- ARTAuthentication
pub data Authentication : Type 0 where
  off on use_basic new_token token_retry : Authentication

-- ARTAuthMethod
pub data AuthMethod : Type 0 where
  basic token : AuthMethod

-- An NSError: an ARTErrorInfo, or one of another domain with its code; with the request id of the user
-- info.
pub data Failure : Type 0 where
  info : ErrorInfo → Option Text → Failure
  other : Text → ℤ → Option Text → Failure

-- The value of the header Authorization, before its encoding.
pub data Authorization : Type 0 where
  basic_key : Option Text → Authorization
  bearer : Option Text → Authorization

-- NSMutableURLRequest: of the URL the host, whether it is relative to a base, and the values of the
-- query items with the name request_id; of the headers those that are not the same in every request.
pub record Request : Type 0 where
  pub host : Text
  pub relative : Bool
  pub request_ids : List (Option Text)
  pub authorization : Option Authorization
  pub client_id : Option Text
  pub host_header : Option Text

-- What is read of ARTAuth, whose state others change between the steps of a request.
pub record Auth : Type 0 where
  pub method : AuthMethod
  pub options : AuthOptions
  pub token_details : Option TokenDetails
  pub authorizations_count : ℕ
  pub time_offset : Option ℤ

-- What a step meets: the continuous clock, the date, ARTAuth, a new identifier in base 64, the shuffle
-- of the hosts, the encoders by their MIME types, and Foundation.
pub record Env : Type 0 where
  pub now : ℕ
  pub date : ℕ
  pub auth : Auth
  pub uuid : Text
  pub shuffle : List Text → List Text
  pub encoders : List (Text × (List ℕ → Option ErrorInfo × Option Failure))
  pub url_host : Text → Option Text
  pub text_of : List ℕ → Text
  pub short_string : Text → Text

-- ARTRestInternal
pub record Rest : Type 0 where
  pub options : ClientOptions
  pub token_error_retries : ℕ
  pub current_fallback_host : Option Text
  pub prioritized_host : Option Text
  pub fallback_retry_expiration : Option ℕ

-- A request that was handed to the HTTP executor, with what its completion block has captured.
pub record Flight : Type 0 where
  pub request : Request
  pub fallbacks : Option (List Text)
  pub retries : ℕ
  pub original_request_id : Option Text
  pub request_id : Option Text

-- What the callback gets.
pub record Outcome : Type 0 where
  pub status_code : ℕ
  pub body : Option (List ℕ)
  pub error : Option Failure

-- What a request waits for: the server, a token, or nothing, when its callback was called.
pub data Next : Type 0 where
  sent : Flight → Next
  authorizing : Request → Next
  called : Outcome → Next
