-- ===== src/Resume.antt =====
-- Source/ARTResumeRequestResponse.m: what the first answer to a resume request says.
use ably_cocoa.Base.{
  ◌≡◌, refl, Bool, true, false, ◌&&◌, not, Option, none, some, Text, same_text, if◌then◌else◌,
  is_none, is_some, arith, inl, inr, Bool-cases,
}
use ably_cocoa.Types.{Action, ErrorInfo, action_eq, is_token_error}
use ably_cocoa.Message.{ProtocolMessage}

-- ARTResumeRequestResponseType, with the error of those that have one.
pub data ResumeResponse : Type 0 where
  valid unknown : ResumeResponse
  invalid fatal_error token_error : Option ErrorInfo → ResumeResponse

abbrev pub holds_token_error : Option ErrorInfo → Bool
holds_token_error none = false
holds_token_error (some e) = is_token_error e

-- The tests in their order: the message is CONNECTED, it is ERROR, its connection id is the current
-- one, and its error.
abbrev pub classify : Bool → Bool → Bool → Option ErrorInfo → ResumeResponse
classify connected failed same e =
    if connected && same && is_none e
    then valid
    else if connected && not same && is_some e
    then invalid e
    else if failed && is_some e && holds_token_error e
    then token_error e
    else if failed && is_some e
    then fatal_error e
    else unknown

-- initWithCurrentConnectionID:protocolMessage:errorChecker:
unfoldable pub resume_response : Option Text → ProtocolMessage → ResumeResponse
resume_response current pm =
    classify (action_eq pm.action Action.connected) (action_eq pm.action Action.error)
      (same_text pm.connection_id current) pm.error

-- What each of the answers means, in the same terms.
abbrev pub Reads : Bool → Bool → Bool → Option ErrorInfo → ResumeResponse → Type 0
Reads connected failed same e valid = (connected ≡ true) × (same ≡ true) × (e ≡ none)
Reads connected failed same e (invalid f) =
    (connected ≡ true) × (same ≡ false) × (e ≡ f) × (is_some f ≡ true)
Reads connected failed same e (token_error f) =
    (failed ≡ true) × (e ≡ f) × (holds_token_error f ≡ true)
Reads connected failed same e (fatal_error f) =
    (failed ≡ true) × (e ≡ f) × (is_some f ≡ true) × (holds_token_error f ≡ false)
Reads connected failed same e unknown =
    (connected ≡ true → is_some e ≡ same) × (failed ≡ true → e ≡ none)

abbrev pub Means : Option Text → ProtocolMessage → ResumeResponse → Type 0
Means current pm r =
    Reads (action_eq pm.action Action.connected) (action_eq pm.action Action.error)
      (same_text pm.connection_id current) pm.error r

classify-Reads :
    (connected failed same : Bool) (e : Option ErrorInfo)
    → not (connected && failed) ≡ true
    → Reads connected failed same e (classify connected failed same e)
classify-Reads true true b e x = cc
classify-Reads true false true none x = (refl, refl, refl)
classify-Reads true false true (some f) x = (λ p. refl, λ p. cc)
classify-Reads true false false none x = (λ p. refl, λ p. cc)
classify-Reads true false false (some f) x = (refl, refl, refl, refl)
classify-Reads false true b none x = (λ p. cc, λ p. refl)
classify-Reads false true b (some f) x = elim (Bool-cases (is_token_error f)) [
  | inl t ↦ rw t (refl, refl, t)
  | inr t ↦ rw t (refl, refl, refl, t)
]
classify-Reads false false b e x = (λ p. cc, λ p. cc)

-- The answer is classified by its action, its connection id and its error: a CONNECTED with the same
-- id and no error is valid, one with another id and an error invalid; an ERROR is a token error or
-- fatal by its error; and a CONNECTED is unknown only where an error comes with the same id or
-- another id without an error, an ERROR only where it has no error.
pub resume_response-Means :
    (current : Option Text) (pm : ProtocolMessage) → Means current pm (resume_response current pm)
unfolding resume_response
resume_response-Means current pm =
    classify-Reads _ _ (same_text pm.connection_id current) pm.error (exclusive pm.action)
  where
    exclusive : (a : Action) → not (action_eq a Action.connected && action_eq a Action.error) ≡ true
    exclusive a = ground arith
