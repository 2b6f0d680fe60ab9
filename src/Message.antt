-- ===== src/Message.antt =====
-- The messages: Source/ARTBaseMessage.m, ARTMessage.m, ARTPresenceMessage.m (its fields) and
-- ARTProtocolMessage.m, with the merge of queued protocol messages.
pub mod Merge
use ably_cocoa.Base.{
  pos, ℕ, ◌+◌, ◌≡◌, Bool, true, false, ◌&&◌, ◌||◌, not, Option, none, some, List, [], ◌∷◌, ◌++◌,
  Text, codes, text_eq, same_text, utf8_length, ltb, ◌==◌, if◌then◌else◌, length, any, keep,
  is_some, ℤ,
}
use ably_cocoa.Types.{Action, PresenceAction, ErrorInfo, action_eq}

-- The `data` of a message: an NSString, an NSData, or a JSON object by its serialisation, which
-- NSJSONSerialization may refuse.
pub data Payload : Type 0 where
  string : Text → Payload
  bytes : List ℕ → Payload
  json : Option Text → Payload

-- ARTBaseMessage
pub record BaseMessage : Type 0 where
  pub id : Option Text
  pub client_id : Option Text
  pub connection_id : Option Text
  pub timestamp : Option ℕ
  pub encoding : Option Text
  pub payload : Option Payload
  pub extras : Option Text

pub record Message : Type 0 where
  pub base : BaseMessage
  pub open base use *
  pub name : Option Text

pub record PresenceMessage : Type 0 where
  pub base : BaseMessage
  pub open base use *
  pub action : PresenceAction
  pub sync_session_id : ℕ

-- The fields of ARTConnectionDetails that the code reads.
pub record ConnectionDetails : Type 0 where
  pub client_id : Option Text
  pub connection_key : Option Text
  pub max_message_size : ℕ
  pub connection_state_ttl : ℕ
  pub max_idle_interval : ℕ

-- ARTProtocolMessage
pub record ProtocolMessage : Type 0 where
  pub action : Action
  pub count : ℤ
  pub id : Option Text
  pub channel : Option Text
  pub channel_serial : Option Text
  pub connection_id : Option Text
  pub own_connection_key : Option Text
  pub connection_serial : ℤ
  pub has_connection_serial : Bool
  pub msg_serial : Option ℤ
  pub timestamp : Option ℕ
  pub messages : Option (List Message)
  pub presence : Option (List PresenceMessage)
  pub flags : ℕ
  pub error : Option ErrorInfo
  pub auth : Option Text
  pub connection_details : Option ConnectionDetails
  pub params : Option (List (Text × Text))

-- init of ARTProtocolMessage, with an action.
abbrev pub new_message : Action → ProtocolMessage
new_message a = record {
  action = a;
  count = pos 0;
  id = none;
  channel = none;
  channel_serial = none;
  connection_id = none;
  own_connection_key = none;
  connection_serial = pos 0;
  has_connection_serial = false;
  msg_serial = none;
  timestamp = none;
  messages = none;
  presence = none;
  flags = 0;
  error = none;
  auth = none;
  connection_details = none;
  params = none;
}

-- A nil array is walked like an empty one.
abbrev pub items {ℓ} : {A : Type ℓ} → Option (List A) → List A
items none = []
items (some xs) = xs

abbrev pub text_bytes : Option Text → ℕ
text_bytes none = 0
text_bytes (some t) = utf8_length t

abbrev pub payload_size : Option Payload → ℕ
payload_size none = 0
payload_size (some (string t)) = utf8_length t
payload_size (some (bytes b)) = length b
payload_size (some (json t)) = text_bytes t

-- messageSize of ARTBaseMessage
abbrev pub base_size : BaseMessage → ℕ
base_size m = text_bytes m.extras + text_bytes m.client_id + payload_size m.payload

-- messageSize of ARTMessage
unfoldable pub message_size : Message → ℕ
message_size m = base_size m.base + text_bytes m.name

unfoldable pub total_size : List Message → ℕ
total_size [] = 0
total_size (m ∷ ms) = message_size m + total_size ms

-- `nilToEmpty:`
abbrev pub nil_to_empty : Option Text → Text
nil_to_empty none = []
nil_to_empty (some t) = t

-- `maxMessageSize` of ARTDefault, before anything sets it.
abbrev pub default_max_message_size : ℕ
default_max_message_size = 65536

-- The bound of the connection details, where they give one.
abbrev pub max_size : Option ConnectionDetails → ℕ
max_size none = default_max_message_size
max_size (some d) = if d.max_message_size == 0 then default_max_message_size else d.max_message_size

-- mergeWouldExceedMaxSize:
unfoldable pub merge_would_exceed_max_size : ProtocolMessage → List Message → Bool
merge_would_exceed_max_size pm ms =
    ltb (max_size pm.connection_details) (total_size (items pm.messages) + total_size ms)

abbrev pub client_ids : List Message → List Text
client_ids [] = []
client_ids (m ∷ ms) = nil_to_empty m.client_id ∷ client_ids ms

-- The elements of the set that a list fills, once each (the last occurrence stays).
unfoldable pub distinct : List Text → List Text
distinct [] = []
distinct (t ∷ ts) = if any (text_eq t) ts then distinct ts else t ∷ distinct ts

-- clientIdsAreDifferent: unless the union of both sets has exactly one element.
unfoldable pub client_ids_are_different : ProtocolMessage → List Message → Bool
client_ids_are_different pm ms =
    not (length (distinct (client_ids (items pm.messages) ++ client_ids ms)) == 1)

-- `[xs arrayByAddingObjectsFromArray:ys]`, on a nil receiver nil.
abbrev pub adding {ℓ} : {A : Type ℓ} → Option (List A) → Option (List A) → Option (List A)
adding none ys = none
adding (some xs) ys = some (xs ++ items ys)

abbrev pub messages_without_id : Option (List Message) → Bool
messages_without_id ms = not (any (λ m. is_some m.id) (items ms))

abbrev pub presence_without_id : Option (List PresenceMessage) → Bool
presence_without_id ms = not (any (λ m. is_some m.id) (items ms))

-- The two `switch` statements on the action, with the test on message ids between them.
unfoldable pub merge_payload : Action → ProtocolMessage → ProtocolMessage → ProtocolMessage × Bool
merge_payload Action.message pm src =
    let proposed = adding pm.messages src.messages in
    if messages_without_id proposed then (record pm { messages = proposed }, true) else (pm, false)
merge_payload Action.presence pm src =
    let proposed = adding pm.presence src.presence in
    if presence_without_id proposed then (record pm { presence = proposed }, true) else (pm, false)
merge_payload _ pm src = (pm, false)

-- mergeFrom: the receiver after the call, and whether the source was merged into it.
unfoldable pub merge_from : ProtocolMessage → ProtocolMessage → ProtocolMessage × Bool
merge_from pm src =
    if not (same_text src.channel pm.channel) || not (action_eq src.action pm.action)
    then (pm, false)
    else if merge_would_exceed_max_size pm (items src.messages)
    then (pm, false)
    else if client_ids_are_different pm (items src.messages)
    then (pm, false)
    else merge_payload pm.action pm src

unfoldable pub ack_required : ProtocolMessage → Bool
ack_required pm = action_eq pm.action Action.message || action_eq pm.action Action.presence
