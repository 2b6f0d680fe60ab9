-- ===== src/Options/Params.antt =====
-- Source/ARTTokenParams.m and ARTTokenRequest.m: the parameters of a token and its signed request.
use ably_cocoa.Base.{
  ℕ, Bool, Option, none, some, List, [], ◌∷◌, ◌++◌, Text, codes, text_eq, any, if◌then◌else◌,
}
use ably_cocoa.Channel.Messages.{decimal}
use ably_cocoa.Options.{QueryItem}

-- ARTTokenParams. `ttl` is in milliseconds, though its NSNumber is a whole or a broken number.
pub record TokenParams : Type 0 where
  pub ttl : Option ℕ
  pub capability : Option Text
  pub client_id : Option Text
  pub timestamp : Option ℕ
  pub nonce : Option Text

-- initWithClientId:nonce:, and init and initWithClientId: by it
abbrev pub with_client_id : Option Text → Option Text → TokenParams
with_client_id client_id nonce = record {
  ttl = none;
  capability = none;
  client_id = client_id;
  timestamp = none;
  nonce = nonce;
}

-- initWithTokenParams:
unfoldable pub with_token_params : TokenParams → TokenParams
with_token_params p = record (with_client_id p.client_id none) {
  ttl = p.ttl;
  capability = p.capability;
}

-- initWithOptions:, of the client id and the default token parameters of the options
abbrev with_defaults : Option TokenParams → TokenParams → TokenParams
with_defaults none p = p
with_defaults (some d) p = record p { ttl = d.ttl; capability = d.capability }

unfoldable pub with_options : Option Text → Option TokenParams → TokenParams
with_options client_id defaults = with_defaults defaults (with_client_id client_id none)

-- copyWithZone:
unfoldable pub copy_params : TokenParams → TokenParams
copy_params p = record (with_client_id p.client_id p.nonce) {
  ttl = p.ttl;
  capability = p.capability;
  timestamp = p.timestamp;
}

abbrev pub item : Text → Text → QueryItem
item n v = record { name = n; value = some v }

abbrev pub item_if : Text → Option Text → List QueryItem → List QueryItem
item_if n none rest = rest
item_if n (some v) rest = item n v ∷ rest

abbrev pub number_text : Option ℕ → Option Text
number_text none = none
number_text (some n) = some (decimal n)

-- toArray
unfoldable pub to_array : TokenParams → List QueryItem
to_array p = item_if (codes "clientId") p.client_id (
    item_if (codes "ttl") (number_text p.ttl) (
      item_if (codes "capability") p.capability
        (item_if (codes "timestamp") (number_text p.timestamp) [])))

abbrev pub has_name : Text → List QueryItem → Bool
has_name n l = any (λ i. text_eq i.name n) l

-- The loop of toArrayWithUnion:
unfoldable pub add_items : List QueryItem → List QueryItem → List QueryItem
add_items params [] = params
add_items params (i ∷ items) =
    add_items (if has_name i.name params then params else params ++ i ∷ []) items

-- toArrayWithUnion:
unfoldable pub to_array_with_union : TokenParams → List QueryItem → List QueryItem
unfolding to_array add_items
to_array_with_union p items = add_items (to_array p) items

-- The entries of a dictionary of texts.
abbrev pub has_key : Text → List (Text × Text) → Bool
has_key n l = any (λ e. text_eq e.0 n) l

abbrev pub entry_if : Text → Option Text → List (Text × Text) → List (Text × Text)
entry_if n none rest = rest
entry_if n (some v) rest = (n, v) ∷ rest

-- toDictionary
unfoldable pub to_dictionary : TokenParams → List (Text × Text)
to_dictionary p = entry_if (codes "clientId") p.client_id (
    entry_if (codes "ttl") (number_text p.ttl) (
      entry_if (codes "capability") p.capability
        (entry_if (codes "timestamp") (number_text p.timestamp) [])))

-- `tokenParams[item.name] = item.value` of a key that is not there: nil adds nothing.
abbrev pub add_entry : QueryItem → List (Text × Text) → List (Text × Text)
add_entry i l = elim i.value [ none ↦ l | some v ↦ l ++ (i.name, v) ∷ [] ]

-- The loop of toDictionaryWithUnion:
unfoldable pub add_entries : List (Text × Text) → List QueryItem → List (Text × Text)
add_entries params [] = params
add_entries params (i ∷ items) =
    add_entries (if has_key i.name params then params else add_entry i params) items

-- toDictionaryWithUnion:
unfoldable pub to_dictionary_with_union : TokenParams → List QueryItem → List (Text × Text)
unfolding to_dictionary add_entries
to_dictionary_with_union p items = add_entries (to_dictionary p) items

-- ARTTokenRequest
pub record TokenRequest : Type 0 where
  pub key_name : Text
  pub client_id : Option Text
  pub nonce : Text
  pub mac : Text
  pub capability : Option Text
  pub ttl : Option ℕ
  pub timestamp : Option ℕ

-- initWithTokenParams:keyName:nonce:mac:
abbrev pub token_request : TokenParams → Text → Text → Text → TokenRequest
token_request p key_name nonce mac = record {
  key_name = key_name;
  client_id = p.client_id;
  nonce = nonce;
  mac = mac;
  capability = p.capability;
  ttl = p.ttl;
  timestamp = p.timestamp;
}
