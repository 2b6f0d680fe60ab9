-- ===== src/Presence/Order.antt =====
-- Source/ARTPresenceMessage.m: the id `connectionId:msgSerial:index` and which message is newer.
-- `none` stands for the exception that a malformed id raises.
pub mod Laws
use ably_cocoa.Base.{
  ℕ, ◌+◌, ◌-◌, ◌*◌, Bool, true, false, ◌&&◌, ◌||◌, not, Option, none, some, List, [], ◌∷◌, ◌++◌,
  Text, codes, same_text, ltb, leb, ◌==◌, if◌then◌else◌, is_none, ℤ, pos, negsuc, ltb_ℤ, eqb_ℤ,
}
use ably_cocoa.Types.{PresenceAction}
use ably_cocoa.Message.{PresenceMessage}

abbrev pub colon : ℕ
colon = 58

abbrev pub or_null : Option Text → Text
or_null none = codes "(null)"
or_null (some t) = t

-- memberKey
unfoldable pub member_key : PresenceMessage → Text
member_key m = or_null m.connection_id ++ colon ∷ or_null m.client_id

abbrev same_or_nil : Option Text → Option Text → Bool
same_or_nil a b = is_none a && is_none b || same_text a b

-- isEqualToPresenceMessage: of two messages that are not nil.
unfoldable pub same_member : PresenceMessage → PresenceMessage → Bool
same_member a b = same_or_nil a.connection_id b.connection_id && same_or_nil a.client_id b.client_id

abbrev cons_head : ℕ → List Text → List Text
cons_head c [] = (c ∷ []) ∷ []
cons_head c (t ∷ ts) = (c ∷ t) ∷ ts

-- componentsSeparatedByCharactersInSet: for the set of the colon.
unfoldable pub split_colon : Text → List Text
split_colon [] = [] ∷ []
split_colon (c ∷ s) = let rest = split_colon s in if c == colon then [] ∷ rest else cons_head c rest

-- The result of `parseId`: nil, the three parts, or an exception.
pub data ParsedId : Type 0 where
  no_id : ParsedId
  parts : Text → Text → Text → ParsedId
  raised : ParsedId

unfoldable pub three_parts : List Text → ParsedId
three_parts (a ∷ b ∷ c ∷ []) = parts a b c
three_parts _ = raised

unfoldable pub parse_id : Option Text → ParsedId
parse_id none = no_id
parse_id (some t) = three_parts (split_colon t)

-- isSynthesized
unfoldable pub is_synthesized : PresenceMessage → Option Bool
is_synthesized m = elim (parse_id m.id) [
  | no_id ↦ some true
  | parts a b c ↦ some (not (same_text (some a) m.connection_id))
  | raised ↦ none
]

abbrev digit : ℕ → Bool
digit c = leb 48 c && leb c 57

abbrev space : ℕ → Bool
space c = c == 32 || leb 9 c && leb c 13

unfoldable pub digits_value : ℕ → Text → ℕ
digits_value acc [] = acc
digits_value acc (c ∷ s) = elim (digit c) [
  | true ↦ digits_value (acc * 10 + (c - 48)) s
  | false ↦ acc
]

abbrev pub max_integer : ℕ
max_integer = 9223372036854775807

-- A value kept between NSIntegerMin and NSIntegerMax.
abbrev saturated : ℕ → ℤ
saturated n = if leb n max_integer then pos n else pos max_integer

abbrev negated : ℕ → ℤ
negated n =
    if n == 0 then pos 0 else if leb n max_integer then negsuc (n - 1) else negsuc max_integer

abbrev signed_value : Text → ℤ
signed_value [] = pos 0
signed_value (c ∷ s) =
    if c == 45
    then negated (digits_value 0 s)
    else if c == 43
    then saturated (digits_value 0 s)
    else saturated (digits_value 0 (c ∷ s))

-- integerValue of NSString: leading white space, a sign, and the digits up to another character.
unfoldable pub integer_value : Text → ℤ
integer_value [] = pos 0
integer_value (c ∷ s) = elim (space c) [ true ↦ integer_value s | false ↦ signed_value (c ∷ s) ]

-- msgSerialFromId and indexFromId
unfoldable pub serial_and_index : PresenceMessage → Option (ℤ × ℤ)
serial_and_index m = elim (parse_id m.id) [
  | no_id ↦ some (pos 0, pos 0)
  | parts a b c ↦ some (integer_value b, integer_value c)
  | raised ↦ none
]

-- `timeIntervalSince1970`, in milliseconds; of nil it is 0.
abbrev pub time_of : Option ℕ → ℕ
time_of none = 0
time_of (some t) = t

unfoldable pub newer_by_timestamp : PresenceMessage → PresenceMessage → Bool
newer_by_timestamp m latest =
    is_none m.timestamp || leb (time_of latest.timestamp) (time_of m.timestamp)

-- The message serials first, the index where they agree.
unfoldable pub newer_by_serial : ℤ × ℤ → ℤ × ℤ → Bool
newer_by_serial (serial, index) (latest_serial, latest_index) =
    if eqb_ℤ serial latest_serial then ltb_ℤ latest_index index else ltb_ℤ latest_serial serial

unfoldable pub compare_ids : PresenceMessage → PresenceMessage → Option Bool
compare_ids m latest = elim (serial_and_index m) [
  | none ↦ none
  | some a ↦ elim (serial_and_index latest) [ none ↦ none | some b ↦ some (newer_by_serial a b) ]
]

-- isNewerThan:
unfoldable pub is_newer_than : PresenceMessage → Option PresenceMessage → Option Bool
is_newer_than m none = some true
is_newer_than m (some latest) = elim (is_synthesized m) [
  | none ↦ none
  | some true ↦ some (newer_by_timestamp m latest)
  | some false ↦ elim (is_synthesized latest) [
    | none ↦ none
    | some true ↦ some (newer_by_timestamp m latest)
    | some false ↦ compare_ids m latest
  ]
]
