-- ===== src/Json.antt =====
-- The decoded JSON and MessagePack values that Source/ARTJsonLikeEncoder.m reads, and the typed
-- access to dictionaries of Source/ARTNSDictionary+ARTDictionaryUtil.m.
pub mod Numbers
use ably_cocoa.Base.{
  ℕ, ◌≤◌, Bool, true, false, not, ◌≡◌, refl, Option, none, some, Text, codes, text_eq, text_eq_refl,
  ◌==◌, if◌then◌else◌,
}
use ably_cocoa.Json.Numbers.{double_value}

-- What NSJSONSerialization and the MessagePack decoder answer. A number is whole and not negative; a
-- truth value is an NSNumber too.
mutual
  pub data Value : Type 0 where
    null : Value
    truth : Bool → Value
    number : ℕ → Value
    string : Text → Value
    array : Items → Value
    dictionary : Dictionary → Value

  pub data Items : Type 0 where
    nil : Items
    cons : Value → Items → Items

  -- The entries of an NSDictionary.
  pub data Dictionary : Type 0 where
    end : Dictionary
    entry : Text → Value → Dictionary → Dictionary

-- objectForKey:
abbrev pub object_for_key : Text → Dictionary → Option Value
object_for_key k end = none
object_for_key k (entry j v d) = if text_eq j k then some v else object_for_key k d

-- `isKindOfClass:[NSDictionary class]`, of a reference that may be nil.
abbrev pub as_dictionary : Option Value → Option Dictionary
as_dictionary (some (dictionary d)) = some d
as_dictionary _ = none

-- artTyped:key: with the class NSNumber, and artNumber:
abbrev as_number : Option Value → Option ℕ
as_number (some (truth b)) = some (if b then 1 else 0)
as_number (some (number n)) = some n
as_number _ = none

abbrev pub art_number : Text → Dictionary → Option ℕ
art_number k d = as_number (object_for_key k d)

-- artString:
abbrev as_string : Option Value → Option Text
as_string (some (string s)) = some s
as_string _ = none

abbrev pub art_string : Text → Dictionary → Option Text
art_string k d = as_string (object_for_key k d)

-- unsignedIntegerValue, integerValue and doubleValue of an NSNumber, where nil answers 0.
abbrev pub integer_value : Option ℕ → ℕ
integer_value none = 0
integer_value (some n) = n

abbrev pub count_value : Option ℕ → ℕ
count_value none = 0
count_value (some n) = double_value n
