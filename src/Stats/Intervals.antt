-- ===== src/Stats/Intervals.antt =====
-- The interval ids of Source/ARTStats.m. NSDateFormatter, in UTC, is a parameter.
use ably_cocoa.Base.{
  ℕ, ◌+◌, ◌≡◌, Option, none, some, List, [], ◌∷◌, Text, codes, ◌==◌, if◌then◌else◌, arith, ◌↔◌, ltb,
}
use ably_cocoa.Stats.{Stats}

-- ARTStatsGranularity
pub data Granularity : Type 0 where
  minute hour day month : Granularity

-- intervalFormatString, at the index of a granularity
abbrev pub interval_format : Granularity → Text
interval_format minute = codes "yyyy-MM-dd:HH:mm"
interval_format hour = codes "yyyy-MM-dd:HH"
interval_format day = codes "yyyy-MM-dd"
interval_format month = codes "yyyy-MM"

abbrev pub granularities : List Granularity
granularities = minute ∷ hour ∷ day ∷ month ∷ []

-- `length` of an NSString, in UTF-16 units.
abbrev pub utf16_length : Text → ℕ
utf16_length [] = 0
utf16_length (c ∷ s) = (if ltb c 65536 then 1 else 2) + utf16_length s

abbrev pub format_length : Granularity → ℕ
format_length g = utf16_length (interval_format g)

-- The first of the formats that is as long.
unfoldable pub granularity_of_length : List Granularity → ℕ → Option Granularity
granularity_of_length [] n = none
granularity_of_length (g ∷ gs) n =
    if format_length g == n then some g else granularity_of_length gs n

-- granularityFromIntervalId:, where `none` is the exception for an invalid id
unfoldable pub granularity_from_interval_id : Text → Option Granularity
unfolding granularity_of_length
granularity_from_interval_id id = granularity_of_length granularities (utf16_length id)

-- intervalGranularity, where nil has the length 0
abbrev or_empty : Option Text → Text
or_empty none = []
or_empty (some t) = t

unfoldable pub interval_granularity : Stats → Option Granularity
unfolding granularity_from_interval_id
interval_granularity s = granularity_from_interval_id (or_empty s.interval_id)

-- NSDateFormatter by a format: `stringFromDate:` and `dateFromString:`, which may answer nil.
pub record Formatter : Type 1 where
  pub Date : Type 0
  pub string_from_date : Text → Date → Text
  pub date_from_string : Text → Text → Option Date

module _ (f : Formatter) where
  open f use {Date, string_from_date, date_from_string}

  -- toIntervalId:granularity:
  unfoldable pub to_interval_id : Date → Granularity → Text
  to_interval_id time g = string_from_date (interval_format g) time

  abbrev pub date_by : Option Granularity → Text → Option (Option Date)
  date_by none id = none
  date_by (some g) id = some (date_from_string (interval_format g) id)

  -- dateFromIntervalId:, where `none` is the exception
  unfoldable pub date_from_interval_id : Text → Option (Option Date)
  unfolding granularity_of_length
  date_from_interval_id id = date_by (granularity_of_length granularities (utf16_length id)) id

  -- intervalTime and dateFromInProgress
  unfoldable pub interval_time : Stats → Option (Option Date)
  unfolding date_from_interval_id
  interval_time s = date_from_interval_id (or_empty s.interval_id)

  unfoldable pub date_from_in_progress : Stats → Option (Option Date)
  unfolding date_from_interval_id
  date_from_in_progress s = date_from_interval_id (or_empty s.in_progress)

-- An interval id has the granularity of the format that is as long as it is, and an id that is as
-- long as no format is invalid.
granularity_from_interval_id_iff :
    (id : Text) (g : Granularity)
    → (granularity_from_interval_id id ≡ some g) ↔ (utf16_length id ≡ format_length g)
unfolding granularity_from_interval_id
granularity_from_interval_id_iff id minute = ground arith
granularity_from_interval_id_iff id hour = ground arith
granularity_from_interval_id_iff id day = ground arith
granularity_from_interval_id_iff id month = ground arith
