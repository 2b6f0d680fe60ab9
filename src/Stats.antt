-- ===== src/Stats.antt =====
-- Statistics: Source/include/Ably/ARTStats.h with Source/ARTStats.m, and what
-- Source/ARTJsonLikeEncoder.m decodes into them. Where an initialiser takes a part that may be nil,
-- the decoder never gives nil, so the parts are values here.
pub mod Intervals
pub mod RoundTrip
pub mod Faults
mod Counts
unfoldable pub use Counts.*
use ably_cocoa.Base.{ℕ, ◌+◌, Option, none, some, List, [], ◌∷◌, Text, codes}
use ably_cocoa.Json.{
  Value, null, truth, number, string, array, dictionary, Items, nil, cons, Dictionary,
  object_for_key, as_dictionary, art_number, art_string, integer_value, count_value,
}

-- The entry of a dictionary, as a count that went through a double.
abbrev pub count_at : Text → Dictionary → ℕ
count_at k d = count_value (art_number k d)

abbrev message_count_in : Option Dictionary → MessageCount
message_count_in none = empty_message_count
message_count_in (some d) = record {
  count = count_at (codes "count") d;
  bytes = count_at (codes "data") d;
}

-- statsMessageCountFromDictionary:
unfoldable pub message_count_from_dictionary : Option Value → MessageCount
message_count_from_dictionary input = message_count_in (as_dictionary input)

abbrev message_types_in : Option Dictionary → MessageTypes
message_types_in none = empty_message_types
message_types_in (some d) = record {
  all = message_count_from_dictionary (object_for_key (codes "all") d);
  messages = message_count_from_dictionary (object_for_key (codes "messages") d);
  presence = message_count_from_dictionary (object_for_key (codes "presence") d);
}

-- statsMessageTypesFromDictionary:
unfoldable pub message_types_from_dictionary : Option Value → MessageTypes
unfolding message_count_from_dictionary
message_types_from_dictionary input = message_types_in (as_dictionary input)

abbrev message_traffic_in : Option Dictionary → MessageTraffic
message_traffic_in none = empty_message_traffic
message_traffic_in (some d) = record {
  all = message_types_from_dictionary (object_for_key (codes "all") d);
  realtime = message_types_from_dictionary (object_for_key (codes "realtime") d);
  rest = message_types_from_dictionary (object_for_key (codes "rest") d);
  webhook = message_types_from_dictionary (object_for_key (codes "webhook") d);
}

-- statsMessageTrafficFromDictionary:
unfoldable pub message_traffic_from_dictionary : Option Value → MessageTraffic
unfolding message_types_from_dictionary
message_traffic_from_dictionary input = message_traffic_in (as_dictionary input)

abbrev resource_count_in : Option Dictionary → ResourceCount
resource_count_in none = empty_resource_count
resource_count_in (some d) = record {
  opened = count_at (codes "opened") d;
  peak = count_at (codes "peak") d;
  mean = count_at (codes "mean") d;
  min = count_at (codes "min") d;
  refused = count_at (codes "refused") d;
}

-- statsResourceCountFromDictionary:
unfoldable pub resource_count_from_dictionary : Option Value → ResourceCount
resource_count_from_dictionary input = resource_count_in (as_dictionary input)

abbrev connection_types_in : Option Dictionary → ConnectionTypes
connection_types_in none = empty_connection_types
connection_types_in (some d) = record {
  all = resource_count_from_dictionary (object_for_key (codes "all") d);
  plain = resource_count_from_dictionary (object_for_key (codes "plain") d);
  tls = resource_count_from_dictionary (object_for_key (codes "tls") d);
}

-- statsConnectionTypesFromDictionary:
unfoldable pub connection_types_from_dictionary : Option Value → ConnectionTypes
unfolding resource_count_from_dictionary
connection_types_from_dictionary input = connection_types_in (as_dictionary input)

abbrev request_count_in : Option Dictionary → RequestCount
request_count_in none = empty_request_count
request_count_in (some d) = record {
  succeeded = count_at (codes "succeeded") d;
  failed = count_at (codes "failed") d;
  refused = count_at (codes "refused") d;
}

-- statsRequestCountFromDictionary:
unfoldable pub request_count_from_dictionary : Option Value → RequestCount
request_count_from_dictionary input = request_count_in (as_dictionary input)

-- What a method answers, or the exception for a message that the class of its receiver does not
-- understand.
pub data Answer {ℓ} (A : Type ℓ) : Type ℓ where
  answer : A → Answer A
  unrecognized_selector : Answer A

infixl 5 ◌>>=◌
abbrev pub ◌>>=◌ {ℓ κ} : {A : Type ℓ} {B : Type κ} → Answer A → (A → Answer B) → Answer B
answer a >>= f = f a
unrecognized_selector >>= f = unrecognized_selector

-- `[notifications artNumber:]`: nil answers nil, and only a dictionary has the method.
abbrev pub notification : Option Value → Text → Answer (Option ℕ)
notification none k = answer none
notification (some (dictionary d)) k = answer (art_number k d)
notification (some _) k = unrecognized_selector

abbrev pub push_count_with : Option Value → Dictionary → Answer PushCount
push_count_with notifications d = do
  succeeded ← notification notifications (codes "successful")
  invalid ← notification notifications (codes "invalid")
  attempted ← notification notifications (codes "attempted")
  failed ← notification notifications (codes "failed")
  answer (record {
    succeeded = integer_value succeeded;
    invalid = integer_value invalid;
    attempted = integer_value attempted;
    failed = integer_value failed;
    messages = integer_value (art_number (codes "messages") d);
    direct = integer_value (art_number (codes "directPublishes") d);
  })

unfoldable pub push_count_in : Option Dictionary → Answer PushCount
push_count_in none = answer empty_push_count
push_count_in (some d) = push_count_with (object_for_key (codes "notifications") d) d

-- statsPushCountFromDictionary:
unfoldable pub push_count_from_dictionary : Option Value → Answer PushCount
unfolding push_count_in
push_count_from_dictionary input = push_count_in (as_dictionary input)

unfoldable pub stats_in : Dictionary → Answer Stats
stats_in d = do
  pushes ← push_count_from_dictionary (object_for_key (codes "push") d)
  answer (record {
    all = message_types_from_dictionary (object_for_key (codes "all") d);
    inbound = message_traffic_from_dictionary (object_for_key (codes "inbound") d);
    outbound = message_traffic_from_dictionary (object_for_key (codes "outbound") d);
    persisted = message_types_from_dictionary (object_for_key (codes "persisted") d);
    connections = connection_types_from_dictionary (object_for_key (codes "connections") d);
    channels = resource_count_from_dictionary (object_for_key (codes "channels") d);
    api_requests = request_count_from_dictionary (object_for_key (codes "apiRequests") d);
    token_requests = request_count_from_dictionary (object_for_key (codes "tokenRequests") d);
    pushes = pushes;
    in_progress = art_string (codes "inProgress") d;
    count = integer_value (art_number (codes "count") d);
    interval_id = art_string (codes "intervalId") d;
  })

-- statsFromDictionary:, where nil is the answer to anything but a dictionary.
unfoldable pub stats_from_dictionary : Value → Answer (Option Stats)
unfolding stats_in
stats_from_dictionary (dictionary d) = do s ← stats_in d; answer (some s)
stats_from_dictionary _ = answer none

abbrev add_stats : Option Stats → Answer (Option (List Stats)) → Answer (Option (List Stats))
add_stats none rest = answer none
add_stats (some s) rest =
    rest >>= λ found. answer (elim found [ none ↦ none | some l ↦ some (s ∷ l) ])

unfoldable pub stats_from_items : Items → Answer (Option (List Stats))
unfolding stats_from_dictionary
stats_from_items nil = answer (some [])
stats_from_items (cons v vs) =
    let rest = stats_from_items vs in stats_from_dictionary v >>= λ s. add_stats s rest

-- statsFromArray:
unfoldable pub stats_from_array : Value → Answer (Option (List Stats))
unfolding stats_from_items
stats_from_array (array vs) = stats_from_items vs
stats_from_array _ = answer none
