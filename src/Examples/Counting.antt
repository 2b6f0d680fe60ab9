-- ===== src/Examples/Counting.antt =====
-- Instances for statistics and the details of channels (Source/ARTStats.m,
-- Source/ARTJsonLikeEncoder.m).
use ably_cocoa.Base.{◌≡◌, ◌↔◌, true, none, some, codes, arith}
use ably_cocoa.Json.{null, number, dictionary, Dictionary, end, entry}
use ably_cocoa.Stats.{
  Stats, answer, unrecognized_selector, stats_from_dictionary, empty_message_types,
  empty_message_traffic, empty_connection_types, empty_request_count, empty_push_count,
}
use ably_cocoa.Stats.RoundTrip.{IsExact, stats_value, stats_from_dictionary-stats_value}
use ably_cocoa.Stats.Faults.{is_faulty, stats_from_dictionary-raises}
use ably_cocoa.Details.{
  entries, is_other_class, metrics_below, channel_details_from, channel_details_from-raises,
}

abbrev busy : Stats
busy = record {
  all = record empty_message_types { messages = record { count = 20; bytes = 2048 } };
  inbound = record empty_message_traffic { rest = empty_message_types };
  outbound = empty_message_traffic;
  persisted = empty_message_types;
  connections = empty_connection_types;
  channels = record { opened = 5; peak = 4; mean = 3; min = 1; refused = 0 };
  api_requests = record { succeeded = 9; failed = 1; refused = 0 };
  token_requests = empty_request_count;
  pushes = record empty_push_count { attempted = 9007199254740993 };
  in_progress = none;
  count = 1;
  interval_id = some (codes "2023-03-01:12");
}

busy-IsExact : IsExact busy
busy-IsExact = record {
  all = omega arith;
  inbound = omega arith;
  outbound = omega arith;
  persisted = omega arith;
  connections = omega arith;
  channels = omega arith;
  api_requests = omega arith;
  token_requests = omega arith;
}

stats_from_dictionary-stats_value_example :
    stats_from_dictionary (stats_value busy) ≡ answer (some busy)
stats_from_dictionary-stats_value_example = stats_from_dictionary-stats_value busy busy-IsExact

-- Push counts whose notifications are null.
abbrev with_null : Dictionary
with_null =
    entry (codes "count") (number 1)
      (entry (codes "push") (dictionary (entry (codes "notifications") null end)) end)

stats_from_dictionary-raises_example :
    (stats_from_dictionary (dictionary with_null) ≡ unrecognized_selector)
    ↔ (is_faulty with_null ≡ true)
stats_from_dictionary-raises_example = stats_from_dictionary-raises with_null

abbrev half : Dictionary
half = entry (codes "status") (dictionary (entry (codes "occupancy") null end)) end

channel_details_from-raises_example :
    (channel_details_from (entries half) ≡ unrecognized_selector)
    ↔ (is_other_class (metrics_below (entries half)) ≡ true)
channel_details_from-raises_example = channel_details_from-raises (entries half)
