-- ===== src/Stats/Counts.antt =====
-- The classes of Source/include/Ably/ARTStats.h and their empty objects.
use ably_cocoa.Base.{ℕ, Option, Text}

-- ARTStatsMessageCount; `bytes` is its property `data`.
pub record MessageCount : Type 0 where
  pub count : ℕ
  pub bytes : ℕ

-- ARTStatsMessageTypes
pub record MessageTypes : Type 0 where
  pub all : MessageCount
  pub messages : MessageCount
  pub presence : MessageCount

-- ARTStatsMessageTraffic
pub record MessageTraffic : Type 0 where
  pub all : MessageTypes
  pub realtime : MessageTypes
  pub rest : MessageTypes
  pub webhook : MessageTypes

-- ARTStatsResourceCount
pub record ResourceCount : Type 0 where
  pub opened : ℕ
  pub peak : ℕ
  pub mean : ℕ
  pub min : ℕ
  pub refused : ℕ

-- ARTStatsConnectionTypes
pub record ConnectionTypes : Type 0 where
  pub all : ResourceCount
  pub plain : ResourceCount
  pub tls : ResourceCount

-- ARTStatsRequestCount
pub record RequestCount : Type 0 where
  pub succeeded : ℕ
  pub failed : ℕ
  pub refused : ℕ

-- ARTStatsPushCount
pub record PushCount : Type 0 where
  pub succeeded : ℕ
  pub invalid : ℕ
  pub attempted : ℕ
  pub failed : ℕ
  pub messages : ℕ
  pub direct : ℕ

-- ARTStats
pub record Stats : Type 0 where
  pub all : MessageTypes
  pub inbound : MessageTraffic
  pub outbound : MessageTraffic
  pub persisted : MessageTypes
  pub connections : ConnectionTypes
  pub channels : ResourceCount
  pub api_requests : RequestCount
  pub token_requests : RequestCount
  pub pushes : PushCount
  pub in_progress : Option Text
  pub count : ℕ
  pub interval_id : Option Text

-- The method `empty` of each.
abbrev pub empty_message_count : MessageCount
empty_message_count = record { count = 0; bytes = 0 }

abbrev pub empty_message_types : MessageTypes
empty_message_types = record {
  all = empty_message_count;
  messages = empty_message_count;
  presence = empty_message_count;
}

abbrev pub empty_message_traffic : MessageTraffic
empty_message_traffic = record {
  all = empty_message_types;
  realtime = empty_message_types;
  rest = empty_message_types;
  webhook = empty_message_types;
}

abbrev pub empty_resource_count : ResourceCount
empty_resource_count = record { opened = 0; peak = 0; mean = 0; min = 0; refused = 0 }

abbrev pub empty_connection_types : ConnectionTypes
empty_connection_types = record {
  all = empty_resource_count;
  plain = empty_resource_count;
  tls = empty_resource_count;
}

abbrev pub empty_request_count : RequestCount
empty_request_count = record { succeeded = 0; failed = 0; refused = 0 }

abbrev pub empty_push_count : PushCount
empty_push_count = record {
  succeeded = 0;
  invalid = 0;
  attempted = 0;
  failed = 0;
  messages = 0;
  direct = 0;
}
