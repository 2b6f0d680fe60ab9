-- ===== src/Stats/RoundTrip.antt =====
-- Statistics written as the dictionaries that the server sends, and read back.
use ably_cocoa.Base.{◌<◌, ◌≡◌, refl, Option, none, some, Text, codes}
use ably_cocoa.Json.{Value, number, string, dictionary, Dictionary, end, entry, art_string}
use ably_cocoa.Json.Numbers.{exact_limit, double_value-exact}
use ably_cocoa.Stats.{
  Stats, MessageCount, MessageTypes, MessageTraffic, ResourceCount, ConnectionTypes, RequestCount,
  PushCount, answer, stats_from_dictionary, stats_in, message_count_from_dictionary,
  message_types_from_dictionary, message_traffic_from_dictionary, resource_count_from_dictionary,
  connection_types_from_dictionary, request_count_from_dictionary, push_count_from_dictionary,
  push_count_in,
}

abbrev pub message_count_value : MessageCount → Value
message_count_value m =
    dictionary (entry (codes "count") (number m.count) (entry (codes "data") (number m.bytes) end))

abbrev pub message_types_value : MessageTypes → Value
message_types_value m = dictionary (
    entry (codes "all") (message_count_value m.all) (
      entry (codes "messages") (message_count_value m.messages)
        (entry (codes "presence") (message_count_value m.presence) end)))

abbrev pub message_traffic_value : MessageTraffic → Value
message_traffic_value m = dictionary (
    entry (codes "all") (message_types_value m.all) (
      entry (codes "realtime") (message_types_value m.realtime) (
        entry (codes "rest") (message_types_value m.rest)
          (entry (codes "webhook") (message_types_value m.webhook) end))))

abbrev pub resource_count_value : ResourceCount → Value
resource_count_value r = dictionary (
    entry (codes "opened") (number r.opened) (
      entry (codes "peak") (number r.peak) (
        entry (codes "mean") (number r.mean)
          (entry (codes "min") (number r.min) (entry (codes "refused") (number r.refused) end)))))

abbrev pub connection_types_value : ConnectionTypes → Value
connection_types_value c = dictionary (
    entry (codes "all") (resource_count_value c.all) (
      entry (codes "plain") (resource_count_value c.plain)
        (entry (codes "tls") (resource_count_value c.tls) end)))

abbrev pub request_count_value : RequestCount → Value
request_count_value r = dictionary (
    entry (codes "succeeded") (number r.succeeded)
      (entry (codes "failed") (number r.failed) (entry (codes "refused") (number r.refused) end)))

abbrev pub push_count_value : PushCount → Value
push_count_value p =
    let notifications = dictionary (
      entry (codes "successful") (number p.succeeded) (
        entry (codes "invalid") (number p.invalid) (
          entry (codes "attempted") (number p.attempted)
            (entry (codes "failed") (number p.failed) end)))) in
    dictionary (
      entry (codes "messages") (number p.messages) (
        entry (codes "directPublishes") (number p.direct)
          (entry (codes "notifications") notifications end)))

abbrev optional : Text → Option Text → Dictionary → Dictionary
optional k none d = d
optional k (some t) d = entry k (string t) d

abbrev pub stats_value : Stats → Value
stats_value s = dictionary (
    entry (codes "all") (message_types_value s.all) (
      entry (codes "inbound") (message_traffic_value s.inbound) (
        entry (codes "outbound") (message_traffic_value s.outbound) (
          entry (codes "persisted") (message_types_value s.persisted) (
            entry (codes "connections") (connection_types_value s.connections) (
              entry (codes "channels") (resource_count_value s.channels) (
                entry (codes "apiRequests") (request_count_value s.api_requests) (
                  entry (codes "tokenRequests") (request_count_value s.token_requests) (
                    entry (codes "push") (push_count_value s.pushes) (
                      entry (codes "count") (number s.count) (
                        optional (codes "inProgress") s.in_progress
                          (optional (codes "intervalId") s.interval_id end))))))))))))

-- The counts that go through a double are below 2 ^ 53.
abbrev pub MessageCountIsExact : MessageCount → Type 0
MessageCountIsExact m = (m.count < exact_limit) × (m.bytes < exact_limit)

abbrev pub MessageTypesIsExact : MessageTypes → Type 0
MessageTypesIsExact m =
    MessageCountIsExact m.all × MessageCountIsExact m.messages × MessageCountIsExact m.presence

abbrev pub MessageTrafficIsExact : MessageTraffic → Type 0
MessageTrafficIsExact m =
    MessageTypesIsExact m.all
    × MessageTypesIsExact m.realtime
    × MessageTypesIsExact m.rest
    × MessageTypesIsExact m.webhook

abbrev pub ResourceCountIsExact : ResourceCount → Type 0
ResourceCountIsExact r =
    (r.opened < exact_limit)
    × (r.peak < exact_limit)
    × (r.mean < exact_limit)
    × (r.min < exact_limit)
    × (r.refused < exact_limit)

abbrev pub ConnectionTypesIsExact : ConnectionTypes → Type 0
ConnectionTypesIsExact c =
    ResourceCountIsExact c.all × ResourceCountIsExact c.plain × ResourceCountIsExact c.tls

abbrev pub RequestCountIsExact : RequestCount → Type 0
RequestCountIsExact r =
    (r.succeeded < exact_limit) × (r.failed < exact_limit) × (r.refused < exact_limit)

pub record IsExact (s : Stats) : Type 0 where
  pub all : MessageTypesIsExact s.all
  pub inbound : MessageTrafficIsExact s.inbound
  pub outbound : MessageTrafficIsExact s.outbound
  pub persisted : MessageTypesIsExact s.persisted
  pub connections : ConnectionTypesIsExact s.connections
  pub channels : ResourceCountIsExact s.channels
  pub api_requests : RequestCountIsExact s.api_requests
  pub token_requests : RequestCountIsExact s.token_requests

read_message_count :
    (m : MessageCount)
    → MessageCountIsExact m
    → message_count_from_dictionary (some (message_count_value m)) ≡ m
unfolding message_count_from_dictionary
read_message_count m (a, b) = simp (double_value-exact m.count a, double_value-exact m.bytes b)

read_message_types :
    (m : MessageTypes)
    → MessageTypesIsExact m
    → message_types_from_dictionary (some (message_types_value m)) ≡ m
unfolding message_types_from_dictionary
read_message_types m (a, b, c) =
    rw
      (read_message_count m.all a, read_message_count m.messages b, read_message_count m.presence c)

read_message_traffic :
    (m : MessageTraffic)
    → MessageTrafficIsExact m
    → message_traffic_from_dictionary (some (message_traffic_value m)) ≡ m
unfolding message_traffic_from_dictionary
read_message_traffic m (a, b, c, d) = rw (
  read_message_types m.all a,
  read_message_types m.realtime b,
  read_message_types m.rest c,
  read_message_types m.webhook d,
)

read_resource_count :
    (r : ResourceCount)
    → ResourceCountIsExact r
    → resource_count_from_dictionary (some (resource_count_value r)) ≡ r
unfolding resource_count_from_dictionary
read_resource_count r (a, b, c, d, e) = simp (
  double_value-exact r.opened a,
  double_value-exact r.peak b,
  double_value-exact r.mean c,
  double_value-exact r.min d,
  double_value-exact r.refused e,
)

read_connection_types :
    (m : ConnectionTypes)
    → ConnectionTypesIsExact m
    → connection_types_from_dictionary (some (connection_types_value m)) ≡ m
unfolding connection_types_from_dictionary
read_connection_types m (a, b, c) =
    rw (read_resource_count m.all a, read_resource_count m.plain b, read_resource_count m.tls c)

read_request_count :
    (r : RequestCount)
    → RequestCountIsExact r
    → request_count_from_dictionary (some (request_count_value r)) ≡ r
unfolding request_count_from_dictionary
read_request_count r (a, b, c) = simp (
  double_value-exact r.succeeded a,
  double_value-exact r.failed b,
  double_value-exact r.refused c,
)

read_push_count :
    (p : PushCount) → push_count_from_dictionary (some (push_count_value p)) ≡ answer p
unfolding push_count_from_dictionary push_count_in
read_push_count p = refl

abbrev texts : Option Text → Option Text → Dictionary
texts o p = optional (codes "inProgress") o (optional (codes "intervalId") p end)

read_in_progress : (o p : Option Text) → art_string (codes "inProgress") (texts o p) ≡ o
read_in_progress none none = refl
read_in_progress none (some _) = refl
read_in_progress (some _) _ = refl

read_interval_id : (o p : Option Text) → art_string (codes "intervalId") (texts o p) ≡ p
read_interval_id none none = refl
read_interval_id none (some _) = refl
read_interval_id (some _) none = refl
read_interval_id (some _) (some _) = refl

-- The decoder reads back the statistics from the dictionary of them, where the counts that it takes
-- through a double are below 2 ^ 53.
pub stats_from_dictionary-stats_value :
    (s : Stats) → IsExact s → stats_from_dictionary (stats_value s) ≡ answer (some s)
unfolding stats_from_dictionary stats_in
stats_from_dictionary-stats_value s e = rw (
  read_push_count s.pushes,
  read_message_types s.all e.all,
  read_message_traffic s.inbound e.inbound,
  read_message_traffic s.outbound e.outbound,
  read_message_types s.persisted e.persisted,
  read_connection_types s.connections e.connections,
  read_resource_count s.channels e.channels,
  read_request_count s.api_requests e.api_requests,
  read_request_count s.token_requests e.token_requests,
  read_in_progress s.in_progress s.interval_id,
  read_interval_id s.in_progress s.interval_id,
)
