-- ===== src/Details.antt =====
-- The details of a channel: the classes of Source/include/Ably/ARTTypes.h from ARTChannelMetrics to
-- ARTChannelDetails, and their decoding by Source/ARTJsonLikeEncoder.m.
use ably_cocoa.Base.{
  ℕ, ◌≡◌, refl, ◌↔◌, Bool, true, false, not, Option, none, some, Text, codes, ℤ, pos, eqb_ℤ,
}
use ably_cocoa.Presence.Order.{integer_value as string_value}
use ably_cocoa.Json.{Value, dictionary, Dictionary, object_for_key, art_number, art_string}
use ably_cocoa.Stats.{Answer, answer, unrecognized_selector, ◌>>=◌}
use ably_cocoa.Stats.Faults.{>>=-raises}

-- ARTChannelMetrics
pub record ChannelMetrics : Type 0 where
  pub connections : ℤ
  pub publishers : ℤ
  pub subscribers : ℤ
  pub presence_connections : ℤ
  pub presence_members : ℤ
  pub presence_subscribers : ℤ

-- ARTChannelOccupancy
pub record ChannelOccupancy : Type 0 where
  pub metrics : ChannelMetrics

-- ARTChannelStatus
pub record ChannelStatus : Type 0 where
  pub active : Bool
  pub occupancy : ChannelOccupancy

-- ARTChannelDetails
pub record ChannelDetails : Type 0 where
  pub channel_id : Option Text
  pub status : ChannelStatus

abbrev integer_of : Option ℕ → Option Text → ℤ
integer_of (some n) _ = pos n
integer_of none (some s) = string_value s
integer_of none none = pos 0

-- artInteger:, of a number below 2 ^ 63 or of the text of an integer
unfoldable pub art_integer : Text → Dictionary → ℤ
art_integer k d = integer_of (art_number k d) (art_string k d)

-- artBoolean:
unfoldable pub art_boolean : Text → Dictionary → Bool
unfolding art_integer
art_boolean k d = not (eqb_ℤ (art_integer k d) (pos 0))

-- The receiver `input` of the messages: nil, which answers 0, NO or nil, a dictionary, or an object of
-- another class, which raises an exception.
pub data Receiver : Type 0 where
  nil_receiver : Receiver
  entries : Dictionary → Receiver
  other_class : Receiver

abbrev pub receiver : Option Value → Receiver
receiver none = nil_receiver
receiver (some (dictionary d)) = entries d
receiver (some _) = other_class

-- channelMetricsFromDictionary:
unfoldable pub channel_metrics_from : Receiver → Answer ChannelMetrics
unfolding art_integer
channel_metrics_from nil_receiver = answer (record {
  connections = pos 0;
  publishers = pos 0;
  subscribers = pos 0;
  presence_connections = pos 0;
  presence_members = pos 0;
  presence_subscribers = pos 0;
})
channel_metrics_from (entries d) = answer (record {
  connections = art_integer (codes "connections") d;
  publishers = art_integer (codes "publishers") d;
  subscribers = art_integer (codes "subscribers") d;
  presence_connections = art_integer (codes "presenceConnections") d;
  presence_members = art_integer (codes "presenceMembers") d;
  presence_subscribers = art_integer (codes "presenceSubscribers") d;
})
channel_metrics_from other_class = unrecognized_selector

-- valueForKey: of the receiver. An object of another class raises an exception as well; only an array
-- answers an array, which raises it in the end, when the metrics are read.
abbrev pub value_for_key : Text → Receiver → Answer Receiver
value_for_key k nil_receiver = answer nil_receiver
value_for_key k (entries d) = answer (receiver (object_for_key k d))
value_for_key k other_class = unrecognized_selector

-- channelOccupancyFromDictionary:
unfoldable pub channel_occupancy_from : Receiver → Answer ChannelOccupancy
unfolding channel_metrics_from
channel_occupancy_from input = do
  below ← value_for_key (codes "metrics") input
  metrics ← channel_metrics_from below
  answer (record { metrics = metrics })

abbrev boolean_of : Text → Receiver → Bool
boolean_of k (entries d) = art_boolean k d
boolean_of k _ = false

-- channelStatusFromDictionary:
unfoldable pub channel_status_from : Receiver → Answer ChannelStatus
unfolding channel_occupancy_from art_boolean
channel_status_from input = do
  below ← value_for_key (codes "occupancy") input
  occupancy ← channel_occupancy_from below
  answer (record { active = boolean_of (codes "isActive") input; occupancy = occupancy })

abbrev string_of : Text → Receiver → Option Text
string_of k (entries d) = art_string k d
string_of k _ = none

-- channelDetailsFromDictionary:
unfoldable pub channel_details_from : Receiver → Answer ChannelDetails
unfolding channel_status_from
channel_details_from input = do
  below ← value_for_key (codes "status") input
  status ← channel_status_from below
  answer (record { channel_id = string_of (codes "channelId") input; status = status })

-- The receivers below an input: those of `status`, `occupancy` and `metrics`.
abbrev pub is_other_class : Receiver → Bool
is_other_class other_class = true
is_other_class _ = false

abbrev pub below : Text → Receiver → Receiver
below k nil_receiver = nil_receiver
below k (entries d) = receiver (object_for_key k d)
below k other_class = other_class

abbrev pub metrics_below : Receiver → Receiver
metrics_below input =
    below (codes "metrics") (below (codes "occupancy") (below (codes "status") input))

metrics_raises :
    (r : Receiver) → (channel_metrics_from r ≡ unrecognized_selector) ↔ (is_other_class r ≡ true)
unfolding channel_metrics_from
metrics_raises nil_receiver = (λ h. cc, λ h. cc)
metrics_raises (entries d) = (λ h. cc, λ h. cc)
metrics_raises other_class = (λ h. refl, λ h. refl)

module _ {ℓ κ} {A : Type ℓ} {B : Type κ} (k : Text) (f : Receiver → Answer A) (g : A → B) where
  -- A part of an input is decoded by `f` and put in its place by `g`.
  part_raises :
      (r : Receiver)
      → f other_class ≡ unrecognized_selector
      → ((value_for_key k r >>= λ b. f b >>= λ a. answer (g a)) ≡ unrecognized_selector)
        ↔ (f (below k r) ≡ unrecognized_selector)
  part_raises nil_receiver e = let (a, b) = >>=-raises (f nil_receiver) g in (b, a)
  part_raises (entries d) e =
      let (a, b) = >>=-raises (f (receiver (object_for_key k d))) g in (b, a)
  part_raises other_class e = (λ h. e, λ h. refl)

-- The decoding of the details of a channel raises an exception exactly when one of the input, its
-- status, the occupancy in it and the metrics in that is there and is no dictionary, such as null,
-- with dictionaries above it. A part that is missing does no harm.
pub channel_details_from-raises :
    (r : Receiver)
    → (channel_details_from r ≡ unrecognized_selector) ↔ (is_other_class (metrics_below r) ≡ true)
unfolding channel_details_from channel_status_from channel_occupancy_from channel_metrics_from
channel_details_from-raises r =
    let status = below (codes "status") r in
    let occupancy = below (codes "occupancy") status in
    let a = part_raises (codes "status") channel_status_from _ r refl in
    let b = part_raises (codes "occupancy") channel_occupancy_from _ status refl in
    let c = part_raises (codes "metrics") channel_metrics_from _ occupancy refl in
    let d = metrics_raises (metrics_below r) in
    (λ h. d.0 (c.0 (b.0 (a.0 h))), λ h. a.1 (b.1 (c.1 (d.1 h))))
