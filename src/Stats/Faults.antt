-- ===== src/Stats/Faults.antt =====
-- When the decoding of statistics by Source/ARTJsonLikeEncoder.m ends in an exception, and what it
-- makes of an array.
use ably_cocoa.Base.{◌≡◌, refl, ◌↔◌, Bool, true, false, Option, none, some, codes, arith}
use ably_cocoa.Json.{Value, dictionary, Dictionary, object_for_key, as_dictionary}
use ably_cocoa.Stats.{
  Answer, answer, unrecognized_selector, ◌>>=◌, stats_from_dictionary, stats_in,
  push_count_from_dictionary, push_count_in, push_count_with,
}

-- A value that is there and is no dictionary.
abbrev pub is_no_dictionary : Option Value → Bool
is_no_dictionary none = false
is_no_dictionary (some (dictionary _)) = false
is_no_dictionary (some _) = true

abbrev pub push_is_faulty : Option Dictionary → Bool
push_is_faulty none = false
push_is_faulty (some p) = is_no_dictionary (object_for_key (codes "notifications") p)

abbrev pub is_faulty : Dictionary → Bool
is_faulty d = push_is_faulty (as_dictionary (object_for_key (codes "push") d))

push_count_with-raises :
    (n : Option Value) (p : Dictionary)
    → (push_count_with n p ≡ unrecognized_selector) ↔ (is_no_dictionary n ≡ true)
push_count_with-raises none p = ground arith
push_count_with-raises (some (dictionary d)) p = ground arith
push_count_with-raises (some _) p = ground arith

push_count_in-raises :
    (p : Option Dictionary) → (push_count_in p ≡ unrecognized_selector) ↔ (push_is_faulty p ≡ true)
unfolding push_count_in
push_count_in-raises none = ground arith
push_count_in-raises (some p) = push_count_with-raises (object_for_key (codes "notifications") p) p

pub >>=-raises {ℓ κ} :
    {A : Type ℓ} {B : Type κ} (m : Answer A) (f : A → B)
    → (m ≡ unrecognized_selector) ↔ ((m >>= λ a. answer (f a)) ≡ unrecognized_selector)
>>=-raises (answer a) f = (λ x. cc, λ x. cc)
>>=-raises unrecognized_selector f = (λ x. refl, λ x. refl)

-- The decoding of a dictionary of statistics raises an exception exactly when its entry for the push
-- counts is a dictionary whose notifications are there and are no dictionary, such as null.
pub stats_from_dictionary-raises :
    (d : Dictionary)
    → (stats_from_dictionary (dictionary d) ≡ unrecognized_selector) ↔ (is_faulty d ≡ true)
unfolding stats_from_dictionary stats_in push_count_from_dictionary
stats_from_dictionary-raises d =
    let push = object_for_key (codes "push") d in
    let faulty = push_count_in-raises (as_dictionary push) in
    let inner = >>=-raises (push_count_from_dictionary push) _ in
    let outer = >>=-raises (stats_in d) some in
    (λ h. faulty.0 (inner.1 (outer.1 h)), λ h. outer.0 (inner.0 (faulty.1 h)))
