-- ===== src/Fallback.antt =====
-- Fallback hosts: Source/ARTFallback.m, ARTFallbackHosts.m, the hosts of ARTDefault.m and what
-- ARTClientOptions.m says of its environment, hosts and ports.
pub mod Laws
use ably_cocoa.Base.{
  ℕ, zero, suc, ◌+◌, ◌-◌, Bool, true, false, ◌&&◌, ◌||◌, not, Option, none, some, List, [], ◌∷◌,
  ◌++◌, map, Text, codes, text_eq, same_text, leb, ◌==◌, if◌then◌else◌, length, any, is_some,
}

-- What the choice of hosts reads of ARTClientOptions.
pub record HostOptions : Type 0 where
  pub fallback_hosts : Option (List Text)
  pub fallback_hosts_use_default : Bool
  pub environment : Option Text
  pub rest_host : Option Text
  pub realtime_host : Option Text
  pub port : ℕ
  pub tls_port : ℕ

abbrev pub production : Text
production = codes "production"

-- lowercaseString, on the letters that ASCII has: no other one becomes a letter of "production".
abbrev pub lowercase : Text → Text
lowercase t = map (λ c. if leb 65 c && leb c 90 then c + 32 else c) t

abbrev pub is_production_environment : HostOptions → Bool
is_production_environment o = elim o.environment [
  | none ↦ false
  | some e ↦ text_eq (lowercase e) production
]

-- whitespaceAndNewlineCharacterSet: the category Z, and the control characters for lines and tabs.
abbrev is_white : ℕ → Bool
is_white c =
    leb 9 c && leb c 13
    || c == 32
    || c == 133
    || c == 160
    || c == 5760
    || leb 8192 c && leb c 8202
    || c == 8232
    || c == 8233
    || c == 8239
    || c == 8287
    || c == 12288

-- isEmptyString, of a text without the white space at its ends
abbrev pub is_blank : Text → Bool
is_blank t = not (any (λ c. not (is_white c)) t)

abbrev pub has_environment : HostOptions → Bool
has_environment o = elim o.environment [ none ↦ false | some e ↦ not (is_blank e) ]

-- hasEnvironmentDifferentThanProduction
unfoldable pub has_environment_different_than_production : HostOptions → Bool
has_environment_different_than_production o = has_environment o && not (is_production_environment o)

abbrev pub differs : Option Text → Text → Bool
differs none d = false
differs (some h) d = not (text_eq h d)

unfoldable pub has_custom_rest_host : HostOptions → Bool
has_custom_rest_host o =
    differs o.rest_host (codes "rest.ably.io") || has_environment_different_than_production o

unfoldable pub has_custom_realtime_host : HostOptions → Bool
has_custom_realtime_host o =
    differs o.realtime_host (codes "realtime.ably.io")
    || has_environment_different_than_production o

abbrev pub has_custom_port : HostOptions → Bool
has_custom_port o = not (o.port == 0) && not (o.port == 80)

abbrev pub has_custom_tls_port : HostOptions → Bool
has_custom_tls_port o = not (o.tls_port == 0) && not (o.tls_port == 443)

abbrev pub fallback_host : Text → Text → Text → Text
fallback_host prefix suffix name = prefix ++ name ++ suffix ++ codes ".ably-realtime.com"

abbrev pub names : List Text
names = codes "a" ∷ codes "b" ∷ codes "c" ∷ codes "d" ∷ codes "e" ∷ []

abbrev pub production_hosts : List Text
production_hosts = map (fallback_host [] []) names

-- fallbackHostsWithEnvironment:
unfoldable pub fallback_hosts_with_environment : Option Text → List Text
fallback_hosts_with_environment none = production_hosts
fallback_hosts_with_environment (some e) =
    if not (is_blank e) && not (text_eq e production)
    then map (fallback_host (e ++ codes "-") (codes "-fallback")) names
    else production_hosts

-- hostsFromOptions:
unfoldable pub hosts_from_options : HostOptions → Option (List Text)
hosts_from_options o =
    if is_some o.fallback_hosts
    then o.fallback_hosts
    else if o.fallback_hosts_use_default
    then some (fallback_hosts_with_environment none)
    else if has_environment_different_than_production o
    then some (fallback_hosts_with_environment o.environment)
    else if has_custom_rest_host o
        || has_custom_realtime_host o
        || has_custom_port o
        || has_custom_tls_port o
    then none
    else some (fallback_hosts_with_environment none)

abbrev pub at : ℕ → List Text → Text
at i [] = []
at zero (x ∷ xs) = x
at (suc i) (x ∷ xs) = at i xs

abbrev pub set : ℕ → Text → List Text → List Text
set i y [] = []
set zero y (x ∷ xs) = y ∷ xs
set (suc i) y (x ∷ xs) = x ∷ set i y xs

-- exchangeObjectAtIndex:withObjectAtIndex:
unfoldable pub exchange : ℕ → ℕ → List Text → List Text
exchange i j xs = set i (at j xs) (set j (at i xs) xs)

-- The loop of ARTFallback_shuffleArray, for `i` down to 2; `draw i` stands for
-- `arc4random_uniform(i)`.
unfoldable pub shuffle_from : (ℕ → ℕ) → ℕ → List Text → List Text
shuffle_from draw zero xs = xs
shuffle_from draw (suc zero) xs = xs
shuffle_from draw (suc (suc i)) xs =
    shuffle_from draw (suc i) (exchange (suc i) (draw (suc (suc i))) xs)

-- ARTFallback_shuffleArray
unfoldable pub shuffle_array : (ℕ → ℕ) → List Text → List Text
shuffle_array draw xs = shuffle_from draw (length xs) xs

-- initWithFallbackHosts:shuffleArray:, with the list of hosts as the object.
unfoldable pub fallback_init : (List Text → List Text) → Option (List Text) → Option (List Text)
fallback_init shuffle none = none
fallback_init shuffle (some []) = none
fallback_init shuffle (some (h ∷ hs)) = some (shuffle (h ∷ hs))

-- popFallbackHost: the last host, and the others.
unfoldable pub pop_fallback_host : List Text → Option Text × List Text
pop_fallback_host [] = (none, [])
pop_fallback_host (h ∷ []) = (some h, [])
pop_fallback_host (h ∷ g ∷ hs) = let (x, rest) = pop_fallback_host (g ∷ hs) in (x, h ∷ rest)
