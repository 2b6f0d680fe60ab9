-- ===== src/Options/Hosts.antt =====
-- The hosts of Source/ARTClientOptions.m.
use ably_cocoa.Base.{
  ◌≡◌, ◌≢◌, refl, sym, ◌↔◌, ap, subst, Bool, true, false, Option, none, some, List, [], ◌∷◌, ◌++◌,
  Text, codes, text_eq, length, length-append, is_some, arith, ◌&&◌, not, if◌then◌else◌,
}
use ably_cocoa.Fallback.{
  HostOptions, has_custom_rest_host, has_environment_different_than_production, production,
  lowercase, is_blank,
}
use ably_cocoa.Options.Client.{
  rest_host, for_environment, set_fallback_hosts, set_fallback_hosts_use_default,
}

-- What a client does to the options for fallback hosts.
pub data Setting : Type 0 where
  fallback_hosts : Option (List Text) → Setting
  use_default : Bool → Setting

abbrev or_unchanged : HostOptions → Option HostOptions → HostOptions
or_unchanged o none = o
or_unchanged o (some p) = p

-- A setter that raises an exception leaves the options as they were.
abbrev pub apply : Setting → HostOptions → HostOptions
apply (fallback_hosts hosts) o = or_unchanged o (set_fallback_hosts hosts o)
apply (use_default b) o = or_unchanged o (set_fallback_hosts_use_default b o)

abbrev pub apply_all : List Setting → HostOptions → HostOptions
apply_all [] o = o
apply_all (s ∷ l) o = apply_all l (apply s o)

-- Custom fallback hosts exclude the default ones.
abbrev pub IsExclusive : HostOptions → Type 0
IsExclusive o = (is_some o.fallback_hosts && o.fallback_hosts_use_default) ≡ false

apply-IsExclusive : (s : Setting) (o : HostOptions) → IsExclusive o → IsExclusive (apply s o)
unfolding set_fallback_hosts set_fallback_hosts_use_default
apply-IsExclusive (fallback_hosts hosts) o h = ground arith
apply-IsExclusive (use_default b) o h = ground arith

-- Whatever the setters of the fallback hosts are called with, and in whatever order, options that do
-- not have both custom fallback hosts and the default ones never come to have both.
pub apply_all-IsExclusive :
    (l : List Setting) (o : HostOptions) → IsExclusive o → IsExclusive (apply_all l o)
apply_all-IsExclusive [] o h = h
apply_all-IsExclusive (s ∷ l) o h = apply_all-IsExclusive l (apply s o) (apply-IsExclusive s o h)

longer : (e host : Text) → for_environment e host ≢ host
longer e host h =
    omega (arith, ap length h, length-append (e ++ codes "-") host, length-append e (codes "-"))

chosen :
    (has_one is_production : Bool) (e host : Text)
    → ((if is_production then host else if has_one then for_environment e host else host) ≡ host)
      ↔ ((has_one && not is_production) ≡ false)
chosen true true e host = (λ _. refl, λ _. refl)
chosen true false e host = (λ h. absurd (longer e host h), λ h. cc)
chosen false true e host = (λ _. refl, λ _. refl)
chosen false false e host = (λ _. refl, λ _. refl)

-- The host of options with an environment and no host of their own.
host_of_environment :
    (environment : Option Text) (o : HostOptions)
    → ((e : Text) → environment ≡ some e → lowercase e ≡ e)
    → (rest_host (record o { rest_host = none; environment = environment }) ≡ codes "rest.ably.io")
      ↔ (has_custom_rest_host (record o { rest_host = none; environment = environment }) ≡ false)
unfolding rest_host has_custom_rest_host has_environment_different_than_production
host_of_environment none o small = (λ _. refl, λ _. refl)
host_of_environment (some e) o small =
    subst
      (λ t.
        ((if text_eq e production
            then codes "rest.ably.io"
            else if not (is_blank e)
            then for_environment e (codes "rest.ably.io")
            else codes "rest.ably.io")
          ≡ codes "rest.ably.io")
        ↔ ((not (is_blank e) && not (text_eq t production)) ≡ false))
      (sym (small e refl))
      (chosen (not (is_blank e)) (text_eq e production) e (codes "rest.ably.io"))

-- Where no host is set and the environment, if any, has no capital letters, the host for REST
-- requests is the default one exactly when the options count as having no custom host.
pub rest_host-has_custom_rest_host :
    (o : HostOptions)
    → o.rest_host ≡ none
    → ((e : Text) → o.environment ≡ some e → lowercase e ≡ e)
    → (rest_host o ≡ codes "rest.ably.io") ↔ (has_custom_rest_host o ≡ false)
rest_host-has_custom_rest_host o h small =
    subst
      (λ r.
        (rest_host (record o { rest_host = r }) ≡ codes "rest.ably.io")
        ↔ (has_custom_rest_host (record o { rest_host = r }) ≡ false))
      (sym h) (host_of_environment o.environment o small)
