-- ===== src/Settings/Tests.antt =====
-- Settings on which their validation is tried, with ten ticks in a second.
use transparent_tor_proxy.Base.{
  ℕ, ◌≡◌, refl, ap, ◌∙◌, true, false, String, Option, none, some, [], ◌∷◌, arith, string_discrete,
  str_eq, if◌then◌else◌,
}
use Prim.Native.Char.{nul}
use Prim.Native.Nat.{zero, suc}
use transparent_tor_proxy.Base.Int.{pos, negsuc}
use transparent_tor_proxy.Settings.Snapshot.{Floats}
use transparent_tor_proxy.Base.Dict.{insert}
use transparent_tor_proxy.Evidence.{Instant, finite, not_finite}
use transparent_tor_proxy.Settings.{
  flag, real, Settings, defaults, default_watchdog, ticks, is_duration, validate, select,
}
use transparent_tor_proxy.Settings.Timing.{IsTimed, validate-IsTimed}
use transparent_tor_proxy.Settings.Load.{
  default_settings, Numerals, LoadedSettings, parsed, load_settings,
}

defaults_pass : validate 10 defaults ≡ some defaults
unfolding validate is_duration ticks string_discrete
defaults_pass = refl

validate-IsTimed_example : (defaults ≡ defaults) × IsTimed 10 defaults
validate-IsTimed_example = validate-IsTimed 10 defaults defaults (omega arith) defaults_pass

abbrev watched_settings : Settings
watched_settings = record defaults { watchdog = record (default_watchdog) { enabled = flag true } }

watched_settings_selected : select 10 (some true) none defaults ≡ some watched_settings
unfolding select validate is_duration ticks string_discrete
watched_settings_selected = refl

abbrev numerals : Numerals
numerals = record {
  int_of = λ s. some (pos 4);
  float_of = λ s. if str_eq s "2.5" then some (finite (pos 25)) else none;
}

abbrev settings_read : Option LoadedSettings → Option Settings
settings_read none = none
settings_read (some l) = some l.settings

abbrev slow_heartbeat : Settings
slow_heartbeat = record defaults {
  watchdog = record (default_watchdog) { heartbeat_interval = real (finite (pos 25)) };
}

-- A value of the file replaces the default.
heartbeat_loaded :
    settings_read (
      load_settings 10 numerals "/etc/ttp/ttp.conf"
        (parsed false (("watchdog", ("heartbeat_interval", "2.5") ∷ []) ∷ [])))
    ≡ some slow_heartbeat
unfolding load_settings validate is_duration ticks string_discrete insert
heartbeat_loaded = refl

-- A key that is no setting is refused.
unknown_refused :
    load_settings 10 numerals "/etc/ttp/ttp.conf"
      (parsed false (("watchdog", ("heartbeat", "2.5") ∷ []) ∷ []))
    ≡ none
unfolding load_settings string_discrete insert
unknown_refused = refl

-- Floats as tallies: not finite, then 0, -1, 1, -2 and so on.
abbrev unary : ℕ → String
unary zero = String.[]
unary (suc n) = String.◌∷◌ nul (unary n)

abbrev tally : String → ℕ
tally String.[] = zero
tally (String.◌∷◌ _ s) = suc (tally s)

abbrev bump : Instant → Instant
bump (finite (pos n)) = finite (pos (suc n))
bump (finite (negsuc n)) = finite (negsuc (suc n))
bump not_finite = not_finite

abbrev instant_of : ℕ → Instant
instant_of zero = not_finite
instant_of (suc zero) = finite (pos zero)
instant_of (suc (suc zero)) = finite (negsuc zero)
instant_of (suc (suc (suc n))) = bump (instant_of (suc n))

abbrev twice : ℕ → ℕ
twice zero = zero
twice (suc n) = suc (suc (twice n))

abbrev number_of : Instant → ℕ
number_of not_finite = zero
number_of (finite (pos n)) = suc (twice n)
number_of (finite (negsuc n)) = suc (suc (twice n))

tally-unary : (n : ℕ) → tally (unary n) ≡ n
tally-unary zero = refl
tally-unary (suc n) = ap suc (tally-unary n)

instant_of-pos : (n : ℕ) → instant_of (suc (twice n)) ≡ finite (pos n)
instant_of-pos zero = refl
instant_of-pos (suc n) = ap bump (instant_of-pos n)

instant_of-negsuc : (n : ℕ) → instant_of (suc (suc (twice n))) ≡ finite (negsuc n)
instant_of-negsuc zero = refl
instant_of-negsuc (suc n) = ap bump (instant_of-negsuc n)

instant_of-number_of : (t : Instant) → instant_of (number_of t) ≡ t
instant_of-number_of not_finite = refl
instant_of-number_of (finite (pos n)) = instant_of-pos n
instant_of-number_of (finite (negsuc n)) = instant_of-negsuc n

abbrev tallies : Floats
tallies = record {
  print = λ t. unary (number_of t);
  parse = λ s. instant_of (tally s);
  parse-print = λ t. ap instant_of (tally-unary (number_of t)) ∙ instant_of-number_of t;
}

abbrev slow_loaded : LoadedSettings
slow_loaded = record {
  settings = slow_heartbeat;
  origins =
      insert "watchdog.heartbeat_interval" "/etc/ttp/ttp.conf"
        (default_settings 10 numerals).origins;
}

slow_is_loaded :
    load_settings 10 numerals "/etc/ttp/ttp.conf"
      (parsed false (("watchdog", ("heartbeat_interval", "2.5") ∷ []) ∷ []))
    ≡ some slow_loaded
unfolding load_settings validate is_duration ticks string_discrete insert
slow_is_loaded = refl
