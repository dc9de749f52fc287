-- ===== src/Settings/Loaded.antt =====
-- ttp/settings.py: the times of the settings that `load_settings` gives.
use mathlib.Core.Path.{subst}
use transparent_tor_proxy.Base.{
  ℕ, ◌<◌, ◌≡◌, refl, ap, inl, inr, true, false, String, Option, none, some, arith, Option-cases,
}
use transparent_tor_proxy.Settings.{Settings, defaults, ticks, validate}
use transparent_tor_proxy.Settings.Timing.{IsTimed, validate-IsTimed}
use transparent_tor_proxy.Settings.Load.{
  Numerals, ConfigFile, absent, unusable, parsed, LoadedSettings, ◌>>=◌, validated, load_settings,
}

defaults-IsTimed : (second : ℕ) → 0 < second → IsTimed second defaults
unfolding ticks
defaults-IsTimed second h = record {
  readiness = (omega arith, omega arith);
  heartbeat = (omega arith, omega arith);
  service = (omega arith, omega arith);
  interval = (omega arith, omega arith);
  check = (omega arith, omega arith);
  max_age = (omega arith, omega arith);
  verification = (omega arith, omega arith);
  agent_readiness = (omega arith, omega arith);
  call = (omega arith, omega arith);
  delivery = (omega arith, omega arith);
  attempts = (3, refl, omega arith, omega arith);
  watchdog_set = inl refl;
  notifications_set = inl refl;
  call_fits = omega arith;
  reports_twice = omega arith;
  ready_in_time = omega arith;
  stays_fresh = omega arith;
  delivers_in_time = inl refl;
}

abbrev settings_or : Settings → Option LoadedSettings → Settings
settings_or s none = s
settings_or s (some l) = l.settings

module _ (second : ℕ) (numerals : Numerals) (h : 0 < second) where
  validated-IsTimed :
      (r : Option LoadedSettings) (l : LoadedSettings)
      → (r >>= validated second numerals) ≡ some l
      → IsTimed second l.settings
  validated-IsTimed none l e = absurd (ground (arith, e))
  validated-IsTimed (some r) l e = elim (Option-cases (validate second r.settings)) [
    | inl f ↦ let never : none ≡ some l = rw f at e in absurd (ground (arith, never))
    | inr (s, f) ↦
        let found : some (record r { settings = s }) ≡ some l = rw f at e in
        let same : s ≡ l.settings = ap (settings_or r.settings) found in
        let (kept, timed) = validate-IsTimed second r.settings s h f in
        subst (IsTimed second) same timed
  ]

  -- Whatever the administrator's file holds, and also without one, the settings that are loaded are
  -- timed.
  pub load_settings-IsTimed :
      (path : String) (file : ConfigFile) (l : LoadedSettings)
      → load_settings second numerals path file ≡ some l
      → IsTimed second l.settings
  unfolding load_settings
  load_settings-IsTimed path absent l e =
      subst (IsTimed second) (ap (settings_or defaults) e) (defaults-IsTimed second h)
  load_settings-IsTimed path unusable l e = absurd (ground (arith, e))
  load_settings-IsTimed path (parsed true sections) l e = absurd (ground (arith, e))
  load_settings-IsTimed path (parsed false sections) l e = validated-IsTimed _ l e
