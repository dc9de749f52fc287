-- ===== src/Settings.antt =====
-- ttp/settings.py: the settings of a session, their validation, and the choice of command line flags.
-- Python's numbers of seconds are exact here: whole numbers, or instants in ticks, of which `second`
-- make a second. Any finite set of floats has such a tick.
pub mod Timing
pub mod Snapshot
pub mod Load
pub mod Loaded
mod Tests
use transparent_tor_proxy.Base.{
  ℕ, ◌+◌, ◌*◌, Bool, true, false, not, ◌&&◌, ◌||◌, String, Option, none, some, List, [], ◌∷◌, ltb,
  leb, str_eq, all_of, if◌then◌else◌,
}
use transparent_tor_proxy.Base.Int.{ℤ, pos, negsuc}
use transparent_tor_proxy.Evidence.{Instant, finite, not_finite}

-- What a field may hold before it is validated: a bool, an int, a float, or anything else.
pub data Setting : Type 0 where
  flag : Bool → Setting
  whole : ℤ → Setting
  real : Instant → Setting
  other : Setting

pub record WatchdogSettings : Type 0 where
  pub enabled : Setting
  pub readiness_timeout : Setting
  pub heartbeat_interval : Setting
  pub service_timeout : Setting
  pub check_interval : Setting
  pub check_timeout : Setting
  pub observation_max_age : Setting

pub record VerificationSettings : Type 0 where
  pub timeout : Setting

pub record NotificationSettings : Type 0 where
  pub enabled : Setting
  pub readiness_timeout : Setting
  pub call_timeout : Setting
  pub delivery_timeout : Setting
  pub attempts : Setting

pub record Settings : Type 0 where
  pub watchdog : WatchdogSettings
  pub verification : VerificationSettings
  pub notifications : NotificationSettings

abbrev pub seconds : ℕ → Setting
seconds n = whole (pos n)

-- The classes' defaults.
abbrev pub default_watchdog : WatchdogSettings
default_watchdog = record {
  enabled = flag false;
  readiness_timeout = seconds 30;
  heartbeat_interval = seconds 5;
  service_timeout = seconds 30;
  check_interval = seconds 15;
  check_timeout = seconds 10;
  observation_max_age = seconds 30;
}

abbrev pub default_verification : VerificationSettings
default_verification = record { timeout = seconds 60 }

abbrev pub default_notifications : NotificationSettings
default_notifications = record {
  enabled = flag false;
  readiness_timeout = seconds 15;
  call_timeout = seconds 5;
  delivery_timeout = seconds 15;
  attempts = seconds 3;
}

abbrev pub defaults : Settings
defaults = record {
  watchdog = default_watchdog;
  verification = default_verification;
  notifications = default_notifications;
}

-- `asdict` of each class.
abbrev pub watchdog_items : WatchdogSettings → List (String × Setting)
watchdog_items w =
    ("enabled", w.enabled)
    ∷ ("readiness_timeout", w.readiness_timeout)
    ∷ ("heartbeat_interval", w.heartbeat_interval)
    ∷ ("service_timeout", w.service_timeout)
    ∷ ("check_interval", w.check_interval)
    ∷ ("check_timeout", w.check_timeout)
    ∷ ("observation_max_age", w.observation_max_age)
    ∷ []

abbrev pub verification_items : VerificationSettings → List (String × Setting)
verification_items v = ("timeout", v.timeout) ∷ []

abbrev pub notification_items : NotificationSettings → List (String × Setting)
notification_items n =
    ("enabled", n.enabled)
    ∷ ("readiness_timeout", n.readiness_timeout)
    ∷ ("call_timeout", n.call_timeout)
    ∷ ("delivery_timeout", n.delivery_timeout)
    ∷ ("attempts", n.attempts)
    ∷ []

-- `type(value) is bool`, and an int from 1 to 10.
abbrev pub is_flag : Setting → Bool
is_flag (flag _) = true
is_flag _ = false

abbrev pub is_count : Setting → Bool
is_count (whole (pos n)) = leb 1 n && leb n 10
is_count _ = false

module _ (second : ℕ) where
  -- A number of seconds, in ticks.
  unfoldable pub ticks : Setting → ℕ
  ticks (whole (pos n)) = n * second
  ticks (real (finite (pos t))) = t
  ticks _ = 0

  -- A finite number of seconds greater than 0 and at most 3600.
  unfoldable pub is_duration : Setting → Bool
  is_duration (whole (pos n)) = ltb 0 n && leb n 3600
  is_duration (real (finite (pos t))) = ltb 0 t && leb t (3600 * second)
  is_duration _ = false

  abbrev pub item_fits : String × Setting → Bool
  item_fits (key, value) =
      if str_eq key "enabled"
      then is_flag value
      else if str_eq key "attempts"
      then is_count value
      else is_duration value

  -- The loop over the items of the three sections.
  unfoldable pub items_fit : Settings → Bool
  items_fit s =
      all_of item_fits (watchdog_items s.watchdog)
      && (all_of item_fits (verification_items s.verification)
          && all_of item_fits (notification_items s.notifications))

  abbrev is_set : Setting → Bool
  is_set (flag b) = b
  is_set _ = false

  -- The tests between fields.
  unfoldable pub timings_fit : Settings → Bool
  timings_fit s =
      let w = s.watchdog in
      let n = s.notifications in
      leb (2 * (ticks w.check_timeout + ticks w.heartbeat_interval)) (ticks w.service_timeout)
      && (leb (ticks w.check_timeout + ticks w.heartbeat_interval) (ticks w.readiness_timeout)
          && (leb (ticks w.check_interval + ticks w.check_timeout) (ticks w.observation_max_age)
              && (leb (ticks n.call_timeout) (ticks n.delivery_timeout)
                  && not (
                      is_set n.enabled
                      && leb (ticks w.service_timeout)
                          (ticks n.delivery_timeout + ticks w.heartbeat_interval)))))

  -- `none` stands for the `SettingsError`.
  unfoldable pub validate : Settings → Option Settings
  unfolding items_fit timings_fit
  validate s = if items_fit s && timings_fit s then some s else none

  abbrev chosen : Setting → Option Bool → Setting
  chosen old none = old
  chosen old (some b) = flag b

  -- The method `select` of `Settings`.
  unfoldable pub select : Option Bool → Option Bool → Settings → Option Settings
  select watchdog notifications s = validate (record s {
    watchdog = record (s.watchdog) { enabled = chosen s.watchdog.enabled watchdog };
    notifications = record (s.notifications) {
      enabled = chosen s.notifications.enabled notifications;
    };
  })
