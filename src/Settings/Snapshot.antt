-- ===== src/Settings/Snapshot.antt =====
-- Settings as a JSON object in the session's lock (`snapshot`, `from_snapshot`). How Python's json
-- writes and reads a float is not part of the program: a parameter, by which a float survives.
use transparent_tor_proxy.Base.{
  ℕ, ◌≡◌, refl, ap, Bool, ◌&&◌, String, Option, none, some, List, [], ◌∷◌, all_of, contains,
  if◌then◌else◌, string_discrete,
}
use transparent_tor_proxy.Base.Json.{
  Value, null, bool, int, float, obj, Fields, end, field, get_field,
}
use transparent_tor_proxy.Evidence.{Instant}
use transparent_tor_proxy.Settings.{
  Setting, flag, whole, real, other, Settings, WatchdogSettings, NotificationSettings,
  watchdog_items, verification_items, notification_items, validate,
}

pub record Floats : Type 0 where
  pub print : Instant → String
  pub parse : String → Instant
  pub parse-print : (t : Instant) → parse (print t) ≡ t

module _ (floats : Floats) where
  abbrev pub to_value : Setting → Value
  to_value (flag b) = bool b
  to_value (whole n) = int n
  to_value (real t) = float (floats.print t)
  to_value other = null

  abbrev pub of_value : Value → Setting
  of_value (bool b) = flag b
  of_value (int n) = whole n
  of_value (float s) = real (floats.parse s)
  of_value _ = other

  abbrev section : List (String × Setting) → Fields
  section [] = end
  section ((k, v) ∷ items) = field k (to_value v) (section items)

  unfoldable pub snapshot : Settings → Value
  snapshot s = obj (
      field "watchdog" (obj (section (watchdog_items s.watchdog))) (
        field "verification" (obj (section (verification_items s.verification)))
          (field "notifications" (obj (section (notification_items s.notifications))) end)))

  abbrev keys : Fields → List String
  keys end = []
  keys (field k _ fs) = k ∷ keys fs

  -- `set(raw) == names`
  abbrev has_keys : List String → Fields → Bool
  has_keys names fs =
      all_of (λ k. contains k names) (keys fs) && all_of (λ k. contains k (keys fs)) names

  -- The object under a key, with exactly the names as its keys.
  abbrev section_of : List String → Option Value → Option Fields
  section_of names (some (obj fs)) = if has_keys names fs then some fs else none
  section_of names _ = none

  -- The value under a key that is known to be there.
  abbrev value_of : String → Fields → Setting
  value_of k fs = elim (get_field k fs) [ none ↦ other | some v ↦ of_value v ]

  abbrev watchdog_names : List String
  watchdog_names =
      "enabled" ∷ "readiness_timeout" ∷ "heartbeat_interval" ∷ "service_timeout" ∷ "check_interval"
      ∷ "check_timeout" ∷ "observation_max_age" ∷ []

  abbrev notification_names : List String
  notification_names =
      "enabled" ∷ "readiness_timeout" ∷ "call_timeout" ∷ "delivery_timeout" ∷ "attempts" ∷ []

  -- `kind(**values)`
  abbrev watchdog_of : Fields → WatchdogSettings
  watchdog_of fs = record {
    enabled = value_of "enabled" fs;
    readiness_timeout = value_of "readiness_timeout" fs;
    heartbeat_interval = value_of "heartbeat_interval" fs;
    service_timeout = value_of "service_timeout" fs;
    check_interval = value_of "check_interval" fs;
    check_timeout = value_of "check_timeout" fs;
    observation_max_age = value_of "observation_max_age" fs;
  }

  abbrev notifications_of : Fields → NotificationSettings
  notifications_of fs = record {
    enabled = value_of "enabled" fs;
    readiness_timeout = value_of "readiness_timeout" fs;
    call_timeout = value_of "call_timeout" fs;
    delivery_timeout = value_of "delivery_timeout" fs;
    attempts = value_of "attempts" fs;
  }

  abbrev settings_of : Option Fields → Option Fields → Option Fields → Option Settings
  settings_of (some w) (some v) (some n) = some (record {
    watchdog = watchdog_of w;
    verification = record { timeout = value_of "timeout" v };
    notifications = notifications_of n;
  })
  settings_of _ _ _ = none

  abbrev sections : Value → Option Settings
  sections (obj raw) =
      if has_keys ("watchdog" ∷ "verification" ∷ "notifications" ∷ []) raw
      then settings_of (section_of watchdog_names (get_field "watchdog" raw))
          (section_of ("timeout" ∷ []) (get_field "verification" raw))
          (section_of notification_names (get_field "notifications" raw))
      else none
  sections _ = none

  -- `none` stands for the `SettingsError`.
  unfoldable pub from_snapshot : ℕ → Value → Option Settings
  from_snapshot second v = elim (sections v) [ none ↦ none | some s ↦ validate second s ]

  of_value-to_value : (v : Setting) → of_value (to_value v) ≡ v
  of_value-to_value (flag b) = refl
  of_value-to_value (whole n) = refl
  of_value-to_value (real t) = ap real (floats.parse-print t)
  of_value-to_value other = refl

  -- Whatever the settings hold, reading back their snapshot comes to validating them: no field is
  -- lost, renamed or replaced by a default.
  pub from_snapshot-snapshot :
      (second : ℕ) (s : Settings) → from_snapshot second (snapshot s) ≡ validate second s
  unfolding from_snapshot snapshot get_field string_discrete
  from_snapshot-snapshot second s = simp of_value-to_value
