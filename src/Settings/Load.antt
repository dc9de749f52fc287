-- ===== src/Settings/Load.antt =====
-- `load_settings` and `LoadedSettings.select`: the administrator's file over the defaults, with the
-- origin of each value. `configparser`, `int` and `float` are not part of the program.
use transparent_tor_proxy.Base.{
  ℕ, Bool, true, false, String, ◌<>◌, Option, none, some, List, [], ◌∷◌, ◌++◌, str_eq, contains,
  if◌then◌else◌, map,
}
use transparent_tor_proxy.Base.Dict.{insert}
use transparent_tor_proxy.Base.Int.{ℤ}
use transparent_tor_proxy.Evidence.{Instant}
use transparent_tor_proxy.Settings.{
  Setting, flag, whole, real, Settings, WatchdogSettings, VerificationSettings,
  NotificationSettings, defaults, watchdog_items, verification_items, notification_items, validate,
  select,
}

-- `int(text)` and `float(text)`; `none` stands for the `ValueError`.
pub record Numerals : Type 0 where
  pub int_of : String → Option ℤ
  pub float_of : String → Option Instant

-- `_read_file` and the parser: no file, an error, or the sections; `inherits` is whether there are
-- values under [DEFAULT].
pub data ConfigFile : Type 0 where
  absent unusable : ConfigFile
  parsed : (inherits : Bool) → List (String × List (String × String)) → ConfigFile

pub record LoadedSettings : Type 0 where
  pub settings : Settings
  pub origins : List (String × String)

infixl 5 ◌>>=◌
abbrev pub ◌>>=◌ {ℓ κ} : {A : Type ℓ} {B : Type κ} → Option A → (A → Option B) → Option B
none >>= f = none
some a >>= f = f a

-- `kind(**values)` with one value replaced; `none` for a key that is no field.
abbrev set_watchdog : String → Setting → WatchdogSettings → Option WatchdogSettings
set_watchdog k v w =
    if str_eq k "enabled"
    then some (record w { enabled = v })
    else if str_eq k "readiness_timeout"
    then some (record w { readiness_timeout = v })
    else if str_eq k "heartbeat_interval"
    then some (record w { heartbeat_interval = v })
    else if str_eq k "service_timeout"
    then some (record w { service_timeout = v })
    else if str_eq k "check_interval"
    then some (record w { check_interval = v })
    else if str_eq k "check_timeout"
    then some (record w { check_timeout = v })
    else if str_eq k "observation_max_age"
    then some (record w { observation_max_age = v })
    else none

abbrev set_verification : String → Setting → VerificationSettings → Option VerificationSettings
set_verification k v s = if str_eq k "timeout" then some (record s { timeout = v }) else none

abbrev set_notification : String → Setting → NotificationSettings → Option NotificationSettings
set_notification k v n =
    if str_eq k "enabled"
    then some (record n { enabled = v })
    else if str_eq k "readiness_timeout"
    then some (record n { readiness_timeout = v })
    else if str_eq k "call_timeout"
    then some (record n { call_timeout = v })
    else if str_eq k "delivery_timeout"
    then some (record n { delivery_timeout = v })
    else if str_eq k "attempts"
    then some (record n { attempts = v })
    else none

-- A value of the file, in a section that is known.
abbrev set_in : String → String → Setting → Settings → Option Settings
set_in section key value s =
    if str_eq section "watchdog"
    then (do w ← set_watchdog key value s.watchdog; some (record s { watchdog = w }))
    else if str_eq section "verification"
    then (do v ← set_verification key value s.verification; some (record s { verification = v }))
    else if str_eq section "notifications"
    then (do n ← set_notification key value s.notifications; some (record s { notifications = n }))
    else none

module _ (second : ℕ) (numerals : Numerals) where
  -- The text of a value, by its key.
  abbrev read_value : String → String → Option Setting
  read_value key text =
      if str_eq key "enabled"
      then (if str_eq text "true"
          then some (flag true)
          else if str_eq text "false"
          then some (flag false)
          else none)
      else if str_eq key "attempts"
      then (do n ← numerals.int_of text; some (whole n))
      else do t ← numerals.float_of text; some (real t)

  -- The loop over a section's values.
  pub read_section :
      String → String → List (String × String) → LoadedSettings → Option LoadedSettings
  read_section path section [] l = some l
  read_section path section ((key, text) ∷ values) l = do
    value ← read_value key text
    s ← set_in section key value l.settings
    read_section path section values
        (record { settings = s; origins = insert (section <> ("." <> key)) path l.origins })

  abbrev known_sections : List String
  known_sections = "watchdog" ∷ "verification" ∷ "notifications" ∷ []

  -- The loop over the sections.
  pub read_sections :
      String → List (String × List (String × String)) → LoadedSettings → Option LoadedSettings
  read_sections path [] l = some l
  read_sections path ((section, values) ∷ sections) l =
      if contains section known_sections
      then read_section path section values l >>= read_sections path sections
      else none

  abbrev origin_of : String → List (String × Setting) → List (String × String)
  origin_of section = map (λ item. (section <> ("." <> item.0), "default"))

  abbrev pub default_settings : LoadedSettings
  default_settings = record {
    settings = defaults;
    origins =
        origin_of "watchdog" (watchdog_items defaults.watchdog)
        ++ (origin_of "verification" (verification_items defaults.verification)
            ++ origin_of "notifications" (notification_items defaults.notifications));
  }

  abbrev pub validated : LoadedSettings → Option LoadedSettings
  validated l = validate second l.settings >>= λ s. some (record l { settings = s })

  -- `none` stands for the `SettingsError`.
  unfoldable pub load_settings : String → ConfigFile → Option LoadedSettings
  unfolding read_sections read_section
  load_settings path absent = some default_settings
  load_settings path unusable = none
  load_settings path (parsed inherits sections) =
      if inherits then none else read_sections path sections default_settings >>= validated

  abbrev chosen_origin : String → Option Bool → List (String × String) → List (String × String)
  chosen_origin name none origins = origins
  chosen_origin name (some _) origins = insert name "command line" origins

  -- `LoadedSettings.select`
  unfoldable pub select_loaded : Option Bool → Option Bool → LoadedSettings → Option LoadedSettings
  select_loaded watchdog notifications l = select second watchdog notifications l.settings >>= λ s.
      some (record {
        settings = s;
        origins =
            chosen_origin "notifications.enabled" notifications
              (chosen_origin "watchdog.enabled" watchdog l.origins);
      })
