-- ===== src/Settings/Timing.antt =====
-- What settings that pass validation guarantee of the times.
use transparent_tor_proxy.Base.{
  ℕ, ◌+◌, ◌*◌, ◌≤◌, ◌<◌, ◌≡◌, refl, ◌⊎◌, inl, inr, Bool, true, false, Option, none, some, arith,
  string_discrete, ◌&&◌, if◌then◌else◌,
}
use transparent_tor_proxy.Base.Int.{pos, negsuc}
use transparent_tor_proxy.Evidence.{finite, not_finite}
use transparent_tor_proxy.Settings.{
  Setting, flag, whole, real, other, Settings, ticks, is_duration, items_fit, timings_fit, validate,
  select, is_flag, is_count,
}

both-some {ℓ} :
    {A : Type ℓ} (a b : Bool) (s t : A)
    → (if a && b then some s else none) ≡ some t
    → (t ≡ s) × (a ≡ true) × (b ≡ true)
both-some false b s t h = cc
both-some true false s t h = cc
both-some true true s t h = (cc, refl, refl)

module _ (second : ℕ) where
  abbrev pub IsDuration : Setting → Type 0
  IsDuration v = (0 < ticks second v) × (ticks second v ≤ 3600 * second)

  -- The watchdog's and the notifications' times fit each other, in ticks.
  pub record IsTimed (s : Settings) : Type 0 where
    pub readiness : IsDuration s.watchdog.readiness_timeout
    pub heartbeat : IsDuration s.watchdog.heartbeat_interval
    pub service : IsDuration s.watchdog.service_timeout
    pub interval : IsDuration s.watchdog.check_interval
    pub check : IsDuration s.watchdog.check_timeout
    pub max_age : IsDuration s.watchdog.observation_max_age
    pub verification : IsDuration s.verification.timeout
    pub agent_readiness : IsDuration s.notifications.readiness_timeout
    pub call : IsDuration s.notifications.call_timeout
    pub delivery : IsDuration s.notifications.delivery_timeout
    pub attempts : (n : ℕ) × (s.notifications.attempts ≡ whole (pos n)) × (1 ≤ n) × (n ≤ 10)
    -- Both switches are Booleans.
    pub watchdog_set : (s.watchdog.enabled ≡ flag false) ⊎ (s.watchdog.enabled ≡ flag true)
    pub notifications_set :
        (s.notifications.enabled ≡ flag false) ⊎ (s.notifications.enabled ≡ flag true)
    -- A check and the heartbeat after it fit twice into the service's timeout.
    pub reports_twice :
        2 * (ticks second s.watchdog.check_timeout + ticks second s.watchdog.heartbeat_interval)
        ≤ ticks second s.watchdog.service_timeout
    pub ready_in_time :
        ticks second s.watchdog.check_timeout + ticks second s.watchdog.heartbeat_interval
        ≤ ticks second s.watchdog.readiness_timeout
    pub stays_fresh :
        ticks second s.watchdog.check_interval + ticks second s.watchdog.check_timeout
        ≤ ticks second s.watchdog.observation_max_age
    -- One call fits into a delivery.
    pub call_fits :
        ticks second s.notifications.call_timeout ≤ ticks second s.notifications.delivery_timeout
    -- A delivery leaves the watchdog time for its next report.
    pub delivers_in_time :
        (s.notifications.enabled ≡ flag false)
        ⊎ (s.notifications.enabled ≡ flag true)
          × (ticks second s.notifications.delivery_timeout
                + ticks second s.watchdog.heartbeat_interval
              < ticks second s.watchdog.service_timeout)

  is_duration-IsDuration : 0 < second → (v : Setting) → is_duration second v ≡ true → IsDuration v
  unfolding is_duration ticks
  is_duration-IsDuration h (whole (pos n)) e = (grind arith, grind arith)
  is_duration-IsDuration h (whole (negsuc n)) e = cc
  is_duration-IsDuration h (real (finite (pos t))) e = ground arith
  is_duration-IsDuration h (real (finite (negsuc t))) e = cc
  is_duration-IsDuration h (real not_finite) e = cc
  is_duration-IsDuration h (flag b) e = cc
  is_duration-IsDuration h other e = cc

  -- What the loop has tested, field by field.
  items_fit-fields :
      (s : Settings)
      → items_fit second s ≡ true
      → (is_duration second s.watchdog.readiness_timeout ≡ true)
        × (is_duration second s.watchdog.heartbeat_interval ≡ true)
        × (is_duration second s.watchdog.service_timeout ≡ true)
        × (is_duration second s.watchdog.check_interval ≡ true)
        × (is_duration second s.watchdog.check_timeout ≡ true)
        × (is_duration second s.watchdog.observation_max_age ≡ true)
        × (is_duration second s.verification.timeout ≡ true)
        × (is_duration second s.notifications.readiness_timeout ≡ true)
        × (is_duration second s.notifications.call_timeout ≡ true)
        × (is_duration second s.notifications.delivery_timeout ≡ true)
        × (is_count s.notifications.attempts ≡ true)
        × (is_flag s.notifications.enabled ≡ true)
        × (is_flag s.watchdog.enabled ≡ true)
  unfolding items_fit string_discrete
  items_fit-fields s h = ground arith

  is_count-whole :
      (v : Setting) → is_count v ≡ true → (n : ℕ) × (v ≡ whole (pos n)) × (1 ≤ n) × (n ≤ 10)
  is_count-whole (whole (pos n)) e = (n, refl, ground arith, ground arith)
  is_count-whole (whole (negsuc n)) e = cc
  is_count-whole (flag b) e = cc
  is_count-whole (real t) e = cc
  is_count-whole other e = cc

  is_flag-cases : (v : Setting) → is_flag v ≡ true → (v ≡ flag false) ⊎ (v ≡ flag true)
  is_flag-cases v e = ground arith

  fit-IsTimed :
      (s : Settings)
      → 0 < second
      → items_fit second s ≡ true
      → timings_fit second s ≡ true
      → IsTimed s
  unfolding timings_fit
  fit-IsTimed s h items timings =
      let (
        readiness, heartbeat, service, interval, check, max_age, verification, agent_readiness,
        call, delivery, attempts, set, supervised,
      ) =
        items_fit-fields s items in
      record {
        readiness = is_duration-IsDuration h _ readiness;
        heartbeat = is_duration-IsDuration h _ heartbeat;
        service = is_duration-IsDuration h _ service;
        interval = is_duration-IsDuration h _ interval;
        check = is_duration-IsDuration h _ check;
        max_age = is_duration-IsDuration h _ max_age;
        verification = is_duration-IsDuration h _ verification;
        agent_readiness = is_duration-IsDuration h _ agent_readiness;
        call = is_duration-IsDuration h _ call;
        delivery = is_duration-IsDuration h _ delivery;
        attempts = is_count-whole _ attempts;
        watchdog_set = is_flag-cases _ supervised;
        notifications_set = is_flag-cases _ set;
        reports_twice = ground arith;
        ready_in_time = ground arith;
        stays_fresh = ground arith;
        call_fits = ground arith;
        delivers_in_time = elim (is_flag-cases _ set) [
          | inl off ↦ inl off
          | inr on ↦ inr (on, ground arith)
        ];
      }

  -- Settings that pass validation are given back unchanged. Each of their ten times is above 0 and at
  -- most an hour, the number of attempts is a whole number from 1 to 10, and both switches are Booleans.
  -- A check and the heartbeat fit twice into the service's timeout and once into the readiness timeout,
  -- a check and its interval fit into the age of an observation, a call fits into a delivery, and, where
  -- notifications are on, a delivery and the heartbeat end before the service's timeout.
  pub validate-IsTimed :
      (s t : Settings) → 0 < second → validate second s ≡ some t → (t ≡ s) × IsTimed t
  unfolding validate
  validate-IsTimed s t h e =
      let (kept, items, timings) = both-some (items_fit second s) (timings_fit second s) s t e in
      (kept, rw kept (fit-IsTimed s h items timings))

  -- A choice on the command line changes the two flags and nothing else, and what it gives is timed.
  pub select-IsTimed :
      (watchdog notifications : Option Bool) (s t : Settings)
      → 0 < second
      → select second watchdog notifications s ≡ some t
      → IsTimed t
        × (record (t.watchdog) { enabled = s.watchdog.enabled } ≡ s.watchdog)
        × (t.verification ≡ s.verification)
        × (record (t.notifications) { enabled = s.notifications.enabled } ≡ s.notifications)
  unfolding select
  select-IsTimed watchdog notifications s t h e =
      let (kept, timed) = validate-IsTimed _ t h e in
      (timed, rw kept refl, rw kept refl, rw kept refl)
