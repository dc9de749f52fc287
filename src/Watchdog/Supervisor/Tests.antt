-- ===== src/Watchdog/Supervisor/Tests.antt =====
-- Rounds on which the theorems about ttp/watchdog/supervisor.py are tried.
use transparent_tor_proxy.Base.{◌≡◌, refl, true, false, none, some, [], ◌∷◌, string_discrete}
use transparent_tor_proxy.Session.World.{World, recorded, emergency_latched}
use transparent_tor_proxy.Session.Request.Latch.{IsLatched}
use transparent_tor_proxy.Session.Samples.{running, active_world, answers}
use transparent_tor_proxy.Watchdog.Integrity.{
  check_system_integrity, dns_fits, table_fits, any_fired, new_since_last_check,
}
use transparent_tor_proxy.Watchdog.Samples.{host, readings}
use transparent_tor_proxy.Watchdog.Supervisor.{
  unknown, healthy, State, saw, quiet, Healing, Round, checked, published, notified, Observation,
  round, guard_session, write_record, read_intent, read_latch, evaluate, bounded_check, conclude,
  publish, notify, wait, pure, read, log, observe, put_baseline, set_due, set_ready,
}
use transparent_tor_proxy.Watchdog.Supervisor.Run.{goes_on, here, step}
use transparent_tor_proxy.Watchdog.Supervisor.Checked.{IsSupported, Reaches-IsSupported}
use transparent_tor_proxy.Watchdog.Supervisor.Latched.{IsUnclaimed, Reaches-IsLatched}
use transparent_tor_proxy.Base.Dict.{lookup, insert}

abbrev good_round : Round
good_round = record {
  elapsed = true;
  written = λ n. true;
  notifies = λ n. true;
  request = λ n. answers;
  check = λ n. saw host;
  heal = Healing.deadline;
  emits = true;
  waited = quiet;
}

abbrev first : State
first = record {
  world = active_world;
  baseline = readings;
  observation = record { value = unknown; reason = ""; completed = false };
  ready = false;
  due = true;
  events = [];
}

abbrev verified_now : Observation
verified_now = record {
  value = healthy;
  reason = "watchdog.local_integrity_verified";
  completed = true;
}

-- A good round checks, publishes and notifies, in this order.
round_events :
    (round running good_round first).0.events
    ≡ notified true
      ∷ published verified_now
      ∷ published verified_now
      ∷ checked none
      ∷ published
          (record { value = unknown; reason = "watchdog.evaluation_pending"; completed = false })
      ∷ []
unfolding round guard_session write_record read_intent read_latch evaluate bounded_check conclude
    publish notify wait pure read log observe put_baseline set_due set_ready string_discrete
    emergency_latched check_system_integrity dns_fits table_fits any_fired new_since_last_check
    lookup insert
round_events = refl

Reaches-IsSupported_example : IsSupported (round running good_round first).0.events
Reaches-IsSupported_example =
    Reaches-IsSupported running first (round running good_round first).0 refl refl
      (step first first _ (here first) (goes_on good_round first))

abbrev latched_world : World
latched_world = record active_world {
  emergency = recorded (record {
    requested = true;
    applied = some true;
    causes = some [];
    verified = true;
    result = none;
  });
}

abbrev latched_first : State
latched_first = record first { world = latched_world }

Reaches-IsLatched_example :
    IsLatched (round running good_round latched_first).0.world
    × IsUnclaimed (round running good_round latched_first).0.events
Reaches-IsLatched_example =
    Reaches-IsLatched running "s" latched_first (round running good_round latched_first).0 refl
      (_, refl, refl) refl
      (step latched_first latched_first _ (here latched_first) (goes_on good_round latched_first))
