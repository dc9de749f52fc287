-- ===== src/Watchdog/Service/Tests.antt =====
-- A start on which the theorem about ttp/watchdog/service.py is tried.
use transparent_tor_proxy.Base.{◌≡◌, refl, true, false, none, some, [], ◌∷◌, string_discrete}
use transparent_tor_proxy.Base.Dict.{lookup, insert}
use transparent_tor_proxy.Base.Int.{pos, ◌-ℤ◌}
use transparent_tor_proxy.Base.Json.{int, str, float, obj, Fields, field, end, get_field, set_field}
use transparent_tor_proxy.Evidence.{finite, is_current}
use transparent_tor_proxy.Watchdog.Service.{
  present, Sight, Keys, Attempt, watchdog_observation, watchdog_liveness, judge_record,
  start_watchdog, ◌>>=◌,
}
use transparent_tor_proxy.Watchdog.Service.Supervised.{Supervised}
use transparent_tor_proxy.Watchdog.Service.Ready.{ready_keys, start_watchdog-Supervised}

abbrev observed : Fields
observed =
    field "value" (str "healthy")
      (field "instance_id" (str "i1") (field "observed_at" (float "98") end))

abbrev payload : Fields
payload =
    field "session_id" (str "s1") (
      field "boot_id" (str "b1")
        (field "written_at" (float "98") (field "data" (obj observed) end)))

abbrev sight : Sight
sight = record {
  lock =
      present
        (record { requested = true; session_id = some "s1"; max_age = some (finite (pos 30)) });
  shown = some (("ActiveState", "active") ∷ ("MainPID", "42") ∷ ("InvocationID", "i1") ∷ []);
  record_read = some (some payload);
  boot = some "b1";
  now = finite (pos 100);
  int_of = λ s. some (pos 42);
  text_of = λ v. "";
  seconds_of = λ n. finite n;
  value_of = λ t. finite (pos 98);
}

abbrev attempt : Attempt
attempt = record {
  valid = some true;
  prepares = true;
  requests = true;
  writes_unit = true;
  reloads = true;
  starts = true;
  sight = sight;
  latched = some false;
  records = true;
}

abbrev keys : Keys
keys = record { requested = false; active = false; pid = none }

returned : (start_watchdog attempt keys).1 ≡ true
unfolding start_watchdog watchdog_observation judge_record lookup insert get_field set_field
    is_current string_discrete ◌>>=◌ ◌-ℤ◌
returned = refl

live : watchdog_liveness sight ≡ some (true, some (int (pos 42)))
unfolding watchdog_liveness watchdog_observation judge_record lookup insert get_field set_field
    is_current string_discrete ◌>>=◌ ◌-ℤ◌
live = refl

start_watchdog-Supervised_example :
    (sup : Supervised sight (watchdog_observation sight)) × (attempt.starts ≡ true)
    × (attempt.latched ≡ some false)
    × (get_field "value" sup.fields ≡ some (str "healthy"))
    × ((start_watchdog attempt keys).0 ≡ ready_keys keys (some (int sup.pid)))
start_watchdog-Supervised_example = start_watchdog-Supervised attempt keys returned
