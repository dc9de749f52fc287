-- ===== src/Start/Report/Tests.antt =====
-- A report on which the theorem about ttp/session_report.py is tried.
use transparent_tor_proxy.Base.{◌≡◌, refl, true, some, [], string_discrete}
use transparent_tor_proxy.Base.Json.{str, field, end, get_field}
use transparent_tor_proxy.Evidence.{ok, exit_code, max_default}
use transparent_tor_proxy.Session.World.{emergency_latched}
use transparent_tor_proxy.Session.Samples.{running, active_world, good_check}
use transparent_tor_proxy.Start.Report.{Sighting, observe_session}
use transparent_tor_proxy.Start.Report.Sound.{IsSound, observe_session-IsSound}

abbrev seen : Sighting
seen = record {
  readable = true;
  check = good_check;
  watchdog = field "value" (str "healthy") end;
  text_of = λ v. "";
  notifications = true;
  answers = true;
}

nothing_amiss : observe_session running active_world seen ≡ some []
unfolding observe_session emergency_latched get_field string_discrete
nothing_amiss = refl

no_diagnostics : exit_code (record { diagnostics = [] }) ≡ ok
unfolding exit_code max_default
no_diagnostics = refl

observe_session-IsSound_example : IsSound running active_world seen
observe_session-IsSound_example =
    observe_session-IsSound running active_world seen [] nothing_amiss no_diagnostics
