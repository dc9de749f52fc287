-- ===== src/Session/Tests.antt =====
-- Sessions on which the theorems about ttp/session_safety.py are tried.
use transparent_tor_proxy.Base.{List, [], ◌∷◌}
use transparent_tor_proxy.Session.Machine.{
  Operation, requests, stops, perform, perform_all, Run, IsKept, promise_of, perform_all-Run,
}
use transparent_tor_proxy.Session.Samples.{lost, running, active_world, answers, no_repair}
use transparent_tor_proxy.Base.{◌≡◌, refl, true, false, String, some, string_discrete}
use transparent_tor_proxy.Base.{◌+◌, ◌*◌, ◌≤◌}
use transparent_tor_proxy.Settings.{defaults, ticks}
use transparent_tor_proxy.Watchdog.Unit.{stop_timeout}
use transparent_tor_proxy.Session.Request.Deadline.{timed_steps, request_emergency-stop_timeout}
use transparent_tor_proxy.Evidence.{emergency_verified, exit_code, add}
use transparent_tor_proxy.Firewall.Inspect.{diagnostic}
use transparent_tor_proxy.Session.World.{
  no_lock, locked, stopping, World, no_record, identity, stop_was_requested, mark_stopping,
}
use transparent_tor_proxy.Session.Request.{
  Options, Answers, request_emergency, containment, read_previous, act, entry, report,
}
use transparent_tor_proxy.Session.Request.Quiet.{IsQuiet}
use transparent_tor_proxy.Session.Request.Verified.{IsVerified, request_emergency-IsVerified}
use transparent_tor_proxy.Session.Stop.{mark_stopping_final}

verified_at_end :
    exit_code (request_emergency no_repair answers running lost active_world).result
    ≡ emergency_verified
unfolding request_emergency act entry read_previous containment exit_code string_discrete
    stop_was_requested report add diagnostic
verified_at_end = refl

request_emergency-IsVerified_example :
    (session : String) × (identity running.session_id ≡ some session)
    × IsVerified no_repair answers lost session active_world
        (request_emergency no_repair answers running lost active_world).world
request_emergency-IsVerified_example =
    request_emergency-IsVerified no_repair answers running lost active_world verified_at_end

abbrev stopped_world : World
stopped_world = record {
  lock_file = locked (record running { phase = "stopping" });
  marker = stopping "s";
  emergency = no_record;
}

marked : mark_stopping running active_world ≡ some stopped_world
unfolding mark_stopping string_discrete
marked = refl

named : identity running.session_id ≡ some "s"
named = refl

mark_stopping_final_example :
    let x : World = record stopped_world { lock_file = no_lock } in
    IsQuiet x (request_emergency no_repair answers running lost x)
mark_stopping_final_example =
    mark_stopping_final running running "s" active_world stopped_world no_lock no_repair answers
      lost named named marked

-- The three runs of nft of a call that repairs a bad state.
abbrev repair : Options
repair = record { repair = true; require_despite_missing_lock = false }

abbrev bad_first : Answers
bad_first = record answers {
  first_check = record { verified = false; reason = "firewall.missing"; message = "" };
}

request_emergency-stop_timeout_example :
    let runs = timed_steps (request_emergency repair bad_first running lost active_world).actions in
    ((1 + runs) * ticks 10 defaults.watchdog.check_timeout + 2 * 10 ≤ stop_timeout 10 defaults)
    × ((1 + runs) * (10 * 10) + 2 * 10 ≤ stop_timeout 10 defaults)
request_emergency-stop_timeout_example =
    request_emergency-stop_timeout repair bad_first running lost active_world 10 defaults

three_runs : timed_steps (request_emergency repair bad_first running lost active_world).actions ≡ 3
unfolding request_emergency act entry read_previous containment exit_code string_discrete
    stop_was_requested report add diagnostic
three_runs = refl

-- A request, a stop, and a late request.
abbrev operations : List Operation
operations = requests no_repair answers lost ∷ stops ∷ requests no_repair answers lost ∷ []

perform_all-Run_example :
    Run (promise_of "s" active_world) (promise_of "s" (perform_all running operations active_world))
    × IsKept
        (promise_of "s" active_world)
        (promise_of "s" (perform_all running operations active_world))
perform_all-Run_example = perform_all-Run running "s" refl operations active_world

latched_and_closed :
    promise_of "s" (perform_all running operations active_world)
    ≡ record { latched = true; closed = true }
unfolding perform_all perform request_emergency act entry read_previous containment exit_code
    string_discrete stop_was_requested report add diagnostic mark_stopping
latched_and_closed = refl
