-- ===== src/Lifecycle/Tests.antt =====
-- A session with its table on which the theorems about stopping are tried.
use transparent_tor_proxy.Lifecycle.Samples.{keys, outside, session}
use transparent_tor_proxy.Base.{
  ◌≡◌, ◌≢◌, refl, true, false, none, some, string_discrete, is_some, arith, List, [], ◌∷◌,
}
use transparent_tor_proxy.Evidence.{exit_code}
use transparent_tor_proxy.Firewall.Emergency.{emergency_ruleset}
use transparent_tor_proxy.Firewall.Runner.{destroy_rules}
use transparent_tor_proxy.Session.World.{
  locked, recorded, stop_was_requested, mark_stopping, emergency_latched,
}
use transparent_tor_proxy.Session.Machine.{Operation, requests, stops, perform, perform_all}
use transparent_tor_proxy.Session.Request.{entry, report, act, request_emergency}
use transparent_tor_proxy.Session.Request.Quiet.{IsQuiet}
use transparent_tor_proxy.Session.Samples.{running, active_world, answers, no_repair, lost}
use transparent_tor_proxy.Lifecycle.{
  Machine, ok, exits, do_stop, signal_handler, mark, tear_down, lock_down, slaughter, remove,
  destroy, unlink, finish,
}
use transparent_tor_proxy.Lifecycle.Commands.{
  stop_command, restore_only, mark_all, restore_all, before_restart,
}
use transparent_tor_proxy.Lifecycle.Rules.{Ends, Const}
use transparent_tor_proxy.Lifecycle.Stopped.{IsStopped, IsCutShort, do_stop-Ends}
use transparent_tor_proxy.Lifecycle.Restored.{IsRestored, IsUntouched, Never, restore_only-Ends}
use transparent_tor_proxy.Lifecycle.Final.{do_stop_final}
use transparent_tor_proxy.Lifecycle.Retained.{refusal, latched-kept}

do_stop_returns : (do_stop keys outside session).1 ≡ ok tt
unfolding do_stop mark mark_stopping tear_down lock_down slaughter remove destroy unlink finish
    destroy_rules emergency_ruleset exit_code string_discrete
do_stop_returns = refl

do_stop-Ends_example :
    Ends
      (Const (IsStopped outside "s"))
      (IsStopped outside "s")
      (IsCutShort outside (is_some session.rules))
      (do_stop keys outside session)
do_stop-Ends_example = do_stop-Ends keys outside running "s" session refl refl

do_stop_final_example :
    IsQuiet
      (do_stop keys outside session).0.world
      (request_emergency no_repair answers running lost (do_stop keys outside session).0.world)
do_stop_final_example =
    do_stop_final keys outside running running "s" session no_repair answers lost refl refl refl
      do_stop_returns

restored_exits : (stop_command keys outside true session).1 ≡ exits 0
unfolding stop_command restore_only mark_all restore_all destroy unlink destroy_rules
    emergency_ruleset exit_code
restored_exits = refl

restore_only-Ends_example :
    Ends Never IsRestored (IsUntouched session) (stop_command keys outside true session)
restore_only-Ends_example = restore_only-Ends keys outside session refl

abbrev latched_session : Machine
latched_session = record session {
  world = record active_world {
    emergency = recorded (record {
      requested = true;
      applied = none;
      causes = none;
      verified = false;
      result = none;
    });
  };
}

latched : emergency_latched running latched_session.world ≢ some false
unfolding emergency_latched
latched e = ground (arith, e)

-- Another request and a stop after the latch.
abbrev later : List Operation
later = requests no_repair answers lost ∷ (stops ∷ [])

abbrev later_session : Machine
later_session = record latched_session { world = perform_all running later latched_session.world }

later_lock : later_session.world.lock_file ≡ locked (record running { phase = "stopping" })
unfolding perform_all perform request_emergency mark_stopping string_discrete entry
    stop_was_requested report act
later_lock = refl

latched-kept_example :
    (signal_handler keys outside later_session ≡ (later_session, exits 8))
    × (before_restart keys outside true later_session ≡ (
      later_session,
      exits (
          refusal true
            (emergency_latched (record running { phase = "stopping" }) later_session.world)),
    ))
latched-kept_example =
    latched-kept keys outside running (record running { phase = "stopping" }) "s" later
      latched_session.world true later_session refl refl latched refl later_lock
