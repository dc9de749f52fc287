-- ===== src/Lifecycle/Final.antt =====
-- ttp/commands/lifecycle.py and stop_restart.py: what requests for containment do after a stop.
use transparent_tor_proxy.Base.{◌≡◌, ℕ, true, String, some, is_some}
use transparent_tor_proxy.Evidence.{Diagnostic}
use transparent_tor_proxy.Firewall.Runner.{succeeds}
use transparent_tor_proxy.Session.World.{Lock, locked, identity}
use transparent_tor_proxy.Session.Request.{Options, Answers, request_emergency}
use transparent_tor_proxy.Session.Request.Quiet.{
  IsQuiet, request_emergency-IsQuiet, stopping_lem, stopping-all,
}
use transparent_tor_proxy.Lifecycle.{Machine, ok, exits, Keys, Outside, do_stop}
use transparent_tor_proxy.Lifecycle.Commands.{stop_command}
use transparent_tor_proxy.Lifecycle.Rules.{Const, at_end, at_exit}
use transparent_tor_proxy.Lifecycle.Stopped.{IsStopped, IsCutShort, do_stop-Ends}
use transparent_tor_proxy.Lifecycle.Restored.{IsRestored, IsUntouched, Never, restore_only-Ends}

-- Once `do_stop` has returned for the session that the lock names, a request for its containment, from
-- any component that remembers the lock and with any options, changes nothing and does no more than
-- notify.
pub do_stop_final :
    (keys : Keys) (a : Outside) (lock late : Lock) (session : String) (s : Machine) (o : Options)
    (b : Answers) (cause : Diagnostic)
    → s.world.lock_file ≡ locked lock
    → identity lock.session_id ≡ some session
    → identity late.session_id ≡ some session
    → (do_stop keys a s).1 ≡ ok tt
    → let w = (do_stop keys a s).0.world in IsQuiet w (request_emergency o b late cause w)
do_stop_final keys a lock late session s o b cause file named late_named returns =
    let ends = do_stop-Ends keys a lock session s file named in
    let stopped =
      at_end (Const (IsStopped a session)) (IsStopped a session) (IsCutShort a (is_some s.rules))
        (do_stop keys a s) ends returns in
    request_emergency-IsQuiet o b late cause session (do_stop keys a s).0.world
      (rw stopped.2 (stopping_lem session)) late_named

-- Once `ttp stop --restore-only` has left with an exit code, the same holds of every session, whatever
-- the lock file held. nft can list a table that is there.
pub restore_only_final :
    (keys : Keys) (a : Outside) (late : Lock) (session : String) (n : ℕ) (s : Machine) (o : Options)
    (b : Answers) (cause : Diagnostic)
    → identity late.session_id ≡ some session
    → a.destroys.list ≡ succeeds
    → (stop_command keys a true s).1 ≡ exits n
    → let w = (stop_command keys a true s).0.world in IsQuiet w (request_emergency o b late cause w)
restore_only_final keys a late session n s o b cause late_named lists leaves =
    let restored =
      at_exit Never IsRestored (IsUntouched s) (stop_command keys a true s) n
        (restore_only-Ends keys a s lists) leaves in
    request_emergency-IsQuiet o b late cause session (stop_command keys a true s).0.world
      (rw restored.2 (stopping-all session)) late_named
