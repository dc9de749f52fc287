-- ===== src/Session/Terminate.antt =====
-- `supervision_terminated` of ttp/session_safety.py, the handler of systemd's ExecStopPost, and
-- `trigger_emergency_killswitch` of ttp/watchdog/alerts.py.
use transparent_tor_proxy.Base.{
  Bool, true, false, not, ◌&&◌, ◌||◌, String, Option, none, some, [], ◌∷◌, str_eq, if◌then◌else◌,
}
use transparent_tor_proxy.Evidence.{error, watchdog_unavailable, Diagnostic, no_result}
use transparent_tor_proxy.Session.World.{
  no_settings, Lock, LockFile, no_lock, broken_lock, locked, World, same_id,
}
use transparent_tor_proxy.Session.Request.{Answers, Outcome, failure, request_emergency}

abbrev pub nothing_done : World → Outcome
nothing_done w = record { result = no_result; world = w; actions = [] }

unfoldable pub terminated : Diagnostic
terminated = record {
  code = watchdog_unavailable;
  reason = "watchdog.terminated";
  component = "watchdog";
  operation = "terminate";
  message = "Required supervisor terminated; containment requested";
  active = true;
}

intent_unreadable : Diagnostic
intent_unreadable =
    failure "session.intent_unreadable" "Cannot read supervision intent in termination handler"

-- The lock that is made up for a session whose own is gone.
abbrev pub made_up : String → Lock
made_up session = record {
  session_id = some session;
  phase = "";
  watchdog_requested = true;
  settings = no_settings;
}

-- The lock to act for: nothing to do, or a lock.
abbrev expected_lock : Option String → LockFile → Option Lock
expected_lock none (locked l) = some l
expected_lock none _ = none
expected_lock (some session) (locked l) =
    if same_id l.session_id (some session) then some l else none
expected_lock (some session) _ = some (made_up session)

abbrev is_some_string : Option String → Bool
is_some_string none = false
is_some_string (some _) = true

abbrev is_broken : LockFile → Bool
is_broken broken_lock = true
is_broken _ = false

terminate_lock : Option String → Answers → Option Lock → World → Outcome
terminate_lock expected a none w = nothing_done w
terminate_lock expected a (some l) w =
    if not l.watchdog_requested || str_eq l.phase "stopping"
    then nothing_done w
    else request_emergency
        (record { repair = true; require_despite_missing_lock = is_some_string expected }) a l
        terminated w

unfoldable pub supervision_terminated : Option String → Answers → World → Outcome
unfolding terminate_lock intent_unreadable
supervision_terminated expected a w =
    if is_broken w.lock_file && not (is_some_string expected)
    then record {
      result = record { diagnostics = intent_unreadable ∷ [] };
      world = w;
      actions = [];
    }
    else terminate_lock expected a (expected_lock expected w.lock_file) w

integrity_failed : String → Diagnostic
integrity_failed component = record {
  code = if str_eq component "watchdog" then watchdog_unavailable else error;
  reason = "watchdog.integrity_failed";
  component = component;
  operation = "supervise";
  message = "Required session integrity failed";
  active = true;
}

-- `component` is the sanitized name; `none` stands for the `StateError` of an unreadable lock.
unfoldable pub trigger_emergency_killswitch : Answers → String → World → Option Outcome
unfolding integrity_failed
trigger_emergency_killswitch a component w = elim w.lock_file [
  | no_lock ↦ some (nothing_done w)
  | broken_lock ↦ none
  | locked l ↦ some (
      request_emergency (record { repair = false; require_despite_missing_lock = false }) a l
        (integrity_failed component) w)
]
