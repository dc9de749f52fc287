-- ===== src/Session/Request/Urgent.antt =====
-- ttp/session_safety.py: the exit code of a request for containment and that of its cause.
use transparent_tor_proxy.Base.{
  ◌≤◌, ◌≡◌, ◌≢◌, ◌++◌, refl, inl, inr, Bool, true, String, some, [], ◌∷◌, arith,
}
use transparent_tor_proxy.Evidence.{priority, Diagnostic, Result, exit_code, add}
use transparent_tor_proxy.Evidence.Select.{Reports, Reports-append, exit_code_bound}
use transparent_tor_proxy.Session.World.{
  SettingsRead, no_settings, invalid_settings, valid_settings, Lock, World, identity,
}
use transparent_tor_proxy.Session.Request.{
  Options, Answers, Outcome, stale, entry, act, report, begin, request_emergency, before_transition,
  transition_failed,
}
use transparent_tor_proxy.Session.Request.Verified.{report-priority, Entry-cases}

before_transition-Reports :
    (s : SettingsRead) (cause : Diagnostic)
    → cause.active ≡ true
    → Reports cause.code (before_transition s cause).diagnostics
unfolding add before_transition
before_transition-Reports no_settings cause h = inl (h, refl)
before_transition-Reports invalid_settings cause h = inl (h, refl)
before_transition-Reports valid_settings cause h = inl (h, refl)

act-Reports :
    (o : Options) (a : Answers) (cause : Diagnostic) (before : Result) (w : World)
    → Reports cause.code before.diagnostics
    → Reports cause.code (act o a cause before w).result.diagnostics
unfolding act add
act-Reports o a cause before w h =
    Reports-append _ (before.diagnostics ++ _) _ (Reports-append _ before.diagnostics _ h)

fail-Reports :
    (cause : Diagnostic) (before : Result)
    → Reports cause.code before.diagnostics
    → Reports cause.code (add before (transition_failed ∷ [])).diagnostics
unfolding add
fail-Reports cause before h = Reports-append _ before.diagnostics _ h

report-urgent :
    (a : Answers) (lock : Lock) (cause : Diagnostic) (fresh : Bool) (out : Outcome)
    → Reports cause.code out.result.diagnostics
    → priority cause.code ≤ priority (exit_code (report a lock cause fresh out).result)
report-urgent a lock cause fresh out h =
    omega
      (arith, (exit_code_bound out.result).0 cause.code h, report-priority a lock cause fresh out)

begin-urgent :
    (o : Options) (a : Answers) (lock : Lock) (cause : Diagnostic) (session : String) (w : World)
    → cause.active ≡ true
    → entry o a session w ≢ stale
    → priority cause.code ≤ priority (exit_code (begin o a lock cause session w).result)
unfolding begin
begin-urgent o a lock cause session w active h = elim (Entry-cases (entry o a session w)) [
  | inl e ↦
      rw (e, begin)
        (report-urgent a lock cause _ _
          (act-Reports o a cause _ w (before_transition-Reports lock.settings cause active)))
  | inr (inl e) ↦
      rw (e, begin)
        (report-urgent a lock cause _ _
          (fail-Reports cause _ (before_transition-Reports lock.settings cause active)))
  | inr (inr e) ↦ absurd (h e)
]

-- A request for containment of a named session that is not stale is at least as urgent as its cause.
pub request_emergency-urgent :
    (o : Options) (a : Answers) (lock : Lock) (cause : Diagnostic) (session : String) (w : World)
    → identity lock.session_id ≡ some session
    → cause.active ≡ true
    → entry o a session w ≢ stale
    → priority cause.code ≤ priority (exit_code (request_emergency o a lock cause w).result)
unfolding request_emergency
request_emergency-urgent o a lock cause session w named active h =
    rw (named, request_emergency) (begin-urgent o a lock cause session w active h)
