-- ===== src/Session/Request/Deadline.antt =====
-- The time that a call of `request_emergency` may take, and the time that systemd leaves for it.
use transparent_tor_proxy.Base.{
  ℕ, ◌+◌, ◌*◌, ◌≤◌, ◌≡◌, refl, ◌⊎◌, inl, inr, Bool, true, String, Option, List, [], ◌∷◌, ◌++◌,
  arith, Bool-cases, Option-cases,
}
use transparent_tor_proxy.Evidence.{Diagnostic, Result}
use transparent_tor_proxy.Session.World.{Lock, World, identity}
use transparent_tor_proxy.Session.Request.{
  Options, Answers, Action, write_latch, apply_killswitch, inspect, write_evidence, emit, Outcome,
  Entry, acts, fails, stale, entry, attempted, has_settings, report, act, begin, containment,
  request_emergency,
}
use transparent_tor_proxy.Settings.{Settings, ticks}
use transparent_tor_proxy.Watchdog.Unit.{stop_timeout}

-- The runs of nft that a call makes, each of which has the timeout: the others are writes, and
-- notifications that are not waited for.
abbrev pub timed_steps : List Action → ℕ
timed_steps [] = 0
timed_steps (apply_killswitch ∷ as') = 1 + timed_steps as'
timed_steps (inspect ∷ as') = 1 + timed_steps as'
timed_steps (_ ∷ as') = timed_steps as'

timed_steps-append :
    (xs ys : List Action) → timed_steps (xs ++ ys) ≡ timed_steps xs + timed_steps ys
timed_steps-append [] ys = omega arith
timed_steps-append (write_latch ∷ xs) ys = timed_steps-append xs ys
timed_steps-append (apply_killswitch ∷ xs) ys = omega (arith, timed_steps-append xs ys)
timed_steps-append (inspect ∷ xs) ys = omega (arith, timed_steps-append xs ys)
timed_steps-append (write_evidence ∷ xs) ys = timed_steps-append xs ys
timed_steps-append (emit e ∷ xs) ys = timed_steps-append xs ys

timed_steps-attempted :
    (emitted : String → Option (List Diagnostic)) (es : List String)
    → timed_steps (attempted emitted es) ≡ 0
timed_steps-attempted emitted [] = refl
timed_steps-attempted emitted (e ∷ es) = elim (Option-cases (emitted e)) [
  | inl g ↦ rw g refl
  | inr (ds, g) ↦ rw g (timed_steps-attempted emitted es)
]

timed_steps-report :
    (a : Answers) (lock : Lock) (cause : Diagnostic) (fresh : Bool) (out : Outcome)
    → timed_steps (report a lock cause fresh out).actions ≡ timed_steps out.actions
unfolding report
timed_steps-report a lock cause fresh out = elim (Bool-cases (has_settings lock.settings)) [
  | inl e ↦ rw e (
      omega (
        arith,
        timed_steps-append out.actions (attempted a.emitted _),
        timed_steps-attempted a.emitted _,
      ))
  | inr e ↦ rw e refl
]

timed_steps-act :
    (o : Options) (a : Answers) (cause : Diagnostic) (before : Result) (w : World)
    → timed_steps (act o a cause before w).actions ≤ 3
unfolding act containment
timed_steps-act o a cause before w = ground arith

Entry-cases : (e : Entry) → (e ≡ fails) ⊎ (e ≡ stale) ⊎ (e ≡ acts)
Entry-cases e = ground arith

timed_steps-begin :
    (o : Options) (a : Answers) (lock : Lock) (cause : Diagnostic) (session : String) (w : World)
    → timed_steps (begin o a lock cause session w).actions ≤ 3
unfolding begin
timed_steps-begin o a lock cause session w = elim (Entry-cases (entry o a session w)) [
  | inl e ↦ rw (e, begin) (omega (arith, timed_steps-report a lock cause true))
  | inr (inl e) ↦ rw (e, begin) (omega arith)
  | inr (inr e) ↦
      rw (e, begin) (omega (arith, timed_steps-report a lock cause, timed_steps-act o a cause))
]

timed_steps-request_emergency :
    (o : Options) (a : Answers) (lock : Lock) (cause : Diagnostic) (w : World)
    → timed_steps (request_emergency o a lock cause w).actions ≤ 3
unfolding request_emergency
timed_steps-request_emergency o a lock cause w = elim (Option-cases (identity lock.session_id)) [
  | inl e ↦ rw (e, request_emergency) (omega arith)
  | inr (session, e) ↦ rw (e, request_emergency) (timed_steps-begin o a lock cause session w)
]

mul-le : (n t : ℕ) → n ≤ 3 → (1 + n) * t ≤ 4 * t
mul-le n t h = grind arith

-- Whatever happens, the handler of a terminated watchdog has time to finish: the wait for the
-- transition lock and all the runs of nft of its call of `request_emergency`, each as long as its
-- timeout allows, leave 2 seconds of the unit's TimeoutStopSec, both with the timeout of the
-- session's settings and with the 10 seconds that stand in for unreadable ones.
pub request_emergency-stop_timeout :
    (o : Options) (a : Answers) (lock : Lock) (cause : Diagnostic) (w : World) (second : ℕ)
    (s : Settings)
    → let runs = timed_steps (request_emergency o a lock cause w).actions in
      ((1 + runs) * ticks second s.watchdog.check_timeout + 2 * second ≤ stop_timeout second s)
      × ((1 + runs) * (10 * second) + 2 * second ≤ stop_timeout second s)
unfolding stop_timeout
request_emergency-stop_timeout o a lock cause w second s =
    let few = timed_steps-request_emergency o a lock cause w in
    let own = mul-le _ (ticks second s.watchdog.check_timeout) few in
    let standard = mul-le _ (10 * second) few in (ground (arith, own), ground (arith, standard))
