-- ===== src/Evidence.antt =====
-- ttp/evidence.py: exit codes and their priorities, diagnostics, and what a list of them projects to.
pub mod Select
pub mod Dicts
pub mod Age
mod Tests
use transparent_tor_proxy.Base.{
  ℕ, ◌<◌, ◌-◌, ◌&&◌, ◌||◌, not, Bool, true, false, String, Option, none, some, List, [], ◌∷◌, ◌++◌,
  map, keep, ltb, leb, str_eq, non_empty, if◌then◌else◌,
}
use transparent_tor_proxy.Base.Int.{ℤ, pos, ◌-ℤ◌, leb_ℤ, ltb_ℤ}

pub data ExitCode : Type 0 where
  ok error usage unverified dnssec_conflict watchdog_unavailable tor_negative emergency_verified
        containment_unconfirmed notification_failed :
      ExitCode

-- `int(code)`
abbrev pub to_int : ExitCode → ℕ
to_int ok = 0
to_int error = 1
to_int usage = 2
to_int unverified = 3
to_int dnssec_conflict = 4
to_int watchdog_unavailable = 5
to_int tor_negative = 6
to_int emergency_verified = 7
to_int containment_unconfirmed = 8
to_int notification_failed = 9

-- `_PRIORITY`
abbrev pub priority : ExitCode → ℕ
priority ok = 0
priority unverified = 10
priority notification_failed = 20
priority error = 25
priority watchdog_unavailable = 30
priority tor_negative = 40
priority emergency_verified = 50
priority containment_unconfirmed = 60
priority usage = 70
priority dnssec_conflict = 70

pub record Diagnostic : Type 0 where
  pub code : ExitCode
  pub reason : String
  pub component : String
  pub operation : String
  pub message : String
  pub active : Bool

-- `Result` holds its diagnostics in order.
pub record Result : Type 0 where
  pub diagnostics : List Diagnostic

abbrev pub no_result : Result
no_result = record { diagnostics = [] }

-- The codes that `exit_code` hands to `max`.
abbrev pub active_codes : List Diagnostic → List ExitCode
active_codes ds = map (λ d. d.code) (keep (λ d. d.active) ds)

-- Python's `max` with a key keeps the first of several greatest items.
unfoldable pub max_code : ExitCode → List ExitCode → ExitCode
max_code best [] = best
max_code best (c ∷ cs) = max_code (if ltb (priority best) (priority c) then c else best) cs

unfoldable pub max_default : List ExitCode → ExitCode
unfolding max_code
max_default [] = ok
max_default (c ∷ cs) = max_code c cs

unfoldable pub exit_code : Result → ExitCode
unfolding max_default
exit_code r = max_default (active_codes r.diagnostics)

unfoldable pub add : Result → List Diagnostic → Result
add r ds = record { diagnostics = r.diagnostics ++ ds }

pub data VerificationState : Type 0 where
  not_run confirmed negative inconclusive : VerificationState

abbrev pub state_value : VerificationState → String
state_value not_run = "not_run"
state_value confirmed = "confirmed"
state_value negative = "negative"
state_value inconclusive = "inconclusive"

-- A reading of a clock or a bound, in a unit as fine as the clock's; `not_finite` is inf or nan.
pub data Instant : Type 0 where
  finite : ℤ → Instant
  not_finite : Instant

pub record Observation : Type 0 where
  pub value : String
  pub session_id : String
  pub boot_id : String
  pub instance_id : String
  pub observed_at : Instant
  pub reason : String

-- The chain of tests of `is_current` on times.
abbrev pub is_fresh : Instant → Instant → Instant → Bool
is_fresh (finite now) (finite seen) (finite max_age) =
    if leb_ℤ max_age (pos 0)
    then false
    else leb_ℤ (pos 0) (now -ℤ seen) && ltb_ℤ (now -ℤ seen) max_age
is_fresh _ _ _ = false

unfoldable pub is_current : Observation → String → String → String → Instant → Instant → Bool
is_current o session_id boot_id instance_id now max_age =
    if not (non_empty session_id) || not (non_empty boot_id) || not (non_empty instance_id)
    then false
    else if not (
        str_eq o.session_id session_id
        && str_eq o.boot_id boot_id
        && str_eq o.instance_id instance_id)
    then false
    else is_fresh now o.observed_at max_age

pub record Verification : Type 0 where
  pub state : VerificationState
  pub reason : String
  pub ip : Option String
  pub observed_at : Option Instant
  pub diagnostics : List Diagnostic

abbrev pub verdict_code : VerificationState → ExitCode
verdict_code negative = tor_negative
verdict_code _ = unverified

verdict_result : VerificationState → Verification → Result
unfolding add
verdict_result confirmed v = record { diagnostics = v.diagnostics }
verdict_result s v =
    add (record { diagnostics = v.diagnostics })
      (record {
        code = verdict_code s;
        reason = v.reason;
        component = "tor";
        operation = "verify";
        message = state_value s;
        active = true;
      }
        ∷ [])

-- The property `Verification.result`.
unfoldable pub result : Verification → Result
unfolding verdict_result
result v = verdict_result v.state v
