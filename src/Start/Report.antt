-- ===== src/Start/Report.antt =====
-- ttp/session_report.py, `observe_session`: the diagnostics of a report on a session that is recorded. A lock whose `session_id` is no text is taken for one without.
pub mod Sound
mod Tests
use transparent_tor_proxy.Base.{
  ℕ, ◌≤◌, ◌≡◌, refl, sym, ap, ◌∙◌, ◌⊎◌, inl, inr, Bool, true, false, not, ◌&&◌, String, Option,
  none, some, List, [], ◌∷◌, ◌++◌, arith, if◌then◌else◌, Bool-cases, Option-cases,
}
use transparent_tor_proxy.Base.Json.{Value, Fields, get_field, as_str}
use transparent_tor_proxy.Evidence.{
  ExitCode, ok, watchdog_unavailable, containment_unconfirmed, notification_failed,
  emergency_verified, priority, Diagnostic, Result, exit_code,
}
use transparent_tor_proxy.Evidence.Select.{
  Reports, Reports-append, Reports-append_right, exit_code_bound,
}
use transparent_tor_proxy.Evidence.Dicts.{from_dict}
use transparent_tor_proxy.Firewall.Inspect.{KernelCheck, diagnostic}
use transparent_tor_proxy.Session.World.{Lock, Record, recorded, World, identity, emergency_latched}
use transparent_tor_proxy.Watchdog.Service.{is_live, printed}

-- What a report meets: whether the record "verification" can be read, what the kernel's rules are found
-- to be, the observation of the watchdog, whether notifications are enabled, and whether the agent
-- answers.
pub record Sighting : Type 0 where
  pub readable : Bool
  pub check : KernelCheck
  pub watchdog : Fields
  pub text_of : Value → String
  pub notifications : Bool
  pub answers : Bool

abbrev pub evidence_unreadable : Diagnostic
evidence_unreadable = record {
  code = containment_unconfirmed;
  reason = "session.evidence_invalid";
  component = "session";
  operation = "observe";
  message = "Emergency or verification evidence is unreadable";
  active = true;
}

abbrev pub unsupervised_with : String → Diagnostic
unsupervised_with reason = record {
  code = watchdog_unavailable;
  reason = reason;
  component = "watchdog";
  operation = "observe";
  message = "Required supervision has no current operational evidence";
  active = true;
}

abbrev pub no_agent : Diagnostic
no_agent = record {
  code = notification_failed;
  reason = "notifications.agent_unavailable";
  component = "notifications";
  operation = "observe";
  message = "No current notification agent response";
  active = true;
}

-- `Diagnostic.from_dict` over the items; `none` if one raises.
abbrev pub cons_read : Option Diagnostic → Option (List Diagnostic) → Option (List Diagnostic)
cons_read (some d) (some ds) = some (d ∷ ds)
cons_read _ _ = none

unfoldable pub read_causes : List Value → Option (List Diagnostic)
read_causes [] = some []
read_causes (v ∷ vs) = let rest = read_causes vs in cons_read (from_dict v) rest

abbrev pub with_check : KernelCheck → Option (List Diagnostic) → List Diagnostic
with_check check none = evidence_unreadable ∷ []
with_check check (some ds) = ds ++ (diagnostic check ∷ [])

abbrev pub stored_causes : Option (List Value) → Option (List Diagnostic)
stored_causes none = none
stored_causes (some items) = read_causes items

abbrev pub of_emergency : KernelCheck → Record → List Diagnostic
of_emergency check (recorded e) = with_check check (stored_causes e.causes)
of_emergency check _ = evidence_unreadable ∷ []

abbrev pub of_latch : World → KernelCheck → Option Bool → List Diagnostic
of_latch w check none = evidence_unreadable ∷ []
of_latch w check (some false) = []
of_latch w check (some true) = of_emergency check w.emergency

module _ (lock : Lock) (w : World) (s : Sighting) where
  abbrev pub evidence_of : Option String → List Diagnostic
  evidence_of none = []
  evidence_of (some session) =
      if s.readable then of_latch w s.check (emergency_latched lock w) else evidence_unreadable ∷ []

  -- `report["watchdog"]["reason"]` may raise a `KeyError`.
  abbrev pub with_reason : Option Value → Option (List Diagnostic)
  with_reason none = none
  with_reason (some v) = some (unsupervised_with (printed s.text_of (some v) "") ∷ [])

  abbrev pub of_watchdog : Option Value → Option (List Diagnostic)
  of_watchdog none = none
  of_watchdog (some value) =
      if is_live (as_str (some value)) then some [] else with_reason (get_field "reason" s.watchdog)

  abbrev pub supervision : Bool → Option (List Diagnostic)
  supervision false = some []
  supervision true = of_watchdog (get_field "value" s.watchdog)

  abbrev pub delivery : List Diagnostic
  delivery = if s.notifications && not s.answers then no_agent ∷ [] else []

  abbrev pub joined : List Diagnostic → Option (List Diagnostic) → Option (List Diagnostic)
  joined evidence none = none
  joined evidence (some supervised) = some (evidence ++ (supervised ++ delivery))

  -- The diagnostics of `observe_session`; `none` stands for an exception.
  unfoldable pub observe_session : Option (List Diagnostic)
  unfolding read_causes
  observe_session =
      joined (evidence_of (identity lock.session_id)) (supervision lock.watchdog_requested)
