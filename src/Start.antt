-- ===== src/Start.antt =====
-- ttp/commands/start.py, `start_command` from the lock it has written to its exit, and
-- `record_verification` of ttp/session_report.py. The host is set up; what is left is to supervise it,
-- to verify the exit, and to say how the session stands.
pub mod Setup
pub mod External
pub mod Ports
pub mod Owner
pub mod Report
pub mod Torrc
pub mod Undone
pub mod Sound
mod Tests
use transparent_tor_proxy.Base.{
  Bool, true, false, not, ◌&&◌, String, Option, none, some, List, [], ◌∷◌, is_some, any_of,
  if◌then◌else◌,
}
use transparent_tor_proxy.Evidence.{
  ExitCode, ok, error, unverified, watchdog_unavailable, tor_negative, emergency_verified,
  containment_unconfirmed, notification_failed, Diagnostic, Result, exit_code, add,
  VerificationState, negative, Verification, result,
}
use transparent_tor_proxy.Session.World.{Lock, World, emergency_latched}
use transparent_tor_proxy.Session.Request.{Options, Answers, Outcome, request_emergency}

-- What the outside answers: whether there is a notification target and its agent starts; whether a
-- watchdog is required and gets ready; what the verification finds, and whether its record is written;
-- what others do to the session's files while the probe runs, and after its result is recorded; the
-- answers to the requests for containment; whether notifications are on, and what `emit` returns (`none`
-- for an exception).
pub record Course : Type 0 where
  pub target : Bool
  pub agent_starts : Bool
  pub watchdog : Bool
  pub gets_ready : Bool
  pub verification : Verification
  pub writes : Bool
  pub while_probing : World → World
  pub meanwhile : World → World
  pub at_watchdog : Answers
  pub at_negative : Answers
  pub at_latch : Answers
  pub notifications : Bool
  pub emitted : String → Option (List Diagnostic)

pub record Progress : Type 0 where
  pub result : Result
  pub world : World

abbrev diagnostic : ExitCode → String → String → String → String → Diagnostic
diagnostic code reason component operation message = record {
  code = code;
  reason = reason;
  component = component;
  operation = operation;
  message = message;
  active = true;
}

abbrev pub agent_failed : Diagnostic
agent_failed =
    diagnostic notification_failed "notifications.agent_start_failed" "notifications" "start"
      "Desktop agent did not become ready"

abbrev pub watchdog_failed : Diagnostic
watchdog_failed =
    diagnostic watchdog_unavailable "watchdog.start_failed" "watchdog" "start"
      "Required watchdog did not become ready"

abbrev write_failed : Diagnostic
write_failed =
    diagnostic error "session.verification_write_failed" "session" "verify"
      "Could not retain verification evidence"

abbrev valid_negative : Diagnostic
valid_negative =
    diagnostic tor_negative "tor.valid_negative" "tor" "verify"
      "A non-exempt verification request returned IsTor=false"

abbrev pub still_latched : Diagnostic
still_latched =
    diagnostic error "session.emergency_latched" "session" "start"
      "Emergency remains latched until explicit termination"

abbrev pub evidence_invalid : Diagnostic
evidence_invalid =
    diagnostic containment_unconfirmed "session.evidence_invalid" "session" "start"
      "Cannot inspect emergency evidence"

-- `Result(result.diagnostics + request_emergency(…).diagnostics)`
abbrev pub join : Result → Outcome → Progress
join r out = record { result = add r out.result.diagnostics; world = out.world }

abbrev pub on_request : Options
on_request = record { repair = false; require_despite_missing_lock = false }

abbrev pub on_repair : Options
on_repair = record { repair = true; require_despite_missing_lock = false }

module _ (lock : Lock) (c : Course) where
  abbrev pub after_agent : Result → Result
  after_agent r = if c.target && not c.agent_starts then add r (agent_failed ∷ []) else r

  -- The supervision that was required did not become ready.
  abbrev pub unsupervised : Bool
  unsupervised = c.watchdog && not c.gets_ready

  abbrev pub after_watchdog : Bool → Progress → Progress
  after_watchdog false p = p
  after_watchdog true p =
      join p.result (request_emergency on_request c.at_watchdog lock watchdog_failed p.world)

  abbrev pub is_negative : VerificationState → Bool
  is_negative negative = true
  is_negative _ = false

  abbrev pub retain : Bool → Result → Result
  retain true r = r
  retain false r = add r (write_failed ∷ [])

  -- `record_verification`
  unfoldable pub record_verification : World → Progress
  record_verification w =
      let r = retain c.writes (result c.verification) in
      if is_negative c.verification.state
      then join r (request_emergency on_request c.at_negative lock valid_negative w)
      else record { result = r; world = w }

  abbrev pub after_verification : Bool → Progress → Progress
  after_verification true p = p
  after_verification false p =
      let v = record_verification p.world in
      record { result = add p.result v.result.diagnostics; world = v.world }

  abbrev pub after_latch : Option Bool → Progress → Progress
  after_latch none p = record p { result = add p.result (evidence_invalid ∷ []) }
  after_latch (some true) p =
      join p.result (request_emergency on_repair c.at_latch lock still_latched p.world)
  after_latch (some false) p = p

  -- What the session is when its emergency is inspected.
  unfoldable pub inspected : Progress → Progress
  inspected p =
      let s = after_watchdog unsupervised p in
      let q = after_verification unsupervised (record s { world = c.while_probing s.world }) in
      record q { world = c.meanwhile q.world }

  abbrev is_inconclusive : Diagnostic → Bool
  is_inconclusive d = d.active && elim d.code [ unverified ↦ true | _ ↦ false ]

  abbrev event_of : Result → String
  event_of r = elim (exit_code r) [
    | containment_unconfirmed ↦ "containment_unconfirmed"
    | emergency_verified ↦ "emergency_verified"
    | _ ↦ if any_of is_inconclusive r.diagnostics then "inconclusive" else "started"
  ]

  abbrev pub with_diagnostics : Progress → Option (List Diagnostic) → Option Progress
  with_diagnostics p none = none
  with_diagnostics p (some ds) = some (record p { result = add p.result ds })

  unfoldable pub announce : Progress → Option Progress
  announce p =
      if c.notifications then with_diagnostics p (c.emitted (event_of p.result)) else some p

  -- The result with which the command leaves if its exit code is not 0; `none` for an exception.
  unfoldable pub conclude_start : Result → World → Option Progress
  conclude_start before w =
      let p = inspected (record { result = after_agent before; world = w }) in
      announce (after_latch (emergency_latched lock p.world) p)
