-- ===== src/Session/Request.antt =====
-- `request_emergency`, `supervision_terminated` and, of ttp/watchdog/alerts.py,
-- `trigger_emergency_killswitch`.
pub mod Verified
pub mod Deadline
pub mod Latch
pub mod Files
pub mod Quiet
pub mod Urgent
use transparent_tor_proxy.Base.{
  ℕ, ◌≡◌, Bool, true, false, not, ◌&&◌, ◌||◌, String, Option, none, some, List, [], ◌∷◌, ◌++◌,
  str_eq, non_empty, all_of, keep, map, is_none, if◌then◌else◌,
}
use transparent_tor_proxy.Base.Json.{Value, str, get_key}
use transparent_tor_proxy.Evidence.{
  ExitCode, ok, error, watchdog_unavailable, tor_negative, emergency_verified,
  containment_unconfirmed, Diagnostic, Result, no_result, exit_code, add,
}
use transparent_tor_proxy.Evidence.Dicts.{as_dict, from_dict}
use transparent_tor_proxy.Firewall.Inspect.{KernelCheck, diagnostic}
use transparent_tor_proxy.Session.World.{
  SettingsRead, no_settings, invalid_settings, valid_settings, Lock, LockFile, no_lock, broken_lock,
  locked, Emergency, Record, no_record, broken_record, recorded, World, identity, same_id,
  stop_was_requested,
}

-- What the outside answers during one call: whether the transition lock is had in time, whether each
-- write of the record succeeds, whether nft accepts the killswitch, what each inspection of the
-- kernel's rules finds, and what `emit` returns (`none` for an exception).
pub record Answers : Type 0 where
  pub serialized : Bool
  pub latch_written : Bool
  pub evidence_written : Bool
  pub applied : Bool
  pub first_check : KernelCheck
  pub second_check : KernelCheck
  pub emitted : String → Option (List Diagnostic)

-- The attempts that a call makes, in order.
pub data Action : Type 0 where
  write_latch apply_killswitch inspect write_evidence : Action
  emit : String → Action

pub record Outcome : Type 0 where
  pub result : Result
  pub world : World
  pub actions : List Action

-- `_failure`
abbrev pub failure : String → String → Diagnostic
failure reason message = record {
  code = containment_unconfirmed;
  reason = reason;
  component = "session";
  operation = "contain";
  message = message;
  active = true;
}

-- The keyword arguments.
pub record Options : Type 0 where
  pub repair : Bool
  pub require_despite_missing_lock : Bool

-- The session that the call may act for is no longer the current one, or is being stopped.
abbrev is_stale : Bool → String → LockFile → Bool
is_stale require session no_lock = not require
is_stale require session broken_lock = not require
is_stale require session (locked l) =
    not (same_id l.session_id (some session)) || str_eq l.phase "stopping"

-- How the part under the transition lock begins: it fails, has nothing to do, or acts.
pub data Entry : Type 0 where
  fails stale acts : Entry

abbrev unreadable : LockFile → Bool
unreadable broken_lock = true
unreadable _ = false

abbrev after_marker : Options → String → LockFile → Option Bool → Entry
after_marker o session file none = fails
after_marker o session file (some true) = stale
after_marker o session file (some false) =
    if unreadable file && not o.require_despite_missing_lock
    then fails
    else if is_stale o.require_despite_missing_lock session file
    then stale
    else acts

unfoldable pub entry : Options → Answers → String → World → Entry
entry o a session w =
    if a.serialized
    then after_marker o session w.lock_file (stop_was_requested session w.marker)
    else fails

-- The previous record: what it adds to the result, the causes to store, the stored `applied`, and
-- whether the cause is new.
pub record Previous : Type 0 where
  pub diagnostics : List Diagnostic
  pub causes : List Value
  pub applied : Option Bool
  pub new_cause : Bool

-- `item.get("reason") != cause.reason`
abbrev has_reason : String → Value → Bool
has_reason reason item = elim (get_key "reason" item) [ some (str s) ↦ str_eq s reason | _ ↦ false ]

evidence_invalid : Diagnostic
evidence_invalid = failure "session.evidence_invalid" "Previous emergency evidence is unreadable"

-- `Diagnostic.from_dict` over the items; `none` if one raises.
abbrev read_all : List Value → Option (List Diagnostic)
read_all [] = some []
read_all (v ∷ vs) =
    let rest = read_all vs in
    elim (from_dict v) [
      | none ↦ none
      | some d ↦ elim rest [ none ↦ none | some ds ↦ some (d ∷ ds) ]
    ]

abbrev diagnostics_or_invalid : Option (List Diagnostic) → List Diagnostic
unfolding evidence_invalid
diagnostics_or_invalid none = evidence_invalid ∷ []
diagnostics_or_invalid (some ds) = ds

abbrev from_causes : Diagnostic → Option Bool → Option (List Value) → Previous
unfolding evidence_invalid
from_causes cause applied none = record {
  diagnostics = evidence_invalid ∷ [];
  causes = as_dict cause ∷ [];
  applied = applied;
  new_cause = true;
}
from_causes cause applied (some old) =
    let others = keep (λ v. not (has_reason cause.reason v)) old in
    record {
      diagnostics = diagnostics_or_invalid (read_all others);
      causes = others ++ as_dict cause ∷ [];
      applied = applied;
      new_cause = all_of (λ v. not (has_reason cause.reason v)) old;
    }

unfoldable pub read_previous : Diagnostic → Record → Previous
unfolding evidence_invalid
read_previous cause no_record = record {
  diagnostics = [];
  causes = as_dict cause ∷ [];
  applied = none;
  new_cause = true;
}
read_previous cause broken_record = record {
  diagnostics = evidence_invalid ∷ [];
  causes = as_dict cause ∷ [];
  applied = none;
  new_cause = true;
}
read_previous cause (recorded e) = from_causes cause e.applied e.causes

-- A diagnostic that is added if a write fails.
abbrev pub unless_written : Bool → Diagnostic → List Diagnostic
unless_written true d = []
unless_written false d = d ∷ []

latch_write_failed : Diagnostic
latch_write_failed = failure "session.latch_write_failed" "Could not persist the emergency latch"

evidence_write_failed : Diagnostic
evidence_write_failed =
    failure "session.evidence_write_failed" "Could not publish containment evidence"

apply_failed : Diagnostic
apply_failed = record {
  code = error;
  reason = "firewall.emergency_apply_failed";
  component = "firewall";
  operation = "apply_emergency";
  message = "Emergency application failed";
  active = true;
}

-- From the application of the rules to the last inspection: the diagnostics it adds, `applied`, and
-- the check that counts.
pub record Containment : Type 0 where
  pub diagnostics : List Diagnostic
  pub applied : Option Bool
  pub check : KernelCheck
  pub actions : List Action

apply_and_inspect : Answers → Containment
unfolding apply_failed
apply_and_inspect a = record {
  diagnostics = unless_written a.applied apply_failed;
  applied = some a.applied;
  check = a.second_check;
  actions = apply_killswitch ∷ inspect ∷ [];
}

inspect_first : Answers → Option Bool → Containment
unfolding apply_and_inspect
inspect_first a applied =
    if a.first_check.verified
    then record {
      diagnostics = [];
      applied = applied;
      check = a.first_check;
      actions = inspect ∷ [];
    }
    else let c = apply_and_inspect a in record c { actions = inspect ∷ c.actions }

unfoldable pub containment : Bool → Answers → Option Bool → Containment
unfolding inspect_first apply_and_inspect
containment true a applied = inspect_first a applied
containment false a applied = apply_and_inspect a

-- The record after a write that may fail.
abbrev pub store : Bool → Emergency → Record → Record
store true e r = recorded e
store false e r = r

-- The part of the call under the transition lock, once it acts. `before` is the result so far.
unfoldable pub act : Options → Answers → Diagnostic → Result → World → Outcome
unfolding latch_write_failed evidence_write_failed
act o a cause before w =
    let p = read_previous cause w.emergency in
    let latch : Emergency = record {
      requested = true;
      applied = if o.repair then p.applied else some false;
      causes = some p.causes;
      verified = false;
      result = none;
    } in
    let c = containment o.repair a latch.applied in
    let result = add before (
      p.diagnostics
      ++ (unless_written a.latch_written latch_write_failed
          ++ (c.diagnostics ++ diagnostic c.check ∷ []))) in
    let evidence = record latch {
      applied = c.applied;
      verified = c.check.verified;
      result = some result;
    } in
    record {
      result = add result (unless_written a.evidence_written evidence_write_failed);
      world = record w {
        emergency = store a.evidence_written evidence (store a.latch_written latch w.emergency);
      };
      actions = write_latch ∷ (c.actions ++ write_evidence ∷ []);
    }

policy_invalid : Diagnostic
policy_invalid =
    failure "session.policy_invalid" "Cannot recover containment timing; using bounded defaults"

abbrev pub before_transition : SettingsRead → Diagnostic → Result
unfolding policy_invalid
before_transition invalid_settings cause =
    add (record { diagnostics = cause ∷ [] }) (policy_invalid ∷ [])
before_transition _ cause = record { diagnostics = cause ∷ [] }

transition_failed : Diagnostic
transition_failed = failure "session.transition_failed" "Containment could not be serialized"

-- What `emit` is called with, in order: the cause's event, if it has one and is new, then the state.
abbrev cause_events : Bool → Diagnostic → List String
cause_events false cause = []
cause_events true cause =
    if str_eq cause.reason "watchdog.emergency_latched" then [] else elim cause.code [
      | watchdog_unavailable ↦ "watchdog_unavailable" ∷ []
      | tor_negative ↦ "tor_negative" ∷ []
      | _ ↦ []
    ]

abbrev state_event : ExitCode → String
state_event emergency_verified = "emergency_verified"
state_event _ = "containment_unconfirmed"

-- An exception of `emit` ends the emission; what was added before it stays.
unfoldable pub emit_all : (String → Option (List Diagnostic)) → List String → Result → Result
emit_all emitted [] r = r
emit_all emitted (e ∷ es) r = elim (emitted e) [
  | none ↦ r
  | some ds ↦ emit_all emitted es (add r ds)
]

-- The events for which `emit` is called.
abbrev attempted : (String → Option (List Diagnostic)) → List String → List Action
attempted emitted [] = []
attempted emitted (e ∷ es) =
    let rest = attempted emitted es in emit e ∷ elim (emitted e) [ none ↦ [] | some _ ↦ rest ]

abbrev has_settings : SettingsRead → Bool
has_settings no_settings = false
has_settings _ = true

-- The end of the call, after the transition lock is released.
unfoldable pub report : Answers → Lock → Diagnostic → Bool → Outcome → Outcome
unfolding emit_all
report a lock cause new_cause out =
    if has_settings lock.settings
    then (let events = cause_events new_cause cause ++ state_event (exit_code out.result) ∷ [] in
        record {
          result = emit_all a.emitted events out.result;
          world = out.world;
          actions = out.actions ++ attempted a.emitted events;
        })
    else out

begin : Options → Answers → Lock → Diagnostic → String → World → Outcome
unfolding transition_failed
begin o a lock cause session w =
    let before = before_transition lock.settings cause in
    elim (entry o a session w) [
      | stale ↦ record { result = no_result; world = w; actions = [] }
      | fails ↦
          report a lock cause true
            (record { result = add before (transition_failed ∷ []); world = w; actions = [] })
      | acts ↦
          report a lock cause (read_previous cause w.emergency).new_cause (act o a cause before w)
    ]

identity_missing : Diagnostic
identity_missing = failure "session.identity_missing" "Cannot associate containment with a session"

unfoldable pub request_emergency : Options → Answers → Lock → Diagnostic → World → Outcome
unfolding begin transition_failed identity_missing policy_invalid
request_emergency o a lock cause w = elim (identity lock.session_id) [
  | none ↦ record {
    result = record { diagnostics = cause ∷ identity_missing ∷ [] };
    world = w;
    actions = [];
  }
  | some session ↦ begin o a lock cause session w
]
