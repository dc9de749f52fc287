-- ===== src/Watchdog/Supervisor.antt =====
-- ttp/watchdog/supervisor.py: one round of the loop of `run_supervisor`, what leads to it, and what
-- follows it. A round is a computation on the supervisor's state that may return from the loop or
-- raise; what the outside answers is an argument, by the number of events before it.
pub mod Invariant
pub mod Latched
pub mod Run
pub mod Tests
pub mod Checked
use transparent_tor_proxy.Base.{
  ℕ, ◌≡◌, Bool, true, false, not, ◌&&◌, ◌||◌, String, ◌<>◌, Option, none, some, List, [], ◌∷◌,
  length, str_eq, if◌then◌else◌,
}
use transparent_tor_proxy.Evidence.{error, watchdog_unavailable, Diagnostic}
use transparent_tor_proxy.Session.World.{
  Lock, LockFile, no_lock, broken_lock, locked, World, same_id, emergency_latched,
}
use transparent_tor_proxy.Session.Request.{Answers, request_emergency}
use transparent_tor_proxy.Watchdog.Integrity.{
  Readings, System, Component, dns, firewall, tor, check_system_integrity, attempt_auto_healing,
}
use transparent_tor_proxy.Watchdog.Inotify.{inotify_watch_lost}

-- `observation`: what the record "watchdog" says; `completed` is whether it has a time.
pub data Value : Type 0 where
  unknown healthy emergency : Value

pub record Observation : Type 0 where
  pub value : Value
  pub reason : String
  pub completed : Bool

-- What a round does, for others to see: an observation is published, a check has found a component
-- failed or none, containment was requested, systemd was notified, recovery was announced.
pub data Event : Type 0 where
  published : Observation → Event
  checked : Option String → Event
  contained : Event
  notified : (ready : Bool) → Event
  announced : Event

-- `events` has the last event first. `due` is whether `last_check` was put back.
pub record State : Type 0 where
  pub world : World
  pub baseline : Readings
  pub observation : Observation
  pub ready : Bool
  pub due : Bool
  pub events : List Event

-- How a bounded check ends: with the system it saw, by the deadline, or by another exception.
pub data Check : Type 0 where
  saw : System → Check
  deadline raised : Check

-- How a bounded healing ends: whether there is a lock and the restart succeeded, or by the deadline.
pub data Healing : Type 0 where
  healing : (has_lock : Bool) (restarted : Bool) → Healing
  deadline : Healing

-- What `select` and the reads after it give: nothing, an interruption, an exception, or events; with
-- them, what is read of the inotify descriptor if that is readable, and whether both watches stand
-- after `readd_watch`.
pub data Waited : Type 0 where
  quiet interrupted broken : Waited
  events : (inotify : Option (List ℕ)) (readded : Bool) → Waited

pub record Round : Type 0 where
  pub elapsed : Bool
  pub written : ℕ → Bool
  pub notifies : ℕ → Bool
  pub request : ℕ → Answers
  pub check : ℕ → Check
  pub heal : Healing
  pub emits : Bool
  pub waited : Waited

pub data Ended (A : Type 0) : Type 0 where
  ok : A → Ended A
  exits crashes : Ended A

abbrev pub M : Type 0 → Type 0
M A = State → State × Ended A

abbrev pub continue_with : {A B : Type 0} → State × Ended A → (A → M B) → State × Ended B
continue_with (s, ok a) f = f a s
continue_with (s, exits) f = (s, exits)
continue_with (s, crashes) f = (s, crashes)

infixl 5 ◌>>=◌ ◌>>◌
abbrev pub ◌>>=◌ : {A B : Type 0} → M A → (A → M B) → M B
◌>>=◌ m f s = continue_with (m s) f

abbrev pub ◌>>◌ : {B : Type 0} → M (Unit {0}) → M B → M B
m >> k = m >>= λ _. k

pub pure : {A : Type 0} → A → M A
pure a s = (s, ok a)

pub leave : {A : Type 0} → M A
leave s = (s, exits)

pub raise : {A : Type 0} → M A
raise s = (s, crashes)

pub log : Event → M (Unit {0})
log e s = (record s { events = e ∷ s.events }, ok tt)

pub read : M State
read s = (s, ok s)

pub put_world : World → M (Unit {0})
put_world w s = (record s { world = w }, ok tt)

pub observe : Observation → M (Unit {0})
observe o s = (record s { observation = o }, ok tt)

pub set_due : Bool → M (Unit {0})
set_due b s = (record s { due = b }, ok tt)

pub set_ready : M (Unit {0})
set_ready s = (record s { ready = true }, ok tt)

pub put_baseline : Readings → M (Unit {0})
put_baseline b s = (record s { baseline = b }, ok tt)

-- `_cause`
abbrev pub cause : String → String → Diagnostic
cause component reason = record {
  code = if str_eq component "watchdog" then watchdog_unavailable else error;
  reason = reason;
  component = component;
  operation = "supervise";
  message = "Required local integrity unavailable";
  active = true;
}

abbrev pub component_name : Component → String
component_name dns = "dns"
component_name firewall = "firewall"
component_name tor = "tor"

abbrev pub name_of : Option Component → Option String
name_of none = none
name_of (some c) = some (component_name c)

abbrev pub is_tor : Option String → Bool
is_tor none = false
is_tor (some s) = str_eq s "tor"

module _ (lock : Lock) (a : Round) where
  -- `store.write("watchdog", session_id, observation)`, which may raise.
  pub write_record : M (Unit {0})
  unfolding read pure raise
  write_record = do
    s ← read
    log (published s.observation)
    if a.written (length s.events) then pure tt else raise

  -- `publish`
  pub publish : Value → String → Bool → M (Unit {0})
  publish value reason completed = do
    observe (record { value = value; reason = reason; completed = completed })
    write_record

  -- `request_emergency(lock, cause, repair=True)`
  pub request : Diagnostic → M (Unit {0})
  request c = do
    s ← read
    put_world
        (request_emergency (record { repair = true; require_despite_missing_lock = false })
          (a.request (length s.events)) lock c s.world).world
    log contained

  -- `contain`
  pub contain : Diagnostic → M (Unit {0})
  contain c = do request c; publish emergency "watchdog.emergency_latched" true

  -- `notify_progress`, which may raise.
  pub notify : Bool → M (Unit {0})
  notify ready = do s ← read; if a.notifies (length s.events) then log (notified ready) else raise

  abbrev pub when : Bool → M (Unit {0}) → M (Unit {0})
  when true m = m
  when false m = pure tt

  -- A bounded `check_system_integrity`: the failed component, if any, or `none` for the deadline.
  abbrev pub checked_by : Readings → Check → M (Option (Option String))
  checked_by baseline raised = raise
  checked_by baseline deadline = pure none
  checked_by baseline (saw system) = do
    let found : Option Component × Readings = check_system_integrity system baseline
    put_baseline found.1
    log (checked (name_of found.0))
    pure (some (name_of found.0))

  pub bounded_check : M (Option (Option String))
  bounded_check = do s ← read; checked_by s.baseline (a.check (length s.events))

  abbrev pub or_watchdog : Option (Option String) → Option String
  or_watchdog none = some "watchdog"
  or_watchdog (some failed) = failed

  -- The second check, after a healing that succeeded.
  pub check_again : M (Option String)
  check_again = do s ← read; when s.ready (notify false); r ← bounded_check; pure (or_watchdog r)

  abbrev pub healed : Healing → Option Bool
  healed (healing has_lock restarted) = some (attempt_auto_healing has_lock restarted tor).0
  healed deadline = none

  abbrev pub after_healing : Option Bool → M (Option String)
  after_healing none = pure (some "watchdog")
  after_healing (some true) = check_again
  after_healing (some false) = pure (some "tor")

  -- The healing of Tor, and what has failed after it.
  pub heal_tor : M (Option String)
  heal_tor = do
    publish unknown "watchdog.tor_healing" false
    s ← read
    when s.ready (notify false)
    after_healing (healed a.heal)

  -- A recovery is announced by `emit`, which may raise.
  abbrev pub announce : Bool → M (Unit {0})
  announce true = if a.emits then log announced else raise
  announce false = pure tt

  -- The verdict of an evaluation.
  pub conclude : Bool → Option String → M (Unit {0})
  conclude recovering (some failed) =
      contain (cause failed ("watchdog." <> (failed <> "_integrity_failed")))
  conclude recovering none = do
    publish healthy "watchdog.local_integrity_verified" true
    announce recovering

  abbrev pub after_heal : Option String → M (Option String)
  after_heal failed = if is_tor failed then heal_tor else pure failed

  abbrev pub act_on : Option (Option String) → M (Unit {0})
  act_on none = contain (cause "watchdog" "watchdog.check_timeout")
  act_on (some failed) = after_heal failed >>= conclude (is_tor failed)

  pub evaluate : M (Unit {0})
  evaluate = do
    publish unknown "watchdog.evaluation_pending" false
    r ← bounded_check
    act_on r
    set_due false

  abbrev pub is_over : LockFile → Bool
  is_over (locked l) = not (same_id l.session_id lock.session_id) || str_eq l.phase "stopping"
  is_over _ = true

  -- The intent of the session: the loop goes on, is left, or raises.
  abbrev pub follow : LockFile → M (Unit {0})
  follow broken_lock = raise
  follow no_lock = leave
  follow (locked l) = if is_over (locked l) then leave else pure tt

  pub read_intent : M (Unit {0})
  read_intent = do s ← read; follow s.world.lock_file

  -- Whether an emergency is latched; unreadable evidence counts as one, and is contained at once.
  abbrev pub latched_or_contained : Option Bool → M Bool
  latched_or_contained (some b) = pure b
  latched_or_contained none = do contain (cause "session" "session.evidence_invalid"); pure true

  pub read_latch : M Bool
  read_latch = do s ← read; latched_or_contained (emergency_latched lock s.world)

  pub guard_session : Bool → M (Unit {0})
  guard_session true = contain (cause "watchdog" "watchdog.emergency_latched")
  guard_session false = do s ← read; if s.due || a.elapsed then evaluate else pure tt

  abbrev pub is_lost_now : Option (List ℕ) → Bool
  is_lost_now none = false
  is_lost_now (some bytes) = inotify_watch_lost bytes

  -- The wait at the end of the round.
  abbrev pub keep_watch : Bool → M (Unit {0})
  keep_watch lost = if not lost then pure tt else raise

  abbrev pub handle : Waited → M (Unit {0})
  handle quiet = pure tt
  handle interrupted = pure tt
  handle broken = raise
  handle (events inotify readded) = do
    publish unknown "watchdog.event_invalidated" false
    keep_watch (is_lost_now inotify && not readded)
    set_due true

  pub wait : M (Unit {0})
  wait = handle a.waited

  pub round : M (Unit {0})
  round = do
    read_intent
    latched ← read_latch
    guard_session latched
    write_record
    s ← read
    notify (not s.ready)
    set_ready
    wait
