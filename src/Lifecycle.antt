-- ===== src/Lifecycle.antt =====
-- ttp/commands/lifecycle.py: `do_stop` and `signal_handler`, over the session's files, the table in
-- the kernel and what was called.
pub mod Commands
pub mod Rules
pub mod Stopped
pub mod Retained
pub mod Restored
pub mod Returns
pub mod Passes
pub mod Final
pub mod Samples
mod Tests
use transparent_tor_proxy.Base.{
  ℕ, Bool, true, false, not, String, Option, none, some, List, [], ◌∷◌, map, str_eq, non_empty,
  if◌then◌else◌, ◌==◌,
}
use Prim.Native.Nat.{zero, suc}
use transparent_tor_proxy.Base.Int.{ℤ, pos, negsuc}
use transparent_tor_proxy.Evidence.{ExitCode, Result, exit_code, to_int}
use transparent_tor_proxy.Firewall.Rule.{Rule, Chain}
use transparent_tor_proxy.Firewall.Emergency.{
  LockedUid, absent, unreadable, number, teardown_lockdown, socket_slaughter,
}
use transparent_tor_proxy.Firewall.Runner.{
  Kernel, Call, succeeds, fails, raises, Replies, destroy_rules, returned, firewall_error,
  other_error,
}
use transparent_tor_proxy.Session.World.{
  Lock, LockFile, no_lock, broken_lock, locked, World, stopping, identity, mark_stopping,
  delete_lock, emergency_latched,
}

-- The calls that reach outside the session's files and the table, in the order they are made.
pub data Step : Type 0 where
  stops_watchdog shuts_down_tor stops_tor unlabels_ports flushes_connections restores_dns
        finishes_notifications :
      Step

-- `rules` is the table in the kernel; `steps` has the last step first.
pub record Machine : Type 0 where
  pub world : World
  pub rules : Kernel
  pub steps : List Step

-- How a command ends: it goes on, it leaves with an exit code, or it raises.
pub data Ended (A : Type 0) : Type 0 where
  ok : A → Ended A
  exits : ℕ → Ended A
  raised : Ended A

abbrev pub M : Type 0 → Type 0
M A = Machine → Machine × Ended A

abbrev pub continue_with : {A B : Type 0} → Machine × Ended A → (A → M B) → Machine × Ended B
continue_with (s, ok a) f = f a s
continue_with (s, exits n) f = (s, exits n)
continue_with (s, raised) f = (s, raised)

infixl 5 ◌>>=◌ ◌>>◌
abbrev pub ◌>>=◌ : {A B : Type 0} → M A → (A → M B) → M B
◌>>=◌ m f s = continue_with (m s) f

abbrev pub ◌>>◌ : {B : Type 0} → M (Unit {0}) → M B → M B
m >> k = m >>= λ _. k

abbrev pub pure : {A : Type 0} → A → M A
pure a s = (s, ok a)

abbrev pub leave : {A : Type 0} → ℕ → M A
leave n s = (s, exits n)

abbrev pub raise : {A : Type 0} → M A
raise s = (s, raised)

-- A step that may raise.
abbrev pub call : Step → Bool → M (Unit {0})
call c works s = (record s { steps = c ∷ s.steps }, if works then ok tt else raised)

abbrev pub set_world : World → M (Unit {0})
set_world w s = (record s { world = w }, ok tt)

abbrev pub set_rules : Kernel → M (Unit {0})
set_rules k s = (record s { rules = k }, ok tt)

-- The other keys of the lock that a stop reads.
pub record Keys : Type 0 where
  pub external_daemon : Bool
  pub tor_uid : LockedUid

-- How the writes of `mark_stopping` fare: it fails before them, between them, or not at all.
pub data Marking : Type 0 where
  unprepared half_written written : Marking

-- What the outside answers to a stop: how the stop marker is written; whether the preparation of the
-- records, the end of Tor and the removal of the port labels return; the users; which insertions nft accepts; the run of conntrack, if
-- that is installed; how `destroy_rules` fares; whether DNS is restored and the lock unlinked; and
-- what `finish_notifications` returns (`none` for an exception).
pub record Outside : Type 0 where
  pub marks : Marking
  pub prepares : Bool
  pub shuts_down : Bool
  pub stops : Bool
  pub unlabels : Bool
  pub uid_of_port : Option ℕ
  pub uid_of : String → Option ℕ
  pub locks_down : Bool
  pub udp : Bool
  pub tcp : Bool
  pub conntrack : Option Call
  pub destroys : Replies
  pub restores : Bool
  pub unlinks : Bool
  pub finished : Option Result

-- `lock.get("tor_uid")` as a number that is not negative.
abbrev plain_uid : LockedUid → Option ℕ
plain_uid absent = none
plain_uid unreadable = none
plain_uid (number (pos n)) = some n
plain_uid (number (negsuc _)) = none

abbrev or_else : Option ℕ → Option ℕ → Option ℕ
or_else none b = b
or_else (some a) b = some a

abbrev as_argument : Option ℕ → LockedUid
as_argument none = absent
as_argument (some n) = number (pos n)

-- `nft insert rule` finds the chain by its name.
abbrev in_filter_out : (List Rule → List Rule) → Chain → Chain
in_filter_out f c = if str_eq c.name "filter_out" then record c { rules = f c.rules } else c

abbrev pub insert_into : (List Rule → List Rule) → Kernel → Kernel
insert_into f none = none
insert_into f (some chains) = some (map (in_filter_out f) chains)

module _ (keys : Keys) (a : Outside) where
  -- The user that the lockdown spares.
  abbrev pub spared : Option ℕ
  spared =
      or_else (plain_uid keys.tor_uid)
        (or_else a.uid_of_port (or_else (a.uid_of "tor") (a.uid_of "debian-tor")))

  -- The rules after the lockdown. For the users that get here it does not raise.
  abbrev or_same : List Rule → Option (List Rule) → List Rule
  or_same rs none = rs
  or_same rs (some locked_down) = locked_down

  pub lock_down : M (Unit {0})
  lock_down s =
      set_rules
        (insert_into (λ rs. or_same rs (teardown_lockdown a.locks_down (as_argument spared) rs))
          s.rules)
        s

  pub slaughter : M (Unit {0})
  slaughter s = set_rules (insert_into (socket_slaughter a.udp a.tcp) s.rules) s

  abbrev pub unless_external : M (Unit {0}) → M (Unit {0})
  unless_external m = if keys.external_daemon then pure tt else m

  -- An error of the watchdog's stop is logged.
  abbrev pub stop_watchdog : M (Unit {0})
  stop_watchdog = call stops_watchdog true

  abbrev pub end_tor : M (Unit {0})
  end_tor = do
    call shuts_down_tor a.shuts_down
    call stops_tor a.stops
    call unlabels_ports a.unlabels

  -- Only an exit status of conntrack is forgiven.
  abbrev pub flush_connections : Option Call → M (Unit {0})
  flush_connections none = pure tt
  flush_connections (some succeeds) = call flushes_connections true
  flush_connections (some fails) = call flushes_connections true
  flush_connections (some raises) = call flushes_connections false

  -- `firewall.destroy_rules()`
  unfoldable pub destroy : M (Unit {0})
  destroy s =
      let done = destroy_rules a.destroys s.rules in
      (
        record s { rules = done.kernel },
        elim done.ending [ returned ↦ ok tt | firewall_error ↦ raised | other_error ↦ raised ],
      )

  -- `state.delete_lock()`
  pub unlink : M (Unit {0})
  unlink s = if a.unlinks then (record s { world = delete_lock s.world }, ok tt) else (s, raised)

  -- `try … finally`: the last part runs however the first ends, and its exception replaces the other.
  abbrev pub resume : {A : Type 0} → Ended A → Machine × Ended (Unit {0}) → Machine × Ended A
  resume e (s, ok _) = (s, e)
  resume e (s, exits n) = (s, exits n)
  resume e (s, raised) = (s, raised)

  abbrev pub finally : {A : Type 0} → M A → M (Unit {0}) → M A
  finally m last s = resume (m s).1 (last (m s).0)

  abbrev pub as_exit : ℕ → M (Unit {0})
  as_exit zero = pure tt
  as_exit (suc n) = leave (suc n)

  abbrev pub leave_with : Option Result → M (Unit {0})
  leave_with none = raise
  leave_with (some r) = as_exit (to_int (exit_code r))

  abbrev pub leave_always : Option Result → M (Unit {0})
  leave_always none = raise
  leave_always (some r) = leave (to_int (exit_code r))

  -- The part of `do_stop` from the watchdog on.
  pub tear_down : M (Unit {0})
  tear_down = do
    unless_external stop_watchdog
    lock_down
    unless_external end_tor
    slaughter
    flush_connections a.conntrack

  pub remove : M (Unit {0})
  remove = finally (destroy >> call restores_dns true) unlink

  pub finish : M (Unit {0})
  finish = call finishes_notifications true >> leave_with a.finished

  abbrev pub marked : Marking → Option World → M (Unit {0})
  marked unprepared w s = (s, raised)
  marked _ none s = (s, raised)
  marked written (some w) s = (record s { world = w }, ok tt)
  marked half_written (some w) s =
      (record s { world = record w { marker = s.world.marker } }, raised)

  -- A lock that names no session is not marked.
  pub mark : Lock → M (Unit {0})
  mark lock s = elim (identity lock.session_id) [
    | none ↦ pure tt s
    | some _ ↦ marked a.marks (mark_stopping lock s.world) s
  ]

  abbrev pub stop_session : LockFile → M (Unit {0})
  stop_session (locked lock) = do mark lock; tear_down; remove; finish
  stop_session _ = pure tt

  pub do_stop : M (Unit {0})
  do_stop s = stop_session s.world.lock_file s

  -- An unreadable record counts as latched.
  abbrev pub or_latched : Option Bool → Bool
  or_latched none = true
  or_latched (some b) = b

  abbrev pub held_by : Option String → Option Bool → Bool
  held_by none b = false
  held_by (some _) b = or_latched b

  abbrev pub retained : LockFile → World → Bool
  retained (locked lock) w = held_by (identity lock.session_id) (emergency_latched lock w)
  retained _ w = false

  abbrev pub on_signal : Bool → M (Unit {0})
  on_signal true = leave 8
  on_signal false = do_stop >> leave 0

  pub signal_handler : M (Unit {0})
  signal_handler s = on_signal (retained s.world.lock_file s.world) s
