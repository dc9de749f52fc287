-- ===== src/Lifecycle/Commands.antt =====
-- ttp/commands/stop_restart.py: `stop_command`, and `restart_command` up to the start.
use transparent_tor_proxy.Base.{Bool, true, false, String, Option, none, some, if◌then◌else◌}
use transparent_tor_proxy.Session.World.{
  LockFile, no_lock, broken_lock, locked, World, stopping, identity, emergency_latched,
}
use transparent_tor_proxy.Lifecycle.{
  shuts_down_tor, stops_tor, unlabels_ports, restores_dns, finishes_notifications, M, ◌>>◌, pure,
  leave, raise, call, set_world, Keys, Outside, stop_watchdog, destroy, unlink, leave_always,
  do_stop,
}

module _ (keys : Keys) (a : Outside) where
  -- `stop_command` with `--restore-only`, once the caller is known to be root.
  unfoldable pub mark_all : M (Unit {0})
  mark_all s =
      (if a.prepares then set_world (record (s.world) { marker = stopping "*" }) else raise) s

  abbrev pub has_lock : LockFile → Bool
  has_lock (locked _) = true
  has_lock _ = false

  abbrev pub farewell : Bool → M (Unit {0})
  farewell false = leave 0
  farewell true = call finishes_notifications true >> leave_always keys a a.finished

  unfoldable pub restore_all : Bool → M (Unit {0})
  restore_all lock = do
    (if lock then call unlabels_ports a.unlabels else pure tt)
    call restores_dns a.restores
    unlink keys a
    farewell lock

  unfoldable pub restore_only : M (Unit {0})
  restore_only = do
    mark_all
    stop_watchdog keys a
    call shuts_down_tor a.shuts_down
    call stops_tor a.stops
    destroy keys a
    λ s. restore_all (has_lock s.world.lock_file) s

  -- `stop_command`
  abbrev pub stop_present : LockFile → M (Unit {0})
  stop_present (locked lock) = do_stop keys a
  stop_present _ = leave 0

  unfoldable pub stop_command : Bool → M (Unit {0})
  stop_command true s = restore_only s
  stop_command false s = stop_present s.world.lock_file s

  -- What `restart_command` does between its preflight and `start_command`. `configured` is whether
  -- the settings load and fit.
  abbrev pub refuse_latched : Option Bool → M (Unit {0})
  refuse_latched none = leave 1
  refuse_latched (some true) = leave 7
  refuse_latched (some false) = pure tt

  abbrev pub refuse_named : Option String → Option Bool → M (Unit {0})
  refuse_named none b = pure tt
  refuse_named (some _) b = refuse_latched b

  abbrev pub may_restart : LockFile → World → M (Unit {0})
  may_restart broken_lock w = leave 1
  may_restart no_lock w = pure tt
  may_restart (locked lock) w = refuse_named (identity lock.session_id) (emergency_latched lock w)

  abbrev pub stop_if_there : LockFile → M (Unit {0})
  stop_if_there (locked lock) = do_stop keys a
  stop_if_there _ = pure tt

  unfoldable pub before_restart : Bool → M (Unit {0})
  before_restart false = leave 1
  before_restart true = do
    λ s. may_restart s.world.lock_file s.world s
    λ s. stop_if_there s.world.lock_file s
