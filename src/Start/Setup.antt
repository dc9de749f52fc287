-- ===== src/Start/Setup.antt =====
-- ttp/commands/start.py, `start_command` from the firewall to the written lock, with what it undoes
-- when a step fails.
use transparent_tor_proxy.Base.{Bool, true, false}
use transparent_tor_proxy.Firewall.Runner.{
  Injection, Replies, Host, Wanted, Ending, returned, firewall_error, other_error, apply_rules,
}
use transparent_tor_proxy.Session.World.{Lock, locked, no_marker}
use transparent_tor_proxy.Lifecycle.{
  stops_tor, restores_dns, ok, M, ◌>>◌, pure, leave, raise, call, Keys, Outside, unless_external,
  destroy,
}

-- How `write_lock` fares: it writes the lock and removes the stop marker; it fails before or between
-- the two, with a `StateError`; or another exception comes up.
pub data Writing : Type 0 where
  published unwritten half_published interrupted : Writing

-- What is asked for, and what the outside answers: how the rules are applied, whether the interface is
-- found and DNS is set up, and how the lock is written.
pub record Plan : Type 0 where
  pub host : Host
  pub wanted : Wanted
  pub injection : Injection
  pub undo : Replies
  pub finds_interface : Bool
  pub sets_dns : Bool
  pub writing : Writing
  pub lock : Lock

module _ (keys : Keys) (a : Outside) (p : Plan) where
  -- `if not external_daemon: stop_tor_service()`, then `destroy_rules()`
  unfoldable pub take_back : M (Unit {0})
  take_back = unless_external keys a (call stops_tor a.stops) >> destroy keys a

  abbrev pub after_rules : Ending → M (Unit {0})
  after_rules returned = pure tt
  after_rules firewall_error = take_back >> leave 1
  after_rules other_error = raise

  unfoldable pub apply_firewall : M (Unit {0})
  apply_firewall s =
      let done = apply_rules p.injection p.undo p.host p.wanted s.rules in
      after_rules done.ending (record s { rules = done.kernel })

  abbrev pub find_interface : Bool → M (Unit {0})
  find_interface true = pure tt
  find_interface false = raise

  abbrev pub after_dns : Bool → M (Unit {0})
  after_dns true = pure tt
  after_dns false = take_back >> leave 1

  abbrev pub publish : M (Unit {0})
  publish s = (record s { world = record (s.world) { lock_file = locked p.lock } }, ok tt)

  abbrev pub unmark : M (Unit {0})
  unmark s = (record s { world = record (s.world) { marker = no_marker } }, ok tt)

  abbrev pub undo_all : M (Unit {0})
  undo_all = do take_back; call restores_dns a.restores; leave 1

  abbrev pub write_lock : Writing → M (Unit {0})
  write_lock published = publish >> unmark
  write_lock unwritten = undo_all
  write_lock half_published = publish >> undo_all
  write_lock interrupted = raise

  unfoldable pub set_up : M (Unit {0})
  set_up = do
    apply_firewall
    find_interface p.finds_interface
    after_dns p.sets_dns
    write_lock p.writing
