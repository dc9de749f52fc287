-- ===== src/Lifecycle/Stopped.antt =====
-- ttp/commands/lifecycle.py: what `do_stop` leaves behind, for each way in which it ends.
use transparent_tor_proxy.Base.{
  ◌≡◌, refl, ◌⊎◌, inl, inr, ℕ, Bool, true, false, String, Option, none, some, List, is_some, arith,
  Bool-cases,
}
use Prim.Native.Nat.{zero, suc}
use transparent_tor_proxy.Evidence.{Result, exit_code, to_int}
use transparent_tor_proxy.Firewall.Rule.{Rule}
use transparent_tor_proxy.Firewall.Runner.{
  Kernel, Call, succeeds, fails, raises, Ending, returned, firewall_error, other_error,
  destroy_rules,
}
use transparent_tor_proxy.Firewall.Runner.Rollback.{destroy_rules-unlisted}
use transparent_tor_proxy.Session.World.{
  Lock, LockFile, no_lock, locked, stopping, World, identity, mark_stopping, delete_lock,
}
use transparent_tor_proxy.Session.Stop.{marker-mark_stopping, identity-eq}
use transparent_tor_proxy.Lifecycle.{
  stops_watchdog, Machine, M, ◌>>◌, call, Marking, unprepared, half_written, written, Keys, Outside,
  insert_into, lock_down, slaughter, unless_external, stop_watchdog, end_tor, shuts_down_tor,
  stops_tor, unlabels_ports, Step, flush_connections, destroy, unlink, leave_with, as_exit,
  tear_down, remove, finish, marked, mark, stop_session, do_stop,
}
use transparent_tor_proxy.Lifecycle.Rules.{Ends, Const, bind-Ends}

-- The session's own end: no table, unless nft fails to list it; no lock; and the marker that keeps the
-- session stopped.
abbrev pub IsStopped : Outside → String → Machine → Type 0
IsStopped a session t =
    ((t.rules ≡ none) ⊎ (a.destroys.list ≡ fails))
    × (t.world.lock_file ≡ no_lock)
    × (t.world.marker ≡ stopping session)

-- A stop that is cut short leaves the table in place, if it was there, or else no lock, unless that
-- cannot be unlinked.
abbrev pub IsCutShort : Outside → Bool → Machine → Type 0
IsCutShort a had t = (is_some t.rules ≡ had) ⊎ (t.world.lock_file ≡ no_lock) ⊎ (a.unlinks ≡ false)

pub is_some-insert_into :
    (f : List Rule → List Rule) (k : Kernel) → is_some (insert_into f k) ≡ is_some k
is_some-insert_into f none = refl
is_some-insert_into f (some chains) = refl

pub Ending-cases : (e : Ending) → (e ≡ returned) ⊎ (e ≡ firewall_error) ⊎ (e ≡ other_error)
Ending-cases e = ground arith

module _ (keys : Keys) (a : Outside) (session : String) (had : Bool) where
  abbrev IsHeld : Machine → Type 0
  IsHeld t = (t.world.marker ≡ stopping session) × (is_some t.rules ≡ had)

  abbrev Keeps : M (Unit {0}) → Type 0
  Keeps m =
      (s : Machine) → IsHeld s → Ends (Const IsHeld) (IsStopped a session) (IsCutShort a had) (m s)

  then-Keeps : (m k : M (Unit {0})) → Keeps m → Keeps k → Keeps (m >> k)
  then-Keeps m k h l s held =
      bind-Ends (Const IsHeld) (Const IsHeld) (IsStopped a session) (IsCutShort a had) m (λ _. k) s
        (h s held) (λ _. l)

  call-Keeps : (c : Step) (works : Bool) → Keeps (call c works)
  call-Keeps c true s h = h
  call-Keeps c false s h = inl h.1

  unless_external-Keeps : (m : M (Unit {0})) → Keeps m → Keeps (unless_external keys a m)
  unless_external-Keeps m h s held = elim (Bool-cases keys.external_daemon) [
    | inl e ↦ rw e held
    | inr e ↦ rw e (h s held)
  ]

  end_tor-Keeps : Keeps (end_tor keys a)
  end_tor-Keeps =
      then-Keeps _ _ (call-Keeps shuts_down_tor a.shuts_down)
        (then-Keeps _ _ (call-Keeps stops_tor a.stops) (call-Keeps unlabels_ports a.unlabels))

  lock_down-Keeps : Keeps (lock_down keys a)
  unfolding lock_down
  lock_down-Keeps s (m, h) = (m, rw (is_some-insert_into _ s.rules) h)

  slaughter-Keeps : Keeps (slaughter keys a)
  unfolding slaughter
  slaughter-Keeps s (m, h) = (m, rw (is_some-insert_into _ s.rules) h)

  flush_connections-Keeps : (c : Option Call) → Keeps (flush_connections keys a c)
  flush_connections-Keeps none s h = h
  flush_connections-Keeps (some succeeds) s h = h
  flush_connections-Keeps (some fails) s h = h
  flush_connections-Keeps (some raises) s h = inl h.1

  tear_down-Keeps : Keeps (tear_down keys a)
  unfolding tear_down
  tear_down-Keeps =
      then-Keeps _ _ (unless_external-Keeps (stop_watchdog keys a) (call-Keeps stops_watchdog true))
        (then-Keeps _ _ lock_down-Keeps (
          then-Keeps _ _ (unless_external-Keeps (end_tor keys a) end_tor-Keeps)
            (then-Keeps _ _ slaughter-Keeps (flush_connections-Keeps a.conntrack))))

  remove-Ends :
      (s : Machine)
      → IsHeld s
      → Ends
          (Const (IsStopped a session))
          (IsStopped a session)
          (IsCutShort a had)
          (remove keys a s)
  unfolding remove destroy unlink delete_lock
  remove-Ends s h = elim (Bool-cases a.unlinks) [
    | inr stays ↦ rw stays (inr (inr refl))
    | inl unlinks ↦ elim (Ending-cases (destroy_rules a.destroys s.rules).ending) [
      | inl e ↦ rw (e, unlinks) (destroy_rules-unlisted a.destroys s.rules e, refl, h.0)
      | inr (inl e) ↦ rw (e, unlinks) (inr (inl refl))
      | inr (inr e) ↦ rw (e, unlinks) (inr (inl refl))
    ]
  ]

  as_exit-Ends :
      (n : ℕ) (s : Machine)
      → IsStopped a session s
      → Ends
          (Const (IsStopped a session))
          (IsStopped a session)
          (IsCutShort a had)
          (as_exit keys a n s)
  as_exit-Ends zero s h = h
  as_exit-Ends (suc n) s h = h

  leave_with-Ends :
      (r : Option Result) (s : Machine)
      → IsStopped a session s
      → Ends
          (Const (IsStopped a session))
          (IsStopped a session)
          (IsCutShort a had)
          (leave_with keys a r s)
  leave_with-Ends none s h = inr (inl h.1)
  leave_with-Ends (some r) s h = as_exit-Ends (to_int (exit_code r)) s h

  marked-Ends :
      (m : Marking) (w : Option World) (s : Machine)
      → ((x : World) → w ≡ some x → x.marker ≡ stopping session)
      → is_some s.rules ≡ had
      → Ends (Const IsHeld) (IsStopped a session) (IsCutShort a had) (marked keys a m w s)
  marked-Ends unprepared w s marks h = inl h
  marked-Ends half_written none s marks h = inl h
  marked-Ends half_written (some x) s marks h = inl h
  marked-Ends written none s marks h = inl h
  marked-Ends written (some x) s marks h = (marks x refl, h)

  mark-Ends :
      (lock : Lock) (s : Machine)
      → identity lock.session_id ≡ some session
      → is_some s.rules ≡ had
      → Ends (Const IsHeld) (IsStopped a session) (IsCutShort a had) (mark keys a lock s)
  unfolding mark
  mark-Ends lock s named h =
      rw (named, mark)
        (marked-Ends a.marks (mark_stopping lock s.world) s
          (λ x. marker-mark_stopping lock session s.world x (identity-eq _ session named)) h)

  stop_session-Ends :
      (lock : Lock) (s : Machine)
      → identity lock.session_id ≡ some session
      → is_some s.rules ≡ had
      → (file : LockFile) → file ≡ locked lock
      → Ends
          (Const (IsStopped a session))
          (IsStopped a session)
          (IsCutShort a had)
          (stop_session keys a file s)
  unfolding finish
  stop_session-Ends lock s named h file is = rw is (
      let S = IsStopped a session in
      let R = IsCutShort a had in
      bind-Ends (Const IsHeld) (Const S) S R (mark keys a lock) _ s (mark-Ends lock s named h)
        (λ _ t k.
          bind-Ends (Const IsHeld) (Const S) S R (tear_down keys a) _ t (tear_down-Keeps t k)
            (λ _ u l.
              bind-Ends (Const S) (Const S) S R (remove keys a) _ u (remove-Ends u l)
                (λ _ v m. leave_with-Ends a.finished _ m))))

-- However a stop ends, of a session that the lock names. If it goes on or leaves with an exit code, the
-- lock is gone, the marker names the session, and the table is gone or nft fails to list it. If it
-- raises, the table is still there if it was, or the lock is gone, or the lock cannot be unlinked.
pub do_stop-Ends :
    (keys : Keys) (a : Outside) (lock : Lock) (session : String) (s : Machine)
    → s.world.lock_file ≡ locked lock
    → identity lock.session_id ≡ some session
    → Ends
        (Const (IsStopped a session))
        (IsStopped a session)
        (IsCutShort a (is_some s.rules))
        (do_stop keys a s)
unfolding do_stop
do_stop-Ends keys a lock session s file named =
    stop_session-Ends keys a session _ lock s named refl s.world.lock_file file
