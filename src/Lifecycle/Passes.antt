-- ===== src/Lifecycle/Passes.antt =====
-- ttp/commands/lifecycle.py: whether the parts of `do_stop` go on.
use transparent_tor_proxy.Base.{
  ◌≡◌, refl, Bool, true, false, ◌&&◌, ◌||◌, not, ◌==◌, Option, none, some, is_some, arith, inl, inr,
  Bool-cases,
}
use transparent_tor_proxy.Evidence.{Result, exit_code, to_int}
use transparent_tor_proxy.Firewall.Runner.{Call, succeeds, fails, raises, Replies}
use transparent_tor_proxy.Lifecycle.{
  Machine, Ended, ok, exits, raised, M, ◌>>◌, continue_with, call, Step, Marking, written, Keys,
  Outside, lock_down, slaughter, unless_external, stop_watchdog, end_tor, stops_watchdog,
  shuts_down_tor, stops_tor, unlabels_ports, flush_connections, tear_down,
}
use transparent_tor_proxy.Lifecycle.Stopped.{is_some-insert_into}

-- Whether a part of a command goes on, with no exit code and no exception.
abbrev pub goes_on : Machine × Ended (Unit {0}) → Bool
goes_on p = elim p.1 [ ok _ ↦ true | exits _ ↦ false | raised ↦ false ]

-- What a stop needs of the calls it makes: the marker written; conntrack not raising; of nft's three
-- calls, where a table is there, a flush that does not raise, and a deletion that succeeds or, with the
-- table's listing, fails; and notifications that end without a diagnostic that counts.
abbrev pub is_written : Marking → Bool
is_written written = true
is_written _ = false

abbrev pub is_calm : Call → Bool
is_calm raises = false
is_calm _ = true

abbrev pub is_failure : Call → Bool
is_failure fails = true
is_failure _ = false

abbrev pub is_success : Call → Bool
is_success succeeds = true
is_success _ = false

abbrev pub flushes : Option Call → Bool
flushes none = true
flushes (some c) = is_calm c

abbrev pub destroys : Bool → Replies → Bool
destroys true r =
    is_calm r.flush && (is_success r.delete || (is_failure r.delete && is_failure r.list))
destroys false r = is_calm r.flush && (is_calm r.delete && is_calm r.list)

abbrev pub is_quiet : Option Result → Bool
is_quiet none = false
is_quiet (some r) = to_int (exit_code r) == 0

-- Whether a stop gets through: for a lock with or without an identity, with a table or without one.
abbrev pub gets_through : Keys → Outside → Bool → Bool → Bool
gets_through keys a named had =
    (not named || is_written a.marks)
    && (((keys.external_daemon || (a.shuts_down && (a.stops && a.unlabels))) && flushes a.conntrack)
        && ((destroys had a.destroys && a.unlinks) && is_quiet a.finished))

pub continue-goes_on :
    (p : Machine × Ended (Unit {0})) (k : M (Unit {0})) (b c : Bool)
    → goes_on p ≡ b
    → goes_on (k p.0) ≡ c
    → goes_on (continue_with p (λ _. k)) ≡ b && c
continue-goes_on (s, ok _) k b c h l = rw (← h) l
continue-goes_on (s, exits n) k b c h l = rw (← h) refl
continue-goes_on (s, raised) k b c h l = rw (← h) refl

continue-rules :
    (p : Machine × Ended (Unit {0})) (k : M (Unit {0})) (had : Bool)
    → is_some p.0.rules ≡ had
    → is_some (k p.0).0.rules ≡ had
    → is_some (continue_with p (λ _. k)).0.rules ≡ had
continue-rules (s, ok _) k had h l = l
continue-rules (s, exits n) k had h l = h
continue-rules (s, raised) k had h l = h

module _ (had : Bool) where
  -- The part goes on exactly if `b`, and neither makes the table nor takes it away.
  abbrev pub Passes : Bool → M (Unit {0}) → Type 0
  Passes b m =
      (s : Machine) → is_some s.rules ≡ had → (goes_on (m s) ≡ b) × (is_some (m s).0.rules ≡ had)

  -- The last parts, which may take it away.
  abbrev pub Gives : Bool → M (Unit {0}) → Type 0
  Gives b m = (s : Machine) → is_some s.rules ≡ had → goes_on (m s) ≡ b

  then-Passes :
      (m k : M (Unit {0})) (b c : Bool) → Passes b m → Passes c k → Passes (b && c) (m >> k)
  then-Passes m k b c f g s h =
      let first = f s h in
      let second = g (m s).0 first.1 in
      (continue-goes_on (m s) k b c first.0 second.0, continue-rules (m s) k had first.1 second.1)

  pub then-Gives :
      (m k : M (Unit {0})) (b c : Bool) → Passes b m → Gives c k → Gives (b && c) (m >> k)
  then-Gives m k b c f g s h =
      let first = f s h in continue-goes_on (m s) k b c first.0 (g (m s).0 first.1)

  call-Passes : (c : Step) (works : Bool) → Passes works (call c works)
  call-Passes c true s h = (refl, h)
  call-Passes c false s h = (refl, h)

  module _ (keys : Keys) (a : Outside) where
    end_tor-Passes : Passes (a.shuts_down && (a.stops && a.unlabels)) (end_tor keys a)
    end_tor-Passes =
        then-Passes (call shuts_down_tor a.shuts_down) _ a.shuts_down (a.stops && a.unlabels)
          (call-Passes shuts_down_tor a.shuts_down)
          (then-Passes (call stops_tor a.stops) _ a.stops a.unlabels (call-Passes stops_tor a.stops)
            (call-Passes unlabels_ports a.unlabels))

    unless_external-Passes :
        (m : M (Unit {0})) (b : Bool)
        → Passes b m
        → Passes (keys.external_daemon || b) (unless_external keys a m)
    unless_external-Passes m b f s h = elim (Bool-cases keys.external_daemon) [
      | inl e ↦ rw e (refl, h)
      | inr e ↦ rw e (f s h)
    ]

    lock_down-Passes : Passes true (lock_down keys a)
    unfolding lock_down
    lock_down-Passes s h = (refl, rw (is_some-insert_into _ s.rules) h)

    slaughter-Passes : Passes true (slaughter keys a)
    unfolding slaughter
    slaughter-Passes s h = (refl, rw (is_some-insert_into _ s.rules) h)

    flush_connections-Passes : (c : Option Call) → Passes (flushes c) (flush_connections keys a c)
    flush_connections-Passes none s h = (refl, h)
    flush_connections-Passes (some succeeds) s h = (refl, h)
    flush_connections-Passes (some fails) s h = (refl, h)
    flush_connections-Passes (some raises) s h = (refl, h)

    same-Passes : (m : M (Unit {0})) (b c : Bool) → b ≡ c → Passes b m → Passes c m
    same-Passes m b c e f s h = rw (← e) (f s h)

    pub tear_down-Passes :
        Passes
          ((keys.external_daemon || (a.shuts_down && (a.stops && a.unlabels)))
            && flushes a.conntrack)
          (tear_down keys a)
    unfolding tear_down
    tear_down-Passes =
        let ends : Bool = keys.external_daemon || (a.shuts_down && (a.stops && a.unlabels)) in
        same-Passes (tear_down keys a)
          ((keys.external_daemon || true) && (true && (ends && (true && flushes a.conntrack)))) _
          (ground arith)
          (then-Passes _ _ (keys.external_daemon || true) _
            (unless_external-Passes (stop_watchdog keys a) true (call-Passes stops_watchdog true))
            (then-Passes _ _ true _ lock_down-Passes (
              then-Passes _ _ ends _ (unless_external-Passes (end_tor keys a) _ end_tor-Passes)
                (then-Passes _ _ true _ slaughter-Passes (flush_connections-Passes a.conntrack)))))
