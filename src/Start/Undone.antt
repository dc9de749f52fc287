-- ===== src/Start/Undone.antt =====
-- ttp/commands/start.py: what the set-up leaves behind, for each way in which it ends.
use transparent_tor_proxy.Base.{
  ℕ, ◌∷◌, ◌≡◌, refl, inl, inr, Bool, true, false, some, none, Bool-cases,
}
use transparent_tor_proxy.Firewall.Builder.{build_ruleset}
use transparent_tor_proxy.Firewall.Runner.{
  Ending, returned, firewall_error, other_error, succeeds, destroy_rules, apply_rules, config_of,
  tor_uid_of,
}
use transparent_tor_proxy.Firewall.Runner.Rollback.{destroy_rules-gone, apply_rules-returned}
use transparent_tor_proxy.Session.World.{locked, no_marker}
use transparent_tor_proxy.Lifecycle.{
  stops_tor, restores_dns, Step, Machine, Ended, ◌>>◌, leave, call, Keys, Outside, unless_external,
  destroy,
}
use transparent_tor_proxy.Lifecycle.Rules.{Ends, Const, bind-Ends}
use transparent_tor_proxy.Lifecycle.Stopped.{Ending-cases}
use transparent_tor_proxy.Start.Setup.{
  Plan, Writing, published, unwritten, half_published, interrupted, take_back, after_rules,
  apply_firewall, find_interface, after_dns, undo_all, write_lock, set_up,
}

-- The session's table, as it was asked for.
abbrev pub IsApplied : Plan → Machine → Type 0
IsApplied p t =
    (uid : ℕ) × (tor_uid_of p.host p.wanted.tor_user ≡ some uid)
    × (t.rules ≡ some (build_ruleset (config_of p.host p.wanted uid)))

abbrev pub IsSetUp : Plan → Machine → Type 0
IsSetUp p t = IsApplied p t × (t.world.lock_file ≡ locked p.lock) × (t.world.marker ≡ no_marker)

abbrev pub HasNoTable : Machine → Type 0
HasNoTable t = t.rules ≡ none

abbrev pub Any : Machine → Type 0
Any t = Unit

module _ (keys : Keys) (a : Outside) (p : Plan) where
  abbrev Goes : (Machine → Type 0) → Machine × Ended (Unit {0}) → Type 0
  Goes P = Ends (Const P) HasNoTable Any

  call-Goes :
      (P : Machine → Type 0) (c : Step) (works : Bool) (t : Machine)
      → P (record t { steps = c ∷ t.steps })
      → Goes P (call c works t)
  call-Goes P c true t h = h
  call-Goes P c false t h = tt

  destroy-Goes : (t : Machine) → a.destroys.list ≡ succeeds → Goes HasNoTable (destroy keys a t)
  unfolding destroy
  destroy-Goes t lists = elim (Ending-cases (destroy_rules a.destroys t.rules).ending) [
    | inl e ↦ rw e (destroy_rules-gone a.destroys t.rules lists e)
    | inr (inl e) ↦ rw e tt
    | inr (inr e) ↦ rw e tt
  ]

  unless_external-Goes :
      (t : Machine) → Goes Any (unless_external keys a (call stops_tor a.stops) t)
  unless_external-Goes t = elim (Bool-cases keys.external_daemon) [
    | inl e ↦ rw e tt
    | inr e ↦ rw e (call-Goes Any stops_tor a.stops t tt)
  ]

  take_back-Goes :
      (t : Machine) → a.destroys.list ≡ succeeds → Goes HasNoTable (take_back keys a p t)
  unfolding take_back
  take_back-Goes t lists =
      bind-Ends (Const Any) (Const HasNoTable) HasNoTable Any
        (unless_external keys a (call stops_tor a.stops)) _ t (unless_external-Goes t)
        (λ _ u _. destroy-Goes u lists)

  give_up-Goes :
      (P : Machine → Type 0) (t : Machine)
      → a.destroys.list ≡ succeeds
      → Goes P ((take_back keys a p >> leave 1) t)
  give_up-Goes P t lists =
      bind-Ends (Const HasNoTable) (Const P) HasNoTable Any (take_back keys a p) _ t
        (take_back-Goes t lists) (λ _ _ h. h)

  undo_all-Goes :
      (P : Machine → Type 0) (t : Machine)
      → a.destroys.list ≡ succeeds
      → Goes P (undo_all keys a p t)
  undo_all-Goes P t lists =
      bind-Ends (Const HasNoTable) (Const P) HasNoTable Any (take_back keys a p) _ t
        (take_back-Goes t lists)
        (λ _ u h.
          bind-Ends (Const HasNoTable) (Const P) HasNoTable Any (call restores_dns a.restores)
            (λ _. leave 1) u (call-Goes HasNoTable restores_dns a.restores u h) (λ _ _ k. k))

  after_rules-Goes :
      (e : Ending) (t : Machine)
      → a.destroys.list ≡ succeeds
      → (e ≡ returned → IsApplied p t)
      → Goes (IsApplied p) (after_rules keys a p e t)
  after_rules-Goes returned t lists h = h refl
  after_rules-Goes firewall_error t lists h = give_up-Goes (IsApplied p) t lists
  after_rules-Goes other_error t lists h = tt

  apply_firewall-Goes :
      (t : Machine) → a.destroys.list ≡ succeeds → Goes (IsApplied p) (apply_firewall keys a p t)
  unfolding apply_firewall
  apply_firewall-Goes t lists =
      after_rules-Goes (apply_rules p.injection p.undo p.host p.wanted t.rules).ending _ lists
        (apply_rules-returned p.injection p.undo p.host p.wanted t.rules)

  find_interface-Goes :
      (b : Bool) (t : Machine) → IsApplied p t → Goes (IsApplied p) (find_interface keys a p b t)
  find_interface-Goes true t h = h
  find_interface-Goes false t h = tt

  after_dns-Goes :
      (b : Bool) (t : Machine)
      → a.destroys.list ≡ succeeds
      → IsApplied p t
      → Goes (IsApplied p) (after_dns keys a p b t)
  after_dns-Goes true t lists h = h
  after_dns-Goes false t lists h = give_up-Goes (IsApplied p) t lists

  write_lock-Goes :
      (w : Writing) (t : Machine)
      → a.destroys.list ≡ succeeds
      → IsApplied p t
      → Goes (IsSetUp p) (write_lock keys a p w t)
  write_lock-Goes published t lists h = (h, refl, refl)
  write_lock-Goes unwritten t lists h = undo_all-Goes (IsSetUp p) t lists
  write_lock-Goes half_published t lists h = undo_all-Goes (IsSetUp p) _ lists
  write_lock-Goes interrupted t lists h = tt

-- If the set-up of a session goes on, the table that was asked for is in the kernel, the lock is the
-- session's and no stop marker is left; if it leaves with an exit code, no table is left. nft can list
-- a table that is there. Of a set-up that raises nothing is said.
pub set_up-Ends :
    (keys : Keys) (a : Outside) (p : Plan) (s : Machine)
    → a.destroys.list ≡ succeeds
    → Ends (Const (IsSetUp p)) HasNoTable Any (set_up keys a p s)
unfolding set_up
set_up-Ends keys a p s lists =
    let A = IsApplied p in
    let S = Const (IsSetUp p) in
    bind-Ends (Const A) S HasNoTable Any (apply_firewall keys a p) _ s
      (apply_firewall-Goes keys a p s lists)
      (λ _ t h.
        bind-Ends (Const A) S HasNoTable Any (find_interface keys a p p.finds_interface) _ t
          (find_interface-Goes keys a p p.finds_interface t h)
          (λ _ u k.
            bind-Ends (Const A) S HasNoTable Any (after_dns keys a p p.sets_dns) _ u
              (after_dns-Goes keys a p p.sets_dns u lists k)
              (λ _ v l. write_lock-Goes keys a p p.writing v lists l)))
