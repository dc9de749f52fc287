-- ===== src/Lifecycle/Restored.antt =====
-- What `ttp stop --restore-only` leaves behind.
use transparent_tor_proxy.Base.{
  ◌≡◌, refl, ◌⊎◌, inl, inr, Bool, true, false, Option, none, some, Bool-cases, if◌then◌else◌,
}
use transparent_tor_proxy.Evidence.{Result}
use transparent_tor_proxy.Firewall.Runner.{succeeds, destroy_rules}
use transparent_tor_proxy.Firewall.Runner.Rollback.{destroy_rules-gone}
use transparent_tor_proxy.Session.World.{no_lock, stopping, delete_lock}
use transparent_tor_proxy.Lifecycle.{
  Machine, Ended, call, pure, Step, shuts_down_tor, stops_tor, unlabels_ports, restores_dns, Keys,
  Outside, stop_watchdog, destroy, unlink, leave_always,
}
use transparent_tor_proxy.Lifecycle.Commands.{
  mark_all, has_lock, farewell, restore_all, restore_only, stop_command,
}
use transparent_tor_proxy.Lifecycle.Rules.{Ends, Const, bind-Ends}
use transparent_tor_proxy.Lifecycle.Stopped.{Ending-cases}

-- No table, no lock, and the marker that stops every session.
abbrev pub IsRestored : Machine → Type 0
IsRestored t = (t.rules ≡ none) × (t.world.lock_file ≡ no_lock) × (t.world.marker ≡ stopping "*")

-- Nothing is undone before the marker is written.
abbrev pub IsUntouched : Machine → Machine → Type 0
IsUntouched s t = (t ≡ s) ⊎ (t.world.marker ≡ stopping "*")

abbrev pub Never : {A : Type 0} → A → Machine → Type 0
Never a t = ⊥

module _ (keys : Keys) (a : Outside) (s : Machine) where
  abbrev IsMarked : Machine → Type 0
  IsMarked t = t.world.marker ≡ stopping "*"

  abbrev IsRemoved : Machine → Type 0
  IsRemoved t = IsMarked t × (t.rules ≡ none)

  -- From a state in which the marker is written, a part comes to `P`, or leaves a restored network.
  abbrev Goes : (P : Machine → Type 0) → Machine × Ended (Unit {0}) → Type 0
  Goes P = Ends (Const P) IsRestored (IsUntouched s)

  call-IsMarked :
      (c : Step) (works : Bool) (t : Machine) → IsMarked t → Goes IsMarked (call c works t)
  call-IsMarked c true t h = h
  call-IsMarked c false t h = inr h

  call-IsRemoved :
      (c : Step) (works : Bool) (t : Machine) → IsRemoved t → Goes IsRemoved (call c works t)
  call-IsRemoved c true t h = h
  call-IsRemoved c false t h = inr h.0

  destroy-IsRemoved :
      (t : Machine) → a.destroys.list ≡ succeeds → IsMarked t → Goes IsRemoved (destroy keys a t)
  unfolding destroy
  destroy-IsRemoved t lists h = elim (Ending-cases (destroy_rules a.destroys t.rules).ending) [
    | inl e ↦ rw e (h, destroy_rules-gone a.destroys t.rules lists e)
    | inr (inl e) ↦ rw e (inr h)
    | inr (inr e) ↦ rw e (inr h)
  ]

  unlink-IsRestored : (t : Machine) → IsRemoved t → Goes IsRestored (unlink keys a t)
  unfolding unlink delete_lock
  unlink-IsRestored t (m, r) = elim (Bool-cases a.unlinks) [
    | inl e ↦ rw e (r, refl, m)
    | inr e ↦ rw e (inr m)
  ]

  leave_always-Ends :
      (r : Option Result) (t : Machine)
      → IsRestored t
      → Ends Never IsRestored (IsUntouched s) (leave_always keys a r t)
  leave_always-Ends none t h = inr h.2
  leave_always-Ends (some r) t h = h

  farewell-Ends :
      (lock : Bool) (t : Machine)
      → IsRestored t
      → Ends Never IsRestored (IsUntouched s) (farewell keys a lock t)
  farewell-Ends false t h = h
  farewell-Ends true t h = leave_always-Ends a.finished _ h

  unlabel-IsRemoved :
      (lock : Bool) (t : Machine)
      → IsRemoved t
      → Goes IsRemoved ((if lock then call unlabels_ports a.unlabels else pure tt) t)
  unlabel-IsRemoved true t h = call-IsRemoved unlabels_ports a.unlabels t h
  unlabel-IsRemoved false t h = h

  restore_all-Ends :
      (lock : Bool) (t : Machine)
      → IsRemoved t
      → Ends Never IsRestored (IsUntouched s) (restore_all keys a lock t)
  unfolding restore_all
  restore_all-Ends lock t h =
      let E = IsRestored in
      let R = IsUntouched s in
      bind-Ends (Const IsRemoved) Never E R
        (if lock then call unlabels_ports a.unlabels else pure tt) _ t (unlabel-IsRemoved lock t h)
        (λ _ u k.
          bind-Ends (Const IsRemoved) Never E R (call restores_dns a.restores) _ u
            (call-IsRemoved restores_dns a.restores u k)
            (λ _ v l.
              bind-Ends (Const IsRestored) Never E R (unlink keys a) _ v (unlink-IsRestored v l)
                (λ _. farewell-Ends lock)))

  mark_all-IsMarked : Goes IsMarked (mark_all keys a s)
  unfolding mark_all
  mark_all-IsMarked = elim (Bool-cases a.prepares) [ inl e ↦ rw e refl | inr e ↦ rw e (inl refl) ]

-- `ttp stop --restore-only` never goes on: it leaves with an exit code or raises. If it leaves, the
-- table is gone, the lock is gone and the marker stops every session; if it raises, either nothing was
-- changed or the marker is written, so nothing is undone before it is. nft can list a table that is
-- there.
pub restore_only-Ends :
    (keys : Keys) (a : Outside) (s : Machine)
    → a.destroys.list ≡ succeeds
    → Ends Never IsRestored (IsUntouched s) (stop_command keys a true s)
unfolding stop_command restore_only
restore_only-Ends keys a s lists =
    let E = IsRestored in
    let R = IsUntouched s in
    let Marked = IsMarked keys a s in
    bind-Ends (Const Marked) Never E R (mark_all keys a) _ s (mark_all-IsMarked keys a s) (λ _ t h.
      bind-Ends (Const Marked) Never E R (stop_watchdog keys a) _ t h (λ _ u i.
        bind-Ends (Const Marked) Never E R (call shuts_down_tor a.shuts_down) _ u
          (call-IsMarked keys a s shuts_down_tor a.shuts_down u i)
          (λ _ v j.
            bind-Ends (Const Marked) Never E R (call stops_tor a.stops) _ v
              (call-IsMarked keys a s stops_tor a.stops v j)
              (λ _ x k.
                bind-Ends (Const (IsRemoved keys a s)) Never E R (destroy keys a) _ x
                  (destroy-IsRemoved keys a s x lists k)
                  (λ _ y. restore_all-Ends keys a s (has_lock keys a y.world.lock_file) y)))))
