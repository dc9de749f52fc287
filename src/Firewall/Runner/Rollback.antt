-- ===== src/Firewall/Runner/Rollback.antt =====
-- What is in the kernel after the session's rules are applied, and after they are destroyed.
use transparent_tor_proxy.Base.{
  ◌≡◌, inr, Option-cases, ◌≢◌, refl, ◌⊎◌, inl, true, false, none, some, List, arith, ℕ,
}
use transparent_tor_proxy.Firewall.Rule.{Chain}
use transparent_tor_proxy.Firewall.Builder.{build_ruleset}
use transparent_tor_proxy.Firewall.Runner.{
  Kernel, succeeds, fails, raises, Injection, commits, refused, interrupted, returned,
  firewall_error, apply_table_atomically, Replies, destroy_rules, Host, Wanted, tor_uid_of,
  config_of, roll_back, apply_rules,
}

-- `destroy_rules` returns only if the table is gone, provided that nft can list a table that is
-- there, whatever the other two calls do.
pub destroy_rules-gone :
    (r : Replies) (k : Kernel)
    → r.list ≡ succeeds
    → (destroy_rules r k).ending ≡ returned
    → (destroy_rules r k).kernel ≡ none
unfolding destroy_rules
destroy_rules-gone r k lists h = ground arith

-- Without that, it may also take a table that nft fails to list for one that is gone.
pub destroy_rules-unlisted :
    (r : Replies) (k : Kernel)
    → (destroy_rules r k).ending ≡ returned
    → ((destroy_rules r k).kernel ≡ none) ⊎ (r.list ≡ fails)
unfolding destroy_rules
destroy_rules-unlisted r k h = ground arith

pub destroy_rules-returned :
    (r : Replies) (k : Kernel)
    → r.flush ≢ raises
    → r.delete ≡ succeeds
    → r.list ≡ succeeds
    → (destroy_rules r k).ending ≡ returned
unfolding destroy_rules
destroy_rules-returned r k ok works lists = ground arith

destroy_rules-works :
    (r : Replies) (k : Kernel)
    → r.flush ≢ raises
    → r.delete ≡ succeeds
    → r.list ≡ succeeds
    → ((destroy_rules r k).ending ≡ returned) × ((destroy_rules r k).kernel ≡ none)
destroy_rules-works r k ok works lists =
    let returns = destroy_rules-returned r k ok works lists in
    (returns, destroy_rules-gone r k lists returns)

roll_back-all :
    (i : Injection) (r : Replies) (chains : List Chain) (k : Kernel)
    → r.flush ≢ raises
    → r.delete ≡ succeeds
    → r.list ≡ succeeds
    → let done = roll_back r (apply_table_atomically i chains k) in
      (done.ending ≡ returned) × (done.kernel ≡ some chains)
      ⊎ (done.ending ≡ firewall_error) × (done.kernel ≡ none)
unfolding apply_table_atomically
roll_back-all commits r chains k ok works lists = inl (refl, refl)
roll_back-all refused r chains k ok works lists =
    ground (arith, destroy_rules-works r k ok works lists)
roll_back-all (interrupted true) r chains k ok works lists =
    ground (arith, destroy_rules-works r (some chains) ok works lists)
roll_back-all (interrupted false) r chains k ok works lists =
    ground (arith, destroy_rules-works r k ok works lists)

-- Applying the session's rules is all or nothing, however the injection ends: where Tor's user is
-- known, and nft can list and delete a table that is there and does not raise when it flushes it,
-- `apply_rules` either returns with exactly the table of `_build_ruleset` in the kernel, or raises a
-- `FirewallError` with no table there.
pub apply_rules-all :
    (i : Injection) (r : Replies) (h : Host) (w : Wanted) (k : Kernel) (uid : ℕ)
    → tor_uid_of h w.tor_user ≡ some uid
    → r.flush ≢ raises
    → r.delete ≡ succeeds
    → r.list ≡ succeeds
    → let done = apply_rules i r h w k in
      (done.ending ≡ returned) × (done.kernel ≡ some (build_ruleset (config_of h w uid)))
      ⊎ (done.ending ≡ firewall_error) × (done.kernel ≡ none)
unfolding apply_rules
apply_rules-all i r h w k uid user ok works lists =
    rw (user, apply_rules) (roll_back-all i r (build_ruleset (config_of h w uid)) k ok works lists)

roll_back-returned :
    (i : Injection) (r : Replies) (chains : List Chain) (k : Kernel)
    → (roll_back r (apply_table_atomically i chains k)).ending ≡ returned
    → (roll_back r (apply_table_atomically i chains k)).kernel ≡ some chains
unfolding apply_table_atomically
roll_back-returned commits r chains k h = refl
roll_back-returned refused r chains k h = ground (arith, h)
roll_back-returned (interrupted b) r chains k h = ground (arith, h)

-- Whenever `apply_rules` returns, the table that was built for Tor's user is in the kernel.
pub apply_rules-returned :
    (i : Injection) (r : Replies) (h : Host) (w : Wanted) (k : Kernel)
    → (apply_rules i r h w k).ending ≡ returned
    → (uid : ℕ) × (tor_uid_of h w.tor_user ≡ some uid)
      × ((apply_rules i r h w k).kernel ≡ some (build_ruleset (config_of h w uid)))
unfolding apply_rules
apply_rules-returned i r h w k e = elim (Option-cases (tor_uid_of h w.tor_user)) [
  | inl unknown ↦ absurd (never unknown e)
  | inr (uid, user) ↦ (
    uid,
    user,
    rw (user, apply_rules)
        (roll_back-returned i r (build_ruleset (config_of h w uid)) k
          (rw (user, apply_rules) at e)),
  )
]
  where
    never : tor_uid_of h w.tor_user ≡ none → (apply_rules i r h w k).ending ≡ returned → ⊥
    never unknown back =
        let other : firewall_error ≡ returned = rw (unknown, apply_rules) at back in
        ground (arith, other)
