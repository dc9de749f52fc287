-- ===== src/Firewall/Runner/Tests.antt =====
-- Runs of nft on which the application of rules is tried.
use transparent_tor_proxy.Firewall.Runner.Samples.{host, wanted}
use transparent_tor_proxy.Base.{◌≡◌, ◌≢◌, refl, ◌⊎◌, true, none, some, [], ◌∷◌}
use transparent_tor_proxy.Firewall.Builder.{build_ruleset}
use transparent_tor_proxy.Firewall.Emergency.{emergency_forward}
use transparent_tor_proxy.Firewall.Runner.{
  Kernel, succeeds, raises, fails, interrupted, returned, firewall_error, Replies, destroy_rules,
  config_of, apply_rules,
}
use transparent_tor_proxy.Firewall.Runner.Rollback.{apply_rules-all}

-- The flush fails.
abbrev replies : Replies
replies = record { flush = fails; delete = succeeds; list = succeeds }

abbrev old_table : Kernel
old_table = some (emergency_forward ∷ [])

not_raised : replies.flush ≢ raises
not_raised e = cc

old_table_destroyed : (destroy_rules replies old_table).ending ≡ returned
unfolding destroy_rules
old_table_destroyed = refl

-- The wait for nft ends after it committed.
apply_rules-all_example :
    ((apply_rules (interrupted true) replies host wanted old_table).ending ≡ returned)
      × ((apply_rules (interrupted true) replies host wanted old_table).kernel
          ≡ some (build_ruleset (config_of host wanted 107)))
    ⊎ ((apply_rules (interrupted true) replies host wanted old_table).ending ≡ firewall_error)
      × ((apply_rules (interrupted true) replies host wanted old_table).kernel ≡ none)
apply_rules-all_example =
    apply_rules-all (interrupted true) replies host wanted old_table 107 refl not_raised refl refl
