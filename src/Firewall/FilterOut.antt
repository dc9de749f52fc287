-- ===== src/Firewall/FilterOut.antt =====
-- The chain `filter_out`: what may leave the host while a session runs.
use transparent_tor_proxy.Base.{
  ◌≡◌, ◌⊎◌, inl, inr, true, false, none, some, List, ◌++◌, arith, Bool-cases,
}
use transparent_tor_proxy.Firewall.Rule.{skuid, daddr_local, nfproto_ipv6, accept, Rule}
use transparent_tor_proxy.Firewall.Builder.{
  Config, bypass_rules_filter, resolved_rules, root_rule, lan_rules, loopback_rules,
  unredirected_dns, ipv6_leak_prevention, filter_tail, filter_out,
}
use transparent_tor_proxy.Firewall.Nft.{Nft, JudgesInOrder, ReadsAddresses, judge-first, first}
use transparent_tor_proxy.Firewall.Accepts.{
  append-accept, append-none, Holds, IsBypassed, IsLoopback, IsLan, is_dns, first-ipv6-ne-accept,
  first-ipv6-none, bypass_filter-accept, resolved-ne-accept, root-accept, dns-ne-accept, dns-none,
  lan-accept, loopback-accept, tail-accept, tail-ne-none,
}

-- The rules of the chain from each group on.
abbrev pub local_on : Config → List Rule
local_on c = loopback_rules c ++ filter_tail c

abbrev pub lan_on : Config → List Rule
lan_on c = lan_rules c ++ local_on c

abbrev pub dns_on : Config → List Rule
dns_on c = unredirected_dns c ++ lan_on c

abbrev pub root_on : Config → List Rule
root_on c = root_rule c ++ dns_on c

abbrev pub bypass_on : Config → List Rule
bypass_on c = bypass_rules_filter c ++ (resolved_rules c ++ root_on c)

module _ (n : Nft) (c : Config) (k : n.Packet) where
  -- The reasons for which a packet that is not Tor's own may leave.
  pub data MayLeave : Type 0 where
    bypassed : IsBypassed n c k → MayLeave
    root : c.allow_root ≡ true → Holds n c k (skuid 0) → MayLeave
    to_loopback : IsLoopback n c k → MayLeave
    to_lan : is_dns n c k ≡ false → IsLan n c k → MayLeave
    to_self : is_dns n c k ≡ false → Holds n c k daddr_local → MayLeave

  from_local :
      (is_dns n c k ≡ false) ⊎ IsLoopback n c k → first n (local_on c) k ≡ some accept → MayLeave
  from_local dns h = elim (append-accept n k (loopback_rules c) (filter_tail c) h) [
    | inl a ↦ to_loopback (loopback-accept n c k a)
    | inr (_, a) ↦ elim dns [ inl d ↦ to_self d (tail-accept n c k a) | inr l ↦ to_loopback l ]
  ]

  from_lan :
      (is_dns n c k ≡ false) ⊎ IsLoopback n c k → first n (lan_on c) k ≡ some accept → MayLeave
  from_lan dns h = elim (append-accept n k (lan_rules c) _ h) [
    | inl a ↦ elim dns [ inl d ↦ to_lan d (lan-accept n c k a) | inr l ↦ to_loopback l ]
    | inr (_, a) ↦ from_local dns a
  ]

  from_dns :
      ReadsAddresses n
      → (c.ipv6_avail ≡ true) ⊎ (n.holds nfproto_ipv6 k ≡ false)
      → first n (dns_on c) k ≡ some accept
      → MayLeave
  from_dns laws family h = elim (append-accept n k (unredirected_dns c) _ h) [
    | inl a ↦ absurd (dns-ne-accept n c k a)
    | inr (passed, a) ↦ from_lan (dns-none n c k laws family passed) a
  ]

  from_root :
      ReadsAddresses n
      → (c.ipv6_avail ≡ true) ⊎ (n.holds nfproto_ipv6 k ≡ false)
      → first n (root_on c) k ≡ some accept
      → MayLeave
  from_root laws family h = elim (append-accept n k (root_rule c) _ h) [
    | inl a ↦ let (allowed, owned) = root-accept n c k a in root allowed owned
    | inr (_, a) ↦ from_dns laws family a
  ]

  from_bypass :
      ReadsAddresses n
      → (c.ipv6_avail ≡ true) ⊎ (n.holds nfproto_ipv6 k ≡ false)
      → first n (bypass_on c) k ≡ some accept
      → MayLeave
  from_bypass laws family h = elim (append-accept n k (bypass_rules_filter c) _ h) [
    | inl a ↦ bypassed (bypass_filter-accept n c k a)
    | inr (_, a) ↦ elim (append-accept n k (resolved_rules c) _ a) [
      | inl b ↦ absurd (resolved-ne-accept n c k b)
      | inr (_, b) ↦ from_root laws family b
    ]
  ]

  after_tor :
      ReadsAddresses n
      → n.holds (skuid c.tor_uid) k ≡ false
      → first n (filter_out c).rules k ≡ some accept
      → ((c.ipv6_avail ≡ true) ⊎ (n.holds nfproto_ipv6 k ≡ false)) × MayLeave
  unfolding filter_out first
  after_tor laws other h =
      elim (append-accept n k (ipv6_leak_prevention c) (bypass_on c) (ground arith)) [
        | inl a ↦ absurd (first-ipv6-ne-accept n c k a)
        | inr (passed, a) ↦
            let family = first-ipv6-none n c k passed in (family, from_bypass laws family a)
      ]

  filter_out-decides : first n (filter_out c).rules k ≡ none → ⊥
  unfolding filter_out first
  filter_out-decides h = tail-ne-none n c k (
      append-none n k (loopback_rules c) _ (
        append-none n k (lan_rules c) _ (
          append-none n k (unredirected_dns c) _ (
            append-none n k (root_rule c) _ (
              append-none n k (resolved_rules c) _ (
                append-none n k (bypass_rules_filter c) _
                  (append-none n k (ipv6_leak_prevention c) _ (ground arith))))))))

  -- Although its policy is to accept, the chain accepts a packet only if it is Tor's own, or else, as
  -- long as the packet is not IPv6 on a host without IPv6, for one of the reasons of `MayLeave`: an
  -- exempt process, root where that is allowed, loopback, a LAN address where LAN traffic is
  -- bypassed, or an address of the host; and for the last two the packet is no DNS.
  pub filter_out-accept :
      JudgesInOrder n
      → ReadsAddresses n
      → n.judge (filter_out c).policy (filter_out c).rules k ≡ accept
      → Holds n c k (skuid c.tor_uid)
        ⊎ ((c.ipv6_avail ≡ true) ⊎ (n.holds nfproto_ipv6 k ≡ false)) × MayLeave
  filter_out-accept order laws h = elim (Bool-cases (n.holds (skuid c.tor_uid) k)) [
    | inl own ↦ inl own
    | inr other ↦ inr (
        after_tor laws other (
          ground (
            arith,
            filter_out-decides,
            judge-first n order (filter_out c).policy (filter_out c).rules k,
          )))
  ]
