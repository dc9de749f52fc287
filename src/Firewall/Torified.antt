-- ===== src/Firewall/Torified.antt =====
-- A connection that nat output translated reaches Tor: `filter_out` lets the result through.
use transparent_tor_proxy.Base.{
  ℕ, ◌≡◌, refl, ◌∙◌, ◌⊎◌, inl, inr, true, false, none, some, List, [], ◌∷◌, ◌++◌, arith, Bool-cases,
}
use transparent_tor_proxy.Firewall.Rule.{
  Match, skuid, skgid, cgroup, ip_daddr_loopback, ip6_daddr_loopback, ip_daddr_not_localhost,
  nfproto_ipv6, Verdict, accept, dnat_ip, dnat_ip6, Rule, rule,
}
use transparent_tor_proxy.Firewall.Builder.{
  Config, or_empty, when, bypass_filter_ids, bypass_rules_filter, resolved_rules, root_rule,
  lan_rules, loopback_rules, unredirected_dns, ipv6_leak_prevention, filter_out, filter_tail,
}
use transparent_tor_proxy.Firewall.Nft.{
  Nft, JudgesInOrder, ReadsAddresses, judge-first, first, first-append,
}
use transparent_tor_proxy.Firewall.FilterOut.{local_on, bypass_on}
use transparent_tor_proxy.Firewall.NatOutput.{dnat}

-- The kernel's address translation: a packet translated to loopback is addressed to it, and keeps
-- its family.
pub record Translates (n : Nft) (translate : Verdict → n.Packet → n.Packet) : Type 0 where
  pub family_kept :
      (v : Verdict) (k : n.Packet) → n.holds nfproto_ipv6 (translate v k) ≡ n.holds nfproto_ipv6 k
  pub to_v4 :
      (port : ℕ) (k : n.Packet)
      → n.holds nfproto_ipv6 k ≡ false
      → (n.holds ip_daddr_loopback (translate (dnat_ip port) k) ≡ true)
        × (n.holds ip_daddr_not_localhost (translate (dnat_ip port) k) ≡ false)
  pub to_v6 :
      (port : ℕ) (k : n.Packet)
      → n.holds nfproto_ipv6 k ≡ true
      → (n.holds ip6_daddr_loopback (translate (dnat_ip6 port) k) ≡ true)
        × (n.holds ip_daddr_not_localhost (translate (dnat_ip6 port) k) ≡ false)

module _ (n : Nft) (c : Config) (k : n.Packet) where
  abbrev Clear : List Rule → Type 0
  Clear rs = (first n rs k ≡ none) ⊎ (first n rs k ≡ some accept)

  Clear-then :
      (rs ss : List Rule)
      → Clear rs
      → first n ss k ≡ some accept
      → first n (rs ++ ss) k ≡ some accept
  Clear-then rs ss clear h = ground (arith, first-append n rs ss k)

  ids-Clear : (owner : ℕ → Match) (ids : List ℕ) → Clear (bypass_filter_ids owner ids)
  unfolding first bypass_filter_ids
  ids-Clear owner [] = inl refl
  ids-Clear owner (i ∷ ids) = ground (arith, ids-Clear owner ids)

  cgroup-Clear : Clear (when c.cgroup_bypass (rule (cgroup ∷ []) accept))
  unfolding first
  cgroup-Clear = ground arith

  append-Clear : (rs ss : List Rule) → Clear rs → Clear ss → Clear (rs ++ ss)
  append-Clear rs ss clear h = ground (arith, first-append n rs ss k)

  bypass-Clear : Clear (bypass_rules_filter c)
  unfolding bypass_rules_filter
  bypass-Clear = append-Clear _ _ cgroup-Clear (
      append-Clear _ _ (ids-Clear skuid (or_empty c.bypass_uids))
        (ids-Clear skgid (or_empty c.bypass_gids)))

  root-Clear : Clear (root_rule c)
  unfolding first root_rule
  root-Clear = ground arith

  lan-Clear : Clear (lan_rules c)
  unfolding first lan_rules
  lan-Clear = ground arith

  -- What is so of a packet that was translated to the loopback address of its family.
  module _ (laws : ReadsAddresses n) (local : n.holds ip_daddr_not_localhost k ≡ false)
      (family : (n.holds nfproto_ipv6 k ≡ false) × (n.holds ip_daddr_loopback k ≡ true)
        ⊎ (n.holds nfproto_ipv6 k ≡ true)
          × (c.ipv6_avail ≡ true)
          × (n.holds ip6_daddr_loopback k ≡ true)) where
    resolved-Clear : Clear (resolved_rules c)
    unfolding first resolved_rules
    resolved-Clear = ground (arith, laws.v6_not_localhost k)

    ipv6-Clear : Clear (ipv6_leak_prevention c)
    unfolding first ipv6_leak_prevention
    ipv6-Clear = ground arith

    dns-Clear : Clear (unredirected_dns c)
    unfolding first unredirected_dns
    dns-Clear = ground (arith, laws.v6_not_localhost k, laws.v4_not_loopback k)

    loopback_accepts : first n (loopback_rules c) k ≡ some accept
    unfolding first loopback_rules
    loopback_accepts = ground arith

    local_accepts : first n (local_on c) k ≡ some accept
    local_accepts =
        ground (arith, first-append n (loopback_rules c) (filter_tail c) k, loopback_accepts)

    bypass_accepts : first n (bypass_on c) k ≡ some accept
    bypass_accepts = Clear-then (bypass_rules_filter c) _ bypass-Clear (
        Clear-then (resolved_rules c) _ resolved-Clear (
          Clear-then (root_rule c) _ root-Clear (
            Clear-then (unredirected_dns c) _ dns-Clear
              (Clear-then (lan_rules c) _ lan-Clear local_accepts))))

    filter_out_accepts : first n (filter_out c).rules k ≡ some accept
    unfolding first filter_out
    filter_out_accepts =
        ground (arith, Clear-then (ipv6_leak_prevention c) (bypass_on c) ipv6-Clear bypass_accepts)

-- Whatever nat output redirects, to the DNSPort or to the TransPort, `filter_out` accepts once it is
-- translated, unless it is IPv6 on a host without IPv6: no session option blocks the way to Tor.
pub translated-accept :
    (n : Nft) (translate : Verdict → n.Packet → n.Packet) (c : Config) (port : ℕ) (k : n.Packet)
    → JudgesInOrder n
    → ReadsAddresses n
    → Translates n translate
    → (c.ipv6_avail ≡ true) ⊎ (n.holds nfproto_ipv6 k ≡ false)
    → n.judge (filter_out c).policy (filter_out c).rules (translate (dnat n c k port) k) ≡ accept
translated-accept n translate c port k order laws t family =
    elim (Bool-cases (n.holds nfproto_ipv6 k)) [
      | inl v6 ↦
          let (local, near) = t.to_v6 port k v6 in
          rw v6 (
            judge-first n order _ _ _
            ∙ rw (
                filter_out_accepts n c (translate (dnat_ip6 port) k) laws near
                  (inr (t.family_kept _ k ∙ v6, ground arith, local))))
      | inr v4 ↦
          let (local, near) = t.to_v4 port k v4 in
          rw v4 (
            judge-first n order _ _ _
            ∙ rw (
                filter_out_accepts n c (translate (dnat_ip port) k) laws near
                  (inl (t.family_kept _ k ∙ v4, local))))
    ]
