-- ===== src/Firewall/NatOutput.antt =====
-- The nat chains `output` and `prerouting`: which traffic is redirected to Tor's ports.
use transparent_tor_proxy.Base.{
  ℕ, ◌≡◌, ◌∙◌, ◌⊎◌, inl, inr, true, false, none, some, List, [], ◌∷◌, ◌++◌, arith, if◌then◌else◌,
  Option-cases,
}
use transparent_tor_proxy.Firewall.Rule.{
  Match, skuid, skgid, cgroup, nfproto_ipv6, udp_dport, tcp_dport, l4proto_tcp, Verdict, accept,
  dnat_ip, dnat_ip6, rule,
}
use transparent_tor_proxy.Firewall.Builder.{
  Config, or_empty, when, bypass_nat_ids, bypass_rules_nat, lan_rules, loopback_rules, dns_redirect,
  tcp_redirect, nat_output,
}
use transparent_tor_proxy.Firewall.Nft.{
  Nft, JudgesInOrder, ReadsPorts, judge-first, first, first-append,
}
use transparent_tor_proxy.Firewall.Accepts.{Holds, OwnedBy, IsBypassed, IsLoopback, IsLan}

module _ (n : Nft) (c : Config) (k : n.Packet) where
  nat_ids-some :
      (owner : ℕ → Match) (ids : List ℕ) (v : Verdict)
      → first n (bypass_nat_ids owner c.ipv6_avail ids) k ≡ some v
      → OwnedBy n c k owner ids
  unfolding first bypass_nat_ids
  nat_ids-some owner [] v h = cc
  nat_ids-some owner (i ∷ ids) v h = ground (arith, nat_ids-some owner ids v)

  cgroup-some :
      (v : Verdict)
      → first n (when c.cgroup_bypass (rule (cgroup ∷ []) accept)) k ≡ some v
      → (c.cgroup_bypass ≡ true) × Holds n c k cgroup
  unfolding first
  cgroup-some v h = ground arith

  -- Only packets of exempt processes meet a bypass rule.
  bypass_nat-some : (v : Verdict) → first n (bypass_rules_nat c) k ≡ some v → IsBypassed n c k
  unfolding bypass_rules_nat
  bypass_nat-some v h = ground (
    arith,
    cgroup-some v,
    nat_ids-some skuid (or_empty c.bypass_uids) v,
    nat_ids-some skgid (or_empty c.bypass_gids) v,
    first-append n (when c.cgroup_bypass (rule (cgroup ∷ []) accept))
        (bypass_nat_ids skuid c.ipv6_avail (or_empty c.bypass_uids)
          ++ bypass_nat_ids skgid c.ipv6_avail (or_empty c.bypass_gids))
        k,
    first-append n (bypass_nat_ids skuid c.ipv6_avail (or_empty c.bypass_uids))
        (bypass_nat_ids skgid c.ipv6_avail (or_empty c.bypass_gids)) k,
  )

  bypass_nat-none : ¬ IsBypassed n c k → first n (bypass_rules_nat c) k ≡ none
  bypass_nat-none h = elim (Option-cases (first n (bypass_rules_nat c) k)) [
    | inl e ↦ e
    | inr (v, e) ↦ absurd (h (bypass_nat-some v e))
  ]

  -- The family's translation to a port.
  abbrev pub dnat : ℕ → Verdict
  dnat port = if n.holds nfproto_ipv6 k then dnat_ip6 port else dnat_ip port

  dns-some :
      Holds n c k (udp_dport 53) ⊎ Holds n c k (tcp_dport 53)
      → (c.ipv6_avail ≡ true) ⊎ (n.holds nfproto_ipv6 k ≡ false)
      → first n (dns_redirect c) k ≡ some (dnat c.dns_port)
  unfolding first dns_redirect
  dns-some h family = ground arith

  dns-none :
      n.holds (udp_dport 53) k ≡ false
      → n.holds (tcp_dport 53) k ≡ false
      → first n (dns_redirect c) k ≡ none
  unfolding first dns_redirect
  dns-none u t = ground arith

  lan-none : ¬ IsLan n c k → first n (lan_rules c) k ≡ none
  unfolding first lan_rules
  lan-none h = ground arith

  loopback-none : ¬ IsLoopback n c k → first n (loopback_rules c) k ≡ none
  unfolding first loopback_rules
  loopback-none h = ground arith

  tcp-some :
      ReadsPorts n
      → Holds n c k l4proto_tcp
      → (c.ipv6_avail ≡ true) ⊎ (n.holds nfproto_ipv6 k ≡ false)
      → first n (tcp_redirect c) k ≡ some (dnat c.transport_port)
  unfolding first tcp_redirect
  tcp-some ports t family = ground (arith, ports.ip_tcp k)

  after_bypass :
      n.holds (skuid c.tor_uid) k ≡ false
      → ¬ IsBypassed n c k
      → first n (nat_output c).rules k
        ≡ first n (dns_redirect c ++ (lan_rules c ++ (loopback_rules c ++ tcp_redirect c))) k
  unfolding nat_output first
  after_bypass other plain =
      rw other (first-append n (bypass_rules_nat c) _ k ∙ rw (bypass_nat-none plain))

  -- Local DNS traffic of a process that is neither Tor nor exempt goes to Tor's DNSPort, over UDP and
  -- TCP alike, and whether or not the resolver is on the LAN or on loopback: over IPv6 if the host has
  -- it, else all that is not IPv6.
  pub nat_output-dns :
      JudgesInOrder n
      → n.holds (skuid c.tor_uid) k ≡ false
      → ¬ IsBypassed n c k
      → Holds n c k (udp_dport 53) ⊎ Holds n c k (tcp_dport 53)
      → (c.ipv6_avail ≡ true) ⊎ (n.holds nfproto_ipv6 k ≡ false)
      → n.judge (nat_output c).policy (nat_output c).rules k ≡ dnat c.dns_port
  nat_output-dns order other plain dns family =
      judge-first n order _ _ k
      ∙ rw (after_bypass other plain) (rw (first-append n) (rw (dns-some dns family)))

  -- All other local TCP traffic of such a process, over IPv6 if the host has it and else if it is not
  -- IPv6, goes to Tor's TransPort, unless it is for loopback or, where LAN traffic is bypassed, for a
  -- LAN address.
  pub nat_output-tcp :
      JudgesInOrder n
      → ReadsPorts n
      → n.holds (skuid c.tor_uid) k ≡ false
      → ¬ IsBypassed n c k
      → n.holds (udp_dport 53) k ≡ false
      → n.holds (tcp_dport 53) k ≡ false
      → Holds n c k l4proto_tcp
      → ¬ IsLan n c k
      → ¬ IsLoopback n c k
      → (c.ipv6_avail ≡ true) ⊎ (n.holds nfproto_ipv6 k ≡ false)
      → n.judge (nat_output c).policy (nat_output c).rules k ≡ dnat c.transport_port
  nat_output-tcp order ports other plain udp tcp proto wan far family =
      judge-first n order _ _ k
      ∙ rw (after_bypass other plain) (
          rw (
            first-append n,
            dns-none udp tcp,
            first-append n,
            lan-none wan,
            first-append n,
            loopback-none far,
            tcp-some ports proto family,
          ))
