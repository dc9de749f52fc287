-- ===== src/Firewall/Accepts.antt =====
-- What each group of rules of the session's table lets through. `Firewall.FilterOut` and
-- `Firewall.NatOutput` put the groups together.
use transparent_tor_proxy.Base.{
  ℕ, ◌≡◌, refl, sym, ◌∙◌, ◌⊎◌, inl, inr, Bool, true, false, ◌&&◌, Option, none, some, List, [], ◌∷◌,
  ◌++◌, arith,
}
use transparent_tor_proxy.Firewall.Rule.{
  Match, skuid, skgid, cgroup, ip_daddr_loopback, ip6_daddr_loopback, ip_daddr_lan, ip6_daddr_lan,
  daddr_local, nfproto_ipv6, l4proto_tcp_udp, ct_direction_original, ct_original_dport, Verdict,
  accept, Rule, rule,
}
use transparent_tor_proxy.Firewall.Builder.{
  Config, or_empty, bypass_filter_ids, bypass_rules_filter, resolved_rules, root_rule, lan_rules,
  loopback_rules, unredirected_dns, ipv6_leak_prevention, doh_rejects, filter_tail, when,
}
use transparent_tor_proxy.Firewall.Nft.{Nft, ReadsAddresses, first, or_else, first-append}

or_else-accept :
    (a b : Option Verdict)
    → or_else a b ≡ some accept
    → (a ≡ some accept) ⊎ (a ≡ none) × (b ≡ some accept)
or_else-accept none b h = inr (refl, h)
or_else-accept (some v) b h = inl h

-- A packet that a list of rules accepts is accepted by its first part, or passes that.
pub append-accept :
    (n : Nft) (k : n.Packet) (rs ss : List Rule)
    → first n (rs ++ ss) k ≡ some accept
    → (first n rs k ≡ some accept) ⊎ (first n rs k ≡ none) × (first n ss k ≡ some accept)
append-accept n k rs ss h = or_else-accept _ _ (sym (first-append n rs ss k) ∙ h)

pub append-none :
    (n : Nft) (k : n.Packet) (rs ss : List Rule) → first n (rs ++ ss) k ≡ none → first n ss k ≡ none
append-none n k rs ss h = ground (arith, first-append n rs ss k)

module _ (n : Nft) (c : Config) (k : n.Packet) where
  abbrev pub Holds : Match → Type 0
  Holds m = n.holds m k ≡ true

  -- The packet's socket belongs to one of the listed users, or groups.
  abbrev pub OwnedBy : (ℕ → Match) → List ℕ → Type 0
  OwnedBy owner [] = ⊥
  OwnedBy owner (i ∷ ids) = Holds (owner i) ⊎ OwnedBy owner ids

  -- The packet comes from a process that the session's options exempt.
  abbrev pub IsBypassed : Type 0
  IsBypassed =
      (c.cgroup_bypass ≡ true) × Holds cgroup
      ⊎ OwnedBy skuid (or_empty c.bypass_uids)
      ⊎ OwnedBy skgid (or_empty c.bypass_gids)

  abbrev pub IsLoopback : Type 0
  IsLoopback = Holds ip_daddr_loopback ⊎ Holds ip6_daddr_loopback

  abbrev pub IsLan : Type 0
  IsLan = (c.lan_bypass ≡ true) × (Holds ip_daddr_lan ⊎ Holds ip6_daddr_lan)

  -- The first packets of a connection to port 53, whatever address translation made of it.
  abbrev pub is_dns : Bool
  is_dns =
      n.holds l4proto_tcp_udp k
      && (n.holds ct_direction_original k && n.holds (ct_original_dport 53) k)

  pub first-ipv6-ne-accept : first n (ipv6_leak_prevention c) k ≡ some accept → ⊥
  unfolding first ipv6_leak_prevention
  first-ipv6-ne-accept h = ground arith

  pub first-ipv6-none :
      first n (ipv6_leak_prevention c) k ≡ none
      → (c.ipv6_avail ≡ true) ⊎ (n.holds nfproto_ipv6 k ≡ false)
  unfolding first ipv6_leak_prevention
  first-ipv6-none h = ground arith

  filter_ids-accept :
      (owner : ℕ → Match) (ids : List ℕ)
      → first n (bypass_filter_ids owner ids) k ≡ some accept
      → OwnedBy owner ids
  unfolding first bypass_filter_ids
  filter_ids-accept owner [] h = cc
  filter_ids-accept owner (i ∷ ids) h = ground (arith, filter_ids-accept owner ids)

  cgroup-accept :
      first n (when c.cgroup_bypass (rule (cgroup ∷ []) accept)) k ≡ some accept
      → (c.cgroup_bypass ≡ true) × Holds cgroup
  unfolding first
  cgroup-accept h = ground arith

  pub bypass_filter-accept : first n (bypass_rules_filter c) k ≡ some accept → IsBypassed
  unfolding bypass_rules_filter
  bypass_filter-accept h = ground (
    arith,
    cgroup-accept,
    filter_ids-accept skuid (or_empty c.bypass_uids),
    filter_ids-accept skgid (or_empty c.bypass_gids),
    first-append n (when c.cgroup_bypass (rule (cgroup ∷ []) accept))
        (bypass_filter_ids skuid (or_empty c.bypass_uids)
          ++ bypass_filter_ids skgid (or_empty c.bypass_gids))
        k,
    first-append n (bypass_filter_ids skuid (or_empty c.bypass_uids))
        (bypass_filter_ids skgid (or_empty c.bypass_gids)) k,
  )

  pub resolved-ne-accept : first n (resolved_rules c) k ≡ some accept → ⊥
  unfolding first resolved_rules
  resolved-ne-accept h = ground arith

  pub root-accept : first n (root_rule c) k ≡ some accept → (c.allow_root ≡ true) × Holds (skuid 0)
  unfolding first root_rule
  root-accept h = ground arith

  pub dns-ne-accept : first n (unredirected_dns c) k ≡ some accept → ⊥
  unfolding first unredirected_dns
  dns-ne-accept h = ground arith

  -- A packet that passes the rule on DNS is no DNS, or is headed for loopback.
  pub dns-none :
      ReadsAddresses n
      → (c.ipv6_avail ≡ true) ⊎ (n.holds nfproto_ipv6 k ≡ false)
      → first n (unredirected_dns c) k ≡ none
      → (is_dns ≡ false) ⊎ IsLoopback
  unfolding first unredirected_dns
  dns-none laws family h = ground (arith, laws.v4_not_loopback k, laws.v6_not_localhost k)

  pub lan-accept : first n (lan_rules c) k ≡ some accept → IsLan
  unfolding first lan_rules
  lan-accept h = ground arith

  pub loopback-accept : first n (loopback_rules c) k ≡ some accept → IsLoopback
  unfolding first loopback_rules
  loopback-accept h = ground arith

  doh-ne-accept : first n (doh_rejects c) k ≡ some accept → ⊥
  unfolding first doh_rejects
  doh-ne-accept h = ground arith

  pub tail-accept : first n (filter_tail c) k ≡ some accept → Holds daddr_local
  unfolding first filter_tail
  tail-accept h = ground arith

  pub tail-ne-none : first n (filter_tail c) k ≡ none → ⊥
  unfolding first filter_tail
  tail-ne-none h = ground arith
