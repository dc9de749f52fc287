-- ===== src/Firewall/Builder.antt =====
-- ttp/firewall/builder.py, `_build_ruleset`: the session's table, chain by chain, in the order of
-- the template. The template's comments are left out.
use transparent_tor_proxy.Base.{
  ℕ, String, Bool, not, Option, none, some, List, [], ◌∷◌, ◌++◌, if◌then◌else◌,
}
use transparent_tor_proxy.Firewall.Rule.{
  Match, skuid, skgid, cgroup, ip_daddr_not_localhost, ip6_daddr_not_localhost, ip_daddr_loopback,
  ip6_daddr_loopback, ip_daddr_not_loopback, ip_daddr_lan, ip6_daddr_lan, ip_daddr_doh,
  ip6_daddr_doh, daddr_local, nfproto_ipv6, udp_dport, tcp_dport, ip_protocol_tcp, l4proto_tcp,
  l4proto_tcp_udp, ct_direction_original, ct_original_dport, accept, drop, reject,
  reject_with_reset, dnat_ip, dnat_ip6, Rule, Chain, rule, counted,
}

-- The arguments of `_build_ruleset`.
pub record Config : Type 0 where
  pub tor_uid : ℕ
  pub transport_port : ℕ
  pub dns_port : ℕ
  pub ipv6_avail : Bool
  pub allow_root : Bool
  pub lan_bypass : Bool
  pub bypass_uids : Option (List ℕ)
  pub bypass_gids : Option (List ℕ)
  pub resolved_uid : Option ℕ
  pub cgroup_bypass : Bool

-- `if ids: for id in ids`
abbrev pub or_empty : Option (List ℕ) → List ℕ
or_empty none = []
or_empty (some ids) = ids

-- The text of a rule that is there only if the test holds.
abbrev pub when : Bool → Rule → List Rule
when b r = if b then r ∷ [] else []

unfoldable pub lan_rules : Config → List Rule
lan_rules c =
    if c.lan_bypass
    then rule (ip_daddr_lan ∷ []) accept ∷ when c.ipv6_avail (rule (ip6_daddr_lan ∷ []) accept)
    else []

unfoldable pub root_rule : Config → List Rule
root_rule c = when c.allow_root (rule (skuid 0 ∷ []) accept)

-- The loops that fill `bypass_rules_nat`; `owner` is `skuid` or `skgid`.
unfoldable pub bypass_nat_ids : (ℕ → Match) → Bool → List ℕ → List Rule
bypass_nat_ids owner ipv6 [] = []
bypass_nat_ids owner ipv6 (i ∷ ids) =
    rule (owner i ∷ ip_daddr_not_localhost ∷ []) accept
    ∷ (when ipv6 (rule (owner i ∷ ip6_daddr_not_localhost ∷ []) accept)
        ++ bypass_nat_ids owner ipv6 ids)

unfoldable pub bypass_rules_nat : Config → List Rule
unfolding bypass_nat_ids
bypass_rules_nat c =
    when c.cgroup_bypass (rule (cgroup ∷ []) accept)
    ++ (bypass_nat_ids skuid c.ipv6_avail (or_empty c.bypass_uids)
        ++ bypass_nat_ids skgid c.ipv6_avail (or_empty c.bypass_gids))

unfoldable pub bypass_filter_ids : (ℕ → Match) → List ℕ → List Rule
bypass_filter_ids owner [] = []
bypass_filter_ids owner (i ∷ ids) = rule (owner i ∷ []) accept ∷ bypass_filter_ids owner ids

unfoldable pub bypass_rules_filter : Config → List Rule
unfolding bypass_filter_ids
bypass_rules_filter c =
    when c.cgroup_bypass (rule (cgroup ∷ []) accept)
    ++ (bypass_filter_ids skuid (or_empty c.bypass_uids)
        ++ bypass_filter_ids skgid (or_empty c.bypass_gids))

abbrev resolved_drops : Option ℕ → Bool → List Rule
resolved_drops none ipv6 = []
resolved_drops (some uid) ipv6 =
    rule (skuid uid ∷ ip_daddr_not_localhost ∷ []) drop
    ∷ when ipv6 (rule (skuid uid ∷ ip6_daddr_not_localhost ∷ []) drop)

unfoldable pub resolved_rules : Config → List Rule
resolved_rules c = resolved_drops c.resolved_uid c.ipv6_avail

unfoldable pub loopback_rules : Config → List Rule
loopback_rules c =
    rule (ip_daddr_loopback ∷ []) accept ∷ when c.ipv6_avail (rule (ip6_daddr_loopback ∷ []) accept)

-- `dns_redirect_ipv4`, then `dns_redirect_ipv6`.
unfoldable pub dns_redirect : Config → List Rule
dns_redirect c =
    counted "dns_redirected" (udp_dport 53 ∷ []) (dnat_ip c.dns_port)
    ∷ counted "dns_redirected" (tcp_dport 53 ∷ []) (dnat_ip c.dns_port)
    ∷ (if c.ipv6_avail
        then counted "dns_redirected" (udp_dport 53 ∷ []) (dnat_ip6 c.dns_port)
          ∷ counted "dns_redirected" (tcp_dport 53 ∷ []) (dnat_ip6 c.dns_port)
          ∷ []
        else [])

unfoldable pub tcp_redirect : Config → List Rule
tcp_redirect c =
    counted "tcp_redirected" (ip_protocol_tcp ∷ []) (dnat_ip c.transport_port)
    ∷ when c.ipv6_avail (counted "tcp_redirected" (l4proto_tcp ∷ []) (dnat_ip6 c.transport_port))

unfoldable pub ipv6_leak_prevention : Config → List Rule
ipv6_leak_prevention c = when (not c.ipv6_avail) (rule (nfproto_ipv6 ∷ []) drop)

unfoldable pub unredirected_dns : Config → List Rule
unredirected_dns c =
    counted "dns_unredirected_rejected"
      (l4proto_tcp_udp ∷ ct_direction_original ∷ ct_original_dport 53 ∷ ip_daddr_not_loopback ∷ [])
      reject
    ∷ when c.ipv6_avail (
        counted "dns_unredirected_rejected"
          (l4proto_tcp_udp
            ∷ ct_direction_original
            ∷ ct_original_dport 53
            ∷ ip6_daddr_not_localhost
            ∷ [])
          reject)

unfoldable pub doh_rejects : Config → List Rule
doh_rejects c =
    counted "doh_rejected" (ip_daddr_doh ∷ tcp_dport 443 ∷ []) reject
    ∷ (when c.ipv6_avail (counted "doh_rejected" (ip6_daddr_doh ∷ tcp_dport 443 ∷ []) reject)
        ++ (counted "doh_rejected" (ip_daddr_doh ∷ udp_dport 443 ∷ []) reject
            ∷ when c.ipv6_avail
                (counted "doh_rejected" (ip6_daddr_doh ∷ udp_dport 443 ∷ []) reject)))

unfoldable pub prerouting : Config → Chain
prerouting c = record {
  name = "prerouting";
  hook = "type nat hook prerouting priority dstnat;";
  policy = accept;
  rules = dns_redirect c ++ (lan_rules c ++ tcp_redirect c);
}

-- The chain `output`, of type nat.
unfoldable pub nat_output : Config → Chain
nat_output c = record {
  name = "output";
  hook = "type nat hook output priority -150;";
  policy = accept;
  rules =
      rule (skuid c.tor_uid ∷ []) accept
      ∷ (bypass_rules_nat c
          ++ (dns_redirect c ++ (lan_rules c ++ (loopback_rules c ++ tcp_redirect c))));
}

-- Rule 4a of `filter_out` and all below it.
unfoldable pub filter_tail : Config → List Rule
unfolding doh_rejects
filter_tail c =
    rule (daddr_local ∷ []) accept
    ∷ counted "dot_rejected" (tcp_dport 853 ∷ []) reject
    ∷ (doh_rejects c
        ++ (counted "cleartext_rejected" (l4proto_tcp ∷ []) reject_with_reset
            ∷ counted "cleartext_rejected" [] reject
            ∷ []))

unfoldable pub filter_out : Config → Chain
filter_out c = record {
  name = "filter_out";
  hook = "type filter hook output priority filter;";
  policy = accept;
  rules =
      rule (skuid c.tor_uid ∷ []) accept
      ∷ (ipv6_leak_prevention c
          ++ (bypass_rules_filter c
              ++ (resolved_rules c
                  ++ (root_rule c
                      ++ (unredirected_dns c
                          ++ (lan_rules c ++ (loopback_rules c ++ filter_tail c)))))));
}

unfoldable pub filter_forward : Chain
filter_forward = record {
  name = "filter_forward";
  hook = "type filter hook forward priority filter;";
  policy = drop;
  rules = [];
}

-- The named counters and the chains of `table inet ttp`.
unfoldable pub counters : List String
counters =
    "dns_redirected" ∷ "tcp_redirected" ∷ "dot_rejected" ∷ "doh_rejected" ∷ "cleartext_rejected"
    ∷ "dns_unredirected_rejected" ∷ []

unfoldable pub build_ruleset : Config → List Chain
unfolding prerouting nat_output filter_out filter_forward dns_redirect lan_rules tcp_redirect
    bypass_rules_nat loopback_rules ipv6_leak_prevention bypass_rules_filter resolved_rules
    root_rule unredirected_dns filter_tail
build_ruleset c = prerouting c ∷ nat_output c ∷ filter_out c ∷ filter_forward ∷ []
