-- ===== src/Firewall/Rule.antt =====
-- The nft rules that ttp/firewall writes, and their text. A rule's matches, counter and verdict are
-- data here, so that the rules can be evaluated as well as printed.
use mathlib.Core.List.{foldr}
use transparent_tor_proxy.Base.{ℕ, String, ◌<>◌, List, [], ◌∷◌}
use transparent_tor_proxy.Base.Decimal.{decimal}

pub data Match : Type 0 where
  skuid skgid skuid_not : ℕ → Match
  cgroup : Match
  ip_daddr_not_localhost ip6_daddr_not_localhost : Match
  ip_daddr_loopback ip6_daddr_loopback ip_daddr_not_loopback : Match
  ip_daddr_lan ip6_daddr_lan ip_daddr_doh ip6_daddr_doh : Match
  daddr_local nfproto_ipv6 : Match
  udp_dport tcp_dport : ℕ → Match
  ip_protocol_tcp l4proto_tcp l4proto_udp l4proto_tcp_udp : Match
  ct_direction_original : Match
  ct_original_dport : ℕ → Match
  oifname_lo iifname_lo oifname_not_lo : Match

pub data Verdict : Type 0 where
  accept drop reject reject_with_reset : Verdict
  dnat_ip dnat_ip6 : ℕ → Verdict

pub data Counter : Type 0 where
  uncounted anonymous : Counter
  named : String → Counter

pub record Rule : Type 0 where
  pub matches : List Match
  pub counter : Counter
  pub verdict : Verdict

pub record Chain : Type 0 where
  pub name : String
  pub hook : String
  pub policy : Verdict
  pub rules : List Rule

abbrev pub lan_v4 : String
lan_v4 = "{ 10.0.0.0/8, 172.16.0.0/12, 192.168.0.0/16, 169.254.0.0/16 }"

abbrev pub lan_v6 : String
lan_v6 = "{ fc00::/7, fe80::/10 }"

-- `doh_ips_v4` and `doh_ips_v6`
abbrev pub doh_ips_v4 : String
doh_ips_v4 =
    "{ 1.1.1.1, 1.0.0.1, 8.8.8.8, 8.8.4.4, 9.9.9.9, 149.112.112.112, 208.67.222.222, 208.67.220.220 }"

abbrev pub doh_ips_v6 : String
doh_ips_v6 =
    "{ 2606:4700:4700::1111, 2606:4700:4700::1001, 2001:4860:4860::8888, 2001:4860:4860::8844, "
    <> "2620:fe::fe, 2620:fe::9, 2620:0:ccc::2, 2620:0:ccd::2 }"

unfoldable pub match_text : Match → String
match_text (skuid n) = "meta skuid " <> decimal n
match_text (skgid n) = "meta skgid " <> decimal n
match_text (skuid_not n) = "meta skuid != " <> decimal n
match_text cgroup = "socket cgroupv2 level 1 \"ttp-bypass.slice\""
match_text ip_daddr_not_localhost = "ip daddr != 127.0.0.1"
match_text ip6_daddr_not_localhost = "ip6 daddr != ::1"
match_text ip_daddr_loopback = "ip daddr 127.0.0.0/8"
match_text ip6_daddr_loopback = "ip6 daddr ::1"
match_text ip_daddr_not_loopback = "ip daddr != 127.0.0.0/8"
match_text ip_daddr_lan = "ip daddr " <> lan_v4
match_text ip6_daddr_lan = "ip6 daddr " <> lan_v6
match_text ip_daddr_doh = "ip daddr " <> doh_ips_v4
match_text ip6_daddr_doh = "ip6 daddr " <> doh_ips_v6
match_text daddr_local = "fib daddr type local"
match_text nfproto_ipv6 = "meta nfproto ipv6"
match_text (udp_dport n) = "udp dport " <> decimal n
match_text (tcp_dport n) = "tcp dport " <> decimal n
match_text ip_protocol_tcp = "ip protocol tcp"
match_text l4proto_tcp = "meta l4proto tcp"
match_text l4proto_udp = "meta l4proto udp"
match_text l4proto_tcp_udp = "meta l4proto { tcp, udp }"
match_text ct_direction_original = "ct direction original"
match_text (ct_original_dport n) = "ct original proto-dst " <> decimal n
match_text oifname_lo = "oifname \"lo\""
match_text iifname_lo = "iifname \"lo\""
match_text oifname_not_lo = "oifname != lo"

unfoldable pub verdict_text : Verdict → String
verdict_text accept = "accept"
verdict_text drop = "drop"
verdict_text reject = "reject"
verdict_text reject_with_reset = "reject with tcp reset"
verdict_text (dnat_ip port) = "dnat ip to 127.0.0.1:" <> decimal port
verdict_text (dnat_ip6 port) = "dnat ip6 to [::1]:" <> decimal port

unfoldable pub counter_text : Counter → String
counter_text uncounted = ""
counter_text anonymous = "counter "
counter_text (named c) = "counter name \"" <> c <> "\" "

unfoldable pub rule_text : Rule → String
unfolding match_text verdict_text counter_text decimal
rule_text r =
    foldr (λ m rest. match_text m <> " " <> rest) (counter_text r.counter <> verdict_text r.verdict)
      r.matches

-- A rule with no counter.
abbrev pub rule : List Match → Verdict → Rule
rule ms v = record { matches = ms; counter = uncounted; verdict = v }

abbrev pub counted : String → List Match → Verdict → Rule
counted c ms v = record { matches = ms; counter = named c; verdict = v }

-- The lines of a chain, without the comments.
unfoldable pub chain_lines : Chain → List String
unfolding rule_text
chain_lines c =
    ("chain " <> c.name <> " {")
    ∷ (c.hook <> " policy " <> verdict_text c.policy <> ";")
    ∷ foldr (λ r rest. rule_text r ∷ rest) ("}" ∷ []) c.rules
