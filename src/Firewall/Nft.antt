-- ===== src/Firewall/Nft.antt =====
-- What the program relies on of nftables, which is not part of it: how a packet is judged by the
-- rules of a base chain. The kernel is a parameter, with documented behaviour as its laws.
use transparent_tor_proxy.Base.{
  ℕ, ◌≡◌, refl, ◌∙◌, Bool, true, false, not, ◌&&◌, ◌||◌, Option, none, some, List, [], ◌∷◌, ◌++◌,
  all_of, arith, if◌then◌else◌,
}
use transparent_tor_proxy.Firewall.Rule.{
  Match, ip_daddr_not_localhost, ip6_daddr_not_localhost, ip_daddr_loopback, ip6_daddr_loopback,
  ip_daddr_not_loopback, ip_daddr_lan, ip6_daddr_lan, nfproto_ipv6, udp_dport, tcp_dport,
  ip_protocol_tcp, l4proto_tcp, l4proto_udp, l4proto_tcp_udp, Verdict, dnat_ip, dnat_ip6, Rule,
}

pub record Nft : Type 1 where
  pub Packet : Type 0
  -- Whether a packet satisfies one match of a rule.
  pub holds : Match → Packet → Bool
  -- The verdict of a base chain, from its policy and its rules.
  pub judge : Verdict → List Rule → Packet → Verdict

abbrev pub or_policy : Option Verdict → Verdict → Verdict
or_policy none policy = policy
or_policy (some v) policy = v

abbrev pub or_else : Option Verdict → Option Verdict → Option Verdict
or_else none w = w
or_else (some v) w = some v

module _ (n : Nft) where
  open n use {Packet, holds, judge}

  -- In a table of family inet a translation acts only on packets of its own family; for any other
  -- packet the rule is passed over.
  abbrev pub family_fits : Verdict → Packet → Bool
  family_fits (dnat_ip _) k = not (holds nfproto_ipv6 k)
  family_fits (dnat_ip6 _) k = holds nfproto_ipv6 k
  family_fits _ k = true

  abbrev pub applies : Rule → Packet → Bool
  applies r k = all_of (λ m. holds m k) r.matches && family_fits r.verdict k

  -- nft(8): the rules are tried in order, the first that applies ends the chain, and the policy
  -- decides a packet that no rule applies to.
  pub record JudgesInOrder : Type 0 where
    pub judge-nil : (policy : Verdict) (k : Packet) → judge policy [] k ≡ policy
    pub judge-cons :
        (policy : Verdict) (r : Rule) (rs : List Rule) (k : Packet)
        → judge policy (r ∷ rs) k ≡ (if applies r k then r.verdict else judge policy rs k)

  -- nft(8): `ip` and `ip6` expressions, negated ones too, hold only of packets of their family, and
  -- `!=` is the negation there.
  pub record ReadsAddresses : Type 0 where
    pub v4_loopback : (k : Packet) → holds ip_daddr_loopback k ≡ true → holds nfproto_ipv6 k ≡ false
    pub v4_lan : (k : Packet) → holds ip_daddr_lan k ≡ true → holds nfproto_ipv6 k ≡ false
    pub v6_loopback : (k : Packet) → holds ip6_daddr_loopback k ≡ true → holds nfproto_ipv6 k ≡ true
    pub v6_lan : (k : Packet) → holds ip6_daddr_lan k ≡ true → holds nfproto_ipv6 k ≡ true
    pub v4_not_loopback :
        (k : Packet)
        → holds ip_daddr_not_loopback k
          ≡ (not (holds nfproto_ipv6 k) && not (holds ip_daddr_loopback k))
    pub v6_not_localhost :
        (k : Packet)
        → holds ip6_daddr_not_localhost k
          ≡ (holds nfproto_ipv6 k && not (holds ip6_daddr_loopback k))
    -- `127.0.0.1` lies in `127.0.0.0/8`.
    pub v4_not_localhost :
        (k : Packet) → holds ip_daddr_not_loopback k ≡ true → holds ip_daddr_not_localhost k ≡ true

  -- The transport protocol and its ports.
  pub record ReadsPorts : Type 0 where
    pub udp_of_dport :
        (k : Packet) (p : ℕ) → holds (udp_dport p) k ≡ true → holds l4proto_udp k ≡ true
    pub tcp_of_dport :
        (k : Packet) (p : ℕ) → holds (tcp_dport p) k ≡ true → holds l4proto_tcp k ≡ true
    pub tcp_udp :
        (k : Packet) → holds l4proto_tcp_udp k ≡ (holds l4proto_tcp k || holds l4proto_udp k)
    pub ip_tcp :
        (k : Packet) → holds ip_protocol_tcp k ≡ (not (holds nfproto_ipv6 k) && holds l4proto_tcp k)

  -- The verdict of the first rule that applies, if any: what the laws make of `judge`.
  unfoldable pub first : List Rule → Packet → Option Verdict
  first [] k = none
  first (r ∷ rs) k = if applies r k then some r.verdict else first rs k

  pub judge-first :
      JudgesInOrder
      → (policy : Verdict) (rs : List Rule) (k : Packet)
      → judge policy rs k ≡ or_policy (first rs k) policy
  unfolding first
  judge-first laws policy [] k = laws.judge-nil policy k
  judge-first laws policy (r ∷ rs) k =
      laws.judge-cons policy r rs k ∙ ground (arith, judge-first laws policy rs k)

  pub first-append :
      (rs ss : List Rule) (k : Packet) → first (rs ++ ss) k ≡ or_else (first rs k) (first ss k)
  unfolding first
  first-append [] ss k = refl
  first-append (r ∷ rs) ss k = ground (arith, first-append rs ss k)
