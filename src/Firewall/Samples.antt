-- ===== src/Firewall/Samples.antt =====
-- A small kernel that meets the assumptions on nftables, for the instances of the theorems.
use transparent_tor_proxy.Base.{
  ℕ, ◌≡◌, refl, Bool, true, false, not, ◌&&◌, ◌||◌, List, [], ◌∷◌, arith, ◌==◌, all_of,
  if◌then◌else◌,
}
use transparent_tor_proxy.Firewall.Rule.{
  Match, skuid, skgid, skuid_not, cgroup, ip_daddr_not_localhost, ip6_daddr_not_localhost,
  ip_daddr_loopback, ip6_daddr_loopback, ip_daddr_not_loopback, ip_daddr_lan, ip6_daddr_lan,
  ip_daddr_doh, ip6_daddr_doh, daddr_local, nfproto_ipv6, udp_dport, tcp_dport, ip_protocol_tcp,
  l4proto_tcp, l4proto_udp, l4proto_tcp_udp, ct_direction_original, ct_original_dport, oifname_lo,
  iifname_lo, oifname_not_lo, Verdict, dnat_ip, dnat_ip6, Rule,
}
use transparent_tor_proxy.Firewall.Nft.{Nft, JudgesInOrder, ReadsAddresses, ReadsPorts, family_fits}
use transparent_tor_proxy.Firewall.Torified.{Translates}

pub data Place : Type 0 where
  localhost loopback lan doh own wan : Place

abbrev is_localhost : Place → Bool
is_localhost localhost = true
is_localhost _ = false

abbrev is_loopback : Place → Bool
is_loopback localhost = true
is_loopback loopback = true
is_loopback _ = false

abbrev is_lan : Place → Bool
is_lan lan = true
is_lan _ = false

abbrev is_doh : Place → Bool
is_doh doh = true
is_doh _ = false

abbrev is_own : Place → Bool
is_own own = true
is_own p = is_loopback p

pub data Proto : Type 0 where
  tcp udp icmp : Proto

abbrev is_tcp : Proto → Bool
is_tcp tcp = true
is_tcp _ = false

abbrev is_udp : Proto → Bool
is_udp udp = true
is_udp _ = false

-- In IPv6 `localhost` is the only loopback address.
pub record Frame : Type 0 where
  pub v6 : Bool
  pub uid : ℕ
  pub gid : ℕ
  pub in_slice : Bool
  pub dest : Place
  pub proto : Proto
  pub dport : ℕ
  pub asked_port : ℕ
  pub is_first : Bool

abbrev pub frame_holds : Match → Frame → Bool
frame_holds (skuid i) f = f.uid == i
frame_holds (skgid i) f = f.gid == i
frame_holds (skuid_not i) f = not (f.uid == i)
frame_holds cgroup f = f.in_slice
frame_holds ip_daddr_not_localhost f = not f.v6 && not (is_localhost f.dest)
frame_holds ip6_daddr_not_localhost f = f.v6 && not (is_localhost f.dest)
frame_holds ip_daddr_loopback f = not f.v6 && is_loopback f.dest
frame_holds ip6_daddr_loopback f = f.v6 && is_localhost f.dest
frame_holds ip_daddr_not_loopback f = not f.v6 && not (is_loopback f.dest)
frame_holds ip_daddr_lan f = not f.v6 && is_lan f.dest
frame_holds ip6_daddr_lan f = f.v6 && is_lan f.dest
frame_holds ip_daddr_doh f = not f.v6 && is_doh f.dest
frame_holds ip6_daddr_doh f = f.v6 && is_doh f.dest
frame_holds daddr_local f = is_own f.dest
frame_holds nfproto_ipv6 f = f.v6
frame_holds (udp_dport p) f = is_udp f.proto && f.dport == p
frame_holds (tcp_dport p) f = is_tcp f.proto && f.dport == p
frame_holds ip_protocol_tcp f = not f.v6 && is_tcp f.proto
frame_holds l4proto_tcp f = is_tcp f.proto
frame_holds l4proto_udp f = is_udp f.proto
frame_holds l4proto_tcp_udp f = is_tcp f.proto || is_udp f.proto
frame_holds ct_direction_original f = f.is_first
frame_holds (ct_original_dport p) f = f.asked_port == p
frame_holds oifname_lo f = is_own f.dest
frame_holds iifname_lo f = is_own f.dest
frame_holds oifname_not_lo f = not (is_own f.dest)

abbrev frame_fits : Verdict → Frame → Bool
frame_fits (dnat_ip _) f = not f.v6
frame_fits (dnat_ip6 _) f = f.v6
frame_fits _ f = true

abbrev pub frame_judge : Verdict → List Rule → Frame → Verdict
frame_judge policy [] f = policy
frame_judge policy (r ∷ rs) f =
    if all_of (λ m. frame_holds m f) r.matches && frame_fits r.verdict f
    then r.verdict
    else frame_judge policy rs f

abbrev pub sample : Nft
sample = record { Packet = Frame; holds = frame_holds; judge = frame_judge }

frame_fits-eq :
    (r : Rule) (v : Verdict) (rest : Verdict) (f : Frame) (b : Bool)
    → (if b && frame_fits v f then r.verdict else rest)
      ≡ (if b && family_fits sample v f then r.verdict else rest)
frame_fits-eq r v rest f b = ground arith

pub sample-JudgesInOrder : JudgesInOrder sample
sample-JudgesInOrder = record {
  judge-nil = λ policy f. refl;
  judge-cons = λ policy r rs f.
      frame_fits-eq r r.verdict (frame_judge policy rs f) f
        (all_of (λ m. frame_holds m f) r.matches);
}

pub sample-ReadsAddresses : ReadsAddresses sample
sample-ReadsAddresses = record {
  v4_loopback = λ f h. ground arith;
  v4_lan = λ f h. ground arith;
  v6_loopback = λ f h. ground arith;
  v6_lan = λ f h. ground arith;
  v4_not_loopback = λ f. ground arith;
  v6_not_localhost = λ f. ground arith;
  v4_not_localhost = λ f h. ground arith;
}

pub sample-ReadsPorts : ReadsPorts sample
sample-ReadsPorts = record {
  udp_of_dport = λ f p h. ground arith;
  tcp_of_dport = λ f p h. ground arith;
  tcp_udp = λ f. ground arith;
  ip_tcp = λ f. ground arith;
}

abbrev pub to_localhost : Verdict → Frame → Frame
to_localhost (dnat_ip port) f = record f { dest = localhost; dport = port }
to_localhost (dnat_ip6 port) f = record f { dest = localhost; dport = port }
to_localhost _ f = f

family-kept : (v : Verdict) (f : Frame) → (to_localhost v f).v6 ≡ f.v6
family-kept v f = ground arith

pub sample-Translates : Translates sample to_localhost
sample-Translates = record {
  family_kept = family-kept;
  to_v4 = λ port f h. ground arith;
  to_v6 = λ port f h. ground arith;
}
