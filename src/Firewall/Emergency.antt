-- ===== src/Firewall/Emergency.antt =====
-- ttp/firewall/emergency.py: the killswitch's table, and the rules that teardown inserts into a
-- session's `filter_out`.
use transparent_tor_proxy.Base.{
  ℕ, ◌≡◌, ◌∙◌, Bool, true, Option, none, some, List, [], ◌∷◌, arith, if◌then◌else◌,
}
use transparent_tor_proxy.Base.Int.{ℤ, pos, negsuc}
use transparent_tor_proxy.Firewall.Rule.{
  skuid_not, l4proto_tcp, l4proto_udp, oifname_lo, iifname_lo, oifname_not_lo, Verdict, accept,
  drop, reject, reject_with_reset, Rule, Chain, rule, anonymous,
}
use transparent_tor_proxy.Firewall.Nft.{Nft, JudgesInOrder, judge-first, first}

-- The chains of `apply_emergency_killswitch`.
unfoldable pub emergency_out : Chain
emergency_out = record {
  name = "filter_out";
  hook = "type filter hook output priority filter;";
  policy = drop;
  rules = rule (oifname_lo ∷ []) accept ∷ [];
}

unfoldable pub emergency_forward : Chain
emergency_forward = record {
  name = "filter_forward";
  hook = "type filter hook forward priority filter;";
  policy = drop;
  rules = [];
}

unfoldable pub emergency_input : Chain
emergency_input = record {
  name = "filter_input";
  hook = "type filter hook input priority filter;";
  policy = drop;
  rules = rule (iifname_lo ∷ []) accept ∷ [];
}

unfoldable pub emergency_ruleset : List Chain
unfolding emergency_out emergency_forward emergency_input
emergency_ruleset = emergency_out ∷ emergency_forward ∷ emergency_input ∷ []

-- The `tor_uid` that the session lock holds: a number, something that `int` refuses, or nothing.
pub data LockedUid : Type 0 where
  absent unreadable : LockedUid
  number : ℤ → LockedUid

-- The rule of `apply_teardown_lockdown`; `none` stands for its `ValueError`.
unfoldable pub lockdown_rule : LockedUid → Option Rule
lockdown_rule absent = some (rule (oifname_not_lo ∷ []) drop)
lockdown_rule unreadable = none
lockdown_rule (number (pos uid)) = some (rule (skuid_not uid ∷ oifname_not_lo ∷ []) drop)
lockdown_rule (number (negsuc _)) = none

-- `nft insert rule` puts a rule in front of the chain. The answers say which of the calls of nft
-- succeed; a failure is logged and changes nothing.
abbrev pub insert_if : Bool → Rule → List Rule → List Rule
insert_if done r rs = if done then r ∷ rs else rs

unfoldable pub teardown_lockdown : Bool → LockedUid → List Rule → Option (List Rule)
unfolding lockdown_rule
teardown_lockdown done uid rs = elim (lockdown_rule uid) [
  | none ↦ none
  | some r ↦ some (insert_if done r rs)
]

abbrev pub udp_slaughter : Rule
udp_slaughter = record { matches = l4proto_udp ∷ []; counter = anonymous; verdict = reject }

abbrev pub tcp_slaughter : Rule
tcp_slaughter = record {
  matches = l4proto_tcp ∷ [];
  counter = anonymous;
  verdict = reject_with_reset;
}

-- `apply_active_socket_slaughter`: the second call is not made after the first fails.
unfoldable pub socket_slaughter : Bool → Bool → List Rule → List Rule
socket_slaughter udp tcp rs = if udp then insert_if tcp tcp_slaughter (udp_slaughter ∷ rs) else rs

module _ (n : Nft) (order : JudgesInOrder n) (k : n.Packet) where
  -- In an emergency a packet leaves or arrives exactly if it does so on the loopback interface, and
  -- nothing is forwarded.
  pub emergency-judge :
      (n.judge emergency_out.policy emergency_out.rules k
        ≡ (if n.holds oifname_lo k then accept else drop))
      × (n.judge emergency_input.policy emergency_input.rules k
          ≡ (if n.holds iifname_lo k then accept else drop))
      × (n.judge emergency_forward.policy emergency_forward.rules k ≡ drop)
  unfolding emergency_out emergency_input emergency_forward first
  emergency-judge = (
    judge-first n order _ _ k ∙ ground arith,
    judge-first n order _ _ k ∙ ground arith,
    judge-first n order _ _ k,
  )

  -- Once the lockdown rule is in, on top of whatever rules, a packet that is not for loopback and not
  -- of the Tor user that the lock names is dropped. Once both rules of the slaughter are in too, its
  -- TCP is reset and its UDP rejected, and all else is still dropped.
  pub teardown-judge :
      (policy : Verdict) (uid : ℕ) (rs locked : List Rule)
      → teardown_lockdown true (number (pos uid)) rs ≡ some locked
      → n.holds oifname_not_lo k ≡ true
      → n.holds (skuid_not uid) k ≡ true
      → (n.judge policy locked k ≡ drop)
        × (n.judge policy (socket_slaughter true true locked) k ≡ (
            if n.holds l4proto_tcp k
            then reject_with_reset
            else if n.holds l4proto_udp k
            then reject
            else drop))
  unfolding teardown_lockdown socket_slaughter first
  teardown-judge policy uid rs locked h out other =
      (judge-first n order _ _ k ∙ ground arith, judge-first n order _ _ k ∙ ground arith)
