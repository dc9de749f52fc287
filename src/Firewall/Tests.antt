-- ===== src/Firewall/Tests.antt =====
-- Packets and listings on which the theorems about ttp/firewall are tried.
use transparent_tor_proxy.Base.{
  ◌≡◌, refl, ◌⊎◌, inl, true, false, none, some, List, [], ◌∷◌, String, arith, if◌then◌else◌,
  string_discrete,
}
use transparent_tor_proxy.Base.Int.{pos}
use transparent_tor_proxy.Base.Json.{Value, null, int, str, arr, obj, Items, nil, cons, end, field}
use transparent_tor_proxy.Firewall.Rule.{
  skuid, skuid_not, udp_dport, l4proto_tcp, l4proto_udp, oifname_not_lo, accept, drop, reject,
  reject_with_reset, dnat_ip, Rule, rule, rule_text, counted,
}
use transparent_tor_proxy.Firewall.Builder.{
  Config, bypass_filter_ids, bypass_rules_filter, ipv6_leak_prevention, resolved_rules, root_rule,
  unredirected_dns, lan_rules, nat_output, filter_out,
}
use transparent_tor_proxy.Firewall.Accepts.{Holds, IsBypassed, IsLoopback, IsLan}
use transparent_tor_proxy.Firewall.FilterOut.{MayLeave, filter_out-accept}
use transparent_tor_proxy.Firewall.NatOutput.{dnat, nat_output-dns, nat_output-tcp}
use transparent_tor_proxy.Firewall.Torified.{translated-accept}
use transparent_tor_proxy.Firewall.Emergency.{
  number, teardown_lockdown, socket_slaughter, teardown-judge,
}
use transparent_tor_proxy.Firewall.Samples.{
  Frame, tcp, udp, wan, lan, sample, sample-JudgesInOrder, sample-ReadsAddresses, sample-ReadsPorts,
  sample-Translates, to_localhost,
}
use transparent_tor_proxy.Firewall.Contract.{matches_emergency_contract}
use transparent_tor_proxy.Firewall.Contract.Count.{join, printed, rule_entry, matches-rule_entry}

redirect_text :
    rule_text (counted "dns_redirected" (udp_dport 53 ∷ []) (dnat_ip 9054))
    ≡ "udp dport 53 counter name \"dns_redirected\" dnat ip to 127.0.0.1:9054"
unfolding rule_text
redirect_text = refl

-- Tor is user 100, LAN traffic is bypassed and user 7 is exempt.
abbrev config : Config
config = record {
  tor_uid = 100;
  transport_port = 9041;
  dns_port = 9054;
  ipv6_avail = true;
  allow_root = false;
  lan_bypass = true;
  bypass_uids = some (7 ∷ []);
  bypass_gids = none;
  resolved_uid = none;
  cgroup_bypass = false;
}

abbrev to_lan : Frame
to_lan = record {
  v6 = false;
  uid = 1000;
  gid = 1000;
  in_slice = false;
  dest = lan;
  proto = tcp;
  dport = 22;
  asked_port = 22;
  is_first = true;
}

abbrev web : Frame
web = record to_lan { dest = wan; dport = 443; asked_port = 443 }

-- A question to a resolver on the LAN.
abbrev query : Frame
query = record to_lan { proto = udp; dport = 53; asked_port = 53 }

lan_accepted : sample.judge (filter_out config).policy (filter_out config).rules to_lan ≡ accept
unfolding filter_out ipv6_leak_prevention bypass_rules_filter bypass_filter_ids resolved_rules
    root_rule unredirected_dns lan_rules
lan_accepted = refl

-- DNS to the LAN is not accepted.
query_rejected : sample.judge (filter_out config).policy (filter_out config).rules query ≡ reject
unfolding filter_out ipv6_leak_prevention bypass_rules_filter bypass_filter_ids resolved_rules
    root_rule unredirected_dns
query_rejected = refl

filter_out-accept_example :
    Holds sample config to_lan (skuid 100)
    ⊎ ((true ≡ true) ⊎ (false ≡ false)) × MayLeave sample config to_lan
filter_out-accept_example =
    filter_out-accept sample config to_lan sample-JudgesInOrder sample-ReadsAddresses lan_accepted

not_exempt : (f : Frame) → f.uid ≡ 1000 → ¬ IsBypassed sample config f
not_exempt f e h = ground arith

nat_output-dns_example :
    sample.judge (nat_output config).policy (nat_output config).rules query
    ≡ dnat sample config query 9054
nat_output-dns_example =
    nat_output-dns sample config query sample-JudgesInOrder refl (not_exempt query refl) (inl refl)
      (inl refl)

web_wan : ¬ IsLan sample config web
web_wan h = ground arith

web_far : ¬ IsLoopback sample config web
web_far h = ground arith

nat_output-tcp_example :
    sample.judge (nat_output config).policy (nat_output config).rules web
    ≡ dnat sample config web 9041
nat_output-tcp_example =
    nat_output-tcp sample config web sample-JudgesInOrder sample-ReadsPorts refl
      (not_exempt web refl) refl refl refl web_wan web_far (inl refl)

translated-accept_example :
    sample.judge
      (filter_out config).policy
      (filter_out config).rules
      (to_localhost (dnat sample config web 9041) web)
    ≡ accept
translated-accept_example =
    translated-accept sample to_localhost config 9041 web sample-JudgesInOrder sample-ReadsAddresses
      sample-Translates (inl refl)

abbrev accept_all : List Rule
accept_all = rule [] accept ∷ []

abbrev locked_down : List Rule
locked_down = rule (skuid_not 100 ∷ oifname_not_lo ∷ []) drop ∷ accept_all

lockdown_made : teardown_lockdown true (number (pos 100)) accept_all ≡ some locked_down
unfolding teardown_lockdown
lockdown_made = refl

teardown-judge_example :
    (sample.judge accept locked_down web ≡ drop)
    × (sample.judge accept (socket_slaughter true true locked_down) web ≡ (
        if sample.holds l4proto_tcp web
        then reject_with_reset
        else if sample.holds l4proto_udp web
        then reject
        else drop))
teardown-judge_example =
    teardown-judge sample sample-JudgesInOrder web accept 100 accept_all locked_down lockdown_made
      refl refl

abbrev base_chain : String → String → Value
base_chain name hook = obj (
    field "chain"
      (obj (
        field "family" (str "inet") (
          field "table" (str "ttp") (
            field "name" (str name) (
              field "type" (str "filter") (
                field "hook" (str hook)
                  (field "prio" (int (pos 0)) (field "policy" (str "drop") end))))))))
      end)

abbrev loopback_rule : String → String → Value
loopback_rule chain direction = obj (
    field "family" (str "inet") (
      field "table" (str "ttp") (
        field "chain" (str chain) (
          field "expr"
            (arr (
              cons
                (obj (
                  field "match"
                    (obj (
                      field "op" (str "==") (
                        field "left"
                          (obj (field "meta" (obj (field "key" (str direction) end)) end))
                          (field "right" (str "lo") end))))
                    end))
                (cons (obj (field "accept" null end)) nil)))
            end))))

abbrev table_entry : Value
table_entry =
    obj (field "table" (obj (field "family" (str "inet") (field "name" (str "ttp") end))) end)

-- nft's listing of the emergency table, and its last rule.
abbrev first_entries : Items
first_entries = cons table_entry (
    cons (base_chain "filter_out" "output") (
      cons (base_chain "filter_forward" "forward") (
        cons (base_chain "filter_input" "input")
          (cons (rule_entry (loopback_rule "filter_out" "oifname")) nil))))

abbrev last_entry : Items
last_entry = cons (rule_entry (loopback_rule "filter_input" "iifname")) nil

contract_met : matches_emergency_contract (printed (join first_entries last_entry)) ≡ true
unfolding matches_emergency_contract string_discrete
contract_met = refl

matches-rule_entry_example : ¬ (
    (matches_emergency_contract (printed (join first_entries last_entry)) ≡ true)
    × (matches_emergency_contract (
          printed (
            join first_entries
              (cons (rule_entry (loopback_rule "filter_out" "oifname")) last_entry)))
        ≡ true))
matches-rule_entry_example =
    matches-rule_entry first_entries last_entry (loopback_rule "filter_out" "oifname")
