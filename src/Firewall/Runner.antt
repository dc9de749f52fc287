-- ===== src/Firewall/Runner.antt =====
-- ttp/firewall/runner.py, `_apply_table_atomically`, `apply_rules` and `destroy_rules`, and the
-- application in ttp/firewall/emergency.py. The kernel is the chains of `table inet ttp`, if it is
-- there; how each run of nft ends is an answer, with nft's documented effect on the table.
pub mod Rollback
pub mod Samples
mod Tests
use transparent_tor_proxy.Base.{
  ℕ, Bool, true, false, not, ◌&&◌, String, Option, none, some, List, [], ◌∷◌, map, if◌then◌else◌,
  is_some,
}
use transparent_tor_proxy.Firewall.Rule.{Chain}
use transparent_tor_proxy.Firewall.Builder.{Config, build_ruleset}
use transparent_tor_proxy.Firewall.Emergency.{emergency_ruleset}

abbrev pub Kernel : Type 0
Kernel = Option (List Chain)

-- A run of nft: its exit status is 0, or is not, or the call raises.
pub data Call : Type 0 where
  succeeds fails raises : Call

-- `nft -f -`: it commits; it is refused, which raises an `OSError` or a `CalledProcessError` and
-- changes nothing; or another exception ends the wait for it, before the commit or after it.
pub data Injection : Type 0 where
  commits refused : Injection
  interrupted : Bool → Injection

pub data Ending : Type 0 where
  returned firewall_error other_error : Ending

pub record Ended : Type 0 where
  pub ending : Ending
  pub kernel : Kernel

-- `_apply_table_atomically`: the old table is deleted and the new one defined in one transaction.
unfoldable pub apply_table_atomically : Injection → List Chain → Kernel → Ended
apply_table_atomically commits chains k = record { ending = returned; kernel = some chains }
apply_table_atomically refused chains k = record { ending = firewall_error; kernel = k }
apply_table_atomically (interrupted committed) chains k = record {
  ending = other_error;
  kernel = if committed then some chains else k;
}

-- `nft flush table` removes the rules and keeps the chains.
abbrev without_rules : Chain → Chain
without_rules c = record c { rules = [] }

abbrev pub flushed : Kernel → Kernel
flushed none = none
flushed (some chains) = some (map without_rules chains)

-- What the three calls of `destroy_rules` would do to a table that is there. They fail without one.
pub record Replies : Type 0 where
  pub flush : Call
  pub delete : Call
  pub list : Call

abbrev on_table : Call → Kernel → Call
on_table raises k = raises
on_table fails k = fails
on_table succeeds none = fails
on_table succeeds (some _) = succeeds

abbrev after_list : Call → Kernel → Ended
after_list raises k = record { ending = other_error; kernel = k }
after_list fails k = record { ending = returned; kernel = k }
after_list succeeds k = record { ending = firewall_error; kernel = k }

abbrev after_delete : Call → Call → Kernel → Ended
after_delete raises list k = record { ending = other_error; kernel = k }
after_delete succeeds list k = record { ending = returned; kernel = none }
after_delete fails list k = after_list (on_table list k) k

abbrev after_flush : Call → Replies → Kernel → Ended
after_flush raises r k = record { ending = other_error; kernel = k }
after_flush fails r k = after_delete (on_table r.delete k) r.list k
after_flush succeeds r k = after_delete (on_table r.delete (flushed k)) r.list (flushed k)

unfoldable pub destroy_rules : Replies → Kernel → Ended
destroy_rules r k = after_flush (on_table r.flush k) r k

-- What `apply_rules` asks of the host: `int(s)` of a text of digits, the id of a user, whether IPv6
-- and the cgroup match are supported.
pub record Host : Type 0 where
  pub digits : String → Option ℕ
  pub uid_of : String → Option ℕ
  pub ipv6_supported : Bool
  pub cgroup_supported : Bool

-- The arguments of `apply_rules`.
pub record Wanted : Type 0 where
  pub tor_user : String
  pub transport_port : ℕ
  pub dns_port : ℕ
  pub allow_root : Bool
  pub lan_bypass : Bool
  pub bypass_uids : Option (List ℕ)
  pub bypass_gids : Option (List ℕ)
  pub disable_ipv6 : Bool

abbrev pub tor_uid_of : Host → String → Option ℕ
tor_uid_of h user = elim (h.digits user) [ some n ↦ some n | none ↦ h.uid_of user ]

-- The loop over the two user names of systemd-resolved.
abbrev pub resolved_uid_of : Host → Option ℕ
resolved_uid_of h = elim (h.uid_of "systemd-resolve") [
  | some uid ↦ some uid
  | none ↦ h.uid_of "systemd-resolved"
]

abbrev pub config_of : Host → Wanted → ℕ → Config
config_of h w uid = record {
  tor_uid = uid;
  transport_port = w.transport_port;
  dns_port = w.dns_port;
  ipv6_avail = h.ipv6_supported && not w.disable_ipv6;
  allow_root = w.allow_root;
  lan_bypass = w.lan_bypass;
  bypass_uids = w.bypass_uids;
  bypass_gids = w.bypass_gids;
  resolved_uid = resolved_uid_of h;
  cgroup_bypass = h.cgroup_supported;
}

-- The `except` branch: whatever the failure was, it is a `FirewallError` if the rollback returns.
abbrev roll_back : Replies → Ended → Ended
roll_back r done = elim done.ending [
  | returned ↦ done
  | _ ↦
      let back = destroy_rules r done.kernel in
      elim back.ending [
        | returned ↦ record { ending = firewall_error; kernel = back.kernel }
        | _ ↦ back
      ]
]

unfoldable pub apply_rules : Injection → Replies → Host → Wanted → Kernel → Ended
unfolding destroy_rules
apply_rules i r h w k = elim (tor_uid_of h w.tor_user) [
  | none ↦ record { ending = firewall_error; kernel = k }
  | some uid ↦ roll_back r (apply_table_atomically i (build_ruleset (config_of h w uid)) k)
]

-- `apply_emergency_killswitch` makes every failure a `FirewallError`.
unfoldable pub apply_emergency_killswitch : Injection → Kernel → Ended
apply_emergency_killswitch i k =
    let done = apply_table_atomically i emergency_ruleset k in
    elim done.ending [
      | returned ↦ done
      | _ ↦ record { ending = firewall_error; kernel = done.kernel }
    ]
