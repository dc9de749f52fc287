-- ===== src/Watchdog/Integrity.antt =====
-- ttp/watchdog/integrity.py: the counters' baseline, `check_system_integrity` and
-- `attempt_auto_healing`. What the system answers is an argument.
pub mod Baseline
pub mod Healthy
use transparent_tor_proxy.Base.{
  ℕ, ◌-◌, Bool, true, false, not, ◌&&◌, ◌||◌, String, Option, none, some, List, [], ◌∷◌, str_eq,
  leb, ◌==◌, all_of, if◌then◌else◌,
}
use transparent_tor_proxy.Base.Dict.{lookup, insert}
use text.Mathlib.Text.{starts_with}

-- `_counter_baseline`
abbrev pub Readings : Type 0
Readings = List (String × ℕ)

-- `_new_since_last_check`: the new packets, and the baseline with the reading remembered.
abbrev pub or_zero : Option ℕ → ℕ
or_zero none = 0
or_zero (some n) = n

unfoldable pub new_since_last_check : String → ℕ → Readings → ℕ × Readings
new_since_last_check name current baseline =
    let previous = or_zero (lookup name baseline) in
    ((if leb previous current then current - previous else current), insert name current baseline)

-- The keys of the lock that the check reads.
pub record Intent : Type 0 where
  pub systemd_resolved : Bool
  pub table_fingerprint : Option String
  pub bypass_users : List String
  pub bypass_groups : List String

-- How Tor's control socket answers; where there is none, whether the service is active.
pub data Control : Type 0 where
  responsive unresponsive : Control
  no_socket : Bool → Control

pub record System : Type 0 where
  pub intent : Option Intent
  pub overlay_mounted : Bool
  -- The words of each line of resolv.conf; `none` if it cannot be read.
  pub resolv_conf : Option (List (List String))
  pub drop_in_exists : Bool
  pub resolved_active : Bool
  -- Whether `nft list table inet ttp` succeeds, and whether its output has the chain `filter_out`.
  pub table_listed : Bool
  pub has_filter_out : Bool
  pub fingerprint : Option String
  -- The id of a user or group name, or of a number, and whether the listing accepts it.
  pub user_id : String → Option ℕ
  pub group_id : String → Option ℕ
  pub user_listed : ℕ → Bool
  pub group_listed : ℕ → Bool
  pub counters : Readings
  pub control : Control

pub data Component : Type 0 where
  dns firewall tor : Component

-- The resolvers that resolv.conf names, in order.
abbrev pub nameservers : List (List String) → List String
nameservers [] = []
nameservers ((word ∷ address ∷ _) ∷ lines) =
    let rest = nameservers lines in if starts_with word "nameserver" then address ∷ rest else rest
nameservers (_ ∷ lines) = nameservers lines

abbrev pub is_local : String → Bool
is_local s = str_eq s "127.0.0.1" || str_eq s "::1"

abbrev local_only : List String → Bool
local_only [] = false
local_only (s ∷ servers) = all_of is_local (s ∷ servers)

abbrev resolv_fits : Option (List (List String)) → Bool
resolv_fits none = false
resolv_fits (some lines) = local_only (nameservers lines)

abbrev resolved_fits : Option Intent → System → Bool
resolved_fits none s = true
resolved_fits (some i) s =
    if i.systemd_resolved then s.drop_in_exists && s.resolved_active else true

-- Check 1 and 1b.
unfoldable pub dns_fits : System → Bool
dns_fits s = s.overlay_mounted && (resolv_fits s.resolv_conf && resolved_fits s.intent s)

abbrev same_text : Option String → String → Bool
same_text none t = false
same_text (some s) t = str_eq s t

-- `recorded and table_fingerprint() != recorded`
abbrev fingerprint_fits : Option Intent → Option String → Bool
fingerprint_fits none now = true
fingerprint_fits (some i) now = elim i.table_fingerprint [
  | none ↦ true
  | some recorded ↦ str_eq recorded "" || same_text now recorded
]

abbrev pub listed : (String → Option ℕ) → (ℕ → Bool) → String → Bool
listed id accepted name = elim (id name) [ none ↦ false | some n ↦ accepted n ]

abbrev bypass_fits : Option Intent → System → Bool
bypass_fits none s = true
bypass_fits (some i) s =
    all_of (listed s.user_id s.user_listed) i.bypass_users
    && all_of (listed s.group_id s.group_listed) i.bypass_groups

-- Check 2.
unfoldable pub table_fits : System → Bool
table_fits s =
    s.table_listed
    && (s.has_filter_out && (fingerprint_fits s.intent s.fingerprint && bypass_fits s.intent s))

abbrev pub watched : List String
watched = "doh_rejected" ∷ "dot_rejected" ∷ "dns_unredirected_rejected" ∷ []

-- Check 2b: whether some counter has fired, and the baseline. The counters behind one that has fired
-- are not read.
unfoldable pub any_fired : List String → Readings → Readings → Bool × Readings
any_fired [] counters baseline = (false, baseline)
any_fired (name ∷ names) counters baseline = elim (lookup name counters) [
  | none ↦ any_fired names counters baseline
  | some current ↦
      let (fired, next) = new_since_last_check name current baseline in
      elim (fired == 0) [ true ↦ any_fired names counters next | false ↦ (true, next) ]
]

-- Check 3.
abbrev tor_fits : Control → Bool
tor_fits responsive = true
tor_fits unresponsive = false
tor_fits (no_socket active) = active

unfoldable pub check_system_integrity : System → Readings → Option Component × Readings
check_system_integrity s baseline =
    if not (dns_fits s)
    then (some dns, baseline)
    else if not (table_fits s)
    then (some firewall, baseline)
    else (let (fired, next) = any_fired watched s.counters baseline in
        if fired
        then (some firewall, next)
        else if tor_fits s.control
        then (none, next)
        else (some tor, next))

-- `attempt_auto_healing`: `restarted` is whether systemctl restarts Tor; the second part of the
-- result is whether it was called.
unfoldable pub attempt_auto_healing : Bool → Bool → Component → Bool × Bool
attempt_auto_healing has_lock restarted tor = if has_lock then (restarted, true) else (false, false)
attempt_auto_healing has_lock restarted _ = (false, false)
