-- ===== src/Watchdog/Integrity/Healthy.antt =====
-- What a check that finds nothing wrong has seen.
use transparent_tor_proxy.Base.{
  ◌≡◌, ◌≢◌, refl, ◌⊎◌, inl, inr, Bool, true, false, String, Option, none, some, List, [], ◌∷◌, All,
  arith, all_of, Option-cases, ℕ, str_eq→eq, str_eq, ◌==◌, Bool-cases, string_discrete,
}
use transparent_tor_proxy.Base.Dict.{lookup, insert, lookup-insert}
use transparent_tor_proxy.Watchdog.Integrity.{
  Readings, System, Intent, responsive, no_socket, nameservers, is_local, local_only, listed,
  resolv_fits, dns_fits, table_fits, check_system_integrity, or_zero, new_since_last_check, watched,
  any_fired,
}

-- A resolver on the host itself.
abbrev pub IsLocal : String → Type 0
IsLocal s = (s ≡ "127.0.0.1") ⊎ (s ≡ "::1")

All-IsLocal : (servers : List String) → all_of is_local servers ≡ true → All IsLocal servers
All-IsLocal [] h = tt
All-IsLocal (s ∷ servers) h =
    (ground (arith, str_eq→eq s "127.0.0.1", str_eq→eq s "::1"), All-IsLocal servers (ground arith))

servers_ne : (servers : List String) → local_only servers ≡ true → servers ≢ []
servers_ne [] h e = cc
servers_ne (s ∷ servers) h e = cc

local_all : (servers : List String) → local_only servers ≡ true → all_of is_local servers ≡ true
local_all [] h = cc
local_all (s ∷ servers) h = h

-- The name resolves to an id that the listing accepts.
abbrev pub IsListed : (String → Option ℕ) → (ℕ → Bool) → String → Type 0
IsListed id accepted name = (n : ℕ) × (id name ≡ some n) × (accepted n ≡ true)

All-listed :
    (id : String → Option ℕ) (accepted : ℕ → Bool) (names : List String)
    → all_of (listed id accepted) names ≡ true
    → All (IsListed id accepted) names
All-listed id accepted [] h = tt
All-listed id accepted (name ∷ names) h = elim (Option-cases (id name)) [
  | inl e ↦ absurd (ground arith)
  | inr (n, e) ↦ ((n, e, ground arith), All-listed id accepted names (ground arith))
]

resolv-IsLocal :
    (conf : Option (List (List String)))
    → resolv_fits conf ≡ true
    → (lines : List (List String)) × (conf ≡ some lines)
      × (nameservers lines ≢ [])
      × All IsLocal (nameservers lines)
resolv-IsLocal none h = cc
resolv-IsLocal (some lines) h = (
  lines,
  refl,
  (λ e. servers_ne (nameservers lines) h e),
  All-IsLocal (nameservers lines) (local_all (nameservers lines) h),
)

-- The counter shows no packet since the reading in the baseline: it has not moved, or it stands at 0, as
-- after a reload of the table.
abbrev pub IsQuiet : Readings → Readings → String → Type 0
IsQuiet counters b name =
    (lookup name counters ≡ none)
    ⊎ (n : ℕ) × (lookup name counters ≡ some n) × ((n ≡ or_zero (lookup name b)) ⊎ (n ≡ 0))

-- The baseline that the next counter meets.
abbrev past : String → Option ℕ → Readings → Readings
past name none b = b
past name (some n) b = insert name n b

any_fired-step :
    (name : String) (names : List String) (counters b b' : Readings) (o : Option ℕ)
    → lookup name counters ≡ o
    → any_fired (name ∷ names) counters b ≡ (false, b')
    → IsQuiet counters b name × (any_fired names counters (past name o b) ≡ (false, b'))
unfolding any_fired new_since_last_check
any_fired-step name names counters b b' none e h = (inl e, ground (arith, h, e))
any_fired-step name names counters b b' (some n) e h =
    elim (Bool-cases ((new_since_last_check name n b).0 == 0)) [
      | inl still ↦ (inr (n, e, ground (arith, still)), ground (arith, h, e, still))
      | inr fired ↦ absurd (ground (arith, h, e, fired))
    ]

past-other :
    (name other : String) (o : Option ℕ) (counters b : Readings)
    → str_eq name other ≡ false
    → IsQuiet counters (past name o b) other
    → IsQuiet counters b other
past-other name other none counters b e h = h
past-other name other (some n) counters b e h =
    let same : lookup other (insert name n b) ≡ lookup other b =
      ground (arith, lookup-insert name other n b, e) in
    rw same at h

any_fired-IsQuiet :
    (counters b b' : Readings)
    → any_fired watched counters b ≡ (false, b')
    → All (IsQuiet counters b) watched
unfolding string_discrete
any_fired-IsQuiet counters b b' h =
    let doh = any_fired-step _ _ counters b b' _ refl h in
    let dot = any_fired-step _ _ counters _ b' _ refl doh.1 in
    let dns = any_fired-step _ _ counters _ b' _ refl dot.1 in
    (
      doh.0,
      (
        past-other "doh_rejected" "dot_rejected" _ counters b refl dot.0,
        (
          past-other "doh_rejected" "dns_unredirected_rejected" _ counters b refl
              (past-other "dot_rejected" "dns_unredirected_rejected" _ counters _ refl dns.0),
          tt,
        ),
      ),
    )

-- A check of a session with a lock that names no component as failed has seen: the overlay mounted,
-- with at least one resolver in it and only local ones; systemd-resolved's drop-in and service in
-- place where the session uses it; the session's table in the kernel, with the fingerprint that was
-- recorded, if one was, with the chain filter_out and with a rule for each exempt user and group; no
-- counter of a leak, of those that could be read, with a packet since the baseline; and Tor responsive, or its
-- service active where it has no control socket.
pub check_system_integrity-healthy :
    (s : System) (i : Intent) (b b' : Readings)
    → s.intent ≡ some i
    → check_system_integrity s b ≡ (none, b')
    → (s.overlay_mounted ≡ true)
      × ((lines : List (List String)) × (s.resolv_conf ≡ some lines)
          × (nameservers lines ≢ [])
          × All IsLocal (nameservers lines))
      × ((i.systemd_resolved ≡ false) ⊎ (s.drop_in_exists ≡ true) × (s.resolved_active ≡ true))
      × (s.table_listed ≡ true)
      × (s.has_filter_out ≡ true)
      × ((i.table_fingerprint ≡ none)
          ⊎ (i.table_fingerprint ≡ some "")
          ⊎ (s.fingerprint ≡ i.table_fingerprint))
      × All (IsListed s.user_id s.user_listed) i.bypass_users
      × All (IsListed s.group_id s.group_listed) i.bypass_groups
      × All (IsQuiet s.counters b) watched
      × ((s.control ≡ responsive) ⊎ (s.control ≡ no_socket true))
unfolding check_system_integrity dns_fits table_fits
check_system_integrity-healthy s i b b' e h = (
  ground arith,
  resolv-IsLocal s.resolv_conf (ground arith),
  ground arith,
  ground arith,
  ground arith,
  ground arith,
  All-listed s.user_id s.user_listed i.bypass_users (ground arith),
  All-listed s.group_id s.group_listed i.bypass_groups (ground arith),
  any_fired-IsQuiet s.counters b b' (ground (arith, h)),
  ground arith,
)
