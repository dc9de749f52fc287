-- ===== src/Watchdog/Tests.antt =====
-- Buffers, counters and a host on which the theorems about ttp/watchdog are tried.
use transparent_tor_proxy.Watchdog.Samples.{readings, intent, host}
use transparent_tor_proxy.Base.{
  ◌≡◌, ◌≢◌, refl, ◌⊎◌, true, false, String, none, some, List, [], ◌∷◌, All, arith, string_discrete,
}
use transparent_tor_proxy.Base.Dict.{lookup, insert}
use transparent_tor_proxy.Watchdog.Inotify.{inotify_watch_lost}
use transparent_tor_proxy.Watchdog.Inotify.Events.{
  Event, Fits, pack_all, lost_among, watch_lost-pack_all,
}
use transparent_tor_proxy.Watchdog.Network.{holds, is_interface_online, has_default_route}
use transparent_tor_proxy.Watchdog.Integrity.{
  or_zero, watched, responsive, no_socket, nameservers, dns_fits, table_fits, any_fired,
  new_since_last_check, check_system_integrity,
}
use transparent_tor_proxy.Watchdog.Integrity.Baseline.{Rising}
use transparent_tor_proxy.Watchdog.Integrity.Healthy.{
  IsLocal, IsListed, IsQuiet, check_system_integrity-healthy,
}

-- A changed file with a name, then IN_DELETE_SELF.
abbrev two_events : List Event
two_events =
    record { wd = 1; mask = 2; cookie = 0; name = 97 ∷ 0 ∷ [] }
    ∷ record { wd = 1; mask = 0x400; cookie = 0; name = [] }
    ∷ []

two_events-Fits : All Fits two_events
two_events-Fits = ((omega arith, omega arith), ((omega arith, omega arith), tt))

watch_lost-pack_all_example :
    inotify_watch_lost (pack_all two_events (1 ∷ 0 ∷ [])) ≡ lost_among two_events
watch_lost-pack_all_example =
    watch_lost-pack_all two_events (1 ∷ 0 ∷ []) (omega arith) two_events-Fits

readings-Rising : Rising (or_zero (lookup "doh_rejected" readings)) (5 ∷ 5 ∷ 9 ∷ [])
unfolding string_discrete lookup
readings-Rising = (omega arith, (omega arith, (omega arith, tt)))

host_healthy : check_system_integrity host readings ≡ (none, readings)
unfolding check_system_integrity dns_fits table_fits any_fired new_since_last_check string_discrete
    lookup insert
host_healthy = refl

check_system_integrity-healthy_example :
    (true ≡ true)
    × ((lines : List (List String)) × (host.resolv_conf ≡ some lines)
        × (nameservers lines ≢ [])
        × All IsLocal (nameservers lines))
    × ((true ≡ false) ⊎ (true ≡ true) × (true ≡ true))
    × (true ≡ true)
    × (true ≡ true)
    × ((intent.table_fingerprint ≡ none)
        ⊎ (intent.table_fingerprint ≡ some "")
        ⊎ (host.fingerprint ≡ intent.table_fingerprint))
    × All (IsListed host.user_id host.user_listed) intent.bypass_users
    × All (IsListed host.group_id host.group_listed) intent.bypass_groups
    × All (IsQuiet host.counters readings) watched
    × ((host.control ≡ responsive) ⊎ (host.control ≡ no_socket true))
check_system_integrity-healthy_example =
    check_system_integrity-healthy host intent readings readings refl host_healthy

default_route :
    has_default_route
      (some (("eth0" ∷ "00000000" ∷ "0101" ∷ "0003" ∷ "0" ∷ "0" ∷ "0" ∷ "00000000" ∷ []) ∷ []))
    ≡ true
unfolding string_discrete
default_route = refl

carrier_lost : is_interface_online true (holds "up") (holds "0") ≡ false
unfolding string_discrete
carrier_lost = refl
