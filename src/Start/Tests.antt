-- ===== src/Start/Tests.antt =====
-- A start on which the theorem about its exit code is tried.
use transparent_tor_proxy.Base.{ℕ, ◌≢◌, ◌⊎◌, contains, Option, String}
use transparent_tor_proxy.Start.External.{number_or_name, known_tor_usernames}
use transparent_tor_proxy.Start.Ports.{
  bound, failed, Sockets, validate_ports, Net, find_owner, get_uid_from_port,
}
use transparent_tor_proxy.Start.Owner.{OwnsIn, resolve_external_tor_uid-OwnsIn}
use transparent_tor_proxy.Base.{[], ◌∷◌}
use transparent_tor_proxy.Start.External.{
  Names, resolve_external_tor_uid, parse_bypass_users_groups,
}
use transparent_tor_proxy.Firewall.Runner.{
  commits, apply_rules, apply_table_atomically, destroy_rules,
}
use transparent_tor_proxy.Firewall.Runner.Samples.{host, wanted}
use transparent_tor_proxy.Lifecycle.{Machine, exits, destroy}
use transparent_tor_proxy.Lifecycle.Rules.{Ends, Const}
use transparent_tor_proxy.Lifecycle.Samples.{keys, outside}
use transparent_tor_proxy.Start.Setup.{Plan, published, set_up, apply_firewall, take_back}
use transparent_tor_proxy.Start.Undone.{IsSetUp, HasNoTable, Any, set_up-Ends}
use transparent_tor_proxy.Base.{
  ◌≡◌, refl, ◌⊎◌, Option, true, false, some, none, [], string_discrete,
}
use transparent_tor_proxy.Evidence.{
  ExitCode, ok, emergency_verified, no_result, confirmed, Verification, exit_code, add, result,
}
use transparent_tor_proxy.Base.Json.{get_key}
use transparent_tor_proxy.Evidence.Dicts.{as_dict, from_dict}
use transparent_tor_proxy.Firewall.Inspect.{diagnostic}
use transparent_tor_proxy.Session.World.{
  no_lock, no_marker, no_record, emergency_latched, stop_was_requested,
}
use transparent_tor_proxy.Session.Request.{
  stale, entry, request_emergency, act, read_previous, containment, report,
}
use transparent_tor_proxy.Session.Samples.{running, active_world, answers}
use transparent_tor_proxy.Start.{
  Course, Progress, on_request, on_repair, after_agent, unsupervised, inspected,
  record_verification, announce, conclude_start,
}
use transparent_tor_proxy.Start.Sound.{conclude_start-ok}

abbrev good_exit : Verification
good_exit = record {
  state = confirmed;
  reason = "tor.confirmed";
  ip = some "192.0.2.1";
  observed_at = none;
  diagnostics = [];
}

abbrev good_course : Course
good_course = record {
  target = true;
  agent_starts = true;
  watchdog = true;
  gets_ready = true;
  verification = good_exit;
  writes = true;
  while_probing = λ w. w;
  meanwhile = λ w. w;
  at_watchdog = answers;
  at_negative = answers;
  at_latch = answers;
  notifications = true;
  emitted = λ e. some [];
}

abbrev good_end : Progress
good_end = record { result = no_result; world = active_world }

good_start : conclude_start running good_course no_result active_world ≡ some good_end
unfolding conclude_start inspected record_verification announce emergency_latched exit_code add
    result
good_start = refl

quiet_start : exit_code good_end.result ≡ ok
unfolding exit_code
quiet_start = refl

conclude_start-ok_example :
    let first : Progress = record {
      result = after_agent running good_course no_result;
      world = active_world;
    } in
    let last = inspected running good_course first in
    ((true ≡ false) ⊎ (true ≡ true))
    × ((true ≡ false) ⊎ (true ≡ true) ⊎ (entry on_request answers "s" active_world ≡ stale))
    × ((unsupervised running good_course ≡ true) ⊎ (good_exit.state ≡ confirmed))
    × ((emergency_latched running last.world ≡ some false)
        ⊎ (emergency_latched running last.world ≡ some true)
          × (entry on_repair answers "s" last.world ≡ stale))
conclude_start-ok_example =
    conclude_start-ok running "s" good_course no_result active_world good_end refl good_start
      quiet_start

-- A watchdog that does not get ready leaves the session contained.
abbrev unwatched : Course
unwatched = record good_course { gets_ready = false; notifications = false }

abbrev code_of : Option Progress → ExitCode
code_of none = ok
code_of (some p) = exit_code p.result

contained_start :
    code_of (conclude_start running unwatched no_result active_world) ≡ emergency_verified
unfolding conclude_start inspected announce emergency_latched exit_code add request_emergency act
    entry read_previous containment string_discrete stop_was_requested report diagnostic get_key
    as_dict from_dict
contained_start = refl

abbrev plan : Plan
plan = record {
  host = host;
  wanted = wanted;
  injection = commits;
  undo = outside.destroys;
  finds_interface = true;
  sets_dns = true;
  writing = published;
  lock = running;
}

abbrev bare : Machine
bare = record {
  world = record { lock_file = no_lock; marker = no_marker; emergency = no_record };
  rules = none;
  steps = [];
}

set_up-Ends_example : Ends (Const (IsSetUp plan)) HasNoTable Any (set_up keys outside plan bare)
set_up-Ends_example = set_up-Ends keys outside plan bare refl

-- Without DNS the rules are taken back.
abbrev without_dns : Plan
without_dns = record plan { sets_dns = false }

dns_undone : (set_up keys outside without_dns bare).1 ≡ exits 1
unfolding set_up apply_firewall apply_rules take_back destroy destroy_rules string_discrete
    apply_table_atomically
dns_undone = refl

-- An external Tor that is found by its socket, with the user "debian-tor".
abbrev host_names : Names
host_names = record {
  is_digits = λ s. false;
  number = λ s. none;
  lower = λ s. s;
  strip = λ s. s;
  split = λ s. s ∷ [];
  by_name = λ s. none;
  name_of = λ uid. some "debian-tor";
}

found_user : resolve_external_tor_uid host_names none (some 107) ≡ some 107
unfolding resolve_external_tor_uid string_discrete
found_user = refl

-- A listening socket on port 9040 of the user 107.
abbrev net : Net
net = record {
  tcp =
      some (("0:" ∷ "0100007F:2350" ∷ "00000000:0000" ∷ "0A" ∷ "0" ∷ "0" ∷ "0" ∷ "107" ∷ []) ∷ []);
  tcp6 = none;
  is_port = λ port local. true;
  int_of = λ s. 107;
}

found_by_port : resolve_external_tor_uid host_names none (get_uid_from_port net 9040) ≡ some 107
unfolding resolve_external_tor_uid get_uid_from_port find_owner string_discrete
found_by_port = refl

resolve_external_tor_uid-OwnsIn_example :
    ((s : String) × (s ≢ "")
      × (◌≡◌ {A = Option String} none (some s))
      × (number_or_name host_names s ≡ some 107))
    ⊎ (host_names.by_name "tor" ≡ some 107)
    ⊎ (host_names.by_name "debian-tor" ≡ some 107)
    ⊎ ((OwnsIn net 9040 107 net.tcp ⊎ OwnsIn net 9040 107 net.tcp6)
        × (◌≢◌ {A = ℕ} 107 0)
        × ((name : String) × (host_names.name_of 107 ≡ some name)
            × (contains (host_names.lower name) known_tor_usernames ≡ true)))
resolve_external_tor_uid-OwnsIn_example =
    resolve_external_tor_uid-OwnsIn host_names net none 9040 107 found_by_port

abbrev sockets : Sockets
sockets = record {
  tcp = λ port. bound;
  udp = λ port. bound;
  tcp6 = λ port. failed;
  udp6 = λ port. failed;
  connects = λ port. false;
  connects6 = λ port. false;
}

-- A host without IPv6.
free_ports : validate_ports sockets 9041 9054 false ≡ true
unfolding validate_ports
free_ports = refl

same_ports : validate_ports sockets 9041 9041 false ≡ false
unfolding validate_ports
same_ports = refl

-- "victor" is no name of Tor's account.
other_user :
    resolve_external_tor_uid (record host_names { name_of = λ uid. some "victor" }) none (some 1000)
    ≡ none
unfolding resolve_external_tor_uid string_discrete
other_user = refl

bypassed :
    parse_bypass_users_groups
      (record host_names { by_name = λ s. some 1000 })
      host_names
      ("alice" ∷ [])
      []
    ≡ some (record { users = "alice" ∷ []; groups = []; uids = 1000 ∷ []; gids = [] })
unfolding parse_bypass_users_groups
bypassed = refl
