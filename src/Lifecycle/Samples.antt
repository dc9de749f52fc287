-- ===== src/Lifecycle/Samples.antt =====
-- A stop for which all goes well, for the tests.
use transparent_tor_proxy.Base.{true, false, none, some, []}
use transparent_tor_proxy.Evidence.{no_result}
use transparent_tor_proxy.Firewall.Emergency.{absent, emergency_ruleset}
use transparent_tor_proxy.Firewall.Runner.{succeeds}
use transparent_tor_proxy.Session.Samples.{active_world}
use transparent_tor_proxy.Lifecycle.{Machine, written, Keys, Outside}

abbrev pub keys : Keys
keys = record { external_daemon = false; tor_uid = absent }

abbrev pub outside : Outside
outside = record {
  marks = written;
  prepares = true;
  shuts_down = true;
  stops = true;
  unlabels = true;
  uid_of_port = some 42;
  uid_of = λ name. none;
  locks_down = true;
  udp = true;
  tcp = true;
  conntrack = some succeeds;
  destroys = record { flush = succeeds; delete = succeeds; list = succeeds };
  restores = true;
  unlinks = true;
  finished = some no_result;
}

abbrev pub session : Machine
session = record { world = active_world; rules = some emergency_ruleset; steps = [] }
