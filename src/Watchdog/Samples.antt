-- ===== src/Watchdog/Samples.antt =====
-- A host without faults, for the tests.
use transparent_tor_proxy.Base.{true, false, none, some, [], ◌∷◌}
use transparent_tor_proxy.Watchdog.Integrity.{Readings, Intent, no_socket, System}

abbrev pub readings : Readings
readings = ("doh_rejected", 3) ∷ []

abbrev pub intent : Intent
intent = record {
  systemd_resolved = true;
  table_fingerprint = some "f";
  bypass_users = "backup" ∷ [];
  bypass_groups = [];
}

abbrev pub host : System
host = record {
  intent = some intent;
  overlay_mounted = true;
  resolv_conf = some (("nameserver" ∷ "127.0.0.1" ∷ []) ∷ []);
  drop_in_exists = true;
  resolved_active = true;
  table_listed = true;
  has_filter_out = true;
  fingerprint = some "f";
  user_id = λ name. some 34;
  group_id = λ name. none;
  user_listed = λ n. true;
  group_listed = λ n. false;
  counters = readings;
  control = no_socket true;
}
