-- ===== src/Firewall/Runner/Samples.antt =====
-- What the session asks for and the host that it runs on, for the tests.
use transparent_tor_proxy.Base.{true, false, none, some}
use transparent_tor_proxy.Firewall.Runner.{Host, Wanted}

abbrev pub host : Host
host = record {
  digits = λ s. none;
  uid_of = λ s. some 107;
  ipv6_supported = true;
  cgroup_supported = false;
}

abbrev pub wanted : Wanted
wanted = record {
  tor_user = "debian-tor";
  transport_port = 9041;
  dns_port = 9054;
  allow_root = false;
  lan_bypass = true;
  bypass_uids = none;
  bypass_gids = none;
  disable_ipv6 = false;
}
