-- ===== src/Dnssec/Tests.antt =====
-- A host on which the preflight of DNSSEC is tried.
use transparent_tor_proxy.Base.{◌≡◌, refl, All, true, none, some, [], ◌∷◌, string_discrete}
use transparent_tor_proxy.Dnssec.{
  absent, read, Link, Found, passes, check_links, check_link, check_dnssec_policy, Allows,
  check_dnssec_policy-Allows,
}

abbrev ethernet : Link
ethernet = record {
  name = "eth0";
  networkd = absent;
  saved = read (record { admin_state = none; dnssec = some "no" });
  networkd_again = absent;
  saved_again = read (record { admin_state = none; dnssec = some "no" });
  effective = some "no";
}

abbrev host : Found
host = record {
  active = some true;
  global_mode = some "allow-downgrade";
  links = ethernet ∷ [];
  unchanged = true;
}

host_passes : check_dnssec_policy host ≡ passes
unfolding check_dnssec_policy check_links check_link string_discrete
host_passes = refl

check_dnssec_policy-Allows_example : All (Allows "allow-downgrade") host.links
check_dnssec_policy-Allows_example =
    check_dnssec_policy-Allows host "allow-downgrade" refl refl host_passes
