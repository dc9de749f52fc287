-- ===== src/Start/Torrc/Tests.antt =====
-- A torrc with a bridge on which the theorem about ttp/tor_config.py is tried.
use transparent_tor_proxy.Base.{
  ◌≡◌, refl, true, false, none, some, List, [], ◌∷◌, ◌++◌, map, arith, if◌then◌else◌,
}
use transparent_tor_proxy.Start.Torrc.{
  Text, codes, digits, decimal, Library, validate_bridge_line, Wanted, fixed_lines,
  required_transports, bridge_line, same_text, bridge_lines, torrc_lines, render,
  build_torrc_content,
}
use transparent_tor_proxy.Start.Torrc.Lines.{
  IsLine, physical_lines, option_lines, written, build_torrc_content-lines,
}

abbrev bridge : Text
bridge = codes "obfs4 192.0.2.1:443"

abbrev library : Library
library = record {
  split = λ t. codes "obfs4" ∷ codes "192.0.2.1:443" ∷ [];
  lower = λ t. t;
  full_match = λ t.
      if same_text t (codes "obfs4")
      then none
      else some (record { bracketed = false; host = codes "192.0.2.1"; port = codes "443" });
  version = λ t. some 4;
  int_of = λ t. 443;
}

abbrev wanted : Wanted
wanted = record {
  transport_port = 9041;
  dns_port = 9054;
  block_doh = false;
  use_bridges = true;
  bridges = bridge ∷ [];
  ipv6_avail = false;
  auth_cookie = codes "/run/tor/ttp/auth_cookie";
  cache_dir = codes "/var/lib/tor/ttp";
  resolve_optional = λ binary. none;
}

valid : validate_bridge_line library bridge ≡ true
unfolding validate_bridge_line codes
valid = refl

-- A line feed in the value.
refused :
    validate_bridge_line library (codes "192.0.2.1:443" ++ (10 ∷ codes "SocksPort 9050")) ≡ false
unfolding validate_bridge_line codes
refused = refl

port : decimal 9041 ≡ codes "9041"
unfolding decimal digits codes
port = refl

abbrev torrc : List Text
torrc =
    fixed_lines wanted
    ++ (codes "UseBridges 1"
        ∷ codes "ClientTransportPlugin obfs4 exec /usr/bin/obfs4proxy"
        ∷ codes "Bridge obfs4 192.0.2.1:443"
        ∷ [])

built : build_torrc_content library wanted ≡ some (render torrc)
unfolding build_torrc_content torrc_lines required_transports bridge_lines codes fixed_lines decimal
    digits render
built = refl

cookie-IsLine : IsLine wanted.auth_cookie
unfolding codes
cookie-IsLine = refl

cache-IsLine : IsLine wanted.cache_dir
unfolding codes
cache-IsLine = refl

build_torrc_content-lines_example :
    physical_lines (render torrc)
    ≡ fixed_lines wanted
      ++ (option_lines library wanted (bridge ∷ []) true
          ++ map bridge_line (written (bridge ∷ []) true))
build_torrc_content-lines_example =
    build_torrc_content-lines library wanted
      (cookie-IsLine, cache-IsLine, λ binary path e. absurd (ground (arith, e))) (render torrc)
      built

-- A "meek" bridge is accepted, and no plugin is written for it.
abbrev meek : Library
meek = record library { split = λ t. codes "meek" ∷ codes "192.0.2.1:443" ∷ [] }

meek_accepted :
    validate_bridge_line
      (record meek {
        full_match = λ t.
            if same_text t (codes "meek")
            then none
            else some (record { bracketed = false; host = codes "192.0.2.1"; port = codes "443" });
      })
      (codes "meek 192.0.2.1:443")
    ≡ true
unfolding validate_bridge_line codes
meek_accepted = refl

meek_unplugged : required_transports meek wanted [] (codes "meek 192.0.2.1:443" ∷ []) ≡ []
unfolding required_transports codes
meek_unplugged = refl
