-- ===== src/Start/Torrc.antt =====
-- ttp/commands/_validation.py and ttp/tor_config.py: the test of a bridge line, and the text of the
-- volatile torrc. A text is the list of its code points; regular expressions, `ipaddress` and the
-- methods of `str` are arguments.
pub mod Lines
mod Tests
use Prim.Native.String.{String}
use Prim.Native.Char.{code}
use transparent_tor_proxy.Base.{
  ℕ, zero, suc, ◌+◌, ◌/◌, ◌%◌, Bool, true, false, not, ◌&&◌, ◌||◌, Option, none, some, List, [],
  ◌∷◌, ◌++◌, ltb, leb, ◌==◌, any_of, all_of, map, is_some, if◌then◌else◌,
}

abbrev pub Text : Type 0
Text = List ℕ

pub codes : String → Text
codes String.[] = []
codes (String.◌∷◌ c s) = code c ∷ codes s

-- `text == "..."`
abbrev pub same_text : Text → Text → Bool
same_text [] [] = true
same_text (a ∷ s) (b ∷ t) = (a == b) && same_text s t
same_text _ _ = false

-- The decimal digits of a number, with as much fuel as it has digits or more.
pub digits : ℕ → ℕ → Text
digits zero n = []
digits (suc fuel) n =
    let rest = digits fuel (n / 10) in
    if ltb n 10 then (n + 48) ∷ [] else rest ++ ((n % 10 + 48) ∷ [])

unfoldable pub decimal : ℕ → Text
unfolding digits
decimal n = digits (n + 1) n

-- A match of `_BRIDGE_ADDRESS`: whether the host is in brackets, the host, and the port.
pub record Address : Type 0 where
  pub bracketed : Bool
  pub host : Text
  pub port : Text

-- The library that is used: `str.split()`, `str.lower()`, `_BRIDGE_ADDRESS.fullmatch`, the version of an
-- address (`none` for a `ValueError`), and `int`.
pub record Library : Type 0 where
  pub split : Text → List Text
  pub lower : Text → Text
  pub full_match : Text → Option Address
  pub version : Text → Option ℕ
  pub int_of : Text → ℕ

-- `_BRIDGE_ILLEGAL_CHARS`
abbrev pub is_illegal : ℕ → Bool
is_illegal c = not ((leb 32 c && leb c 126) || (c == 9))

module _ (lib : Library) where
  abbrev pub has_version : ℕ → Option ℕ → Bool
  has_version v none = false
  has_version v (some w) = w == v

  abbrev pub fits_address : Option Address → Bool
  fits_address none = false
  fits_address (some a) =
      has_version (if a.bracketed then 6 else 4) (lib.version a.host)
      && leb 1 (lib.int_of a.port)
      && leb (lib.int_of a.port) 65535

  -- `_is_bridge_address`
  abbrev pub is_bridge_address : Text → Bool
  is_bridge_address token = fits_address (lib.full_match token)

  abbrev pub is_transport : Text → Bool
  is_transport word =
      same_text word (codes "obfs4")
      || same_text word (codes "snowflake")
      || same_text word (codes "meek")
      || same_text word (codes "meek_lite")

  abbrev pub fits_parts : List Text → Bool
  fits_parts [] = false
  fits_parts (first ∷ []) = is_bridge_address first
  fits_parts (first ∷ second ∷ rest) =
      is_bridge_address first || (is_bridge_address second && is_transport (lib.lower first))

  -- `validate_bridge_line`; `false` stands for a `ValueError`.
  unfoldable pub validate_bridge_line : Text → Bool
  unfolding codes
  validate_bridge_line line = not (any_of is_illegal line) && fits_parts (lib.split line)

-- The transports of `PT_MAP` with their binaries.
abbrev pub pt_map : List (Text × Text)
pt_map =
    (codes "obfs4", codes "obfs4proxy")
    ∷ (codes "meek_lite", codes "obfs4proxy")
    ∷ (codes "snowflake", codes "snowflake-client")
    ∷ []

abbrev pub binary_of : Text → List (Text × Text) → Option Text
binary_of pt [] = none
binary_of pt ((k, b) ∷ entries) = if same_text k pt then some b else binary_of pt entries

-- The arguments of `_build_torrc_content` that it reads, with the directories of the module and what
-- `resolve_optional` gives for a binary.
pub record Wanted : Type 0 where
  pub transport_port : ℕ
  pub dns_port : ℕ
  pub block_doh : Bool
  pub use_bridges : Bool
  pub bridges : List Text
  pub ipv6_avail : Bool
  pub auth_cookie : Text
  pub cache_dir : Text
  pub resolve_optional : Text → Option Text

abbrev pub ipv6_lines : Wanted → List Text
ipv6_lines w =
    if w.ipv6_avail
    then (codes "TransPort [::1]:" ++ decimal w.transport_port)
      ∷ (codes "DNSPort [::1]:" ++ decimal w.dns_port)
      ∷ codes "ClientUseIPv6 1"
      ∷ codes "VirtualAddrNetworkIPv6 fc00::/7"
      ∷ []
    else codes "ClientUseIPv6 0" ∷ []

abbrev pub doh_domains : List Text
doh_domains =
    codes "use-application-dns.net"
    ∷ codes "cloudflare-dns.com"
    ∷ codes "dns.google"
    ∷ codes "dns.quad9.net"
    ∷ codes "doh.opendns.com"
    ∷ codes "dns.adguard.com"
    ∷ []

abbrev pub doh_lines : Bool → List Text
doh_lines block =
    if block then map (λ d. codes "MapAddress " ++ (d ++ codes " 0.0.0.0")) doh_domains else []

abbrev pub base_lines : Wanted → List Text
base_lines w =
    codes "# Generated by TTP: runtime volatile config"
    ∷ codes "VirtualAddrNetworkIPv4 10.192.0.0/10"
    ∷ codes "AutomapHostsOnResolve 1"
    ∷ (codes "TransPort " ++ decimal w.transport_port)
    ∷ (codes "DNSPort " ++ decimal w.dns_port)
    ∷ codes "SocksPort 0"
    ∷ codes "ControlSocket /run/tor/ttp/control.sock"
    ∷ codes "ControlSocketsGroupWritable 1"
    ∷ codes "CookieAuthentication 1"
    ∷ (codes "CookieAuthFile " ++ w.auth_cookie)
    ∷ codes "CookieAuthFileGroupReadable 1"
    ∷ codes "ClientUseIPv4 1"
    ∷ []

unfoldable pub fixed_lines : Wanted → List Text
unfolding codes decimal
fixed_lines w =
    base_lines w
    ++ (ipv6_lines w ++ ((codes "DataDirectory " ++ w.cache_dir) ∷ doh_lines w.block_doh))

module _ (lib : Library) (w : Wanted) where
  abbrev pub first_word : List Text → Option Text
  first_word [] = none
  first_word (word ∷ words) = some (lib.lower word)

  abbrev pub with_transport : Option Text → List Text → List Text
  with_transport none required = required
  with_transport (some word) required =
      if is_some (binary_of word pt_map) && not (any_of (same_text word) required)
      then required ++ (word ∷ [])
      else required

  -- The loop that collects `required_transports`.
  unfoldable pub required_transports : List Text → List Text → List Text
  required_transports required [] = required
  required_transports required (b ∷ bridges) =
      required_transports (with_transport (first_word (lib.split b)) required) bridges

  abbrev pub binary_path : Text → Option Text → Text
  binary_path binary none = codes "/usr/bin/" ++ binary
  binary_path binary (some path) = path

  abbrev pub plugin_line : Text → Option Text → Text
  plugin_line pt none = []
  plugin_line pt (some binary) =
      codes "ClientTransportPlugin "
      ++ (pt ++ (codes " exec " ++ binary_path binary (w.resolve_optional binary)))

  abbrev pub plugin_lines : List Text → List Text
  plugin_lines = map (λ pt. plugin_line pt (binary_of pt pt_map))

-- `any(ch in b for ch in "\n\r\v\f\x00")`
abbrev pub is_separator : ℕ → Bool
is_separator c = c == 10 || c == 13 || c == 11 || c == 12 || c == 0

abbrev pub bridge_line : Text → Text
bridge_line b = codes "Bridge " ++ b

-- `none` stands for the `ValueError`.
abbrev pub cons_line : Text → Option (List Text) → Option (List Text)
cons_line b none = none
cons_line b (some ls) = some (bridge_line b ∷ ls)

unfoldable pub bridge_lines : List Text → Option (List Text)
bridge_lines [] = some []
bridge_lines (b ∷ bridges) =
    let rest = bridge_lines bridges in if any_of is_separator b then none else cons_line b rest

abbrev pub append_lines : List Text → Option (List Text) → Option (List Text)
append_lines ls none = none
append_lines ls (some more) = some (ls ++ more)

-- `use_bridges and bridges`
abbrev pub lines_with : Library → Wanted → List Text → Bool → Option (List Text)
lines_with lib w [] on = some (fixed_lines w)
lines_with lib w (b ∷ bridges) true =
    append_lines
      (fixed_lines w
        ++ (codes "UseBridges 1" ∷ plugin_lines lib w (required_transports lib w [] (b ∷ bridges))))
      (bridge_lines (b ∷ bridges))
lines_with lib w (b ∷ bridges) false = some (fixed_lines w)

-- The lines of `_build_torrc_content`.
unfoldable pub torrc_lines : Library → Wanted → Option (List Text)
unfolding required_transports bridge_lines codes fixed_lines
torrc_lines lib w = lines_with lib w w.bridges w.use_bridges

-- `"\n".join(lines) + "\n"`, for lines of which there is one at least.
unfoldable pub render : List Text → Text
render [] = []
render (l ∷ ls) = l ++ (10 ∷ render ls)

abbrev pub render_all : Option (List Text) → Option Text
render_all none = none
render_all (some ls) = some (render ls)

-- `_build_torrc_content`; `none` stands for the `ValueError`.
unfoldable pub build_torrc_content : Library → Wanted → Option Text
unfolding torrc_lines render
build_torrc_content lib w = render_all (torrc_lines lib w)
