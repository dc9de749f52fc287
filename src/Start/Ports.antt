-- ===== src/Start/Ports.antt =====
-- ttp/commands/_ports.py and `validate_ports` of _preflight.py: the ports of a session, by what sockets
-- answer, and the owner of a listening socket by /proc/net. A line of a file there is its fields.
use transparent_tor_proxy.Base.{
  ℕ, Bool, true, false, not, ◌&&◌, ◌||◌, String, Option, none, some, List, [], ◌∷◌, str_eq, leb,
  ◌==◌, if◌then◌else◌,
}

-- How a bind ends: it succeeds, the address is in use, or another `OSError`.
pub data Bound : Type 0 where
  bound in_use failed : Bound

-- What sockets answer for a port: binds of TCP and UDP on 127.0.0.1 and ::1 (where `failed` is also for a
-- socket that cannot be made), and connections to TCP on both.
pub record Sockets : Type 0 where
  pub tcp : ℕ → Bound
  pub udp : ℕ → Bound
  pub tcp6 : ℕ → Bound
  pub udp6 : ℕ → Bound
  pub connects : ℕ → Bool
  pub connects6 : ℕ → Bool

abbrev pub is_taken : Bound → Bool
is_taken in_use = true
is_taken _ = false

abbrev pub is_free : Bound → Bool
is_free bound = true
is_free _ = false

module _ (s : Sockets) where
  -- `is_port_in_use`
  abbrev pub is_port_in_use : ℕ → Bool
  is_port_in_use port =
      not (is_free (s.tcp port))
      || not (is_free (s.udp port))
      || is_taken (s.tcp6 port)
      || is_taken (s.udp6 port)

  -- `is_port_listening_tcp`
  abbrev pub is_port_listening_tcp : ℕ → Bool
  is_port_listening_tcp port = s.connects port || s.connects6 port

  -- `is_port_listening_udp`
  abbrev pub is_port_listening_udp : ℕ → Bool
  is_port_listening_udp port = is_taken (s.udp port) || is_taken (s.udp6 port)

  abbrev pub in_range : ℕ → Bool
  in_range port = leb 1024 port && leb port 65535

  -- `validate_ports`; `false` stands for an exit with an error.
  unfoldable pub validate_ports : ℕ → ℕ → Bool → Bool
  validate_ports transport_port dns_port external_daemon =
      in_range transport_port
      && in_range dns_port
      && not (transport_port == dns_port)
      && (if external_daemon
          then is_port_listening_tcp transport_port && is_port_listening_udp dns_port
          else not (is_port_in_use transport_port) && not (is_port_in_use dns_port))

-- `/proc/net/tcp` and `/proc/net/tcp6` without their first lines, where `none` stands for a file that
-- cannot be opened; `local_address.endswith(...)` for a port, and `int`.
pub record Net : Type 0 where
  pub tcp : Option (List (List String))
  pub tcp6 : Option (List (List String))
  pub is_port : ℕ → String → Bool
  pub int_of : String → ℕ

-- The fields of a line with eight or more: the local address, the state and the uid.
abbrev pub fields_of : List String → Option (String × String × String)
fields_of (sl ∷ local ∷ remote ∷ st ∷ queues ∷ timer ∷ retransmits ∷ uid ∷ rest) =
    some (local, st, uid)
fields_of _ = none

module _ (n : Net) (port : ℕ) where
  abbrev pub is_listening : Option (String × String × String) → Bool
  is_listening none = false
  is_listening (some (local, st, uid)) = n.is_port port local && str_eq st "0A"

  abbrev pub uid_of : Option (String × String × String) → Option ℕ
  uid_of none = none
  uid_of (some (local, st, uid)) = some (n.int_of uid)

  -- The loop over a file's lines.
  unfoldable pub find_owner : List (List String) → Option ℕ
  find_owner [] = none
  find_owner (line ∷ lines) =
      let rest = find_owner lines in
      if is_listening (fields_of line) then uid_of (fields_of line) else rest

  abbrev pub owner_in : Option (List (List String)) → Option ℕ
  owner_in none = none
  owner_in (some lines) = find_owner lines

  abbrev pub or_else : Option ℕ → Option ℕ → Option ℕ
  or_else none other = other
  or_else (some uid) other = some uid

  -- `get_uid_from_port`
  unfoldable pub get_uid_from_port : Option ℕ
  unfolding find_owner
  get_uid_from_port = or_else (owner_in n.tcp) (owner_in n.tcp6)
