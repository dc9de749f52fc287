-- ===== src/Start/Owner.antt =====
-- ttp/commands/_tor_setup.py with _ports.py: the user of an external Tor and the sockets of the host.
use transparent_tor_proxy.Base.{
  ℕ, ◌≡◌, ◌≢◌, true, String, Option, none, some, List, [], ◌∷◌, arith, contains, Bool-cases, inl,
  inr, ◌⊎◌,
}
use transparent_tor_proxy.Start.External.{
  Names, number_or_name, known_tor_usernames, resolve_external_tor_uid,
  resolve_external_tor_uid-IsTorUser,
}
use transparent_tor_proxy.Start.Ports.{
  Net, fields_of, is_listening, uid_of, find_owner, owner_in, or_else, get_uid_from_port,
}

-- A line of the file is of a listening socket on the port with this owner.
abbrev pub IsOwner : Net → ℕ → ℕ → List (List String) → Type 0
IsOwner n port uid [] = ⊥
IsOwner n port uid (line ∷ lines) =
    ((is_listening n port (fields_of line) ≡ true) × (uid_of n port (fields_of line) ≡ some uid))
    ⊎ IsOwner n port uid lines

abbrev pub OwnsIn : Net → ℕ → ℕ → Option (List (List String)) → Type 0
OwnsIn n port uid none = ⊥
OwnsIn n port uid (some lines) = IsOwner n port uid lines

module _ (n : Net) (port uid : ℕ) where
  find_owner-IsOwner :
      (lines : List (List String)) → find_owner n port lines ≡ some uid → IsOwner n port uid lines
  unfolding find_owner
  find_owner-IsOwner [] h = absurd (ground (arith, h))
  find_owner-IsOwner (line ∷ lines) h = elim (Bool-cases (is_listening n port (fields_of line))) [
    | inl e ↦ inl (e, rw e at h)
    | inr e ↦ inr (find_owner-IsOwner lines (rw e at h))
  ]

  owner_in-OwnsIn :
      (o : Option (List (List String))) → owner_in n port o ≡ some uid → OwnsIn n port uid o
  owner_in-OwnsIn none h = absurd (ground (arith, h))
  owner_in-OwnsIn (some lines) h = find_owner-IsOwner lines h

  or_else-cases : (a b : Option ℕ) → or_else n port a b ≡ some uid → (a ≡ some uid) ⊎ (b ≡ some uid)
  or_else-cases none b h = inr h
  or_else-cases (some k) b h = inl h

  get_uid_from_port-OwnsIn :
      get_uid_from_port n port ≡ some uid → OwnsIn n port uid n.tcp ⊎ OwnsIn n port uid n.tcp6
  unfolding get_uid_from_port
  get_uid_from_port-OwnsIn h =
      elim (or_else-cases (owner_in n port n.tcp) (owner_in n port n.tcp6) h) [
        | inl e ↦ inl (owner_in-OwnsIn n.tcp e)
        | inr e ↦ inr (owner_in-OwnsIn n.tcp6 e)
      ]

-- The user that an external Tor is taken to run as, and that the firewall exempts, is the one that the
-- option names; or the account "tor" or "debian-tor"; or the owner of a socket that /proc/net lists as
-- listening on the TransPort, and then it is not root and its whole name is, in any case of its letters,
-- one of the known names of Tor's account.
pub resolve_external_tor_uid-OwnsIn :
    (names : Names) (n : Net) (tor_uid_override : Option String) (port uid : ℕ)
    → resolve_external_tor_uid names tor_uid_override (get_uid_from_port n port) ≡ some uid
    → ((s : String) × (s ≢ "") × (tor_uid_override ≡ some s) × (number_or_name names s ≡ some uid))
      ⊎ (names.by_name "tor" ≡ some uid)
      ⊎ (names.by_name "debian-tor" ≡ some uid)
      ⊎ ((OwnsIn n port uid n.tcp ⊎ OwnsIn n port uid n.tcp6)
          × (uid ≢ 0)
          × ((name : String) × (names.name_of uid ≡ some name)
              × (contains (names.lower name) known_tor_usernames ≡ true)))
resolve_external_tor_uid-OwnsIn names n tor_uid_override port uid h =
    elim (resolve_external_tor_uid-IsTorUser names tor_uid_override (get_uid_from_port n port) uid
      h) [
        | inl chosen ↦ inl chosen
        | inr (inl (found, other, name)) ↦
            inr (inr (inr (get_uid_from_port-OwnsIn n port uid found, other, name)))
        | inr (inr (inl is)) ↦ inr (inl is)
        | inr (inr (inr is)) ↦ inr (inr (inl is))
      ]
