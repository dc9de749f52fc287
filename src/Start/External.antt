-- ===== src/Start/External.antt =====
-- ttp/commands/_tor_setup.py: the user of an external Tor, the users and groups that bypass Tor, and the
-- user behind root. The user database and /proc/net are not part of the program.
use transparent_tor_proxy.Base.{
  ℕ, ◌≡◌, ◌≢◌, ◌⊎◌, inl, inr, refl, Bool, true, false, not, ◌&&◌, String, Option, none, some, List,
  [], ◌∷◌, ◌++◌, arith, ◌==◌, contains, non_empty, if◌then◌else◌, keep, map, ne-empty,
}

-- `str.isdigit`, `int` where `none` stands for a `ValueError`, `str.lower`, `str.strip`, `str.split(",")`
-- and the database of users or of groups by name and by number, where `none` stands for a `KeyError`.
pub record Names : Type 0 where
  pub is_digits : String → Bool
  pub number : String → Option ℕ
  pub lower : String → String
  pub strip : String → String
  pub split : String → List String
  pub by_name : String → Option ℕ
  pub name_of : ℕ → Option String

-- `_KNOWN_TOR_USERNAMES`
abbrev pub known_tor_usernames : List String
known_tor_usernames = "tor" ∷ "debian-tor" ∷ "toranon" ∷ "_tor" ∷ []

-- How a step ends: the program leaves, the step finds nothing, or it finds a user.
pub data Step : Type 0 where
  leaves goes_on : Step
  found : ℕ → Step

abbrev pub or_leave : Option ℕ → Step
or_leave none = leaves
or_leave (some uid) = found uid

abbrev pub or_go_on : Option ℕ → Step
or_go_on none = goes_on
or_go_on (some uid) = found uid

abbrev pub then_try : Step → Step → Step
then_try leaves next = leaves
then_try goes_on next = next
then_try (found uid) next = found uid

module _ (names : Names) where
  -- A number or a name.
  abbrev pub number_or_name : String → Option ℕ
  number_or_name s = if names.is_digits s then names.number s else names.by_name s

  -- Step 1, where an empty text is no override.
  abbrev pub by_override : Option String → Step
  by_override none = goes_on
  by_override (some s) = if non_empty s then or_leave (number_or_name s) else goes_on

  abbrev pub known_owner : ℕ → Option String → Step
  known_owner uid none = goes_on
  known_owner uid (some name) =
      if contains (names.lower name) known_tor_usernames && not (uid == 0)
      then found uid
      else goes_on

  -- Step 2, over what `_get_uid_from_port` gives.
  abbrev pub by_socket : Option ℕ → Step
  by_socket none = goes_on
  by_socket (some uid) = known_owner uid (names.name_of uid)

  -- Step 3
  abbrev pub by_known_name : Step
  by_known_name = then_try (or_go_on (names.by_name "tor")) (or_go_on (names.by_name "debian-tor"))

  abbrev pub resolved : Step → Option ℕ
  resolved (found uid) = some uid
  resolved _ = none

  -- `_resolve_external_tor_uid`, whose text is the number in decimal; `none` stands for an exit with an
  -- error.
  unfoldable pub resolve_external_tor_uid : Option String → Option ℕ → Option ℕ
  resolve_external_tor_uid tor_uid_override detected =
      resolved
        (then_try (by_override tor_uid_override) (then_try (by_socket detected) by_known_name))

  -- The words of the options for bypasses.
  abbrev pub words : List String → List String
  words [] = []
  words (u ∷ us) = keep non_empty (map names.strip (names.split u)) ++ words us

  -- `getpwuid(uid)` or `getgrgid(gid)` must know the number.
  abbrev pub known_number : Option ℕ → Option ℕ
  known_number none = none
  known_number (some n) = elim (names.name_of n) [ none ↦ none | some name ↦ some n ]

  abbrev pub member : String → Option ℕ
  member s = if names.is_digits s then known_number (names.number s) else names.by_name s

  abbrev pub cons_all : Option ℕ → Option (List ℕ) → Option (List ℕ)
  cons_all (some n) (some ns) = some (n ∷ ns)
  cons_all _ _ = none

  abbrev pub members : List String → Option (List ℕ)
  members [] = some []
  members (s ∷ ss) = let rest = members ss in cons_all (member s) rest

-- What `_parse_bypass_users_groups` returns.
pub record Bypasses : Type 0 where
  pub users : List String
  pub groups : List String
  pub uids : List ℕ
  pub gids : List ℕ

abbrev pub both : List String → List String → Option (List ℕ) → Option (List ℕ) → Option Bypasses
both users groups (some uids) (some gids) =
    some (record { users = users; groups = groups; uids = uids; gids = gids })
both users groups _ _ = none

-- `_parse_bypass_users_groups`; `none` stands for an exit or a `ValueError`.
unfoldable pub parse_bypass_users_groups :
    Names → Names → List String → List String → Option Bypasses
parse_bypass_users_groups users groups bypass_user bypass_group =
    both (words users bypass_user) (words groups bypass_group)
      (members users (words users bypass_user)) (members groups (words groups bypass_group))

-- Where the user of an external Tor comes from.
abbrev pub IsTorUser : Names → Option String → Option ℕ → ℕ → Type 0
IsTorUser names tor_uid_override detected uid =
    ((s : String) × (s ≢ "") × (tor_uid_override ≡ some s) × (number_or_name names s ≡ some uid))
    ⊎ ((detected ≡ some uid)
        × (uid ≢ 0)
        × ((name : String) × (names.name_of uid ≡ some name)
            × (contains (names.lower name) known_tor_usernames ≡ true)))
    ⊎ (names.by_name "tor" ≡ some uid)
    ⊎ (names.by_name "debian-tor" ≡ some uid)

-- If a step finds a user, `P` holds of it.
abbrev Finds : (ℕ → Type 0) → Step → Type 0
Finds P (found uid) = P uid
Finds P _ = Unit

try-Finds : (P : ℕ → Type 0) (s t : Step) → Finds P s → Finds P t → Finds P (then_try s t)
try-Finds P leaves t h k = tt
try-Finds P goes_on t h k = k
try-Finds P (found uid) t h k = h

leave-Finds : (o : Option ℕ) → Finds (λ uid. o ≡ some uid) (or_leave o)
leave-Finds none = tt
leave-Finds (some uid) = refl

go_on-Finds : (o : Option ℕ) → Finds (λ uid. o ≡ some uid) (or_go_on o)
go_on-Finds none = tt
go_on-Finds (some uid) = refl

Finds-map : (P Q : ℕ → Type 0) (s : Step) → ((uid : ℕ) → P uid → Q uid) → Finds P s → Finds Q s
Finds-map P Q leaves k h = tt
Finds-map P Q goes_on k h = tt
Finds-map P Q (found uid) k h = k uid h

choose-Finds :
    (P : ℕ → Type 0) (b : Bool) (s : Step)
    → (b ≡ true → Finds P s)
    → Finds P (if b then s else goes_on)
choose-Finds P true s h = h refl
choose-Finds P false s h = tt

and-parts : (b c : Bool) → b && c ≡ true → (b ≡ true) × (c ≡ true)
and-parts b c h = (ground (arith, h), ground (arith, h))

module _ (names : Names) (tor_uid_override : Option String) (detected : Option ℕ) where
  abbrev Source : ℕ → Type 0
  Source = IsTorUser names tor_uid_override detected

  override-Finds : (o : Option String) → tor_uid_override ≡ o → Finds Source (by_override names o)
  override-Finds none e = tt
  override-Finds (some s) e =
      choose-Finds Source (non_empty s) (or_leave (number_or_name names s)) λ given.
        Finds-map _ Source (or_leave (number_or_name names s))
          (λ uid is. inl (s, ne-empty s given, e, is)) (leave-Finds (number_or_name names s))

  owner-Finds :
      (uid : ℕ) (o : Option String)
      → detected ≡ some uid
      → names.name_of uid ≡ o
      → Finds Source (known_owner names uid o)
  owner-Finds uid none e named = tt
  owner-Finds uid (some name) e named =
      choose-Finds Source (contains (names.lower name) known_tor_usernames && not (uid == 0))
        (found uid)
        λ known.
          let parts =
            and-parts (contains (names.lower name) known_tor_usernames) (not (uid == 0)) known in
          inr (inl (e, ground (arith, parts.1), (name, named, parts.0)))

  socket-Finds : (o : Option ℕ) → detected ≡ o → Finds Source (by_socket names o)
  socket-Finds none e = tt
  socket-Finds (some uid) e = owner-Finds uid (names.name_of uid) e refl

  known-Finds : Finds Source (by_known_name names)
  known-Finds =
      try-Finds Source (or_go_on (names.by_name "tor")) (or_go_on (names.by_name "debian-tor"))
        (Finds-map _ Source (or_go_on (names.by_name "tor")) (λ uid is. inr (inr (inl is)))
          (go_on-Finds (names.by_name "tor")))
        (Finds-map _ Source (or_go_on (names.by_name "debian-tor")) (λ uid is. inr (inr (inr is)))
          (go_on-Finds (names.by_name "debian-tor")))

  resolved-Finds : (s : Step) (uid : ℕ) → Finds Source s → resolved names s ≡ some uid → Source uid
  resolved-Finds leaves uid h e = absurd (ground (arith, e))
  resolved-Finds goes_on uid h e = absurd (ground (arith, e))
  resolved-Finds (found n) uid h e = let same : n ≡ uid = cc in rw (← same) h

  -- The user that an external Tor is taken to run as, and that the firewall exempts, is the one that the
  -- option names; or the owner of the port's socket, if it is not root and its whole name is, in any case
  -- of its letters, one of the known names of Tor's account; or the account "tor" or "debian-tor".
  pub resolve_external_tor_uid-IsTorUser :
      (uid : ℕ)
      → resolve_external_tor_uid names tor_uid_override detected ≡ some uid
      → IsTorUser names tor_uid_override detected uid
  unfolding resolve_external_tor_uid
  resolve_external_tor_uid-IsTorUser uid h =
      resolved-Finds
        (then_try (by_override names tor_uid_override)
          (then_try (by_socket names detected) (by_known_name names)))
        uid
        (try-Finds Source (by_override names tor_uid_override) _
          (override-Finds tor_uid_override refl)
          (try-Finds Source (by_socket names detected) (by_known_name names)
            (socket-Finds detected refl) known-Finds))
        h
