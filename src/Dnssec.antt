-- ===== src/Dnssec.antt =====
-- ttp/dns_policy.py, `check_dnssec_policy` and `_configured_mode`: the refusal of sessions on hosts
-- that require DNSSEC. What systemd-resolved, networkd's files and the kernel answer is an argument.
mod Tests
use transparent_tor_proxy.Base.{
  ℕ, ◌≡◌, ◌≢◌, refl, Bool, true, false, not, ◌&&◌, ◌||◌, String, Option, none, some, List, [], ◌∷◌,
  All, arith, contains, str_eq, str_eq→eq, str_eq_refl, if◌then◌else◌, inl, inr, ◌⊎◌, Bool-cases,
}

-- `_link_state`: the fields "ADMIN_STATE" and "DNSSEC" of a file, checked as it reads them.
pub record LinkState : Type 0 where
  pub admin_state : Option String
  pub dnssec : Option String

-- A file is absent, makes `_link_state` raise, or is read.
pub data LinkFile : Type 0 where
  absent unreadable : LinkFile
  read : LinkState → LinkFile

-- What `_configured_mode` gives: an exception, or the mode, if one is configured.
pub data Mode : Type 0 where
  unknown : Mode
  mode : Option String → Mode

abbrev pub resolved_mode : LinkFile → Mode
resolved_mode absent = mode none
resolved_mode unreadable = unknown
resolved_mode (read l) = mode l.dnssec

abbrev unmanaged : List String
unmanaged = "pending" ∷ "initialized" ∷ "unmanaged" ∷ []

abbrev managed : List String
managed = "configuring" ∷ "configured" ∷ "failed" ∷ "linger" ∷ []

-- `_configured_mode`, over networkd's file and resolved's.
abbrev pub configured_mode : LinkFile → LinkFile → Mode
configured_mode unreadable saved = unknown
configured_mode absent saved = resolved_mode saved
configured_mode (read l) saved = elim l.admin_state [
  | none ↦ unknown
  | some state ↦
      if contains state managed
      then mode l.dnssec
      else if contains state unmanaged
      then resolved_mode saved
      else unknown
]

-- What is found of one link: both files, twice, and resolved's own value (`none` if it cannot be had).
pub record Link : Type 0 where
  pub name : String
  pub networkd : LinkFile
  pub saved : LinkFile
  pub networkd_again : LinkFile
  pub saved_again : LinkFile
  pub effective : Option String

-- `active` is `none` where `is_resolved_active` raises. `unchanged` is whether the links, and the
-- global mode, are the same at the end.
pub record Found : Type 0 where
  pub active : Option Bool
  pub global_mode : Option String
  pub links : List Link
  pub unchanged : Bool

pub data Verdict : Type 0 where
  passes conflicts undetermined : Verdict

abbrev same_mode : Option String → Mode → Bool
same_mode m unknown = false
same_mode none (mode none) = true
same_mode (some s) (mode (some t)) = str_eq s t
same_mode _ _ = false

-- `mode or global_mode`
abbrev pub or_global : Option String → String → String
or_global none global = global
or_global (some s) global = if str_eq s "" then global else s

abbrev requires : Option String → Bool
requires none = false
requires (some s) = str_eq s "yes"

abbrev is_text : Option String → String → Bool
is_text none t = false
is_text (some s) t = str_eq s t

abbrev check_mode : String → Link → Mode → Verdict
check_mode global l unknown = undetermined
check_mode global l (mode m) =
    if requires m
    then conflicts
    else if same_mode m (configured_mode l.networkd_again l.saved_again)
        && is_text l.effective (or_global m global)
    then passes
    else undetermined

pub check_link : String → Link → Verdict
check_link global l =
    if str_eq l.name "lo" then passes else check_mode global l (configured_mode l.networkd l.saved)

-- The loop over the links.
pub check_links : String → List Link → Bool → Verdict
check_links global [] unchanged = if unchanged then passes else undetermined
check_links global (l ∷ ls) unchanged =
    let rest = check_links global ls unchanged in
    elim (check_link global l) [
      | passes ↦ rest
      | conflicts ↦ conflicts
      | undetermined ↦ undetermined
    ]

unfoldable pub check_dnssec_policy : Found → Verdict
unfolding check_links check_link
check_dnssec_policy f = elim f.active [
  | none ↦ undetermined
  | some false ↦ passes
  | some true ↦ elim f.global_mode [
    | none ↦ undetermined
    | some global ↦ check_links global f.links f.unchanged
  ]
]

-- The link is loopback, or its configured mode is known and not `yes`, and resolved acts by it.
abbrev pub Allows : String → Link → Type 0
Allows global l =
    (l.name ≡ "lo")
    ⊎ ((m : Option String) × (configured_mode l.networkd l.saved ≡ mode m)
        × (m ≢ some "yes")
        × (l.effective ≡ some (or_global m global)))

not_required : (m : Option String) → requires m ≡ false → m ≢ some "yes"
not_required none h e = cc
not_required (some s) h e = ground (arith, str_eq_refl "yes")

is_text-eq : (s : Option String) (t : String) → is_text s t ≡ true → s ≡ some t
is_text-eq none t h = cc
is_text-eq (some s) t h = grind (arith, str_eq→eq)

check_mode-Allows :
    (global : String) (l : Link) (x : Mode)
    → check_mode global l x ≡ passes
    → (m : Option String) × (x ≡ mode m)
      × (m ≢ some "yes")
      × (l.effective ≡ some (or_global m global))
check_mode-Allows global l unknown h = cc
check_mode-Allows global l (mode m) h = (
  m,
  refl,
  not_required m (ground arith),
  is_text-eq l.effective (or_global m global) (ground arith),
)

check_link-Allows : (global : String) (l : Link) → check_link global l ≡ passes → Allows global l
unfolding check_link
check_link-Allows global l h = elim (Bool-cases (str_eq l.name "lo")) [
  | inl e ↦ inl (str_eq→eq l.name "lo" e)
  | inr e ↦ inr (check_mode-Allows global l (configured_mode l.networkd l.saved) (ground arith))
]

check_links-Allows :
    (global : String) (ls : List Link) (unchanged : Bool)
    → check_links global ls unchanged ≡ passes
    → All (Allows global) ls
unfolding check_links
check_links-Allows global [] unchanged h = tt
check_links-Allows global (l ∷ ls) unchanged h = (
  check_link-Allows global l (ground arith),
  check_links-Allows global ls unchanged (ground arith),
)

-- Where systemd-resolved runs, its global mode is known and the preflight passes, each link but
-- loopback has a configured mode that is known and is not `yes`, and resolved acts by that mode, or by
-- the global one where none is configured.
pub check_dnssec_policy-Allows :
    (f : Found) (global : String)
    → f.active ≡ some true
    → f.global_mode ≡ some global
    → check_dnssec_policy f ≡ passes
    → All (Allows global) f.links
unfolding check_dnssec_policy
check_dnssec_policy-Allows f global active known h =
    check_links-Allows global f.links f.unchanged (ground arith)
