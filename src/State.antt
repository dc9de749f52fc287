-- ===== src/State.antt =====
-- ttp/state.py: whether the process of a lock is TTP, orphaned locks, and recovery from them. A byte
-- string is the list of its bytes.
pub mod Tokens
mod Tests
use transparent_tor_proxy.Base.{
  ℕ, Bool, true, false, not, ◌&&◌, ◌||◌, Option, none, some, List, [], ◌∷◌, keep, ◌==◌,
  if◌then◌else◌,
}

abbrev pub bytes_eq : List ℕ → List ℕ → Bool
bytes_eq [] [] = true
bytes_eq (a ∷ xs) (b ∷ ys) = a == b && bytes_eq xs ys
bytes_eq _ _ = false

abbrev pub ttp : List ℕ
ttp = b't' ∷ b't' ∷ b'p' ∷ []

abbrev pub ttp_cli : List ℕ
ttp_cli = b't' ∷ b't' ∷ b'p' ∷ b'.' ∷ b'c' ∷ b'l' ∷ b'i' ∷ []

-- `token in _TTP_ARGV_TOKENS`
abbrev pub is_ttp_token : List ℕ → Bool
is_ttp_token token = bytes_eq token ttp || bytes_eq token ttp_cli

-- `data.split(sep)`: there is a last piece, empty or not.
abbrev first_onto : ℕ → List (List ℕ) → List (List ℕ)
first_onto b [] = (b ∷ []) ∷ []
first_onto b (piece ∷ pieces) = (b ∷ piece) ∷ pieces

pub split : ℕ → List ℕ → List (List ℕ)
split sep [] = [] ∷ []
split sep (b ∷ bs) = let rest = split sep bs in if b == sep then [] ∷ rest else first_onto b rest

abbrev non_empty_bytes : List ℕ → Bool
non_empty_bytes [] = false
non_empty_bytes _ = true

abbrev pub argv_of : List ℕ → List (List ℕ)
argv_of cmdline = keep non_empty_bytes (split 0 cmdline)

abbrev has_slash : List ℕ → Bool
has_slash [] = false
has_slash (b ∷ bs) = b == b'/' || has_slash bs

-- `token.rsplit(b"/", 1)[-1]`: what stands behind the last slash.
unfoldable pub basename : List ℕ → List ℕ
basename [] = []
basename (b ∷ bs) =
    let rest = basename bs in if has_slash bs then rest else if b == b'/' then bs else b ∷ bs

-- `argv[index + 1] in _TTP_ARGV_TOKENS`, if there is such a token.
abbrev next_is_ttp : List (List ℕ) → Bool
next_is_ttp [] = false
next_is_ttp (token ∷ _) = is_ttp_token token

-- The loop of `_is_pid_ttp`.
pub any_ttp : List (List ℕ) → Bool
any_ttp [] = false
any_ttp (token ∷ tokens) =
    let rest = any_ttp tokens in
    if is_ttp_token (basename token)
    then true
    else if bytes_eq token (b'-' ∷ b'm' ∷ []) && next_is_ttp tokens
    then true
    else rest

-- `_is_pid_ttp`, over the bytes of `/proc/<pid>/cmdline`; `none` if they cannot be read.
pub is_pid_ttp : Option (List ℕ) → Bool
is_pid_ttp none = false
is_pid_ttp (some cmdline) = any_ttp (argv_of cmdline)

-- What `is_orphan` finds: the lock's `pid`, if it has one, and whether signal 0 reaches that process.
pub record Holder : Type 0 where
  pub pid : Option ℕ
  pub alive : ℕ → Bool
  pub cmdline : ℕ → Option (List ℕ)

abbrev holder_orphan : Holder → Bool
holder_orphan h = elim h.pid [
  | none ↦ true
  | some pid ↦ if h.alive pid then not (is_pid_ttp (h.cmdline pid)) else true
]

-- The outer `none` is that of `read_lock`.
pub is_orphan : Option Holder → Bool
is_orphan none = false
is_orphan (some h) = holder_orphan h

-- What `attempt_recovery` does: whether it ran each callback, and how it ended.
pub data Ending : Type 0 where
  returned : Bool → Ending
  raised : Ending

pub record Recovered : Type 0 where
  pub firewall_tried : Bool
  pub dns_tried : Bool
  pub lock_left : Bool
  pub ending : Ending

-- `destroyed` and `restored` say whether the two callbacks return.
pub attempt_recovery : Bool → Bool → Bool → Recovered
attempt_recovery has_lock destroyed restored =
    if has_lock
    then record {
      firewall_tried = true;
      dns_tried = destroyed;
      lock_left = false;
      ending = if destroyed && restored then returned true else raised;
    }
    else record {
      firewall_tried = false;
      dns_tried = false;
      lock_left = false;
      ending = returned false;
    }
