-- ===== src/Paths.antt =====
-- ttp/paths.py: the trusted resolution of external binaries, at a call that is not answered from the cache.
pub mod Safe
mod Tests
use transparent_tor_proxy.Base.{
  ℕ, Bool, true, false, not, ◌&&◌, ◌||◌, String, ◌<>◌, Option, none, some, List, [], ◌∷◌, any_of,
  non_empty, str_eq, if◌then◌else◌, ◌==◌,
}

abbrev pub trusted_dirs : List String
trusted_dirs =
    "/usr/sbin" ∷ "/sbin" ∷ "/usr/bin" ∷ "/bin" ∷ "/usr/local/sbin" ∷ "/usr/local/bin" ∷ []

-- What `stat` says of a path: the owner and the two write bits, or an `OSError`.
pub record Info : Type 0 where
  pub uid : ℕ
  pub group_writable : Bool
  pub other_writable : Bool

pub record FileSystem : Type 0 where
  pub stat : String → Option Info
  pub is_file : String → Bool
  pub executable : String → Bool

pub data Resolved : Type 0 where
  value_error not_found : Resolved
  unsafe found : String → Resolved

-- Only root can write.
abbrev pub root_only : Option Info → Bool
root_only none = false
root_only (some info) = info.uid == 0 && not (info.group_writable || info.other_writable)

module _ (fs : FileSystem) where
  -- `_is_safely_owned`, of a path in a directory.
  unfoldable pub is_safely_owned : String → String → Bool
  is_safely_owned path parent = root_only (fs.stat path) && root_only (fs.stat parent)

  abbrev pub usable : String → Bool
  usable path = fs.is_file path && fs.executable path

  -- The loop over `TRUSTED_DIRS`.
  unfoldable pub search_dirs : String → List String → Resolved
  search_dirs binary [] = not_found
  search_dirs binary (dir ∷ dirs) =
      let path = dir <> ("/" <> binary) in
      let rest = search_dirs binary dirs in
      if not (usable path)
      then rest
      else if is_safely_owned path dir
      then found path
      else unsafe path

  -- `"/" in binary` is `has_slash`.
  unfoldable pub resolve : (String → Bool) → String → Resolved
  resolve has_slash binary =
      if not (non_empty binary) || has_slash binary
      then value_error
      else search_dirs binary trusted_dirs

  -- `resolve_optional`: `none` for an absent binary; the other failures propagate.
  unfoldable pub resolve_optional : (String → Bool) → String → Option Resolved
  resolve_optional has_slash binary = elim (resolve has_slash binary) [
    | not_found ↦ none
    | value_error ↦ some value_error
    | unsafe path ↦ some (unsafe path)
    | found path ↦ some (found path)
  ]
