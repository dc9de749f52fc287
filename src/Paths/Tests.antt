-- ===== src/Paths/Tests.antt =====
-- A file system on which the resolution of binaries is tried.
use transparent_tor_proxy.Base.{
  ◌≡◌, ◌≢◌, refl, Bool, true, false, String, some, str_eq, string_discrete,
}
use transparent_tor_proxy.Paths.{
  trusted_dirs, FileSystem, found, search_dirs, resolve, is_safely_owned,
}
use transparent_tor_proxy.Paths.Safe.{IsFirstSafe, resolve-IsFirstSafe}

-- The binary is in one directory only, and all is root's.
abbrev files : FileSystem
files = record {
  stat = λ path. some (record { uid = 0; group_writable = false; other_writable = false });
  is_file = λ path. str_eq path "/usr/bin/nft";
  executable = λ path. true;
}

abbrev no_slash : String → Bool
no_slash s = false

nft_found : resolve files no_slash "nft" ≡ found "/usr/bin/nft"
unfolding resolve search_dirs is_safely_owned string_discrete
nft_found = refl

abbrev Differ : String → String → Type 0
Differ s t = s ≢ t

resolve-IsFirstSafe_example :
    Differ "nft" "" × (no_slash "nft" ≡ false) × IsFirstSafe files "nft" trusted_dirs "/usr/bin/nft"
resolve-IsFirstSafe_example = resolve-IsFirstSafe files "nft" no_slash "/usr/bin/nft" nft_found
