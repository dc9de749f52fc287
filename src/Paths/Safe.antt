-- ===== src/Paths/Safe.antt =====
-- The binary that `resolve` gives is the first usable one, and only root can replace it.
use transparent_tor_proxy.Base.{
  ◌≡◌, ◌≢◌, refl, ap, Bool, true, false, String, ◌<>◌, Option, none, some, List, [], ◌∷◌, ◌++◌, All,
  arith, Bool-cases, inl, inr, ne-empty,
}
use transparent_tor_proxy.Paths.{
  trusted_dirs, Info, FileSystem, found, root_only, is_safely_owned, usable, search_dirs, resolve,
}

-- Root owns it, and neither its group nor others can write.
abbrev pub IsRootOnly : Option Info → Type 0
IsRootOnly i =
    (info : Info) × (i ≡ some info)
    × (info.uid ≡ 0)
    × (info.group_writable ≡ false)
    × (info.other_writable ≡ false)

root_only-IsRootOnly : (i : Option Info) → root_only i ≡ true → IsRootOnly i
root_only-IsRootOnly none h = cc
root_only-IsRootOnly (some info) h = (info, refl, ground arith, ground arith, ground arith)

module _ (fs : FileSystem) (binary : String) where
  -- The binary's path in a directory.
  abbrev pub path_in : String → String
  path_in dir = dir <> ("/" <> binary)

  -- The path is that of the binary in one of the directories; it is usable and no earlier one is; and
  -- only root can write it or its directory.
  pub record IsFirstSafe (dirs : List String) (path : String) : Type 0 where
    pub before : List String
    pub dir : String
    pub after : List String
    pub split : dirs ≡ before ++ dir ∷ after
    pub at : path ≡ path_in dir
    pub passed : All (λ d. usable fs (path_in d) ≡ false) before
    pub is_usable : usable fs path ≡ true
    pub file_safe : IsRootOnly (fs.stat path)
    pub dir_safe : IsRootOnly (fs.stat dir)

  found-eq : (p q : String) → found p ≡ found q → p ≡ q
  found-eq p q h = ground arith

  later :
      (dir path : String) (dirs : List String)
      → usable fs (path_in dir) ≡ false
      → IsFirstSafe dirs path
      → IsFirstSafe (dir ∷ dirs) path
  later dir path dirs useless s = record {
    before = dir ∷ s.before;
    dir = s.dir;
    after = s.after;
    split = ap (λ ds. dir ∷ ds) s.split;
    at = s.at;
    passed = (useless, s.passed);
    is_usable = s.is_usable;
    file_safe = s.file_safe;
    dir_safe = s.dir_safe;
  }

  search_dirs-IsFirstSafe :
      (dirs : List String) (path : String)
      → search_dirs fs binary dirs ≡ found path
      → IsFirstSafe dirs path
  unfolding search_dirs is_safely_owned
  search_dirs-IsFirstSafe [] path h = cc
  search_dirs-IsFirstSafe (dir ∷ dirs) path h = elim (Bool-cases (usable fs (path_in dir))) [
    | inr e ↦ later dir path dirs e (search_dirs-IsFirstSafe dirs path (ground arith))
    | inl e ↦
        let at : path ≡ path_in dir = ground arith in
        record {
          before = [];
          dir = dir;
          after = dirs;
          split = refl;
          at = at;
          passed = tt;
          is_usable = rw at e;
          file_safe = rw at (root_only-IsRootOnly _ (ground arith));
          dir_safe = root_only-IsRootOnly _ (ground arith);
        }
  ]

  -- A binary that is resolved has a name that is neither empty nor a path, and the path found is that
  -- of the first usable candidate in the trusted directories, with only root able to write it or its
  -- directory: a usable candidate that others can write is never passed over for a later one.
  pub resolve-IsFirstSafe :
      (has_slash : String → Bool) (path : String)
      → resolve fs has_slash binary ≡ found path
      → (binary ≢ "") × (has_slash binary ≡ false) × IsFirstSafe trusted_dirs path
  unfolding resolve
  resolve-IsFirstSafe has_slash path h = (
    ground (arith, ne-empty binary),
    ground arith,
    search_dirs-IsFirstSafe trusted_dirs path (ground arith),
  )
