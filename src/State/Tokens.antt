-- ===== src/State/Tokens.antt =====
-- The process test looks at whole tokens of the command line.
use transparent_tor_proxy.Base.{
  ℕ, ◌≡◌, refl, ap, ◌∙◌, true, some, List, [], ◌∷◌, ◌++◌, All, any_of, arith, Bool-cases, inl, inr,
  ◌<◌,
}
use transparent_tor_proxy.State.{
  bytes_eq, ttp, ttp_cli, is_ttp_token, split, argv_of, basename, any_ttp, is_pid_ttp,
}

-- The kernel ends each argument by a NUL.
abbrev pub cmdline_of : List (List ℕ) → List ℕ
cmdline_of [] = []
cmdline_of (token ∷ tokens) = token ++ 0 ∷ cmdline_of tokens

-- An argument that is not empty and holds no NUL.
abbrev pub NoNul : List ℕ → Type 0
NoNul [] = Unit
NoNul (b ∷ bs) = (0 < b) × NoNul bs

abbrev pub IsArgument : List ℕ → Type 0
IsArgument [] = ⊥
IsArgument (b ∷ bs) = NoNul (b ∷ bs)

split-append :
    (token rest : List ℕ) → NoNul token → split 0 (token ++ 0 ∷ rest) ≡ token ∷ split 0 rest
unfolding split
split-append [] rest h = refl
split-append (b ∷ bs) rest h = ground (arith, split-append bs rest h.1)

argv_of-token :
    (token rest : List ℕ) → IsArgument token → argv_of (token ++ 0 ∷ rest) ≡ token ∷ argv_of rest
argv_of-token [] rest h = absurd h
argv_of-token (b ∷ bs) rest h = rw (split-append (b ∷ bs) rest h) refl

argv_of-cmdline_of :
    (tokens : List (List ℕ)) → All IsArgument tokens → argv_of (cmdline_of tokens) ≡ tokens
unfolding split
argv_of-cmdline_of [] h = refl
argv_of-cmdline_of (token ∷ tokens) h =
    argv_of-token token (cmdline_of tokens) h.0
    ∙ ap (λ ts. token ∷ ts) (argv_of-cmdline_of tokens h.1)

bytes_eq→eq : (xs ys : List ℕ) → bytes_eq xs ys ≡ true → xs ≡ ys
bytes_eq→eq [] [] h = refl
bytes_eq→eq [] (y ∷ ys) h = cc
bytes_eq→eq (x ∷ xs) [] h = cc
bytes_eq→eq (x ∷ xs) (y ∷ ys) h = grind (arith, bytes_eq→eq xs ys)

plain_ttp : is_ttp_token (basename ttp) ≡ true
unfolding basename
plain_ttp = refl

plain_ttp_cli : is_ttp_token (basename ttp_cli) ≡ true
unfolding basename
plain_ttp_cli = refl

is_ttp_token-basename :
    (token : List ℕ) → is_ttp_token token ≡ true → is_ttp_token (basename token) ≡ true
is_ttp_token-basename token h = elim (Bool-cases (bytes_eq token ttp)) [
  | inl e ↦ rw (bytes_eq→eq token ttp e) plain_ttp
  | inr e ↦ rw (bytes_eq→eq token ttp_cli (ground arith)) plain_ttp_cli
]

any_ttp-eq :
    (tokens : List (List ℕ)) → any_ttp tokens ≡ any_of (λ t. is_ttp_token (basename t)) tokens
unfolding any_ttp
any_ttp-eq [] = refl
any_ttp-eq (token ∷ []) = ground arith
any_ttp-eq (token ∷ next ∷ tokens) =
    ground (arith, any_ttp-eq (next ∷ tokens), is_ttp_token-basename next)

-- A process is taken for TTP exactly if the base name of one of its arguments is `ttp` or `ttp.cli`,
-- whatever the bytes of its arguments: an argument that merely contains those bytes does not count.
pub is_pid_ttp-cmdline_of :
    (tokens : List (List ℕ))
    → All IsArgument tokens
    → is_pid_ttp (some (cmdline_of tokens)) ≡ any_of (λ t. is_ttp_token (basename t)) tokens
unfolding is_pid_ttp
is_pid_ttp-cmdline_of tokens h = ap any_ttp (argv_of-cmdline_of tokens h) ∙ any_ttp-eq tokens
