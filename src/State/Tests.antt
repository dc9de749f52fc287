-- ===== src/State/Tests.antt =====
-- Command lines on which the test of a process is tried.
use transparent_tor_proxy.Base.{ℕ, ◌≡◌, refl, false, some, List, [], ◌∷◌, All, any_of, arith}
use transparent_tor_proxy.State.{is_ttp_token, basename, is_pid_ttp}
use transparent_tor_proxy.State.Tokens.{cmdline_of, IsArgument, is_pid_ttp-cmdline_of}

-- `/bin/http` and `-x`
abbrev http : List (List ℕ)
http = (47 ∷ 98 ∷ 105 ∷ 110 ∷ 47 ∷ 104 ∷ 116 ∷ 116 ∷ 112 ∷ []) ∷ (45 ∷ 120 ∷ []) ∷ []

http-IsArgument : All IsArgument http
http-IsArgument = ground arith

is_pid_ttp-cmdline_of_example :
    is_pid_ttp (some (cmdline_of http)) ≡ any_of (λ t. is_ttp_token (basename t)) http
is_pid_ttp-cmdline_of_example = is_pid_ttp-cmdline_of http http-IsArgument

http_not_ttp : any_of (λ t. is_ttp_token (basename t)) http ≡ false
unfolding basename
http_not_ttp = refl
