-- ===== src/Notifications/Quote.antt =====
-- ttp/notifications/service.py, `_quote`: an argument as it stands in ExecStart of the agent's unit. A
-- text is the list of its code points.
use mathlib.Core.List.{append_assoc}
use transparent_tor_proxy.Base.{
  ℕ, ◌≤◌, ◌≡◌, refl, ap, ◌∙◌, Bool, false, ◌||◌, ◌&&◌, Option, none, some, List, [], ◌∷◌, ◌++◌,
  arith, ltb, ◌==◌, any_of, All, if◌then◌else◌, Bool-cases, inl, inr,
}

-- `value.replace(...)` of one character.
unfoldable pub replace : ℕ → List ℕ → List ℕ → List ℕ
replace c by [] = []
replace c by (x ∷ xs) = let rest = replace c by xs in if x == c then by ++ rest else x ∷ rest

unfoldable pub escaped : List ℕ → List ℕ
unfolding replace
escaped v =
    replace 36 (36 ∷ 36 ∷ [])
      (replace 37 (37 ∷ 37 ∷ []) (replace 34 (92 ∷ 34 ∷ []) (replace 92 (92 ∷ 92 ∷ []) v)))

-- `none` stands for the `NotificationError`.
unfoldable pub quote : List ℕ → Option (List ℕ)
unfolding escaped
quote v = if any_of (λ c. ltb c 32) v then none else some (34 ∷ (escaped v ++ (34 ∷ [])))

abbrev cons : ℕ → Option (List ℕ) → Option (List ℕ)
cons c none = none
cons c (some v) = some (c ∷ v)

-- What follows a character that is not taken for itself: a backslash is for itself or a quotation mark,
-- a percent sign and a dollar are doubled.
abbrev is_pair : ℕ → ℕ → Bool
is_pair p c = (p == 92 && (c == 92 || c == 34)) || (p == 37 && c == 37) || (p == 36 && c == 36)

abbrev is_special : ℕ → Bool
is_special c = c == 92 || c == 37 || c == 36

-- How systemd reads a quoted word of ExecStart, where no specifier, no variable and no other escape
-- stands in it: up to the quotation mark, which ends it. The first argument is a special character
-- that waits for its second half.
unfoldable pub read_quoted : Option ℕ → List ℕ → Option (List ℕ)
read_quoted p [] = none
read_quoted (some p) (c ∷ cs) =
    let rest = read_quoted none cs in if is_pair p c then cons c rest else none
read_quoted none (c ∷ cs) =
    let rest = read_quoted (if is_special c then some c else none) cs in
    if c == 34
    then (elim cs [ [] ↦ some [] | _ ∷ _ ↦ none ])
    else if is_special c
    then rest
    else cons c rest

unfoldable pub read_word : List ℕ → Option (List ℕ)
unfolding read_quoted
read_word [] = none
read_word (c ∷ cs) = if c == 34 then read_quoted none cs else none

-- What becomes of one character.
abbrev escape : ℕ → List ℕ
escape c =
    if c == 92
    then 92 ∷ 92 ∷ []
    else if c == 34
    then 92 ∷ 34 ∷ []
    else if c == 37
    then 37 ∷ 37 ∷ []
    else if c == 36
    then 36 ∷ 36 ∷ []
    else c ∷ []

escaped-cons : (c : ℕ) (v : List ℕ) → escaped (c ∷ v) ≡ escape c ++ escaped v
unfolding escaped replace
escaped-cons c v = ground arith

read-escape :
    (c : ℕ) (rest w : List ℕ)
    → read_quoted none rest ≡ some w
    → read_quoted none (escape c ++ rest) ≡ some (c ∷ w)
unfolding read_quoted
read-escape c rest w h = ground (arith, h)

read-escaped : (v : List ℕ) → read_quoted none (escaped v ++ (34 ∷ [])) ≡ some v
read-escaped [] = unfold read_quoted in unfold escaped in refl
read-escaped (c ∷ v) =
    ap (λ l. read_quoted none (l ++ (34 ∷ []))) (escaped-cons c v)
    ∙ ap (read_quoted none) (append_assoc (escape c) (escaped v) (34 ∷ []))
    ∙ read-escape c (escaped v ++ (34 ∷ [])) v (read-escaped v)

escaped-empty : escaped [] ≡ []
unfolding escaped replace
escaped-empty = refl

-- No code point below 32 is left in a quoted argument.
abbrev pub IsPrintable : List ℕ → Type 0
IsPrintable = All (λ c. 32 ≤ c)

escape-IsPrintable : (c : ℕ) (e : List ℕ) → 32 ≤ c → IsPrintable e → IsPrintable (escape c ++ e)
escape-IsPrintable c e h k = elim (Bool-cases (c == 92)) [
  | inl a ↦ rw a (omega arith, (omega arith, k))
  | inr a ↦ elim (Bool-cases (c == 34)) [
    | inl b ↦ rw (a, b) (omega arith, (omega arith, k))
    | inr b ↦ elim (Bool-cases (c == 37)) [
      | inl d ↦ rw (a, b, d) (omega arith, (omega arith, k))
      | inr d ↦ elim (Bool-cases (c == 36)) [
        | inl f ↦ rw (a, b, d, f) (omega arith, (omega arith, k))
        | inr f ↦ rw (a, b, d, f) (h, k)
      ]
    ]
  ]
]

escaped-IsPrintable :
    (v e : List ℕ) → any_of (λ c. ltb c 32) v ≡ false → IsPrintable e → IsPrintable (escaped v ++ e)
escaped-IsPrintable [] e h k = rw escaped-empty k
escaped-IsPrintable (c ∷ v) e h k =
    rw (escaped-cons c v, append_assoc (escape c) (escaped v) e)
      (escape-IsPrintable c (escaped v ++ e) (ground (arith, h))
        (escaped-IsPrintable v e (ground (arith, h)) k))

-- An argument that `_quote` accepts is read back from what it gives, by the rules for a quoted word of
-- ExecStart, and what it gives holds no code point below 32, so no line feed.
pub read_word-quote : (v q : List ℕ) → quote v ≡ some q → (read_word q ≡ some v) × IsPrintable q
unfolding quote read_word
read_word-quote v q h = elim (Bool-cases (any_of (λ c. ltb c 32) v)) [
  | inl e ↦ absurd (ground (arith, h, e))
  | inr e ↦
      let whole : some (34 ∷ (escaped v ++ (34 ∷ []))) ≡ some q = rw e at h in
      let same : 34 ∷ (escaped v ++ (34 ∷ [])) ≡ q = cc in
      rw (← same)
        (read-escaped v, (omega arith, escaped-IsPrintable v (34 ∷ []) e (omega arith, tt)))
]
