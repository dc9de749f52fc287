-- ===== src/Evidence/Select.antt =====
-- The exit code that a list of diagnostics projects to (`Result.exit_code`, `Result.add`).
use transparent_tor_proxy.Base.{
  ℕ, ◌≤◌, ◌≡◌, refl, sym, ◌∙◌, ◌↔◌, ◌⊎◌, inl, inr, Bool, true, false, List, [], ◌∷◌, ◌++◌, All,
  arith, Bool-cases,
}
use transparent_tor_proxy.Evidence.{
  ExitCode, ok, usage, dnssec_conflict, priority, Diagnostic, Result, active_codes, max_code,
  max_default, exit_code, add,
}

-- Some active diagnostic has the code.
abbrev pub Reports : ExitCode → List Diagnostic → Type 0
Reports c [] = ⊥
Reports c (d ∷ ds) = (d.active ≡ true) × (d.code ≡ c) ⊎ Reports c ds

-- The codes that can occur once a session exists: all but those of preflight refusals.
abbrev pub is_session : ExitCode → Bool
is_session usage = false
is_session dnssec_conflict = false
is_session _ = true

abbrev Listed : ExitCode → List ExitCode → Type 0
Listed c [] = ⊥
Listed c (x ∷ xs) = (x ≡ c) ⊎ Listed c xs

Listed-active_codes :
    (ds : List Diagnostic) (c : ExitCode) → Listed c (active_codes ds) → Reports c ds
Listed-active_codes [] c h = h
Listed-active_codes (d ∷ ds) c h = ground (arith, Listed-active_codes ds c)

Reports-Listed : (ds : List Diagnostic) (c : ExitCode) → Reports c ds → Listed c (active_codes ds)
Reports-Listed [] c h = h
Reports-Listed (d ∷ ds) c h = ground (arith, Reports-Listed ds c)

max_code-Listed :
    (best : ExitCode) (cs : List ExitCode) (c : ExitCode)
    → max_code best cs ≡ c
    → (best ≡ c) ⊎ Listed c cs
unfolding max_code
max_code-Listed best [] c h = inl h
max_code-Listed best (x ∷ cs) c h =
    ground (arith, max_code-Listed x cs c, max_code-Listed best cs c)

max_code-ge : (best : ExitCode) (cs : List ExitCode) → priority best ≤ priority (max_code best cs)
unfolding max_code
max_code-ge best [] = omega arith
max_code-ge best (c ∷ cs) = ground (arith, max_code-ge c cs, max_code-ge best cs)

max_code-Listed-le :
    (best c : ExitCode) (cs : List ExitCode)
    → Listed c cs
    → priority c ≤ priority (max_code best cs)
unfolding max_code
max_code-Listed-le best c [] h = elim h [ ]
max_code-Listed-le best c (x ∷ cs) (inl e) = ground (arith, max_code-ge x cs, max_code-ge best cs)
max_code-Listed-le best c (x ∷ cs) (inr l) =
    ground (arith, max_code-Listed-le x c cs l, max_code-Listed-le best c cs l)

max_default-Listed-le :
    (c : ExitCode) (cs : List ExitCode) → Listed c cs → priority c ≤ priority (max_default cs)
unfolding max_default
max_default-Listed-le c [] h = elim h [ ]
max_default-Listed-le c (x ∷ cs) (inl e) = rw (← e) (max_code-ge x cs)
max_default-Listed-le c (x ∷ cs) (inr l) = max_code-Listed-le x c cs l

max_default-Listed :
    (cs : List ExitCode) → (cs ≡ []) × (max_default cs ≡ ok) ⊎ Listed (max_default cs) cs
unfolding max_default
max_default-Listed [] = inl (refl, refl)
max_default-Listed (c ∷ cs) = inr (max_code-Listed c cs _ refl)

not-Reports : (ds : List Diagnostic) (c : ExitCode) → active_codes ds ≡ [] → ¬ Reports c ds
not-Reports ds c e h = ground (arith, Reports-Listed ds c h)

pub exit_code_bound :
    (r : Result)
    → ((c : ExitCode) → Reports c r.diagnostics → priority c ≤ priority (exit_code r))
      × (Reports (exit_code r) r.diagnostics
          ⊎ (exit_code r ≡ ok) × ((c : ExitCode) → ¬ Reports c r.diagnostics))
unfolding exit_code
exit_code_bound r = (
  λ c h. max_default-Listed-le c _ (Reports-Listed r.diagnostics c h),
  elim (max_default-Listed (active_codes r.diagnostics)) [
    | inl (none_active, e) ↦ inr (e, λ c. not-Reports r.diagnostics c none_active)
    | inr l ↦ inl (Listed-active_codes r.diagnostics _ l)
  ],
)

priority_injective :
    (c d : ExitCode) → is_session c ≡ true → is_session d ≡ true → priority c ≡ priority d → c ≡ d
priority_injective c d hc hd h = ground arith

pub Reports-append : (c : ExitCode) (ds es : List Diagnostic) → Reports c ds → Reports c (ds ++ es)
Reports-append c [] es h = elim h [ ]
Reports-append c (d ∷ ds) es (inl h) = inl h
Reports-append c (d ∷ ds) es (inr h) = inr (Reports-append c ds es h)

pub Reports-append_right :
    (c : ExitCode) (ds es : List Diagnostic) → Reports c es → Reports c (ds ++ es)
Reports-append_right c [] es h = h
Reports-append_right c (d ∷ ds) es h = inr (Reports-append_right c ds es h)

-- Every diagnostic is inactive, or is no more urgent than the bound.
abbrev pub NoMoreUrgent : ℕ → List Diagnostic → Type 0
NoMoreUrgent n = All (λ d. (d.active ≡ false) ⊎ (priority d.code ≤ n))

no_more_urgent :
    (n : ℕ) (ds : List Diagnostic)
    → ((c : ExitCode) → Reports c ds → priority c ≤ n)
    → NoMoreUrgent n ds
no_more_urgent n [] h = tt
no_more_urgent n (d ∷ ds) h = (
  elim (Bool-cases d.active) [ inl e ↦ inr (h d.code (inl (e, refl))) | inr e ↦ inl e ],
  no_more_urgent n ds (λ c r. h c (inr r)),
)

All-inactive :
    (ds : List Diagnostic) → ((c : ExitCode) → ¬ Reports c ds) → All (λ d. d.active ≡ false) ds
All-inactive [] h = tt
All-inactive (d ∷ ds) h = (
  elim (Bool-cases d.active) [ inl e ↦ absurd (h d.code (inl (e, refl))) | inr e ↦ e ],
  All-inactive ds (λ c r. h c (inr r)),
)

-- The exit code of a result is at least as urgent as that of each of its active diagnostics, and it
-- is the code of one of them, or else it is `ok` and no diagnostic is active.
pub exit_code-highest :
    (r : Result)
    → NoMoreUrgent (priority (exit_code r)) r.diagnostics
      × (Reports (exit_code r) r.diagnostics
          ⊎ (exit_code r ≡ ok) × All (λ d. d.active ≡ false) r.diagnostics)
exit_code-highest r = (
  no_more_urgent _ r.diagnostics (exit_code_bound r).0,
  elim (exit_code_bound r).1 [
    | inl h ↦ inl h
    | inr (e, quiet) ↦ inr (e, All-inactive r.diagnostics quiet)
  ],
)

-- Adding diagnostics never makes the exit code less urgent: it stays at least as urgent as it was,
-- and as each active diagnostic that is added.
pub exit_code-add :
    (r : Result) (ds : List Diagnostic)
    → (priority (exit_code r) ≤ priority (exit_code (add r ds)))
      × NoMoreUrgent (priority (exit_code (add r ds))) ds
unfolding add
exit_code-add r ds = (
  elim (exit_code_bound r).1 [
    | inl h ↦ (exit_code_bound (add r ds)).0 _ (Reports-append _ r.diagnostics ds h)
    | inr (e, _) ↦ rw e (omega arith)
  ],
  no_more_urgent _ ds
      (λ c h. (exit_code_bound (add r ds)).0 c (Reports-append_right c r.diagnostics ds h)),
)

-- The order of diagnostics and their repetition do not matter: two results that report the same
-- codes, none of them a preflight refusal, have one exit code.
pub exit_code_order_free :
    (r s : Result)
    → ((c : ExitCode) → Reports c r.diagnostics ↔ Reports c s.diagnostics)
    → ((c : ExitCode) → Reports c r.diagnostics → is_session c ≡ true)
    → exit_code r ≡ exit_code s
exit_code_order_free r s same session = elim ((exit_code_bound r).1) [
  | inl h ↦ from_both h (exit_code_bound s).1
  | inr (e, none_r) ↦ from_none e none_r (exit_code_bound s).1
]
  where
    from_both :
        Reports (exit_code r) r.diagnostics
        → Reports (exit_code s) s.diagnostics
          ⊎ (exit_code s ≡ ok) × ((c : ExitCode) → ¬ Reports c s.diagnostics)
        → exit_code r ≡ exit_code s
    from_both h (inl k) = priority_injective _ _ (session _ h) (session _ ((same _).1 k)) (
        omega
          (arith, (exit_code_bound r).0 _ ((same _).1 k), (exit_code_bound s).0 _ ((same _).0 h)))
    from_both h (inr (_, none_s)) = absurd (none_s _ ((same _).0 h))

    from_none :
        exit_code r ≡ ok
        → ((c : ExitCode) → ¬ Reports c r.diagnostics)
        → Reports (exit_code s) s.diagnostics
          ⊎ (exit_code s ≡ ok) × ((c : ExitCode) → ¬ Reports c s.diagnostics)
        → exit_code r ≡ exit_code s
    from_none e none_r (inl k) = absurd (none_r _ ((same _).1 k))
    from_none e none_r (inr (e', _)) = e ∙ sym e'
