-- ===== src/Probe/Authority.antt =====
-- Only the authority gives a verdict on Tor.
use transparent_tor_proxy.Base.{
  ℕ, zero, suc, ◌+◌, ◌≡◌, ◌≢◌, refl, ◌⊎◌, inl, inr, Bool, true, false, String, Option, none, some,
  List, [], ◌∷◌, map, All, arith, Option-cases, Bool-cases,
}
use transparent_tor_proxy.Base.Json.{Value, bool, Fields, get_field}
use transparent_tor_proxy.Evidence.{Diagnostic, Verification, inconclusive}
use transparent_tor_proxy.Probe.{
  Answers, Step, ends, goes_on, got, Fetched, failed, authority, reflectors, inactive, verdict,
  state_of, is_final, present, address_field, visit_reflectors, attempt, attempts, verify_session,
}

-- In some attempt, in time, the authority answered with that verdict and with an address.
abbrev pub Answered : Answers → Bool → Option String → Type 0
Answered a b ip =
    (n : ℕ) × (d : Fields) × (a.in_time n authority ≡ true)
    × (a.fetch n authority ≡ got d)
    × (get_field "IsTor" d ≡ some (bool b))
    × (ip ≢ none)
    × (a.ip (get_field "IP" d) ≡ ip)

-- The verification is inconclusive, or rests on the authority's answer, with all failures inactive.
abbrev pub Rests : Answers → Verification → Type 0
Rests a v =
    (v.state ≡ inconclusive)
    ⊎ ((b : Bool) × (v.state ≡ state_of b)
        × Answered a b v.ip
        × All (λ d. d.active ≡ false) v.diagnostics)

abbrev RestsStep : Answers → Step → Type 0
RestsStep a (ends v) = Rests a v
RestsStep a (goes_on _ _) = Unit

Fetched-cases : (f : Fetched) → ((d : Fields) × (f ≡ got d)) ⊎ ((e : Diagnostic) × (f ≡ failed e))
Fetched-cases (got d) = inl (d, refl)
Fetched-cases (failed e) = inr (e, refl)

All-inactive : (fs : List Diagnostic) → All (λ d. d.active ≡ false) (map inactive fs)
All-inactive [] = tt
All-inactive (f ∷ fs) = (refl, All-inactive fs)

reflectors-Rests :
    (a : Answers) (n : ℕ) (urls : List String) (fs : List Diagnostic) (ip : Option String)
    → RestsStep a (visit_reflectors a n urls fs ip)
unfolding visit_reflectors
reflectors-Rests a n [] fs ip = tt
reflectors-Rests a n (url ∷ urls) fs ip = elim (Bool-cases (a.in_time n url)) [
  | inr e ↦ rw (e, visit_reflectors) (inl refl)
  | inl e ↦ elim (Fetched-cases (a.fetch n url)) [
    | inr (d, f) ↦ elim (Bool-cases (is_final d.reason)) [
      | inl g ↦ rw (e, f, g, visit_reflectors) (inl refl)
      | inr g ↦ rw (e, f, g, visit_reflectors) (reflectors-Rests a n urls _ ip)
    ]
    | inl (d, f) ↦ elim (Option-cases (present (a.ip (address_field d)))) [
      | inl g ↦ rw (e, f, g, visit_reflectors) (reflectors-Rests a n urls _ ip)
      | inr (address, g) ↦ rw (e, f, g, visit_reflectors) tt
    ]
  ]
]

verdict-some :
    (v : Option Value) (ip : Option String) (b : Bool) (address : String)
    → verdict v ip ≡ some (b, address)
    → (v ≡ some (bool b)) × (ip ≡ some address)
verdict-some v ip b address h = ground arith

some-ne-none : (address : String) → some address ≢ none
some-ne-none address e = cc

attempt-Rests :
    (a : Answers) (n : ℕ) (fs : List Diagnostic) (ip : Option String)
    → RestsStep a (attempt a n fs ip)
unfolding attempt
attempt-Rests a n fs ip = elim (Bool-cases (a.in_time n authority)) [
  | inr e ↦ rw (e, attempt) (inl refl)
  | inl e ↦ elim (Fetched-cases (a.fetch n authority)) [
    | inr (d, f) ↦ elim (Bool-cases (is_final d.reason)) [
      | inl g ↦ rw (e, f, g, attempt) (inl refl)
      | inr g ↦ rw (e, f, g, attempt) (reflectors-Rests a n reflectors _ ip)
    ]
    | inl (d, f) ↦ elim (Option-cases (verdict (get_field "IsTor" d) (a.ip (get_field "IP" d)))) [
      | inl g ↦ rw (e, f, g, attempt) (reflectors-Rests a n reflectors _ ip)
      | inr ((b, address), g) ↦
          let (said, at) = verdict-some _ _ b address g in
          rw (e, f, g, attempt)
            (inr (b, refl, (n, d, e, f, said, some-ne-none address, at), All-inactive fs))
    ]
  ]
]

Step-cases :
    (s : Step)
    → ((v : Verification) × (s ≡ ends v))
      ⊎ ((gs : List Diagnostic) × (ip : Option String) × (s ≡ goes_on gs ip))
Step-cases (ends v) = inl (v, refl)
Step-cases (goes_on gs ip) = inr (gs, ip, refl)

ends-eq : (w v : Verification) → ends w ≡ ends v → w ≡ v
ends-eq w v h = cc

ends-Rests : (a : Answers) (s : Step) (v : Verification) → s ≡ ends v → RestsStep a s → Rests a v
ends-Rests a (ends w) v e r = rw (← ends-eq w v e) r
ends-Rests a (goes_on gs ip) v e r = cc

attempts-Rests :
    (a : Answers) (left n : ℕ) (fs : List Diagnostic) (ip : Option String)
    → Rests a (attempts a left n fs ip)
unfolding attempts
attempts-Rests a zero n fs ip = inl refl
attempts-Rests a (suc left) n fs ip = elim (Step-cases (attempt a n fs ip)) [
  | inl (v, e) ↦ rw (e, attempts) (ends-Rests a (attempt a n fs ip) v e (attempt-Rests a n fs ip))
  | inr (gs, address, e) ↦ rw (e, attempts) (attempts-Rests a left (n + 1) gs address)
]

some-eq : (x v : Verification) → some x ≡ some v → x ≡ v
some-eq x v h = cc

Rests-some : (a : Answers) (x v : Verification) → Rests a x → some x ≡ some v → Rests a v
Rests-some a x v r h = rw (← some-eq x v h) r

-- Reflectors, deadlines and failures never decide: whatever the clock and the worker answer, the
-- verification says that Tor is used, or that it is not, only if in some attempt the authority itself
-- said so in time together with an address, which is the one reported, and then every failure before
-- it is inactive. Otherwise it is inconclusive.
pub verify_session-Rests : (a : Answers) (v : Verification) → verify_session a ≡ some v → Rests a v
unfolding verify_session
verify_session-Rests a v h = elim (Bool-cases a.timeout_fits) [
  | inr e ↦ absurd (ground arith)
  | inl e ↦ elim (Option-cases a.identity_issue) [
    | inl g ↦ Rests-some a _ v (attempts-Rests a 5 0 [] none) (rw (e, g, verify_session) at h)
    | inr (d, g) ↦ Rests-some a _ v (inl refl) (rw (e, g, verify_session) at h)
  ]
]
