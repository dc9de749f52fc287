-- ===== src/Records/Transition.antt =====
-- ttp/runtime_records.py, `transition`: the wait for the lock that serializes emergency actions with a
-- stop. A time is a number of ticks, and `step` says how many of them are 0.05 seconds.
use transparent_tor_proxy.Base.{
  ℕ, zero, suc, ◌+◌, ◌-◌, ◌*◌, ◌≤◌, ◌<◌, ◌≡◌, min, refl, Bool, true, false, not, ◌&&◌, List, [],
  ◌∷◌, arith, leb, length, if◌then◌else◌, ◌==◌, Bool-cases, inl, inr,
}
use transparent_tor_proxy.Base.Int.{pos, negsuc}
use transparent_tor_proxy.Evidence.{Instant, finite, not_finite}
use transparent_tor_proxy.Records.{Contents, Ending, value, not_found, state_error}

-- `undecided` is for a loop that has used up its fuel; `os_error` for an `OSError`, `refused` and
-- `timed_out` for the `StateError`s.
pub data Entering : Type 0 where
  entered refused timed_out os_error undecided : Entering

-- How a wait ends, and the sleeps it made, the last one first.
pub record Waiting : Type 0 where
  pub outcome : Entering
  pub slept : List ℕ

-- What the lock and the clock answer, by the sleeps that were made so far.
pub record Outside : Type 0 where
  pub free : List ℕ → Bool
  pub now : List ℕ → ℕ

-- What is found of the lock file: whether it opens, is a regular file with one link, and takes its
-- permissions and owner.
pub record LockFile : Type 0 where
  pub opens : Bool
  pub regular : Bool
  pub links : ℕ
  pub adjusts : Bool

module _ (o : Outside) (step deadline : ℕ) where
  abbrev pub stopped : Entering → List ℕ → Waiting
  stopped e slept = record { outcome = e; slept = slept }

  -- The loop around `flock`.
  unfoldable pub wait : ℕ → List ℕ → Waiting
  wait zero slept = stopped undecided slept
  wait (suc fuel) slept =
      let again = wait fuel (min step (deadline - o.now slept) ∷ slept) in
      elim (o.free slept) [
        | true ↦ stopped entered slept
        | false ↦ elim (leb deadline (o.now slept)) [
          | true ↦ stopped timed_out slept
          | false ↦ again
        ]
      ]

module _ (o : Outside) (step start fuel : ℕ) where
  abbrev pub lock_within : ℕ → LockFile → Waiting
  lock_within timeout f =
      if not f.opens
      then stopped o step start os_error []
      else if not (f.regular && (f.links == 1))
      then stopped o step start refused []
      else if not f.adjusts
      then stopped o step start os_error []
      else wait o step (start + timeout) fuel []

  abbrev pub in_directory : ℕ → LockFile → Ending Contents → Waiting
  in_directory timeout f (value d) = lock_within timeout f
  in_directory timeout f not_found = stopped o step start os_error []
  in_directory timeout f state_error = stopped o step start refused []

  -- `transition`, up to the entry of its block, over what `_directory` gives. `start` is the reading of
  -- the clock for the deadline.
  unfoldable pub transition : Instant → LockFile → Ending Contents → Waiting
  unfolding wait
  transition not_finite f d = stopped o step start refused []
  transition (finite (negsuc n)) f d = stopped o step start refused []
  transition (finite (pos n)) f d =
      if n == 0 then stopped o step start refused [] else in_directory n f d

abbrev pub sum : List ℕ → ℕ
sum [] = 0
sum (x ∷ xs) = x + sum xs

-- `time.sleep` does not return early, and the clock does not run backwards.
abbrev pub Sleeps : Outside → Type 0
Sleeps o = (pause : ℕ) (slept : List ℕ) → o.now slept + pause ≤ o.now (pause ∷ slept)

-- A wait that is over: the lock was taken, or the deadline had passed.
abbrev pub IsOver : Outside → ℕ → Entering → List ℕ → Type 0
IsOver o deadline entered slept = o.free slept ≡ true
IsOver o deadline timed_out slept = (o.free slept ≡ false) × (deadline ≤ o.now slept)
IsOver o deadline refused slept = slept ≡ []
IsOver o deadline os_error slept = slept ≡ []
IsOver o deadline undecided slept = ⊥

module _ (o : Outside) (step start deadline : ℕ) where
  -- A wait that ends, has slept no longer than until the deadline, and not more often than `k` times.
  abbrev EndsWithin : ℕ → Waiting → Type 0
  EndsWithin k w =
      IsOver o deadline w.outcome w.slept × (start + sum w.slept ≤ deadline) × (length w.slept ≤ k)

  one_round :
      (k : ℕ) (slept : List ℕ) (again : Waiting) (free late : Bool)
      → o.free slept ≡ free
      → leb deadline (o.now slept) ≡ late
      → start + sum slept ≤ deadline
      → length slept ≤ k
      → (late ≡ false → EndsWithin k again)
      → EndsWithin k (elim free [
        | true ↦ stopped o step deadline entered slept
        | false ↦ elim late [ true ↦ stopped o step deadline timed_out slept | false ↦ again ]
      ])
  one_round k slept again true late f l within few rest = (f, within, few)
  one_round k slept again false true f l within few rest = ((f, ground (arith, l)), within, few)
  one_round k slept again false false f l within few rest = rest refl

  wait-EndsWithin :
      (fuel n : ℕ) (slept : List ℕ)
      → Sleeps o
      → 0 < step
      → start + sum slept ≤ o.now slept
      → start + sum slept ≤ deadline
      → deadline - o.now slept ≤ fuel * step
      → length slept + fuel ≤ n
      → EndsWithin n (wait o step deadline (suc fuel) slept)
  unfolding wait
  wait-EndsWithin zero n slept sleeps positive past within enough few =
      one_round n slept _ (o.free slept) (leb deadline (o.now slept)) refl refl within (omega arith)
        λ late. absurd (ground (arith, late, enough))
  wait-EndsWithin (suc fuel) n slept sleeps positive past within enough few =
      one_round n slept _ (o.free slept) (leb deadline (o.now slept)) refl refl within (omega arith)
        λ late.
          wait-EndsWithin fuel n (min step (deadline - o.now slept) ∷ slept) sleeps positive
            (omega (arith, sleeps (min step (deadline - o.now slept)) slept)) (omega arith)
            (omega (arith, sleeps (min step (deadline - o.now slept)) slept)) (omega arith)

module _ (o : Outside) (step start fuel n : ℕ) where
  -- What `transition` owes for a timeout of `n` ticks.
  abbrev Owes : Waiting → Type 0
  Owes w = IsOver o (start + n) w.outcome w.slept × (sum w.slept ≤ n) × (length w.slept ≤ fuel)

  lock_within-Owes :
      (f : LockFile)
      → Owes (wait o step (start + n) (suc fuel) [])
      → Owes (lock_within o step start (suc fuel) n f)
  lock_within-Owes f h = elim (Bool-cases f.opens) [
    | inr e ↦ rw e (refl, omega arith, omega arith)
    | inl e ↦ elim (Bool-cases (f.regular && (f.links == 1))) [
      | inr r ↦ rw (e, r) (refl, omega arith, omega arith)
      | inl r ↦ elim (Bool-cases f.adjusts) [
        | inr a ↦ rw (e, r, a) (refl, omega arith, omega arith)
        | inl a ↦ rw (e, r, a) h
      ]
    ]
  ]

  in_directory-Owes :
      (f : LockFile) (d : Ending Contents)
      → Owes (wait o step (start + n) (suc fuel) [])
      → Owes (in_directory o step start (suc fuel) n f d)
  in_directory-Owes f (value c) h = lock_within-Owes f h
  in_directory-Owes f not_found h = (refl, omega arith, omega arith)
  in_directory-Owes f state_error h = (refl, omega arith, omega arith)

abbrev pub ticks : Instant → ℕ
ticks (finite (pos n)) = n
ticks _ = 0

-- A wait for the transition lock comes to its end: with fuel for as many pauses of 0.05 seconds as fit
-- into the timeout, and one round more, the loop has taken the lock, or found it taken at or after the
-- deadline. Whatever `transition` meets, it has slept no longer than its timeout, in no more pauses
-- than that, and it sleeps only in that loop. `time.sleep` does not return early, the clock does not
-- run backwards, and 0.05 seconds are a tick or more.
pub transition-Ends :
    (o : Outside) (step start fuel : ℕ) (timeout : Instant) (f : LockFile) (d : Ending Contents)
    → Sleeps o
    → 0 < step
    → start ≤ o.now []
    → ticks timeout ≤ fuel * step
    → let w = transition o step start (suc fuel) timeout f d in
      IsOver o (start + ticks timeout) w.outcome w.slept
      × (sum w.slept ≤ ticks timeout)
      × (length w.slept ≤ fuel)
unfolding transition
transition-Ends o step start fuel not_finite f d sleeps positive past enough =
    (refl, omega arith, omega arith)
transition-Ends o step start fuel (finite (negsuc n)) f d sleeps positive past enough =
    (refl, omega arith, omega arith)
transition-Ends o step start fuel (finite (pos n)) f d sleeps positive past enough =
    let ends =
      wait-EndsWithin o step start (start + n) fuel fuel [] sleeps positive (omega arith)
        (omega arith) (omega arith) (omega arith) in
    elim (Bool-cases (n == 0)) [
      | inl e ↦ rw e (refl, omega arith, omega arith)
      | inr e ↦
          rw e (in_directory-Owes o step start fuel n f d (ends.0, omega (arith, ends.1), ends.2))
    ]
