-- ===== src/Watchdog/Supervisor/Invariant.antt =====
-- Rules for what holds after a part of a supervisor's round, however that part ends.
use transparent_tor_proxy.Base.{Bool, true, false, if◌then◌else◌}
use transparent_tor_proxy.Watchdog.Supervisor.{
  State, Ended, ok, exits, crashes, M, continue_with, ◌>>=◌, raise,
}

-- `Q` holds if the part goes on, `E` if it leaves the loop or raises.
abbrev pub After : {A : Type 0} → (State → Type 0) → (A → State → Type 0) → State × Ended A → Type 0
After E Q (s, ok a) = Q a s
After E Q (s, exits) = E s
After E Q (s, crashes) = E s

abbrev pub Const : {A : Type 0} → (State → Type 0) → A → State → Type 0
Const P a s = P s

continue-After :
    {A B : Type 0}
    → (E : State → Type 0) (Q : A → State → Type 0) (R : B → State → Type 0)
    → (p : State × Ended A) (f : A → M B) → After E Q p
    → ((a : A) (s : State) → Q a s → After E R (f a s))
    → After E R (continue_with p f)
continue-After E Q R (s, ok a) f h k = k a s h
continue-After E Q R (s, exits) f h k = h
continue-After E Q R (s, crashes) f h k = h

-- The rule for a sequence.
pub bind-After :
    {A B : Type 0}
    → (E : State → Type 0) (Q : A → State → Type 0) (R : B → State → Type 0)
    → (m : M A) (f : A → M B) (s : State) → After E Q (m s)
    → ((a : A) (t : State) → Q a t → After E R (f a t))
    → After E R ((m >>= f) s)
bind-After E Q R m f s h k = continue-After E Q R (m s) f h k

-- A part that goes on or raises.
pub either-After :
    (E : State → Type 0) (Q : Unit {0} → State → Type 0) (b : Bool) (m : M (Unit {0})) (s : State)
    → E s
    → After E Q (m s)
    → After E Q ((if b then m else raise) s)
unfolding raise
either-After E Q true m s e h = h
either-After E Q false m s e h = e

pub After-weaken :
    {A : Type 0}
    → (E : State → Type 0) (Q R : A → State → Type 0) (p : State × Ended A) → After E Q p
    → ((a : A) (s : State) → Q a s → R a s)
    → After E R p
After-weaken E Q R (s, ok a) h k = k a s h
After-weaken E Q R (s, exits) h k = h
After-weaken E Q R (s, crashes) h k = h

-- What is left by a part that keeps `P`.
pub After-end :
    {A : Type 0} → (P : State → Type 0) (p : State × Ended A) → After P (Const P) p → P p.0
After-end P (s, ok a) h = h
After-end P (s, exits) h = h
After-end P (s, crashes) h = h
