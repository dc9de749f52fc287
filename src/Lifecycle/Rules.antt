-- ===== src/Lifecycle/Rules.antt =====
-- Rules for what holds after a part of a command, for each way in which it ends.
use transparent_tor_proxy.Base.{◌≡◌, arith, ℕ}
use transparent_tor_proxy.Lifecycle.{Machine, Ended, ok, exits, raised, M, ◌>>=◌, continue_with}

-- `Q` holds if the part goes on, `E` if it leaves with an exit code, `R` if it raises.
abbrev pub Ends :
    {A : Type 0}
    → (A → Machine → Type 0)
    → (Machine → Type 0)
    → (Machine → Type 0)
    → Machine × Ended A
    → Type 0
Ends Q E R (s, ok a) = Q a s
Ends Q E R (s, exits n) = E s
Ends Q E R (s, raised) = R s

abbrev pub Const : {A : Type 0} → (Machine → Type 0) → A → Machine → Type 0
Const P a s = P s

continue-Ends :
    {A B : Type 0}
    → (Q : A → Machine → Type 0) (S : B → Machine → Type 0) (E R : Machine → Type 0)
    → (p : Machine × Ended A) (f : A → M B) → Ends Q E R p
    → ((a : A) (s : Machine) → Q a s → Ends S E R (f a s))
    → Ends S E R (continue_with p f)
continue-Ends Q S E R (s, ok a) f h k = k a s h
continue-Ends Q S E R (s, exits n) f h k = h
continue-Ends Q S E R (s, raised) f h k = h

pub bind-Ends :
    {A B : Type 0}
    → (Q : A → Machine → Type 0) (S : B → Machine → Type 0) (E R : Machine → Type 0)
    → (m : M A) (f : A → M B) (s : Machine) → Ends Q E R (m s)
    → ((a : A) (t : Machine) → Q a t → Ends S E R (f a t))
    → Ends S E R ((m >>= f) s)
bind-Ends Q S E R m f s h k = continue-Ends Q S E R (m s) f h k

pub at_end :
    (Q : Unit {0} → Machine → Type 0) (E R : Machine → Type 0) (p : Machine × Ended (Unit {0}))
    → Ends Q E R p
    → p.1 ≡ ok tt
    → Q tt p.0
at_end Q E R (s, ok a) h k = h
at_end Q E R (s, exits n) h k = absurd (ground (arith, k))
at_end Q E R (s, raised) h k = absurd (ground (arith, k))

pub at_exit :
    {A : Type 0}
    → (Q : A → Machine → Type 0) (E R : Machine → Type 0) (p : Machine × Ended A) (n : ℕ)
    → Ends Q E R p
    → p.1 ≡ exits n
    → E p.0
at_exit Q E R (s, ok a) n h k = absurd (ground (arith, k))
at_exit Q E R (s, exits m) n h k = h
at_exit Q E R (s, raised) n h k = absurd (ground (arith, k))
