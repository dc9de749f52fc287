-- ===== src/Watchdog/Integrity/Baseline.antt =====
-- The counters' baseline neither loses packets nor counts them twice.
use transparent_tor_proxy.Base.{ℕ, ◌+◌, ◌≤◌, ◌≡◌, refl, String, List, [], ◌∷◌, arith, str_eq_refl}
use transparent_tor_proxy.Base.Dict.{lookup, lookup-insert}
use transparent_tor_proxy.Watchdog.Integrity.{Readings, or_zero, new_since_last_check}

-- The packets reported over a sequence of checks of one counter.
unfoldable pub reported : String → List ℕ → Readings → ℕ
reported name [] baseline = 0
reported name (n ∷ ns) baseline =
    (new_since_last_check name n baseline).0
    + reported name ns (new_since_last_check name n baseline).1

-- No reading lies below the one before it.
abbrev pub Rising : ℕ → List ℕ → Type 0
Rising last [] = Unit
Rising last (n ∷ ns) = (last ≤ n) × Rising n ns

abbrev pub final : ℕ → List ℕ → ℕ
final last [] = last
final last (n ∷ ns) = final n ns

lookup-next :
    (name : String) (n : ℕ) (baseline : Readings)
    → or_zero (lookup name (new_since_last_check name n baseline).1) ≡ n
unfolding new_since_last_check
lookup-next name n baseline = ground (arith, lookup-insert name name n baseline, str_eq_refl name)

fired-rising :
    (name : String) (n : ℕ) (baseline : Readings)
    → or_zero (lookup name baseline) ≤ n
    → (new_since_last_check name n baseline).0 + or_zero (lookup name baseline) ≡ n
unfolding new_since_last_check
fired-rising name n baseline h = ground arith

reported_from :
    (name : String) (ns : List ℕ) (last : ℕ) (baseline : Readings)
    → or_zero (lookup name baseline) ≡ last
    → Rising last ns
    → last + reported name ns baseline ≡ final last ns
unfolding reported
reported_from name [] last baseline e h = omega arith
reported_from name (n ∷ ns) last baseline e (up, h) = omega (
  arith,
  fired-rising name n baseline (omega arith),
  reported_from name ns n (new_since_last_check name n baseline).1 (lookup-next name n baseline) h,
)

-- Over checks between which the table is not reloaded, the packets that the checks report of a
-- counter, added to its baseline, are the last reading: none is lost and none is reported twice.
pub reported-final :
    (name : String) (ns : List ℕ) (baseline : Readings)
    → Rising (or_zero (lookup name baseline)) ns
    → or_zero (lookup name baseline) + reported name ns baseline
      ≡ final (or_zero (lookup name baseline)) ns
reported-final name ns baseline h = reported_from name ns _ baseline refl h
