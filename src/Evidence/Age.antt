-- ===== src/Evidence/Age.antt =====
-- When an observation counts (`Observation.is_current`), and what a verification reports.
use transparent_tor_proxy.Base.{◌≡◌, ◌≢◌, ◌↔◌, true, String, arith, non_empty-eq-true, ne-empty}
use transparent_tor_proxy.Base.Int.{ℤ, pos, ◌≤ℤ◌, ◌<ℤ◌, ◌-ℤ◌, -ℤ_parts}
use transparent_tor_proxy.Evidence.{finite, Observation, is_current}

-- At finite times an observation counts exactly if the three identities asked for are not empty and are
-- its own, and its age lies from 0 up to, but not at, a positive bound.
pub is_current_iff :
    (o : Observation) (session boot instance_id : String) (now seen max_age : ℤ)
    → o.observed_at ≡ finite seen
    → (is_current o session boot instance_id (finite now) (finite max_age) ≡ true) ↔ (
        (session ≢ "")
        × (boot ≢ "")
        × (instance_id ≢ "")
        × (o.session_id ≡ session)
        × (o.boot_id ≡ boot)
        × (o.instance_id ≡ instance_id)
        × (pos 0 <ℤ max_age)
        × (seen ≤ℤ now)
        × (now -ℤ seen <ℤ max_age))
unfolding is_current
is_current_iff o session boot instance_id now seen max_age e = (
  λ h. ground (arith, ne-empty session, ne-empty boot, ne-empty instance_id, -ℤ_parts now seen),
  λ h. ground (
    arith,
    non_empty-eq-true session,
    non_empty-eq-true boot,
    non_empty-eq-true instance_id,
    -ℤ_parts now seen,
  ),
)
