-- ===== src/Session/Request/Latch.antt =====
-- ttp/session_safety.py: the latch under requests for containment and the mark of a stop.
use transparent_tor_proxy.Base.{
  ◌≡◌, refl, ◌⊎◌, inl, inr, Bool, true, String, some, arith, Bool-cases, Option-cases,
}
use transparent_tor_proxy.Evidence.{Diagnostic, Result}
use transparent_tor_proxy.Session.World.{
  Lock, World, recorded, Emergency, identity, mark_stopping, same_lock, emergency_latched,
}
use transparent_tor_proxy.Session.Request.{
  Options, Answers, Outcome, Entry, acts, fails, stale, entry, report, act, begin,
  request_emergency,
}

-- The record of the emergency is there and requests containment.
abbrev pub IsLatched : World → Type 0
IsLatched w = (e : Emergency) × (w.emergency ≡ recorded e) × (e.requested ≡ true)

pub report-world_lem :
    (a : Answers) (lock : Lock) (cause : Diagnostic) (fresh : Bool) (out : Outcome)
    → (report a lock cause fresh out).world ≡ out.world
unfolding report
report-world_lem a lock cause fresh out = ground arith

act-IsLatched :
    (o : Options) (a : Answers) (cause : Diagnostic) (before : Result) (w : World)
    → IsLatched w ⊎ (a.latch_written ≡ true)
    → IsLatched (act o a cause before w).world
unfolding act
act-IsLatched o a cause before w h = elim (Bool-cases a.evidence_written) [
  | inl e ↦ rw e (_, refl, refl)
  | inr e ↦ elim (Bool-cases a.latch_written) [
    | inl l ↦ rw (e, l) (_, refl, refl)
    | inr l ↦ elim h [ inl k ↦ rw (e, l) k | inr k ↦ absurd (ground arith) ]
  ]
]

pub Entry-cases : (e : Entry) → (e ≡ fails) ⊎ (e ≡ stale) ⊎ (e ≡ acts)
Entry-cases e = ground arith

begin-IsLatched :
    (o : Options) (a : Answers) (lock : Lock) (cause : Diagnostic) (session : String) (w : World)
    → IsLatched w
    → IsLatched (begin o a lock cause session w).world
unfolding begin
begin-IsLatched o a lock cause session w h = elim (Entry-cases (entry o a session w)) [
  | inl e ↦ rw (e, begin) (rw (report-world_lem a lock cause true) h)
  | inr (inl e) ↦ rw (e, begin) h
  | inr (inr e) ↦
      rw (e, begin) (rw (report-world_lem a lock cause) (act-IsLatched o a cause _ w (inl h)))
]

pub request_emergency-IsLatched :
    (o : Options) (a : Answers) (lock : Lock) (cause : Diagnostic) (w : World)
    → IsLatched w
    → IsLatched (request_emergency o a lock cause w).world
unfolding request_emergency
request_emergency-IsLatched o a lock cause w h = elim (Option-cases (identity lock.session_id)) [
  | inl e ↦ rw (e, request_emergency) h
  | inr (session, e) ↦ rw (e, request_emergency) (begin-IsLatched o a lock cause session w h)
]

-- A latch is found by every reader that names the session.
pub emergency_latched-IsLatched :
    (lock : Lock) (session : String) (w : World)
    → identity lock.session_id ≡ some session
    → IsLatched w
    → emergency_latched lock w ≡ some true
unfolding emergency_latched
emergency_latched-IsLatched lock session w named (e, at, requested) =
    rw (named, emergency_latched) (ground arith)

-- Nor does the mark of a stop.
pub mark_stopping-IsLatched :
    (lock : Lock) (w w' : World) → mark_stopping lock w ≡ some w' → IsLatched w → IsLatched w'
unfolding mark_stopping
mark_stopping-IsLatched lock w w' e h = elim (Option-cases (same_lock lock w.lock_file)) [
  | inl g ↦ absurd (ground (arith, e, g))
  | inr (l, g) ↦ ground (arith, e, g, h)
]
