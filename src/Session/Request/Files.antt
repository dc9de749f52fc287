-- ===== src/Session/Request/Files.antt =====
-- ttp/session_safety.py, `request_emergency`: what a call may change of the session's files.
use transparent_tor_proxy.Base.{
  ◌≡◌, refl, ◌⊎◌, inl, inr, Bool, true, false, String, Option, none, some, arith, Bool-cases,
}
use transparent_tor_proxy.Evidence.{Diagnostic, Result}
use transparent_tor_proxy.Session.World.{
  Lock, LockFile, World, recorded, Emergency, identity, stop_was_requested,
}
use transparent_tor_proxy.Session.Request.{
  Options, Answers, acts, entry, after_marker, act, begin, request_emergency,
}
use transparent_tor_proxy.Session.Request.Latch.{report-world_lem, Entry-cases}

-- Nothing changes, or an emergency is latched while no stop is requested.
abbrev pub IsLatching : String → World → World → Type 0
IsLatching session w w' =
    (w' ≡ w)
    ⊎ ((stop_was_requested session w.marker ≡ some false)
        × ((e : Emergency) × (w' ≡ record w { emergency = recorded e }) × (e.requested ≡ true)))

after_marker-acts :
    (o : Options) (session : String) (file : LockFile) (b : Option Bool)
    → after_marker o session file b ≡ acts
    → b ≡ some false
after_marker-acts o session file none h = absurd (ground (arith, h))
after_marker-acts o session file (some true) h = absurd (ground (arith, h))
after_marker-acts o session file (some false) h = refl

entry-acts :
    (o : Options) (a : Answers) (session : String) (w : World)
    → entry o a session w ≡ acts
    → stop_was_requested session w.marker ≡ some false
unfolding entry
entry-acts o a session w h = elim (Bool-cases a.serialized) [
  | inl e ↦
      after_marker-acts o session w.lock_file (stop_was_requested session w.marker) (rw e at h)
  | inr e ↦ absurd (ground (arith, h, e))
]

act-files :
    (o : Options) (a : Answers) (cause : Diagnostic) (before : Result) (w : World)
    → ((act o a cause before w).world ≡ w)
      ⊎ ((e : Emergency) × ((act o a cause before w).world ≡ record w { emergency = recorded e })
          × (e.requested ≡ true))
unfolding act
act-files o a cause before w = elim (Bool-cases a.evidence_written) [
  | inl e ↦ rw e (inr (_, refl, refl))
  | inr e ↦ elim (Bool-cases a.latch_written) [
    | inl l ↦ rw (e, l) (inr (_, refl, refl))
    | inr l ↦ rw (e, l) (inl refl)
  ]
]

begin-IsLatching :
    (o : Options) (a : Answers) (lock : Lock) (cause : Diagnostic) (session : String) (w : World)
    → IsLatching session w (begin o a lock cause session w).world
unfolding begin
begin-IsLatching o a lock cause session w = elim (Entry-cases (entry o a session w)) [
  | inl e ↦ rw (e, begin) (rw (report-world_lem a lock cause true) (inl refl))
  | inr (inl e) ↦ rw (e, begin) (inl refl)
  | inr (inr e) ↦
      rw (e, begin)
        (rw (report-world_lem a lock cause) (elim (act-files o a cause _ w) [
          | inl same ↦ inl same
          | inr changed ↦ inr (entry-acts o a session w e, changed)
        ]))
]

pub request_emergency-IsLatching :
    (o : Options) (a : Answers) (lock : Lock) (cause : Diagnostic) (session : String) (w : World)
    → identity lock.session_id ≡ some session
    → IsLatching session w (request_emergency o a lock cause w).world
unfolding request_emergency
request_emergency-IsLatching o a lock cause session w named =
    rw (named, request_emergency) (begin-IsLatching o a lock cause session w)
