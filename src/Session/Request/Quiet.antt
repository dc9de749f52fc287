-- ===== src/Session/Request/Quiet.antt =====
-- A call that finds its session stopped leaves everything as it is.
use transparent_tor_proxy.Base.{
  ◌≡◌, refl, ◌⊎◌, inl, inr, Bool, true, String, Option, some, List, [], ◌∷◌, All, arith,
  str_eq_refl, Bool-cases, Option-cases,
}
use transparent_tor_proxy.Evidence.{Diagnostic}
use transparent_tor_proxy.Session.World.{Lock, stopping, World, identity, stop_was_requested}
use transparent_tor_proxy.Session.Request.{
  Options, Answers, Action, Outcome, fails, stale, entry, emit, attempted, has_settings, report,
  begin, request_emergency,
}

-- Only notifications were attempted: no record was written and no rule applied or inspected.
abbrev pub IsEmit : Action → Type 0
IsEmit (emit _) = Unit
IsEmit _ = ⊥

entry_of_stopping :
    (o : Options) (a : Answers) (session : String) (w : World)
    → stop_was_requested session w.marker ≡ some true
    → (entry o a session w ≡ fails) ⊎ (entry o a session w ≡ stale)
unfolding entry
entry_of_stopping o a session w h = ground (arith, h)

attempted-All :
    (emitted : String → Option (List Diagnostic)) (es : List String)
    → All IsEmit (attempted emitted es)
attempted-All emitted [] = tt
attempted-All emitted (e ∷ es) = elim (Option-cases (emitted e)) [
  | inl h ↦ rw h (tt, tt)
  | inr (ds, h) ↦ rw h (tt, attempted-All emitted es)
]

-- Nothing was changed by a call, and only notifications were attempted.
abbrev pub IsQuiet : World → Outcome → Type 0
IsQuiet w out = (out.world ≡ w) × All IsEmit out.actions

report-IsQuiet :
    (a : Answers) (lock : Lock) (cause : Diagnostic) (fresh : Bool) (out : Outcome)
    → out.actions ≡ []
    → IsQuiet out.world (report a lock cause fresh out)
unfolding report
report-IsQuiet a lock cause fresh out none_made = elim (Bool-cases (has_settings lock.settings)) [
  | inl e ↦ rw (e, none_made) (refl, attempted-All a.emitted _)
  | inr e ↦ rw (e, none_made) (refl, tt)
]

begin-IsQuiet :
    (o : Options) (a : Answers) (lock : Lock) (cause : Diagnostic) (session : String) (w : World)
    → stop_was_requested session w.marker ≡ some true
    → IsQuiet w (begin o a lock cause session w)
unfolding begin
begin-IsQuiet o a lock cause session w h = elim (entry_of_stopping o a session w h) [
  | inl e ↦ rw (e, begin) (report-IsQuiet a lock cause true _ refl)
  | inr e ↦ rw (e, begin) (refl, tt)
]

pub request_emergency-IsQuiet :
    (o : Options) (a : Answers) (lock : Lock) (cause : Diagnostic) (session : String) (w : World)
    → stop_was_requested session w.marker ≡ some true
    → identity lock.session_id ≡ some session
    → IsQuiet w (request_emergency o a lock cause w)
unfolding request_emergency begin
request_emergency-IsQuiet o a lock cause session w h e =
    rw (e, request_emergency) (begin-IsQuiet o a lock cause session w h)

-- A stop is requested for the session that the marker names, and for any if it names all.
pub stopping_lem : (session : String) → stop_was_requested session (stopping session) ≡ some true
unfolding stop_was_requested
stopping_lem session = ground (arith, str_eq_refl session)

pub stopping-all : (session : String) → stop_was_requested session (stopping "*") ≡ some true
unfolding stop_was_requested
stopping-all session = ground (arith, str_eq_refl "*")
