-- ===== src/Session/Request/Verified.antt =====
-- What the exit code of `request_emergency` promises.
use transparent_tor_proxy.Base.{
  ◌≤◌, ◌≡◌, refl, ap, ◌∙◌, ◌⊎◌, inl, inr, Bool, true, false, String, Option, none, some, List, [],
  ◌∷◌, ◌++◌, arith, Bool-cases, Option-cases, if◌then◌else◌,
}
use transparent_tor_proxy.Evidence.{
  emergency_verified, containment_unconfirmed, priority, Diagnostic, Result, no_result, exit_code,
  add,
}
use transparent_tor_proxy.Evidence.Select.{
  Reports, Reports-append, Reports-append_right, exit_code_bound, exit_code-add,
}
use transparent_tor_proxy.Firewall.Inspect.{KernelCheck, diagnostic}
use transparent_tor_proxy.Session.World.{Lock, World, Emergency, recorded, identity}
use transparent_tor_proxy.Session.Request.{
  Options, Answers, Outcome, Entry, acts, fails, stale, entry, has_settings, begin,
  transition_failed, identity_missing, emit_all, report, act, request_emergency, containment,
  before_transition, read_previous, unless_written, latch_write_failed,
}

-- Once reported, unconfirmed containment is never outweighed by anything that a session can report.
Reports→priority :
    (r : Result) → Reports containment_unconfirmed r.diagnostics → 60 ≤ priority (exit_code r)
Reports→priority r h = (exit_code_bound r).0 containment_unconfirmed h

emit_all-priority :
    (emitted : String → Option (List Diagnostic)) (es : List String) (r : Result)
    → priority (exit_code r) ≤ priority (exit_code (emit_all emitted es r))
unfolding emit_all
emit_all-priority emitted [] r = omega arith
emit_all-priority emitted (e ∷ es) r = elim (Option-cases (emitted e)) [
  | inl none_given ↦ rw (none_given, emit_all) (omega arith)
  | inr (ds, given) ↦
      rw (given, emit_all)
        (omega (arith, (exit_code-add r ds).0, emit_all-priority emitted es (add r ds)))
]

-- The check that `request_emergency` reports.
abbrev pub last_check : Options → Answers → Diagnostic → World → KernelCheck
last_check o a cause w =
    (containment o.repair a
      (if o.repair then (read_previous cause w.emergency).applied else some false)).check

diagnostic-unconfirmed :
    (c : KernelCheck) → c.verified ≡ false → (diagnostic c).code ≡ containment_unconfirmed
unfolding diagnostic
diagnostic-unconfirmed c h = rw h

module _ (o : Options) (a : Answers) (cause : Diagnostic) (before : Result) (w : World) where
  act-unlatched :
      a.latch_written ≡ false
      → Reports containment_unconfirmed (act o a cause before w).result.diagnostics
  unfolding act add
  act-unlatched h = rw h (
      Reports-append _ _ _ (
        Reports-append_right _ before.diagnostics _ (
          Reports-append_right _ (read_previous cause w.emergency).diagnostics _
            (inl (refl, refl)))))

  act-unpublished :
      a.evidence_written ≡ false
      → Reports containment_unconfirmed (act o a cause before w).result.diagnostics
  unfolding act add
  act-unpublished h =
      rw h (
        Reports-append_right containment_unconfirmed (before.diagnostics ++ _) _ (inl (refl, refl)))

  act-unverified :
      (last_check o a cause w).verified ≡ false
      → Reports containment_unconfirmed (act o a cause before w).result.diagnostics
  unfolding act add diagnostic
  act-unverified h = Reports-append _ _ _ (
      Reports-append_right _ before.diagnostics _ (
        Reports-append_right _ (read_previous cause w.emergency).diagnostics _ (
          Reports-append_right _ (unless_written a.latch_written latch_write_failed) _ (
            Reports-append_right _ (containment o.repair a _).diagnostics _
              (inl (refl, diagnostic-unconfirmed (last_check o a cause w) h))))))

  -- The stored evidence of a call whose second write succeeds.
  act-evidence :
      a.evidence_written ≡ true
      → (e : Emergency) × ((act o a cause before w).world.emergency ≡ recorded e)
        × (e.requested ≡ true)
        × (e.verified ≡ (last_check o a cause w).verified)
  unfolding act
  act-evidence h = rw h (_, refl, refl, refl)

-- What holds when a call reports verified containment of the session.
pub record IsVerified (o : Options) (a : Answers) (cause : Diagnostic) (session : String)
    (w : World) (out : World) : Type 0 where
  pub acted : entry o a session w ≡ acts
  pub latched : a.latch_written ≡ true
  pub published : a.evidence_written ≡ true
  pub checked : (last_check o a cause w).verified ≡ true
  pub stored :
      (e : Emergency) × (out.emergency ≡ recorded e) × (e.requested ≡ true) × (e.verified ≡ true)

pub report-priority :
    (a : Answers) (lock : Lock) (cause : Diagnostic) (fresh : Bool) (out : Outcome)
    → priority (exit_code out.result) ≤ priority (exit_code (report a lock cause fresh out).result)
unfolding report
report-priority a lock cause fresh out = elim (Bool-cases (has_settings lock.settings)) [
  | inl e ↦ rw e (emit_all-priority a.emitted _ out.result)
  | inr e ↦ rw e (omega arith)
]

report-world :
    (a : Answers) (lock : Lock) (cause : Diagnostic) (fresh : Bool) (out : Outcome)
    → (report a lock cause fresh out).world ≡ out.world
unfolding report
report-world a lock cause fresh out = ground arith

-- A call whose middle part reports unconfirmed containment does not end with the exit code for
-- verified containment.
unconfirmed_stays :
    (a : Answers) (lock : Lock) (cause : Diagnostic) (fresh : Bool) (out : Outcome)
    → Reports containment_unconfirmed out.result.diagnostics
    → exit_code (report a lock cause fresh out).result ≡ emergency_verified
    → ⊥
unconfirmed_stays a lock cause fresh out h e =
    omega
      (arith, Reports→priority out.result h, report-priority a lock cause fresh out, ap priority e)

pub Entry-cases : (e : Entry) → (e ≡ acts) ⊎ (e ≡ fails) ⊎ (e ≡ stale)
Entry-cases e = ground arith

true_unless : (b : Bool) → (b ≡ false → ⊥) → b ≡ true
true_unless true h = refl
true_unless false h = absurd (h refl)

module _ (o : Options) (a : Answers) (lock : Lock) (cause : Diagnostic) (session : String)
    (w : World) where
  begin-acts :
      entry o a session w ≡ acts
      → begin o a lock cause session w
        ≡ report a lock cause
            (read_previous cause w.emergency).new_cause
            (act o a cause (before_transition lock.settings cause) w)
  unfolding begin report
  begin-acts e = rw (e, begin)

  abbrev failed : Outcome
  failed = record {
    result = add (before_transition lock.settings cause) (transition_failed ∷ []);
    world = w;
    actions = [];
  }

  failed-Reports : Reports containment_unconfirmed failed.result.diagnostics
  unfolding add transition_failed
  failed-Reports =
      Reports-append_right _ (before_transition lock.settings cause).diagnostics _
        (inl (refl, refl))

  begin_fails :
      entry o a session w ≡ fails → begin o a lock cause session w ≡ report a lock cause true failed
  unfolding begin report
  begin_fails e = rw (e, begin)

  begin_stale :
      entry o a session w ≡ stale
      → begin o a lock cause session w ≡ record { result = no_result; world = w; actions = [] }
  unfolding begin
  begin_stale e = rw (e, begin)

  abbrev middle : Outcome
  middle = act o a cause (before_transition lock.settings cause) w

  confirmed :
      exit_code (report a lock cause (read_previous cause w.emergency).new_cause middle).result
        ≡ emergency_verified
      → ¬ Reports containment_unconfirmed middle.result.diagnostics
  confirmed h r = unconfirmed_stays a lock cause _ middle r h

  acted-IsVerified :
      entry o a session w ≡ acts
      → exit_code (report a lock cause (read_previous cause w.emergency).new_cause middle).result
        ≡ emergency_verified
      → IsVerified o a cause session w (begin o a lock cause session w).world
  acted-IsVerified e h =
      let sure = confirmed h in
      let before = before_transition lock.settings cause in
      let latched = true_unless _ (λ f. sure (act-unlatched o a cause before w f)) in
      let published = true_unless _ (λ f. sure (act-unpublished o a cause before w f)) in
      let checked = true_unless _ (λ f. sure (act-unverified o a cause before w f)) in
      let (stored, at, requested, verified) = act-evidence o a cause before w published in
      record {
        acted = e;
        latched = latched;
        published = published;
        checked = checked;
        stored = (
          stored,
          ap (λ (out : Outcome). out.world.emergency) (begin-acts e)
              ∙ ap (λ (x : World). x.emergency) (report-world a lock cause _ middle)
              ∙ at,
          requested,
          verified ∙ checked,
        );
      }

  begin-fails :
      entry o a session w ≡ fails
      → exit_code (begin o a lock cause session w).result ≡ emergency_verified
      → ⊥
  begin-fails e h =
      unconfirmed_stays a lock cause true failed failed-Reports (rw (begin_fails e) at h)

  begin-stale :
      entry o a session w ≡ stale
      → exit_code (begin o a lock cause session w).result ≡ emergency_verified
      → ⊥
  unfolding exit_code
  begin-stale e h = cc (rw (begin_stale e) at h)

  begin-IsVerified :
      exit_code (begin o a lock cause session w).result ≡ emergency_verified
      → IsVerified o a cause session w (begin o a lock cause session w).world
  begin-IsVerified h = elim (Entry-cases (entry o a session w)) [
    | inr (inl e) ↦ absurd (begin-fails e h)
    | inr (inr e) ↦ absurd (begin-stale e h)
    | inl e ↦ acted-IsVerified e (rw (begin-acts e) at h)
  ]

-- The exit code for verified containment is never given in vain: if a call ends with it, the lock
-- names a session, the call acted under the transition lock, the latch and the evidence were both
-- written, the last inspection of the kernel found the emergency rules, and the stored record says so.
pub request_emergency-IsVerified :
    (o : Options) (a : Answers) (lock : Lock) (cause : Diagnostic) (w : World)
    → exit_code (request_emergency o a lock cause w).result ≡ emergency_verified
    → (session : String) × (identity lock.session_id ≡ some session)
      × IsVerified o a cause session w (request_emergency o a lock cause w).world
unfolding request_emergency begin
request_emergency-IsVerified o a lock cause w h = elim (Option-cases (identity lock.session_id)) [
  | inl e ↦ absurd (unnamed e h)
  | inr (session, e) ↦ (
    session,
    e,
    rw (named session e) (begin-IsVerified o a lock cause session w (rw (named session e) at h)),
  )
]
  where
    named :
        (session : String)
        → identity lock.session_id ≡ some session
        → request_emergency o a lock cause w ≡ begin o a lock cause session w
    named session e = rw (e, request_emergency)

    unnamed :
        identity lock.session_id ≡ none
        → exit_code (request_emergency o a lock cause w).result ≡ emergency_verified
        → ⊥
    unnamed e k = omega (
      arith,
      Reports→priority (record { diagnostics = cause ∷ identity_missing ∷ [] })
          (inr (inl (refl, refl))),
      ap priority (rw (e, request_emergency) at k),
    )
