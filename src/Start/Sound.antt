-- ===== src/Start/Sound.antt =====
-- ttp/commands/start.py: what an exit code of 0 says of a start.
use transparent_tor_proxy.Base.{
  ℕ, ◌≤◌, ◌≡◌, ◌≢◌, refl, ap, ◌⊎◌, inl, inr, Bool, true, false, not, ◌&&◌, String, Option, none,
  some, List, [], ◌∷◌, arith, Bool-cases,
}
use transparent_tor_proxy.Evidence.{
  ExitCode, ok, unverified, tor_negative, notification_failed, containment_unconfirmed, priority,
  Diagnostic, Result, exit_code, add, VerificationState, not_run, confirmed, negative, inconclusive,
  Verification, result,
}
use transparent_tor_proxy.Evidence.Select.{
  Reports, Reports-append_right, exit_code_bound, exit_code-add,
}
use transparent_tor_proxy.Session.World.{Lock, World, identity, emergency_latched}
use transparent_tor_proxy.Session.Request.{Options, Answers, Entry, stale, entry, request_emergency}
use transparent_tor_proxy.Session.Request.Urgent.{request_emergency-urgent}
use transparent_tor_proxy.Start.{
  agent_failed, evidence_invalid, Course, Progress, join, watchdog_failed, still_latched,
  on_request, on_repair, after_agent, unsupervised, after_watchdog, record_verification,
  after_verification, after_latch, inspected, announce, with_diagnostics, conclude_start, retain,
  is_negative,
}

abbrev urgency : Result → ℕ
urgency r = priority (exit_code r)

add_grows : (r : Result) (ds : List Diagnostic) → urgency r ≤ urgency (add r ds)
add_grows r ds = (exit_code-add r ds).0

add_counts :
    (r : Result) (ds : List Diagnostic) (c : ExitCode)
    → Reports c ds
    → priority c ≤ urgency (add r ds)
unfolding add
add_counts r ds c h = (exit_code_bound (add r ds)).0 c (Reports-append_right c r.diagnostics ds h)

at_least :
    (c : ExitCode) (d : Diagnostic) (ds : List Diagnostic)
    → 1 ≤ priority c
    → d.active ≡ true
    → d.code ≡ c
    → 1 ≤ urgency (add (record { diagnostics = ds }) (d ∷ []))
at_least c d ds h a e =
    omega (arith, add_counts (record { diagnostics = ds }) (d ∷ []) c (inl (a, e)))

add_joins : (r s : Result) → urgency s ≤ urgency (add r s.diagnostics)
add_joins r s = elim (exit_code_bound s).1 [
  | inl h ↦ add_counts r s.diagnostics (exit_code s) h
  | inr (e, _) ↦ rw e (omega arith)
]

Entry-stale : (e : Entry) → (e ≡ stale) ⊎ (e ≢ stale)
Entry-stale e = ground arith

both-false : (b c : Bool) → b && not c ≡ false → (b ≡ false) ⊎ (c ≡ true)
both-false b c h = ground arith

state-cases :
    (s : VerificationState) → (s ≡ confirmed) ⊎ (s ≡ not_run) ⊎ (s ≡ negative) ⊎ (s ≡ inconclusive)
state-cases s = ground arith

abbrev or_this : Progress → Option Progress → Progress
or_this p none = p
or_this p (some q) = q

result-urgent : (v : Verification) → (v.state ≡ confirmed) ⊎ (1 ≤ urgency (result v))
unfolding result
result-urgent v = elim (state-cases v.state) [
  | inl e ↦ inl e
  | inr (inl e) ↦ inr (rw e (at_least unverified _ (v.diagnostics) (omega arith) refl refl))
  | inr (inr (inl e)) ↦ inr (rw e (at_least tor_negative _ (v.diagnostics) (omega arith) refl refl))
  | inr (inr (inr e)) ↦ inr (rw e (at_least unverified _ (v.diagnostics) (omega arith) refl refl))
]

module _ (lock : Lock) (session : String) (named : identity lock.session_id ≡ some session)
    (c : Course) where
  joined-urgent :
      (o : Options) (a : Answers) (cause : Diagnostic) (p : Progress)
      → cause.active ≡ true
      → 1 ≤ priority cause.code
      → urgency (join p.result (request_emergency o a lock cause p.world)).result ≡ 0
      → entry o a session p.world ≡ stale
  joined-urgent o a cause p active h zero = elim (Entry-stale (entry o a session p.world)) [
    | inl e ↦ e
    | inr e ↦ absurd (
        omega (
          arith,
          request_emergency-urgent o a lock cause session p.world named active e,
          add_joins p.result (request_emergency o a lock cause p.world).result,
        ))
  ]

  agent-grows : (r : Result) → urgency r ≤ urgency (after_agent lock c r)
  agent-grows r = elim (Bool-cases (c.target && not c.agent_starts)) [
    | inl e ↦ rw e (add_grows r _)
    | inr e ↦ rw e (omega arith)
  ]

  agent-quiet :
      (r : Result)
      → urgency (after_agent lock c r) ≡ 0
      → (c.target ≡ false) ⊎ (c.agent_starts ≡ true)
  agent-quiet r h = elim (Bool-cases (c.target && not c.agent_starts)) [
    | inr e ↦ both-false c.target c.agent_starts e
    | inl e ↦ absurd (
        omega (
          arith,
          add_counts r (agent_failed ∷ []) notification_failed (inl (refl, refl)),
          rw e at h,
        ))
  ]

  watchdog-grows :
      (b : Bool) (p : Progress) → urgency p.result ≤ urgency (after_watchdog lock c b p).result
  watchdog-grows true p = add_grows p.result _
  watchdog-grows false p = omega arith

  watchdog-quiet :
      (b : Bool) (p : Progress)
      → urgency (after_watchdog lock c b p).result ≡ 0
      → (b ≡ false) ⊎ (entry on_request c.at_watchdog session p.world ≡ stale)
  watchdog-quiet false p h = inl refl
  watchdog-quiet true p h =
      inr (joined-urgent on_request c.at_watchdog watchdog_failed p refl (omega arith) h)

  verification-grows :
      (b : Bool) (p : Progress) → urgency p.result ≤ urgency (after_verification lock c b p).result
  verification-grows true p = omega arith
  verification-grows false p = add_grows p.result _

  retain-grows : (b : Bool) (r : Result) → urgency r ≤ urgency (retain lock c b r)
  retain-grows true r = omega arith
  retain-grows false r = add_grows r _

  record-urgent :
      (w : World) → urgency (result c.verification) ≤ urgency (record_verification lock c w).result
  unfolding record_verification
  record-urgent w = elim (Bool-cases (is_negative lock c c.verification.state)) [
    | inl e ↦ rw e (
        omega (
          arith,
          retain-grows c.writes (result c.verification),
          add_grows (retain lock c c.writes (result c.verification)) _,
        ))
    | inr e ↦ rw e (retain-grows c.writes (result c.verification))
  ]

  verification-quiet :
      (b : Bool) (p : Progress)
      → urgency (after_verification lock c b p).result ≡ 0
      → (b ≡ true) ⊎ (c.verification.state ≡ confirmed)
  verification-quiet true p h = inl refl
  verification-quiet false p h = elim (result-urgent c.verification) [
    | inl e ↦ inr e
    | inr u ↦ absurd (
        omega (
          arith,
          record-urgent p.world,
          add_joins p.result (record_verification lock c p.world).result,
        ))
  ]

  latch-grows :
      (b : Option Bool) (p : Progress) → urgency p.result ≤ urgency (after_latch lock c b p).result
  latch-grows none p = add_grows p.result _
  latch-grows (some true) p = add_grows p.result _
  latch-grows (some false) p = omega arith

  latch-quiet :
      (b : Option Bool) (p : Progress)
      → urgency (after_latch lock c b p).result ≡ 0
      → (b ≡ some false) ⊎ (b ≡ some true) × (entry on_repair c.at_latch session p.world ≡ stale)
  latch-quiet none p h = absurd (
      omega (
        arith,
        add_counts p.result (evidence_invalid ∷ []) containment_unconfirmed (inl (refl, refl)),
      ))
  latch-quiet (some false) p h = inl refl
  latch-quiet (some true) p h =
      inr (refl, joined-urgent on_repair c.at_latch still_latched p refl (omega arith) h)

  with_diagnostics-grows :
      (p q : Progress) (e : Option (List Diagnostic))
      → with_diagnostics lock c p e ≡ some q
      → urgency p.result ≤ urgency q.result
  with_diagnostics-grows p q none h = absurd (ground (arith, h))
  with_diagnostics-grows p q (some ds) h =
      omega (arith, add_grows p.result ds, ap (λ x. urgency (or_this p x).result) h)

  announce-grows :
      (p q : Progress) → announce lock c p ≡ some q → urgency p.result ≤ urgency q.result
  unfolding announce
  announce-grows p q h = elim (Bool-cases c.notifications) [
    | inl e ↦ with_diagnostics-grows p q (c.emitted _) (rw e at h)
    | inr e ↦
        let same : some p ≡ some q = rw e at h in
        omega (arith, ap (λ x. urgency (or_this p x).result) same)
  ]

either-ready : (b c : Bool) (S : Type 0) → (b && not c ≡ false) ⊎ S → (b ≡ false) ⊎ (c ≡ true) ⊎ S
either-ready false c S h = inl refl
either-ready true true S h = inr (inl refl)
either-ready true false S (inl h) = absurd (ground (arith, h))
either-ready true false S (inr h) = inr (inr h)

-- A start that ends with exit code 0, with diagnostics `before` so far and files `w`: the desktop agent
-- of a notification target has started; the watchdog is ready if it is required, or else the session
-- was no longer current when its failure was reported; the exit was verified, or else was not probed
-- because the watchdog failed; and no emergency is latched when that is inspected last, or else the
-- session was no longer current. The lock names the session.
pub conclude_start-ok :
    (lock : Lock) (session : String) (c : Course) (before : Result) (w : World) (q : Progress)
    → identity lock.session_id ≡ some session
    → conclude_start lock c before w ≡ some q
    → exit_code q.result ≡ ok
    → let first : Progress = record { result = after_agent lock c before; world = w } in
      let last = inspected lock c first in
      ((c.target ≡ false) ⊎ (c.agent_starts ≡ true))
      × ((c.watchdog ≡ false)
          ⊎ (c.gets_ready ≡ true)
          ⊎ (entry on_request c.at_watchdog session w ≡ stale))
      × ((unsupervised lock c ≡ true) ⊎ (c.verification.state ≡ confirmed))
      × ((emergency_latched lock last.world ≡ some false)
          ⊎ (emergency_latched lock last.world ≡ some true)
            × (entry on_repair c.at_latch session last.world ≡ stale))
unfolding conclude_start inspected
conclude_start-ok lock session c before w q named h quiet =
    let first : Progress = record { result = after_agent lock c before; world = w } in
    let supervised : Progress = after_watchdog lock c (unsupervised lock c) first in
    let probed : Progress = record supervised { world = c.while_probing supervised.world } in
    let verified : Progress = after_verification lock c (unsupervised lock c) probed in
    let last : Progress = inspected lock c first in
    let latch : Option Bool = emergency_latched lock last.world in
    let end : urgency (after_latch lock c latch last).result ≡ 0 = omega (
      arith,
      announce-grows lock session named c (after_latch lock c latch last) q h,
      ap priority quiet,
    ) in
    let at_latch : urgency verified.result ≡ 0 =
      omega (arith, latch-grows lock session named c latch last) in
    let at_probe : urgency supervised.result ≡ 0 =
      omega (arith, verification-grows lock session named c (unsupervised lock c) probed) in
    let at_agent : urgency first.result ≡ 0 =
      omega (arith, watchdog-grows lock session named c (unsupervised lock c) first) in
    (
      agent-quiet lock session named c before at_agent,
      either-ready c.watchdog c.gets_ready _
          (watchdog-quiet lock session named c (unsupervised lock c) first at_probe),
      verification-quiet lock session named c (unsupervised lock c) probed at_latch,
      latch-quiet lock session named c latch last end,
    )
