-- ===== src/Start/Report/Sound.antt =====
-- ttp/session_report.py, `observe_session`: what its exit code says.
use transparent_tor_proxy.Base.{
  ◌≤◌, ◌≡◌, refl, ap, ◌∙◌, ◌⊎◌, inl, inr, Bool, true, false, not, ◌&&◌, String, Option, none, some,
  List, [], ◌∷◌, ◌++◌, arith, Bool-cases,
}
use transparent_tor_proxy.Base.Json.{Value, get_field, as_str}
use transparent_tor_proxy.Evidence.{
  ExitCode, ok, watchdog_unavailable, containment_unconfirmed, notification_failed,
  emergency_verified, priority, Diagnostic, exit_code,
}
use transparent_tor_proxy.Evidence.Select.{
  Reports, Reports-append, Reports-append_right, exit_code_bound,
}
use transparent_tor_proxy.Firewall.Inspect.{KernelCheck, diagnostic}
use transparent_tor_proxy.Session.World.{Lock, Record, recorded, World, identity, emergency_latched}
use transparent_tor_proxy.Watchdog.Service.{is_live, printed}
use transparent_tor_proxy.Start.Report.{
  Sighting, with_check, of_emergency, of_latch, stored_causes, evidence_of, with_reason,
  of_watchdog, supervision, delivery, joined, observe_session, unsupervised_with,
}

-- An active diagnostic of a code that is not 0 keeps the exit code from being 0.
urgent :
    (ds : List Diagnostic) (c : ExitCode)
    → exit_code (record { diagnostics = ds }) ≡ ok
    → 1 ≤ priority c
    → Reports c ds
    → ⊥
urgent ds c quiet positive h =
    omega
      (arith, (exit_code_bound (record { diagnostics = ds })).0 c h, ap priority quiet, positive)

check-Reports :
    (check : KernelCheck)
    → Reports emergency_verified (diagnostic check ∷ [])
      ⊎ Reports containment_unconfirmed (diagnostic check ∷ [])
unfolding diagnostic
check-Reports check = elim (Bool-cases check.verified) [
  | inl e ↦ inl (inl (refl, rw e refl))
  | inr e ↦ inr (inl (refl, rw e refl))
]

-- Diagnostics of which one says that an emergency is in force or cannot be excluded.
abbrev IsAlarm : List Diagnostic → Type 0
IsAlarm ds = Reports emergency_verified ds ⊎ Reports containment_unconfirmed ds

with_check-IsAlarm :
    (check : KernelCheck) (o : Option (List Diagnostic)) → IsAlarm (with_check check o)
with_check-IsAlarm check none = inr (inl (refl, refl))
with_check-IsAlarm check (some ds) = elim (check-Reports check) [
  | inl h ↦ inl (Reports-append_right emergency_verified ds (diagnostic check ∷ []) h)
  | inr h ↦ inr (Reports-append_right containment_unconfirmed ds (diagnostic check ∷ []) h)
]

emergency-IsAlarm : (check : KernelCheck) (r : Record) → IsAlarm (of_emergency check r)
emergency-IsAlarm check (recorded e) = with_check-IsAlarm check (stored_causes e.causes)
emergency-IsAlarm check Record.no_record = inr (inl (refl, refl))
emergency-IsAlarm check Record.broken_record = inr (inl (refl, refl))

module _ (lock : Lock) (w : World) (s : Sighting) where
  latch-cases : (b : Option Bool) → (b ≡ some false) ⊎ IsAlarm (of_latch w s.check b)
  latch-cases none = inr (inr (inl (refl, refl)))
  latch-cases (some false) = inl refl
  latch-cases (some true) = inr (emergency-IsAlarm s.check w.emergency)

  evidence-cases :
      (session : Option String)
      → (session ≡ none)
        ⊎ ((s.readable ≡ true) × (emergency_latched lock w ≡ some false))
        ⊎ IsAlarm (evidence_of lock w s session)
  evidence-cases none = inl refl
  evidence-cases (some session) = elim (Bool-cases s.readable) [
    | inr e ↦ inr (inr (rw e (inr (inl (refl, refl)))))
    | inl e ↦ elim (latch-cases (emergency_latched lock w)) [
      | inl clear ↦ inr (inl (e, clear))
      | inr alarm ↦ inr (inr (rw e alarm))
    ]
  ]

  -- The watchdog is observed to be live.
  abbrev pub IsLive : Type 0
  IsLive =
      (value : Value) × (get_field "value" s.watchdog ≡ some value)
      × (is_live (as_str (some value)) ≡ true)

  reason-Reports :
      (o : Option Value) (ds : List Diagnostic)
      → with_reason lock w s o ≡ some ds
      → Reports watchdog_unavailable ds
  reason-Reports none ds h = absurd (ground (arith, h))
  reason-Reports (some v) ds h =
      let same : unsupervised_with (printed s.text_of (some v) "") ∷ [] ≡ ds = cc in
      rw (← same) (inl (refl, refl))

  watchdog-cases :
      (o : Option Value) (ds : List Diagnostic)
      → get_field "value" s.watchdog ≡ o
      → of_watchdog lock w s o ≡ some ds
      → IsLive ⊎ Reports watchdog_unavailable ds
  watchdog-cases none ds e h = absurd (ground (arith, h))
  watchdog-cases (some value) ds e h = elim (Bool-cases (is_live (as_str (some value)))) [
    | inl l ↦ inl (value, e, l)
    | inr l ↦ inr (reason-Reports (get_field "reason" s.watchdog) ds (rw l at h))
  ]

  supervision-cases :
      (b : Bool) (ds : List Diagnostic)
      → supervision lock w s b ≡ some ds
      → (b ≡ false) ⊎ IsLive ⊎ Reports watchdog_unavailable ds
  supervision-cases false ds h = inl refl
  supervision-cases true ds h = inr (watchdog-cases (get_field "value" s.watchdog) ds refl h)

  delivery-cases :
      (s.notifications && not s.answers ≡ false) ⊎ Reports notification_failed (delivery lock w s)
  delivery-cases = elim (Bool-cases (s.notifications && not s.answers)) [
    | inr e ↦ inl e
    | inl e ↦ inr (rw e (inl (refl, refl)))
  ]

  joined-eq :
      (evidence : List Diagnostic) (o : Option (List Diagnostic)) (ds : List Diagnostic)
      → joined lock w s evidence o ≡ some ds
      → (supervised : List Diagnostic) × (o ≡ some supervised)
        × (evidence ++ (supervised ++ delivery lock w s) ≡ ds)
  joined-eq evidence none ds h = absurd (ground (arith, h))
  joined-eq evidence (some supervised) ds h = (supervised, refl, cc)

  module _ (evidence supervised : List Diagnostic)
      (quiet : exit_code (record { diagnostics = evidence ++ (supervised ++ delivery lock w s) })
        ≡ ok) where
    abbrev all : List Diagnostic
    all = evidence ++ (supervised ++ delivery lock w s)

    no-alarm : IsAlarm evidence → ⊥
    no-alarm (inl h) =
        urgent all emergency_verified quiet (omega arith)
          (Reports-append emergency_verified evidence (supervised ++ delivery lock w s) h)
    no-alarm (inr h) =
        urgent all containment_unconfirmed quiet (omega arith)
          (Reports-append containment_unconfirmed evidence (supervised ++ delivery lock w s) h)

    no-loss : Reports watchdog_unavailable supervised → ⊥
    no-loss h = urgent all watchdog_unavailable quiet (omega arith) (
        Reports-append_right watchdog_unavailable evidence (supervised ++ delivery lock w s)
          (Reports-append watchdog_unavailable supervised (delivery lock w s) h))

    no-silence : Reports notification_failed (delivery lock w s) → ⊥
    no-silence h = urgent all notification_failed quiet (omega arith) (
        Reports-append_right notification_failed evidence (supervised ++ delivery lock w s)
          (Reports-append_right notification_failed supervised (delivery lock w s) h))

  -- What a report with the exit code 0 stands on.
  abbrev pub IsSound : Type 0
  IsSound =
      ((identity lock.session_id ≡ none)
        ⊎ ((s.readable ≡ true) × (emergency_latched lock w ≡ some false)))
      × ((lock.watchdog_requested ≡ false) ⊎ IsLive)
      × ((s.notifications ≡ false) ⊎ (s.answers ≡ true))

  agent-cases :
      s.notifications && not s.answers ≡ false → (s.notifications ≡ false) ⊎ (s.answers ≡ true)
  agent-cases h = ground (arith, h)

  parts-IsSound :
      (supervised : List Diagnostic)
      → supervision lock w s lock.watchdog_requested ≡ some supervised
      → exit_code (record {
        diagnostics =
            evidence_of lock w s (identity lock.session_id) ++ (supervised ++ delivery lock w s);
      })
        ≡ ok
      → IsSound
  parts-IsSound supervised h quiet =
      let evidence : List Diagnostic = evidence_of lock w s (identity lock.session_id) in
      (
        elim (evidence-cases (identity lock.session_id)) [
          | inl e ↦ inl e
          | inr (inl e) ↦ inr e
          | inr (inr alarm) ↦ absurd (no-alarm evidence supervised quiet alarm)
        ],
        elim (supervision-cases lock.watchdog_requested supervised h) [
          | inl e ↦ inl e
          | inr (inl e) ↦ inr e
          | inr (inr lost) ↦ absurd (no-loss evidence supervised quiet lost)
        ],
        elim delivery-cases [
          | inl e ↦ agent-cases e
          | inr silent ↦ absurd (no-silence evidence supervised quiet silent)
        ],
      )

  -- A report on a recorded session has the exit code 0 only if a required watchdog is observed to be live,
  -- the agent answers where notifications are enabled, and, unless the lock has no session identity, the
  -- records of the session can be read and no emergency is latched for it. Without an identity neither
  -- is looked at.
  pub observe_session-IsSound :
      (ds : List Diagnostic)
      → observe_session lock w s ≡ some ds
      → exit_code (record { diagnostics = ds }) ≡ ok
      → IsSound
  unfolding observe_session
  observe_session-IsSound ds h quiet =
      let parts =
        joined-eq (evidence_of lock w s (identity lock.session_id))
          (supervision lock w s lock.watchdog_requested) ds h in
      parts-IsSound parts.0 parts.1
        (ap (λ (x : List Diagnostic). exit_code (record { diagnostics = x })) parts.2 ∙ quiet)
