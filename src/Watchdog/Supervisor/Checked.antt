-- ===== src/Watchdog/Supervisor/Checked.antt =====
-- ttp/watchdog/supervisor.py: what comes before the session is published as healthy.
use transparent_tor_proxy.Base.{
  ◌≡◌, refl, Bool, true, false, ◌||◌, ◌&&◌, not, String, Option, none, some, List, [], ◌∷◌, length,
  ◌⊎◌, inl, inr, Bool-cases, arith,
}
use transparent_tor_proxy.Evidence.{Diagnostic}
use transparent_tor_proxy.Session.World.{
  Lock, LockFile, no_lock, broken_lock, locked, emergency_latched,
}
use transparent_tor_proxy.Watchdog.Supervisor.{
  Value, unknown, healthy, emergency, Event, published, checked, contained, announced, State, Check,
  saw, deadline, raised, Waited, Round, pure, raise, leave, log, read, observe, put_world,
  put_baseline, set_due, set_ready, write_record, publish, request, contain, notify, when,
  bounded_check, check_again, heal_tor, announce, conclude, evaluate, read_intent, read_latch,
  guard_session, wait, round, after_heal, checked_by, name_of, or_watchdog, after_healing, healed,
  is_tor, act_on, follow, is_over, latched_or_contained, handle, quiet, interrupted, broken, events,
  is_lost_now, keep_watch,
}
use transparent_tor_proxy.Watchdog.Integrity.{Readings, check_system_integrity}
use transparent_tor_proxy.Watchdog.Supervisor.Run.{
  fresh, initialize, give_up, Step, begins, goes_on, gives_up, stops, deletes, requests, Reaches,
  here, step,
}
use transparent_tor_proxy.Watchdog.Supervisor.Invariant.{
  After, Const, bind-After, either-After, After-weaken, After-end,
}

abbrev pub is_healthy : Value → Bool
is_healthy healthy = true
is_healthy _ = false

-- What the last check or the last request for containment says.
abbrev pub is_sound : List Event → Bool
is_sound [] = false
is_sound (checked none ∷ es) = true
is_sound (checked (some _) ∷ es) = false
is_sound (contained ∷ es) = false
is_sound (_ ∷ es) = is_sound es

-- Each time that the session is published as healthy, the last check before it found no component
-- failed, and no containment was requested since.
abbrev pub IsSupported : List Event → Type 0
IsSupported [] = Unit
IsSupported (published o ∷ es) =
    ((is_healthy o.value ≡ false) ⊎ (is_sound es ≡ true)) × IsSupported es
IsSupported (_ ∷ es) = IsSupported es

abbrev pub Fits : State → Type 0
Fits s =
    ((is_healthy s.observation.value ≡ false) ⊎ (is_sound s.events ≡ true)) × IsSupported s.events

-- Nothing claims that the session is healthy.
abbrev IsOpen : State → Type 0
IsOpen s = (is_healthy s.observation.value ≡ false) × IsSupported s.events

IsOpen→Fits : (s : State) → IsOpen s → Fits s
IsOpen→Fits s (h, k) = (inl h, k)

is_sound_checked :
    (failed : Option String) (es : List Event)
    → failed ≡ none
    → is_sound (checked failed ∷ es) ≡ true
is_sound_checked none es e = refl
is_sound_checked (some failed) es e = absurd (ground (arith, e))

-- Nothing claims that the session is healthy, and if nothing has failed the last check says so.
abbrev Judges : Option String → State → Type 0
Judges failed s = IsOpen s × (failed ≡ none → is_sound s.events ≡ true)

abbrev JudgesIfAny : Option (Option String) → State → Type 0
JudgesIfAny none s = IsOpen s
JudgesIfAny (some failed) s = Judges failed s

module _ (lock : Lock) (a : Round) where
  write_record-Fits : (s : State) → Fits s → After Fits (Const Fits) (write_record lock a s)
  unfolding write_record read log pure
  write_record-Fits s h =
      either-After Fits (Const Fits) (a.written (length s.events)) _ _ (h.0, h) (h.0, h)

  publish-IsOpen :
      (v : Value) (reason : String) (completed : Bool) (s : State)
      → is_healthy v ≡ false
      → IsSupported s.events
      → After Fits (Const IsOpen) (publish lock a v reason completed s)
  unfolding publish observe write_record read log pure
  publish-IsOpen v reason completed s e h =
      either-After Fits (Const IsOpen) (a.written (length s.events)) _ _ (inl e, (inl e, h))
        (e, (inl e, h))

  publish-Fits :
      (v : Value) (reason : String) (completed : Bool) (s : State)
      → is_sound s.events ≡ true
      → IsSupported s.events
      → After Fits (Const Fits) (publish lock a v reason completed s)
  unfolding publish observe write_record read log pure
  publish-Fits v reason completed s e h =
      either-After Fits (Const Fits) (a.written (length s.events)) _ _ (inr e, (inr e, h))
        (inr e, (inr e, h))

  contain-IsOpen :
      (c : Diagnostic) (s : State)
      → IsSupported s.events
      → After Fits (Const IsOpen) (contain lock a c s)
  unfolding contain request read put_world log
  contain-IsOpen c s h = publish-IsOpen emergency "watchdog.emergency_latched" true _ refl h

  notify-Fits :
      (ready : Bool) (s : State) → Fits s → After Fits (Const Fits) (notify lock a ready s)
  unfolding notify read log
  notify-Fits ready s h = either-After Fits (Const Fits) (a.notifies (length s.events)) _ _ h h

  when-notify-IsOpen :
      (b ready : Bool) (s : State)
      → IsOpen s
      → After Fits (Const IsOpen) (when lock a b (notify lock a ready) s)
  unfolding notify read log pure
  when-notify-IsOpen true ready s h =
      either-After Fits (Const IsOpen) (a.notifies (length s.events)) _ _ (inl h.0, h.1) h
  when-notify-IsOpen false ready s h = h

  checked_by-Judges :
      (baseline : Readings) (c : Check) (s : State)
      → IsOpen s
      → After Fits JudgesIfAny (checked_by lock a baseline c s)
  unfolding raise pure put_baseline log
  checked_by-Judges baseline raised s h = (inl h.0, h.1)
  checked_by-Judges baseline deadline s h = h
  checked_by-Judges baseline (saw system) s h =
      (h, is_sound_checked (name_of (check_system_integrity system baseline).0) s.events)

  bounded_check-Judges : (s : State) → IsOpen s → After Fits JudgesIfAny (bounded_check lock a s)
  unfolding bounded_check read
  bounded_check-Judges s h = checked_by-Judges s.baseline (a.check (length s.events)) s h

  or_watchdog-Judges :
      (r : Option (Option String)) (s : State) → JudgesIfAny r s → Judges (or_watchdog lock a r) s
  or_watchdog-Judges none s h = (h, λ e. absurd (ground (arith, e)))
  or_watchdog-Judges (some failed) s h = h

  check_again-Judges : (s : State) → IsOpen s → After Fits Judges (check_again lock a s)
  unfolding check_again read pure
  check_again-Judges s h =
      bind-After Fits (Const IsOpen) Judges (when lock a s.ready (notify lock a false)) _ s
        (when-notify-IsOpen s.ready false s h)
        (λ _ t k.
          bind-After Fits JudgesIfAny Judges (bounded_check lock a) _ t (bounded_check-Judges t k)
            or_watchdog-Judges)

  after_healing-Judges :
      (r : Option Bool) (s : State) → IsOpen s → After Fits Judges (after_healing lock a r s)
  unfolding pure
  after_healing-Judges none s h = (h, λ e. absurd (ground (arith, e)))
  after_healing-Judges (some true) s h = check_again-Judges s h
  after_healing-Judges (some false) s h = (h, λ e. absurd (ground (arith, e)))

  heal_tor-Judges : (s : State) → IsSupported s.events → After Fits Judges (heal_tor lock a s)
  unfolding heal_tor read
  heal_tor-Judges s h =
      bind-After Fits (Const IsOpen) Judges (publish lock a unknown "watchdog.tor_healing" false) _
        s (publish-IsOpen unknown _ false s refl h)
        (λ _ t k.
          bind-After Fits (Const IsOpen) Judges (when lock a t.ready (notify lock a false)) _ t
            (when-notify-IsOpen t.ready false t k)
            (λ _. after_healing-Judges (healed lock a a.heal)))

  after_heal-Judges :
      (failed : Option String) (s : State)
      → Judges failed s
      → After Fits Judges (after_heal lock a failed s)
  unfolding pure
  after_heal-Judges failed s h = elim (Bool-cases (is_tor failed)) [
    | inl e ↦ rw e (heal_tor-Judges s h.0.1)
    | inr e ↦ rw e h
  ]

  contain-Fits :
      (c : Diagnostic) (s : State)
      → IsSupported s.events
      → After Fits (Const Fits) (contain lock a c s)
  contain-Fits c s h =
      After-weaken Fits (Const IsOpen) (Const Fits) (contain lock a c s) (contain-IsOpen c s h)
        (λ _. IsOpen→Fits)

  announce-Fits :
      (recovering : Bool) (s : State)
      → Fits s
      → After Fits (Const Fits) (announce lock a recovering s)
  unfolding pure log
  announce-Fits true s h = either-After Fits (Const Fits) a.emits (log announced) s h h
  announce-Fits false s h = h

  conclude-Fits :
      (recovering : Bool) (failed : Option String) (s : State)
      → Judges failed s
      → After Fits (Const Fits) (conclude lock a recovering failed s)
  unfolding conclude
  conclude-Fits recovering (some failed) s h = contain-Fits _ s h.0.1
  conclude-Fits recovering none s h =
      bind-After Fits (Const Fits) (Const Fits)
        (publish lock a healthy "watchdog.local_integrity_verified" true) _ s
        (publish-Fits healthy _ true s (h.1 refl) h.0.1) (λ _. announce-Fits recovering)

  act_on-Fits :
      (r : Option (Option String)) (s : State)
      → JudgesIfAny r s
      → After Fits (Const Fits) (act_on lock a r s)
  act_on-Fits none s h = contain-Fits _ s h.1
  act_on-Fits (some failed) s h =
      bind-After Fits Judges (Const Fits) (after_heal lock a failed) _ s
        (after_heal-Judges failed s h) (conclude-Fits (is_tor failed))

  evaluate-Fits : (s : State) → IsSupported s.events → After Fits (Const Fits) (evaluate lock a s)
  unfolding evaluate set_due
  evaluate-Fits s h =
      bind-After Fits (Const IsOpen) (Const Fits)
        (publish lock a unknown "watchdog.evaluation_pending" false) _ s
        (publish-IsOpen unknown _ false s refl h)
        (λ _ t k.
          bind-After Fits JudgesIfAny (Const Fits) (bounded_check lock a) _ t
            (bounded_check-Judges t k)
            (λ r u l.
              bind-After Fits (Const Fits) (Const Fits) (act_on lock a r) _ u (act_on-Fits r u l)
                (λ _ _ m. m)))

  follow-Fits : (f : LockFile) (s : State) → Fits s → After Fits (Const Fits) (follow lock a f s)
  unfolding pure leave raise
  follow-Fits no_lock s h = h
  follow-Fits broken_lock s h = h
  follow-Fits (locked l) s h = elim (Bool-cases (is_over lock a (locked l))) [
    | inl e ↦ rw e h
    | inr e ↦ rw e h
  ]

  latched_or_contained-Fits :
      (r : Option Bool) (s : State)
      → Fits s
      → After Fits (Const Fits) (latched_or_contained lock a r s)
  unfolding pure
  latched_or_contained-Fits (some b) s h = h
  latched_or_contained-Fits none s h =
      bind-After Fits (Const Fits) (Const Fits) (contain lock a _) _ s (contain-Fits _ s h.1)
        (λ _ _ k. k)

  guard_session-Fits :
      (latched : Bool) (s : State)
      → Fits s
      → After Fits (Const Fits) (guard_session lock a latched s)
  unfolding guard_session read pure
  guard_session-Fits true s h = contain-Fits _ s h.1
  guard_session-Fits false s h = elim (Bool-cases (s.due || a.elapsed)) [
    | inl e ↦ rw e (evaluate-Fits s h.1)
    | inr e ↦ rw e h
  ]

  handle-Fits : (w : Waited) (s : State) → Fits s → After Fits (Const Fits) (handle lock a w s)
  unfolding pure raise set_due
  handle-Fits quiet s h = h
  handle-Fits interrupted s h = h
  handle-Fits broken s h = h
  handle-Fits (events inotify readded) s h =
      bind-After Fits (Const IsOpen) (Const Fits)
        (publish lock a unknown "watchdog.event_invalidated" false) _ s
        (publish-IsOpen unknown _ false s refl h.1)
        (λ _ t k.
          bind-After Fits (Const Fits) (Const Fits)
            (keep_watch lock a (is_lost_now lock a inotify && not readded)) (λ _. set_due true) t
            (either-After Fits (Const Fits) (not (is_lost_now lock a inotify && not readded))
              (pure tt) t (inl k.0, k.1) (inl k.0, k.1))
            (λ _ _ m. m))

  pub round-Fits : (s : State) → Fits s → After Fits (Const Fits) (round lock a s)
  unfolding round read_intent read_latch read set_ready wait
  round-Fits s h =
      bind-After Fits (Const Fits) (Const Fits) (read_intent lock a) _ s
        (follow-Fits s.world.lock_file s h)
        (λ _ t k.
          bind-After Fits (Const Fits) (Const Fits) (read_latch lock a) _ t
            (latched_or_contained-Fits (emergency_latched lock t.world) t k)
            (λ latched u l.
              bind-After Fits (Const Fits) (Const Fits) (guard_session lock a latched) _ u
                (guard_session-Fits latched u l)
                (λ _ v m.
                  bind-After Fits (Const Fits) (Const Fits) (write_record lock a) _ v
                    (write_record-Fits v m)
                    (λ _ x n.
                      bind-After Fits (Const Fits) (Const Fits) (notify lock a (not x.ready)) _ x
                        (notify-Fits (not x.ready) x n) (λ _ y o. handle-Fits a.waited _ o)))))

  initialize-Fits :
      (subscribed : Bool) (s : State)
      → IsSupported s.events
      → After Fits (Const Fits) (initialize lock a subscribed s)
  unfolding initialize pure
  initialize-Fits subscribed s h =
      bind-After Fits (Const IsOpen) (Const Fits)
        (publish lock a unknown "watchdog.initializing" false) _ s
        (publish-IsOpen unknown _ false s refl h)
        (λ _ t k.
          either-After Fits (Const Fits) subscribed (pure tt) t (inl k.0, k.1) (inl k.0, k.1))

  give_up-IsSupported : (s : State) → IsSupported s.events → IsSupported (give_up lock a s).0.events
  unfolding give_up request read put_world log
  give_up-IsSupported s h = h

Step-Fits : (lock : Lock) (s t : State) → Step lock s t → Fits s → Fits t
Step-Fits lock _ t (begins a subscribed s) h =
    After-end Fits (initialize lock a subscribed (fresh s))
      (initialize-Fits lock a subscribed (fresh s) h.1)
Step-Fits lock _ t (goes_on a s) h = After-end Fits (round lock a s) (round-Fits lock a s h)
Step-Fits lock _ t (gives_up a b subscribed s) h =
    After-end Fits (initialize lock b subscribed (fresh (give_up lock a s).0)) (
      initialize-Fits lock b subscribed (fresh (give_up lock a s).0)
        (give_up-IsSupported lock a s h.1))
Step-Fits lock _ t (stops other s w e) h = h
Step-Fits lock _ t (deletes s) h = h
Step-Fits lock _ t (requests o a other c s) h = h

Reaches-Fits : (lock : Lock) (s t : State) → Reaches lock s t → Fits s → Fits t
Reaches-Fits lock _ t (here s) h = h
Reaches-Fits lock _ _ (step s u t r l) h = Step-Fits lock u t l (Reaches-Fits lock s u r h)

-- Whatever the outside answers and however the rounds, new processes, stops and requests for
-- containment are interleaved, from a state in which nothing was published yet: each publication of
-- the session as healthy follows a check that found no component failed, with no failed check and no
-- request for containment by the supervisor between the two.
pub Reaches-IsSupported :
    (lock : Lock) (s t : State)
    → s.observation.value ≡ unknown
    → s.events ≡ []
    → Reaches lock s t
    → IsSupported t.events
Reaches-IsSupported lock s t o e r = (Reaches-Fits lock s t r (rw (o, e) (inl refl, tt))).1
