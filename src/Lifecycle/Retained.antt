-- ===== src/Lifecycle/Retained.antt =====
-- ttp/commands/lifecycle.py and stop_restart.py: a signal and a restart, for a session that holds an
-- emergency.
use transparent_tor_proxy.Base.{
  ℕ, ◌≡◌, ◌≢◌, refl, ap, ◌∙◌, inl, inr, Bool, true, false, String, Option, none, some, List, [],
  ◌∷◌, arith,
}
use transparent_tor_proxy.Session.World.{
  Lock, LockFile, locked, World, Emergency, recorded, identity, latched_record, emergency_latched,
  mark_stopping, delete_lock,
}
use transparent_tor_proxy.Session.Request.Files.{request_emergency-IsLatching}
use transparent_tor_proxy.Session.Machine.{
  Operation, requests, stops, deletes, or_same, emergency-mark_stopping, perform, perform_all,
}
use transparent_tor_proxy.Lifecycle.{
  Machine, Ended, exits, M, Keys, Outside, retained, held_by, or_latched, on_signal, signal_handler,
  continue_with,
}
use transparent_tor_proxy.Lifecycle.Commands.{
  refuse_latched, refuse_named, may_restart, before_restart,
}

or_latched-true :
    (keys : Keys) (a : Outside) (b : Option Bool) → b ≢ some false → or_latched keys a b ≡ true
or_latched-true keys a none h = refl
or_latched-true keys a (some true) h = refl
or_latched-true keys a (some false) h = absurd (h refl)

continue_lem :
    {A B : Type 0}
    → (p : Machine × Ended A) (f : A → M B) {s : Machine} {n : ℕ} → p ≡ (s, exits n)
    → continue_with p f ≡ (s, exits n)
continue_lem p f e = rw e refl

-- The exit code of a restart that is refused: by the settings or the unreadable record, or by the latch.
abbrev pub refusal : Bool → Option Bool → ℕ
refusal true (some true) = 7
refusal _ _ = 1

refuse_latched_lem :
    (keys : Keys) (a : Outside) (b : Option Bool) (s : Machine)
    → b ≢ some false
    → refuse_latched keys a b s ≡ (s, exits (refusal true b))
refuse_latched_lem keys a none s h = refl
refuse_latched_lem keys a (some true) s h = refl
refuse_latched_lem keys a (some false) s h = absurd (h refl)

module _ (keys : Keys) (a : Outside) (lock : Lock) (session : String)
    (named : identity lock.session_id ≡ some session) where
  retained-true :
      (file : LockFile) (w : World)
      → file ≡ locked lock
      → emergency_latched lock w ≢ some false
      → retained keys a file w ≡ true
  retained-true file w is h =
      ap (λ f. retained keys a f w) is
      ∙ ap (λ i. held_by keys a i (emergency_latched lock w)) named
      ∙ or_latched-true keys a _ h

  before_restart-refused :
      (configured : Bool) (s : Machine) (file : LockFile)
      → s.world.lock_file ≡ file
      → file ≡ locked lock
      → emergency_latched lock s.world ≢ some false
      → before_restart keys a configured s
        ≡ (s, exits (refusal configured (emergency_latched lock s.world)))
  unfolding before_restart
  before_restart-refused false s file at is h = refl
  before_restart-refused true s file at is h = continue_lem _ _ (
      ap (λ f. may_restart keys a f s.world s) (at ∙ is)
      ∙ ap (λ i. refuse_named keys a i (emergency_latched lock s.world) s) named
      ∙ refuse_latched_lem keys a (emergency_latched lock s.world) s h)

-- The record holds an emergency or cannot be read.
abbrev IsHeld : World → Type 0
IsHeld w = latched_record w.emergency ≢ some false

latched_eq :
    (lock : Lock) (session : String) (w : World)
    → identity lock.session_id ≡ some session
    → emergency_latched lock w ≡ latched_record w.emergency
unfolding emergency_latched
latched_eq lock session w named = ground (arith, named)

requested-IsHeld :
    (e : Emergency) (w w' : World)
    → w' ≡ record w { emergency = recorded e }
    → e.requested ≡ true
    → IsHeld w'
requested-IsHeld e w w' changed requested h =
    absurd (ground (arith, ap (λ (x : World). latched_record x.emergency) changed, requested, h))

module _ (lock : Lock) (session : String) (named : identity lock.session_id ≡ some session) where
  stop-IsHeld :
      (w : World) (o : Option World) → mark_stopping lock w ≡ o → IsHeld w → IsHeld (or_same w o)
  stop-IsHeld w none e h = h
  stop-IsHeld w (some w') e h = rw (emergency-mark_stopping lock w w' e) h

  perform-IsHeld : (op : Operation) (w : World) → IsHeld w → IsHeld (perform lock op w)
  unfolding perform delete_lock
  perform-IsHeld (requests o b cause) w h =
      elim (request_emergency-IsLatching o b lock cause session w named) [
        | inl same ↦ rw same h
        | inr (free, (e, changed, requested)) ↦ requested-IsHeld e w _ changed requested
      ]
  perform-IsHeld stops w h = stop-IsHeld w (mark_stopping lock w) refl h
  perform-IsHeld deletes w h = h

  perform_all-IsHeld :
      (ops : List Operation) (w : World) → IsHeld w → IsHeld (perform_all lock ops w)
  unfolding perform_all
  perform_all-IsHeld [] w h = h
  perform_all-IsHeld (op ∷ ops) w h =
      perform_all-IsHeld ops (perform lock op w) (perform-IsHeld op w h)

-- Once the record of a session has held an emergency, or could not be read, and after any requests for
-- containment, stops and deletions of the lock of that session: while the lock file names the session, a
-- signal leaves with exit code 8, and a restart with 7 if the settings load and the record is found to
-- hold an emergency, with 1 if the settings do not load or the record cannot be read. Both leave the
-- files, the table and the services as they are.
pub latched-kept :
    (keys : Keys) (a : Outside) (lock now : Lock) (session : String) (ops : List Operation)
    (w : World) (configured : Bool) (s : Machine)
    → identity lock.session_id ≡ some session
    → identity now.session_id ≡ some session
    → emergency_latched lock w ≢ some false
    → s.world ≡ perform_all lock ops w
    → s.world.lock_file ≡ locked now
    → (signal_handler keys a s ≡ (s, exits 8))
      × (before_restart keys a configured s
          ≡ (s, exits (refusal configured (emergency_latched now s.world))))
unfolding signal_handler
latched-kept keys a lock now session ops w configured s named named' h after is =
    let held : IsHeld (perform_all lock ops w) =
      perform_all-IsHeld lock session named ops w (rw (latched_eq lock session w named) at h) in
    let held' : IsHeld s.world = rw after held in
    let found : emergency_latched now s.world ≢ some false =
      rw (latched_eq now session s.world named') held' in
    (
      ap (λ b. on_signal keys a b s)
          (retained-true keys a now session named' s.world.lock_file s.world is found),
      before_restart-refused keys a now session named' configured s _ refl is found,
    )
