-- ===== src/Watchdog/Supervisor/Latched.antt =====
-- ttp/watchdog/supervisor.py: what is published of a session whose emergency is latched.
use transparent_tor_proxy.Base.{
  ◌≡◌, refl, Bool, true, false, not, ◌&&◌, String, some, List, [], ◌∷◌, length, inl, inr,
  Bool-cases,
}
use transparent_tor_proxy.Evidence.{Diagnostic}
use transparent_tor_proxy.Session.World.{
  Lock, LockFile, no_lock, broken_lock, locked, identity, delete_lock,
}
use transparent_tor_proxy.Session.Request.Latch.{
  IsLatched, request_emergency-IsLatched, emergency_latched-IsLatched, mark_stopping-IsLatched,
}
use transparent_tor_proxy.Watchdog.Supervisor.{
  Value, unknown, emergency, Event, published, State, Round, Waited, quiet, interrupted, broken,
  events, pure, raise, leave, log, read, observe, put_world, set_due, set_ready, write_record,
  publish, request, contain, notify, follow, is_over, handle, is_lost_now, keep_watch, read_intent,
  read_latch, guard_session, wait, round,
}
use transparent_tor_proxy.Watchdog.Supervisor.Invariant.{
  After, Const, bind-After, either-After, After-end,
}
use transparent_tor_proxy.Watchdog.Supervisor.Checked.{is_healthy}
use transparent_tor_proxy.Watchdog.Supervisor.Run.{
  fresh, initialize, give_up, Step, begins, goes_on, gives_up, stops, deletes, requests, Reaches,
  here, step,
}

-- No event publishes the session as healthy.
abbrev pub IsUnclaimed : List Event → Type 0
IsUnclaimed [] = Unit
IsUnclaimed (published o ∷ es) = (is_healthy o.value ≡ false) × IsUnclaimed es
IsUnclaimed (_ ∷ es) = IsUnclaimed es

abbrev IsHeld : State → Type 0
IsHeld s = IsLatched s.world × IsUnclaimed s.events

abbrev IsOpen : State → Type 0
IsOpen s = (is_healthy s.observation.value ≡ false) × IsHeld s

IsOpen→IsHeld : {A : Type 0} (a : A) (s : State) → IsOpen s → IsHeld s
IsOpen→IsHeld a s h = h.1

module _ (lock : Lock) (a : Round) where
  write_record-IsOpen : (s : State) → IsOpen s → After IsHeld (Const IsOpen) (write_record lock a s)
  unfolding write_record read log pure
  write_record-IsOpen s (e, (l, u)) =
      either-After IsHeld (Const IsOpen) (a.written (length s.events)) _ _ (l, (e, u))
        (e, (l, (e, u)))

  publish-IsOpen :
      (v : Value) (reason : String) (completed : Bool) (s : State)
      → is_healthy v ≡ false
      → IsHeld s
      → After IsHeld (Const IsOpen) (publish lock a v reason completed s)
  unfolding publish observe
  publish-IsOpen v reason completed s e h = write_record-IsOpen _ (e, h)

  request-IsHeld : (c : Diagnostic) (s : State) → IsHeld s → IsHeld (request lock a c s).0
  unfolding request read put_world log
  request-IsHeld c s h =
      (request_emergency-IsLatched _ (a.request (length s.events)) lock c s.world h.0, h.1)

  contain-IsOpen :
      (c : Diagnostic) (s : State) → IsHeld s → After IsHeld (Const IsOpen) (contain lock a c s)
  unfolding contain request read put_world log
  contain-IsOpen c s h =
      publish-IsOpen emergency "watchdog.emergency_latched" true _ refl
        (request_emergency-IsLatched _ (a.request (length s.events)) lock c s.world h.0, h.1)

  notify-IsOpen :
      (ready : Bool) (s : State) → IsOpen s → After IsHeld (Const IsOpen) (notify lock a ready s)
  unfolding notify read log
  notify-IsOpen ready s h =
      either-After IsHeld (Const IsOpen) (a.notifies (length s.events)) _ _ h.1 h

  follow-IsHeld :
      (f : LockFile) (s : State) → IsHeld s → After IsHeld (Const IsHeld) (follow lock a f s)
  unfolding pure leave raise
  follow-IsHeld no_lock s h = h
  follow-IsHeld broken_lock s h = h
  follow-IsHeld (locked l) s h = elim (Bool-cases (is_over lock a (locked l))) [
    | inl e ↦ rw e h
    | inr e ↦ rw e h
  ]

  handle-IsHeld :
      (w : Waited) (s : State) → IsHeld s → After IsHeld (Const IsHeld) (handle lock a w s)
  unfolding pure raise set_due
  handle-IsHeld quiet s h = h
  handle-IsHeld interrupted s h = h
  handle-IsHeld broken s h = h
  handle-IsHeld (events inotify readded) s h =
      bind-After IsHeld (Const IsOpen) (Const IsHeld)
        (publish lock a unknown "watchdog.event_invalidated" false) _ s
        (publish-IsOpen unknown _ false s refl h)
        (λ _ t k.
          bind-After IsHeld (Const IsHeld) (Const IsHeld)
            (keep_watch lock a (is_lost_now lock a inotify && not readded)) (λ _. set_due true) t
            (either-After IsHeld (Const IsHeld) (not (is_lost_now lock a inotify && not readded))
              (pure tt) t k.1 k.1)
            (λ _ _ m. m))

  -- The latch is read as set, whatever has happened before.
  abbrev Latches : Bool → State → Type 0
  Latches b s = (b ≡ true) × IsHeld s

  read_latch-Latches :
      (session : String) (s : State)
      → identity lock.session_id ≡ some session
      → IsHeld s
      → After IsHeld Latches (read_latch lock a s)
  unfolding read_latch read pure
  read_latch-Latches session s named h =
      rw (emergency_latched-IsLatched lock session s.world named h.0) (refl, h)

  guard_session-IsOpen :
      (latched : Bool) (s : State)
      → Latches latched s
      → After IsHeld (Const IsOpen) (guard_session lock a latched s)
  unfolding guard_session
  guard_session-IsOpen latched s (e, h) = rw e (contain-IsOpen _ s h)

  round-IsHeld :
      (session : String) (s : State)
      → identity lock.session_id ≡ some session
      → IsHeld s
      → After IsHeld (Const IsHeld) (round lock a s)
  unfolding round read_intent read set_ready wait
  round-IsHeld session s named h =
      bind-After IsHeld (Const IsHeld) (Const IsHeld) (read_intent lock a) _ s
        (follow-IsHeld s.world.lock_file s h)
        (λ _ t k.
          bind-After IsHeld Latches (Const IsHeld) (read_latch lock a) _ t
            (read_latch-Latches session t named k)
            (λ latched u l.
              bind-After IsHeld (Const IsOpen) (Const IsHeld) (guard_session lock a latched) _ u
                (guard_session-IsOpen latched u l)
                (λ _ v m.
                  bind-After IsHeld (Const IsOpen) (Const IsHeld) (write_record lock a) _ v
                    (write_record-IsOpen v m)
                    (λ _ x n.
                      bind-After IsHeld (Const IsOpen) (Const IsHeld) (notify lock a (not x.ready))
                        _ x (notify-IsOpen (not x.ready) x n)
                        (λ _ y o. handle-IsHeld a.waited _ o.1)))))

  initialize-IsHeld :
      (subscribed : Bool) (s : State)
      → IsHeld s
      → After IsHeld (Const IsHeld) (initialize lock a subscribed s)
  unfolding initialize pure
  initialize-IsHeld subscribed s h =
      bind-After IsHeld (Const IsOpen) (Const IsHeld)
        (publish lock a unknown "watchdog.initializing" false) _ s
        (publish-IsOpen unknown _ false s refl h)
        (λ _ t k. either-After IsHeld (Const IsHeld) subscribed (pure tt) t k.1 k.1)

  give_up-IsHeld : (s : State) → IsHeld s → IsHeld (give_up lock a s).0
  unfolding give_up
  give_up-IsHeld s h = request-IsHeld _ s h

module _ (lock : Lock) (session : String) (named : identity lock.session_id ≡ some session) where
  Step-IsHeld : (s t : State) → Step lock s t → IsHeld s → IsHeld t
  unfolding delete_lock
  Step-IsHeld _ t (begins a subscribed s) h =
      After-end IsHeld (initialize lock a subscribed (fresh s))
        (initialize-IsHeld lock a subscribed (fresh s) h)
  Step-IsHeld _ t (goes_on a s) h =
      After-end IsHeld (round lock a s) (round-IsHeld lock a session s named h)
  Step-IsHeld _ t (gives_up a b subscribed s) h =
      After-end IsHeld (initialize lock b subscribed (fresh (give_up lock a s).0)) (
        initialize-IsHeld lock b subscribed (fresh (give_up lock a s).0)
          (give_up-IsHeld lock a s h))
  Step-IsHeld _ t (stops other s w e) h = (mark_stopping-IsLatched other s.world w e h.0, h.1)
  Step-IsHeld _ t (deletes s) h = h
  Step-IsHeld _ t (requests o a other c s) h =
      (request_emergency-IsLatched o a other c s.world h.0, h.1)

  Reaches-IsHeld : (s t : State) → Reaches lock s t → IsHeld s → IsHeld t
  Reaches-IsHeld _ t (here s) h = h
  Reaches-IsHeld _ _ (step s u t r l) h = Step-IsHeld u t l (Reaches-IsHeld s u r h)

-- An emergency is final for its session. From a state in which the session's record requests
-- containment and nothing was published yet, for a lock that names a session, in each state that is
-- reached by any interleaving of rounds, new processes, stops, a deletion of the lock and requests for
-- containment: the record still requests containment, and the session was never published as healthy.
pub Reaches-IsLatched :
    (lock : Lock) (session : String) (s t : State)
    → identity lock.session_id ≡ some session
    → IsLatched s.world
    → s.events ≡ []
    → Reaches lock s t
    → IsLatched t.world × IsUnclaimed t.events
Reaches-IsLatched lock session s t named h e r =
    Reaches-IsHeld lock session named s t r (h, rw e tt)
