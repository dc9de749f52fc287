-- ===== src/Session/Machine.antt =====
-- ttp/session_safety.py as an abstract machine: a session may be latched and may be closed, and the
-- operations on its files are steps of that machine.
use transparent_tor_proxy.Base.{
  ◌≡◌, refl, ap, ◌∙◌, inl, inr, Bool, true, false, String, Option, none, some, List, [], ◌∷◌, arith,
  Option-cases,
}
use transparent_tor_proxy.Evidence.{Diagnostic}
use transparent_tor_proxy.Session.World.{
  Lock, Record, recorded, stopping, World, identity, stop_was_requested, mark_stopping, delete_lock,
  same_lock,
}
use transparent_tor_proxy.Session.Request.{Options, Answers, request_emergency}
use transparent_tor_proxy.Session.Request.Files.{IsLatching, request_emergency-IsLatching}
use transparent_tor_proxy.Session.Request.Quiet.{stopping_lem}
use transparent_tor_proxy.Session.Stop.{marker-mark_stopping, identity-eq}

-- What a session promises: whether its emergency is latched, and whether an explicit stop (or an
-- unreadable mark of one) closes it for requests.
pub record Promise : Type 0 where
  pub latched : Bool
  pub closed : Bool

-- The steps that are promised: an emergency is latched only while the session is open, a stop closes
-- it, and nothing takes back either.
pub data Allowed : Promise → Promise → Type 0 where
  nothing : (p : Promise) → Allowed p p
  latches : (p : Promise) → p.closed ≡ false → Allowed p (record p { latched = true })
  closes : (p : Promise) → Allowed p (record p { closed = true })

pub data Run : Promise → Promise → Type 0 where
  ends : (p : Promise) → Run p p
  then_step : (p q r : Promise) → Allowed p q → Run q r → Run p r

-- What of the files stands for it.
abbrev pub is_latched : Record → Bool
is_latched (recorded e) = e.requested
is_latched _ = false

abbrev pub is_closed : Option Bool → Bool
is_closed (some false) = false
is_closed _ = true

abbrev pub promise_of : String → World → Promise
promise_of session w = record {
  latched = is_latched w.emergency;
  closed = is_closed (stop_was_requested session w.marker);
}

-- The operations of a session, from any component and in any order.
pub data Operation : Type 0 where
  requests : Options → Answers → Diagnostic → Operation
  stops deletes : Operation

abbrev pub or_same : World → Option World → World
or_same w none = w
or_same w (some w') = w'

module _ (lock : Lock) where
  unfoldable pub perform : Operation → World → World
  perform (requests o a cause) w = (request_emergency o a lock cause w).world
  perform stops w = or_same w (mark_stopping lock w)
  perform deletes w = delete_lock w

  unfoldable pub perform_all : List Operation → World → World
  unfolding perform
  perform_all [] w = w
  perform_all (op ∷ ops) w = perform_all ops (perform op w)

-- A run of the abstract machine takes back neither a latch nor a stop, and latches nothing that is
-- closed when it begins.
abbrev pub IsKept : Promise → Promise → Type 0
IsKept p q =
    (p.latched ≡ true → q.latched ≡ true)
    × (p.closed ≡ true → (q.closed ≡ true) × (q.latched ≡ p.latched))

Run-IsKept : (p q : Promise) → Run p q → IsKept p q
Run-IsKept _ _ (ends p) = (λ h. h, λ h. (h, refl))
Run-IsKept _ _ (then_step _ _ q (nothing p) rest) = Run-IsKept p q rest
Run-IsKept _ _ (then_step _ _ q (latches p free) rest) = (
  λ h. (Run-IsKept (record p { latched = true }) q rest).0 refl,
  λ h. absurd (ground (arith, free, h)),
)
Run-IsKept _ _ (then_step _ _ q (closes p) rest) = (
  (Run-IsKept (record p { closed = true }) q rest).0,
  λ h. let k = (Run-IsKept (record p { closed = true }) q rest).1 refl in (k.0, k.1),
)

pub emergency-mark_stopping :
    (lock : Lock) (w w' : World) → mark_stopping lock w ≡ some w' → w'.emergency ≡ w.emergency
unfolding mark_stopping
emergency-mark_stopping lock w w' h = elim (Option-cases (same_lock lock w.lock_file)) [
  | inl g ↦ absurd (ground (arith, h, g))
  | inr (l, g) ↦ ground (arith, h, g)
]

Allowed-eq : (p q r : Promise) → q ≡ r → Allowed p r → Allowed p q
Allowed-eq p q r e h = rw e h

module _ (lock : Lock) (session : String) (named : identity lock.session_id ≡ some session) where
  latching-Allowed :
      (w w' : World)
      → IsLatching session w w'
      → Allowed (promise_of session w) (promise_of session w')
  latching-Allowed w w' (inl same) = rw same (nothing (promise_of session w))
  latching-Allowed w w' (inr (free, (e, changed, requested))) =
      Allowed-eq _ _ _
        (ap (promise_of session) changed
          ∙ ap (λ b. record (promise_of session w) { latched = b }) requested)
        (latches (promise_of session w) (ap is_closed free))

  stop-Allowed :
      (w : World) (o : Option World)
      → mark_stopping lock w ≡ o
      → Allowed (promise_of session w) (promise_of session (or_same w o))
  stop-Allowed w none h = nothing (promise_of session w)
  stop-Allowed w (some w') h =
      let marked : w'.marker ≡ stopping session =
        marker-mark_stopping lock session w w' (identity-eq lock.session_id session named) h in
      Allowed-eq _ _ (record (promise_of session w) { closed = true })
        (λ i. record {
          latched = is_latched (emergency-mark_stopping lock w w' h i);
          closed = is_closed ((ap (stop_was_requested session) marked ∙ stopping_lem session) i);
        })
        (closes (promise_of session w))

  perform-Allowed :
      (op : Operation) (w : World)
      → Allowed (promise_of session w) (promise_of session (perform lock op w))
  unfolding perform delete_lock
  perform-Allowed (requests o a cause) w =
      latching-Allowed w (request_emergency o a lock cause w).world
        (request_emergency-IsLatching o a lock cause session w named)
  perform-Allowed stops w = stop-Allowed w (mark_stopping lock w) refl
  perform-Allowed deletes w = nothing (promise_of session w)

  simulate :
      (ops : List Operation) (w : World)
      → Run (promise_of session w) (promise_of session (perform_all lock ops w))
  unfolding perform_all
  simulate [] w = ends (promise_of session w)
  simulate (op ∷ ops) w =
      then_step (promise_of session w) (promise_of session (perform lock op w)) _
        (perform-Allowed op w) (simulate ops (perform lock op w))

  -- Any sequence of requests for containment, of stops and of deletions of the lock of one session is a
  -- run of the abstract machine on what its files stand for: step by step nothing changes, an emergency
  -- is latched while no stop is requested, or the session is closed by a stop. So a latch stays, and a
  -- session that is closed stays closed, with its latch as it was.
  pub perform_all-Run :
      (ops : List Operation) (w : World)
      → Run (promise_of session w) (promise_of session (perform_all lock ops w))
        × IsKept (promise_of session w) (promise_of session (perform_all lock ops w))
  perform_all-Run ops w = (simulate ops w, Run-IsKept _ _ (simulate ops w))
