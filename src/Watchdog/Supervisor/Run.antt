-- ===== src/Watchdog/Supervisor/Run.antt =====
-- ttp/watchdog/supervisor.py: the beginning of `run_supervisor`, what it does when a round raises, and
-- the states that a session reaches while others mark it as stopping, delete its lock or request
-- containment between the rounds.
use transparent_tor_proxy.Base.{◌≡◌, Bool, true, false, some, [], if◌then◌else◌}
use transparent_tor_proxy.Evidence.{Diagnostic}
use transparent_tor_proxy.Session.World.{Lock, World, mark_stopping, delete_lock}
use transparent_tor_proxy.Session.Request.{Options, Answers, request_emergency}
use transparent_tor_proxy.Watchdog.Supervisor.{
  unknown, State, Round, M, ◌>>◌, pure, raise, publish, request, cause, round,
}

-- A new process: only the files and what was done stay.
abbrev pub fresh : State → State
fresh s = record {
  world = s.world;
  baseline = [];
  observation = record { value = unknown; reason = ""; completed = false };
  ready = false;
  due = true;
  events = s.events;
}

-- Until the loop: `subscribed` is whether all of the subscriptions stand.
unfoldable pub initialize : Lock → Round → Bool → M (Unit {0})
initialize lock a subscribed = do
  publish lock a unknown "watchdog.initializing" false
  if subscribed then pure tt else raise

-- The last words of a process that raised.
unfoldable pub give_up : Lock → Round → M (Unit {0})
give_up lock a = request lock a (cause "watchdog" "watchdog.failed")

-- A process begins, goes through a round, or gives up for the next one; between, others act.
pub data Step (lock : Lock) : State → State → Type 0 where
  begins :
      (a : Round) (subscribed : Bool) (s : State)
      → Step lock s (initialize lock a subscribed (fresh s)).0
  goes_on : (a : Round) (s : State) → Step lock s (round lock a s).0
  gives_up :
      (a b : Round) (subscribed : Bool) (s : State)
      → Step lock s (initialize lock b subscribed (fresh (give_up lock a s).0)).0
  stops :
      (other : Lock) (s : State) (w : World)
      → mark_stopping other s.world ≡ some w
      → Step lock s (record s { world = w })
  deletes : (s : State) → Step lock s (record s { world = delete_lock s.world })
  requests :
      (o : Options) (a : Answers) (other : Lock) (c : Diagnostic) (s : State)
      → Step lock s (record s { world = (request_emergency o a other c s.world).world })

pub data Reaches (lock : Lock) : State → State → Type 0 where
  here : (s : State) → Reaches lock s s
  step : (s t u : State) → Reaches lock s t → Step lock t u → Reaches lock s u
