-- ===== src/Session/Samples.antt =====
-- A session, its files and what the outside answers, for the tests.
use transparent_tor_proxy.Base.{true, false, some, []}
use transparent_tor_proxy.Evidence.{watchdog_unavailable, Diagnostic}
use transparent_tor_proxy.Firewall.Inspect.{KernelCheck}
use transparent_tor_proxy.Session.World.{no_settings, Lock, locked, no_marker, World, no_record}
use transparent_tor_proxy.Session.Request.{Options, Answers}

abbrev pub lost : Diagnostic
lost = record {
  code = watchdog_unavailable;
  reason = "watchdog.lost";
  component = "watchdog";
  operation = "supervise";
  message = "";
  active = true;
}

abbrev pub running : Lock
running = record {
  session_id = some "s";
  phase = "active";
  watchdog_requested = true;
  settings = no_settings;
}

abbrev pub active_world : World
active_world = record { lock_file = locked running; marker = no_marker; emergency = no_record }

abbrev pub good_check : KernelCheck
good_check = record { verified = true; reason = "firewall.emergency_verified"; message = "" }

abbrev pub answers : Answers
answers = record {
  serialized = true;
  latch_written = true;
  evidence_written = true;
  applied = true;
  first_check = good_check;
  second_check = good_check;
  emitted = λ e. some [];
}

abbrev pub no_repair : Options
no_repair = record { repair = false; require_despite_missing_lock = false }
