-- ===== src/Session/Stop.antt =====
-- An explicit stop is final: no later call re-arms the emergency rules of the stopped session.
use transparent_tor_proxy.Base.{◌≡◌, String, Option, none, some, arith}
use transparent_tor_proxy.Evidence.{Diagnostic}
use transparent_tor_proxy.Session.World.{Lock, LockFile, stopping, World, identity, mark_stopping}
use transparent_tor_proxy.Session.Request.{Options, Answers, request_emergency}
use transparent_tor_proxy.Session.Request.Quiet.{IsQuiet, request_emergency-IsQuiet, stopping_lem}

pub marker-mark_stopping :
    (lock : Lock) (session : String) (w w' : World)
    → lock.session_id ≡ some session
    → mark_stopping lock w ≡ some w'
    → w'.marker ≡ stopping session
unfolding mark_stopping
marker-mark_stopping lock session w w' named h = ground arith

pub identity-eq :
    (s : Option String) (session : String) → identity s ≡ some session → s ≡ some session
identity-eq none session h = cc
identity-eq (some t) session h = ground arith

-- Once `mark_stopping` has succeeded for a session, and whatever the lock file holds afterwards
-- (the same lock, none, or another session's), a request for emergency containment of that session,
-- from any component and with any options, changes nothing and does no more than notify.
pub mark_stopping_final :
    (lock late : Lock) (session : String) (w w' : World) (file : LockFile) (o : Options)
    (a : Answers) (cause : Diagnostic)
    → identity lock.session_id ≡ some session
    → identity late.session_id ≡ some session
    → mark_stopping lock w ≡ some w'
    → let x : World = record w' { lock_file = file } in
      IsQuiet x (request_emergency o a late cause x)
mark_stopping_final lock late session w w' file o a cause named late_named h =
    request_emergency-IsQuiet o a late cause session (record w' { lock_file = file })
      (rw (marker-mark_stopping lock session w w' (identity-eq _ session named) h)
        (stopping_lem session))
      late_named
