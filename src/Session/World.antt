-- ===== src/Session/World.antt =====
-- What ttp/session_safety.py reads and writes: the session lock and the stop marker of ttp/state.py,
-- and the emergency record of ttp/runtime_records.py. Every read of a file may find it absent or
-- unusable.
use transparent_tor_proxy.Base.{
  Bool, true, false, ◌||◌, String, Option, none, some, List, str_eq, non_empty, if◌then◌else◌,
}
use transparent_tor_proxy.Base.Json.{Value}
use transparent_tor_proxy.Evidence.{Result}

-- What `Settings.from_snapshot(lock["settings"])` gives, if the lock holds a non-empty snapshot.
pub data SettingsRead : Type 0 where
  no_settings invalid_settings valid_settings : SettingsRead

-- The keys of a session lock that are read here. `session_id` is `none` where it is no string.
pub record Lock : Type 0 where
  pub session_id : Option String
  pub phase : String
  pub watchdog_requested : Bool
  pub settings : SettingsRead

-- `read_lock(strict=True)`: `None`, a `StateError`, or a lock.
pub data LockFile : Type 0 where
  no_lock broken_lock : LockFile
  locked : Lock → LockFile

-- `stopping.json`: absent, one that makes `stop_was_requested` raise, or one that names a session.
pub data Marker : Type 0 where
  no_marker broken_marker : Marker
  stopping : String → Marker

-- The record "emergency" of the session: `requested` is whether it is the value `True`, `applied` and
-- `causes` are as stored (`none` for a `causes` that is no list of objects).
pub record Emergency : Type 0 where
  pub requested : Bool
  pub applied : Option Bool
  pub causes : Option (List Value)
  pub verified : Bool
  pub result : Option Result

pub data Record : Type 0 where
  no_record broken_record : Record
  recorded : Emergency → Record

pub record World : Type 0 where
  pub lock_file : LockFile
  pub marker : Marker
  pub emergency : Record

-- A non-empty string, as `isinstance(session_id, str) and session_id`.
abbrev pub identity : Option String → Option String
identity none = none
identity (some s) = if non_empty s then some s else none

-- `stop_was_requested(session_id)` of ttp/state.py; `none` stands for the `StateError`.
unfoldable pub stop_was_requested : String → Marker → Option Bool
stop_was_requested session no_marker = some false
stop_was_requested session broken_marker = none
stop_was_requested session (stopping s) = some (str_eq s session || str_eq s "*")

-- `lock.get("session_id") == other.get("session_id")`
abbrev pub same_id : Option String → Option String → Bool
same_id none none = true
same_id (some s) (some t) = str_eq s t
same_id _ _ = false

-- `emergency_latched`, over the record of the lock's session; `none` stands for a `StateError`.
abbrev pub latched_record : Record → Option Bool
latched_record no_record = some false
latched_record broken_record = none
latched_record (recorded e) = if e.requested then some true else none

unfoldable pub emergency_latched : Lock → World → Option Bool
emergency_latched lock w = elim (identity lock.session_id) [
  | none ↦ none
  | some _ ↦ latched_record w.emergency
]

-- `mark_stopping`, when its writes succeed; `none` stands for a `StateError`.
abbrev pub same_lock : Lock → LockFile → Option Lock
same_lock lock no_lock = none
same_lock lock broken_lock = none
same_lock lock (locked l) = if same_id l.session_id lock.session_id then some l else none

abbrev stop_marker : Option String → Marker → Marker
stop_marker none m = broken_marker
stop_marker (some s) m = stopping s

unfoldable pub mark_stopping : Lock → World → Option World
mark_stopping lock w = elim (same_lock lock w.lock_file) [
  | none ↦ none
  | some l ↦ some (record w {
    lock_file = locked (record l { phase = "stopping" });
    marker = stop_marker lock.session_id w.marker;
  })
]

-- `delete_lock` of ttp/state.py
unfoldable pub delete_lock : World → World
delete_lock w = record w { lock_file = no_lock }
