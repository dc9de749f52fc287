-- ===== src/Watchdog/Service.antt =====
-- ttp/watchdog/service.py: what is observed of the watchdog's unit and its record, and the start that
-- requires a healthy supervisor. The lines that systemctl prints come as pairs in their order.
pub mod Supervised
pub mod Ready
mod Tests
use transparent_tor_proxy.Base.{
  ℕ, Bool, true, false, not, ◌&&◌, ◌||◌, String, Option, none, some, List, [], ◌∷◌, str_eq,
  contains, non_empty, if◌then◌else◌,
}
use transparent_tor_proxy.Base.Dict.{lookup, insert}
use transparent_tor_proxy.Base.Int.{ℤ, pos, leb_ℤ}
use transparent_tor_proxy.Base.Json.{
  Value, null, bool, int, float, str, obj, arr, Fields, end, field, get_field, set_field, as_str,
}
use transparent_tor_proxy.Evidence.{Instant, Observation, is_current}

-- What `Settings.from_snapshot(lock["settings"])` gives of `observation_max_age`, if it is valid, and
-- the keys of the lock.
pub record Session : Type 0 where
  pub requested : Bool
  pub session_id : Option String
  pub max_age : Option Instant

-- `read_lock(strict=True)`: a `StateError`, no lock, or a lock.
pub data LockRead : Type 0 where
  unreadable absent : LockRead
  present : Session → LockRead

-- What one observation meets: the lock; what `systemctl show` prints, if it runs; the record
-- "watchdog" of the session, as the record store reads it; the boot identity and the clock; and
-- Python's `int(text)`, `str(value)` and numbers as instants.
pub record Sight : Type 0 where
  pub lock : LockRead
  pub shown : Option (List (String × String))
  pub record_read : Option (Option Fields)
  pub boot : Option String
  pub now : Instant
  pub int_of : String → Option ℤ
  pub text_of : Value → String
  pub seconds_of : ℤ → Instant
  pub value_of : String → Instant

-- `dict(line.split("=", 1) ...)`
abbrev pub dict_of : List (String × String) → List (String × String) → List (String × String)
dict_of d [] = d
dict_of d ((k, v) ∷ items) = dict_of (insert k v d) items

abbrev pub get_or : String → String → List (String × String) → String
get_or key default d = elim (lookup key d) [ none ↦ default | some v ↦ v ]

-- `{"value": value, "reason": reason, "pid": None}`
abbrev pub without_pid : String → String → Fields
without_pid value reason =
    field "value" (str value) (field "reason" (str reason) (field "pid" null end))

abbrev pub unknown : Fields
unknown = without_pid "unknown" "watchdog.observation_unavailable"

abbrev pub unknown_for : String → ℤ → Fields
unknown_for reason pid =
    field "value" (str "unknown") (field "reason" (str reason) (field "pid" (int pid) end))

-- `str(data.get(key, default))`, where a text prints as it is.
abbrev pub printed : (Value → String) → Option Value → String → String
printed text_of none default = default
printed text_of (some (str s)) default = s
printed text_of (some v) default = text_of v

abbrev pub number : Sight → Option Value → Option Instant
number w (some (int n)) = some (w.seconds_of n)
number w (some (float t)) = some (w.value_of t)
number w _ = none

abbrev pub fields_of : Option Value → Option Fields
fields_of (some (obj fs)) = some fs
fields_of _ = none

infixl 5 ◌>>=◌
unfoldable pub ◌>>=◌ : {A B : Type 0} → Option A → (A → Option B) → Option B
none >>= f = none
some a >>= f = f a

-- The two observations, of progress and of integrity, have all but the time in common.
abbrev pub seen_at : Sight → Fields → Fields → String → String → Instant → Observation
seen_at w payload fields session boot at = record {
  value = printed w.text_of (get_field "value" fields) "unknown";
  session_id = session;
  boot_id = boot;
  instance_id = printed w.text_of (get_field "instance_id" fields) "";
  observed_at = at;
  reason = "";
}

-- The dictionary that is returned for a current observation.
abbrev pub confirmed_fields : Fields → ℤ → String → Value → Fields
confirmed_fields fields pid instance_id written_at =
    set_field "progress_at" written_at
      (set_field "instance_id" (str instance_id) (set_field "pid" (int pid) fields))

abbrev pub or_unknown : Option Fields → Fields
or_unknown none = unknown
or_unknown (some o) = o

module _ (w : Sight) where
  -- After the test of progress.
  abbrev pub judge_integrity :
      Fields
      → Fields
      → String
      → String
      → String
      → Instant
      → ℤ
      → String
      → String
      → Value
      → Option Instant
      → Fields
  judge_integrity payload fields session boot instance_id max_age pid owner owner_boot written_at
        none =
      unknown_for (printed w.text_of (get_field "reason" fields) "watchdog.evaluation_pending") pid
  judge_integrity payload fields session boot instance_id max_age pid owner owner_boot written_at
        (some at) =
      if is_current (seen_at w payload fields owner owner_boot at) session boot instance_id w.now
        max_age
      then confirmed_fields fields pid instance_id written_at
      else unknown_for "watchdog.integrity_stale" pid

  -- From the record on; `none` stands for an exception.
  unfoldable pub judge_record : Fields → String → Instant → String → ℤ → Option Fields
  judge_record payload session max_age instance_id pid = do
    fields ← fields_of (get_field "data" payload)
    owner ← as_str (get_field "session_id" payload)
    owner_boot ← as_str (get_field "boot_id" payload)
    written_at ← get_field "written_at" payload
    written ← number w (some written_at)
    boot ← w.boot
    some (
        if is_current (seen_at w payload fields owner owner_boot written) session boot instance_id
          w.now max_age
        then judge_integrity payload fields session boot instance_id max_age pid owner owner_boot
            written_at (number w (get_field "observed_at" fields))
        else without_pid "unknown" "watchdog.progress_stale")

  abbrev pub with_record : String → Instant → String → ℤ → Option Fields → Option Fields
  with_record session max_age instance_id pid none = some unknown
  with_record session max_age instance_id pid (some payload) =
      if leb_ℤ pid (pos 0)
      then some unknown
      else judge_record payload session max_age instance_id pid

  abbrev pub active_unit : Session → Instant → List (String × String) → Option Fields
  active_unit s max_age d = do
    pid ← w.int_of (get_or "MainPID" "0" d)
    session ← s.session_id
    found ← w.record_read
    with_record session max_age (get_or "InvocationID" "" d) pid found

  abbrev pub look_at : Session → Instant → List (String × String) → Option Fields
  look_at s max_age d =
      if str_eq (get_or "ActiveState" "" d) "active"
      then active_unit s max_age d
      else some (without_pid "unavailable" "watchdog.unit_not_active")

  abbrev pub observe_session : Session → Option Fields
  observe_session s =
      if s.requested
      then (do max_age ← s.max_age; items ← w.shown; look_at s max_age (dict_of [] items))
      else some (without_pid "not_requested" "watchdog.not_requested")

  abbrev pub observe : LockRead → Option Fields
  observe unreadable = none
  observe absent = some (without_pid "not_requested" "watchdog.not_requested")
  observe (present s) = observe_session s

  -- `watchdog_observation`
  unfoldable pub watchdog_observation : Fields
  unfolding judge_record
  watchdog_observation = or_unknown (observe w.lock)

abbrev pub is_live : Option String → Bool
is_live none = false
is_live (some value) = contains value ("healthy" ∷ "emergency" ∷ [])

-- `watchdog_liveness`; `none` stands for the `KeyError` of an observation without a value.
unfoldable pub watchdog_liveness : Sight → Option (Bool × Option Value)
unfolding watchdog_observation
watchdog_liveness w = elim (get_field "value" (watchdog_observation w)) [
  | none ↦ none
  | some value ↦
      let live = is_live (as_str (some value)) in
      some (live, if live then get_field "pid" (watchdog_observation w) else none)
]

-- `_unit_state`, with `str.isdigit` as an argument.
abbrev pub main_pid : (String → Bool) → (String → Option ℤ) → String → Option ℤ
main_pid is_digits int_of text =
    if is_digits text
    then (elim (int_of text) [ none ↦ none | some n ↦ if leb_ℤ n (pos 0) then none else some n ])
    else none

unfoldable pub unit_state :
    (String → Bool)
    → (String → String)
    → (String → Option ℤ)
    → Option (List (String × String))
    → String × Option ℤ
unit_state is_digits strip int_of none = ("unknown", none)
unit_state is_digits strip int_of (some items) =
    let d = dict_of [] items in
    (
      strip (get_or "ActiveState" "unknown" d),
      main_pid is_digits int_of (strip (get_or "MainPID" "0" d)),
    )

-- The keys of the lock that `start_watchdog` writes.
pub record Keys : Type 0 where
  pub requested : Bool
  pub active : Bool
  pub pid : Option Value

-- What a start meets: the lock (`none` if there is none or it is unusable) with whether its settings
-- are valid; how each write and each run ends; the observation after the unit has started; and what
-- `emergency_latched` gives, where `none` stands for a `StateError`.
pub record Attempt : Type 0 where
  pub valid : Option Bool
  pub prepares : Bool
  pub requests : Bool
  pub writes_unit : Bool
  pub reloads : Bool
  pub starts : Bool
  pub sight : Sight
  pub latched : Option Bool
  pub records : Bool

abbrev pub is_true : Option Bool → Bool
is_true (some b) = b
is_true none = false

-- `emergency_latched(lock)` without a `StateError`
abbrev pub is_unlatched : Option Bool → Bool
is_unlatched (some b) = not b
is_unlatched none = false

abbrev pub value_is : String → Fields → Bool
value_is s o = elim (as_str (get_field "value" o)) [ none ↦ false | some t ↦ str_eq t s ]

-- `start_watchdog`: the keys after it, and whether it returned.
unfoldable pub start_watchdog : Attempt → Keys → Keys × Bool
start_watchdog a k =
    let observed = watchdog_observation a.sight in
    let asked = record k { requested = true } in
    if not (is_true a.valid && a.prepares && a.requests)
    then (k, false)
    else if not (a.writes_unit && a.reloads && a.starts)
    then (asked, false)
    else if not (value_is "healthy" observed && is_unlatched a.latched && a.records)
    then (asked, false)
    else (record asked { active = true; pid = get_field "pid" observed }, true)
