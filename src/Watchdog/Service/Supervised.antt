-- ===== src/Watchdog/Service/Supervised.antt =====
-- ttp/watchdog/service.py: what is behind an observation of a live watchdog.
use transparent_tor_proxy.Base.{
  ◌≡◌, ◌≢◌, refl, ap, str_eq→eq, ◌∙◌, Bool, true, false, String, Option, none, some, List, [],
  arith, str_eq, if◌then◌else◌, string_discrete,
}
use transparent_tor_proxy.Base.Int.{ℤ, pos, leb_ℤ, ◌≤ℤ◌, ◌<ℤ◌, ◌-ℤ◌}
use transparent_tor_proxy.Base.Json.{
  Value, null, int, str, obj, Fields, field, end, get_field, as_str,
}
use transparent_tor_proxy.Evidence.{Instant, finite, not_finite, Observation, is_current}
use transparent_tor_proxy.Evidence.Age.{is_current_iff}
use transparent_tor_proxy.Watchdog.Service.{
  Session, LockRead, unreadable, absent, present, Sight, dict_of, get_or, without_pid, unknown,
  unknown_for, printed, number, fields_of, ◌>>=◌, seen_at, confirmed_fields, judge_integrity,
  judge_record, with_record, observe, is_live,
}

-- A time that is not after now, and less than `max_age` before it.
abbrev pub IsRecent : Instant → Instant → Instant → Type 0
IsRecent now seen max_age =
    (n s m : ℤ) × (now ≡ finite n)
    × (seen ≡ finite s)
    × (max_age ≡ finite m)
    × (s ≤ℤ n)
    × (n -ℤ s <ℤ m)

-- What a current observation comes to.
abbrev IsOf : Observation → String → String → String → Instant → Instant → Type 0
IsOf o session boot instance_id now max_age =
    (instance_id ≢ "")
    × (o.session_id ≡ session)
    × (o.boot_id ≡ boot)
    × (o.instance_id ≡ instance_id)
    × IsRecent now o.observed_at max_age

current-IsRecent :
    (o : Observation) (session boot instance_id : String) (now seen max_age : Instant)
    → o.observed_at ≡ seen
    → is_current o session boot instance_id now max_age ≡ true
    → IsOf o session boot instance_id now max_age
unfolding is_current
current-IsRecent o session boot instance_id (finite n) (finite s) (finite m) e h =
    let facts = (is_current_iff o session boot instance_id n s m e).0 h in
    (facts.2, facts.3, facts.4, facts.5, (n, s, m, refl, e, refl, facts.7, facts.8))
current-IsRecent o session boot instance_id not_finite seen max_age e h =
    absurd (ground (arith, h, e))
current-IsRecent o session boot instance_id (finite n) not_finite max_age e h =
    absurd (ground (arith, h, e))
current-IsRecent o session boot instance_id (finite n) (finite s) not_finite e h =
    absurd (ground (arith, h, e))

-- The record and the unit behind an observation `o` of a session: the unit is active, with a process; the
-- record's data hold what is observed; the record names the session, the boot and the unit's current
-- invocation; and both the time of writing and the time of the last check are recent.
pub record Supervised (w : Sight) (o : Fields) : Type 0 where
  pub session : Session
  pub session_id : String
  pub boot : String
  pub instance_id : String
  pub pid : ℤ
  pub items : List (String × String)
  pub payload : Fields
  pub fields : Fields
  pub written_at : Value
  pub max_age : Instant
  pub written : Instant
  pub observed : Instant
  pub locked : w.lock ≡ present session
  pub requested : session.requested ≡ true
  pub named : session.session_id ≡ some session_id
  pub configured : session.max_age ≡ some max_age
  pub shown : w.shown ≡ some items
  pub unit_active : get_or "ActiveState" "" (dict_of [] items) ≡ "active"
  pub main_pid : w.int_of (get_or "MainPID" "0" (dict_of [] items)) ≡ some pid
  pub alive : leb_ℤ pid (pos 0) ≡ false
  pub invoked : get_or "InvocationID" "" (dict_of [] items) ≡ instance_id
  pub invocation : instance_id ≢ ""
  pub booted : w.boot ≡ some boot
  pub recorded : w.record_read ≡ some (some payload)
  pub content : get_field "data" payload ≡ some (obj fields)
  pub own_session : as_str (get_field "session_id" payload) ≡ some session_id
  pub own_boot : as_str (get_field "boot_id" payload) ≡ some boot
  pub own_instance : printed w.text_of (get_field "instance_id" fields) "" ≡ instance_id
  pub time_written : number w (get_field "written_at" payload) ≡ some written
  pub progress : IsRecent w.now written max_age
  pub time_observed : number w (get_field "observed_at" fields) ≡ some observed
  pub integrity : IsRecent w.now observed max_age
  pub told : o ≡ confirmed_fields fields pid instance_id written_at

abbrev pub Live : Fields → Type 0
Live o = is_live (as_str (get_field "value" o)) ≡ true

-- If there is an observation, and it is of a live watchdog, `P` holds of it.
abbrev pub IfLive : (Fields → Type 0) → Option Fields → Type 0
IfLive P none = Unit
IfLive P (some o) = Live o → P o

bind-IfLive :
    {A : Type 0} (P : Fields → Type 0) (m : Option A) (f : A → Option Fields)
    → ((a : A) → m ≡ some a → IfLive P (f a))
    → IfLive P (m >>= f)
unfolding ◌>>=◌
bind-IfLive P none f k = tt
bind-IfLive P (some a) f k = k a refl

pub value_of_pid :
    (value reason : String) (v : Value)
    → get_field "value"
        (field "value" (str value) (field "reason" (str reason) (field "pid" v end)))
      ≡ some (str value)
unfolding get_field string_discrete
value_of_pid value reason v = refl

pub not_live :
    (is_live (some "unknown") ≡ false)
    × (is_live (some "unavailable") ≡ false)
    × (is_live (some "not_requested") ≡ false)
unfolding string_discrete
not_live = (refl, refl, refl)

unlive :
    (P : Fields → Type 0) (value reason : String) (v : Value)
    → is_live (some value) ≡ false
    → IfLive P (some (field "value" (str value) (field "reason" (str reason) (field "pid" v end))))
unlive P value reason v h live = absurd (ground (arith, live, value_of_pid value reason v, h))

choose-IfLive :
    (P : Fields → Type 0) (b : Bool) (x y : Option Fields)
    → (b ≡ true → IfLive P x)
    → (b ≡ false → IfLive P y)
    → IfLive P (if b then x else y)
choose-IfLive P true x y h k = h refl
choose-IfLive P false x y h k = k refl

choose_inside :
    (P : Fields → Type 0) (b : Bool) (x y : Fields)
    → (b ≡ true → IfLive P (some x))
    → (b ≡ false → IfLive P (some y))
    → IfLive P (some (if b then x else y))
choose_inside P true x y h k = h refl
choose_inside P false x y h k = k refl

fields_of-eq : (o : Option Value) (fs : Fields) → fields_of o ≡ some fs → o ≡ some (obj fs)
fields_of-eq none fs h = absurd (ground (arith, h))
fields_of-eq (some (obj gs)) fs h = ground (arith, h)
fields_of-eq (some null) fs h = absurd (ground (arith, h))
fields_of-eq (some (Value.bool b)) fs h = absurd (ground (arith, h))
fields_of-eq (some (int n)) fs h = absurd (ground (arith, h))
fields_of-eq (some (Value.float n)) fs h = absurd (ground (arith, h))
fields_of-eq (some (str n)) fs h = absurd (ground (arith, h))
fields_of-eq (some (Value.arr n)) fs h = absurd (ground (arith, h))

module _ (w : Sight) where
  -- The last tests, with all that was found before them.
  integrity-Supervised :
      (s : Session) (sid boot iid : String) (pid : ℤ) (items : List (String × String))
      (payload fields : Fields) (written_at : Value) (max_age written : Instant)
      (owner owner_boot : String) (o : Option Instant)
      → number w (get_field "observed_at" fields) ≡ o
      → IsOf (seen_at w payload fields owner owner_boot written) sid boot iid w.now max_age
      → ((observed : Instant)
          → number w (get_field "observed_at" fields) ≡ some observed
          → IsOf (seen_at w payload fields owner owner_boot observed) sid boot iid w.now max_age
          → Supervised w (confirmed_fields fields pid iid written_at))
      → IfLive (Supervised w) (
          some (
            judge_integrity w payload fields sid boot iid max_age pid owner owner_boot written_at
              o))
  integrity-Supervised s sid boot iid pid items payload fields written_at max_age written owner
        owner_boot none e progress make =
      unlive (Supervised w) "unknown"
        (printed w.text_of (get_field "reason" fields) "watchdog.evaluation_pending") (int pid)
        not_live.0
  integrity-Supervised s sid boot iid pid items payload fields written_at max_age written owner
        owner_boot (some at) e progress make =
      choose_inside (Supervised w)
        (is_current (seen_at w payload fields owner owner_boot at) sid boot iid w.now max_age)
        (confirmed_fields fields pid iid written_at) (unknown_for "watchdog.integrity_stale" pid)
        (λ current live. make at e (
          current-IsRecent (seen_at w payload fields owner owner_boot at) sid boot iid w.now at
            max_age refl current))
        (λ stale. unlive (Supervised w) "unknown" "watchdog.integrity_stale" (int pid) not_live.0)

  module _ (s : Session) (sid iid : String) (pid : ℤ) (items : List (String × String))
      (max_age : Instant) (locked : w.lock ≡ present s) (requested : s.requested ≡ true)
      (named : s.session_id ≡ some sid) (configured : s.max_age ≡ some max_age)
      (shown : w.shown ≡ some items)
      (unit_active : str_eq (get_or "ActiveState" "" (dict_of [] items)) "active" ≡ true)
      (main_pid : w.int_of (get_or "MainPID" "0" (dict_of [] items)) ≡ some pid)
      (invoked : get_or "InvocationID" "" (dict_of [] items) ≡ iid) where
    record-Supervised :
        (payload : Fields)
        → w.record_read ≡ some (some payload)
        → leb_ℤ pid (pos 0) ≡ false
        → IfLive (Supervised w) (judge_record w payload sid max_age iid pid)
    unfolding judge_record
    record-Supervised payload recorded alive =
        bind-IfLive (Supervised w) (fields_of (get_field "data" payload)) _ λ fields content.
          bind-IfLive (Supervised w) (as_str (get_field "session_id" payload)) _ λ owner owned.
            bind-IfLive (Supervised w) (as_str (get_field "boot_id" payload)) _
              λ owner_boot owned_boot.
                bind-IfLive (Supervised w) (get_field "written_at" payload) _ λ written_at stamped.
                  bind-IfLive (Supervised w) (number w (some written_at)) _ λ written time.
                    bind-IfLive (Supervised w) w.boot _ λ boot booted.
                      choose_inside (Supervised w)
                        (is_current (seen_at w payload fields owner owner_boot written) sid boot iid
                          w.now max_age)
                        (judge_integrity w payload fields sid boot iid max_age pid owner owner_boot
                          written_at (number w (get_field "observed_at" fields)))
                        (without_pid "unknown" "watchdog.progress_stale")
                        (λ current.
                          let progress =
                            current-IsRecent (seen_at w payload fields owner owner_boot written) sid
                              boot iid w.now written max_age refl current in
                          integrity-Supervised s sid boot iid pid items payload fields written_at
                            max_age written owner owner_boot
                            (number w (get_field "observed_at" fields)) refl progress
                            λ observed at_observed integrity. record {
                              session = s;
                              session_id = sid;
                              boot = boot;
                              instance_id = iid;
                              pid = pid;
                              items = items;
                              payload = payload;
                              fields = fields;
                              written_at = written_at;
                              max_age = max_age;
                              written = written;
                              observed = observed;
                              locked = locked;
                              requested = requested;
                              named = named;
                              configured = configured;
                              shown = shown;
                              unit_active = str_eq→eq _ "active" unit_active;
                              main_pid = main_pid;
                              alive = alive;
                              invoked = invoked;
                              invocation = progress.0;
                              booted = booted;
                              recorded = recorded;
                              content = fields_of-eq (get_field "data" payload) fields content;
                              own_session = owned ∙ ap some progress.1;
                              own_boot = owned_boot ∙ ap some progress.2;
                              own_instance = progress.3;
                              time_written = ap (number w) stamped ∙ time;
                              progress = progress.4;
                              time_observed = at_observed;
                              integrity = integrity.4;
                              told = refl;
                            })
                        (λ stale.
                          unlive (Supervised w) "unknown" "watchdog.progress_stale" null not_live.0)

    with_record-Supervised :
        (found : Option Fields)
        → w.record_read ≡ some found
        → IfLive (Supervised w) (with_record w sid max_age iid pid found)
    with_record-Supervised none recorded =
        unlive (Supervised w) "unknown" "watchdog.observation_unavailable" null not_live.0
    with_record-Supervised (some payload) recorded =
        choose-IfLive (Supervised w) (leb_ℤ pid (pos 0)) (some unknown)
          (judge_record w payload sid max_age iid pid)
          (λ dead.
            unlive (Supervised w) "unknown" "watchdog.observation_unavailable" null not_live.0)
          (λ alive. record-Supervised payload recorded alive)

  pub observe-Supervised : (l : LockRead) → w.lock ≡ l → IfLive (Supervised w) (observe w l)
  observe-Supervised unreadable e = tt
  observe-Supervised absent e =
      unlive (Supervised w) "not_requested" "watchdog.not_requested" null not_live.2
  observe-Supervised (present s) e =
      choose-IfLive (Supervised w) s.requested _ _
        (λ requested. bind-IfLive (Supervised w) s.max_age _ λ max_age configured.
          bind-IfLive (Supervised w) w.shown _ λ items shown.
            choose-IfLive (Supervised w)
              (str_eq (get_or "ActiveState" "" (dict_of [] items)) "active") _ _
              (λ active.
                bind-IfLive (Supervised w) (w.int_of (get_or "MainPID" "0" (dict_of [] items))) _
                  λ pid main. bind-IfLive (Supervised w) s.session_id _ λ sid named.
                    bind-IfLive (Supervised w) w.record_read _ λ found recorded.
                      with_record-Supervised s sid (get_or "InvocationID" "" (dict_of [] items)) pid
                        items max_age e requested named configured shown active main refl found
                        recorded)
              (λ idle.
                unlive (Supervised w) "unavailable" "watchdog.unit_not_active" null not_live.1))
        (λ unrequested.
          unlive (Supervised w) "not_requested" "watchdog.not_requested" null not_live.2)
