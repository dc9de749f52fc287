-- ===== src/Watchdog/Service/Ready.antt =====
-- ttp/watchdog/service.py, `start_watchdog`: what is behind a start of the watchdog that returns.
use transparent_tor_proxy.Base.{
  ◌≡◌, refl, sym, ap, str_eq→eq, ◌∙◌, inl, inr, true, false, not, ◌&&◌, String, Option, none, some,
  arith, str_eq, if◌then◌else◌, Bool-cases, string_discrete,
}
use transparent_tor_proxy.Base.Int.{ℤ}
use transparent_tor_proxy.Base.Json.{
  Value, null, int, str, obj, Fields, get_field, set_field, as_str, get_field-set_field,
}
use transparent_tor_proxy.Watchdog.Service.{
  Sight, confirmed_fields, observe, or_unknown, watchdog_observation, is_live, Keys, Attempt,
  value_is, is_unlatched, is_true, start_watchdog,
}
use transparent_tor_proxy.Watchdog.Service.Supervised.{
  Supervised, IfLive, value_of_pid, not_live, observe-Supervised,
}

module _ (x y : Option Value) where
  keys_differ :
      ((if str_eq "progress_at" "value" then x else y) ≡ y)
      × ((if str_eq "instance_id" "value" then x else y) ≡ y)
      × ((if str_eq "pid" "value" then x else y) ≡ y)
      × ((if str_eq "progress_at" "pid" then x else y) ≡ y)
      × ((if str_eq "instance_id" "pid" then x else y) ≡ y)
      × ((if str_eq "pid" "pid" then x else y) ≡ x)
  unfolding string_discrete
  keys_differ = (refl, refl, refl, refl, refl, refl)

module _ (fields : Fields) (pid : ℤ) (iid : String) (at : Value) where
  abbrev with_process : Fields
  with_process = set_field "pid" (int pid) fields

  abbrev with_instance : Fields
  with_instance = set_field "instance_id" (str iid) with_process

  confirmed-value :
      get_field "value" (confirmed_fields fields pid iid at) ≡ get_field "value" fields
  confirmed-value =
      get_field-set_field "progress_at" "value" at with_instance
      ∙ (keys_differ _ _).0
      ∙ get_field-set_field "instance_id" "value" (str iid) with_process
      ∙ (keys_differ _ _).1
      ∙ get_field-set_field "pid" "value" (int pid) fields
      ∙ (keys_differ _ _).2

  confirmed-pid : get_field "pid" (confirmed_fields fields pid iid at) ≡ some (int pid)
  confirmed-pid =
      get_field-set_field "progress_at" "pid" at with_instance
      ∙ (keys_differ _ _).3
      ∙ get_field-set_field "instance_id" "pid" (str iid) with_process
      ∙ (keys_differ _ _).4
      ∙ get_field-set_field "pid" "pid" (int pid) fields
      ∙ (keys_differ _ _).5

value_is-eq :
    (s : String) (o : Option Value)
    → (elim (as_str o) [ none ↦ false | some t ↦ str_eq t s ]) ≡ true
    → o ≡ some (str s)
value_is-eq s none h = absurd (ground (arith, h))
value_is-eq s (some (str t)) h = ap (λ x. some (str x)) (str_eq→eq t s h)
value_is-eq s (some null) h = absurd (ground (arith, h))
value_is-eq s (some (Value.bool b)) h = absurd (ground (arith, h))
value_is-eq s (some (int n)) h = absurd (ground (arith, h))
value_is-eq s (some (Value.float n)) h = absurd (ground (arith, h))
value_is-eq s (some (obj n)) h = absurd (ground (arith, h))
value_is-eq s (some (Value.arr n)) h = absurd (ground (arith, h))

healthy_live : is_live (some "healthy") ≡ true
unfolding string_discrete
healthy_live = refl

found-Supervised :
    (w : Sight) (found : Option Fields)
    → IfLive (Supervised w) found
    → get_field "value" (or_unknown found) ≡ some (str "healthy")
    → Supervised w (or_unknown found)
found-Supervised w (some o) h healthy = h (ground (arith, healthy, healthy_live))
found-Supervised w none h healthy = absurd (
    ground (
      arith,
      value_of_pid "unknown" "watchdog.observation_unavailable" null,
      healthy,
      healthy_live,
      not_live.0,
    ))

observation-Supervised :
    (w : Sight)
    → get_field "value" (watchdog_observation w) ≡ some (str "healthy")
    → Supervised w (watchdog_observation w)
unfolding watchdog_observation
observation-Supervised w healthy =
    found-Supervised w (observe w w.lock) (observe-Supervised w w.lock refl) healthy

start_watchdog-true :
    (a : Attempt) (k : Keys)
    → (start_watchdog a k).1 ≡ true
    → (value_is "healthy" (watchdog_observation a.sight) ≡ true)
      × (a.starts ≡ true)
      × (a.latched ≡ some false)
      × ((start_watchdog a k).0 ≡ record k {
        requested = true;
        active = true;
        pid = get_field "pid" (watchdog_observation a.sight);
      })
unfolding start_watchdog
start_watchdog-true a k h = elim (Bool-cases (not (is_true a.valid && a.prepares && a.requests))) [
  | inl e ↦ absurd (ground (arith, h, e))
  | inr e ↦ elim (Bool-cases (not (a.writes_unit && a.reloads && a.starts))) [
    | inl f ↦ absurd (ground (arith, h, e, f))
    | inr f ↦
        elim (Bool-cases (
          not (
            value_is "healthy" (watchdog_observation a.sight)
            && is_unlatched a.latched
            && a.records))) [
              | inl g ↦ absurd (ground (arith, h, e, f, g))
              | inr g ↦ (ground (arith, g), ground (arith, f), ground (arith, g), rw (e, f, g) refl)
            ]
  ]
]

Supervised-told :
    (w : Sight) (o : Fields) (sup : Supervised w o)
    → get_field "value" o ≡ some (str "healthy")
    → (get_field "value" sup.fields ≡ some (str "healthy"))
      × (get_field "pid" o ≡ some (int sup.pid))
Supervised-told w o sup said = (
  sym (confirmed-value sup.fields sup.pid sup.instance_id sup.written_at)
      ∙ ap (get_field "value") (sym sup.told)
      ∙ said,
  ap (get_field "pid") sup.told ∙ confirmed-pid sup.fields sup.pid sup.instance_id sup.written_at,
)

-- What a start that has returned leaves of the keys of the lock.
abbrev pub ready_keys : Keys → Option Value → Keys
ready_keys k pid = record k { requested = true; active = true; pid = pid }

-- A start of the watchdog that returns has started the unit, and has then found no emergency latched and
-- the session healthy: the unit is active with a process, whose number is written to the lock; the
-- record of the session and of this boot is by the unit's current invocation and says "healthy"; and
-- both the time at which it was written and the time of the check that it tells of lie less than the
-- configured age, and not after, the reading of the clock.
pub start_watchdog-Supervised :
    (a : Attempt) (k : Keys)
    → (start_watchdog a k).1 ≡ true
    → (sup : Supervised a.sight (watchdog_observation a.sight)) × (a.starts ≡ true)
      × (a.latched ≡ some false)
      × (get_field "value" sup.fields ≡ some (str "healthy"))
      × ((start_watchdog a k).0 ≡ ready_keys k (some (int sup.pid)))
start_watchdog-Supervised a k h =
    let facts = start_watchdog-true a k h in
    let said = value_is-eq "healthy" (get_field "value" (watchdog_observation a.sight)) facts.0 in
    with_observation (observation-Supervised a.sight said)
      (Supervised-told a.sight (watchdog_observation a.sight) (observation-Supervised a.sight said)
        said)
      facts
  where
    with_observation :
        (sup : Supervised a.sight (watchdog_observation a.sight))
        → (get_field "value" sup.fields ≡ some (str "healthy"))
          × (get_field "pid" (watchdog_observation a.sight) ≡ some (int sup.pid))
        → (value_is "healthy" (watchdog_observation a.sight) ≡ true)
          × (a.starts ≡ true)
          × (a.latched ≡ some false)
          × ((start_watchdog a k).0 ≡ ready_keys k (get_field "pid" (watchdog_observation a.sight)))
        → (s : Supervised a.sight (watchdog_observation a.sight)) × (a.starts ≡ true)
          × (a.latched ≡ some false)
          × (get_field "value" s.fields ≡ some (str "healthy"))
          × ((start_watchdog a k).0 ≡ ready_keys k (some (int s.pid)))
    with_observation sup told facts =
        (sup, facts.1, facts.2, told.0, facts.3 ∙ ap (ready_keys k) told.1)
