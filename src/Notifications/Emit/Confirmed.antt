-- ===== src/Notifications/Emit/Confirmed.antt =====
-- ttp/notifications/service.py, `emit`: what the exit code of an emission says.
use transparent_tor_proxy.Base.{
  ℕ, ◌<◌, ◌≡◌, ◌⊎◌, inl, inr, refl, sym, ap, ◌∙◌, Bool, true, false, ◌||◌, String, Option, none,
  some, str_eq, if◌then◌else◌, arith, Bool-cases, Option-cases, string_discrete, str_eq→eq, str_ne,
}
use transparent_tor_proxy.Base.Dict.{lookup}
use transparent_tor_proxy.Base.Int.{pos, negsuc}
use transparent_tor_proxy.Base.Json.{
  Value, int, str, obj, arr, Fields, get_field, set_field, as_str, get_field-set_field,
}
use transparent_tor_proxy.Evidence.{
  ok, notification_failed, Result, no_result, add, exit_code, max_default, max_code,
}
use transparent_tor_proxy.Notifications.{events}
use transparent_tor_proxy.Notifications.Channel.{
  Answer, got, late, refused, crashed, Library, Lock, Peer, rpc, identifier_in,
}
use transparent_tor_proxy.Notifications.Channel.Authentic.{Authentic, Returns, rpc-Authentic}
use transparent_tor_proxy.Notifications.Emit.{
  Chosen, absent, invalid, off, on, Emitted, emit, store, unconfirmed, judge, after_rpc, receipt_of,
  fallback, settled, has_state, result_dict, reason_in,
}

-- An authentic answer that the notification was accepted, with the server's identifier.
abbrev pub IsConfirmed : Library → Lock → Peer → Fields → Type 0
IsConfirmed lib lock p payload =
    (n : ℕ) × (0 < n)
    × (n < 4294967296)
    × (get_field "state" payload ≡ some (str "accepted"))
    × (get_field "notification_id" payload ≡ some (int (pos n)))
    × Authentic lib lock p payload

-- The exit codes that an emission can give.
abbrev IsOwn : Result → Type 0
IsOwn r = (exit_code r ≡ ok) ⊎ (exit_code r ≡ notification_failed)

abbrev Stored : Fields → Emitted → Type 0
Stored receipt out = out.stored ≡ some (set_field "result" (result_dict no_result) receipt, true)

-- What holds of an emission, if `Q` holds of a receipt that is stored with no failure.
abbrev Judged : (Fields → Type 0) → Emitted → Type 0
Judged Q out = IsOwn out.result × (exit_code out.result ≡ ok → (r : Fields) × Q r × Stored r out)

no_result-ok : exit_code no_result ≡ ok
unfolding exit_code max_default
no_result-ok = refl

store-Judged :
    (Q : Fields → Type 0) (receipt : Fields) (writes : Bool)
    → Q receipt
    → Judged Q (store receipt writes no_result)
unfolding exit_code max_default max_code add
store-Judged Q receipt true h = (inl refl, λ e. (receipt, h, refl))
store-Judged Q receipt false h = (inr refl, λ e. absurd (ground (arith, e)))

unconfirmed-Judged :
    (Q : Fields → Type 0) (receipt : Fields) (writes : Bool) (reason : Option String)
    (out : Emitted)
    → unconfirmed receipt writes reason ≡ some out
    → Judged Q out
unfolding exit_code max_default max_code add
unconfirmed-Judged Q receipt writes none out h = absurd (ground (arith, h))
unconfirmed-Judged Q receipt true (some reason) out h =
    (inr (ground (arith, h)), λ e. absurd (ground (arith, e, h)))
unconfirmed-Judged Q receipt false (some reason) out h =
    (inr (ground (arith, h)), λ e. absurd (ground (arith, e, h)))

judge-Judged :
    (Q : Fields → Type 0) (lib : Library) (writes : Bool) (receipt : Fields) (out : Emitted)
    → (has_state "accepted" receipt || has_state "pending" receipt ≡ true → Q receipt)
    → judge lib writes receipt ≡ some out
    → Judged Q out
judge-Judged Q lib writes receipt out q h =
    elim (Bool-cases (has_state "accepted" receipt || has_state "pending" receipt)) [
      | inl e ↦
          let same : some (store receipt writes no_result) ≡ some out = rw e at h in
          let here : store receipt writes no_result ≡ out = cc in
          rw (← here) (store-Judged Q receipt writes (q e))
      | inr e ↦
          unconfirmed-Judged Q receipt writes (reason_in lib (get_field "reason" receipt)) out
            (rw e at h)
    ]

abbrev settled_receipt : Fields → Fields
settled_receipt r =
    set_field "reason" (str "notifications.acceptance_pending")
      (set_field "state" (str "unconfirmed") r)

reason_state : (x y : Option Value) → (if str_eq "reason" "state" then x else y) ≡ y
unfolding string_discrete
reason_state x y = refl

state_state : (x y : Option Value) → (if str_eq "state" "state" then x else y) ≡ x
unfolding string_discrete
state_state x y = refl

settled_state : (r : Fields) → get_field "state" (settled_receipt r) ≡ some (str "unconfirmed")
settled_state r =
    get_field-set_field "reason" "state" (str "notifications.acceptance_pending")
      (set_field "state" (str "unconfirmed") r)
    ∙ reason_state (some (str "notifications.acceptance_pending"))
        (get_field "state" (set_field "state" (str "unconfirmed") r))
    ∙ get_field-set_field "state" "state" (str "unconfirmed") r
    ∙ state_state (some (str "unconfirmed")) (get_field "state" r)

has_state-eq : (s : String) (r : Fields) → has_state s r ≡ true → get_field "state" r ≡ some (str s)
has_state-eq s r h = text_of (get_field "state" r) h
  where
    text_of :
        (o : Option Value)
        → (elim (as_str o) [ none ↦ false | some t ↦ str_eq t s ]) ≡ true
        → o ≡ some (str s)
    text_of none k = absurd (ground (arith, k))
    text_of (some (str t)) k = ap (λ x. some (str x)) (str_eq→eq t s k)
    text_of (some Value.null) k = absurd (ground (arith, k))
    text_of (some (Value.bool b)) k = absurd (ground (arith, k))
    text_of (some (int n)) k = absurd (ground (arith, k))
    text_of (some (Value.float t)) k = absurd (ground (arith, k))
    text_of (some (obj fs)) k = absurd (ground (arith, k))
    text_of (some (arr xs)) k = absurd (ground (arith, k))

unconfirmed_state : (str_eq "unconfirmed" "accepted" || str_eq "unconfirmed" "pending") ≡ false
unfolding string_discrete
unconfirmed_state = refl

fallback_state :
    (state reason event : String)
    → get_field "state" (fallback state reason event) ≡ some (str state)
unfolding get_field string_discrete
fallback_state state reason event = refl

late_differs : str_eq "unconfirmed" "accepted" ≡ false
unfolding string_discrete
late_differs = refl

failed_differs : str_eq "failed" "accepted" ≡ false
unfolding string_discrete
failed_differs = refl

-- After a wait a receipt counts only if it says "accepted", and is then the agent's own.
settled-accepted :
    (r : Fields)
    → has_state "accepted" (settled true r) || has_state "pending" (settled true r) ≡ true
    → (settled true r ≡ r) × (get_field "state" r ≡ some (str "accepted"))
settled-accepted r h = elim (Bool-cases (has_state "pending" r)) [
  | inl e ↦ absurd (unsettled (rw e at h))
  | inr e ↦ (ground (arith, e), has_state-eq "accepted" r (ground (arith, h, e)))
]
  where
    unsettled :
        has_state "accepted" (settled_receipt r) || has_state "pending" (settled_receipt r) ≡ true
        → ⊥
    unsettled k = absurd (ground (arith, unconfirmed_state, settled_state r, k))

identifier_in-eq :
    (o : Option Value)
    → identifier_in o ≡ true
    → (n : ℕ) × (0 < n) × (n < 4294967296) × (o ≡ some (int (pos n)))
identifier_in-eq none h = absurd (ground (arith, h))
identifier_in-eq (some (int (pos n))) h = (n, ground (arith, h), ground (arith, h), refl)
identifier_in-eq (some (int (negsuc n))) h = absurd (ground (arith, h))
identifier_in-eq (some (str t)) h = absurd (ground (arith, h))
identifier_in-eq (some Value.null) h = absurd (ground (arith, h))
identifier_in-eq (some (Value.bool b)) h = absurd (ground (arith, h))
identifier_in-eq (some (Value.float t)) h = absurd (ground (arith, h))
identifier_in-eq (some (obj fs)) h = absurd (ground (arith, h))
identifier_in-eq (some (arr xs)) h = absurd (ground (arith, h))

module _ (lib : Library) (lock : Lock) (p : Peer) (writes : Bool) where
  accepted-IsConfirmed :
      (r : Fields)
      → Authentic lib lock p r
      → get_field "state" r ≡ some (str "accepted")
      → IsConfirmed lib lock p r
  accepted-IsConfirmed r a said =
      let same : some (str "accepted") ≡ some (str a.checked.state) = sym said ∙ a.checked.stated in
      let one : a.checked.state ≡ "accepted" = cc in
      let number =
        identifier_in-eq (get_field "notification_id" r)
          (ground (arith, a.checked.numbered, one)) in
      (number.0, number.1, number.2, said, number.3, a)

  -- A receipt that is made up here does not count.
  fallback-Judged :
      (state reason event : String) (out : Emitted)
      → str_eq state "accepted" ≡ false
      → judge lib writes (settled true (fallback state reason event)) ≡ some out
      → Judged (IsConfirmed lib lock p) out
  fallback-Judged state reason event out differs e =
      judge-Judged (IsConfirmed lib lock p) lib writes (settled true (fallback state reason event))
        out
        (λ counts.
          let own = settled-accepted (fallback state reason event) counts in
          let same : some (str state) ≡ some (str "accepted") =
            sym (fallback_state state reason event) ∙ own.1 in
          let equal : state ≡ "accepted" = cc in absurd (str_ne state "accepted" differs equal))
        e

  answer-Judged :
      (event : String) (a : Answer Fields) (out : Emitted)
      → Returns (Authentic lib lock p) a
      → after_rpc lib true writes (receipt_of event a) ≡ some out
      → Judged (IsConfirmed lib lock p) out
  answer-Judged event (got r) out h e =
      judge-Judged (IsConfirmed lib lock p) lib writes (settled true r) out
        (λ counts. let own = settled-accepted r counts in rw own.0 (accepted-IsConfirmed r h own.1))
        e
  answer-Judged event late out h e =
      fallback-Judged "unconfirmed" "notifications.agent_timeout" event out late_differs e
  answer-Judged event refused out h e =
      fallback-Judged "failed" "notifications.agent_unavailable" event out failed_differs e
  answer-Judged event crashed out h e = absurd (ground (arith, e))

  -- An emission with a wait that returns has the exit code 0 or that of a failed notification, and no
  -- other. It has 0 only if notifications are off, or if the recipient's own process, which is not
  -- root's, has answered for this session, with an instance, with recent progress and with an identifier
  -- of the server from 1 up to 2^32 - 1, that the notification was accepted, and this answer was stored.
  pub emit-IsConfirmed :
      (c : Chosen) (event : String) (out : Emitted)
      → emit lib lock p writes c event true ≡ some out
      → ((exit_code out.result ≡ ok) ⊎ (exit_code out.result ≡ notification_failed))
        × (exit_code out.result ≡ ok
            → (c ≡ off)
              ⊎ ((r : Fields) × IsConfirmed lib lock p r
                  × (out.stored ≡ some (set_field "result" (result_dict no_result) r, true))))
  unfolding emit
  emit-IsConfirmed absent event out h = absurd (ground (arith, h))
  emit-IsConfirmed invalid event out h = absurd (ground (arith, h))
  emit-IsConfirmed off event out h =
      let same : record { result = no_result; stored = none } ≡ out = cc in
      rw (← same) (inl no_result-ok, λ e. inl refl)
  emit-IsConfirmed on event out h = elim (Option-cases (lookup event events)) [
    | inl e ↦ absurd (ground (arith, h, e))
    | inr (found, e) ↦
        let judged =
          answer-Judged event (rpc lib lock p "notify" (some event) true) out
            (rpc-Authentic lib lock p "notify" (some event)) (rw e at h) in
        (judged.0, λ quiet. inr (judged.1 quiet))
  ]
