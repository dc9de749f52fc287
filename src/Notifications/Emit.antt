-- ===== src/Notifications/Emit.antt =====
-- ttp/notifications/service.py: `emit` and `finish_notifications`, and what an exit code says of them.
pub mod Confirmed
use transparent_tor_proxy.Base.{
  ℕ, ◌≡◌, Bool, true, false, not, ◌&&◌, ◌||◌, String, Option, none, some, List, [], ◌∷◌, map,
  str_eq, is_none, contains, if◌then◌else◌,
}
use transparent_tor_proxy.Base.Dict.{lookup}
use transparent_tor_proxy.Base.Int.{pos}
use transparent_tor_proxy.Base.Json.{
  Value, int, str, arr, Fields, end, field, Items, nil, cons, get_field, set_field, as_str,
}
use transparent_tor_proxy.Evidence.{
  ok, notification_failed, to_int, Diagnostic, Result, no_result, add, exit_code,
}
use transparent_tor_proxy.Evidence.Dicts.{as_dict}
use transparent_tor_proxy.Notifications.{events}
use transparent_tor_proxy.Notifications.Channel.{
  Answer, got, late, refused, crashed, Library, Lock, Peer, rpc, event_value,
}

-- `settings.notifications.enabled` of the lock's settings; whether there are any, and whether they are
-- valid.
pub data Chosen : Type 0 where
  absent invalid off on : Chosen

abbrev pub failure : String → String → String → Diagnostic
failure reason operation message = record {
  code = notification_failed;
  reason = reason;
  component = "notifications";
  operation = operation;
  message = message;
  active = true;
}

abbrev pub fallback : String → String → String → Fields
fallback state reason event =
    field "state" (str state) (field "reason" (str reason) (field "event" (str event) end))

-- The receipt, or `none` if `emit` raises.
abbrev pub receipt_of : String → Answer Fields → Option Fields
receipt_of event (got r) = some r
receipt_of event late = some (fallback "unconfirmed" "notifications.agent_timeout" event)
receipt_of event refused = some (fallback "failed" "notifications.agent_unavailable" event)
receipt_of event crashed = none

abbrev pub has_state : String → Fields → Bool
has_state s receipt = elim (as_str (get_field "state" receipt)) [
  | none ↦ false
  | some t ↦ str_eq t s
]

-- A receipt that is still pending after a wait.
abbrev pub settled : Bool → Fields → Fields
settled wait receipt =
    if wait && has_state "pending" receipt
    then set_field "reason" (str "notifications.acceptance_pending")
        (set_field "state" (str "unconfirmed") receipt)
    else receipt

-- `result.as_dict()`
abbrev pub diagnostics_list : List Diagnostic → Items
diagnostics_list [] = nil
diagnostics_list (d ∷ ds) = cons (as_dict d) (diagnostics_list ds)

abbrev pub result_dict : Result → Value
result_dict r = Value.obj (
    field "exit_code" (int (pos (to_int (exit_code r))))
      (field "diagnostics" (arr (diagnostics_list r.diagnostics)) end))

-- What `emit` leaves: its result, and the record that it tried to store with whether that worked.
pub record Emitted : Type 0 where
  pub result : Result
  pub stored : Option (Fields × Bool)

abbrev pub store : Fields → Bool → Result → Emitted
store receipt writes r = record {
  result =
      if writes
      then r
      else add r (
          failure "notifications.evidence_write_failed" "deliver"
            "Could not retain notification delivery evidence"
          ∷ []);
  stored = some (set_field "result" (result_dict r) receipt, writes);
}

-- `receipt["reason"]`, which may raise a `KeyError`. A reason that is no text stands as it is shown.
abbrev pub reason_in : Library → Option Value → Option String
reason_in lib none = none
reason_in lib (some (str s)) = some s
reason_in lib (some v) = some (lib.shown v)

abbrev pub unconfirmed : Fields → Bool → Option String → Option Emitted
unconfirmed receipt writes none = none
unconfirmed receipt writes (some reason) = some (
    store receipt writes (
      add no_result (
        failure reason "deliver" "Desktop delivery was not confirmed; inspect CLI and journal"
        ∷ [])))

abbrev pub judge : Library → Bool → Fields → Option Emitted
judge lib writes receipt =
    if has_state "accepted" receipt || has_state "pending" receipt
    then some (store receipt writes no_result)
    else unconfirmed receipt writes (reason_in lib (get_field "reason" receipt))

abbrev pub after_rpc : Library → Bool → Bool → Option Fields → Option Emitted
after_rpc lib wait writes none = none
after_rpc lib wait writes (some receipt) = judge lib writes (settled wait receipt)

module _ (lib : Library) (lock : Lock) (p : Peer) (writes : Bool) where
  abbrev pub emit_known : String → Bool → Bool → Option Emitted
  emit_known event wait true =
      after_rpc lib wait writes (receipt_of event (rpc lib lock p "notify" (some event) wait))
  emit_known event wait false = none

  -- `emit`; `none` stands for an exception. `writes` is whether the session's store takes the record.
  unfoldable pub emit : Chosen → String → Bool → Option Emitted
  emit absent event wait = none
  emit invalid event wait = none
  emit off event wait = some (record { result = no_result; stored = none })
  emit on event wait = emit_known event wait (not (is_none (lookup event events)))

  abbrev pub stop_result : Bool → Result → Result
  stop_result stops r =
      if stops
      then r
      else add r (
          failure "notifications.agent_stop_failed" "stop"
            "Session stopped, but the desktop agent could not be stopped"
          ∷ [])

  abbrev pub after_emit : Bool → Option Emitted → Option Result
  after_emit stops none = none
  after_emit stops (some e) = some (stop_result stops e.result)

  -- `finish_notifications`; `stops` is whether `stop_agent` returns.
  unfoldable pub finish_notifications : Chosen → Bool → Option Result
  unfolding emit
  finish_notifications absent stops = some no_result
  finish_notifications invalid stops = none
  finish_notifications off stops = some no_result
  finish_notifications on stops = after_emit stops (emit on "stopped" true)
