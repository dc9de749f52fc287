-- ===== src/Notifications.antt =====
-- ttp/notifications/protocol.py and delivery.py: the events, and the delivery of one by the agent to the
-- desktop's notification server. `busctl`, the server and `json` are not part of the program. Times are
-- numbers of ticks.
pub mod Accounted
pub mod Attempts
pub mod Channel
pub mod Emit
pub mod Quote
pub mod Range
pub mod Recipient
mod Tests
use transparent_tor_proxy.Base.{
  ℕ, zero, suc, ◌+◌, ◌-◌, ◌≤◌, ◌<◌, min, Bool, true, false, not, ◌&&◌, ◌||◌, String, Option, none,
  some, List, [], ◌∷◌, str_eq, ltb, leb, length, if◌then◌else◌,
}
use transparent_tor_proxy.Base.Decimal.{decimal}
use transparent_tor_proxy.Base.Dict.{lookup}
use transparent_tor_proxy.Base.Int.{ℤ, pos, negsuc}
use transparent_tor_proxy.Base.Json.{
  Value, null, bool, int, float, str, obj, arr, Fields, Items, nil, cons, get_field, as_str,
}

pub record Event : Type 0 where
  pub title : String
  pub body : String
  pub severity : ℕ

-- `EVENTS`
abbrev pub events : List (String × Event)
events =
    (
      "started",
      record {
        title = "TTP session started";
        body = "Selected startup requirements were satisfied. Inspect ttp status for observations.";
        severity = 1;
      },
    )
    ∷ (
      "stopped",
      record {
        title = "TTP session stopped";
        body = "TTP protection was removed. Applications may reconnect outside Tor.";
        severity = 1;
      },
    )
    ∷ (
      "inconclusive",
      record {
        title = "Tor verification inconclusive";
        body =
            "The session remains configured. Inspect ttp check and the journal; this is not proof of isolation.";
        severity = 1;
      },
    )
    ∷ (
      "watchdog_unavailable",
      record {
        title = "Required watchdog unavailable";
        body = "Supervision failed. Containment was requested; inspect ttp status for the outcome.";
        severity = 2;
      },
    )
    ∷ (
      "tor_negative",
      record {
        title = "Tor verification returned a negative result";
        body = "Containment was requested. Inspect ttp status for the outcome.";
        severity = 2;
      },
    )
    ∷ (
      "emergency_verified",
      record {
        title = "TTP emergency rules verified";
        body = "Close sensitive applications before sudo ttp stop; they may reconnect outside Tor.";
        severity = 2;
      },
    )
    ∷ (
      "containment_unconfirmed",
      record {
        title = "TTP containment UNCONFIRMED";
        body =
            "Isolation could not be established. Inspect ttp status and the journal. Close sensitive applications before terminating TTP.";
        severity = 3;
      },
    )
    ∷ (
      "recovered",
      record {
        title = "TTP verification recovered";
        body =
            "A new evaluation succeeded. Inspect ttp status for its scope. Any latched emergency remains until explicit stop.";
        severity = 1;
      },
    )
    ∷ []

-- How a run of busctl ends: a `TimeoutExpired`, a `CalledProcessError`, an `OSError`, or what it prints.
pub data Run : Type 0 where
  expired nonzero not_run : Run
  printed : List ℕ → Run

-- What an attempt comes to: an ambiguous end, an invalid reply, or an identifier.
pub data Reply : Type 0 where
  timed_out unconfirmed_call invalid : Reply
  identified : ℕ → Reply

-- `0 < data[0] < 2**32`
abbrev pub is_identifier : ℤ → Bool
is_identifier (pos n) = ltb 0 n && ltb n 4294967296
is_identifier (negsuc n) = false

abbrev pub identifier_of : ℤ → Reply
identifier_of (pos n) = if is_identifier (pos n) then identified n else invalid
identifier_of (negsuc n) = invalid

-- A list of one integer.
abbrev pub single : Items → Reply
single (cons (int n) nil) = identifier_of n
single _ = invalid

abbrev pub numbered : Option Value → Reply
numbered (some (arr items)) = single items
numbered _ = invalid

-- `payload.get("type") != "u"`
abbrev pub is_unsigned : Option Value → Bool
is_unsigned (some (str t)) = str_eq t "u"
is_unsigned _ = false

-- The tests on the payload.
abbrev pub acceptance : Fields → Reply
acceptance payload =
    if is_unsigned (get_field "type" payload) then numbered (get_field "data" payload) else invalid

abbrev pub of_loaded : Option Value → Reply
of_loaded (some (obj payload)) = acceptance payload
of_loaded _ = invalid

-- `call`, within the `try` of `deliver`, over `json.loads`.
unfoldable pub reply_of : (List ℕ → Option Value) → Run → Reply
reply_of loads expired = timed_out
reply_of loads nonzero = unconfirmed_call
reply_of loads not_run = invalid
reply_of loads (printed text) = if ltb 4096 (length text) then invalid else of_loaded (loads text)

-- The settings that the agent is given.
pub record Limits : Type 0 where
  pub delivery_timeout : ℕ
  pub call_timeout : ℕ
  pub attempts : ℕ

-- The clock, when the delivery starts, before each attempt and at the end, and the runs of busctl.
pub record Outside : Type 0 where
  pub start : ℕ
  pub now : ℕ → ℕ
  pub run : ℕ → Run
  pub end_time : ℕ

-- The arguments of `Notify`.
abbrev pub notify_args : Event → ℕ → List String
notify_args e id =
    "susssasa{sv}i"
    ∷ "TTP"
    ∷ decimal id
    ∷ "network-vpn"
    ∷ e.title
    ∷ e.body
    ∷ "0"
    ∷ "1"
    ∷ "urgency"
    ∷ "y"
    ∷ decimal (min e.severity 2)
    ∷ (if leb 2 e.severity then "0" else "-1")
    ∷ []

pub record Attempt : Type 0 where
  pub args : List String
  pub timeout : ℕ
  pub at : ℕ
  pub reply : Reply

-- The loop's variables: an identifier and the count of attempts once there is one, and the attempts made,
-- the last one first.
pub record Tries : Type 0 where
  pub accepted : Option (ℕ × ℕ)
  pub ambiguous : Bool
  pub reason : String
  pub log : List Attempt

abbrev pub after_reply : ℕ → Attempt → Tries → Reply → Tries
after_reply i a t timed_out = record {
  accepted = none;
  ambiguous = true;
  reason = "notifications.reply_timeout";
  log = a ∷ t.log;
}
after_reply i a t unconfirmed_call = record {
  accepted = none;
  ambiguous = true;
  reason = "notifications.call_unconfirmed";
  log = a ∷ t.log;
}
after_reply i a t invalid = record {
  accepted = none;
  ambiguous = t.ambiguous;
  reason = "notifications.reply_invalid";
  log = a ∷ t.log;
}
after_reply i a t (identified n) = record t { accepted = some (n, i + 1); log = a ∷ t.log }

module _ (loads : List ℕ → Option Value) (limits : Limits) (o : Outside) (e : Event) (id : ℕ) where
  abbrev pub deadline : ℕ
  deadline = o.start + limits.delivery_timeout

  abbrev pub attempt_at : ℕ → Attempt
  attempt_at i = record {
    args = notify_args e id;
    timeout = min limits.call_timeout (deadline - o.now i);
    at = o.now i;
    reply = reply_of loads (o.run i);
  }

  -- The loop of `deliver`, with the count of attempts that are left.
  unfoldable pub attempt : ℕ → ℕ → Tries → Tries
  attempt zero i t = t
  attempt (suc left) i t =
      let a : Attempt = attempt_at i in
      let rest = attempt left (i + 1) (after_reply i a t a.reply) in
      elim (leb deadline (o.now i)) [
        | true ↦ t
        | false ↦ elim a.reply [ identified n ↦ after_reply i a t (identified n) | _ ↦ rest ]
      ]

pub data Outcome : Type 0 where
  accepted unconfirmed failed : Outcome

pub record Receipt : Type 0 where
  pub state : Outcome
  pub reason : String
  pub event : String
  pub notification_id : Option ℕ
  pub attempts : Option ℕ
  pub observed_at : ℕ
  pub deduplicated : Bool

-- `Delivery`, without its bus and settings.
pub record Delivery : Type 0 where
  pub last_event : Option String
  pub notification_id : ℕ
  pub last_receipt : Option Receipt

-- What a delivery leaves: the state, the receipt that is returned, and the attempts.
pub record Delivered : Type 0 where
  pub delivery : Delivery
  pub receipt : Receipt
  pub log : List Attempt

abbrev pub no_tries : Tries
no_tries = record {
  accepted = none;
  ambiguous = false;
  reason = "notifications.server_failed";
  log = [];
}

abbrev pub keep_receipt : Delivery → ℕ → Receipt → List Attempt → Delivered
keep_receipt d id r log = record {
  delivery = record { last_event = some r.event; notification_id = id; last_receipt = some r };
  receipt = r;
  log = log;
}

abbrev pub conclude : String → ℕ → Delivery → Tries → Option (ℕ × ℕ) → Delivered
conclude name time d t (some (n, count)) =
    keep_receipt d n
      (record {
        state = accepted;
        reason = "notifications.server_accepted";
        event = name;
        notification_id = some n;
        attempts = some count;
        observed_at = time;
        deduplicated = false;
      })
      t.log
conclude name time d t none =
    keep_receipt d d.notification_id
      (record {
        state = if t.ambiguous then unconfirmed else failed;
        reason = t.reason;
        event = name;
        notification_id = none;
        attempts = none;
        observed_at = time;
        deduplicated = false;
      })
      t.log

abbrev pub is_accepted : Outcome → Bool
is_accepted accepted = true
is_accepted _ = false

-- The receipt of the same event, if it was accepted.
abbrev pub repeated : String → Option String → Option Receipt → Option Receipt
repeated name (some last) (some r) =
    if str_eq name last && is_accepted r.state then some r else none
repeated name _ _ = none

module _ (loads : List ℕ → Option Value) (limits : Limits) (o : Outside) (name : String) where
  abbrev pub delivered : Delivery → Event → Option Receipt → Delivered
  delivered d e (some r) = record {
    delivery = d;
    receipt = record r { deduplicated = true };
    log = [];
  }
  delivered d e none =
      let t = attempt loads limits o e d.notification_id limits.attempts 0 no_tries in
      conclude name o.end_time d t t.accepted

  -- `deliver`; `none` stands for the `KeyError` of an unknown event.
  unfoldable pub deliver : Delivery → Option Delivered
  unfolding attempt
  deliver d = elim (lookup name events) [
    | none ↦ none
    | some e ↦ some (delivered d e (repeated name d.last_event d.last_receipt))
  ]
