-- ===== src/Notifications/Tests.antt =====
-- Deliveries, answers and recipients on which the theorems about ttp/notifications are tried.
use transparent_tor_proxy.Base.{
  ℕ, ◌≡◌, refl, ◌⊎◌, true, false, Option, none, some, List, [], ◌∷◌, length, string_discrete,
  str_eq, if◌then◌else◌,
}
use transparent_tor_proxy.Base.Decimal.{decimal}
use transparent_tor_proxy.Base.Dict.{lookup, insert}
use transparent_tor_proxy.Base.Int.{pos, ◌-ℤ◌}
use transparent_tor_proxy.Base.Json.{
  Value, int, str, float, obj, arr, Fields, field, end, nil, cons, get_field, set_field,
}
use transparent_tor_proxy.Evidence.{finite, ok, notification_failed, exit_code, no_result}
use transparent_tor_proxy.Notifications.{
  Event, events, Run, expired, printed, Limits, Outside, Delivery, Delivered, Receipt, deliver,
  delivered, reply_of, attempt, accepted,
}
use transparent_tor_proxy.Notifications.Accounted.{IsAccounted, deliver-IsAccounted}
use transparent_tor_proxy.Notifications.Channel.{got, Library, Lock, Peer, rpc, check_reply, ◌>>=◌}
use transparent_tor_proxy.Notifications.Emit.{on, off, Emitted, emit, result_dict}
use transparent_tor_proxy.Notifications.Emit.Confirmed.{IsConfirmed, emit-IsConfirmed}
use transparent_tor_proxy.Notifications.Quote.{
  quote, escaped, replace, read_word, read_word-quote, IsPrintable,
}
use transparent_tor_proxy.Notifications.Recipient
use transparent_tor_proxy.Notifications.Recipient.{
  Account, Users, Logins, Target, recipient, collect, is_graphical, IsTarget, recipient-IsTarget,
}

-- A server that answers 7, and one run before it that takes too long.
abbrev loads : List ℕ → Option Value
loads text = some (obj (field "type" (str "u") (field "data" (arr (cons (int (pos 7)) nil)) end)))

abbrev limits : Limits
limits = record { delivery_timeout = 15; call_timeout = 5; attempts = 3 }

abbrev replies : ℕ → Run
replies ℕ.zero = expired
replies (ℕ.suc n) = printed (1 ∷ [])

abbrev server : Outside
server = record { start = 100; now = λ i. 101; run = replies; end_time = 108 }

abbrev fresh : Delivery
fresh = record { last_event = none; notification_id = 0; last_receipt = none }

abbrev receipt : Receipt
receipt = record {
  state = accepted;
  reason = "notifications.server_accepted";
  event = "started";
  notification_id = some 7;
  attempts = some 2;
  observed_at = 108;
  deduplicated = false;
}

abbrev out : Option Delivered
out = deliver loads limits server "started" fresh

abbrev started : Event
started = record {
  title = "TTP session started";
  body = "Selected startup requirements were satisfied. Inspect ttp status for observations.";
  severity = 1;
}

abbrev second_time : Delivered
second_time = delivered loads limits server "started" fresh started none

-- The first call is lost, the second is answered.
second_time_lem : (second_time.receipt ≡ receipt) × (length second_time.log ≡ 2)
unfolding attempt reply_of get_field string_discrete
second_time_lem = (refl, refl)

out_lem : out ≡ some second_time
unfolding deliver lookup string_discrete
out_lem = refl

deliver-IsAccounted_example :
    (e : Event) × (lookup "started" events ≡ some e)
    × IsAccounted loads limits server "started" e fresh second_time
deliver-IsAccounted_example =
    deliver-IsAccounted loads limits server "started" fresh second_time out_lem

-- The same event again makes no call.
again :
    deliver loads limits server "started" second_time.delivery
    ≡ some (record {
      delivery = second_time.delivery;
      receipt = record receipt { deduplicated = true };
      log = [];
    })
unfolding deliver attempt reply_of get_field lookup string_discrete
again = refl

abbrev answer : Fields
answer = field "session_id" (str "s1") (
    field "state" (str "accepted") (
      field "instance_id" (str "i1")
        (field "progress_at" (float "99.5") (field "notification_id" (int (pos 7)) end))))

abbrev library : Library
library = record {
  dumps = λ v. some (1 ∷ []);
  loads = λ text. some (obj answer);
  hex = λ s. some s;
  seconds_of = λ n. finite n;
  value_of = λ t. finite (pos 99);
  too_large = λ n. false;
  shown = λ v. "";
}

abbrev lock : Lock
lock = record {
  target = some (field "uid" (int (pos 1000)) end);
  session_id = "s1";
  max_age = pos 30;
}

abbrev agent : Peer
agent = record {
  connects = got tt;
  uid = pos 1000;
  sends = got tt;
  arrives = got (1 ∷ []);
  now = pos 100;
}

abbrev stored : Emitted
stored = record {
  result = no_result;
  stored = some (set_field "result" (result_dict no_result) answer, true);
}

emitted : emit library lock agent true on "stopped" true ≡ some stored
unfolding emit rpc check_reply get_field string_discrete ◌>>=◌ ◌-ℤ◌ lookup
emitted = refl

emit-IsConfirmed_example :
    ((exit_code no_result ≡ ok) ⊎ (exit_code no_result ≡ notification_failed))
    × (exit_code no_result ≡ ok
        → (on ≡ off)
          ⊎ ((r : Fields) × IsConfirmed library lock agent r
              × (stored.stored ≡ some (set_field "result" (result_dict no_result) r, true))))
emit-IsConfirmed_example = emit-IsConfirmed library lock agent true on "stopped" stored emitted

-- An argument with a space, a percent sign and a quotation mark.
quoted : quote (97 ∷ 32 ∷ 37 ∷ 34 ∷ []) ≡ some (34 ∷ 97 ∷ 32 ∷ 37 ∷ 37 ∷ 92 ∷ 34 ∷ 34 ∷ [])
unfolding quote escaped replace
quoted = refl

read_word-quote_example :
    (read_word (34 ∷ 97 ∷ 32 ∷ 37 ∷ 37 ∷ 92 ∷ 34 ∷ 34 ∷ []) ≡ some (97 ∷ 32 ∷ 37 ∷ 34 ∷ []))
    × IsPrintable (34 ∷ 97 ∷ 32 ∷ 37 ∷ 37 ∷ 92 ∷ 34 ∷ 34 ∷ [])
read_word-quote_example =
    read_word-quote (97 ∷ 32 ∷ 37 ∷ 34 ∷ []) (34 ∷ 97 ∷ 32 ∷ 37 ∷ 37 ∷ 92 ∷ 34 ∷ 34 ∷ []) quoted

abbrev users : Users
users = record {
  is_digits = λ s. true;
  number = λ s. some 1000;
  by_uid = λ n. some (record { uid = n; gid = 100 });
  by_name = λ s. none;
}

abbrev logins : Logins
logins = record {
  listed = some (("c1" ∷ "1000" ∷ []) ∷ [] ∷ ("c2" ∷ []) ∷ []);
  start = 0;
  five_seconds = 5;
  now = λ i. 1;
  is_alphanumeric = λ s. true;
  show = λ s. some (
      ("User", if str_eq s "c2" then "1000" else "0")
      ∷ ("Remote", "no")
      ∷ ("Type", "wayland")
      ∷ ("State", "active")
      ∷ ("Class", "user")
      ∷ []);
  has_busctl = true;
}

abbrev target : Target
target = record { uid = 1000; gid = 100; login_session = "c2" }

chosen : recipient users logins none (some "1000") ≡ some target
unfolding recipient collect is_graphical Recipient.◌>>=◌ lookup insert decimal string_discrete
chosen = refl

recipient-IsTarget_example : IsTarget users logins none (some "1000") target
recipient-IsTarget_example = recipient-IsTarget users logins none (some "1000") target chosen

-- An agent that answers with a list for a state ends the emission with an exception.
abbrev list_state : Fields
list_state = field "session_id" (str "s1") (field "state" (arr nil) end)

list_state_raises :
    emit
      (record library { loads = λ text. some (obj list_state) })
      lock
      agent
      true
      on
      "stopped"
      true
    ≡ none
unfolding emit rpc check_reply get_field string_discrete ◌>>=◌ lookup
list_state_raises = refl
