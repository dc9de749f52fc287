-- ===== src/Notifications/Channel.antt =====
-- ttp/notifications/protocol.py and `rpc` of service.py: one request to the agent over its socket, and
-- the tests on what comes back. The kernel's sockets, `json` and `uuid` are not part of the program.
pub mod Authentic
use transparent_tor_proxy.Base.{
  ℕ, ◌≡◌, Bool, true, false, not, ◌&&◌, ◌||◌, String, ◌<>◌, Option, none, some, List, [], ◌∷◌,
  str_eq, ltb, leb, length, contains, if◌then◌else◌,
}
use transparent_tor_proxy.Base.Decimal.{decimal}
use transparent_tor_proxy.Base.Int.{ℤ, pos, negsuc, leb_ℤ, ltb_ℤ, ◌-ℤ◌}
use transparent_tor_proxy.Base.Json.{
  Value, null, bool, int, float, str, obj, arr, Fields, end, field, get_field, as_str,
}
use transparent_tor_proxy.Evidence.{Instant, finite, not_finite}
use transparent_tor_proxy.Notifications.{is_identifier}

-- How a part ends: with a value; with a `TimeoutError`; with an `OSError`, a `ValueError` or a
-- `NotificationError`; or with another exception.
pub data Answer (A : Type 0) : Type 0 where
  got : A → Answer A
  late : Answer A
  refused : Answer A
  crashed : Answer A

infixl 5 ◌>>=◌
unfoldable pub ◌>>=◌ : {A B : Type 0} → Answer A → (A → Answer B) → Answer B
got a >>= f = f a
late >>= f = late
refused >>= f = refused
crashed >>= f = crashed

abbrev pub demand : Bool → Answer (Unit {0})
demand b = if b then got tt else refused

-- `json.dumps` with its encoding, `json.loads`, `uuid.UUID(...).hex`, and the values of numbers as
-- instants, where `too_large` is for an integer that no float holds. `shown` is how a value prints.
pub record Library : Type 0 where
  pub dumps : Value → Option (List ℕ)
  pub loads : List ℕ → Option Value
  pub hex : String → Option String
  pub seconds_of : ℤ → Instant
  pub value_of : String → Instant
  pub too_large : ℤ → Bool
  pub shown : Value → String

-- The keys of the lock that are read here: `notification_target` (`none` if it is no dict) and
-- `session_id`; and `observation_max_age` of its settings.
pub record Lock : Type 0 where
  pub target : Option Fields
  pub session_id : String
  pub max_age : ℤ

-- The agent's end of the socket: how the connection goes, its user, how sending goes, the bytes
-- that arrive, and the clock's reading after that.
pub record Peer : Type 0 where
  pub connects : Answer (Unit {0})
  pub uid : ℤ
  pub sends : Answer (Unit {0})
  pub arrives : Answer (List ℕ)
  pub now : ℤ

abbrev pub max_message : ℕ
max_message = 8192

-- `target["uid"]`, which may raise a `KeyError`, and the first test of `socket_path`.
abbrev pub recipient_uid : Option Value → Answer ℤ
recipient_uid none = crashed
recipient_uid (some (int n)) = if leb_ℤ n (pos 0) then refused else got n
recipient_uid (some _) = refused

abbrev pub or_refused : {A : Type 0} → Option A → Answer A
or_refused none = refused
or_refused (some a) = got a

abbrev pub as_dict : Value → Answer Fields
as_dict (obj fs) = got fs
as_dict _ = refused

-- `send`, up to `sendall`
abbrev pub encodable : Option (List ℕ) → Bool
encodable none = false
encodable (some text) = not (ltb max_message (length text))

abbrev pub event_value : Option String → Value
event_value none = null
event_value (some name) = str name

abbrev pub request : String → String → Option String → Value
request session operation event = obj (
    field "session_id" (str session)
      (field "operation" (str operation) (field "event" (event_value event) end)))

abbrev pub states : List String
states = "pending" ∷ "accepted" ∷ "unconfirmed" ∷ "failed" ∷ []

-- `payload.get("state") not in {...}`: a list or a dict cannot be looked up in a set.
abbrev pub known_state : Option Value → Answer String
known_state (some (str s)) = if contains s states then got s else refused
known_state (some (arr items)) = crashed
known_state (some (obj fs)) = crashed
known_state _ = refused

-- `uuid.UUID(instance).hex == instance`
abbrev pub is_hex : String → Option String → Bool
is_hex s none = false
is_hex s (some h) = str_eq h s

-- `0 <= boottime() - progress <= max_age`
abbrev pub is_recent : ℤ → ℤ → Instant → Bool
is_recent now max_age not_finite = false
is_recent now max_age (finite t) = leb_ℤ (pos 0) (now -ℤ t) && leb_ℤ (now -ℤ t) max_age

abbrev pub identifier_in : Option Value → Bool
identifier_in (some (int n)) = is_identifier n
identifier_in _ = false

abbrev pub enqueued : Option String → Fields
enqueued event =
    field "state" (str "pending")
      (field "reason" (str "notifications.enqueued") (field "event" (event_value event) end))

abbrev pub same_uid : ℤ → ℤ → Bool
same_uid a b = leb_ℤ a b && leb_ℤ b a

module _ (lib : Library) where
  -- `socket_path`
  abbrev pub socket_path : Option Value → String → Answer (ℤ × String)
  socket_path uid session = do
    n ← recipient_uid uid
    identifier ← or_refused (lib.hex session)
    got (n, identifier)

  -- `receive`, of the bytes that arrive.
  abbrev pub receive : List ℕ → Answer Fields
  receive encoded = do
    _ ← demand (ltb 0 (length encoded) && not (ltb max_message (length encoded)))
    v ← or_refused (lib.loads encoded)
    as_dict v

  abbrev pub instant_of : Option Value → Answer Instant
  instant_of (some (int n)) = if lib.too_large n then crashed else got (lib.seconds_of n)
  instant_of (some (float t)) = got (lib.value_of t)
  instant_of _ = refused

  -- The tests of `rpc` on the payload.
  unfoldable pub check_reply : Lock → ℤ → Fields → Answer Fields
  check_reply lock now payload = do
    session ← or_refused (as_str (get_field "session_id" payload))
    _ ← demand (str_eq session lock.session_id)
    state ← known_state (get_field "state" payload)
    instance_id ← or_refused (as_str (get_field "instance_id" payload))
    _ ← demand (is_hex instance_id (lib.hex instance_id))
    progress ← instant_of (get_field "progress_at" payload)
    _ ← demand (is_recent now lock.max_age progress)
    _ ←
        demand
          (not (str_eq state "accepted") || identifier_in (get_field "notification_id" payload))
    got payload

  abbrev pub answered : Lock → Peer → Option String → Bool → Answer Fields
  answered lock p event false = got (enqueued event)
  answered lock p event true = do
    encoded ← p.arrives
    payload ← receive encoded
    check_reply lock p.now payload

  -- `rpc` after the connection
  abbrev pub exchange : Lock → Peer → ℤ → String → Option String → Bool → Answer Fields
  exchange lock p uid operation event wait = do
    _ ← demand (same_uid p.uid uid)
    _ ← demand (encodable (lib.dumps (request lock.session_id operation event)))
    _ ← p.sends
    answered lock p event wait

  -- `rpc`
  unfoldable pub rpc : Lock → Peer → String → Option String → Bool → Answer Fields
  unfolding check_reply
  rpc lock p operation event wait = do
    target ← or_refused lock.target
    path ← socket_path (get_field "uid" target) lock.session_id
    _ ← p.connects
    exchange lock p path.0 operation event wait
