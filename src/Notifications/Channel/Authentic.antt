-- ===== src/Notifications/Channel/Authentic.antt =====
-- ttp/notifications/service.py, `rpc`: what an answer of the agent has been tested for.
use transparent_tor_proxy.Base.{
  ℕ, ◌≡◌, inl, inr, refl, Bool, true, false, not, ◌&&◌, ◌||◌, String, Option, none, some, List,
  str_eq, contains, if◌then◌else◌, ltb, length, Bool-cases, str_eq→eq,
}
use transparent_tor_proxy.Base.Int.{ℤ, pos, leb_ℤ}
use transparent_tor_proxy.Base.Json.{Value, int, str, obj, arr, Fields, get_field, as_str}
use transparent_tor_proxy.Evidence.{Instant}
use transparent_tor_proxy.Notifications.Channel.{
  Answer, got, late, refused, crashed, Library, Lock, Peer, rpc, demand, or_refused, ◌>>=◌,
  recipient_uid, socket_path, receive, check_reply, states, known_state, is_hex, instant_of,
  is_recent, identifier_in, same_uid, request, encodable, as_dict, max_message,
}

abbrev pub Returns : {A : Type 0} → (A → Type 0) → Answer A → Type 0
Returns P (got a) = P a
Returns P _ = Unit

bind-Returns :
    {A B : Type 0} (Q : A → Type 0) (P : B → Type 0) (m : Answer A) (f : A → Answer B)
    → Returns Q m
    → ((a : A) → Q a → Returns P (f a))
    → Returns P (m >>= f)
unfolding ◌>>=◌
bind-Returns Q P (got a) f h k = k a h
bind-Returns Q P late f h k = tt
bind-Returns Q P refused f h k = tt
bind-Returns Q P crashed f h k = tt

Returns-map :
    {A : Type 0} (P Q : A → Type 0) (e : Answer A)
    → ((a : A) → P a → Q a)
    → Returns P e
    → Returns Q e
Returns-map P Q (got a) k h = k a h
Returns-map P Q late k h = tt
Returns-map P Q refused k h = tt
Returns-map P Q crashed k h = tt

demand-Returns : (b : Bool) → Returns (λ u. b ≡ true) (demand b)
demand-Returns true = refl
demand-Returns false = tt

or_refused-Returns : {A : Type 0} (o : Option A) → Returns (λ a. o ≡ some a) (or_refused o)
or_refused-Returns none = tt
or_refused-Returns (some a) = refl

itself : {A : Type 0} (m : Answer A) → Returns (λ a. m ≡ got a) m
itself (got a) = refl
itself late = tt
itself refused = tt
itself crashed = tt

-- The user of the recipient, who is not root.
abbrev pub IsRecipient : Option Value → ℤ → Type 0
IsRecipient uid n = (uid ≡ some (int n)) × (leb_ℤ n (pos 0) ≡ false)

positive-uid :
    (n : ℤ) → Returns (IsRecipient (some (int n))) (if leb_ℤ n (pos 0) then refused else got n)
positive-uid n = elim (Bool-cases (leb_ℤ n (pos 0))) [ inl e ↦ rw e tt | inr e ↦ rw e (refl, e) ]

recipient_uid-Returns : (uid : Option Value) → Returns (IsRecipient uid) (recipient_uid uid)
recipient_uid-Returns none = tt
recipient_uid-Returns (some (int n)) = positive-uid n
recipient_uid-Returns (some Value.null) = tt
recipient_uid-Returns (some (Value.bool b)) = tt
recipient_uid-Returns (some (Value.float t)) = tt
recipient_uid-Returns (some (str s)) = tt
recipient_uid-Returns (some (obj fs)) = tt
recipient_uid-Returns (some (arr xs)) = tt

state-Returns : (o : Option Value) → Returns (λ s. o ≡ some (str s)) (known_state o)
state-Returns none = tt
state-Returns (some (int n)) = tt
state-Returns (some Value.null) = tt
state-Returns (some (Value.bool b)) = tt
state-Returns (some (Value.float t)) = tt
state-Returns (some (str s)) = elim (Bool-cases (contains s states)) [
  | inl e ↦ rw e refl
  | inr e ↦ rw e tt
]
state-Returns (some (obj fs)) = tt
state-Returns (some (arr xs)) = tt

-- The reply to a request: the session's own, with a state, from the agent's current instance, with
-- progress that is recent, and with an identifier if it says "accepted".
pub record Checked (lib : Library) (lock : Lock) (now : ℤ) (payload : Fields) : Type 0 where
  pub state : String
  pub instance_id : String
  pub progress : Instant
  pub session : as_str (get_field "session_id" payload) ≡ some lock.session_id
  pub stated : get_field "state" payload ≡ some (str state)
  pub identified : as_str (get_field "instance_id" payload) ≡ some instance_id
  pub canonical : is_hex instance_id (lib.hex instance_id) ≡ true
  pub timed : instant_of lib (get_field "progress_at" payload) ≡ got progress
  pub recent : is_recent now lock.max_age progress ≡ true
  pub numbered :
      not (str_eq state "accepted") || identifier_in (get_field "notification_id" payload) ≡ true

check_reply-Checked :
    (lib : Library) (lock : Lock) (now : ℤ) (payload : Fields)
    → Returns (λ q. (q ≡ payload) × Checked lib lock now payload) (check_reply lib lock now payload)
unfolding check_reply
check_reply-Checked lib lock now payload =
    bind-Returns _ _ _ _ (or_refused-Returns (as_str (get_field "session_id" payload))) λ s named.
      bind-Returns _ _ _ _ (demand-Returns (str_eq s lock.session_id)) λ _ own.
        bind-Returns _ _ _ _ (state-Returns (get_field "state" payload)) λ state stated.
          bind-Returns _ _ _ _ (or_refused-Returns (as_str (get_field "instance_id" payload)))
            λ i identified.
              bind-Returns _ _ _ _ (demand-Returns (is_hex i (lib.hex i))) λ _ canonical.
                bind-Returns _ _ _ _ (itself (instant_of lib (get_field "progress_at" payload)))
                  λ t timed.
                    bind-Returns _ _ _ _ (demand-Returns (is_recent now lock.max_age t)) λ _ recent.
                      bind-Returns _ _ _ _
                        (demand-Returns (
                          not (str_eq state "accepted")
                          || identifier_in (get_field "notification_id" payload)))
                        λ _ numbered. (
                          refl,
                          record {
                            state = state;
                            instance_id = i;
                            progress = t;
                            session = rw (← str_eq→eq s lock.session_id own) named;
                            stated = stated;
                            identified = identified;
                            canonical = canonical;
                            timed = timed;
                            recent = recent;
                            numbered = numbered;
                          },
                        )

-- An answer of the recipient's own process, which passed the tests.
pub record Authentic (lib : Library) (lock : Lock) (p : Peer) (payload : Fields) : Type 0 where
  pub uid : ℤ
  pub bytes : List ℕ
  pub target : Fields
  pub chosen : lock.target ≡ some target
  pub recipient : IsRecipient (get_field "uid" target) uid
  pub peer : same_uid p.uid uid ≡ true
  pub arrived : p.arrives ≡ got bytes
  pub loaded : lib.loads bytes ≡ some (obj payload)
  pub checked : Checked lib lock p.now payload

as_dict-Returns : (v : Value) → Returns (λ fs. v ≡ obj fs) (as_dict v)
as_dict-Returns Value.null = tt
as_dict-Returns (Value.bool b) = tt
as_dict-Returns (int n) = tt
as_dict-Returns (Value.float t) = tt
as_dict-Returns (str s) = tt
as_dict-Returns (arr s) = tt
as_dict-Returns (obj fs) = refl

receive-Returns :
    (lib : Library) (bytes : List ℕ)
    → Returns (λ payload. lib.loads bytes ≡ some (obj payload)) (receive lib bytes)
receive-Returns lib bytes =
    bind-Returns _ _ _ _
      (demand-Returns (ltb 0 (length bytes) && not (ltb max_message (length bytes))))
      λ _ _.
        bind-Returns _ _ _ _ (or_refused-Returns (lib.loads bytes)) λ v loaded.
          Returns-map _ _ (as_dict v) (λ fs same. rw (← same) loaded) (as_dict-Returns v)

pub rpc-Authentic :
    (lib : Library) (lock : Lock) (p : Peer) (operation : String) (event : Option String)
    → Returns (Authentic lib lock p) (rpc lib lock p operation event true)
unfolding rpc
rpc-Authentic lib lock p operation event =
    bind-Returns _ _ _ _ (or_refused-Returns lock.target) λ target chosen.
      bind-Returns (λ path. IsRecipient (get_field "uid" target) path.0) _
        (socket_path lib (get_field "uid" target) lock.session_id) _ (path_of target)
        λ path recipient. bind-Returns _ _ _ _ (itself p.connects) λ _ _.
          bind-Returns _ _ _ _ (demand-Returns (same_uid p.uid path.0)) λ _ peer.
            bind-Returns _ _ _ _
              (demand-Returns (encodable (lib.dumps (request lock.session_id operation event))))
              λ _ _. bind-Returns _ _ _ _ (itself p.sends) λ _ _.
                bind-Returns _ _ _ _ (itself p.arrives) λ bytes arrived.
                  bind-Returns _ _ _ _ (receive-Returns lib bytes) λ payload loaded.
                    Returns-map _ _ (check_reply lib lock p.now payload)
                      (λ q both. record {
                        uid = path.0;
                        bytes = bytes;
                        target = target;
                        chosen = chosen;
                        recipient = recipient;
                        peer = peer;
                        arrived = arrived;
                        loaded = rw both.0 loaded;
                        checked = rw both.0 both.1;
                      })
                      (check_reply-Checked lib lock p.now payload)
  where
    path_of :
        (target : Fields)
        → Returns
            (λ path. IsRecipient (get_field "uid" target) path.0)
            (socket_path lib (get_field "uid" target) lock.session_id)
    path_of target =
        bind-Returns _ _ _ _ (recipient_uid-Returns (get_field "uid" target)) λ n recipient.
          bind-Returns _ _ _ _ (itself (or_refused (lib.hex lock.session_id))) λ _ _. recipient
