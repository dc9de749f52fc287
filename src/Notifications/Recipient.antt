-- ===== src/Notifications/Recipient.antt =====
-- ttp/notifications/service.py, `recipient`: who gets the notifications, by the account that is named
-- and the sessions that loginctl lists.
use mathlib.Core.List.{append_assoc, append-nil}
use transparent_tor_proxy.Base.{
  ℕ, ◌+◌, ◌<◌, ◌≡◌, refl, sym, ◌∙◌, Bool, true, false, not, ◌&&◌, String, Option, none, some, List,
  [], ◌∷◌, arith, leb, ltb, keep, non_empty, contains, if◌then◌else◌, ◌++◌, Bool-cases, inl, inr,
}
use transparent_tor_proxy.Base.Decimal.{decimal}
use transparent_tor_proxy.Base.Dict.{lookup, insert}

pub record Account : Type 0 where
  pub uid : ℕ
  pub gid : ℕ

-- The user database, with `str.isdigit` and `int`; `none` stands for a `KeyError` or a `ValueError`.
pub record Users : Type 0 where
  pub is_digits : String → Bool
  pub number : String → Option ℕ
  pub by_uid : ℕ → Option Account
  pub by_name : String → Option Account

-- What loginctl answers: the fields of each line of the list; and for a session its properties in order,
-- where `none` stands for a run that fails or takes too long. The clock is read before each.
pub record Logins : Type 0 where
  pub listed : Option (List (List String))
  pub start : ℕ
  pub five_seconds : ℕ
  pub now : ℕ → ℕ
  pub is_alphanumeric : String → Bool
  pub show : String → Option (List (String × String))
  pub has_busctl : Bool

pub record Target : Type 0 where
  pub uid : ℕ
  pub gid : ℕ
  pub login_session : String

infixl 5 ◌>>=◌
unfoldable pub ◌>>=◌ : {A B : Type 0} → Option A → (A → Option B) → Option B
none >>= f = none
some a >>= f = f a

abbrev pub demand : Bool → Option (Unit {0})
demand b = if b then some tt else none

-- `explicit or os.environ.get("SUDO_UID")`, where an empty text is no choice.
abbrev pub not_empty : Option String → Option String
not_empty none = none
not_empty (some s) = if non_empty s then some s else none

abbrev pub selected : Option String → Option String → Option String
selected explicit sudo_uid = elim (not_empty explicit) [
  | some s ↦ some s
  | none ↦ not_empty sudo_uid
]

abbrev pub account_of : Users → String → Option Account
account_of users name =
    if users.is_digits name then users.number name >>= users.by_uid else users.by_name name

-- `dict(...)`: of two values for a key the later one stays.
abbrev pub dict_of : List (String × String) → List (String × String) → List (String × String)
dict_of d [] = d
dict_of d ((k, v) ∷ items) = dict_of (insert k v d) items

abbrev pub has : String → List String → List (String × String) → Bool
has key values d = elim (lookup key d) [ none ↦ false | some v ↦ contains v values ]

-- The tests on a session's properties.
unfoldable pub is_graphical : ℕ → List (String × String) → Bool
is_graphical uid items =
    let d = dict_of [] items in
    has "User" (decimal uid ∷ []) d
    && has "Remote" ("no" ∷ []) d
    && has "Type" ("x11" ∷ "wayland" ∷ []) d
    && has "State" ("active" ∷ "online" ∷ []) d
    && has "Class" ("user" ∷ []) d

module _ (logins : Logins) (uid : ℕ) where
  -- One session of the list.
  abbrev pub inspect : String → List String → Option (List String)
  inspect identifier candidates = do
    items ← logins.show identifier
    some (if is_graphical uid items then candidates ++ (identifier ∷ []) else candidates)

  abbrev pub is_late : ℕ → Bool
  is_late i = leb (logins.start + logins.five_seconds) (logins.now i)

  -- The loop over the lines; `i` counts the lines with fields.
  unfoldable pub collect : ℕ → List (List String) → List String → Option (List String)
  collect i [] candidates = some candidates
  collect i ([] ∷ lines) candidates = collect i lines candidates
  collect i ((identifier ∷ fields) ∷ lines) candidates = do
    _ ← demand (not (is_late i))
    _ ← demand (logins.is_alphanumeric identifier)
    more ← inspect identifier candidates
    collect (i + 1) lines more

abbrev pub sole : List String → Option String
sole (s ∷ []) = some s
sole _ = none

-- `recipient`; `none` stands for an exception.
unfoldable pub recipient : Users → Logins → Option String → Option String → Option Target
unfolding collect
recipient users logins explicit sudo_uid = do
  name ← selected explicit sudo_uid
  account ← account_of users name
  _ ← demand (ltb 0 account.uid)
  lines ← logins.listed
  candidates ← collect logins account.uid 0 lines []
  login_session ← sole candidates
  _ ← demand logins.has_busctl
  some (record { uid = account.uid; gid = account.gid; login_session = login_session })

-- The sessions of a list.
abbrev pub identifiers : List (List String) → List String
identifiers [] = []
identifiers ([] ∷ lines) = identifiers lines
identifiers ((identifier ∷ fields) ∷ lines) = identifier ∷ identifiers lines

-- A session that loginctl describes as a local graphical one of the user.
abbrev pub is_local : Logins → ℕ → String → Bool
is_local logins uid identifier = elim (logins.show identifier) [
  | none ↦ false
  | some items ↦ is_graphical uid items
]

abbrev Returns : {A : Type 0} → (A → Type 0) → Option A → Type 0
Returns P none = Unit
Returns P (some a) = P a

bind-Returns :
    {A B : Type 0} (Q : A → Type 0) (P : B → Type 0) (m : Option A) (f : A → Option B)
    → Returns Q m
    → ((a : A) → Q a → Returns P (f a))
    → Returns P (m >>= f)
unfolding ◌>>=◌
bind-Returns Q P none f h k = tt
bind-Returns Q P (some a) f h k = k a h

demand-Returns : (b : Bool) → Returns (λ u. b ≡ true) (demand b)
demand-Returns true = refl
demand-Returns false = tt

itself : {A : Type 0} (o : Option A) → Returns (λ a. o ≡ some a) o
itself none = tt
itself (some a) = refl

keep-some :
    (logins : Logins) (uid : ℕ) (identifier : String) (items : List (String × String))
    (candidates rest : List String)
    → logins.show identifier ≡ some items
    → (if is_graphical uid items then candidates ++ (identifier ∷ []) else candidates) ++ rest
      ≡ candidates
        ++ (elim (is_local logins uid identifier) [ true ↦ identifier ∷ rest | false ↦ rest ])
keep-some logins uid identifier items candidates rest h =
    elim (Bool-cases (is_graphical uid items)) [
      | inl e ↦ rw (h, e) (append_assoc candidates (identifier ∷ []) rest)
      | inr e ↦ rw (h, e) refl
    ]

inspect-Returns :
    (logins : Logins) (uid : ℕ) (identifier : String) (candidates rest : List String)
    → Returns
        (λ more.
          more ++ rest
          ≡ candidates
            ++ (elim (is_local logins uid identifier) [ true ↦ identifier ∷ rest | false ↦ rest ]))
        (inspect logins uid identifier candidates)
inspect-Returns logins uid identifier candidates rest =
    bind-Returns _ _ _ _ (itself (logins.show identifier))
      λ items shown. keep-some logins uid identifier items candidates rest shown

collect-Returns :
    (logins : Logins) (uid i : ℕ) (lines : List (List String)) (candidates : List String)
    → Returns
        (λ found. found ≡ candidates ++ keep (is_local logins uid) (identifiers lines))
        (collect logins uid i lines candidates)
unfolding collect
collect-Returns logins uid i [] candidates = sym (append-nil candidates)
collect-Returns logins uid i ([] ∷ lines) candidates = collect-Returns logins uid i lines candidates
collect-Returns logins uid i ((identifier ∷ fields) ∷ lines) candidates =
    bind-Returns _ _ _ _ (demand-Returns (not (is_late logins uid i))) λ _ _.
      bind-Returns _ _ _ _ (demand-Returns (logins.is_alphanumeric identifier)) λ _ _.
        bind-Returns
          (λ (more : List String).
            more ++ keep (is_local logins uid) (identifiers lines)
            ≡ candidates ++ keep (is_local logins uid) (identifier ∷ identifiers lines))
          _ (inspect logins uid identifier candidates) _
          (inspect-Returns logins uid identifier candidates
            (keep (is_local logins uid) (identifiers lines)))
          λ more found.
            Returns-then more found (collect logins uid (i + 1) lines more)
              (collect-Returns logins uid (i + 1) lines more)
  where
    Returns-then :
        (more : List String)
        → more ++ keep (is_local logins uid) (identifiers lines)
          ≡ candidates ++ keep (is_local logins uid) (identifier ∷ identifiers lines)
        → (o : Option (List String))
        → Returns (λ found. found ≡ more ++ keep (is_local logins uid) (identifiers lines)) o
        → Returns
            (λ found.
              found ≡ candidates ++ keep (is_local logins uid) (identifier ∷ identifiers lines))
            o
    Returns-then more found none h = tt
    Returns-then more found (some l) h = h ∙ found

-- The target is the account that was chosen, which is not root's, and its only local graphical session.
abbrev pub IsTarget : Users → Logins → Option String → Option String → Target → Type 0
IsTarget users logins explicit sudo_uid r =
    (name : String) × (account : Account) × (lines : List (List String)) × (selected explicit
        sudo_uid
      ≡ some name)
    × (account_of users name ≡ some account)
    × (logins.listed ≡ some lines)
    × (0 < account.uid)
    × (r.uid ≡ account.uid)
    × (r.gid ≡ account.gid)
    × (keep (is_local logins account.uid) (identifiers lines) ≡ r.login_session ∷ [])

returned : {A : Type 0} (P : A → Type 0) (o : Option A) (a : A) → o ≡ some a → Returns P o → P a
returned P none a h k = absurd (ground (arith, h))
returned P (some b) a h k = let same : b ≡ a = cc in rw (← same) k

sole-Returns : (l : List String) → Returns (λ s. l ≡ s ∷ []) (sole l)
sole-Returns [] = tt
sole-Returns (s ∷ []) = refl
sole-Returns (s ∷ t ∷ l) = tt

recipient-Returns :
    (users : Users) (logins : Logins) (explicit sudo_uid : Option String)
    → Returns (IsTarget users logins explicit sudo_uid) (recipient users logins explicit sudo_uid)
unfolding recipient
recipient-Returns users logins explicit sudo_uid =
    bind-Returns _ _ _ _ (itself (selected explicit sudo_uid)) λ name chosen.
      bind-Returns _ _ _ _ (itself (account_of users name)) λ account found.
        bind-Returns _ _ _ _ (demand-Returns (ltb 0 account.uid)) λ _ positive.
          bind-Returns _ _ _ _ (itself logins.listed) λ lines listed.
            bind-Returns _ _ _ _ (collect-Returns logins account.uid 0 lines [])
              λ candidates collected. bind-Returns _ _ _ _ (sole-Returns candidates) λ s one.
                bind-Returns _ _ _ _ (demand-Returns logins.has_busctl) λ _ _. (
                  name,
                  account,
                  lines,
                  chosen,
                  found,
                  listed,
                  ground (arith, positive),
                  refl,
                  refl,
                  sym collected ∙ one,
                )

-- The recipient that is returned is the account that the command line or else SUDO_UID names, which is
-- not root's; and of all listed login sessions exactly one is described as a local graphical one of that
-- account, the one that is returned.
pub recipient-IsTarget :
    (users : Users) (logins : Logins) (explicit sudo_uid : Option String) (r : Target)
    → recipient users logins explicit sudo_uid ≡ some r
    → IsTarget users logins explicit sudo_uid r
recipient-IsTarget users logins explicit sudo_uid r h =
    returned (IsTarget users logins explicit sudo_uid) (recipient users logins explicit sudo_uid) r
      h (recipient-Returns users logins explicit sudo_uid)
