-- ===== src/Records/Trusted.antt =====
-- ttp/runtime_records.py, `read`: what a record that it returns has been tested for.
use transparent_tor_proxy.Base.{
  ℕ, ◌%◌, ◌≤◌, ◌≡◌, refl, inl, inr, Bool, true, false, ◌&&◌, not, String, if◌then◌else◌, Option,
  none, some, List, arith, length, ltb, str_eq, non_empty, is_some, Bool-cases, Option-cases,
}
use transparent_tor_proxy.Base.Dict.{lookup}
use transparent_tor_proxy.Base.Int.{ℤ, pos}
use transparent_tor_proxy.Base.Json.{Value, obj, int, Fields, get_field, as_str}
use transparent_tor_proxy.Records.{
  Library, File, file, Entry, Contents, Directory, opened, missing, unopened, Store, Ending, value,
  not_found, state_error, demand, or_error, max_record_bytes, boot_id, filename, safe_directory,
  directory, safe_file, open_entry, is_one, is_object, is_timestamp, inspect, read_file, caught,
  read, ◌>>=◌, as_object,
}

-- The payload has schema 1, data, the session and the boot that are asked for, and a time of writing.
abbrev pub IsFor : Library → String → String → Fields → Type 0
IsFor lib session boot payload =
    (get_field "schema" payload ≡ some (int (pos 1)))
    × ((fs : Fields) × (get_field "data" payload ≡ some (obj fs)))
    × (as_str (get_field "session_id" payload) ≡ some session)
    × (as_str (get_field "boot_id" payload) ≡ some boot)
    × (is_timestamp lib (get_field "written_at" payload) ≡ true)

-- If the part returns a record, `P` holds of it.
abbrev pub Returns : {A : Type 0} → (A → Type 0) → Ending A → Type 0
Returns P (value a) = P a
Returns P not_found = Unit
Returns P state_error = Unit

bind-Returns :
    {A B : Type 0} (Q : A → Type 0) (P : B → Type 0) (m : Ending A) (f : A → Ending B)
    → Returns Q m
    → ((a : A) → Q a → Returns P (f a))
    → Returns P (m >>= f)
unfolding ◌>>=◌
bind-Returns Q P (value a) f h k = k a h
bind-Returns Q P not_found f h k = tt
bind-Returns Q P state_error f h k = tt

demand-Returns : (b : Bool) → Returns (λ u. b ≡ true) (demand b)
demand-Returns true = refl
demand-Returns false = tt

or_error-Returns : {A : Type 0} (o : Option A) → Returns (λ a. o ≡ some a) (or_error o)
or_error-Returns none = tt
or_error-Returns (some a) = refl

as_object-Returns : (v : Value) → Returns (λ fs. v ≡ obj fs) (as_object v)
as_object-Returns Value.null = tt
as_object-Returns (Value.bool b) = tt
as_object-Returns (Value.int n) = tt
as_object-Returns (Value.float t) = tt
as_object-Returns (Value.str s) = tt
as_object-Returns (Value.arr s) = tt
as_object-Returns (obj fs) = refl

abbrev Given : (Fields → Type 0) → Option Fields → Type 0
Given P none = Unit
Given P (some p) = P p

abbrev chosen : Bool → Fields → Option Fields
chosen b p = if b then some p else none

Given-chosen :
    (P : Fields → Type 0) (b : Bool) (p : Fields) → (b ≡ true → P p) → Given P (chosen b p)
Given-chosen P true p h = h refl
Given-chosen P false p h = tt

one-int : (n : ℤ) → is_one (some (int n)) ≡ true → some (int n) ≡ some (int (pos 1))
one-int (pos n) h = ground (arith, h)
one-int (ℤ.negsuc n) h = ground (arith, h)

one-schema : (o : Option Value) → is_one o ≡ true → o ≡ some (int (pos 1))
one-schema none h = absurd (ground (arith, h))
one-schema (some (int n)) h = one-int n h
one-schema (some Value.null) h = absurd (ground (arith, h))
one-schema (some (Value.bool b)) h = absurd (ground (arith, h))
one-schema (some (Value.float t)) h = absurd (ground (arith, h))
one-schema (some (Value.str s)) h = absurd (ground (arith, h))
one-schema (some (Value.arr s)) h = absurd (ground (arith, h))
one-schema (some (obj fs)) h = absurd (ground (arith, h))

object-fields : (o : Option Value) → is_object o ≡ true → (fs : Fields) × (o ≡ some (obj fs))
object-fields none h = absurd (ground (arith, h))
object-fields (some (int n)) h = absurd (ground (arith, h))
object-fields (some Value.null) h = absurd (ground (arith, h))
object-fields (some (Value.bool b)) h = absurd (ground (arith, h))
object-fields (some (Value.float t)) h = absurd (ground (arith, h))
object-fields (some (Value.str s)) h = absurd (ground (arith, h))
object-fields (some (Value.arr s)) h = absurd (ground (arith, h))
object-fields (some (obj fs)) h = (fs, refl)

-- Of the directory and of a file in it.
abbrev pub IsPrivate : Store → Contents → File → Type 0
IsPrivate store d f =
    (d.uid ≡ store.owner_uid)
    × (d.mode ≡ 448)
    × (f.regular ≡ true)
    × (f.links ≡ 1)
    × (f.uid ≡ store.owner_uid)
    × (f.mode % 64 ≡ 0)

safe-IsPrivate :
    (store : Store) (d : Contents) (f : File)
    → safe_directory store d ≡ true
    → safe_file store f ≡ true
    → IsPrivate store d f
safe-IsPrivate store d f h k = ground (arith, h, k)

-- The content is not too long, and is the text of a payload for this session and boot.
abbrev pub IsContent : Library → String → String → List ℕ → Fields → Type 0
IsContent lib session boot content payload =
    (length content ≤ max_record_bytes)
    × (lib.loads content ≡ some (obj payload))
    × IsFor lib session boot payload

not_longer : (n : ℕ) → not (ltb max_record_bytes n) ≡ true → n ≤ max_record_bytes
not_longer n h = ground (arith, h)

inspect-IsContent :
    (lib : Library) (session boot : String) (content : List ℕ)
    → Returns (Given (IsContent lib session boot content)) (inspect lib session boot content)
unfolding inspect
inspect-IsContent lib session boot content =
    bind-Returns _ _ _ _ (demand-Returns (not (ltb max_record_bytes (length content)))) λ _ small.
      bind-Returns _ _ _ _ (or_error-Returns (lib.loads content)) λ loaded load.
        bind-Returns _ _ _ _ (as_object-Returns loaded) λ p object.
          bind-Returns _ _ _ _ (demand-Returns (is_one (get_field "schema" p))) λ _ one.
            bind-Returns _ _ _ _ (demand-Returns (is_object (get_field "data" p))) λ _ observed.
              bind-Returns _ _ _ _ (or_error-Returns (as_str (get_field "session_id" p)))
                λ owner owned. bind-Returns _ _ _ _ (demand-Returns (non_empty owner)) λ _ _.
                  bind-Returns _ _ _ _ (or_error-Returns (as_str (get_field "boot_id" p)))
                    λ b booted. bind-Returns _ _ _ _ (demand-Returns (is_some (lib.uuid b))) λ _ _.
                      bind-Returns _ _ _ _
                        (demand-Returns (is_timestamp lib (get_field "written_at" p)))
                        λ _ time.
                          Given-chosen (IsContent lib session boot content)
                            (str_eq owner session && str_eq b boot) p
                            λ same. (
                              not_longer (length content) small,
                              rw (← object) load,
                              (
                                one-schema _ one,
                                object-fields _ observed,
                                ground (arith, same, owned),
                                ground (arith, same, booted),
                                time,
                              ),
                            )

-- A file in the directory that passes the tests of ownership, type and permissions, with its content.
abbrev pub IsStored : Library → Store → Directory → String → String → String → Fields → Type 0
IsStored lib store dir session boot name payload =
    (d : Contents) × (f : File) × (dir ≡ opened d)
    × (lookup name d.entries ≡ some (file f))
    × IsPrivate store d f
    × IsContent lib session boot f.bytes payload

directory-Returns :
    (store : Store) (dir : Directory)
    → Returns (λ d. (dir ≡ opened d) × (safe_directory store d ≡ true)) (directory store dir)
directory-Returns store missing = tt
directory-Returns store unopened = tt
directory-Returns store (opened d) = elim (Bool-cases (safe_directory store d)) [
  | inl e ↦ rw e (refl, e)
  | inr e ↦ rw e tt
]

open_entry-Returns : (o : Option Entry) → Returns (λ f. o ≡ some (file f)) (open_entry o)
open_entry-Returns none = tt
open_entry-Returns (some Entry.unreadable) = tt
open_entry-Returns (some (file f)) = refl

Given-map :
    (P Q : Fields → Type 0) (o : Option Fields) → ((p : Fields) → P p → Q p) → Given P o → Given Q o
Given-map P Q none k h = tt
Given-map P Q (some p) k h = k p h

Returns-map :
    {A : Type 0} (P Q : A → Type 0) (e : Ending A)
    → ((a : A) → P a → Q a)
    → Returns P e
    → Returns Q e
Returns-map P Q (value a) k h = k a h
Returns-map P Q not_found k h = tt
Returns-map P Q state_error k h = tt

read_file-IsStored :
    (lib : Library) (store : Store) (dir : Directory) (boot session name : String)
    → Returns
        (Given (IsStored lib store dir session boot name))
        (read_file lib store dir boot session name)
unfolding read_file
read_file-IsStored lib store dir boot session name =
    bind-Returns _ _ _ _ (directory-Returns store dir) λ d found.
      bind-Returns _ _ _ _ (open_entry-Returns (lookup name d.entries)) λ f listed.
        bind-Returns _ _ _ _ (demand-Returns (safe_file store f)) λ _ safe.
          Returns-map _ _ (inspect lib session boot f.bytes)
            (λ o. Given-map _ _ o (λ p content.
              (d, f, found.0, listed, safe-IsPrivate store d f found.1 safe, content)))
            (inspect-IsContent lib session boot f.bytes)

caught-Returns :
    (P : Fields → Type 0) (e : Ending (Option Fields)) (p : Fields)
    → Returns (Given P) e
    → caught e ≡ some (some p)
    → P p
caught-Returns P (value (some q)) p h e = let same : q ≡ p = cc in rw (← same) h
caught-Returns P (value none) p h e = absurd (ground (arith, e))
caught-Returns P not_found p h e = absurd (ground (arith, e))
caught-Returns P state_error p h e = absurd (ground (arith, e))

-- A record that `read` returns for a session comes from a safe directory of the owner, from a regular
-- file with one link that the owner alone can use, whose name belongs to the kind of record and the
-- session; the content is within the size limit and is the text of a payload of schema 1 with data and a
-- time of writing, which names that session and the boot that runs now.
pub read-IsStored :
    (lib : Library) (store : Store) (dir : Directory) (boot : Option String) (name session : String)
    (payload : Fields)
    → read lib store dir boot name (some session) ≡ some (some payload)
    → (current f : String) × (boot_id lib boot ≡ some current)
      × (filename lib name (some session) ≡ some f)
      × IsStored lib store dir session current f payload
unfolding read
read-IsStored lib store dir boot name session payload h =
    elim (Option-cases (filename lib name (some session))) [
      | inl e ↦ absurd (ground (arith, h, e))
      | inr (f, named) ↦ elim (Option-cases (boot_id lib boot)) [
        | inl e ↦ absurd (ground (arith, h, e, named))
        | inr (current, booted) ↦ (
          current,
          f,
          booted,
          named,
          caught-Returns (IsStored lib store dir session current f)
              (read_file lib store dir current session f) payload
              (read_file-IsStored lib store dir current session f)
              (ground (arith, h, named, booted)),
        )
      ]
    ]
