-- ===== src/Records.antt =====
-- ttp/runtime_records.py: the private directory of observations, and how a record is written and read
-- back. The operating system, `json`, `hashlib` and `uuid` are not part of the program.
pub mod Transition
pub mod Trusted
pub mod Roundtrip
mod Tests
use transparent_tor_proxy.Base.{
  ℕ, ◌%◌, Bool, true, false, not, ◌&&◌, ◌||◌, String, ◌<>◌, Option, none, some, List, ◌++◌, [], ◌∷◌,
  str_eq, ltb, ◌==◌, non_empty, is_some, contains, length, if◌then◌else◌,
}
use transparent_tor_proxy.Base.Dict.{lookup, insert}
use transparent_tor_proxy.Base.Int.{pos, leb_ℤ}
use transparent_tor_proxy.Base.Json.{
  Value, null, bool, int, float, str, obj, arr, Fields, end, field, get_field, as_str,
}
use transparent_tor_proxy.Evidence.{Instant, finite, not_finite}
use transparent_tor_proxy.Session.World.{identity}

-- What the standard library does: `json.dumps(..., allow_nan=False)` with its encoding and
-- `json.loads`, where `none` stands for a `ValueError` or a `TypeError`; `sha256(...).hexdigest()`;
-- `str(uuid.UUID(...))`; and the value of the text of a float.
pub record Library : Type 0 where
  pub dumps : Value → Option (List ℕ)
  pub loads : List ℕ → Option Value
  pub sha256 : String → String
  pub uuid : String → Option String
  pub value_of : String → Instant

-- A file as `os.fstat` and a read show it.
pub record File : Type 0 where
  pub regular : Bool
  pub links : ℕ
  pub uid : ℕ
  pub mode : ℕ
  pub bytes : List ℕ

-- A name in the directory: a file, or one whose opening or reading raises an `OSError`.
pub data Entry : Type 0 where
  file : File → Entry
  unreadable : Entry

pub record Contents : Type 0 where
  pub uid : ℕ
  pub mode : ℕ
  pub entries : List (String × Entry)

-- What opening the directory gives.
pub data Directory : Type 0 where
  missing unopened : Directory
  opened : Contents → Directory

-- `RecordStore`, and the user that the program runs as.
pub record Store : Type 0 where
  pub owner_uid : ℕ
  pub euid : ℕ

-- How a part ends: with a value, a `FileNotFoundError`, another error that becomes a `StateError`, or a
-- `StateError`.
pub data Ending (A : Type 0) : Type 0 where
  value : A → Ending A
  not_found : Ending A
  state_error : Ending A

infixl 5 ◌>>=◌
unfoldable pub ◌>>=◌ : {A B : Type 0} → Ending A → (A → Ending B) → Ending B
value a >>= f = f a
not_found >>= f = not_found
state_error >>= f = state_error

abbrev pub or_error : {A : Type 0} → Option A → Ending A
or_error none = state_error
or_error (some a) = value a

abbrev pub demand : Bool → Ending (Unit {0})
demand b = if b then value tt else state_error

abbrev pub max_record_bytes : ℕ
max_record_bytes = 65536

abbrev pub names : List String
names = "emergency" ∷ "watchdog" ∷ "verification" ∷ "notifications" ∷ []

-- `boot_id`, over the text of its file, if that can be read.
abbrev pub boot_id : Library → Option String → Option String
boot_id lib none = none
boot_id lib (some text) = lib.uuid text

-- `_directory`
abbrev pub safe_directory : Store → Contents → Bool
safe_directory store d = (d.uid == store.owner_uid) && (d.mode == 448)

abbrev pub directory : Store → Directory → Ending Contents
directory store missing = not_found
directory store unopened = state_error
directory store (opened d) = if safe_directory store d then value d else state_error

-- `_filename`
abbrev pub file_of : Library → String → String → String
file_of lib name session = name <> ("." <> (lib.sha256 session <> ".json"))

unfoldable pub filename : Library → String → Option String → Option String
filename lib name session_id =
    if contains name names
    then (elim (identity session_id) [ none ↦ none | some s ↦ some (file_of lib name s) ])
    else none

-- `info.st_mode & 0o077` is the remainder by 64.
abbrev pub safe_file : Store → File → Bool
safe_file store f = f.regular && (f.links == 1) && (f.uid == store.owner_uid) && (f.mode % 64 == 0)

abbrev pub open_entry : Option Entry → Ending File
open_entry none = not_found
open_entry (some unreadable) = state_error
open_entry (some (file f)) = value f

abbrev pub is_one : Option Value → Bool
is_one (some (int n)) = leb_ℤ n (pos 1) && leb_ℤ (pos 1) n
is_one _ = false

abbrev pub is_object : Option Value → Bool
is_object (some (obj _)) = true
is_object _ = false

-- A finite number that is not negative; `bool` is not one here.
abbrev pub is_past : Instant → Bool
is_past not_finite = false
is_past (finite t) = leb_ℤ (pos 0) t

-- An integer that is too large for a float counts, where Python's `math.isfinite` raises.
abbrev pub is_timestamp : Library → Option Value → Bool
is_timestamp lib (some (int n)) = leb_ℤ (pos 0) n
is_timestamp lib (some (float t)) = is_past (lib.value_of t)
is_timestamp lib _ = false

abbrev pub as_object : Value → Ending Fields
as_object (obj fs) = value fs
as_object _ = state_error

abbrev pub text_in : String → Fields → Ending String
text_in key fs = or_error (as_str (get_field key fs))

-- The tests of `read` on the content; `value none` stands for its `None`.
unfoldable pub inspect : Library → String → String → List ℕ → Ending (Option Fields)
inspect lib session current_boot content = do
  _ ← demand (not (ltb max_record_bytes (length content)))
  loaded ← or_error (lib.loads content)
  payload ← as_object loaded
  _ ← demand (is_one (get_field "schema" payload))
  _ ← demand (is_object (get_field "data" payload))
  owner ← text_in "session_id" payload
  _ ← demand (non_empty owner)
  boot ← text_in "boot_id" payload
  _ ← demand (is_some (lib.uuid boot))
  _ ← demand (is_timestamp lib (get_field "written_at" payload))
  value (if str_eq owner session && str_eq boot current_boot then some payload else none)

-- `read` within its `try`
unfoldable pub read_file :
    Library → Store → Directory → String → String → String → Ending (Option Fields)
read_file lib store dir current_boot session name = do
  d ← directory store dir
  f ← open_entry (lookup name d.entries)
  _ ← demand (safe_file store f)
  inspect lib session current_boot f.bytes

abbrev pub caught : Ending (Option Fields) → Option (Option Fields)
caught (value p) = some p
caught not_found = some none
caught state_error = none

-- `read`; `none` stands for the `StateError`. `boot` is the text of the boot identity's file.
unfoldable pub read :
    Library → Store → Directory → Option String → String → Option String → Option (Option Fields)
read lib store dir boot name none = none
read lib store dir boot name (some session) = elim (filename lib name (some session)) [
  | none ↦ none
  | some f ↦ elim (boot_id lib boot) [
    | none ↦ none
    | some current ↦ caught (read_file lib store dir current session f)
  ]
]

-- What the operating system lets `write` do after the directory is open, and what the temporary file is
-- when a step has failed.
pub record Faults : Type 0 where
  pub creates : Bool
  pub prepares : Bool
  pub writes : Bool
  pub renames : Bool
  pub unlinks : Bool
  pub left : File

-- The payload of `write`.
abbrev pub payload_of : String → String → String → Fields → Fields
payload_of session boot written_at fields = field "schema" (int (pos 1)) (
    field "session_id" (str session) (
      field "boot_id" (str boot)
        (field "written_at" (float written_at) (field "data" (obj fields) end))))

-- The temporary file, once it holds the content.
abbrev pub new_file : Store → List ℕ → File
new_file store content = record {
  regular = true;
  links = 1;
  uid = if store.euid == 0 then store.owner_uid else store.euid;
  mode = 384;
  bytes = content;
}

-- What is left of the temporary file when a step fails.
abbrev pub abandoned : Faults → String → Contents → Contents
abandoned faults temporary d =
    if faults.unlinks
    then d
    else record d { entries = insert temporary (file faults.left) d.entries }

-- The entries after `os.rename` and whether `write` raises.
abbrev pub store_content : Faults → Store → String → String → List ℕ → Contents → Contents × Bool
store_content faults store temporary name content d =
    if not faults.creates
    then (d, false)
    else if faults.prepares && faults.writes && faults.renames
    then (record d { entries = insert name (file (new_file store content)) d.entries }, true)
    else (abandoned faults temporary d, false)

abbrev pub put_back : Contents × Bool → Directory × Bool
put_back (d, b) = (opened d, b)

abbrev pub store_in :
    Faults → Store → String → String → List ℕ → Directory → Ending Contents → Directory × Bool
store_in faults store temporary name content dir (value d) =
    put_back (store_content faults store temporary name content d)
store_in faults store temporary name content dir _ = (dir, false)

abbrev pub limited : List ℕ → Option (List ℕ)
limited content = if ltb max_record_bytes (length content) then none else some content

abbrev pub ended : Option (List ℕ) → Option (List ℕ)
ended none = none
ended (some text) = limited (text ++ (10 ∷ []))

-- `json.dumps(payload, allow_nan=False) + "\n"`, within the size limit.
abbrev pub encode : Library → Fields → Option (List ℕ)
encode lib payload = ended (lib.dumps (obj payload))

abbrev pub store_encoded :
    Faults → Store → String → String → Directory → Option (List ℕ) → Directory × Bool
store_encoded faults store temporary name dir none = (dir, false)
store_encoded faults store temporary name dir (some content) =
    store_in faults store temporary name content dir (directory store dir)

abbrev pub write_named :
    Library
    → Faults
    → Store
    → String
    → String
    → Directory
    → String
    → String
    → Option String
    → Fields
    → Directory × Bool
write_named lib faults store temporary written_at dir name session none fields = (dir, false)
write_named lib faults store temporary written_at dir name session (some boot) fields =
    store_encoded faults store temporary name dir
      (encode lib (payload_of session boot written_at fields))

-- `write`: the directory after it, and whether it returned, where `false` stands for the `StateError`.
-- `temporary` is the random name, `written_at` the text of `boottime()`.
unfoldable pub write :
    Library
    → Faults
    → Store
    → String
    → String
    → Directory
    → Option String
    → String
    → Option String
    → Fields
    → Directory × Bool
write lib faults store temporary written_at dir boot name none fields = (dir, false)
write lib faults store temporary written_at dir boot name (some session) fields =
    elim (filename lib name (some session)) [
      | none ↦ (dir, false)
      | some f ↦
          write_named lib faults store temporary written_at dir f session (boot_id lib boot) fields
    ]
