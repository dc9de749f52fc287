-- ===== src/Records/Roundtrip.antt =====
-- ttp/runtime_records.py: `write` and then `read`, and the records that a `write` does not touch.
use transparent_tor_proxy.Base.{
  ℕ, ◌≡◌, ap, sym, ◌∙◌, ◌⊎◌, inl, inr, refl, true, false, String, Option, none, some, List, [], ◌∷◌,
  ◌++◌, arith, length, ltb, if◌then◌else◌, non_empty, Bool-cases, Option-cases, str_eq_refl,
  string_discrete,
}
use transparent_tor_proxy.Base.Dict.{lookup, insert, lookup-insert}
use transparent_tor_proxy.Base.Int.{pos}
use transparent_tor_proxy.Base.Json.{Value, int, str, float, obj, Fields, get_field}
use transparent_tor_proxy.Evidence.{finite}
use transparent_tor_proxy.Records.{
  Library, file, Contents, Directory, opened, missing, unopened, Store, Faults, Ending, value,
  not_found, state_error, max_record_bytes, boot_id, filename, safe_directory, directory, safe_file,
  inspect, read_file, read, write, ◌>>=◌, payload_of, limited, ended, new_file, store_in, encode,
}

-- Where `json.loads` reads back what `json.dumps` wrote of a value, with the line end that is added.
abbrev pub ReadsBack : Library → Value → Type 0
ReadsBack lib v = (text : List ℕ) → lib.dumps v ≡ some text → lib.loads (text ++ (10 ∷ [])) ≡ some v

-- Where the text of a UUID is that of a UUID.
abbrev pub IsCanonical : Library → Type 0
IsCanonical lib = (s u : String) → lib.uuid s ≡ some u → lib.uuid u ≡ some u

-- `content` is the text of `payload`.
abbrev Encodes : Library → Fields → List ℕ → Type 0
Encodes lib payload content =
    (ltb max_record_bytes (length content) ≡ false) × (lib.loads content ≡ some (obj payload))

limited-some :
    (content c : List ℕ)
    → limited content ≡ some c
    → (ltb max_record_bytes (length content) ≡ false) × (content ≡ c)
limited-some content c h = elim (Bool-cases (ltb max_record_bytes (length content))) [
  | inl e ↦ absurd (ground (arith, h, e))
  | inr e ↦ (e, ground (arith, h, e))
]

ended-Encodes :
    (lib : Library) (payload : Fields) (content : List ℕ) (o : Option (List ℕ))
    → ReadsBack lib (obj payload)
    → lib.dumps (obj payload) ≡ o
    → ended o ≡ some content
    → Encodes lib payload content
ended-Encodes lib payload content none back e h = absurd (ground (arith, h))
ended-Encodes lib payload content (some text) back e h =
    let both = limited-some (text ++ (10 ∷ [])) content h in
    (rw (← both.1) (both.0), rw (← both.1) (back text e))

module _ (session boot written_at : String) (fields : Fields) where
  abbrev payload : Fields
  payload = payload_of session boot written_at fields

  schema : get_field "schema" payload ≡ some (int (pos 1))
  unfolding get_field string_discrete
  schema = refl

  owner : get_field "session_id" payload ≡ some (str session)
  unfolding get_field string_discrete
  owner = refl

  booted : get_field "boot_id" payload ≡ some (str boot)
  unfolding get_field string_discrete
  booted = refl

  written : get_field "written_at" payload ≡ some (float written_at)
  unfolding get_field string_discrete
  written = refl

  observed : get_field "data" payload ≡ some (obj fields)
  unfolding get_field string_discrete
  observed = refl

inspect-payload :
    (lib : Library) (session boot written_at : String) (fields : Fields) (content : List ℕ) (n : ℕ)
    → non_empty session ≡ true
    → lib.uuid boot ≡ some boot
    → lib.value_of written_at ≡ finite (pos n)
    → Encodes lib (payload_of session boot written_at fields) content
    → inspect lib session boot content ≡ value (some (payload_of session boot written_at fields))
unfolding inspect ◌>>=◌
inspect-payload lib session boot written_at fields content n named canonical time encoded = ground (
  arith,
  encoded,
  schema session boot written_at fields,
  owner session boot written_at fields,
  booted session boot written_at fields,
  written session boot written_at fields,
  observed session boot written_at fields,
  named,
  canonical,
  time,
  str_eq_refl session,
  str_eq_refl boot,
)

-- What a `write` that returns has done.
record Done (lib : Library) (store : Store) (written_at : String) (boot : Option String)
    (name session : String) (fields : Fields) (before after : Directory) : Type 0 where
  name_of : String
  current : String
  content : List ℕ
  contents : Contents
  named : filename lib name (some session) ≡ some name_of
  running : boot_id lib boot ≡ some current
  encoded : encode lib (payload_of session current written_at fields) ≡ some content
  safe : directory store before ≡ value contents
  stored :
      after
      ≡ opened (record contents {
        entries = insert name_of (file (new_file store content)) contents.entries;
      })

abbrev stored_contents : Store → String → List ℕ → Contents → Contents
stored_contents store name content d = record d {
  entries = insert name (file (new_file store content)) d.entries;
}

store_in-done :
    (faults : Faults) (store : Store) (temporary name : String) (content : List ℕ)
    (dir after : Directory) (e : Ending Contents)
    → store_in faults store temporary name content dir e ≡ (after, true)
    → (d : Contents) × (e ≡ value d) × (after ≡ opened (stored_contents store name content d))
store_in-done faults store temporary name content dir after (value d) h =
    (d, refl, ground (arith, h))
store_in-done faults store temporary name content dir after not_found h = absurd (ground (arith, h))
store_in-done faults store temporary name content dir after state_error h =
    absurd (ground (arith, h))

write-Done :
    (lib : Library) (faults : Faults) (store : Store) (temporary written_at : String)
    (dir after : Directory) (boot : Option String) (name session : String) (fields : Fields)
    → write lib faults store temporary written_at dir boot name (some session) fields
      ≡ (after, true)
    → Done lib store written_at boot name session fields dir after
unfolding write
write-Done lib faults store temporary written_at dir after boot name session fields h =
    elim (Option-cases (filename lib name (some session))) [
      | inl e ↦ absurd (ground (arith, h, e))
      | inr (f, named) ↦ elim (Option-cases (boot_id lib boot)) [
        | inl e ↦ absurd (ground (arith, h, e, named))
        | inr (current, running) ↦
            elim (Option-cases (encode lib (payload_of session current written_at fields))) [
              | inl e ↦ absurd (ground (arith, h, e, named, running))
              | inr (content, encoded) ↦
                  let put =
                    store_in-done faults store temporary f content dir after (directory store dir)
                      (ground (arith, h, encoded, named, running)) in
                  record {
                    name_of = f;
                    current = current;
                    content = content;
                    contents = put.0;
                    named = named;
                    running = running;
                    encoded = encoded;
                    safe = put.1;
                    stored = put.2;
                  }
            ]
      ]
    ]

filename-non_empty :
    (lib : Library) (name session f : String)
    → filename lib name (some session) ≡ some f
    → non_empty session ≡ true
unfolding filename
filename-non_empty lib name session f h = ground (arith, h)

boot_id-uuid :
    (lib : Library) (boot : Option String) (current : String)
    → IsCanonical lib
    → boot_id lib boot ≡ some current
    → lib.uuid current ≡ some current
boot_id-uuid lib none current canonical h = absurd (ground (arith, h))
boot_id-uuid lib (some text) current canonical h = canonical text current h

directory-safe :
    (store : Store) (dir : Directory) (d : Contents)
    → directory store dir ≡ value d
    → (dir ≡ opened d) × (safe_directory store d ≡ true)
directory-safe store missing d h = absurd (ground (arith, h))
directory-safe store unopened d h = absurd (ground (arith, h))
directory-safe store (opened c) d h = elim (Bool-cases (safe_directory store c)) [
  | inl e ↦ let same : c ≡ d = ground (arith, h, e) in (ap opened same, rw (← same) e)
  | inr e ↦ absurd (ground (arith, h, e))
]

new_file-safe :
    (store : Store) (content : List ℕ)
    → (store.euid ≡ 0) ⊎ (store.euid ≡ store.owner_uid)
    → safe_file store (new_file store content) ≡ true
new_file-safe store content h = ground (arith, h)

read_file-stored :
    (lib : Library) (store : Store) (current session f : String) (content : List ℕ) (d : Contents)
    (p : Fields)
    → safe_directory store d ≡ true
    → safe_file store (new_file store content) ≡ true
    → inspect lib session current content ≡ value (some p)
    → read_file lib store (opened (stored_contents store f content d)) current session f
      ≡ value (some p)
unfolding read_file ◌>>=◌
read_file-stored lib store current session f content d p safe private_file inspected =
    let found : lookup f (insert f (file (new_file store content)) d.entries)
        ≡ some (file (new_file store content)) =
      lookup-insert f f (file (new_file store content)) d.entries
      ∙ ap (λ b. if b then some (file (new_file store content)) else lookup f d.entries)
          (str_eq_refl f) in
    rw (safe, found, private_file, inspected) refl

read-found :
    (lib : Library) (store : Store) (dir after : Directory) (boot : Option String)
    (name session f current : String) (p : Fields)
    → filename lib name (some session) ≡ some f
    → boot_id lib boot ≡ some current
    → after ≡ dir
    → read_file lib store dir current session f ≡ value (some p)
    → read lib store after boot name (some session) ≡ some (some p)
unfolding read
read-found lib store dir after boot name session f current p named running same got =
    ground (arith, same, named, running, got)

-- What `write` has stored for a session is what `read` returns for it, in the same boot: schema 1, the
-- session, the boot, the time of writing and the data. The program runs as root or as the owner of the
-- directory; the clock's reading is a finite number that is not negative; `json` reads back what it
-- wrote of this payload; and the text of a UUID is that of a UUID.
pub read-write :
    (lib : Library) (faults : Faults) (store : Store) (temporary written_at : String)
    (dir after : Directory) (boot : Option String) (current name session : String) (fields : Fields)
    (n : ℕ)
    → ReadsBack lib (obj (payload_of session current written_at fields))
    → IsCanonical lib
    → (store.euid ≡ 0) ⊎ (store.euid ≡ store.owner_uid)
    → lib.value_of written_at ≡ finite (pos n)
    → boot_id lib boot ≡ some current
    → write lib faults store temporary written_at dir boot name (some session) fields
      ≡ (after, true)
    → read lib store after boot name (some session)
      ≡ some (some (payload_of session current written_at fields))
read-write lib faults store temporary written_at dir after boot current name session fields n back
      canonical user time running h =
    let w = write-Done lib faults store temporary written_at dir after boot name session fields h in
    let same : w.current ≡ current = ground (arith, running, w.running) in
    let encoded =
      ended-Encodes lib (payload_of session current written_at fields) w.content
        (lib.dumps (obj (payload_of session current written_at fields))) back refl
        (ap (λ b. encode lib (payload_of session b written_at fields)) (sym same) ∙ w.encoded) in
    let inspected =
      inspect-payload lib session current written_at fields w.content n
        (filename-non_empty lib name session w.name_of w.named)
        (boot_id-uuid lib boot current canonical running) time encoded in
    let got =
      read_file-stored lib store current session w.name_of w.content w.contents
        (payload_of session current written_at fields)
        ((directory-safe store dir w.contents w.safe).1) (new_file-safe store w.content user)
        inspected in
    read-found lib store _ after boot name session w.name_of current
      (payload_of session current written_at fields) w.named running w.stored got
