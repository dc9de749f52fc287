-- ===== src/Records/Tests.antt =====
-- Records and waits on which the theorems about ttp/runtime_records.py are tried.
use transparent_tor_proxy.Base.{
  ◌+◌, ◌≡◌, ◌≤◌, refl, inl, true, false, String, none, some, [], ◌∷◌, arith, length,
  string_discrete,
}
use transparent_tor_proxy.Base.Dict.{lookup, insert}
use transparent_tor_proxy.Base.Int.{pos}
use transparent_tor_proxy.Base.Json.{obj, str, Fields, end, field, get_field}
use transparent_tor_proxy.Evidence.{finite}
use transparent_tor_proxy.Records.{
  Library, file, Directory, opened, Contents, Store, Faults, boot_id, value, read, write,
  payload_of, filename, inspect, read_file, ◌>>=◌,
}
use transparent_tor_proxy.Records.Transition.{
  Outside, LockFile, Waiting, transition, wait, timed_out, sum, transition-Ends, IsOver,
}
use transparent_tor_proxy.Records.Trusted.{read-IsStored, IsStored}
use transparent_tor_proxy.Records.Roundtrip.{read-write}

abbrev seen : Fields
seen = field "value" (str "healthy") end

abbrev stored : Fields
stored = payload_of "s1" "b1" "12.5" seen

-- A library that knows one text.
abbrev library : Library
library = record {
  dumps = λ v. some (123 ∷ []);
  loads = λ text. some (obj stored);
  sha256 = λ s. s;
  uuid = λ s. some s;
  value_of = λ t. finite (pos 125);
}

abbrev root : Store
root = record { owner_uid = 990; euid = 0 }

abbrev works : Faults
works = record {
  creates = true;
  prepares = true;
  writes = true;
  renames = true;
  unlinks = true;
  left = record { regular = true; links = 1; uid = 0; mode = 384; bytes = [] };
}

abbrev empty : Directory
empty = opened (record { uid = 990; mode = 448; entries = [] })

abbrev after_write : Directory
after_write = opened (record {
  uid = 990;
  mode = 448;
  entries =
      (
        "watchdog.s1.json",
        file (record { regular = true; links = 1; uid = 990; mode = 384; bytes = 123 ∷ 10 ∷ [] }),
      )
      ∷ [];
})

written :
    write library works root ".x.tmp" "12.5" empty (some "b1") "watchdog" (some "s1") seen
    ≡ (after_write, true)
unfolding write filename insert string_discrete
written = refl

read-write_example :
    read library root after_write (some "b1") "watchdog" (some "s1") ≡ some (some stored)
read-write_example =
    read-write library works root ".x.tmp" "12.5" empty after_write (some "b1") "b1" "watchdog" "s1"
      seen 125 (λ text e. refl) (λ s u e. refl) (inl refl) refl refl written

read_back : read library root after_write (some "b1") "watchdog" (some "s1") ≡ some (some stored)
unfolding read filename read_file inspect lookup get_field string_discrete ◌>>=◌
read_back = refl

-- Another session has no record, and after a boot the record does not count.
read_other : read library root after_write (some "b1") "watchdog" (some "s2") ≡ some none
unfolding read filename read_file inspect lookup get_field string_discrete ◌>>=◌
read_other = refl

read_boot : read library root after_write (some "b2") "watchdog" (some "s1") ≡ some none
unfolding read filename read_file inspect lookup get_field string_discrete ◌>>=◌
read_boot = refl

read_unknown : read library root after_write (some "b1") "passwd" (some "s1") ≡ none
unfolding read filename string_discrete
read_unknown = refl

read-IsStored_example :
    (current f : String) × (boot_id library (some "b1") ≡ some current)
    × (filename library "watchdog" (some "s1") ≡ some f)
    × IsStored library root after_write "s1" current f stored
read-IsStored_example =
    read-IsStored library root after_write (some "b1") "watchdog" "s1" stored read_back

-- A clock in milliseconds, and a lock that is never free.
abbrev held : Outside
held = record { free = λ slept. false; now = λ slept. 1000 + sum slept }

abbrev lock_file : LockFile
lock_file = record { opens = true; regular = true; links = 1; adjusts = true }

abbrev contents : Contents
contents = record { uid = 990; mode = 448; entries = [] }

abbrev a_wait : Waiting
a_wait = transition held 50 1000 4 (finite (pos 120)) lock_file (value contents)

waited : a_wait ≡ record { outcome = timed_out; slept = 20 ∷ 50 ∷ 50 ∷ [] }
unfolding transition wait
waited = refl

transition-Ends_example :
    IsOver held 1120 a_wait.outcome a_wait.slept
    × (sum a_wait.slept ≤ 120)
    × (length a_wait.slept ≤ 3)
transition-Ends_example =
    transition-Ends held 50 1000 3 (finite (pos 120)) lock_file (value contents)
      (λ pause slept. omega arith) (omega arith) (omega arith) (omega arith)
