-- ===== src/Base/Json.antt =====
-- The values that `json` reads and writes, and Python's access to them.
use Prim.Native.String.{String}
use mathlib.Core.Bool.{Bool, true, false}
use mathlib.Core.Path.{◌≡◌, refl}
use mathlib.Core.Option.{Option, none, some}
use native.Mathlib.Omega.{arith}
use transparent_tor_proxy.Base.Tests.{str_eq, if◌then◌else◌}
use transparent_tor_proxy.Base.Int.{ℤ}

mutual
  pub data Value : Type 0 where
    null : Value
    bool : Bool → Value
    int : ℤ → Value
    -- A number with a fraction or an exponent, by its text: the program only tests that it is one.
    float : String → Value
    str : String → Value
    obj : Fields → Value
    arr : Items → Value

  pub data Fields : Type 0 where
    end : Fields
    field : String → Value → Fields → Fields

  pub data Items : Type 0 where
    nil : Items
    cons : Value → Items → Items

-- `d.get(key)` on a dict; `none` stands for a key that is not there.
unfoldable pub get_field : String → Fields → Option Value
get_field k end = none
get_field k (field j v fs) = if str_eq j k then some v else get_field k fs

-- `d[key] = value`, which keeps the place of a key that is there.
unfoldable pub set_field : String → Value → Fields → Fields
set_field k v end = field k v end
set_field k v (field j w fs) = if str_eq j k then field j v fs else field j w (set_field k v fs)

-- `value.get(key)` on a value that must be a dict; any other value has no key.
unfoldable pub get_key : String → Value → Option Value
unfolding get_field
get_key k (obj fs) = get_field k fs
get_key k _ = none

abbrev pub as_str : Option Value → Option String
as_str (some (str s)) = some s
as_str _ = none

abbrev pub as_bool : Option Value → Option Bool
as_bool (some (bool b)) = some b
as_bool _ = none

-- `type(value) is int`, which a bool is not.
abbrev pub as_int : Option Value → Option ℤ
as_int (some (int n)) = some n
as_int _ = none

-- Python's truth value, but for the float 0.0, which counts as true here: a float is kept as its text.
abbrev pub truthy : Option Value → Bool
truthy none = false
truthy (some null) = false
truthy (some (bool b)) = b
truthy (some (int (ℤ.pos Prim.Native.Nat.ℕ.zero))) = false
truthy (some (int _)) = true
truthy (some (float s)) = true
truthy (some (str String.[])) = false
truthy (some (str _)) = true
truthy (some (arr nil)) = false
truthy (some (arr _)) = true
truthy (some (obj end)) = false
truthy (some (obj _)) = true

pub get_field-set_field :
    (k j : String) (v : Value) (fs : Fields)
    → get_field j (set_field k v fs) ≡ (if str_eq k j then some v else get_field j fs)
unfolding get_field set_field
get_field-set_field k j v end = refl
get_field-set_field k j v (field i w fs) = ground (arith, get_field-set_field k j v fs)
