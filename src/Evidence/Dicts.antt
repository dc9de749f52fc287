-- ===== src/Evidence/Dicts.antt =====
-- Diagnostics as JSON objects (`Diagnostic.as_dict`, `Diagnostic.from_dict`).
use transparent_tor_proxy.Base.{
  ℕ, zero, suc, ◌≡◌, ap, Bool, true, String, Option, none, some, arith, str_eq, string_discrete,
  if◌then◌else◌,
}
use transparent_tor_proxy.Base.Int.{ℤ, pos, negsuc}
use transparent_tor_proxy.Base.Json.{
  Value, bool, int, str, obj, end, field, get_key, as_str, as_int,
}
use transparent_tor_proxy.Evidence.{
  ExitCode, ok, error, usage, unverified, dnssec_conflict, watchdog_unavailable, tor_negative,
  emergency_verified, containment_unconfirmed, notification_failed, to_int, Diagnostic,
}

-- `ExitCode(value)`, which raises for a number that is no code.
unfoldable pub of_ℕ : ℕ → Option ExitCode
of_ℕ zero = some ok
of_ℕ (suc zero) = some error
of_ℕ (suc (suc zero)) = some usage
of_ℕ (suc (suc (suc zero))) = some unverified
of_ℕ (suc (suc (suc (suc zero)))) = some dnssec_conflict
of_ℕ (suc (suc (suc (suc (suc zero))))) = some watchdog_unavailable
of_ℕ (suc (suc (suc (suc (suc (suc zero)))))) = some tor_negative
of_ℕ (suc (suc (suc (suc (suc (suc (suc zero))))))) = some emergency_verified
of_ℕ (suc (suc (suc (suc (suc (suc (suc (suc zero)))))))) = some containment_unconfirmed
of_ℕ (suc (suc (suc (suc (suc (suc (suc (suc (suc zero))))))))) = some notification_failed
of_ℕ _ = none

of_ℤ : ℤ → Option ExitCode
unfolding of_ℕ
of_ℤ (pos n) = of_ℕ n
of_ℤ (negsuc n) = none

abbrev phase : String → String
phase operation =
    if str_eq operation "start"
    then "startup"
    else if str_eq operation "stop"
    then "teardown"
    else if str_eq operation "terminate"
    then "supervision"
    else if str_eq operation "supervise"
    then "supervision"
    else "session"

unfoldable pub as_dict : Diagnostic → Value
as_dict d = obj (
    field "code" (int (pos (to_int d.code))) (
      field "reason" (str d.reason) (
        field "component" (str d.component) (
          field "operation" (str d.operation) (
            field "message" (str d.message)
              (field "active" (bool d.active) (field "phase" (str (phase d.operation)) end)))))))

-- `value.get("active", True)`, where it must be a bool.
abbrev active_field : Option Value → Option Bool
active_field none = some true
active_field (some (bool b)) = some b
active_field (some _) = none

infixl 5 ◌>>=◌
abbrev ◌>>=◌ {ℓ κ} : {A : Type ℓ} {B : Type κ} → Option A → (A → Option B) → Option B
none >>= f = none
some a >>= f = f a

-- `none` stands for the `ValueError`.
unfoldable pub from_dict : Value → Option Diagnostic
unfolding of_ℤ
from_dict v = do
  n ← as_int (get_key "code" v)
  reason ← as_str (get_key "reason" v)
  component ← as_str (get_key "component" v)
  operation ← as_str (get_key "operation" v)
  message ← as_str (get_key "message" v)
  active ← active_field (get_key "active" v)
  code ← of_ℤ n
  some (record {
    code = code;
    reason = reason;
    component = component;
    operation = operation;
    message = message;
    active = active;
  })

of_ℕ-to_int : (c : ExitCode) → of_ℕ (to_int c) ≡ some c
unfolding of_ℕ
of_ℕ-to_int c = ground arith

-- Every diagnostic survives being published as JSON and read back, whatever texts it carries.
pub from_dict-as_dict : (d : Diagnostic) → from_dict (as_dict d) ≡ some d
unfolding from_dict as_dict get_key string_discrete
from_dict-as_dict d = rw (of_ℕ-to_int d.code)

of_ℕ-eq-some : (n : ℕ) (c : ExitCode) → of_ℕ n ≡ some c → n ≡ to_int c
unfolding of_ℕ
of_ℕ-eq-some n c h = ground arith

of_ℤ-eq-some : (n : ℤ) (c : ExitCode) → of_ℤ n ≡ some c → n ≡ pos (to_int c)
unfolding of_ℤ
of_ℤ-eq-some (pos n) c h = ap pos (of_ℕ-eq-some n c h)
of_ℤ-eq-some (negsuc n) c h = cc

-- A value that is read as a diagnostic has an integer code of the table, and text in the four
-- fields: nothing else is accepted.
pub from_dict-fields :
    (v : Value) (d : Diagnostic)
    → from_dict v ≡ some d
    → (get_key "code" v ≡ some (int (pos (to_int d.code))))
      × (get_key "reason" v ≡ some (str d.reason))
      × (get_key "component" v ≡ some (str d.component))
      × (get_key "operation" v ≡ some (str d.operation))
      × (get_key "message" v ≡ some (str d.message))
unfolding from_dict
from_dict-fields v d h = grind (arith, of_ℤ-eq-some)
