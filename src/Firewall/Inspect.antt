-- ===== src/Firewall/Inspect.antt =====
-- ttp/firewall/verification.py, `KernelCheck` and `inspect_emergency_rules`.
use transparent_tor_proxy.Base.{ℕ, Bool, true, false, String, ◌<>◌, ◌==◌, if◌then◌else◌}
use transparent_tor_proxy.Base.Decimal.{decimal}
use transparent_tor_proxy.Base.Json.{Value}
use transparent_tor_proxy.Evidence.{Diagnostic, emergency_verified, containment_unconfirmed}
use transparent_tor_proxy.Firewall.Contract.{matches_emergency_contract}

pub record KernelCheck : Type 0 where
  pub verified : Bool
  pub reason : String
  pub message : String

-- The property `KernelCheck.diagnostic`.
unfoldable pub diagnostic : KernelCheck → Diagnostic
diagnostic c = record {
  code = if c.verified then emergency_verified else containment_unconfirmed;
  reason = c.reason;
  component = "firewall";
  operation = "verify_emergency";
  message = c.message;
  active = true;
}

-- What a run of `nft -j list table inet ttp` ends in: an expired deadline, an `OSError` or
-- `UnsafeBinaryError` of a class, a status with output that is no JSON, or a status with a value.
pub data Reply : Type 0 where
  expired : Reply
  unusable : String → Reply
  garbled : ℕ → Reply
  answered : ℕ → Value → Reply

abbrev refused : String → String → KernelCheck
refused reason message = record { verified = false; reason = reason; message = message }

abbrev read_failed : ℕ → KernelCheck
read_failed status = refused "firewall.emergency_read_failed" ("nft exit=" <> decimal status)

unfoldable pub inspect_emergency_rules : Reply → KernelCheck
inspect_emergency_rules expired =
    refused "firewall.emergency_read_timeout" "Kernel rules inspection exceeded its deadline"
inspect_emergency_rules (unusable name) = refused "firewall.emergency_read_failed" name
inspect_emergency_rules (garbled status) =
    if status == 0
    then refused "firewall.emergency_reply_invalid" "nft returned invalid JSON"
    else read_failed status
inspect_emergency_rules (answered status payload) =
    if status == 0
    then (if matches_emergency_contract payload
        then record {
          verified = true;
          reason = "firewall.emergency_verified";
          message = "Emergency rules verified in the kernel";
        }
        else refused "firewall.emergency_rules_mismatch"
            "Kernel rules do not match the emergency contract")
    else read_failed status
