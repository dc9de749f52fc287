-- ===== src/Probe.antt =====
-- ttp/probe.py, `verify_session`: the attempts to ask the authority for a verdict. What the clock, the
-- worker and the identity check answer is an argument, and so is the standard library's `ipaddress`
-- behind `_ip`.
pub mod Authority
mod Tests
use transparent_tor_proxy.Base.{
  ℕ, zero, suc, ◌+◌, Bool, true, false, not, ◌&&◌, ◌||◌, String, ◌<>◌, Option, none, some, List, [],
  ◌∷◌, ◌++◌, map, str_eq, non_empty, if◌then◌else◌,
}
use transparent_tor_proxy.Base.Json.{Value, bool, Fields, get_field, truthy}
use transparent_tor_proxy.Evidence.{
  unverified, Diagnostic, VerificationState, confirmed, negative, inconclusive, Instant,
  Verification,
}

-- `_issue`
abbrev pub issue : String → String → Diagnostic
issue reason endpoint = record {
  code = unverified;
  reason = "probe." <> reason;
  component = "tor";
  operation = endpoint;
  message = reason;
  active = true;
}

-- What `_fetch` returns: the worker's object, or a diagnostic.
pub data Fetched : Type 0 where
  got : Fields → Fetched
  failed : Diagnostic → Fetched

-- `asked n url` is the visit to the endpoint in attempt `n`: whether time remains, and the reply.
pub record Answers : Type 0 where
  pub timeout_fits : Bool
  pub identity_issue : Option Diagnostic
  pub in_time : ℕ → String → Bool
  pub fetch : ℕ → String → Fetched
  pub ip : Option Value → Option String
  pub now : Instant

-- `ENDPOINTS` of ttp/netprobe.py: the first, and the others.
abbrev pub authority : String
authority = "https://check.torproject.org/api/ip"

abbrev pub reflectors : List String
reflectors = "https://api.ipify.org?format=json" ∷ "https://ifconfig.me/all.json" ∷ []

abbrev pub report :
    VerificationState → String → Option String → Instant → List Diagnostic → Verification
report state reason ip now ds = record {
  state = state;
  reason = reason;
  ip = ip;
  observed_at = some now;
  diagnostics = ds;
}

-- An attempt ends the verification, or goes on to the next with the failures and the last address.
pub data Step : Type 0 where
  ends : Verification → Step
  goes_on : List Diagnostic → Option String → Step

-- `replace(item, active=False)`
abbrev pub inactive : Diagnostic → Diagnostic
inactive d = record d { active = false }

-- The authority's verdict, with `_ip(data.get("IP"))`.
abbrev pub verdict : Option Value → Option String → Option (Bool × String)
verdict (some (bool b)) (some address) = some (b, address)
verdict _ _ = none

abbrev pub state_of : Bool → VerificationState
state_of true = confirmed
state_of false = negative

abbrev reason_of : Bool → String
reason_of true = "probe.tor_confirmed"
reason_of false = "probe.tor_negative"

abbrev is_final : String → Bool
is_final reason =
    str_eq reason "probe.execution_failed"
    || (str_eq reason "probe.worker_failed" || str_eq reason "probe.invalid_worker_reply")

-- `data.get("ip") or data.get("ip_addr")`
abbrev address_field : Fields → Option Value
address_field d = if truthy (get_field "ip" d) then get_field "ip" d else get_field "ip_addr" d

abbrev present : Option String → Option String
present none = none
present (some s) = if non_empty s then some s else none

module _ (a : Answers) where
  -- The loop over the reflectors.
  unfoldable pub visit_reflectors : ℕ → List String → List Diagnostic → Option String → Step
  visit_reflectors n [] fs ip = goes_on fs ip
  visit_reflectors n (url ∷ urls) fs ip = elim (a.in_time n url) [
    | false ↦
        ends (report inconclusive "probe.deadline" ip a.now (fs ++ issue "deadline" "verify" ∷ []))
    | true ↦ elim (a.fetch n url) [
      | failed e ↦
          if is_final e.reason
          then ends (report inconclusive e.reason ip a.now (fs ++ e ∷ []))
          else visit_reflectors n urls (fs ++ e ∷ []) ip
      | got d ↦ elim (present (a.ip (address_field d))) [
        | some address ↦ goes_on fs (some address)
        | none ↦ visit_reflectors n urls (fs ++ issue "reflector_response_invalid" url ∷ []) ip
      ]
    ]
  ]

  -- One attempt: the authority, and behind it the reflectors.
  unfoldable pub attempt : ℕ → List Diagnostic → Option String → Step
  unfolding visit_reflectors
  attempt n fs ip = elim (a.in_time n authority) [
    | false ↦
        ends (report inconclusive "probe.deadline" ip a.now (fs ++ issue "deadline" "verify" ∷ []))
    | true ↦ elim (a.fetch n authority) [
      | failed e ↦
          if is_final e.reason
          then ends (report inconclusive e.reason ip a.now (fs ++ e ∷ []))
          else visit_reflectors n reflectors (fs ++ e ∷ []) ip
      | got d ↦ elim (verdict (get_field "IsTor" d) (a.ip (get_field "IP" d))) [
        | some (b, address) ↦
            ends (report (state_of b) (reason_of b) (some address) a.now (map inactive fs))
        | none ↦
            visit_reflectors n reflectors (fs ++ issue "authority_response_invalid" authority ∷ [])
              ip
      ]
    ]
  ]

  -- The loop over the attempts: how many are left, and the number of the next.
  unfoldable pub attempts : ℕ → ℕ → List Diagnostic → Option String → Verification
  attempts zero n fs ip = report inconclusive "probe.no_authoritative_answer" ip a.now fs
  attempts (suc left) n fs ip = elim (attempt n fs ip) [
    | ends v ↦ v
    | goes_on gs address ↦ attempts left (n + 1) gs address
  ]

  -- `none` stands for the `ValueError` of a timeout out of range.
  unfoldable pub verify_session : Option Verification
  unfolding attempts attempt visit_reflectors
  verify_session = if not a.timeout_fits then none else elim a.identity_issue [
    | some d ↦ some (record {
      state = inconclusive;
      reason = d.reason;
      ip = none;
      observed_at = none;
      diagnostics = d ∷ [];
    })
    | none ↦ some (attempts 5 0 [] none)
  ]
