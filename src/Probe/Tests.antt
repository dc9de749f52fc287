-- ===== src/Probe/Tests.antt =====
-- Replies on which the verification of a session is tried.
use transparent_tor_proxy.Base.{
  ◌≡◌, refl, true, none, some, [], ◌∷◌, if◌then◌else◌, ◌==◌, string_discrete,
}
use transparent_tor_proxy.Base.Int.{pos}
use transparent_tor_proxy.Base.Json.{bool, str, end, field, get_field}
use transparent_tor_proxy.Evidence.{confirmed, finite, Verification}
use transparent_tor_proxy.Probe.{
  Answers, got, failed, issue, authority, inactive, attempts, attempt, visit_reflectors,
  verify_session,
}
use transparent_tor_proxy.Probe.Authority.{Rests, verify_session-Rests}

-- The authority fails in the first attempt, and confirms in the second.
abbrev answers : Answers
answers = record {
  timeout_fits = true;
  identity_issue = none;
  in_time = λ n url. true;
  fetch = λ n url.
      if n == 0
      then failed (issue "timeout" url)
      else got (field "IsTor" (bool true) (field "IP" (str "192.0.2.1") end));
  ip = λ v. some "192.0.2.1";
  now = finite (pos 7);
}

abbrev verified : Verification
verified = record {
  state = confirmed;
  reason = "probe.tor_confirmed";
  ip = some "192.0.2.1";
  observed_at = some (finite (pos 7));
  diagnostics =
      inactive (issue "timeout" authority)
      ∷ inactive (issue "timeout" "https://api.ipify.org?format=json")
      ∷ inactive (issue "timeout" "https://ifconfig.me/all.json")
      ∷ [];
}

second_confirms : verify_session answers ≡ some verified
unfolding verify_session attempts attempt visit_reflectors string_discrete get_field
second_confirms = refl

verify_session-Rests_example : Rests answers verified
verify_session-Rests_example = verify_session-Rests answers verified second_confirms
