-- ===== src/Evidence/Tests.antt =====
-- Results and observations on which the theorems about ttp/evidence.py are tried.
use transparent_tor_proxy.Base.{
  ◌≡◌, ◌≢◌, refl, ◌↔◌, ◌⊎◌, Bool, true, false, String, List, [], ◌∷◌, All, arith, string_discrete,
}
use transparent_tor_proxy.Base.Int.{pos, ◌≤ℤ◌, ◌<ℤ◌, ◌-ℤ◌}
use transparent_tor_proxy.Evidence.{
  ExitCode, ok, unverified, tor_negative, containment_unconfirmed, priority, Diagnostic, Result,
  exit_code, finite, Observation, is_current,
}
use transparent_tor_proxy.Evidence.Select.{Reports, is_session, NoMoreUrgent, exit_code-highest}
use transparent_tor_proxy.Evidence.Age.{is_current_iff}

abbrev of_code : ExitCode → Bool → Diagnostic
of_code c active = record {
  code = c;
  reason = "tor.check";
  component = "tor";
  operation = "verify";
  message = "";
  active = active;
}

abbrev two_active : Result
two_active = record {
  diagnostics =
      of_code unverified true
      ∷ of_code containment_unconfirmed false
      ∷ of_code tor_negative true
      ∷ [];
}

-- The same codes in another order, one of them twice.
abbrev other_order : Result
other_order = record {
  diagnostics =
      of_code tor_negative true ∷ of_code unverified true ∷ of_code tor_negative true ∷ [];
}

exit_code-two_active : exit_code two_active ≡ tor_negative
unfolding exit_code
exit_code-two_active = refl

exit_code-highest_example :
    NoMoreUrgent (priority (exit_code two_active)) two_active.diagnostics
    × (Reports (exit_code two_active) two_active.diagnostics
        ⊎ (exit_code two_active ≡ ok) × All (λ d. d.active ≡ false) two_active.diagnostics)
exit_code-highest_example = exit_code-highest two_active

abbrev added : List Diagnostic
added = of_code containment_unconfirmed true ∷ []

same-Reports : (c : ExitCode) → Reports c two_active.diagnostics ↔ Reports c other_order.diagnostics
same-Reports c = (λ h. ground arith, λ h. ground arith)

only_session : (c : ExitCode) → Reports c two_active.diagnostics → is_session c ≡ true
only_session c h = ground arith

abbrev seen_at_ten : Observation
seen_at_ten = record {
  value = "confirmed";
  session_id = "s";
  boot_id = "b";
  instance_id = "i";
  observed_at = finite (pos 10);
  reason = "";
}

abbrev Differ : String → String → Type 0
Differ s u = s ≢ u

is_current_iff_example :
    (is_current seen_at_ten "s" "b" "i" (finite (pos 12)) (finite (pos 5)) ≡ true) ↔ (
      Differ "s" ""
      × Differ "b" ""
      × Differ "i" ""
      × (seen_at_ten.session_id ≡ "s")
      × (seen_at_ten.boot_id ≡ "b")
      × (seen_at_ten.instance_id ≡ "i")
      × (pos 0 <ℤ pos 5)
      × (pos 10 ≤ℤ pos 12)
      × (pos 12 -ℤ pos 10 <ℤ pos 5))
is_current_iff_example = is_current_iff seen_at_ten "s" "b" "i" (pos 12) (pos 10) (pos 5) refl

is_current_seen : is_current seen_at_ten "s" "b" "i" (finite (pos 12)) (finite (pos 5)) ≡ true
unfolding is_current string_discrete ◌-ℤ◌
is_current_seen = refl
