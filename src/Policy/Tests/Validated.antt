-- ===== src/Policy/Tests/Validated.antt =====
-- The theorems on the validation, at the bundle of the tests.
use you_tube_gradian_devin.Common.{text, true, false, some, [], ◌∷◌, ◌≡◌, ◌↔◌, ok}
use you_tube_gradian_devin.Policy.Bundle.{SignedPolicyBundle}
use you_tube_gradian_devin.Policy.Validation.{Checks, validate_bundle}
use you_tube_gradian_devin.Policy.Validation.Accepted.{IsSound, NamesIssues, validate_bundle_iff}
use you_tube_gradian_devin.Policy.Tests.{bundle}

-- A schema that takes every bundle.
abbrev checks : Checks SignedPolicyBundle
checks = record {
  version = λ value. some value.schema_version;
  conforms = λ value. some value;
  schema_issues = λ value. [];
  resolves = λ timezone. true;
  is_ip = λ domain. false;
  hard_categories = text "GAMBLING" ∷ [];
}

checks-NamesIssues : NamesIssues checks
checks-NamesIssues value h = cc

validate_bundle_iff_example : (validate_bundle checks bundle ≡ ok tt) ↔ (
    (checks.version bundle ≡ some 1)
    × (b : SignedPolicyBundle) × (checks.conforms bundle ≡ some b)
    × IsSound checks b)
validate_bundle_iff_example = validate_bundle_iff checks checks-NamesIssues bundle
