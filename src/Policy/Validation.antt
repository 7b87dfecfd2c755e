-- ===== src/Policy/Validation.antt =====
-- packages/policy-schema/src/validation.ts: what a policy bundle must satisfy beyond its schema.
pub mod Distinct
pub mod Described
pub mod Accepted
use you_tube_gradian_devin.Common.{
  ℕ, ◌+◌, ◌==◌, Text, text_eq, Bool, true, false, ◌&&◌, ◌||◌, not, Option, none, some, List, [],
  ◌∷◌, ◌++◌, map, reverse, leb, any, if◌then◌else◌, Result, ok, err,
}
use you_tube_gradian_devin.Policy.Bundle.{CategoryRule, DomainRule, SignedPolicyBundle}
use you_tube_gradian_devin.Policy.Domain.{includes, drop_last_dot}

-- What the validation calls and does not define: the compiled schema (`ajv`), whether Temporal
-- resolves a timezone, `isIP` of Node, and the list of the hard categories.
pub record Checks (V : Type 0) : Type 0 where
  -- `schema_version` of a value that is an object and has one
  pub version : V → Option ℕ
  -- `none` where `validateSchema` rejects the value
  pub conforms : V → Option SignedPolicyBundle
  pub schema_issues : V → List Text
  pub resolves : Text → Bool
  pub is_ip : Text → Bool
  pub hard_categories : List Text

-- An entry of `issues`, with the index or the identifier that its text names.
pub data Issue : Type 0 where
  unsupported_version : Issue
  against_schema : Text → Issue
  unknown_timezone : Issue
  not_hard : ℕ → Issue
  not_host : ℕ → Issue
  repeated : Text → Issue

-- The white space and line ends of ECMAScript.
abbrev is_space : ℕ → Bool
is_space c =
    (leb 9 c && leb c 13)
    || (c == 32)
    || (c == 160)
    || (c == 5760)
    || (leb 8192 c && leb c 8202)
    || (c == 8232)
    || (c == 8233)
    || (c == 8239)
    || (c == 8287)
    || (c == 12288)
    || (c == 65279)

abbrev trim_start : Text → Text
trim_start [] = []
trim_start (c ∷ value) = let rest = trim_start value in if is_space c then rest else c ∷ value

-- `value.trim()`
abbrev pub trim : Text → Text
trim value = reverse (trim_start (reverse (trim_start value)))

-- One issue for each element that fails the test, with its index.
unfoldable pub issues_from : {A : Type 0} → (A → Bool) → (ℕ → Issue) → ℕ → List A → List Issue
issues_from p issue index [] = []
issues_from p issue index (x ∷ xs) =
    let rest = issues_from p issue (index + 1) xs in if p x then rest else issue index ∷ rest

-- The loop of `validateUniqueIdentifiers`; `identifiers` holds those that were read.
unfoldable pub repetitions : (identifiers : List Text) → List Text → List Issue
repetitions identifiers [] = []
repetitions identifiers (identifier ∷ rules) =
    let rest = repetitions (identifier ∷ identifiers) rules in
    if any (λ known. text_eq known identifier) identifiers then repeated identifier ∷ rest else rest

-- `collections`, with the identifier of each.
abbrev pub identifiers_of : SignedPolicyBundle → List Text
identifiers_of bundle =
    map (λ rule. rule.rule_id) bundle.app_rules
    ++ map (λ rule. rule.rule_id) bundle.domain_rules
    ++ map (λ rule. rule.rule_id) bundle.category_rules
    ++ map (λ rule. rule.rule_id) bundle.base_policy.hard_category_rules
    ++ map (λ rule. rule.rule_id) bundle.base_policy.default_category_rules
    ++ map (λ routine. routine.routine_id) bundle.routines
    ++ map (λ override. override.rule_id) bundle.temporary_overrides

abbrev pub is_supported : Option ℕ → Bool
is_supported none = false
is_supported (some version) = version == 1

abbrev pub throw_if_any : List Issue → Result (List Issue) Unit
throw_if_any [] = ok tt
throw_if_any (issue ∷ issues) = err (issue ∷ issues)

module _ {V : Type 0} (checks : Checks V) where
  unfoldable pub is_host : DomainRule → Bool
  is_host rule =
      let domain = drop_last_dot (trim rule.domain) in
      not (checks.is_ip domain) && includes (b'.' ∷ []) domain

  unfoldable pub is_hard : CategoryRule → Bool
  is_hard rule = any (λ category. text_eq category rule.category) checks.hard_categories

  abbrev pub timezone_issues : SignedPolicyBundle → List Issue
  timezone_issues bundle =
      if checks.resolves bundle.base_policy.timezone then [] else unknown_timezone ∷ []

  -- The issues of a value that conforms to the schema.
  unfoldable pub bundle_issues : SignedPolicyBundle → List Issue
  bundle_issues bundle =
      timezone_issues bundle
      ++ issues_from is_hard not_hard 0 bundle.base_policy.hard_category_rules
      ++ issues_from is_host not_host 0 bundle.domain_rules
      ++ repetitions [] (identifiers_of bundle)

  abbrev pub schema_or_bundle_issues : V → Option SignedPolicyBundle → List Issue
  schema_or_bundle_issues value none = map against_schema (checks.schema_issues value)
  schema_or_bundle_issues value (some bundle) = bundle_issues bundle

  abbrev pub version_issues : V → List Issue
  version_issues value =
      if is_supported (checks.version value) then [] else unsupported_version ∷ []

  abbrev pub issues_of : V → List Issue
  issues_of value = version_issues value ++ schema_or_bundle_issues value (checks.conforms value)

  unfoldable pub validate_bundle : V → Result (List Issue) Unit
  validate_bundle value = throw_if_any (issues_of value)
