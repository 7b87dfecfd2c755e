-- ===== src/Policy/Validation/Accepted.antt =====
-- The values that `validateBundle` of packages/policy-schema/src/validation.ts accepts.
use you_tube_gradian_devin.Common.{
  ◌+◌, subst, ℕ, Bool, Bool-cases, true, Option, none, some, List, [], ◌∷◌, ◌++◌, map, ◌≡◌, ◌≢◌,
  refl, sym, ap, ◌↔◌, inl, inr, All, In, ok, ==_iff,
}
use you_tube_gradian_devin.Policy.Bundle.{SignedPolicyBundle}
use you_tube_gradian_devin.Policy.Validation.{
  Checks, Issue, not_hard, not_host, is_supported, throw_if_any, issues_from, repetitions,
  identifiers_of, is_host, is_hard, bundle_issues, timezone_issues, version_issues,
  schema_or_bundle_issues, against_schema, validate_bundle,
}
use you_tube_gradian_devin.Policy.Validation.Distinct.{repetitions_iff}
use you_tube_gradian_devin.Policy.Validation.Described.{
  IsHost, is_host_iff, is_hard_iff, HasDistinct, identifiers_iff,
}

-- No part of a list of issues has any.
append-empty : {A : Type 0} (xs ys : List A) → (xs ++ ys ≡ []) ↔ ((xs ≡ []) × (ys ≡ []))
append-empty [] ys = (λ h. (refl, h), λ h. h.1)
append-empty (x ∷ xs) ys = (λ h. cc, λ h. let e : x ∷ xs ≡ [] = h.0 in cc)

issues_from_iff :
    {A : Type 0} (p : A → Bool) (Q : A → Type 0) (issue : ℕ → Issue) (index : ℕ) (xs : List A)
    → ((x : A) → (p x ≡ true) ↔ Q x)
    → (issues_from p issue index xs ≡ []) ↔ All Q xs
unfolding issues_from
issues_from_iff p Q issue index [] k = (λ h. tt, λ h. refl)
issues_from_iff p Q issue index (x ∷ xs) k = elim (Bool-cases (p x)) [
  | inl passes ↦ rw passes (
    λ h. ((k x).0 passes, (issues_from_iff p Q issue (index + 1) xs k).0 h),
    λ h. (issues_from_iff p Q issue (index + 1) xs k).1 (h.1),
  )
  | inr fails ↦ rw fails (λ h. cc, λ h. let e : p x ≡ true = (k x).1 (h.0) in cc)
]

map-empty : {A B : Type 0} (f : A → B) (xs : List A) → map f xs ≡ [] → xs ≡ []
map-empty f [] h = refl
map-empty f (x ∷ xs) h = cc

some-injective : {A : Type 0} {a b : A} → some a ≡ some b → a ≡ b
some-injective h = cc

supported_iff : (v : Option ℕ) → (is_supported v ≡ true) ↔ (v ≡ some 1)
supported_iff none = (λ h. cc, λ h. cc)
supported_iff (some n) = (λ h. ap some ((==_iff n 1).0 h), λ h. (==_iff n 1).1 (some-injective h))

throw_if_any_iff : (issues : List Issue) → (throw_if_any issues ≡ ok tt) ↔ (issues ≡ [])
throw_if_any_iff [] = (λ h. refl, λ h. refl)
throw_if_any_iff (issue ∷ issues) = (λ h. cc, λ h. cc)

module _ {V : Type 0} (checks : Checks V) where
  -- What a bundle satisfies beyond its schema.
  pub record IsSound (bundle : SignedPolicyBundle) : Type 0 where
    pub timezone : checks.resolves bundle.base_policy.timezone ≡ true
    pub hard :
        All (λ rule. In rule.category checks.hard_categories) bundle.base_policy.hard_category_rules
    pub hosts : All (IsHost checks) bundle.domain_rules
    pub distinct : HasDistinct bundle

  -- `ajv` names an issue of each value that it rejects.
  abbrev pub NamesIssues : Type 0
  NamesIssues = (value : V) → checks.conforms value ≡ none → checks.schema_issues value ≢ []

  timezone_iff :
      (bundle : SignedPolicyBundle)
      → (timezone_issues checks bundle ≡ []) ↔ (checks.resolves bundle.base_policy.timezone ≡ true)
  timezone_iff bundle = elim (Bool-cases (checks.resolves bundle.base_policy.timezone)) [
    | inl yes_it_does ↦ rw yes_it_does (λ h. refl, λ h. refl)
    | inr no_zone ↦ rw no_zone (λ h. cc, λ h. cc)
  ]

  bundle_issues_iff :
      (bundle : SignedPolicyBundle) → (bundle_issues checks bundle ≡ []) ↔ IsSound bundle
  unfolding bundle_issues
  bundle_issues_iff bundle =
      let hard_issues =
        issues_from (is_hard checks) not_hard 0 bundle.base_policy.hard_category_rules in
      let host_issues = issues_from (is_host checks) not_host 0 bundle.domain_rules in
      let hard_rules =
        issues_from_iff (is_hard checks) (λ rule. In rule.category checks.hard_categories) not_hard
          0 bundle.base_policy.hard_category_rules (is_hard_iff checks) in
      let host_rules =
        issues_from_iff (is_host checks) (IsHost checks) not_host 0 bundle.domain_rules
          (is_host_iff checks) in
      let two = append-empty (timezone_issues checks bundle) hard_issues in
      let three = append-empty (timezone_issues checks bundle ++ hard_issues) host_issues in
      let all =
        append-empty (timezone_issues checks bundle ++ hard_issues ++ host_issues)
          (repetitions [] (identifiers_of bundle)) in
      (
        λ h.
            let h3 = all.0 h in
            let h2 = three.0 (h3.0) in
            let h1 = two.0 (h2.0) in
            record {
              timezone = (timezone_iff bundle).0 (h1.0);
              hard = hard_rules.0 (h1.1);
              hosts = host_rules.0 (h2.1);
              distinct = (identifiers_iff bundle).0 ((repetitions_iff _).0 (h3.1));
            },
        λ sound. all.1 (
          three.1 (
            two.1 ((timezone_iff bundle).1 sound.timezone, hard_rules.1 sound.hard),
            host_rules.1 sound.hosts,
          ),
          (repetitions_iff _).1 ((identifiers_iff bundle).1 sound.distinct),
        ),
      )

  version_issues_iff :
      (value : V) → (version_issues checks value ≡ []) ↔ (checks.version value ≡ some 1)
  version_issues_iff value = elim (Bool-cases (is_supported (checks.version value))) [
    | inl known ↦ rw known (λ h. (supported_iff (checks.version value)).0 known, λ h. refl)
    | inr other ↦ rw other (
      λ h. cc,
      λ h.
          let known : is_supported (checks.version value) ≡ true =
            (supported_iff (checks.version value)).1 h in
          cc,
    )
  ]

  conforming_iff :
      NamesIssues
      → (value : V) (o : Option SignedPolicyBundle) → checks.conforms value ≡ o
      → (schema_or_bundle_issues checks value o ≡ [])
        ↔ ((bundle : SignedPolicyBundle) × (o ≡ some bundle) × IsSound bundle)
  conforming_iff names value none e =
      (λ h. elim (names value e (map-empty against_schema _ h)) [ ], λ (bundle, h, sound). cc)
  conforming_iff names value (some b) e = (
    λ h. (b, refl, (bundle_issues_iff b).0 h),
    λ (bundle, h, sound). (bundle_issues_iff b).1 (subst IsSound (sym (some-injective h)) sound),
  )

  -- Where the schema's validator names an issue of each value that it rejects, `validateBundle`
  -- accepts a value exactly if its schema version is 1, it conforms to the schema, its timezone
  -- resolves, the category of each hard category rule is in the list of the hard ones, each domain,
  -- without spaces around it and a last dot, has a dot and is no IP address, and no identifier is
  -- used twice, in one of the seven collections or in two of them.
  pub validate_bundle_iff :
      NamesIssues
      → (value : V)
      → (validate_bundle checks value ≡ ok tt) ↔ (
          (checks.version value ≡ some 1)
          × (bundle : SignedPolicyBundle) × (checks.conforms value ≡ some bundle)
          × IsSound bundle)
  unfolding validate_bundle
  validate_bundle_iff names value =
      let parts =
        append-empty (version_issues checks value)
          (schema_or_bundle_issues checks value (checks.conforms value)) in
      let conforming = conforming_iff names value (checks.conforms value) refl in
      (
        λ h.
            let none_found = parts.0 ((throw_if_any_iff _).0 h) in
            let sound = conforming.0 (none_found.1) in
            ((version_issues_iff value).0 (none_found.0), sound.0, sound.1, sound.2),
        λ h.
            (throw_if_any_iff _).1
              (parts.1 ((version_issues_iff value).1 (h.0), conforming.1 (h.1, h.2, h.3))),
      )
