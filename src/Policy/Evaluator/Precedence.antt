-- ===== src/Policy/Evaluator/Precedence.antt =====
-- Which branch decides: the safety allowlist first, then an active override of the target.
use you_tube_gradian_devin.Common.{
  ℕ, Bool, true, Option, none, some, ◌≡◌, refl, sym, ap, ◌∙◌, arith, ok, ◌or_else◌, find,
  find_complete, In, text_eq_iff,
}
use you_tube_gradian_devin.Common.Results.Ensures.{
  Ensures_value, Ensures-find_or_throw, find_or_throw-ne-none, ok-injective,
}
use you_tube_gradian_devin.Common.Results.Success.{value_of_Succeeds}
use you_tube_gradian_devin.Contracts.{PolicyDecision, PolicyDecisionAction, PolicyReasonCode}
use you_tube_gradian_devin.Policy.Bundle.{
  SignedPolicyBundle, AllowlistEntry, TemporaryOverride, TargetKind,
}
use you_tube_gradian_devin.Policy.Platform.{Platform}
use you_tube_gradian_devin.Policy.Rules.{
  DecisionContext, Candidate, Target, same_kind, override_matches, is_active, action_for_rule,
  usage_seconds_for_target,
}
use you_tube_gradian_devin.Policy.Budget.{within_device_budget, plain_decision}
use you_tube_gradian_devin.Policy.Layers.{
  active_override, override_layer, safety_layer, is_allowlisted,
}
use you_tube_gradian_devin.Policy.Evaluator.{choose, evaluate_policy}
use you_tube_gradian_devin.Policy.Evaluator.Inversion.{IsDecided-of_eq}
use you_tube_gradian_devin.Policy.Evaluator.Total.{
  IsReadable, evaluate_policy_total, active_override-Succeeds,
}

-- The entry names the target.
abbrev pub Names : AllowlistEntry → Target → Type 0
Names entry target = (entry.target_kind ≡ target.kind) × (entry.target_ref ≡ target.ref)

same_kind_refl : (k : TargetKind) → same_kind k k ≡ true
same_kind_refl k = ground arith

allowlisted_of_Names :
    (entry : AllowlistEntry) (target : Target)
    → Names entry target
    → is_allowlisted target entry ≡ true
allowlisted_of_Names entry target (k, e) = rw (k, same_kind_refl target.kind, (text_eq_iff _ _).1 e)

abbrev safe : Candidate
safe = record {
  action = PolicyDecisionAction.allow;
  reason_code = PolicyReasonCode.safety_allowlist;
  policy_rule_id = none;
  budget_exempt = true;
}

uncut :
    (c c' : Candidate) (budget : Option ℕ) (seconds : ℕ) (stale : Bool) (decision : PolicyDecision)
    → c' ≡ c
    → c.budget_exempt ≡ true
    → decision ≡ within_device_budget c' budget seconds stale
    → decision ≡ plain_decision c decision.bundle_stale
unfolding within_device_budget
uncut c c' budget seconds stale decision e x r = ground arith

module _ (P : Platform) (bundle : SignedPolicyBundle) (context : DecisionContext) where
  -- A candidate that is exempt from the device's budget is the decision.
  exempt_result :
      (c : Candidate) (decision : PolicyDecision)
      → choose P bundle context ≡ ok c
      → c.budget_exempt ≡ true
      → evaluate_policy P bundle context ≡ ok decision
      → decision ≡ plain_decision c decision.bundle_stale
  exempt_result c decision h x e =
      let d = IsDecided-of_eq P bundle context decision e in
      uncut c d.candidate _ _ d.stale decision (ok-injective (sym d.chosen ∙ h)) x d.result

  choose-safe :
      (found : AllowlistEntry)
      → find (is_allowlisted context.target) bundle.base_policy.safety_allowlist ≡ some found
      → choose P bundle context ≡ ok safe
  unfolding choose safety_layer ◌or_else◌
  choose-safe found e = rw e

  -- Where every instant and the time zone can be read, a target that the safety allowlist names is
  -- allowed, with no rule named, whatever the rules, the overrides and the use of the device.
  pub evaluate_policy_allowlisted :
      (entry : AllowlistEntry)
      → IsReadable P bundle context
      → In entry bundle.base_policy.safety_allowlist
      → Names entry context.target
      → (decision : PolicyDecision) × (evaluate_policy P bundle context ≡ ok decision)
        × (decision.action ≡ PolicyDecisionAction.allow)
        × (decision.reason_code ≡ PolicyReasonCode.safety_allowlist)
        × (decision.policy_rule_id ≡ none)
  evaluate_policy_allowlisted entry r m n =
      let (found, e) =
        find_complete (is_allowlisted context.target) _ entry m
          (allowlisted_of_Names entry context.target n) in
      let (decision, returned) = evaluate_policy_total P bundle context r in
      let plain = exempt_result safe decision (choose-safe found e) refl returned in
      (
        decision,
        returned,
        ap (λ d. d.action) plain,
        ap (λ d. d.reason_code) plain,
        ap (λ d. d.policy_rule_id) plain,
      )

  -- The override matches the target and is active at the moment of the decision.
  pub record IsInForce (override : TemporaryOverride) : Type 0 where
    pub listed : In override bundle.temporary_overrides
    pub matches : override_matches override context ≡ true
    pub active : is_active P context.timestamp override ≡ ok true

  IsInForce-found :
      (override : TemporaryOverride)
      → active_override P bundle context ≡ ok (some override)
      → IsInForce override
  unfolding active_override
  IsInForce-found override e =
      let (m, passes) = Ensures_value (Ensures-find_or_throw _ bundle.temporary_overrides) e in
      record { listed = m; matches = ground arith; active = ground arith }

  one_in_force :
      (override : TemporaryOverride)
      → IsReadable P bundle context
      → IsInForce override
      → (first : TemporaryOverride) × (active_override P bundle context ≡ ok (some first))
  unfolding active_override
  one_in_force override r f = go (value_of_Succeeds (active_override-Succeeds P bundle context r))
    where
      go :
          (o : Option TemporaryOverride) × (active_override P bundle context ≡ ok o)
          → (first : TemporaryOverride) × (active_override P bundle context ≡ ok (some first))
      go (some first, e) = (first, e)
      go (none, e) = absurd (
          find_or_throw-ne-none _ bundle.temporary_overrides override f.listed
            (rw (f.matches, f.active) refl) e)

  choose_override :
      (override : TemporaryOverride)
      → safety_layer bundle context ≡ none
      → active_override P bundle context ≡ ok (some override)
      → choose P bundle context
        ≡ ok (
            action_for_rule override.like
              (usage_seconds_for_target context.target context.usage)
              PolicyReasonCode.temporary_parent_override
              true)
  unfolding choose override_layer ◌or_else◌
  choose_override override s a = rw (s, a)

  action_for_rule-exempt :
      (override : TemporaryOverride) (used : ℕ) (reason : PolicyReasonCode)
      → (action_for_rule override.like used reason true).budget_exempt ≡ true
  unfolding action_for_rule
  action_for_rule-exempt override used reason = ground arith

  -- Where every instant and the time zone can be read, the allowlist does not name the target and
  -- some override of it is in force, the decision is the action of an override in force: no
  -- routine, no rule and no budget of the device changes it.
  pub evaluate_policy_overridden :
      (override : TemporaryOverride)
      → IsReadable P bundle context
      → find (is_allowlisted context.target) bundle.base_policy.safety_allowlist ≡ none
      → IsInForce override
      → (first : TemporaryOverride) × (decision : PolicyDecision) × IsInForce first
        × (evaluate_policy P bundle context ≡ ok decision)
        × (decision
            ≡ plain_decision
                (action_for_rule first.like
                  (usage_seconds_for_target context.target context.usage)
                  PolicyReasonCode.temporary_parent_override
                  true)
                decision.bundle_stale)
  evaluate_policy_overridden override r s f =
      let (first, a) = one_in_force override r f in
      let (decision, returned) = evaluate_policy_total P bundle context r in
      let chosen = choose_override first (unfold safety_layer in rw s) a in
      (
        first,
        decision,
        IsInForce-found first a,
        returned,
        exempt_result _ decision chosen (action_for_rule-exempt first _ _) returned,
      )
