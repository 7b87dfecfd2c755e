-- ===== src/Policy/Evaluator.antt =====
-- `evaluatePolicy` of packages/policy-schema/src/evaluator.ts. The code returns
-- `candidateDecision(…)` of a candidate in each of its branches: here `choose` finds the candidate,
-- a layer for each branch in the order of the code, and `evaluate_policy` applies
-- `candidate_decision` to it.
pub mod Total
pub mod Candidates
pub mod Inversion
pub mod Reasons
pub mod Usage
pub mod Stale
pub mod Precedence
use you_tube_gradian_devin.Common.{Result, ok, ◌>>=◌, ◌or_else◌}
use you_tube_gradian_devin.Contracts.{PolicyReasonCode, PolicyDecision}
use you_tube_gradian_devin.Policy.Bundle.{SignedPolicyBundle}
use you_tube_gradian_devin.Policy.Platform.{Platform, RangeError}
use you_tube_gradian_devin.Policy.Rules.{DecisionContext, Candidate, stale_at}
use you_tube_gradian_devin.Policy.Budget.{candidate_decision}
use you_tube_gradian_devin.Policy.Routines.{manual_layer, scheduled_layer}
use you_tube_gradian_devin.Policy.Layers.{
  safety_layer, override_layer, explicit_layer, category_layer, unknown_target,
}

module _ (P : Platform) where
  -- The candidate of the first branch of `evaluatePolicy` that returns.
  unfoldable pub choose : SignedPolicyBundle → DecisionContext → Result RangeError Candidate
  choose bundle context =
      ok (safety_layer bundle context)
      or_else override_layer P bundle context
      or_else manual_layer P bundle context
      or_else scheduled_layer P bundle context
      or_else explicit_layer P bundle context
      or_else ok (
          category_layer bundle.base_policy.hard_category_rules
            PolicyReasonCode.age_band_hard_category context)
      or_else ok (
          category_layer bundle.base_policy.default_category_rules
            PolicyReasonCode.default_category_rule context)
      or_else ok (unknown_target bundle.base_policy context)

  unfoldable pub evaluate_policy :
      SignedPolicyBundle → DecisionContext → Result RangeError PolicyDecision
  evaluate_policy bundle context = do
    stale ← stale_at P context.timestamp bundle.expires_soft_at
    candidate ← choose bundle context
    candidate_decision P candidate bundle context stale
