-- ===== src/Policy/Evaluator/Inversion.antt =====
-- The parts of a decision that `evaluatePolicy` returns.
use you_tube_gradian_devin.Common.{Bool, Option, ◌≡◌, refl, ok}
use you_tube_gradian_devin.Common.Results.Ensures.{
  Ensures, ensured, Ensures-eq, Ensures_value, Ensures-bind,
}
use you_tube_gradian_devin.Contracts.{PolicyDecision}
use you_tube_gradian_devin.Policy.Bundle.{SignedPolicyBundle, TemporaryOverride}
use you_tube_gradian_devin.Policy.Platform.{Platform}
use you_tube_gradian_devin.Policy.Rules.{stale_at, DecisionContext, Candidate}
use you_tube_gradian_devin.Policy.Budget.{
  active_device_override, candidate_decision, within_device_budget, device_budget,
}
use you_tube_gradian_devin.Policy.Evaluator.{choose, evaluate_policy}

-- The flag, the candidate and the active override of the device that a decision comes from.
pub record IsDecided (P : Platform) (bundle : SignedPolicyBundle) (context : DecisionContext)
    (decision : PolicyDecision) : Type 0 where
  pub stale : Bool
  pub candidate : Candidate
  pub active : Option TemporaryOverride
  pub stale_read : stale_at P context.timestamp bundle.expires_soft_at ≡ ok stale
  pub chosen : choose P bundle context ≡ ok candidate
  pub looked_up : active_device_override P bundle context ≡ ok active
  pub result :
      decision
      ≡ within_device_budget candidate
          (device_budget bundle.base_policy active)
          context.usage.device_seconds_today
          stale

module _ (P : Platform) (bundle : SignedPolicyBundle) (context : DecisionContext) where
  evaluate_policy-Ensures : Ensures (IsDecided P bundle context) (evaluate_policy P bundle context)
  unfolding evaluate_policy candidate_decision
  evaluate_policy-Ensures =
      Ensures-bind _ (Ensures-eq (stale_at P context.timestamp bundle.expires_soft_at)) λ stale s.
        Ensures-bind _ (Ensures-eq (choose P bundle context)) λ candidate c.
          Ensures-bind _ (Ensures-eq (active_device_override P bundle context)) λ active a.
            ensured _ (record {
              stale = stale;
              candidate = candidate;
              active = active;
              stale_read = s;
              chosen = c;
              looked_up = a;
              result = refl;
            })

  pub IsDecided-of_eq :
      (decision : PolicyDecision)
      → evaluate_policy P bundle context ≡ ok decision
      → IsDecided P bundle context decision
  IsDecided-of_eq decision e = Ensures_value evaluate_policy-Ensures e
