-- ===== src/Policy/Evaluator/Reasons.antt =====
-- Which actions go with which reasons, and when the device's budget may be passed over.
use you_tube_gradian_devin.Common.{
  sym, ◌∙◌, ◌*◌, ◌≤◌, ℕ, Bool, true, Option, some, ◌≡◌, refl, ok, arith,
}
use you_tube_gradian_devin.Common.Results.Ensures.{ok-injective, Ensures_value}
use you_tube_gradian_devin.Contracts.{PolicyDecision}
use you_tube_gradian_devin.Policy.Bundle.{SignedPolicyBundle, TemporaryOverride}
use you_tube_gradian_devin.Policy.Platform.{Platform}
use you_tube_gradian_devin.Policy.Rules.{DecisionContext, Candidate}
use you_tube_gradian_devin.Policy.Budget.{
  active_device_override, within_device_budget, device_budget, permits,
}
use you_tube_gradian_devin.Policy.Evaluator.{evaluate_policy}
use you_tube_gradian_devin.Policy.Evaluator.Candidates.{
  goes_with, may_exceed, IsCoherent, choose-IsCoherent,
}
use you_tube_gradian_devin.Policy.Evaluator.Inversion.{IsDecided-of_eq}

within-goes_with :
    (c : Candidate) (budget : Option ℕ) (seconds : ℕ) (stale : Bool)
    → IsCoherent c
    → let d = within_device_budget c budget seconds stale in goes_with d.reason_code d.action ≡ true
unfolding within_device_budget
within-goes_with c budget seconds stale h = ground arith

within-may_exceed :
    (c : Candidate) (minutes seconds : ℕ) (stale : Bool) (decision : PolicyDecision)
    → IsCoherent c
    → minutes * 60 ≤ seconds
    → decision ≡ within_device_budget c (some minutes) seconds stale
    → permits decision.action ≡ true
    → may_exceed decision.reason_code ≡ true
unfolding within_device_budget
within-may_exceed c minutes seconds stale decision h u e p = ground arith

module _ (P : Platform) (bundle : SignedPolicyBundle) (context : DecisionContext) where
  -- Every decision that the evaluator returns pairs its action with a reason of that action. In
  -- particular none has the reason of a tampered signature, of a bundle past its soft expiry or of
  -- an expired override, which go with no action here.
  pub evaluate_policy-goes_with :
      (decision : PolicyDecision)
      → evaluate_policy P bundle context ≡ ok decision
      → goes_with decision.reason_code decision.action ≡ true
  evaluate_policy-goes_with decision e =
      let d = IsDecided-of_eq P bundle context decision e in
      let c = Ensures_value (choose-IsCoherent P bundle context) d.chosen in
      rw d.result (within-goes_with d.candidate _ _ _ c)

  -- Once the use of the device has reached its budget, the larger of the policy's minutes and those
  -- of an active override of the device, a decision that lets the target run has one of the reasons
  -- that may exceed the budget: the allowlist, an override, or a rule for the target or its category.
  pub evaluate_policy_within_budget :
      (active : Option TemporaryOverride) (minutes : ℕ) (decision : PolicyDecision)
      → active_device_override P bundle context ≡ ok active
      → device_budget bundle.base_policy active ≡ some minutes
      → minutes * 60 ≤ context.usage.device_seconds_today
      → evaluate_policy P bundle context ≡ ok decision
      → permits decision.action ≡ true
      → may_exceed decision.reason_code ≡ true
  evaluate_policy_within_budget active minutes decision a b u e p =
      let d = IsDecided-of_eq P bundle context decision e in
      let c = Ensures_value (choose-IsCoherent P bundle context) d.chosen in
      let same : d.active ≡ active = ok-injective (sym d.looked_up ∙ a) in
      within-may_exceed d.candidate minutes context.usage.device_seconds_today d.stale decision c u
        (rw (d.result, same, b) refl) p
