-- ===== src/Policy/Evaluator/Stale.antt =====
-- Soft expiry is reported and changes nothing else.
use you_tube_gradian_devin.Common.{
  ℕ, Text, Bool, Option, some, ◌≡◌, refl, sym, ap, ◌∙◌, arith, ok, leb,
}
use you_tube_gradian_devin.Common.Results.Ensures.{ok-injective}
use you_tube_gradian_devin.Contracts.{PolicyDecision}
use you_tube_gradian_devin.Policy.Bundle.{SignedPolicyBundle}
use you_tube_gradian_devin.Policy.Platform.{Platform}
use you_tube_gradian_devin.Policy.Rules.{DecisionContext, Candidate, stale_at}
use you_tube_gradian_devin.Policy.Window.{instant_from}
use you_tube_gradian_devin.Policy.Budget.{
  device_budget, within_device_budget, active_device_override,
}
use you_tube_gradian_devin.Policy.Routines.{manual_layer, scheduled_layer}
use you_tube_gradian_devin.Policy.Layers.{
  active_override, override_layer, explicit_layer, explicit_rule, safety_layer,
}
use you_tube_gradian_devin.Policy.Evaluator.{choose, evaluate_policy}
use you_tube_gradian_devin.Policy.Evaluator.Inversion.{IsDecided-of_eq}

same_parts :
    (c c' : Candidate) (budget budget' : Option ℕ) (seconds : ℕ) (stale stale' : Bool)
    (one other : PolicyDecision)
    → one ≡ within_device_budget c budget seconds stale
    → other ≡ within_device_budget c' budget' seconds stale'
    → c' ≡ c
    → budget' ≡ budget
    → (one.action ≡ other.action)
      × (one.reason_code ≡ other.reason_code)
      × (one.policy_rule_id ≡ other.policy_rule_id)
unfolding within_device_budget
same_parts c c' budget budget' seconds stale stale' one other e e' f g = ground arith

module _ (P : Platform) (bundle : SignedPolicyBundle) (context : DecisionContext) where
  choose-same :
      (expiry : Text)
      → choose P (record bundle { expires_soft_at = expiry }) context ≡ choose P bundle context
  unfolding choose safety_layer override_layer active_override manual_layer scheduled_layer
      explicit_layer explicit_rule
  choose-same expiry = refl

  stale_at-eq :
      (now expiry : ℕ)
      → P.instant_from context.timestamp ≡ some now
      → P.instant_from bundle.expires_soft_at ≡ some expiry
      → stale_at P context.timestamp bundle.expires_soft_at ≡ ok (leb expiry now)
  unfolding stale_at instant_from
  stale_at-eq now expiry n x = ground arith

  bundle_stale-within :
      (c : Candidate) (budget : Option ℕ) (seconds : ℕ) (stale : Bool)
      → (within_device_budget c budget seconds stale).bundle_stale ≡ stale
  unfolding within_device_budget
  bundle_stale-within c budget seconds stale = ground arith

  -- The flag of a decision is set exactly from the soft expiry on.
  pub evaluate_policy-bundle_stale :
      (now expiry : ℕ) (decision : PolicyDecision)
      → P.instant_from context.timestamp ≡ some now
      → P.instant_from bundle.expires_soft_at ≡ some expiry
      → evaluate_policy P bundle context ≡ ok decision
      → decision.bundle_stale ≡ leb expiry now
  evaluate_policy-bundle_stale now expiry decision n x e =
      let d = IsDecided-of_eq P bundle context decision e in
      rw d.result (
        bundle_stale-within d.candidate _ _ d.stale
        ∙ ok-injective (sym d.stale_read ∙ stale_at-eq now expiry n x))

  -- Whatever the soft expiry of the bundle, a decision has the same action, reason and rule.
  pub evaluate_policy-soft_expiry :
      (expiry : Text) (one other : PolicyDecision)
      → evaluate_policy P bundle context ≡ ok one
      → evaluate_policy P (record bundle { expires_soft_at = expiry }) context ≡ ok other
      → (one.action ≡ other.action)
        × (one.reason_code ≡ other.reason_code)
        × (one.policy_rule_id ≡ other.policy_rule_id)
  evaluate_policy-soft_expiry expiry one other e e' =
      let d = IsDecided-of_eq P bundle context one e in
      let d' = IsDecided-of_eq P (record bundle { expires_soft_at = expiry }) context other e' in
      let c : d'.candidate ≡ d.candidate =
        ok-injective (sym d'.chosen ∙ choose-same expiry ∙ d.chosen) in
      let a : d'.active ≡ d.active =
        ok-injective (sym d'.looked_up ∙ unfold active_device_override in d.looked_up) in
      same_parts d.candidate d'.candidate _ _ _ d.stale d'.stale one other d.result d'.result c
        (ap (device_budget bundle.base_policy) a)
