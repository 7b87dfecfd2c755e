-- ===== src/Policy/Budget.antt =====
-- `candidateDecision` of packages/policy-schema/src/evaluator.ts: the daily budget of the device.
use you_tube_gradian_devin.Common.{
  ℕ, ◌*◌, Bool, true, false, ◌&&◌, not, Option, none, some, List, [], ◌∷◌, leb, if◌then◌else◌,
  Result, ok, ◌>>=◌, find_or_throw,
}
use Prim.Native.Nat.{max}
use you_tube_gradian_devin.Contracts.{PolicyDecisionAction, PolicyReasonCode, PolicyDecision}
use you_tube_gradian_devin.Policy.Bundle.{TemporaryOverride, BasePolicy, SignedPolicyBundle}
use you_tube_gradian_devin.Policy.Platform.{Platform, RangeError}
use you_tube_gradian_devin.Policy.Rules.{DecisionContext, Candidate, is_device, is_active}

-- `values.filter((value) => value !== undefined)`
abbrev pub defined : List (Option ℕ) → List ℕ
defined [] = []
defined (none ∷ values) = defined values
defined (some value ∷ values) = value ∷ defined values

abbrev pub greatest_from : ℕ → List ℕ → ℕ
greatest_from best [] = best
greatest_from best (next ∷ values) = greatest_from (max best next) values

-- `values.length > 0 ? Math.max(...values) : undefined`
abbrev pub greatest : List ℕ → Option ℕ
greatest [] = none
greatest (value ∷ values) = some (greatest_from value values)

abbrev pub minutes_of : Option TemporaryOverride → Option ℕ
minutes_of none = none
minutes_of (some override) = override.daily_minutes

unfoldable pub device_budget : BasePolicy → Option TemporaryOverride → Option ℕ
device_budget base override =
    greatest (defined (base.daily_device_budget_minutes ∷ minutes_of override ∷ []))

abbrev pub permits : PolicyDecisionAction → Bool
permits PolicyDecisionAction.allow = true
permits PolicyDecisionAction.allow_with_budget = true
permits PolicyDecisionAction.block = false
permits PolicyDecisionAction.limit_reached = false

abbrev pub over_budget : Option ℕ → ℕ → Bool
over_budget none seconds = false
over_budget (some minutes) seconds = leb (minutes * 60) seconds

abbrev pub plain_decision : Candidate → Bool → PolicyDecision
plain_decision candidate stale = record {
  action = candidate.action;
  reason_code = candidate.reason_code;
  policy_rule_id = candidate.policy_rule_id;
  bundle_stale = stale;
}

-- `candidateDecision` once the active override of the device has been looked up.
unfoldable pub within_device_budget : Candidate → Option ℕ → ℕ → Bool → PolicyDecision
within_device_budget candidate budget seconds stale =
    if over_budget budget seconds && (not candidate.budget_exempt && permits candidate.action)
    then record {
      action = PolicyDecisionAction.limit_reached;
      reason_code = PolicyReasonCode.device_budget_exhausted;
      policy_rule_id = candidate.policy_rule_id;
      bundle_stale = stale;
    }
    else plain_decision candidate stale

module _ (P : Platform) where
  -- `activeDeviceOverride`
  unfoldable pub active_device_override :
      SignedPolicyBundle → DecisionContext → Result RangeError (Option TemporaryOverride)
  active_device_override bundle context =
      find_or_throw
        (λ override.
          if is_device override.target_kind
          then is_active P context.timestamp override
          else ok false)
        bundle.temporary_overrides

  unfoldable pub candidate_decision :
      Candidate → SignedPolicyBundle → DecisionContext → Bool → Result RangeError PolicyDecision
  candidate_decision candidate bundle context stale = do
    active ← active_device_override bundle context
    ok (
        within_device_budget candidate (device_budget bundle.base_policy active)
          context.usage.device_seconds_today stale)
