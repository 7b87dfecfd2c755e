-- ===== src/Policy/Layers.antt =====
-- The branches of `evaluatePolicy` in packages/policy-schema/src/evaluator.ts, but for those on
-- routines: each gives the candidate that the branch hands to `candidateDecision`, if it returns.
use you_tube_gradian_devin.Common.{
  ◌*◌, Text, text_eq, truthy, Bool, true, false, ◌&&◌, not, Option, none, some, List, leb,
  if◌then◌else◌, ◌or_default◌, find, Result, ok, ◌>>=◌, find_or_throw,
}
use mathlib.Core.Option
use you_tube_gradian_devin.Contracts.{PolicyDecisionAction, PolicyReasonCode}
use you_tube_gradian_devin.Policy.Bundle.{
  TemporaryOverride, TargetKind, UnknownAppPolicy, UnknownDomainPolicy, RuleBody, CategoryRule,
  AllowlistEntry, BasePolicy, SignedPolicyBundle, TimeWindow,
}
use you_tube_gradian_devin.Policy.Platform.{Platform, RangeError}
use you_tube_gradian_devin.Policy.Window.{local_date_time, is_in_window}
use you_tube_gradian_devin.Policy.Domain.{most_specific_domain_rule}
use you_tube_gradian_devin.Policy.Rules.{
  Target, DecisionContext, Candidate, last_matching, category_for_target, usage_seconds_for_target,
  action_for_rule, same_kind, is_text, override_matches, is_active,
}

abbrev pub is_allowlisted : Target → AllowlistEntry → Bool
is_allowlisted target entry =
    same_kind entry.target_kind target.kind && text_eq entry.target_ref target.ref

-- The target is on the safety allowlist.
unfoldable pub safety_layer : SignedPolicyBundle → DecisionContext → Option Candidate
safety_layer bundle context =
    Option.map
      (λ _. record {
        action = PolicyDecisionAction.allow;
        reason_code = PolicyReasonCode.safety_allowlist;
        policy_rule_id = none;
        budget_exempt = true;
      })
      (find (is_allowlisted context.target) bundle.base_policy.safety_allowlist)

abbrev pub excluded : Option Bool → Bool
excluded none = false
excluded (some flag) = flag

abbrev pub outside_window : RuleBody → Candidate
outside_window rule = record {
  action = PolicyDecisionAction.block;
  reason_code = PolicyReasonCode.schedule_outside_window;
  policy_rule_id = some rule.rule_id;
  budget_exempt = false;
}

-- The first rule for a category that is there and not empty.
abbrev pub category_rule : List CategoryRule → Option Text → Option CategoryRule
category_rule rules none = none
category_rule rules (some category) =
    if truthy category then find (λ rule. text_eq rule.category category) rules else none

unfoldable pub category_layer :
    List CategoryRule → PolicyReasonCode → DecisionContext → Option Candidate
category_layer rules reason context =
    Option.map
      (λ rule.
        action_for_rule rule.like (usage_seconds_for_target context.target context.usage) reason
          (excluded rule.exclude_from_budget))
      (category_rule rules (category_for_target context.target))

abbrev pub unruled : PolicyDecisionAction → PolicyReasonCode → Candidate
unruled action reason = record {
  action = action;
  reason_code = reason;
  policy_rule_id = none;
  budget_exempt = false;
}

-- No rule names the target.
unfoldable pub unknown_target : BasePolicy → DecisionContext → Candidate
unknown_target base context = elim context.target.kind [
  | TargetKind.app ↦ elim base.unknown_app_policy [
    | UnknownAppPolicy.limit_and_notify ↦
        if leb ((base.unknown_app_daily_minutes or_default 0) * 60)
          (usage_seconds_for_target context.target context.usage)
        then unruled PolicyDecisionAction.limit_reached
            PolicyReasonCode.unknown_app_budget_exhausted
        else unruled PolicyDecisionAction.allow_with_budget
            PolicyReasonCode.unknown_app_budget_available
    | UnknownAppPolicy.block ↦
        unruled PolicyDecisionAction.block PolicyReasonCode.unknown_app_policy
    | _ ↦ unruled PolicyDecisionAction.allow PolicyReasonCode.unknown_app_policy
  ]
  | _ ↦ elim base.unknown_domain_policy [
    | UnknownDomainPolicy.block ↦
        unruled PolicyDecisionAction.block PolicyReasonCode.unknown_domain_policy
    | UnknownDomainPolicy.block_while_classifying ↦
        unruled PolicyDecisionAction.block PolicyReasonCode.unknown_domain_policy
    | _ ↦ unruled PolicyDecisionAction.allow PolicyReasonCode.unknown_domain_policy
  ]
]

module _ (P : Platform) where
  -- A temporary override of the target is active.
  -- `activeOverride`
  unfoldable pub active_override :
      SignedPolicyBundle → DecisionContext → Result RangeError (Option TemporaryOverride)
  active_override bundle context =
      find_or_throw
        (λ override.
          if override_matches override context
          then is_active P context.timestamp override
          else ok false)
        bundle.temporary_overrides

  unfoldable pub override_layer :
      SignedPolicyBundle → DecisionContext → Result RangeError (Option Candidate)
  override_layer bundle context = do
    active ← active_override bundle context
    ok (
        Option.map
          (λ override.
            action_for_rule override.like (usage_seconds_for_target context.target context.usage)
              PolicyReasonCode.temporary_parent_override true)
          active)

  -- The rule that names the target, whatever its kind.
  unfoldable pub explicit_rule : SignedPolicyBundle → Target → Option RuleBody
  explicit_rule bundle target = elim target.kind [
    | TargetKind.app ↦
        Option.map (λ rule. rule.body)
          (last_matching bundle.app_rules (λ rule. text_eq rule.app_ref target.ref))
    | TargetKind.domain ↦
        Option.map (λ rule. rule.body) (most_specific_domain_rule P bundle.domain_rules target.ref)
    | TargetKind.category ↦
        Option.map (λ rule. rule.body)
          (last_matching bundle.category_rules
            (λ rule. is_text rule.category (category_for_target target)))
  ]

  -- `explicit.schedule && !isInWindow(…)`
  unfoldable pub is_outside : Option TimeWindow → Text → Text → Result RangeError Bool
  is_outside none timestamp timezone = ok false
  is_outside (some window) timestamp timezone = do
    date_time ← local_date_time P timestamp timezone
    ok (not (is_in_window window date_time))

  unfoldable pub explicit_layer :
      SignedPolicyBundle → DecisionContext → Result RangeError (Option Candidate)
  unfolding is_outside
  explicit_layer bundle context = elim (explicit_rule bundle context.target) [
    | none ↦ ok none
    | some explicit ↦ do
      outside ←
          is_outside explicit.schedule context.timestamp
            (context.timezone or_default bundle.base_policy.timezone)
      ok (
          some (
            if outside
            then outside_window explicit
            else action_for_rule explicit.like
                (usage_seconds_for_target context.target context.usage)
                PolicyReasonCode.explicit_target_rule (excluded explicit.exclude_from_budget)))
  ]
