-- ===== src/Policy/Rules.antt =====
-- The parts of packages/policy-schema/src/evaluator.ts that look up and apply one rule:
-- `DecisionContext`, `Candidate`, `lastMatching`, `categoryForTarget`, `usageSecondsForTarget`,
-- `actionForRule`, `overrideMatches` and the test that an override is active.
pub mod Last
use you_tube_gradian_devin.Common.{
  ℕ, zero, suc, ◌*◌, Text, text_eq, truthy, Bool, true, false, ◌&&◌, ◌||◌, Option, none, some, List,
  leb, ltb, if◌then◌else◌, ◌or_default◌, length, get_elem?, Result, ok, err, ◌>>=◌,
}
use you_tube_gradian_devin.Contracts.{PolicyDecisionAction, PolicyReasonCode, UsageView}
use you_tube_gradian_devin.Policy.Bundle.{
  Action, TargetKind, OverrideKind, RuleLike, TemporaryOverride,
}
use you_tube_gradian_devin.Policy.Platform.{Platform, RangeError}
use you_tube_gradian_devin.Policy.Window.{instant_from}

pub record Target : Type 0 where
  pub kind : TargetKind
  pub ref : Text
  pub category : Option Text

pub data ReputationVerdict : Type 0 where
  known_safe known_risk unknown : ReputationVerdict

pub record DecisionContext : Type 0 where
  pub target : Target
  pub timestamp : Text
  pub timezone : Option Text
  pub usage : UsageView
  pub current_manual_routine_id : Option Text
  pub reputation_verdict : Option ReputationVerdict

pub record Candidate : Type 0 where
  pub action : PolicyDecisionAction
  pub reason_code : PolicyReasonCode
  pub policy_rule_id : Option Text
  pub budget_exempt : Bool

-- The loop of `lastMatching`; `index` counts the items that are still to be read.
unfoldable pub last_matching_from : {A : Type 0} → List A → (A → Bool) → ℕ → Option A
last_matching_from items predicate zero = none
last_matching_from items predicate (suc index) =
    let rest = last_matching_from items predicate index in
    elim (get_elem? items index) [
      | some item ↦ if predicate item then some item else rest
      | none ↦ rest
    ]

unfoldable pub last_matching : {A : Type 0} → List A → (A → Bool) → Option A
unfolding last_matching_from
last_matching items predicate = last_matching_from items predicate (length items)

abbrev own_category : TargetKind → Text → Option Text
own_category TargetKind.category ref = some ref
own_category TargetKind.app ref = none
own_category TargetKind.domain ref = none

unfoldable pub category_for_target : Target → Option Text
category_for_target target = elim target.category [
  | some category ↦ some category
  | none ↦ own_category target.kind target.ref
]

unfoldable pub category_seconds : UsageView → Option Text → ℕ
category_seconds usage none = 0
category_seconds usage (some category) = usage.category_seconds_today category or_default 0

unfoldable pub usage_seconds_for_target : Target → UsageView → ℕ
usage_seconds_for_target target usage = elim target.kind [
  | TargetKind.app ↦ usage.app_seconds_today target.ref or_default 0
  | _ ↦ category_seconds usage (category_for_target target)
]

abbrev pub is_override_reason : PolicyReasonCode → Bool
is_override_reason PolicyReasonCode.temporary_parent_override = true
is_override_reason _ = false

unfoldable pub action_for_rule : RuleLike → ℕ → PolicyReasonCode → Bool → Candidate
action_for_rule rule usage_seconds reason budget_exempt = elim rule.action [
  | Action.block ↦ record {
    action = PolicyDecisionAction.block;
    reason_code = reason;
    policy_rule_id = some rule.rule_id;
    budget_exempt = budget_exempt;
  }
  | Action.ask_parent ↦ record {
    action = PolicyDecisionAction.block;
    reason_code = PolicyReasonCode.requires_parent_approval;
    policy_rule_id = some rule.rule_id;
    budget_exempt = budget_exempt;
  }
  | Action.limit ↦
      let exhausted = leb ((rule.daily_minutes or_default 0) * 60) usage_seconds in
      record {
        action =
            if exhausted
            then PolicyDecisionAction.limit_reached
            else if is_override_reason reason
            then PolicyDecisionAction.allow
            else PolicyDecisionAction.allow_with_budget;
        reason_code =
            if exhausted
            then PolicyReasonCode.budget_exhausted
            else if is_override_reason reason
            then PolicyReasonCode.temporary_parent_override
            else PolicyReasonCode.budget_available;
        policy_rule_id = some rule.rule_id;
        budget_exempt = budget_exempt;
      }
  | Action.unlimited ↦ record {
    action = PolicyDecisionAction.allow;
    reason_code = reason;
    policy_rule_id = some rule.rule_id;
    budget_exempt = true;
  }
  | Action.allow ↦ record {
    action = PolicyDecisionAction.allow;
    reason_code = reason;
    policy_rule_id = some rule.rule_id;
    budget_exempt = budget_exempt;
  }
  | Action.schedule ↦ record {
    action = PolicyDecisionAction.allow;
    reason_code = reason;
    policy_rule_id = some rule.rule_id;
    budget_exempt = budget_exempt;
  }
]

-- `===` on the strings of the two unions.
abbrev pub same_kind : TargetKind → TargetKind → Bool
same_kind TargetKind.app TargetKind.app = true
same_kind TargetKind.domain TargetKind.domain = true
same_kind TargetKind.category TargetKind.category = true
same_kind _ _ = false

abbrev pub override_kind_is : OverrideKind → TargetKind → Bool
override_kind_is OverrideKind.app TargetKind.app = true
override_kind_is OverrideKind.domain TargetKind.domain = true
override_kind_is OverrideKind.category TargetKind.category = true
override_kind_is _ _ = false

abbrev pub is_device : OverrideKind → Bool
is_device OverrideKind.device = true
is_device _ = false

-- `text === value` for a value that may be missing.
abbrev pub is_text : Text → Option Text → Bool
is_text t none = false
is_text t (some value) = text_eq t value

unfoldable pub override_matches : TemporaryOverride → DecisionContext → Bool
override_matches override context =
    let exact_match =
      override_kind_is override.target_kind context.target.kind
      && text_eq override.target_ref context.target.ref in
    let category_match =
      override_kind_is override.target_kind TargetKind.category
      && is_text override.target_ref context.target.category in
    exact_match || category_match

-- The two comparisons of instants that both searches for an active override make.
unfoldable pub is_active : Platform → Text → TemporaryOverride → Result RangeError Bool
is_active P timestamp override = do
  now ← instant_from P timestamp
  starts ← instant_from P override.starts_at
  if leb starts now
      then (do
        now' ← instant_from P timestamp
        expires ← instant_from P override.expires_at
        ok (ltb now' expires))
      else ok false

unfoldable pub stale_at : Platform → Text → Text → Result RangeError Bool
stale_at P timestamp expires_soft_at = do
  now ← instant_from P timestamp
  expires ← instant_from P expires_soft_at
  ok (leb expires now)
