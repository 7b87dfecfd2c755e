-- ===== src/Policy/Evaluator/Candidates.antt =====
-- What the candidate of every branch of `evaluatePolicy` satisfies.
use you_tube_gradian_devin.Common.{
  ℕ, Bool, true, false, Option, none, some, List, [], ◌∷◌, ◌≡◌, refl, All, Result, if◌then◌else◌,
  arith, Option-cases, inl, inr,
}
use you_tube_gradian_devin.Common.Results.Ensures.{
  Ensures, ensured, OnSome, Ensures-bind, Ensures-any, Ensures-map_or_throw, Ensures-or_else,
  Ensures-if, OnSome-map, OnSome-if,
}
use you_tube_gradian_devin.Contracts.{PolicyReasonCode, PolicyDecisionAction}
use you_tube_gradian_devin.Policy.Bundle.{
  SignedPolicyBundle, BasePolicy, Routine, RuleBody, RuleLike, CategoryRule,
}
use you_tube_gradian_devin.Policy.Platform.{Platform, RangeError}
use you_tube_gradian_devin.Policy.Rules.{DecisionContext, Candidate, Target, action_for_rule}
use you_tube_gradian_devin.Policy.Budget.{permits}
use you_tube_gradian_devin.Policy.Routines.{
  is_inside, routine_candidate, routine_verdict, manual_layer, scheduled_layer, current_manual,
  first_candidate,
}
use you_tube_gradian_devin.Policy.Layers.{
  active_override, outside_window, override_layer, explicit_layer, explicit_rule, is_outside,
  safety_layer, category_layer, unknown_target, category_rule,
}
use you_tube_gradian_devin.Policy.Evaluator.{choose}

-- The actions that each reason is given with.
abbrev pub goes_with : PolicyReasonCode → PolicyDecisionAction → Bool
goes_with PolicyReasonCode.safety_allowlist PolicyDecisionAction.allow = true
goes_with PolicyReasonCode.temporary_parent_override PolicyDecisionAction.allow = true
goes_with PolicyReasonCode.temporary_parent_override PolicyDecisionAction.block = true
goes_with PolicyReasonCode.manual_routine PolicyDecisionAction.allow = true
goes_with PolicyReasonCode.manual_routine PolicyDecisionAction.block = true
goes_with PolicyReasonCode.scheduled_routine PolicyDecisionAction.allow = true
goes_with PolicyReasonCode.scheduled_routine PolicyDecisionAction.block = true
goes_with PolicyReasonCode.explicit_target_rule PolicyDecisionAction.allow = true
goes_with PolicyReasonCode.explicit_target_rule PolicyDecisionAction.block = true
goes_with PolicyReasonCode.age_band_hard_category PolicyDecisionAction.allow = true
goes_with PolicyReasonCode.age_band_hard_category PolicyDecisionAction.block = true
goes_with PolicyReasonCode.default_category_rule PolicyDecisionAction.allow = true
goes_with PolicyReasonCode.default_category_rule PolicyDecisionAction.block = true
goes_with PolicyReasonCode.unknown_app_policy PolicyDecisionAction.allow = true
goes_with PolicyReasonCode.unknown_app_policy PolicyDecisionAction.block = true
goes_with PolicyReasonCode.unknown_domain_policy PolicyDecisionAction.allow = true
goes_with PolicyReasonCode.unknown_domain_policy PolicyDecisionAction.block = true
goes_with PolicyReasonCode.budget_available PolicyDecisionAction.allow_with_budget = true
goes_with PolicyReasonCode.unknown_app_budget_available PolicyDecisionAction.allow_with_budget =
    true
goes_with PolicyReasonCode.budget_exhausted PolicyDecisionAction.limit_reached = true
goes_with PolicyReasonCode.unknown_app_budget_exhausted PolicyDecisionAction.limit_reached = true
goes_with PolicyReasonCode.device_budget_exhausted PolicyDecisionAction.limit_reached = true
goes_with PolicyReasonCode.requires_parent_approval PolicyDecisionAction.block = true
goes_with PolicyReasonCode.schedule_outside_window PolicyDecisionAction.block = true
goes_with _ _ = false

-- The reasons that can stand with use beyond the budget of the device.
abbrev pub may_exceed : PolicyReasonCode → Bool
may_exceed PolicyReasonCode.safety_allowlist = true
may_exceed PolicyReasonCode.temporary_parent_override = true
may_exceed PolicyReasonCode.explicit_target_rule = true
may_exceed PolicyReasonCode.age_band_hard_category = true
may_exceed PolicyReasonCode.default_category_rule = true
may_exceed PolicyReasonCode.budget_available = true
may_exceed _ = false

-- Of a candidate: its reason goes with its action, and an exemption from the device's budget that
-- matters has one of the reasons for it.
pub record IsCoherent (c : Candidate) : Type 0 where
  pub coherent : goes_with c.reason_code c.action ≡ true
  pub exempt : c.budget_exempt ≡ true → permits c.action ≡ true → may_exceed c.reason_code ≡ true

-- The reasons that a rule's action is given for.
abbrev for_rules : PolicyReasonCode → Bool
for_rules PolicyReasonCode.temporary_parent_override = true
for_rules PolicyReasonCode.explicit_target_rule = true
for_rules PolicyReasonCode.age_band_hard_category = true
for_rules PolicyReasonCode.default_category_rule = true
for_rules _ = false

action_for_rule-IsCoherent :
    (rule : RuleLike) (used : ℕ) (reason : PolicyReasonCode) (exempt : Bool)
    → for_rules reason ≡ true
    → IsCoherent (action_for_rule rule used reason exempt)
unfolding action_for_rule
action_for_rule-IsCoherent rule used reason exempt h = ground arith

-- A candidate that a layer may give.
abbrev OfLayer : Result RangeError (Option Candidate) → Type 0
OfLayer = Ensures (OnSome IsCoherent)

safety_layer-IsCoherent :
    (bundle : SignedPolicyBundle) (context : DecisionContext)
    → OnSome IsCoherent (safety_layer bundle context)
unfolding safety_layer
safety_layer-IsCoherent bundle context = ground arith

category_layer-IsCoherent :
    (rules : List CategoryRule) (reason : PolicyReasonCode) (context : DecisionContext)
    → for_rules reason ≡ true
    → OnSome IsCoherent (category_layer rules reason context)
unfolding category_layer
category_layer-IsCoherent rules reason context h =
    OnSome-map IsCoherent _ (category_rule rules _) (λ rule. action_for_rule-IsCoherent _ _ _ _ h)

routine_verdict-IsCoherent :
    (routine : Routine) (target : Target) (reason : PolicyReasonCode)
    → goes_with reason PolicyDecisionAction.allow ≡ true
    → goes_with reason PolicyDecisionAction.block ≡ true
    → OnSome IsCoherent (routine_verdict routine target reason)
unfolding routine_verdict
routine_verdict-IsCoherent routine target reason h k = ground arith

unknown_target-IsCoherent :
    (base : BasePolicy) (context : DecisionContext) → IsCoherent (unknown_target base context)
unfolding unknown_target
unknown_target-IsCoherent base context = ground arith

outside_window-IsCoherent : (rule : RuleBody) → IsCoherent (outside_window rule)
outside_window-IsCoherent rule = ground arith

if-IsCoherent :
    (b : Bool) {c d : Candidate} → IsCoherent c → IsCoherent d → IsCoherent (if b then c else d)
if-IsCoherent true h k = h
if-IsCoherent false h k = k

module _ (P : Platform) (bundle : SignedPolicyBundle) (context : DecisionContext) where
  override_layer-IsCoherent : OfLayer (override_layer P bundle context)
  unfolding override_layer
  override_layer-IsCoherent =
      Ensures-bind _ (Ensures-any (active_override P bundle context)) (λ o _.
        ensured _ (OnSome-map IsCoherent _ o (λ rule. action_for_rule-IsCoherent _ _ _ _ refl)))

  routine_candidate-IsCoherent :
      (context' : DecisionContext) (routine : Routine) (reason : PolicyReasonCode)
      → goes_with reason PolicyDecisionAction.allow ≡ true
      → goes_with reason PolicyDecisionAction.block ≡ true
      → OfLayer (routine_candidate P routine context' reason)
  unfolding routine_candidate
  routine_candidate-IsCoherent context' routine reason h k =
      let verdict = routine_verdict-IsCoherent routine context'.target reason h k in
      Ensures-if _
        (Ensures-bind _ (Ensures-any (is_inside P routine.window _ _))
          (λ b _. ensured _ (OnSome-if IsCoherent b _ verdict)))
        (ensured _ verdict)

  manual_layer-IsCoherent : OfLayer (manual_layer P bundle context)
  unfolding manual_layer
  manual_layer-IsCoherent =
      elim (Option-cases (current_manual context.current_manual_routine_id bundle.routines)) [
        | inl missing ↦ rw (missing, manual_layer) (ensured none tt)
        | inr (manual, found) ↦
            rw (found, manual_layer) (routine_candidate-IsCoherent _ manual _ refl refl)
      ]

  first_candidate-IsCoherent :
      (os : List (Option Candidate))
      → All (OnSome IsCoherent) os
      → OnSome IsCoherent (first_candidate os)
  first_candidate-IsCoherent [] h = tt
  first_candidate-IsCoherent (none ∷ os) (q, h) = first_candidate-IsCoherent os h
  first_candidate-IsCoherent (some c ∷ os) (q, h) = q

  scheduled_layer-IsCoherent : OfLayer (scheduled_layer P bundle context)
  unfolding scheduled_layer
  scheduled_layer-IsCoherent =
      Ensures-bind _ (Ensures-map_or_throw _ _ (λ s. routine_candidate-IsCoherent _ s _ refl refl))
        (λ os h. ensured _ (first_candidate-IsCoherent os h))

  explicit_layer-IsCoherent : OfLayer (explicit_layer P bundle context)
  unfolding explicit_layer
  explicit_layer-IsCoherent = elim (Option-cases (explicit_rule P bundle context.target)) [
    | inl missing ↦ rw (missing, explicit_layer) (ensured none tt)
    | inr (rule, found) ↦
        rw (found, explicit_layer)
          (Ensures-bind _ (Ensures-any (is_outside P rule.schedule _ _)) (λ outside _. ensured _ (
            if-IsCoherent outside (outside_window-IsCoherent rule)
              (action_for_rule-IsCoherent _ _ _ _ refl))))
  ]

  pub choose-IsCoherent : Ensures IsCoherent (choose P bundle context)
  unfolding choose
  choose-IsCoherent = Ensures-or_else (ensured _ (safety_layer-IsCoherent bundle context)) (
      Ensures-or_else override_layer-IsCoherent (
        Ensures-or_else manual_layer-IsCoherent (
          Ensures-or_else scheduled_layer-IsCoherent (
            Ensures-or_else explicit_layer-IsCoherent (
              Ensures-or_else (ensured _ (category_layer-IsCoherent _ _ context refl)) (
                Ensures-or_else (ensured _ (category_layer-IsCoherent _ _ context refl))
                  (ensured _ (unknown_target-IsCoherent bundle.base_policy context))))))))
