-- ===== src/Policy/Evaluator/Usage.antt =====
-- More use never lifts a restriction.
use you_tube_gradian_devin.Common.{
  ℕ, ◌≤◌, Text, Bool, true, false, Option, none, some, List, ◌≡◌, refl, sym, ◌∙◌, arith, Result, ok,
  ◌or_default◌, Option-cases, inl, inr, if◌then◌else◌,
}
use you_tube_gradian_devin.Common.Results.Related.{
  Related, both, OnBoth, neither, each, Related_values, Related-bind, Related-or_else, Related-refl,
  OnBoth-map, OnBoth-refl,
}
use you_tube_gradian_devin.Common.Results.Ensures.{ok-injective}
use you_tube_gradian_devin.Contracts.{PolicyDecision, PolicyReasonCode, UsageView}
use you_tube_gradian_devin.Policy.Bundle.{SignedPolicyBundle, BasePolicy, RuleLike, CategoryRule}
use you_tube_gradian_devin.Policy.Platform.{Platform, RangeError}
use you_tube_gradian_devin.Policy.Rules.{
  category_seconds, category_for_target, DecisionContext, Candidate, Target, action_for_rule,
  usage_seconds_for_target, override_matches,
}
use you_tube_gradian_devin.Policy.Budget.{within_device_budget, permits, active_device_override}
use you_tube_gradian_devin.Policy.Routines.{manual_layer, scheduled_layer, routine_candidate}
use you_tube_gradian_devin.Policy.Layers.{
  active_override, override_layer, explicit_layer, explicit_rule, is_outside, safety_layer,
  category_layer, category_rule, unknown_target,
}
use you_tube_gradian_devin.Policy.Evaluator.{choose, evaluate_policy}
use you_tube_gradian_devin.Policy.Evaluator.Inversion.{IsDecided-of_eq}

-- No counter of the first view is above that of the second.
pub record IsLess (less more : UsageView) : Type 0 where
  pub device : less.device_seconds_today ≤ more.device_seconds_today
  pub apps :
      (ref : Text)
      → less.app_seconds_today ref or_default 0 ≤ more.app_seconds_today ref or_default 0
  pub categories :
      (category : Text)
      → less.category_seconds_today category or_default 0
        ≤ more.category_seconds_today category or_default 0

-- The second candidate is exempt when the first is, and permits only what the first permits.
record IsTighter (c d : Candidate) : Type 0 where
  exempt : c.budget_exempt ≡ d.budget_exempt
  tighter : permits d.action ≡ true → permits c.action ≡ true

IsTighter-refl : (c : Candidate) → IsTighter c c
IsTighter-refl c = record { exempt = refl; tighter = λ h. h }

category_seconds-le :
    (less more : UsageView) (category : Option Text)
    → IsLess less more
    → category_seconds less category ≤ category_seconds more category
unfolding category_seconds
category_seconds-le less more none h = omega arith
category_seconds-le less more (some category) h = h.categories category

used-le :
    (target : Target) (less more : UsageView)
    → IsLess less more
    → usage_seconds_for_target target less ≤ usage_seconds_for_target target more
unfolding usage_seconds_for_target
used-le target less more h =
    ground (arith, h.apps target.ref, category_seconds-le less more (category_for_target target) h)

action_for_rule-IsTighter :
    (rule : RuleLike) (used used' : ℕ) (reason : PolicyReasonCode) (exempt : Bool)
    → used ≤ used'
    → IsTighter (action_for_rule rule used reason exempt) (action_for_rule rule used' reason exempt)
unfolding action_for_rule
action_for_rule-IsTighter rule used used' reason exempt h = ground arith

module _ (P : Platform) (bundle : SignedPolicyBundle) (context : DecisionContext) (more : UsageView)
    (h : IsLess context.usage more) where
  abbrev later : DecisionContext
  later = record context { usage = more }

  -- The candidates of the two uses, on a branch that may give none.
  abbrev Tightens :
      Result RangeError (Option Candidate) → Result RangeError (Option Candidate) → Type 0
  Tightens = Related (OnBoth IsTighter)

  rule-IsTighter :
      (rule : RuleLike) (reason : PolicyReasonCode) (exempt : Bool)
      → IsTighter
          (action_for_rule rule
            (usage_seconds_for_target context.target context.usage)
            reason
            exempt)
          (action_for_rule rule (usage_seconds_for_target context.target more) reason exempt)
  rule-IsTighter rule reason exempt =
      action_for_rule-IsTighter rule _ _ reason exempt (used-le context.target context.usage more h)

  override_layer-Tightens :
      Tightens (override_layer P bundle context) (override_layer P bundle later)
  unfolding override_layer active_override override_matches
  override_layer-Tightens =
      Related-bind (active_override P bundle context)
        (λ o. both (OnBoth-map IsTighter _ _ o (λ rule. rule-IsTighter rule.like _ _)))

  category_layer-IsTighter :
      (rules : List CategoryRule) (reason : PolicyReasonCode)
      → OnBoth IsTighter (category_layer rules reason context) (category_layer rules reason later)
  unfolding category_layer
  category_layer-IsTighter rules reason =
      OnBoth-map IsTighter _ _ (category_rule rules (category_for_target context.target))
        (λ rule. rule-IsTighter rule.like _ _)

  same_layer : (r s : Result RangeError (Option Candidate)) → r ≡ s → Tightens r s
  same_layer r s e = rw (← e) (Related-refl (OnBoth-refl IsTighter IsTighter-refl) r)

  manual_layer-same : manual_layer P bundle context ≡ manual_layer P bundle later
  unfolding manual_layer routine_candidate
  manual_layer-same = refl

  scheduled_layer-same : scheduled_layer P bundle context ≡ scheduled_layer P bundle later
  unfolding scheduled_layer routine_candidate
  scheduled_layer-same = refl

  if-IsTighter :
      (b : Bool) (c d e : Candidate)
      → IsTighter d e
      → IsTighter (if b then c else d) (if b then c else e)
  if-IsTighter true c d e k = IsTighter-refl c
  if-IsTighter false c d e k = k

  explicit_layer-Tightens :
      Tightens (explicit_layer P bundle context) (explicit_layer P bundle later)
  unfolding explicit_layer
  explicit_layer-Tightens = elim (Option-cases (explicit_rule P bundle context.target)) [
    | inl missing ↦ rw (missing, explicit_layer) (both neither)
    | inr (rule, found) ↦
        rw (found, explicit_layer)
          (Related-bind (is_outside P rule.schedule _ _)
            (λ outside. both (each (if-IsTighter outside _ _ _ (rule-IsTighter rule.like _ _)))))
  ]

  unknown_target-IsTighter :
      (base : BasePolicy) → IsTighter (unknown_target base context) (unknown_target base later)
  unfolding unknown_target
  unknown_target-IsTighter base = ground (arith, used-le context.target context.usage more h)

  choose-IsTighter : Related IsTighter (choose P bundle context) (choose P bundle later)
  unfolding choose safety_layer
  choose-IsTighter =
      Related-or_else (both (OnBoth-refl IsTighter IsTighter-refl (safety_layer bundle context))) (
        Related-or_else override_layer-Tightens (
          Related-or_else (same_layer _ _ manual_layer-same) (
            Related-or_else (same_layer _ _ scheduled_layer-same) (
              Related-or_else explicit_layer-Tightens (
                Related-or_else (both (category_layer-IsTighter _ _)) (
                  Related-or_else (both (category_layer-IsTighter _ _))
                    (both (unknown_target-IsTighter bundle.base_policy))))))))

within-permits :
    (c c' : Candidate) (budget : Option ℕ) (seconds seconds' : ℕ) (stale stale' : Bool)
    → IsTighter c c'
    → seconds ≤ seconds'
    → permits (within_device_budget c' budget seconds' stale').action ≡ true
    → permits (within_device_budget c budget seconds stale).action ≡ true
unfolding within_device_budget
within-permits c c' budget seconds seconds' stale stale' t l = ground arith

-- More use never lifts a restriction: where no counter of `more` is below that of the context's own
-- use, and the target may run at the greater use, it may run at the lesser one too.
pub evaluate_policy_antitone :
    (P : Platform) (bundle : SignedPolicyBundle) (context : DecisionContext) (more : UsageView)
    (before after : PolicyDecision)
    → IsLess context.usage more
    → evaluate_policy P bundle context ≡ ok before
    → evaluate_policy P bundle (record context { usage = more }) ≡ ok after
    → permits after.action ≡ true
    → permits before.action ≡ true
evaluate_policy_antitone P bundle context more before after h e e' p =
    let d = IsDecided-of_eq P bundle context before e in
    let d' = IsDecided-of_eq P bundle (record context { usage = more }) after e' in
    let t = Related_values (choose-IsTighter P bundle context more h) d.chosen d'.chosen in
    let same : d'.active ≡ d.active =
      ok-injective (sym d'.looked_up ∙ unfold active_device_override in d.looked_up) in
    rw d.result (
      within-permits d.candidate d'.candidate _ _ _ d.stale d'.stale t h.device
        (rw (← same, ← d'.result) p))
