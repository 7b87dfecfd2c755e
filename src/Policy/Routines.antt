-- ===== src/Policy/Routines.antt =====
-- `routineCandidate` and the two branches of `evaluatePolicy` on routines, in
-- packages/policy-schema/src/evaluator.ts.
use you_tube_gradian_devin.Common.{
  Text, text, text_eq, truthy, Bool, true, false, ◌&&◌, Option, none, some, List, [], ◌∷◌,
  if◌then◌else◌, ◌or_default◌, any, find, filter, Result, ok, ◌>>=◌, map_or_throw,
}
use you_tube_gradian_devin.Contracts.{PolicyDecisionAction, PolicyReasonCode}
use you_tube_gradian_devin.Policy.Bundle.{
  TargetKind, RoutineKind, WebMode, Routine, SignedPolicyBundle, TimeWindow,
}
use you_tube_gradian_devin.Policy.Platform.{Platform, RangeError}
use you_tube_gradian_devin.Policy.Window.{local_date_time, is_in_window}
use you_tube_gradian_devin.Policy.Rules.{Target, DecisionContext, Candidate, category_for_target}

abbrev pub includes_text : Option (List Text) → Text → Bool
includes_text none ref = false
includes_text (some refs) ref = any (λ entry. text_eq entry ref) refs

-- `category && categories?.includes(category)`
abbrev pub includes_category : Option (List Text) → Option Text → Bool
includes_category categories none = false
includes_category categories (some category) = truthy category && includes_text categories category

abbrev pub is_app : TargetKind → Bool
is_app TargetKind.app = true
is_app _ = false

abbrev pub is_domain : TargetKind → Bool
is_domain TargetKind.domain = true
is_domain _ = false

abbrev pub is_strict : Option WebMode → Bool
is_strict (some WebMode.strict) = true
is_strict (some WebMode.balanced) = false
is_strict none = false

abbrev pub is_scheduled : RoutineKind → Bool
is_scheduled RoutineKind.scheduled = true
is_scheduled RoutineKind.manual = false

abbrev pub is_manual : RoutineKind → Bool
is_manual RoutineKind.manual = true
is_manual RoutineKind.scheduled = false

-- A candidate of a routine.
abbrev pub of_routine : Routine → PolicyDecisionAction → PolicyReasonCode → Option Candidate
of_routine routine action reason = some (record {
  action = action;
  reason_code = reason;
  policy_rule_id = some routine.routine_id;
  budget_exempt = false;
})

-- The tests of `routineCandidate` below the one of the window.
unfoldable pub routine_verdict : Routine → Target → PolicyReasonCode → Option Candidate
unfolding category_for_target
routine_verdict routine target reason =
    let category = category_for_target target in
    if is_app target.kind && includes_text routine.blocked_apps target.ref
    then of_routine routine PolicyDecisionAction.block reason
    else if is_app target.kind && includes_text routine.allowed_apps target.ref
    then of_routine routine PolicyDecisionAction.allow reason
    else if includes_category routine.blocked_categories category
    then of_routine routine PolicyDecisionAction.block reason
    else if includes_category routine.allowed_categories category
    then of_routine routine PolicyDecisionAction.allow reason
    else if is_strict routine.web_mode && is_domain target.kind
    then of_routine routine PolicyDecisionAction.block reason
    else none

abbrev pub routine_context : SignedPolicyBundle → DecisionContext → DecisionContext
routine_context bundle context = record context {
  timezone = some (context.timezone or_default bundle.base_policy.timezone);
}

abbrev pub is_current : Text → Routine → Bool
is_current id routine = is_manual routine.kind && text_eq routine.routine_id id

abbrev pub current_manual : Option Text → List Routine → Option Routine
current_manual none routines = none
current_manual (some id) routines = if truthy id then find (is_current id) routines else none

abbrev pub first_candidate : List (Option Candidate) → Option Candidate
first_candidate [] = none
first_candidate (none ∷ rest) = first_candidate rest
first_candidate (some candidate ∷ rest) = some candidate

module _ (P : Platform) where
  -- `window` and the time of day, where the routine or the rule has a window.
  unfoldable pub is_inside : Option TimeWindow → Text → Text → Result RangeError Bool
  is_inside none timestamp timezone = ok false
  is_inside (some window) timestamp timezone = do
    date_time ← local_date_time P timestamp timezone
    ok (is_in_window window date_time)

  unfoldable pub routine_candidate :
      Routine → DecisionContext → PolicyReasonCode → Result RangeError (Option Candidate)
  unfolding is_inside routine_verdict
  routine_candidate routine context reason =
      if is_scheduled routine.kind
      then (do
        inside ← is_inside routine.window context.timestamp (context.timezone or_default text "UTC")
        ok (if inside then routine_verdict routine context.target reason else none))
      else ok (routine_verdict routine context.target reason)

  -- The manual routine that the context names says something of the target.
  unfoldable pub manual_layer :
      SignedPolicyBundle → DecisionContext → Result RangeError (Option Candidate)
  manual_layer bundle context =
      elim (current_manual context.current_manual_routine_id bundle.routines) [
        | none ↦ ok none
        | some manual ↦
            routine_candidate manual (routine_context bundle context)
              PolicyReasonCode.manual_routine
      ]

  -- The first scheduled routine that says something of the target; all of them are evaluated.
  unfoldable pub scheduled_layer :
      SignedPolicyBundle → DecisionContext → Result RangeError (Option Candidate)
  scheduled_layer bundle context = do
    candidates ←
        map_or_throw
          (λ routine.
            routine_candidate routine (routine_context bundle context)
              PolicyReasonCode.scheduled_routine)
          (filter (λ routine. is_scheduled routine.kind) bundle.routines)
    ok (first_candidate candidates)
