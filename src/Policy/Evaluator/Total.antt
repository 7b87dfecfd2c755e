-- ===== src/Policy/Evaluator/Total.antt =====
-- Where the evaluator returns a decision instead of throwing.
use you_tube_gradian_devin.Common.{
  Option-cases, inl, inr, ℕ, Text, Bool, false, Option, none, some, List, [], ◌∷◌, ◌≡◌, All, Result,
  ok, if◌then◌else◌, ◌or_default◌,
}
use you_tube_gradian_devin.Common.Results.Success.{
  returns, Succeeds, value_of_Succeeds, Succeeds-bind, Succeeds-map_or_throw, Succeeds-or_else,
  Succeeds-if, Succeeds-find_or_throw,
}
use you_tube_gradian_devin.Contracts.{PolicyDecision, PolicyReasonCode}
use you_tube_gradian_devin.Policy.Bundle.{
  SignedPolicyBundle, TemporaryOverride, Routine, TimeWindow,
}
use you_tube_gradian_devin.Policy.Platform.{Platform, ZonedDateTime, RangeError}
use you_tube_gradian_devin.Policy.Window.{instant_from, local_date_time}
use you_tube_gradian_devin.Policy.Rules.{DecisionContext, Candidate, is_active, stale_at}
use you_tube_gradian_devin.Policy.Budget.{active_device_override, candidate_decision}
use you_tube_gradian_devin.Policy.Routines.{
  is_inside, routine_candidate, manual_layer, scheduled_layer, current_manual, routine_context,
}
use you_tube_gradian_devin.Policy.Layers.{
  active_override, override_layer, explicit_layer, explicit_rule, is_outside,
}
use you_tube_gradian_devin.Policy.Evaluator.{choose, evaluate_policy}

-- Temporal reads the text as an instant.
abbrev pub IsInstant : Platform → Text → Type 0
IsInstant P timestamp = (n : ℕ) × (P.instant_from timestamp ≡ some n)

-- Temporal knows the time zone.
abbrev pub IsTimezone : Platform → Text → Type 0
IsTimezone P timezone = (n : ℕ) → (t : ZonedDateTime) × (P.to_zoned n timezone ≡ some t)

-- Every instant and the time zone that a decision may read can be read.
pub record IsReadable (P : Platform) (bundle : SignedPolicyBundle) (context : DecisionContext)
    : Type 0 where
  pub timestamp : IsInstant P context.timestamp
  pub soft_expiry : IsInstant P bundle.expires_soft_at
  pub overrides :
      All (λ o. IsInstant P o.starts_at × IsInstant P o.expires_at) bundle.temporary_overrides
  pub timezone : IsTimezone P (context.timezone or_default bundle.base_policy.timezone)

instant_from-Succeeds : (P : Platform) (t : Text) → IsInstant P t → Succeeds (instant_from P t)
unfolding instant_from
instant_from-Succeeds P t (n, e) = rw e (returns _)

module _ (P : Platform) (timestamp : Text) (now : IsInstant P timestamp) where
  stale_at-Succeeds : (t : Text) → IsInstant P t → Succeeds (stale_at P timestamp t)
  unfolding stale_at
  stale_at-Succeeds t h =
      Succeeds-bind _ (instant_from-Succeeds P timestamp now)
        (λ a. Succeeds-bind _ (instant_from-Succeeds P t h) (λ b. returns _))

  is_active-Succeeds :
      (o : TemporaryOverride)
      → IsInstant P o.starts_at × IsInstant P o.expires_at
      → Succeeds (is_active P timestamp o)
  unfolding is_active
  is_active-Succeeds o (s, e) = Succeeds-bind _ (instant_from-Succeeds P timestamp now) λ a.
      Succeeds-bind _ (instant_from-Succeeds P o.starts_at s) λ b.
        Succeeds-if _
          (Succeeds-bind _ (instant_from-Succeeds P timestamp now)
            (λ c. Succeeds-bind _ (instant_from-Succeeds P o.expires_at e) (λ d. returns _)))
          (returns false)

  -- A search for an active override among those that pass a test.
  guarded-Succeeds :
      (test : TemporaryOverride → Bool) (os : List TemporaryOverride)
      → All (λ o. IsInstant P o.starts_at × IsInstant P o.expires_at) os
      → All (λ o. Succeeds (if test o then is_active P timestamp o else ok false)) os
  guarded-Succeeds test [] h = tt
  guarded-Succeeds test (o ∷ os) (q, h) =
      (Succeeds-if (test o) (is_active-Succeeds o q) (returns false), guarded-Succeeds test os h)

  module _ (timezone : Text) (zone : IsTimezone P timezone) where
    local_date_time-Succeeds : Succeeds (local_date_time P timestamp timezone)
    unfolding local_date_time
    local_date_time-Succeeds =
        Succeeds-bind _ (instant_from-Succeeds P timestamp now)
          (λ n. let (t, e) = zone n in rw e (returns _))

    is_inside-Succeeds : (w : Option TimeWindow) → Succeeds (is_inside P w timestamp timezone)
    unfolding is_inside
    is_inside-Succeeds none = returns _
    is_inside-Succeeds (some w) = Succeeds-bind _ local_date_time-Succeeds (λ t. returns _)

    is_outside-Succeeds : (w : Option TimeWindow) → Succeeds (is_outside P w timestamp timezone)
    unfolding is_outside
    is_outside-Succeeds none = returns _
    is_outside-Succeeds (some w) = Succeeds-bind _ local_date_time-Succeeds (λ t. returns _)

module _ (P : Platform) (bundle : SignedPolicyBundle) (context : DecisionContext)
    (r : IsReadable P bundle context) where
  pub active_override-Succeeds : Succeeds (active_override P bundle context)
  unfolding active_override
  active_override-Succeeds =
      Succeeds-find_or_throw _ _ (guarded-Succeeds P context.timestamp r.timestamp _ _ r.overrides)

  override_layer-Succeeds : Succeeds (override_layer P bundle context)
  unfolding override_layer
  override_layer-Succeeds = Succeeds-bind _ active_override-Succeeds (λ o. returns _)

  routine_candidate-Succeeds :
      (routine : Routine) (reason : PolicyReasonCode)
      → Succeeds (routine_candidate P routine (routine_context bundle context) reason)
  unfolding routine_candidate
  routine_candidate-Succeeds routine reason =
      Succeeds-if _
        (Succeeds-bind _
          (is_inside-Succeeds P context.timestamp r.timestamp _ r.timezone routine.window)
          (λ b. returns _))
        (returns _)

  manual_layer-Succeeds : Succeeds (manual_layer P bundle context)
  unfolding manual_layer
  manual_layer-Succeeds = go (current_manual context.current_manual_routine_id bundle.routines)
    where
      go :
          (o : Option Routine)
          → Succeeds (elim o as (λ _. Result RangeError (Option Candidate)) [
            | none ↦ ok none
            | some manual ↦
                routine_candidate P manual
                  (routine_context bundle context)
                  PolicyReasonCode.manual_routine
          ])
      go none = returns _
      go (some manual) = routine_candidate-Succeeds manual _

  scheduled_layer-Succeeds : Succeeds (scheduled_layer P bundle context)
  unfolding scheduled_layer
  scheduled_layer-Succeeds =
      Succeeds-bind _ (Succeeds-map_or_throw _ _ (λ s. routine_candidate-Succeeds s _))
        (λ c. returns _)

  explicit_layer-Succeeds : Succeeds (explicit_layer P bundle context)
  unfolding explicit_layer
  explicit_layer-Succeeds = elim (Option-cases (explicit_rule P bundle context.target)) [
    | inl missing ↦ rw (missing, explicit_layer) (returns none)
    | inr (rule, found) ↦
        rw (found, explicit_layer)
          (Succeeds-bind _
            (is_outside-Succeeds P context.timestamp r.timestamp _ r.timezone rule.schedule)
            (λ outside. returns _))
  ]

  choose-Succeeds : Succeeds (choose P bundle context)
  unfolding choose
  choose-Succeeds = Succeeds-or_else (returns _) (
      Succeeds-or_else override_layer-Succeeds (
        Succeeds-or_else manual_layer-Succeeds (
          Succeeds-or_else scheduled_layer-Succeeds (
            Succeeds-or_else explicit_layer-Succeeds
              (Succeeds-or_else (returns _) (Succeeds-or_else (returns _) (returns _)))))))

  candidate_decision-Succeeds :
      (c : Candidate) (stale : Bool) → Succeeds (candidate_decision P c bundle context stale)
  unfolding candidate_decision active_device_override
  candidate_decision-Succeeds c stale =
      Succeeds-bind _
        (Succeeds-find_or_throw _ _
          (guarded-Succeeds P context.timestamp r.timestamp _ _ r.overrides))
        (λ o. returns _)

  evaluate_policy-Succeeds : Succeeds (evaluate_policy P bundle context)
  unfolding evaluate_policy
  evaluate_policy-Succeeds =
      Succeeds-bind _ (stale_at-Succeeds P context.timestamp r.timestamp _ r.soft_expiry)
        λ stale. Succeeds-bind _ choose-Succeeds (λ c. candidate_decision-Succeeds c stale)

  -- Where Temporal can read the moment, the soft expiry, the times of every temporary override and
  -- the child's time zone, the evaluator returns a decision; it throws at no input of this kind.
  pub evaluate_policy_total :
      (decision : PolicyDecision) × (evaluate_policy P bundle context ≡ ok decision)
  evaluate_policy_total = value_of_Succeeds evaluate_policy-Succeeds
