-- ===== src/Policy/Tests.antt =====
-- A bundle, a platform and contexts on which the evaluator is run, and the theorems at them.
mod Witnesses
mod Validated
use you_tube_gradian_devin.Common.{
  ℕ, Text, text, text_eq, Bool, true, false, Option, none, some, List, [], ◌∷◌, ◌≡◌, refl, inl, inr,
  arith, Result, ok, err, find_or_throw, map_or_throw, ◌or_else◌, find, filter, any, In, ◌<◌, ◌≤◌,
  ◌*◌, leb, ◌++◌, truthy, reverse,
}
use you_tube_gradian_devin.Contracts.{
  PolicyDecision, PolicyDecisionAction, PolicyReasonCode, UsageView,
}
use you_tube_gradian_devin.Policy.Bundle.{
  SignedPolicyBundle, BasePolicy, AgeBand, UnknownDomainPolicy, UnknownAppPolicy, Action,
  TargetKind, OverrideKind, RuleLike, RuleBody, AppRule, DomainRule, TemporaryOverride,
  AllowlistEntry, Severity, TimeWindow, Match, exact, subdomains,
}
use you_tube_gradian_devin.Policy.Platform.{Platform, ZonedDateTime, IsClock, RangeError}
use you_tube_gradian_devin.Policy.Window.{
  instant_from, local_date_time, minutes_since_midnight, is_in_window,
}
use you_tube_gradian_devin.Policy.Window.Clock.{clock_text, minutes-clock_text}
use you_tube_gradian_devin.Policy.Window.Week.{
  IsWindow, is_in_window-eq-covers, covers, week_minute, minute_of_day,
}
use you_tube_gradian_devin.Policy.Domain.{
  ends_with, includes, to_lower_case, drop_last_dot, normalized_domain, domain_matches,
  most_specific_domain_rule, select_from, consider,
}
use you_tube_gradian_devin.Policy.Domain.Labels.{IsCovered, host, domain}
use you_tube_gradian_devin.Policy.Domain.Specific.{IsAnswer}
use you_tube_gradian_devin.Policy.Rules.{
  Target, DecisionContext, last_matching, last_matching_from, usage_seconds_for_target,
  category_for_target, action_for_rule, override_matches, is_active, stale_at,
}
use you_tube_gradian_devin.Policy.Rules.Last.{last_matching-eq-find}
use you_tube_gradian_devin.Policy.Budget.{
  candidate_decision, active_device_override, device_budget, within_device_budget, permits,
}
use you_tube_gradian_devin.Policy.Routines.{manual_layer, scheduled_layer}
use you_tube_gradian_devin.Policy.Layers.{
  safety_layer, active_override, override_layer, explicit_layer, explicit_rule, is_outside,
  category_layer, unknown_target, is_allowlisted,
}
use you_tube_gradian_devin.Policy.Evaluator.{choose, evaluate_policy}

-- An instant is the code of the text's first character; the zone is always noon on a Monday.
abbrev pub platform : Platform
platform = record {
  instant_from = λ t. elim t [ [] ↦ none | c ∷ _ ↦ some c ];
  to_zoned = λ n zone. some (record { day_of_week = 1; hour = 12; minute = 0 });
  url_hostname = λ t. elim t [ [] ↦ none | c ∷ _ ↦ some (text "www.video.example") ];
  get_domain = λ t. some (text "video.example");
  get_public_suffix = λ t. some (text "example");
}

abbrev allow_video : TemporaryOverride
allow_video = record {
  like = record { rule_id = text "o1"; action = Action.allow; daily_minutes = none };
  target_kind = OverrideKind.app;
  target_ref = text "video";
  starts_at = text "A";
  expires_at = text "Z";
}

abbrev no_games : AppRule
no_games = record {
  body = record {
    like = record { rule_id = text "r1"; action = Action.limit; daily_minutes = some 30 };
    schedule = none;
    exclude_from_budget = none;
  };
  app_ref = text "games";
}

abbrev pub bundle : SignedPolicyBundle
bundle = record {
  schema_version = 1;
  policy_version = 3;
  family_id = text "f";
  child_profile_id = text "c";
  issued_at = text "A";
  expires_soft_at = text "K";
  key_id = text "k";
  age_band = AgeBand.teen;
  base_policy = record {
    timezone = text "UTC";
    unknown_domain_policy = UnknownDomainPolicy.block;
    unknown_app_policy = UnknownAppPolicy.allow;
    current_manual_routine_id = none;
    unknown_app_daily_minutes = none;
    daily_device_budget_minutes = some 60;
    hard_category_rules = [];
    default_category_rules = [];
    safety_allowlist = record { target_kind = TargetKind.app; target_ref = text "phone" } ∷ [];
  };
  app_rules = no_games ∷ [];
  domain_rules = [];
  category_rules = [];
  routines = [];
  temporary_overrides = allow_video ∷ [];
  communication_safety = record {
    enabled = true;
    severity_threshold = Severity.high;
    android_notification_signals = true;
    android_accessibility_signals = false;
  };
  signature = text "s";
}

abbrev used : ℕ → UsageView
used seconds = record {
  device_seconds_today = seconds;
  app_seconds_today = λ ref. some seconds;
  category_seconds_today = λ category. none;
}

abbrev pub opening : Text → ℕ → DecisionContext
opening ref seconds = record {
  target = record { kind = TargetKind.app; ref = ref; category = none };
  timestamp = text "M";
  timezone = none;
  usage = used seconds;
  current_manual_routine_id = none;
  reputation_verdict = none;
}

abbrev decided : PolicyDecisionAction → PolicyReasonCode → Option Text → PolicyDecision
decided action reason id = record {
  action = action;
  reason_code = reason;
  policy_rule_id = id;
  bundle_stale = true;
}

-- The evaluator on this bundle; to unfold it is to unfold all that it calls.
run : DecisionContext → Result RangeError PolicyDecision
unfolding evaluate_policy choose stale_at instant_from ◌or_else◌ safety_layer find text_eq
    override_layer active_override find_or_throw override_matches is_active manual_layer
    scheduled_layer map_or_throw filter explicit_layer explicit_rule is_outside last_matching
    action_for_rule usage_seconds_for_target candidate_decision active_device_override
    within_device_budget device_budget category_layer category_for_target unknown_target
run context = evaluate_policy platform bundle context

games_limited :
    evaluate_policy platform bundle (opening (text "games") 600)
    ≡ ok (
        decided PolicyDecisionAction.allow_with_budget PolicyReasonCode.budget_available
          (some (text "r1")))
unfolding run
games_limited = refl

games_exhausted :
    evaluate_policy platform bundle (opening (text "games") 1800)
    ≡ ok (
        decided PolicyDecisionAction.limit_reached PolicyReasonCode.budget_exhausted
          (some (text "r1")))
unfolding run
games_exhausted = refl

video_overridden :
    evaluate_policy platform bundle (opening (text "video") 7200)
    ≡ ok (
        decided PolicyDecisionAction.allow PolicyReasonCode.temporary_parent_override
          (some (text "o1")))
unfolding run
video_overridden = refl

unknown_over_budget :
    evaluate_policy platform bundle (opening (text "chess") 7200)
    ≡ ok (decided PolicyDecisionAction.limit_reached PolicyReasonCode.device_budget_exhausted none)
unfolding run
unknown_over_budget = refl
