-- ===== src/Policy/Tests/Witnesses.antt =====
-- The theorems on the evaluator, at the bundle and the contexts of the tests.
use you_tube_gradian_devin.Common.{
  ℕ, Text, text, true, false, none, some, [], ◌∷◌, ◌≡◌, refl, inl, arith, ok, find, any,
}
use you_tube_gradian_devin.Contracts.{PolicyDecision, PolicyDecisionAction, PolicyReasonCode}
use you_tube_gradian_devin.Policy.Bundle.{
  TargetKind, DomainRule, TemporaryOverride, TimeWindow, subdomains,
}
use you_tube_gradian_devin.Policy.Platform.{ZonedDateTime}
use you_tube_gradian_devin.Policy.Window.{minutes_since_midnight, is_in_window}
use you_tube_gradian_devin.Policy.Window.Clock.{clock_text, minutes-clock_text}
use you_tube_gradian_devin.Policy.Window.Week.{
  IsWindow, is_in_window-eq-covers, covers, week_minute, minute_of_day,
}
use you_tube_gradian_devin.Policy.Domain.Labels.{domain}
use you_tube_gradian_devin.Policy.Rules.{usage_seconds_for_target, action_for_rule}
use you_tube_gradian_devin.Policy.Budget.{active_device_override, device_budget, permits}
use you_tube_gradian_devin.Policy.Layers.{is_allowlisted}
use you_tube_gradian_devin.Policy.Evaluator.{evaluate_policy}
use you_tube_gradian_devin.Policy.Evaluator.Total.{IsReadable, evaluate_policy_total}
use you_tube_gradian_devin.Policy.Evaluator.Candidates.{goes_with, may_exceed}
use you_tube_gradian_devin.Policy.Evaluator.Reasons.{
  evaluate_policy-goes_with, evaluate_policy_within_budget,
}
use you_tube_gradian_devin.Policy.Evaluator.Usage.{IsLess, evaluate_policy_antitone}
use you_tube_gradian_devin.Policy.Evaluator.Precedence.{
  IsInForce, evaluate_policy_allowlisted, evaluate_policy_overridden,
}
use you_tube_gradian_devin.Policy.Budget.{plain_decision}
use you_tube_gradian_devin.Policy.Tests.{
  platform, allow_video, no_games, bundle, used, opening, decided, run, games_limited,
  games_exhausted, video_overridden,
}

readable : (ref : Text) (seconds : ℕ) → IsReadable platform bundle (opening ref seconds)
readable ref seconds = record {
  timestamp = (b'M', refl);
  soft_expiry = (b'K', refl);
  overrides = (((b'A', refl), (b'Z', refl)), tt);
  timezone = λ n. (record { day_of_week = 1; hour = 12; minute = 0 }, refl);
}

evaluate_policy_total_example :
    (decision : PolicyDecision) × (evaluate_policy platform bundle (opening (text "games") 600)
      ≡ ok decision)
evaluate_policy_total_example =
    evaluate_policy_total platform bundle (opening (text "games") 600) (readable (text "games") 600)

evaluate_policy_allowlisted_example :
    (decision : PolicyDecision) × (evaluate_policy platform bundle (opening (text "phone") 9000)
      ≡ ok decision)
    × (decision.action ≡ PolicyDecisionAction.allow)
    × (decision.reason_code ≡ PolicyReasonCode.safety_allowlist)
    × (decision.policy_rule_id ≡ none)
evaluate_policy_allowlisted_example =
    evaluate_policy_allowlisted platform bundle (opening (text "phone") 9000)
      (record { target_kind = TargetKind.app; target_ref = text "phone" })
      (readable (text "phone") 9000) (inl refl) (refl, refl)

in_force : IsInForce platform bundle (opening (text "video") 7200) allow_video
unfolding run
in_force = record { listed = inl refl; matches = refl; active = refl }

not_listed :
    find (is_allowlisted (opening (text "video") 7200).target) bundle.base_policy.safety_allowlist
    ≡ none
unfolding run
not_listed = refl

evaluate_policy_overridden_example :
    (first : TemporaryOverride) × (decision : PolicyDecision) × IsInForce platform bundle
      (opening (text "video") 7200)
      first
    × (evaluate_policy platform bundle (opening (text "video") 7200) ≡ ok decision)
    × (decision
        ≡ plain_decision
            (action_for_rule first.like
              (usage_seconds_for_target (opening (text "video") 7200).target (used 7200))
              PolicyReasonCode.temporary_parent_override
              true)
            decision.bundle_stale)
evaluate_policy_overridden_example =
    evaluate_policy_overridden platform bundle (opening (text "video") 7200) allow_video
      (readable (text "video") 7200) not_listed in_force

evaluate_policy-goes_with_example :
    goes_with PolicyReasonCode.budget_exhausted PolicyDecisionAction.limit_reached ≡ true
evaluate_policy-goes_with_example =
    evaluate_policy-goes_with platform bundle (opening (text "games") 1800)
      (decided PolicyDecisionAction.limit_reached PolicyReasonCode.budget_exhausted
        (some (text "r1")))
      games_exhausted

no_device_override : active_device_override platform bundle (opening (text "video") 7200) ≡ ok none
unfolding run
no_device_override = refl

an_hour : device_budget bundle.base_policy none ≡ some 60
unfolding run
an_hour = refl

evaluate_policy_within_budget_example : may_exceed PolicyReasonCode.temporary_parent_override ≡ true
evaluate_policy_within_budget_example =
    evaluate_policy_within_budget platform bundle (opening (text "video") 7200) none 60
      (decided PolicyDecisionAction.allow PolicyReasonCode.temporary_parent_override
        (some (text "o1")))
      no_device_override an_hour (omega arith) video_overridden refl

more_use : IsLess (used 600) (used 1200)
more_use = record { device = omega arith; apps = λ ref. omega arith; categories = λ c. omega arith }

games_still_limited :
    evaluate_policy platform bundle (opening (text "games") 1200)
    ≡ ok (
        decided PolicyDecisionAction.allow_with_budget PolicyReasonCode.budget_available
          (some (text "r1")))
unfolding run
games_still_limited = refl

evaluate_policy_antitone_example : permits PolicyDecisionAction.allow_with_budget ≡ true
evaluate_policy_antitone_example =
    evaluate_policy_antitone platform bundle (opening (text "games") 600) (used 1200)
      (decided PolicyDecisionAction.allow_with_budget PolicyReasonCode.budget_available
        (some (text "r1")))
      (decided PolicyDecisionAction.allow_with_budget PolicyReasonCode.budget_available
        (some (text "r1")))
      more_use games_limited games_still_limited refl

abbrev fresh : PolicyDecision
fresh = record {
  action = PolicyDecisionAction.allow_with_budget;
  reason_code = PolicyReasonCode.budget_available;
  policy_rule_id = some (text "r1");
  bundle_stale = false;
}

games_fresh :
    evaluate_policy platform
      (record bundle { expires_soft_at = text "X" })
      (opening (text "games") 600)
    ≡ ok fresh
unfolding run
games_fresh = refl

abbrev budgeted : PolicyDecision
budgeted =
    decided PolicyDecisionAction.allow_with_budget PolicyReasonCode.budget_available
      (some (text "r1"))

-- Saturday 21:00 to 07:00, on Sunday at 06:30.
abbrev night : TimeWindow
night = record { days = 6 ∷ []; start = text "21:00"; end = text "07:00" }

abbrev sunday : ZonedDateTime
sunday = record { day_of_week = 7; hour = 6; minute = 30 }

night_reads : IsWindow night 1260 420
unfolding minutes_since_midnight
night_reads = record {
  reads_start = refl;
  reads_end = refl;
  start_in_day = omega arith;
  end_in_day = omega arith;
  day_names = ((omega arith, omega arith), tt);
}

is_in_window-eq-covers_example :
    is_in_window night sunday
    ≡ any (covers 1260 420 (week_minute 7 (minute_of_day sunday))) (6 ∷ [])
is_in_window-eq-covers_example = is_in_window-eq-covers night 1260 420 sunday night_reads (record {
  first_day = omega arith;
  last_day = omega arith;
  hours = omega arith;
  minutes = omega arith;
})

night_holds_sunday : is_in_window night sunday ≡ true
unfolding is_in_window minutes_since_midnight any
night_holds_sunday = refl

minutes-clock_text_example : minutes_since_midnight (clock_text 7 5) ≡ some 425
minutes-clock_text_example = minutes-clock_text 7 5 (omega arith) (omega arith)

abbrev subdomains_of_video : DomainRule
subdomains_of_video = record {
  body = no_games.body;
  domain = text "video.example";
  match = some subdomains;
}
