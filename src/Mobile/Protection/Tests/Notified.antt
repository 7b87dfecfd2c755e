-- ===== src/Mobile/Protection/Tests/Notified.antt =====
-- Native events that reach a screen whose service has been lost, and the theorem on them.
use you_tube_gradian_devin.Common.{ℕ, text, starts_with, none, some, List, [], ◌∷◌, ◌≡◌, refl}
use you_tube_gradian_devin.Common.Programs.{Ends, returned}
use you_tube_gradian_devin.Contracts.{ContentRiskSeverity}
use you_tube_gradian_devin.Mobile.Child.Reputation.{sync_reputation}
use you_tube_gradian_devin.Mobile.Protection.Native.{
  NativeEvent, web_blocked, time_warning, time_expired, safety_event, on_native_event,
  on_native_events, report_blocked, classify_pending,
}
use you_tube_gradian_devin.Mobile.Protection.Native.Told.{
  last_of, blocked_page, blocked_app, time_said, pages, reports, IsReporting, Leaves,
}
use you_tube_gradian_devin.Mobile.Protection.Native.Handled.{on_native_events-Leaves}
use you_tube_gradian_devin.Mobile.Protection.Tests.{World, native, mounted}

native-IsReporting : IsReporting native World.reports
native-IsReporting = record {
  reports_event = λ e c w. refl;
  clock = λ w. returned _ w refl;
  classifies = λ domain w. refl;
  versions = λ w. refl;
  fetches = λ v w. refl;
  applies = λ b w. refl;
  statuses = λ w. refl;
  capabilities = λ w. refl;
}

abbrev events : List (NativeEvent ℕ)
events =
    web_blocked (record {
      domain = some (text "example.org");
      category = none;
      app_ref = none;
      reason_code = text "REPUTATION_PENDING";
      correlation_id = some (text "a");
    })
    ∷ time_warning (text "chat") 60
    ∷ safety_event (record {
      category = text "BULLYING";
      severity = ContentRiskSeverity.high;
      confidence = 1;
      reason_code = none;
      app_ref = some (text "chat");
      occurred_at = text "1970";
      correlation_id = none;
    })
    ∷ time_expired (text "chat")
    ∷ []

reported_events :
    World.reports ((on_native_events native events mounted).1.0) ≡ none ∷ some (text "a") ∷ []
unfolding on_native_events on_native_event report_blocked classify_pending starts_with
    sync_reputation
reported_events = refl

on_native_events-Leaves_example :
    Ends
      (λ _.
        Leaves World.reports
          (pages events)
          (last_of blocked_page events)
          (last_of blocked_app events)
          (last_of time_said events)
          (reports events)
          mounted)
      (λ _ _. ⊥)
      (on_native_events native events mounted)
on_native_events-Leaves_example =
    on_native_events-Leaves native World.reports native-IsReporting events mounted
