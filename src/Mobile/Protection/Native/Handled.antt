-- ===== src/Mobile/Protection/Native/Handled.antt =====
-- How the screen handles the native events.
use you_tube_gradian_devin.Common.{
  ◌+◌, Text, text, text_eq, Option, none, some, List, [], ◌∷◌, ◌≡◌, refl,
}
use you_tube_gradian_devin.Common.Programs.{return, Ends, Ends-bind, Ends-weaken, returned}
use you_tube_gradian_devin.Common.Programs.Screens.{lift, update, ignored}
use you_tube_gradian_devin.Common.Programs.Endings.{Ends-if}
use you_tube_gradian_devin.Mobile.Protection.View.{WebBlocked, View}
use you_tube_gradian_devin.Mobile.Protection.Calls.{ProtectionCalls}
use you_tube_gradian_devin.Mobile.Protection.Sync.{refresh_native_protection}
use you_tube_gradian_devin.Mobile.Protection.Native.{
  safety_device_event, NativeEvent, protection_status_changed, app_blocked, web_blocked,
  time_warning, time_expired, safety_event, policy_applied, permission_state_changed,
  reputation_status_changed, report_blocked, classify_pending, on_native_event, on_native_events,
}
use you_tube_gradian_devin.Mobile.Protection.Native.Told.{
  last_of, blocked_page, pages_of, blocked_app, time_said, reports_of, pages, reports, IsReporting,
  Leaves, Leaves-trans,
}
use you_tube_gradian_devin.Mobile.Protection.Native.Quiet.{
  said, LeavesNothing, LeavesNothing-IsGraded, ignored-Ends, refresh-Goes, classify_pending-Ends,
  report_blocked-Ends, lift_Ends,
}

module _ {S B R A N : Type 0} (calls : ProtectionCalls S B R A N) (sent : S → List (Option Text))
    (I : IsReporting calls sent) where
  abbrev pub After : NativeEvent N → S × View → S × View → Type 0
  After event =
      Leaves sent (pages_of event) (blocked_page event) (blocked_app event) (time_said event)
        (reports_of event)

  counted : WebBlocked → View → View
  counted event view = record view {
    blocked_event = some event;
    blocked_event_count = view.blocked_event_count + 1;
  }

  web_blocked-Ends :
      (event : WebBlocked) (screen : S × View)
      → Ends
          (λ _. After (web_blocked event) screen)
          (λ _ _. ⊥)
          (on_native_event calls (web_blocked event) screen)
  unfolding on_native_event counted
  web_blocked-Ends event (s, view) =
      let seen : S × View = (s, counted event view) in
      let shows : Leaves sent 1 (some event) none none [] (s, view) seen = record {
        count = refl;
        blocked = refl;
        app_message = refl;
        time_message = refl;
        sent_reports = refl;
      } in
      Ends-bind (λ _. lift (classify_pending calls event.domain event.reason_code))
        (lift_Ends calls sent I (event.correlation_id ∷ []) seen (report_blocked calls event)
          (report_blocked-Ends calls sent I event s))
        (λ _ t h.
          Ends-weaken
            (lift_Ends calls sent I [] t (classify_pending calls event.domain event.reason_code)
              (classify_pending-Ends calls sent I event.domain event.reason_code (t.0)))
            (λ _ u k. Leaves-trans sent (Leaves-trans sent shows h) k) (λ _ u k. k))

  on_native_event-Ends :
      (event : NativeEvent N) (screen : S × View)
      → Ends (λ _. After event screen) (λ _ _. ⊥) (on_native_event calls event screen)
  unfolding on_native_event
  on_native_event-Ends (web_blocked event) screen = web_blocked-Ends event screen
  on_native_event-Ends (safety_event event) screen =
      let e = safety_device_event event in
      lift_Ends calls sent I (event.correlation_id ∷ []) screen
        (ignored (calls.ingest_event e event.correlation_id))
        (ignored-Ends calls sent I {P = λ u. sent u ≡ event.correlation_id ∷ sent (screen.0)}
          (calls.ingest_event e event.correlation_id) (screen.0)
          (I.reports_event e event.correlation_id (screen.0)))
  on_native_event-Ends (protection_status_changed status) screen =
      ignored-Ends calls sent I {P = LeavesNothing calls sent I 0 screen}
        (refresh_native_protection calls) screen ((refresh-Goes calls sent I).goes screen)
  on_native_event-Ends (permission_state_changed capability state) screen =
      Ends-if (text_eq capability (text "app_blocking"))
        (update
          (λ view. record view { app_blocking_available = some (text_eq state (text "FULL")) }))
        (return tt) screen
        (λ _. returned tt _ (said calls sent I none none (screen.0) refl refl refl refl))
        (λ _. returned tt screen ((LeavesNothing-IsGraded calls sent I).nothing screen))
  on_native_event-Ends (app_blocked app_ref reason_code) screen =
      let event : NativeEvent N = app_blocked app_ref reason_code in
      returned tt _
        (said calls sent I (blocked_app event) (time_said event) (screen.0) refl refl refl refl)
  on_native_event-Ends (time_warning target_ref remaining_seconds) screen =
      let event : NativeEvent N = time_warning target_ref remaining_seconds in
      returned tt _
        (said calls sent I (blocked_app event) (time_said event) (screen.0) refl refl refl refl)
  on_native_event-Ends (time_expired target_ref) screen =
      let event : NativeEvent N = time_expired target_ref in
      returned tt _
        (said calls sent I (blocked_app event) (time_said event) (screen.0) refl refl refl refl)
  on_native_event-Ends (policy_applied version) screen =
      returned tt screen ((LeavesNothing-IsGraded calls sent I).nothing screen)
  on_native_event-Ends (reputation_status_changed version reason) screen =
      returned tt screen ((LeavesNothing-IsGraded calls sent I).nothing screen)

  -- Whichever of its calls throw, the screen handles a sequence of native events without throwing:
  -- its count grows by the number of blocked pages, and it shows the newest blocked page, the newest
  -- blocked application and the newest word on the time; each blocked page and each safety event is
  -- reported to the service once, under its own correlation and in their order, and nothing else is.
  pub on_native_events-Leaves :
      (events : List (NativeEvent N)) (screen : S × View)
      → Ends
          (λ _.
            Leaves sent
              (pages events)
              (last_of blocked_page events)
              (last_of blocked_app events)
              (last_of time_said events)
              (reports events)
              screen)
          (λ _ _. ⊥)
          (on_native_events calls events screen)
  unfolding on_native_events
  on_native_events-Leaves [] screen =
      returned tt screen ((LeavesNothing-IsGraded calls sent I).nothing screen)
  on_native_events-Leaves (event ∷ events) screen =
      Ends-bind (λ _. on_native_events calls events) (on_native_event-Ends event screen)
        (λ _ t h.
          Ends-weaken (on_native_events-Leaves events t) (λ _ u k. Leaves-trans sent h k)
            (λ _ u k. k))
