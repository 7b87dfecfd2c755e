-- ===== src/Mobile/Protection/Native.antt =====
-- The subscription of `ChildHomeRoute` to the events of the native module, and the questions that
-- the screen asks before it opens the settings.
pub mod Told
pub mod Quiet
pub mod Handled
use you_tube_gradian_devin.Common.{
  ℕ, ◌+◌, Text, text, text_eq, truthy, starts_with, decimal, Option, none, some, List, [], ◌∷◌,
  ◌++◌, Bool, true, false, ◌&&◌, if◌then◌else◌,
}
use you_tube_gradian_devin.Common.Programs.{Program, return, ◌>>=◌, ◌>>◌, on_error}
use you_tube_gradian_devin.Common.Programs.Screens.{lift, update, ignored, when}
use you_tube_gradian_devin.Contracts.{ContentRiskSeverity}
use you_tube_gradian_devin.Mobile.Session.{Failure}
use you_tube_gradian_devin.Mobile.Child.Events.{DeviceEvent}
use you_tube_gradian_devin.Mobile.Child.Reputation.{sync_reputation}
use you_tube_gradian_devin.Mobile.Protection.View.{ProtectionStatus, WebBlocked, View}
use you_tube_gradian_devin.Mobile.Protection.Calls.{ProtectionCalls}
use you_tube_gradian_devin.Mobile.Protection.Sync.{refresh_native_protection}

-- A `SAFETY_EVENT`.
pub record SafetyEvent (N : Type 0) : Type 0 where
  pub category : Text
  pub severity : ContentRiskSeverity
  pub confidence : N
  pub reason_code : Option Text
  pub app_ref : Option Text
  pub occurred_at : Text
  pub correlation_id : Option Text

-- `GuardianNativeEvent`; the correlation of the other events is only logged.
pub data NativeEvent (N : Type 0) : Type 0 where
  protection_status_changed : (status : ProtectionStatus) → NativeEvent N
  app_blocked : (app_ref reason_code : Text) → NativeEvent N
  web_blocked : WebBlocked → NativeEvent N
  time_warning : (target_ref : Text) (remaining_seconds : ℕ) → NativeEvent N
  time_expired : (target_ref : Text) → NativeEvent N
  safety_event : SafetyEvent N → NativeEvent N
  policy_applied : (version : ℕ) → NativeEvent N
  permission_state_changed : (capability state : Text) → NativeEvent N
  reputation_status_changed : (version : Option ℕ) (reason : Text) → NativeEvent N

-- The dot between two parts of a message, U+00B7.
abbrev pub separated : Text → Text → Text
separated first rest = first ++ (32 ∷ 183 ∷ 32 ∷ rest)

abbrev pub blocked_device_event : {N : Type 0} → Text → WebBlocked → DeviceEvent N
blocked_device_event occurred_at event = record {
  event_type = text "WEB_BLOCKED";
  occurred_at = occurred_at;
  app_ref = event.app_ref;
  domain = event.domain;
  category = event.category;
  severity = none;
  confidence = none;
  reason_code = none;
  signal_source = none;
  action = none;
  classifier_version = none;
  capability_level = none;
  content_fingerprint = none;
}

abbrev pub safety_device_event : {N : Type 0} → SafetyEvent N → DeviceEvent N
safety_device_event event = record {
  event_type = text "SAFETY_" ++ event.category;
  occurred_at = event.occurred_at;
  app_ref = event.app_ref;
  domain = none;
  category = some event.category;
  severity = some event.severity;
  confidence = some event.confidence;
  reason_code = event.reason_code;
  signal_source = none;
  action = none;
  classifier_version = none;
  capability_level = none;
  content_fingerprint = none;
}

module _ {S B R A N : Type 0} (calls : ProtectionCalls S B R A N) where
  unfoldable pub report_blocked : WebBlocked → Program S Failure Unit
  report_blocked event = do
    occurred_at ← calls.now
    ignored (calls.ingest_event (blocked_device_event occurred_at event) event.correlation_id)

  -- A domain whose reputation is pending is classified, and the reputations are fetched again.
  unfoldable pub classify_pending :
      (domain : Option Text) (reason_code : Text) → Program S Failure Unit
  classify_pending none reason_code = return tt
  classify_pending (some domain) reason_code =
      when (truthy domain && starts_with (text "REPUTATION_PENDING") reason_code)
        (ignored (do calls.classify_domain domain; sync_reputation calls.reputation))

  -- The listener of the subscription.
  unfoldable pub on_native_event : NativeEvent N → Program (S × View) Failure Unit
  on_native_event (web_blocked event) = do
    update (λ view. record view {
      blocked_event = some event;
      blocked_event_count = view.blocked_event_count + 1;
    })
    lift (report_blocked event)
    lift (classify_pending event.domain event.reason_code)
  on_native_event (safety_event event) =
      lift (ignored (calls.ingest_event (safety_device_event event) event.correlation_id))
  on_native_event (app_blocked app_ref reason_code) =
      update (λ view. record view { app_blocked_message = some (separated app_ref reason_code) })
  on_native_event (time_warning target_ref remaining_seconds) = update (λ view. record view {
    time_message = some (separated target_ref (decimal remaining_seconds ++ text "s remaining"));
  })
  on_native_event (time_expired target_ref) =
      update
        (λ view. record view { time_message = some (separated target_ref (text "time expired")) })
  on_native_event (permission_state_changed capability state) =
      when (text_eq capability (text "app_blocking")) (
        update
          (λ view. record view { app_blocking_available = some (text_eq state (text "FULL")) }))
  on_native_event (protection_status_changed status) = ignored (refresh_native_protection calls)
  on_native_event (policy_applied version) = return tt
  on_native_event (reputation_status_changed version reason) = return tt

  -- The events that the native module emits one after the other.
  unfoldable pub on_native_events : List (NativeEvent N) → Program (S × View) Failure Unit
  on_native_events [] = return tt
  on_native_events (event ∷ events) = do on_native_event event; on_native_events events

  -- The answers to `requestAccessibilityContentConsent`.
  unfoldable pub answer_consent : (is_granted : Bool) → Program S Failure Unit
  answer_consent is_granted =
      if is_granted
      then ignored
          (do calls.set_accessibility_content_consent true; calls.open_accessibility_settings)
      else calls.set_accessibility_content_consent false

  -- The button "Enable app limits".
  unfoldable pub enable_app_limits : Program S Failure Unit
  enable_app_limits = ignored calls.open_accessibility_settings
