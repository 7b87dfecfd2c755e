-- ===== src/Mobile/Child/Events.antt =====
-- The events that the device sends: `appUsageEvents`, `contentRiskEventToDeviceEvent`,
-- `flushPendingContentRiskEvents` and `flushContentReviewOutbox`.
use Prim.Native.Nat.{min}
use you_tube_gradian_devin.Common.{
  ℕ, Text, text, starts_with, drop, length, Bool, ◌&&◌, Option, none, some, List, [], ◌∷◌, ◌++◌,
  map, filter, ltb,
}
use you_tube_gradian_devin.Common.Programs.{Program, return, throw, ◌>>=◌, ◌>>◌}
use you_tube_gradian_devin.Contracts.{
  SignalSource, source_text, ContentAction, CapabilityLevel, ContentRiskSeverity,
}
use you_tube_gradian_devin.Mobile.Session.{Failure}
use you_tube_gradian_devin.Mobile.Session.Network.{plain_error}

-- `app_ref` and `duration_seconds` of an event of the type `APP_USAGE`.
pub record UsageEvent : Type 0 where
  pub occurred_at : Text
  pub app_ref : Text
  pub duration_seconds : ℕ

abbrev pub is_app_usage : Text × ℕ → Bool
is_app_usage (target, seconds) = starts_with (text "APP:") target && ltb 0 seconds

abbrev pub usage_event : Text → Text × ℕ → UsageEvent
usage_event occurred_at (target, seconds) = record {
  occurred_at = occurred_at;
  app_ref = drop (length (text "APP:")) target;
  duration_seconds = min seconds 86400;
}

-- The seconds are whole ones, as the native module counts them.
unfoldable pub app_usage_events : List (Text × ℕ) → Text → List UsageEvent
app_usage_events by_target occurred_at =
    map (usage_event occurred_at) (filter is_app_usage by_target)

-- `R` is the type of the confidence, a number that is only passed on.
pub record PendingContentRiskEvent (R : Type 0) : Type 0 where
  pub signal_source : SignalSource
  pub app_ref : Text
  pub fingerprint : Text
  pub category : Text
  pub severity : ContentRiskSeverity
  pub confidence : R
  pub reason_code : Text
  pub classifier_version : Text
  pub capability_level : CapabilityLevel
  pub action : ContentAction
  pub occurred_at_millis : ℕ

pub record DeviceEvent (R : Type 0) : Type 0 where
  pub event_type : Text
  pub occurred_at : Text
  pub app_ref : Option Text
  pub domain : Option Text
  pub category : Option Text
  pub severity : Option ContentRiskSeverity
  pub confidence : Option R
  pub reason_code : Option Text
  pub signal_source : Option SignalSource
  pub action : Option ContentAction
  pub classifier_version : Option Text
  pub capability_level : Option CapabilityLevel
  pub content_fingerprint : Option Text

pub record ContentReviewRequest : Type 0 where
  pub app_ref : Text
  pub fingerprint : Text

module _ {R : Type 0} where
  abbrev pub device_event : (occurred_at : Text) → PendingContentRiskEvent R → DeviceEvent R
  device_event occurred_at event = record {
    event_type = text "SAFETY_CONTENT_RISK";
    occurred_at = occurred_at;
    app_ref = some event.app_ref;
    domain = none;
    category = some event.category;
    severity = some event.severity;
    confidence = some event.confidence;
    reason_code = some event.reason_code;
    signal_source = some event.signal_source;
    action = some event.action;
    classifier_version = some event.classifier_version;
    capability_level = some event.capability_level;
    content_fingerprint = some event.fingerprint;
  }

  -- `to_iso` is `new Date(millis).toISOString()`, which throws on a time out of its range.
  unfoldable pub content_risk_event_to_device_event :
      (to_iso : ℕ → Option Text) → PendingContentRiskEvent R → Option (DeviceEvent R)
  content_risk_event_to_device_event to_iso event = elim (to_iso event.occurred_at_millis) [
    | none ↦ none
    | some occurred_at ↦ some (device_event occurred_at event)
  ]

  abbrev pub risk_key : PendingContentRiskEvent R → Text
  risk_key event =
      text "content-risk:"
      ++ source_text event.signal_source
      ++ text ":"
      ++ event.app_ref
      ++ text ":"
      ++ event.fingerprint

abbrev pub review_key : ContentReviewRequest → Text
review_key request = text "content-review:" ++ request.app_ref ++ text ":" ++ request.fingerprint

module _ {S : Type 0} where
  -- The loop of both outboxes: an item is acknowledged once it has been delivered.
  unfoldable pub flush_each :
      {A : Type 0}
      → (deliver acknowledge : A → Program S Failure Unit) → List A
      → Program S Failure Unit
  flush_each deliver acknowledge [] = return tt
  flush_each deliver acknowledge (item ∷ items) = do
    deliver item
    acknowledge item
    flush_each deliver acknowledge items

  abbrev pub upload_converted :
      {R : Type 0}
      → (upload : DeviceEvent R → Text → Program S Failure Unit) → Text
      → Option (DeviceEvent R)
      → Program S Failure Unit
  upload_converted upload key none = throw (plain_error (text "Invalid time value"))
  upload_converted upload key (some event) = upload event key

  abbrev pub upload_event :
      {R : Type 0}
      → (to_iso : ℕ → Option Text) → (upload : DeviceEvent R → Text → Program S Failure Unit)
      → PendingContentRiskEvent R
      → Program S Failure Unit
  upload_event to_iso upload event =
      upload_converted upload (risk_key event) (content_risk_event_to_device_event to_iso event)

  unfoldable pub flush_pending_content_risk_events :
      {R : Type 0}
      → (to_iso : ℕ → Option Text) → List (PendingContentRiskEvent R)
      → (upload : DeviceEvent R → Text → Program S Failure Unit)
      → (acknowledge : SignalSource → Text → Text → Program S Failure Unit) → Program S Failure Unit
  flush_pending_content_risk_events to_iso events upload acknowledge =
      flush_each (upload_event to_iso upload)
        (λ event. acknowledge event.signal_source event.app_ref event.fingerprint) events

  unfoldable pub flush_content_review_outbox :
      (pending : Program S Failure (List ContentReviewRequest))
      → (create_request : ContentReviewRequest → Text → Program S Failure Unit)
      → (acknowledge : Text → Text → Program S Failure Unit) → Program S Failure Unit
  flush_content_review_outbox pending create_request acknowledge = do
    requests ← pending
    flush_each (λ request. create_request request (review_key request))
        (λ request. acknowledge request.app_ref request.fingerprint) requests
