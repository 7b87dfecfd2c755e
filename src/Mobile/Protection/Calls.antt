-- ===== src/Mobile/Protection/Calls.antt =====
-- What the home screen of a child's device calls: the native module and the client of the service.
use you_tube_gradian_devin.Common.{ℕ, Text, Option, List, Bool}
use you_tube_gradian_devin.Common.Programs.{Program}
use you_tube_gradian_devin.Contracts.{SignalSource}
use you_tube_gradian_devin.Mobile.Session.{Failure}
use you_tube_gradian_devin.Mobile.Child.Events.{
  UsageEvent, DeviceEvent, PendingContentRiskEvent, ContentReviewRequest,
}
use you_tube_gradian_devin.Mobile.Child.Reputation.{ReputationCalls}
use you_tube_gradian_devin.Mobile.Protection.View.{Capabilities, ProtectionStatus, ProtectionHealth}

-- `ApplyResult` of packages/contracts/src/types.ts.
pub data PolicyApplyResult : Type 0 where
  applied : (policy_version : ℕ) → PolicyApplyResult
  refused : (policy_version : Option ℕ) (reason : Text) → PolicyApplyResult

-- `policy.data`, where `B` is the type of a bundle.
pub record Policy (B : Type 0) : Type 0 where
  pub bundle : B
  pub policy_version : ℕ
  -- `bundle.communication_safety?.enabled`
  pub communication_safety : Bool

pub record ObservedApp : Type 0 where
  pub platform_app_id : Text
  pub display_name : Text
  pub category : Text
  pub observed_at : Text
  pub version_name : Option Text
  pub first_seen_at : Option Text
  pub last_seen_at : Option Text
  pub installation_state : Option Text
  pub capability_sources : Option (List Text)
  pub inventory_completeness : Option Text

-- `B` is the type of a bundle of policies, `R` of one of reputations, `A` of the approvals of
-- content, and `N` of a confidence.
pub record ProtectionCalls (S B R A N : Type 0) : Type 0 where
  -- Whether the effect that started the work has been cleaned up.
  pub is_cancelled : S → Bool
  pub apply_policy_bundle : B → Program S Failure PolicyApplyResult
  pub get_capabilities : Program S Failure Capabilities
  pub get_protection_status : Program S Failure ProtectionStatus
  pub start_protection : Program S Failure Unit
  pub acknowledge_policy : ℕ → Program S Failure Unit
  pub heartbeat : ProtectionHealth → Capabilities → Program S Failure Unit
  pub content_approvals : Program S Failure A
  pub apply_content_approvals : A → Program S Failure Unit
  pub pending_reviews : Program S Failure (List ContentReviewRequest)
  pub create_request : ContentReviewRequest → Text → Program S Failure Unit
  pub acknowledge_review : Text → Text → Program S Failure Unit
  pub pending_risks : Program S Failure (List (PendingContentRiskEvent N))
  pub ingest_risk : DeviceEvent N → Text → Program S Failure Unit
  pub acknowledge_risk : SignalSource → Text → Text → Program S Failure Unit
  pub to_iso : ℕ → Option Text
  pub reputation : ReputationCalls S R
  -- The seconds of the last day by target.
  pub get_usage_summary : Program S Failure (List (Text × ℕ))
  -- `new Date().toISOString()`
  pub now : Program S Failure Text
  pub ingest_usage : List UsageEvent → Program S Failure Unit
  pub get_observed_apps : Program S Failure (List ObservedApp)
  pub ingest_inventory : List ObservedApp → Program S Failure Unit
  -- Whether this is a development build on Android, and the metrics that it logs.
  pub is_dev : Bool
  pub get_performance_metrics : Program S Failure Unit
  pub open_accessibility_settings : Program S Failure Unit
  pub set_accessibility_content_consent : Bool → Program S Failure Unit
  pub classify_domain : Text → Program S Failure Unit
  pub ingest_event : DeviceEvent N → Option Text → Program S Failure Unit
