-- ===== src/Contracts.antt =====
-- packages/contracts/src/types.ts: the decision that the policy engine returns and the usage
-- counters that it reads. A union of string literals is a data type; a record of counters is a
-- function from its keys, `none` where the key is missing.
pub mod Guards
pub mod Guarded
mod Tests
use you_tube_gradian_devin.Common.{text, ℕ, Text, Bool, Option}

pub data PolicyDecisionAction : Type 0 where
  allow block limit_reached allow_with_budget : PolicyDecisionAction

pub data PolicyReasonCode : Type 0 where
  safety_allowlist temporary_parent_override manual_routine scheduled_routine : PolicyReasonCode
  explicit_target_rule age_band_hard_category default_category_rule : PolicyReasonCode
  unknown_app_policy unknown_app_budget_available unknown_app_budget_exhausted : PolicyReasonCode
  unknown_domain_policy budget_available budget_exhausted : PolicyReasonCode
  device_budget_exhausted requires_parent_approval schedule_outside_window : PolicyReasonCode
  temporary_override_expired soft_expired_bundle tampered_signature : PolicyReasonCode

pub record PolicyDecision : Type 0 where
  pub action : PolicyDecisionAction
  pub reason_code : PolicyReasonCode
  pub policy_rule_id : Option Text
  pub bundle_stale : Bool

pub record UsageView : Type 0 where
  pub device_seconds_today : ℕ
  pub app_seconds_today : Text → Option ℕ
  pub category_seconds_today : Text → Option ℕ

pub data CapabilityLevel : Type 0 where
  full limited best_effort unavailable region_limited : CapabilityLevel

pub data SignalSource : Type 0 where
  notification accessibility_text network_destination usage media_metadata : SignalSource

pub data ContentAction : Type 0 where
  allow warn block_and_request : ContentAction

pub data ContentRiskSeverity : Type 0 where
  low medium high critical : ContentRiskSeverity

-- The text that a source is in JSON and in a template.
abbrev pub source_text : SignalSource → Text
source_text SignalSource.notification = text "NOTIFICATION"
source_text SignalSource.accessibility_text = text "ACCESSIBILITY_TEXT"
source_text SignalSource.network_destination = text "NETWORK_DESTINATION"
source_text SignalSource.usage = text "USAGE"
source_text SignalSource.media_metadata = text "MEDIA_METADATA"
