-- ===== src/Mobile/Protection/View.antt =====
-- The state of the home screen of a child's device, and what it shows of the native module.
use you_tube_gradian_devin.Common.{
  ℕ, Text, text, Option, none, some, Bool, true, false, ◌&&◌, ◌||◌, not, if◌then◌else◌, ◌==◌,
}
use you_tube_gradian_devin.Contracts.{CapabilityLevel}
use you_tube_gradian_devin.Mobile.Session.{Failure}

pub record CapabilityStatus : Type 0 where
  pub level : CapabilityLevel
  pub detail : Option Text

-- The capabilities that the screen reads; the native module names all of them.
pub record Capabilities : Type 0 where
  pub vpn_filtering : CapabilityStatus
  pub web_filtering : CapabilityStatus
  pub app_blocking : CapabilityStatus
  pub accessibility_signals : CapabilityStatus
  pub communication_risk_signals : CapabilityStatus

pub data ProtectionHealth : Type 0 where
  healthy degraded disabled unknown : ProtectionHealth

pub record ProtectionStatus : Type 0 where
  pub active : Bool
  pub health : ProtectionHealth

-- What the screen says of the protection.
pub data ProtectionMessage : Type 0 where
  checking active active_limited unavailable permission_required not_applied : ProtectionMessage
  communication_permission_required : ProtectionMessage
  -- A detail that the native module gives.
  detailed : Text → ProtectionMessage

abbrev pub message_text : ProtectionMessage → Text
message_text checking = text "Checking web protection…"
message_text active =
    text
      "Web protection is active for encrypted DNS and known blocked destinations. Other traffic may bypass Guardian."
message_text active_limited =
    text "Web protection is active, but coverage may be limited. Some traffic may bypass Guardian."
message_text unavailable = text "Web protection is unavailable."
message_text permission_required = text "Web protection permission is required."
message_text not_applied = text "Protection policy could not be applied."
message_text communication_permission_required = text "Communication safety permission is required."
message_text (detailed detail) = detail

-- A `WEB_BLOCKED` event of the native module.
pub record WebBlocked : Type 0 where
  pub domain : Option Text
  pub category : Option Text
  pub app_ref : Option Text
  pub reason_code : Text
  pub correlation_id : Option Text

-- The state of the component, and the two references that outlive a rendering.
pub record View : Type 0 where
  pub protection_message : ProtectionMessage
  pub can_retry_protection : Bool
  pub accessibility_signals : Option CapabilityStatus
  pub app_blocking_available : Option Bool
  pub blocked_event : Option WebBlocked
  pub blocked_event_count : ℕ
  pub app_blocked_message : Option Text
  pub time_message : Option Text
  pub reputation_unavailable : Bool
  pub acknowledged_version : Option ℕ
  pub usage_uploaded : Bool
  pub inventory_uploaded : Bool

-- `level === "LIMITED" || level === "FULL"`
abbrev pub is_ready : CapabilityLevel → Bool
is_ready CapabilityLevel.full = true
is_ready CapabilityLevel.limited = true
is_ready _ = false

abbrev pub is_full : CapabilityLevel → Bool
is_full CapabilityLevel.full = true
is_full _ = false

-- `detail ?? fallback`
abbrev pub detail_or : Option Text → ProtectionMessage → ProtectionMessage
detail_or none fallback = fallback
detail_or (some detail) fallback = detailed detail

unfoldable pub message_for : ProtectionStatus → Capabilities → ProtectionMessage
message_for status capabilities =
    let vpn = capabilities.vpn_filtering in
    let vpn_ready = is_ready vpn.level in
    if not (status.active && vpn_ready)
    then (if vpn_ready
        then detail_or vpn.detail unavailable
        else detail_or vpn.detail permission_required)
    else if is_ready capabilities.web_filtering.level
    then active
    else active_limited

-- The setters of `refreshNativeProtection`.
unfoldable pub shown : ProtectionStatus → Capabilities → View → View
shown status capabilities view =
    let vpn_ready = is_ready capabilities.vpn_filtering.level in
    record view {
      can_retry_protection = not (status.active && vpn_ready) && vpn_ready;
      protection_message = message_for status capabilities;
      app_blocking_available = some (is_full capabilities.app_blocking.level);
      accessibility_signals = some capabilities.accessibility_signals;
    }

-- `isRevokedDeviceError` of an error that has a status.
unfoldable pub is_revoked_device_error : Option Failure → Bool
is_revoked_device_error none = false
is_revoked_device_error (some error) = elim error.status [
  | none ↦ false
  | some status ↦ status == 401 || status == 403
]

pub data PolicyState : Type 0 where
  loading stale loaded : PolicyState

unfoldable pub policy_state : (is_loading is_offline is_error : Bool) → PolicyState
policy_state is_loading is_offline is_error =
    if is_loading then loading else if is_offline || is_error then stale else loaded

unfoldable pub policy_state_message : (has_data is_offline : Bool) → Option Text
policy_state_message has_data is_offline =
    if has_data
    then none
    else if is_offline
    then some (text "You're offline. Last-known data may be shown.")
    else some (text "We couldn't load this data.")

-- `acknowledgedVersion === version`
abbrev pub is_version : Option ℕ → ℕ → Bool
is_version none version = false
is_version (some acknowledged) version = acknowledged == version

-- The text on the acknowledgement of the policy: the version and `version_mismatch` of the policy,
-- and the version that this device has acknowledged.
unfoldable pub acknowledgement_text : Option (ℕ × Bool) → Option ℕ → Text
acknowledgement_text none acknowledged = text "Policy status is not available yet."
acknowledgement_text (some (version, mismatch)) acknowledged =
    if mismatch && not (is_version acknowledged version)
    then text "Waiting for device acknowledgement."
    else text "Policy acknowledged by this device."
