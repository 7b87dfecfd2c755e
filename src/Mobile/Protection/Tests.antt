-- ===== src/Mobile/Protection/Tests.antt =====
-- A native module that filters, a service that has lost the uploads, and the theorems on them.
mod Notified
use you_tube_gradian_devin.Common.{
  ℕ, Text, text, Option, none, some, List, [], ◌∷◌, Bool, true, false, refl, Result, ok, err,
}
use you_tube_gradian_devin.Common.Programs.{Program, Ends, returned}
use you_tube_gradian_devin.Contracts.{CapabilityLevel}
use you_tube_gradian_devin.Mobile.Session.{Failure}
use you_tube_gradian_devin.Mobile.Session.Network.{plain_error}
use you_tube_gradian_devin.Mobile.Protection.View.{
  CapabilityStatus, Capabilities, healthy, checking, View,
}
use you_tube_gradian_devin.Mobile.Protection.Calls.{applied, Policy, ProtectionCalls}
use you_tube_gradian_devin.Mobile.Protection.Sync.{run_sync, resume, refresh}
use you_tube_gradian_devin.Mobile.Protection.Honest.{IsNative, IsHonest, run_sync-IsHonest}
use you_tube_gradian_devin.Mobile.Protection.Protocol.{
  Event, applied_policy, saw_capabilities, started, acknowledged, reported, Phase, Since, IsLogged,
}
use you_tube_gradian_devin.Mobile.Protection.Protocol.Refined.{run_sync-Follows}

pub record World : Type 0 where
  pub log : List Event
  pub is_on : Bool
  -- The correlations of the events that have been reported.
  pub reports : List (Option Text)

abbrev keep : Event → World → World
keep e w = record w { log = e ∷ w.log }

abbrev fails : {A : Type 0} → Program World Failure A
fails w = (err (plain_error (text "offline")), w)

abbrev does : {A : Type 0} → A → Program World Failure A
does a w = (ok a, w)

abbrev ready_status : CapabilityStatus
ready_status = record { level = CapabilityLevel.limited; detail = none }

abbrev ready : Capabilities
ready = record {
  vpn_filtering = ready_status;
  web_filtering = ready_status;
  app_blocking = ready_status;
  accessibility_signals = ready_status;
  communication_risk_signals = ready_status;
}

abbrev pub native : ProtectionCalls World ℕ ℕ ℕ ℕ
native = record {
  is_cancelled = λ w. false;
  apply_policy_bundle = λ b w. (ok (applied b), keep (applied_policy (applied b)) w);
  get_capabilities = λ w. (ok ready, keep (saw_capabilities ready) w);
  get_protection_status = λ w. (ok (record { active = w.is_on; health = healthy }), w);
  start_protection = λ w. (ok tt, keep started (record w { is_on = true }));
  acknowledge_policy = λ v w. (ok tt, keep (acknowledged v) w);
  heartbeat = λ h c w. (ok tt, keep (reported h c) w);
  content_approvals = fails;
  apply_content_approvals = λ a. does tt;
  pending_reviews = does [];
  create_request = λ r key. does tt;
  acknowledge_review = λ a f. does tt;
  pending_risks = does [];
  ingest_risk = λ e key. fails;
  acknowledge_risk = λ source a f. does tt;
  to_iso = λ millis. some (text "1970");
  reputation = record { get_version = fails; fetch = λ v. fails; apply = λ b. fails };
  get_usage_summary = does ((text "APP:chat", 60) ∷ []);
  now = does (text "1970");
  ingest_usage = λ events. fails;
  get_observed_apps = does [];
  ingest_inventory = λ apps. fails;
  is_dev = false;
  get_performance_metrics = does tt;
  open_accessibility_settings = does tt;
  set_accessibility_content_consent = λ granted. does tt;
  classify_domain = λ domain. does tt;
  ingest_event = λ event correlation w. fails (record w { reports = correlation ∷ w.reports });
}

native-IsNative : IsNative native World.is_on
native-IsNative = record { tells = λ w. returned _ w refl; asks = λ w. refl }

native-IsLogged : IsLogged native World.log
native-IsLogged = record {
  apply_logs = λ b w. returned _ _ refl;
  capabilities_log = λ w. returned _ _ refl;
  start_logs = λ w. returned _ _ refl;
  acknowledge_logs = λ v w. returned _ _ refl;
  heartbeat_logs = λ h c w. returned _ _ refl;
  status_keeps = λ w. refl;
  approvals_keep = λ w. refl;
  apply_approvals_keeps = λ a w. refl;
  reviews_keep = λ w. refl;
  create_keeps = λ r key w. refl;
  review_done_keeps = λ a f w. refl;
  risks_keep = λ w. refl;
  ingest_risk_keeps = λ e key w. refl;
  risk_done_keeps = λ source a f w. refl;
  version_keeps = λ w. refl;
  fetch_keeps = λ v w. refl;
  reputation_keeps = λ b w. refl;
  usage_keeps = λ w. refl;
  now_keeps = λ w. refl;
  ingest_usage_keeps = λ es w. refl;
  observed_keeps = λ w. refl;
  inventory_keeps = λ apps w. refl;
  metrics_keep = λ w. refl;
}

abbrev policy : Policy ℕ
policy = record { bundle = 4; policy_version = 4; communication_safety = true }

abbrev pub mounted : World × View
mounted = (
  record { log = []; is_on = false; reports = [] },
  record {
    protection_message = checking;
    can_retry_protection = false;
    accessibility_signals = none;
    app_blocking_available = none;
    blocked_event = none;
    blocked_event_count = 0;
    app_blocked_message = none;
    time_message = none;
    reputation_unavailable = false;
    acknowledged_version = none;
    usage_uploaded = false;
    inventory_uploaded = false;
  },
)

-- The protocol is run to its end, the reputation is unavailable and the uploads are tried again.
abbrev synchronised : Result Failure Unit × (World × View)
synchronised = run_sync native policy mounted

run_sync-IsHonest_example :
    Ends
      (λ _. IsHonest native World.is_on native-IsNative)
      (λ _ _. ⊥)
      (run_sync native policy mounted)
    × Ends
        (λ _. IsHonest native World.is_on native-IsNative)
        (λ _ _. ⊥)
        (resume native policy mounted)
    × Ends (λ _. IsHonest native World.is_on native-IsNative) (λ _ _. ⊥) (refresh native mounted)
run_sync-IsHonest_example = run_sync-IsHonest native World.is_on native-IsNative policy mounted

run_sync-Follows_example :
    (p : Phase) × Since 4 [] (World.log ((run_sync native policy mounted).1.0)) p
run_sync-Follows_example = run_sync-Follows native World.log native-IsLogged policy mounted
