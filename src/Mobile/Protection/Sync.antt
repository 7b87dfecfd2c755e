-- ===== src/Mobile/Protection/Sync.antt =====
-- `refreshNativeProtection`, `uploadUsage`, `uploadInventory`, `syncProtection` and the effects that
-- start them. A promise that is not awaited runs to its end where it is started.
use you_tube_gradian_devin.Common.{
  ℕ, Text, text, text_eq, none, some, List, [], ◌∷◌, Bool, true, false, not, if◌then◌else◌,
}
use you_tube_gradian_devin.Common.Programs.{Program, return, ◌>>=◌, ◌>>◌, on_error, settled, both}
use you_tube_gradian_devin.Common.Programs.Screens.{lift, update, ignored, when}
use you_tube_gradian_devin.Contracts.{CapabilityLevel}
use you_tube_gradian_devin.Mobile.Session.{Failure}
use you_tube_gradian_devin.Mobile.Child.Events.{
  UsageEvent, app_usage_events, flush_content_review_outbox, flush_pending_content_risk_events,
}
use you_tube_gradian_devin.Mobile.Child.Reputation.{sync_reputation}
use you_tube_gradian_devin.Mobile.Protection.View.{
  Capabilities, ProtectionMessage, active, unavailable, permission_required, not_applied,
  communication_permission_required, View, is_ready, detail_or, shown,
}
use you_tube_gradian_devin.Mobile.Protection.Calls.{
  PolicyApplyResult, applied, refused, Policy, ProtectionCalls,
}

-- `!result.applied && result.reason !== "POLICY_VERSION_NOT_MONOTONIC"`
abbrev pub is_refused : PolicyApplyResult → Bool
is_refused (applied version) = false
is_refused (refused version reason) = not (text_eq reason (text "POLICY_VERSION_NOT_MONOTONIC"))

abbrev pub say : ProtectionMessage → View → View
say message view = record view { protection_message = message }

-- The message on the communication safety, where its permission is missing.
abbrev pub warn_communication : Bool → CapabilityLevel → View → View
warn_communication true CapabilityLevel.unavailable view =
    say communication_permission_required view
warn_communication _ _ view = view

module _ {S B R A N : Type 0} (calls : ProtectionCalls S B R A N) where
  abbrev pub Screen : Type 0
  Screen = S × View

  -- `if (cancelled) … else …`, where the flag is read when it is reached.
  abbrev pub unless_cancelled : Program Screen Failure Unit → Program Screen Failure Unit
  unless_cancelled m screen = (if calls.is_cancelled (screen.0) then return tt else m) screen

  unfoldable pub refresh_native_protection : Program Screen Failure Unit
  refresh_native_protection = do
    found ← lift (both calls.get_protection_status calls.get_capabilities)
    update (shown (found.0) (found.1))

  unfoldable pub flush_reviews : Program S Failure Unit
  flush_reviews =
      flush_content_review_outbox calls.pending_reviews calls.create_request
        calls.acknowledge_review

  unfoldable pub flush_content_risk_outbox : Program S Failure Unit
  flush_content_risk_outbox = do
    events ← calls.pending_risks
    flush_pending_content_risk_events calls.to_iso events calls.ingest_risk calls.acknowledge_risk

  -- `if (events.length) await api.ingestEvents(events)`
  unfoldable pub send_events : List UsageEvent → Program S Failure Unit
  send_events [] = return tt
  send_events (event ∷ events) = calls.ingest_usage (event ∷ events)

  unfoldable pub send_usage : List (Text × ℕ) → Program S Failure Unit
  send_usage by_target = do
    occurred_at ← calls.now
    send_events (app_usage_events by_target occurred_at)

  unfoldable pub upload_usage : Program Screen Failure Unit
  upload_usage screen =
      (if screen.1.usage_uploaded then return tt else (do
        by_target ← lift calls.get_usage_summary
        lift (send_usage by_target)
        update (λ view. record view { usage_uploaded = true })))
        screen

  unfoldable pub upload_inventory : Program Screen Failure Unit
  upload_inventory screen =
      (if screen.1.inventory_uploaded then return tt else (do
        observed_apps ← lift calls.get_observed_apps
        lift (calls.ingest_inventory observed_apps)
        update (λ view. record view { inventory_uploaded = true })))
        screen

  -- The approvals and the outboxes, whose failures are ignored.
  unfoldable pub refresh_opportunistic : Program S Failure Unit
  refresh_opportunistic = do
    ignored (do approvals ← calls.content_approvals; calls.apply_content_approvals approvals)
    ignored flush_reviews
    ignored flush_content_risk_outbox

  unfoldable pub report_reputation : Program Screen Failure Unit
  report_reputation =
      on_error
        (do
          lift (sync_reputation calls.reputation)
          unless_cancelled (update (λ view. record view { reputation_unavailable = false })))
        (λ _. unless_cancelled (update (λ view. record view { reputation_unavailable = true })))

  -- `Promise.allSettled([uploadUsage(), uploadInventory()])` and what follows it.
  unfoldable pub finish_sync : Program Screen Failure Unit
  finish_sync = do
    usage ← settled upload_usage
    inventory ← settled upload_inventory
    lift (when calls.is_dev calls.get_performance_metrics)
    refresh_native_protection

  unfoldable pub report : ℕ → Program Screen Failure Unit
  report version = do
    lift (calls.acknowledge_policy version)
    status ← lift calls.get_protection_status
    capabilities ← lift calls.get_capabilities
    lift (calls.heartbeat status.health capabilities)
    lift refresh_opportunistic
    update
        (λ view. record view { acknowledged_version = some version; protection_message = active })
    report_reputation
    finish_sync

  unfoldable pub protect : Policy B → Capabilities → Program Screen Failure Unit
  protect policy capabilities =
      if is_ready capabilities.vpn_filtering.level
      then (do
        update (
            warn_communication policy.communication_safety
              capabilities.communication_risk_signals.level)
        lift calls.start_protection
        report policy.policy_version)
      else update (say (detail_or capabilities.vpn_filtering.detail permission_required))

  -- What follows the application of the bundle, unless the effect has been cancelled.
  unfoldable pub after_apply : Policy B → PolicyApplyResult → Program Screen Failure Unit
  after_apply policy result =
      if is_refused result
      then update (say not_applied)
      else (do capabilities ← lift calls.get_capabilities; protect policy capabilities)

  unfoldable pub sync_protection : Policy B → Program Screen Failure Unit
  sync_protection policy = do
    result ← lift (calls.apply_policy_bundle policy.bundle)
    unless_cancelled (after_apply policy result)

  -- The `catch` of `syncProtection`.
  unfoldable pub recover_protection : Program Screen Failure Unit
  recover_protection =
      unless_cancelled
        (on_error refresh_native_protection (λ _. unless_cancelled (update (say unavailable))))

  unfoldable pub run_sync : Policy B → Program Screen Failure Unit
  run_sync policy = on_error (sync_protection policy) (λ _. recover_protection)

  -- The application comes to the foreground.
  unfoldable pub resume : Policy B → Program Screen Failure Unit
  resume policy = do update (λ view. record view { inventory_uploaded = false }); run_sync policy

  -- `refresh` of the effect that runs when the screen is mounted and when it becomes active.
  unfoldable pub refresh : Program Screen Failure Unit
  refresh = on_error refresh_native_protection (λ _. unless_cancelled (
      update
        (λ view. record view { protection_message = unavailable; app_blocking_available = none })))

  -- The button "Retry web protection".
  unfoldable pub retry_protection : Program Screen Failure Unit
  retry_protection =
      on_error (do lift calls.start_protection; refresh_native_protection)
        (λ _. ignored refresh_native_protection)
