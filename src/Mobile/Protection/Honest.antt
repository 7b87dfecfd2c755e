-- ===== src/Mobile/Protection/Honest.antt =====
-- What the home screen of a child's device says of the protection is so.
use you_tube_gradian_devin.Common.{
  ℕ, Text, Option, none, some, Bool, true, false, ◌≡◌, refl, sym, ◌∙◌, arith, Result, ok, err,
}
use you_tube_gradian_devin.Common.Programs.{
  Program, on_error, settled, both, Ends, returned, thrown, Ends-bind, Ends-on_error, Ends-weaken,
}
use you_tube_gradian_devin.Common.Programs.Screens.{lift, update, lifted-Ends, when}
use you_tube_gradian_devin.Common.Programs.Endings.{Ends-if, Ends-after, both-Ends}
use you_tube_gradian_devin.Mobile.Session.{Failure}
use you_tube_gradian_devin.Mobile.Protection.View.{
  Capabilities, ProtectionStatus, ProtectionMessage, checking, active, active_limited, unavailable,
  permission_required, not_applied, communication_permission_required, detailed, View, is_ready,
  detail_or, message_for, shown,
}
use you_tube_gradian_devin.Mobile.Protection.Calls.{PolicyApplyResult, Policy, ProtectionCalls}
use you_tube_gradian_devin.Mobile.Protection.Sync.{
  is_refused, say, unless_cancelled, refresh_native_protection, upload_usage, upload_inventory,
  refresh_opportunistic, report_reputation, finish_sync, report, protect, after_apply,
  warn_communication, sync_protection, recover_protection, run_sync, resume, refresh,
}

-- The messages by which the screen itself says that the protection is active.
abbrev pub says_active : ProtectionMessage → Bool
says_active active = true
says_active active_limited = true
says_active checking = false
says_active unavailable = false
says_active permission_required = false
says_active not_applied = false
says_active communication_permission_required = false
says_active (detailed detail) = false

says_active-message_for :
    (status : ProtectionStatus) (capabilities : Capabilities)
    → says_active (message_for status capabilities) ≡ true
    → status.active ≡ true
unfolding message_for
says_active-message_for status capabilities h = ground arith

silent-detail_or :
    (detail : Option Text) → says_active (detail_or detail permission_required) ≡ true → ⊥
silent-detail_or none h = cc
silent-detail_or (some detail) h = cc

-- Whether the protection is on, in a state of the native module: its status tells so, and asking for
-- the capabilities does not turn it on or off.
pub record IsNative {S B R A N : Type 0} (calls : ProtectionCalls S B R A N) (is_on : S → Bool)
    : Type 0 where
  pub tells :
      (s : S)
      → Ends (λ status t. status.active ≡ is_on t) (λ _ _. Unit {0}) (calls.get_protection_status s)
  pub asks : (s : S) → is_on ((calls.get_capabilities s).1) ≡ is_on s

module _ {S B R A N : Type 0} (calls : ProtectionCalls S B R A N) (is_on : S → Bool)
    (I : IsNative calls is_on) where
  abbrev Says : S × View → Type 0
  Says (s, view) = says_active view.protection_message ≡ true → is_on s ≡ true

  -- Unless the effect has been cleaned up, the protection is on where the screen says so.
  abbrev pub IsHonest : S × View → Type 0
  IsHonest (s, view) =
      calls.is_cancelled s ≡ false → says_active view.protection_message ≡ true → is_on s ≡ true

  abbrev Any : {E T : Type 0} → E → T → Type 0
  Any e t = Unit {0}

  capabilities-Ends :
      (b : Bool) (x : Result Failure Capabilities × S)
      → b ≡ is_on (x.1)
      → Ends (λ _ t. b ≡ is_on t) Any x
  capabilities-Ends b (ok c, t) h = returned c t h
  capabilities-Ends b (err e, t) h = thrown e t tt

  found-Ends :
      (s : S)
      → Ends
          (λ found t. found.0.active ≡ is_on t)
          Any
          (both calls.get_protection_status calls.get_capabilities s)
  found-Ends s =
      both-Ends (λ _ _. tt) calls.get_protection_status calls.get_capabilities s (I.tells s)
        (λ status t tells.
          capabilities-Ends status.active (calls.get_capabilities t) (tells ∙ sym (I.asks t)))
        (λ status capabilities t h. h)

  refresh_native_protection-Ends :
      (screen : S × View) → Ends (λ _. Says) Any (refresh_native_protection calls screen)
  unfolding refresh_native_protection shown
  refresh_native_protection-Ends screen =
      Ends-bind (λ found. update (shown (found.0) (found.1)))
        (Ends-weaken (lifted-Ends (screen.1) (found-Ends (screen.0))) (λ _ t h. h.0) (λ _ t h. tt))
        (λ found t h.
          returned tt _ (λ says. sym h ∙ says_active-message_for (found.0) (found.1) says))

  finish_sync-Ends : (screen : S × View) → Ends (λ _. Says) Any (finish_sync calls screen)
  unfolding finish_sync
  finish_sync-Ends screen =
      Ends-after (settled (upload_usage calls)) _ screen (λ _ _. tt)
        (λ _ t.
          Ends-after (settled (upload_inventory calls)) _ t (λ _ _. tt)
            (λ _ u.
              Ends-after (lift (when calls.is_dev calls.get_performance_metrics)) _ u (λ _ _. tt)
                (λ _ v. refresh_native_protection-Ends v)))

  report-Ends :
      (version : ℕ) (screen : S × View) → Ends (λ _. Says) Any (report calls version screen)
  unfolding report
  report-Ends version screen =
      Ends-after (lift (calls.acknowledge_policy version)) _ screen (λ _ _. tt)
        (λ _ a.
          Ends-after (lift calls.get_protection_status) _ a (λ _ _. tt)
            (λ status b.
              Ends-after (lift calls.get_capabilities) _ b (λ _ _. tt)
                (λ capabilities c.
                  Ends-after (lift (calls.heartbeat status.health capabilities)) _ c (λ _ _. tt)
                    (λ _ d.
                      Ends-after (lift (refresh_opportunistic calls)) _ d (λ _ _. tt)
                        (λ _ e.
                          Ends-after
                            (update (λ view. record view {
                              acknowledged_version = some version;
                              protection_message = active;
                            }))
                            _ e (λ _ _. tt)
                            (λ _ f.
                              Ends-after (report_reputation calls) _ f (λ _ _. tt)
                                (λ _ g. finish_sync-Ends g)))))))

  protect-Ends :
      (policy : Policy B) (capabilities : Capabilities) (screen : S × View)
      → Ends (λ _. Says) Any (protect calls policy capabilities screen)
  unfolding protect
  protect-Ends policy capabilities screen =
      Ends-if (is_ready capabilities.vpn_filtering.level) _ _ screen
        (λ _.
          Ends-after
            (update (
              warn_communication policy.communication_safety
                capabilities.communication_risk_signals.level))
            _ screen (λ _ _. tt)
            (λ _ t.
              Ends-after (lift calls.start_protection) _ t (λ _ _. tt)
                (λ _ u. report-Ends policy.policy_version u)))
        (λ _.
          returned tt _ (λ says. absurd (silent-detail_or capabilities.vpn_filtering.detail says)))

  after_apply-Ends :
      (policy : Policy B) (result : PolicyApplyResult) (screen : S × View)
      → Ends (λ _. Says) Any (after_apply calls policy result screen)
  unfolding after_apply
  after_apply-Ends policy result screen =
      Ends-if (is_refused result) _ _ screen (λ _. returned tt _ (λ says. cc))
        (λ _.
          Ends-after (lift calls.get_capabilities) _ screen (λ _ _. tt)
            (λ capabilities t. protect-Ends policy capabilities t))

  -- Where the effect has been cleaned up, nothing more is said of it.
  unless_cancelled-IsHonest :
      {R' : Failure → S × View → Type 0} (m : Program (S × View) Failure Unit) (screen : S × View)
      → Ends (λ _. IsHonest) R' (m screen)
      → Ends (λ _. IsHonest) R' (unless_cancelled calls m screen)
  unless_cancelled-IsHonest m screen h =
      Ends-if (calls.is_cancelled (screen.0)) _ m screen
        (λ cancelled. returned tt screen (λ live. cc)) (λ live. h)

  sync_protection-Ends :
      (policy : Policy B) (screen : S × View)
      → Ends (λ _. IsHonest) Any (sync_protection calls policy screen)
  unfolding sync_protection
  sync_protection-Ends policy screen =
      Ends-after (lift (calls.apply_policy_bundle policy.bundle)) _ screen (λ _ _. tt)
        (λ result t.
          unless_cancelled-IsHonest (after_apply calls policy result) t
            (Ends-weaken (after_apply-Ends policy result t) (λ _ u h live. h) (λ _ u h. h)))

  refreshed-Ends :
      (f : View → View) (screen : S × View)
      → ((view : View) → says_active (f view).protection_message ≡ false)
      → Ends
          (λ _. IsHonest)
          (λ _ _. ⊥)
          (on_error
            (refresh_native_protection calls)
            (λ _. unless_cancelled calls (update f))
            screen)
  refreshed-Ends f screen silent =
      Ends-on_error _
        (Ends-weaken (refresh_native_protection-Ends screen) (λ _ t h live. h) (λ _ t h. h))
        (λ error t _. unless_cancelled-IsHonest (update f) t (
          returned tt _
            (λ live says. absurd (not_said (f (t.1)).protection_message says (silent (t.1))))))
    where
      not_said : (m : ProtectionMessage) → says_active m ≡ true → says_active m ≡ false → ⊥
      not_said m h k = cc

  recover_protection-Ends :
      (screen : S × View) → Ends (λ _. IsHonest) (λ _ _. ⊥) (recover_protection calls screen)
  unfolding recover_protection
  recover_protection-Ends screen =
      unless_cancelled-IsHonest _ screen (refreshed-Ends (say unavailable) screen (λ view. refl))

  run_sync-Ends :
      (policy : Policy B) (screen : S × View)
      → Ends (λ _. IsHonest) (λ _ _. ⊥) (run_sync calls policy screen)
  unfolding run_sync
  run_sync-Ends policy screen =
      Ends-on_error _ (sync_protection-Ends policy screen) (λ error t _. recover_protection-Ends t)

  resume-Ends :
      (policy : Policy B) (screen : S × View)
      → Ends (λ _. IsHonest) (λ _ _. ⊥) (resume calls policy screen)
  unfolding resume
  resume-Ends policy screen = run_sync-Ends policy _

  refresh-Ends : (screen : S × View) → Ends (λ _. IsHonest) (λ _ _. ⊥) (refresh calls screen)
  unfolding refresh
  refresh-Ends screen = refreshed-Ends _ screen (λ view. refl)

  -- Whichever calls throw: a synchronisation of the protection, one when the application comes to
  -- the foreground, and a refresh of the screen throw nothing; and unless the effect has been
  -- cleaned up by then, where the screen ends up saying in its own words that the protection is
  -- active, it is on.
  pub run_sync-IsHonest :
      (policy : Policy B) (screen : S × View)
      → Ends (λ _. IsHonest) (λ _ _. ⊥) (run_sync calls policy screen)
        × Ends (λ _. IsHonest) (λ _ _. ⊥) (resume calls policy screen)
        × Ends (λ _. IsHonest) (λ _ _. ⊥) (refresh calls screen)
  run_sync-IsHonest policy screen =
      (run_sync-Ends policy screen, resume-Ends policy screen, refresh-Ends screen)
