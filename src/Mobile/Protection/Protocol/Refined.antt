-- ===== src/Mobile/Protection/Protocol/Refined.antt =====
-- A synchronisation of the protection follows the protocol, whichever of its calls throw.
use you_tube_gradian_devin.Common.{
  ℕ, text, text_eq, text_eq_iff, not, ap, ◌↔◌, false, some, List, ◌∷◌, Bool-cases, ◌≡◌, refl, sym,
  subst, inl, inr, if◌then◌else◌, Result,
}
use you_tube_gradian_devin.Common.Programs.{
  Program, ◌>>=◌, Ends, returned, Ends-bind, Ends-on_error, Ends-both, Ends-weaken,
}
use you_tube_gradian_devin.Common.Programs.Screens.{lift, update, lifted-Ends}
use you_tube_gradian_devin.Common.Programs.Endings.{Ends-if, reached}
use you_tube_gradian_devin.Mobile.Session.{Failure}
use you_tube_gradian_devin.Mobile.Protection.View.{View, Capabilities, active, is_ready}
use you_tube_gradian_devin.Mobile.Protection.Calls.{
  PolicyApplyResult, applied, refused, Policy, ProtectionCalls,
}
use you_tube_gradian_devin.Mobile.Protection.Sync.{
  is_refused, warn_communication, unless_cancelled, report, protect, after_apply, sync_protection,
  refresh_opportunistic, report_reputation, finish_sync, run_sync,
}
use you_tube_gradian_devin.Mobile.Protection.Protocol.{
  Event, applied_policy, saw_capabilities, started, acknowledged, reported, Phase, waiting,
  accepted, permitted, protecting, told, finished, stopped, Step, StandsBy, accept, refuse, permit,
  forbid, start, tell, beat, Since, begun, next, IsLogged,
}
use you_tube_gradian_devin.Mobile.Protection.Protocol.Stays.{
  after_heartbeat-Goes, status-Goes, looked-Goes, recover_protection-Goes,
}

-- The phase after the bundle has been applied, and after the capabilities have been read.
abbrev applied_phase : PolicyApplyResult → Phase
applied_phase r = if is_refused r then stopped else accepted

abbrev permitted_phase : Capabilities → Phase
permitted_phase c = if is_ready c.vpn_filtering.level then permitted else stopped

refused_iff : (r : PolicyApplyResult) → (is_refused r ≡ false) ↔ StandsBy r
refused_iff (applied version) = (λ h. tt, λ h. refl)
refused_iff (refused version reason) =
    let same = text_eq_iff reason (text "POLICY_VERSION_NOT_MONOTONIC") in
    (
      λ h. elim (Bool-cases (text_eq reason (text "POLICY_VERSION_NOT_MONOTONIC"))) [
        | inl e ↦ same.0 e
        | inr e ↦ let truth : not false ≡ false = subst (λ b. not b ≡ false) e h in cc
      ],
      λ h. ap not (same.1 h),
    )

module _ (version : ℕ) where
  applied_step : (r : PolicyApplyResult) → Step version waiting (applied_policy r) (applied_phase r)
  applied_step r = elim (Bool-cases (is_refused r)) [
    | inl yes_refused ↦
        rw yes_refused
          (refuse r (λ stands. let fine : is_refused r ≡ false = (refused_iff r).1 stands in cc))
    | inr not_refused ↦ rw not_refused (accept r ((refused_iff r).0 not_refused))
  ]

  permitted_step :
      (c : Capabilities) → Step version accepted (saw_capabilities c) (permitted_phase c)
  permitted_step c = elim (Bool-cases (is_ready c.vpn_filtering.level)) [
    | inl ready ↦ rw ready (permit c ready)
    | inr unready ↦ rw unready (forbid c unready)
  ]

module _ {S B R A N : Type 0} (calls : ProtectionCalls S B R A N) (log : S → List Event)
    (L : IsLogged calls log) (version : ℕ) (base : List Event) where
  abbrev At : Phase → S × View → Type 0
  At p t = Since version base (log (t.0)) p

  -- Some phase has been reached.
  abbrev Somewhere : S × View → Type 0
  Somewhere t = (p : Phase) × Since version base (log (t.0)) p

  -- A call of the protocol takes one step where it returns, and none where it throws.
  step-Ends :
      {C : Type 0} (e : C → Event) (p : Phase) (q : C → Phase) (screen : S × View)
      (m : Program S Failure C)
      → ((c : C) → Step version p (e c) (q c))
      → Since version base (log (screen.0)) p
      → Ends (λ c t. log t ≡ e c ∷ log (screen.0)) (λ _ t. log t ≡ log (screen.0)) (m (screen.0))
      → Ends (λ c t. At (q c) t) (λ _. Somewhere) (lift m screen)
  step-Ends e p q screen m steps h ends =
      Ends-weaken (lifted-Ends (screen.1) ends)
        (λ c t k. subst (λ l. Since version base l (q c)) (sym (k.0)) (next h (steps c)))
        (λ _ t k. (p, subst (λ l. Since version base l p) (sym (k.0)) h))

  -- A program that stays in a phase, however it ends.
  stay-Ends :
      {C : Type 0} (p : Phase) (screen : S × View) (x : Result Failure C × (S × View))
      → At p (x.1)
      → Ends (λ _. At p) (λ _. Somewhere) x
  stay-Ends p screen x h = Ends-weaken (Ends-both {P = At p} x h) (λ _ t k. k) (λ _ t k. (p, k))

  somewhere :
      {C : Type 0} (p : Phase) (x : Result Failure C × (S × View))
      → At p (x.1)
      → Ends (λ _. Somewhere) (λ _. Somewhere) x
  somewhere p x h = Ends-both {P = Somewhere} x (p, h)

  finished-Ends :
      (d : S × View)
      → At finished d
      → Ends
          (λ _. Somewhere)
          (λ _. Somewhere)
          ((lift (refresh_opportunistic calls) >>= λ _.
              update (λ view. record view {
                acknowledged_version = some version;
                protection_message = active;
              })
              >>= λ _. report_reputation calls >>= λ _. finish_sync calls)
            d)
  finished-Ends d h =
      somewhere finished _
        ((after_heartbeat-Goes calls log L version base finished version).goes d h)

  report-Ends :
      (screen : S × View)
      → At protecting screen
      → Ends (λ _. Somewhere) (λ _. Somewhere) (report calls version screen)
  unfolding report
  report-Ends screen h =
      Ends-bind _
        (step-Ends (λ _. acknowledged version) protecting (λ _. told) screen
          (calls.acknowledge_policy version) (λ _. tell) h (L.acknowledge_logs version (screen.0)))
        (λ _ a ha.
          Ends-bind _
            (stay-Ends told a (lift calls.get_protection_status a)
              ((status-Goes calls log L version base told).goes a ha))
            (λ status b hb.
              Ends-bind _
                (stay-Ends told b (lift calls.get_capabilities b)
                  ((looked-Goes calls log L version base told).goes b hb))
                (λ capabilities c hc.
                  Ends-bind _
                    (step-Ends (λ _. reported status.health capabilities) told (λ _. finished) c
                      (calls.heartbeat status.health capabilities)
                      (λ _. beat status.health capabilities) hc
                      (L.heartbeat_logs status.health capabilities (c.0)))
                    (λ _ d hd. finished-Ends d hd))))

module _ {S B R A N : Type 0} (calls : ProtectionCalls S B R A N) (log : S → List Event)
    (L : IsLogged calls log) (policy : Policy B) (base : List Event) where
  abbrev OnPath : Phase → S × View → Type 0
  OnPath p t = Since policy.policy_version base (log (t.0)) p

  -- The log has grown by a run of the machine.
  abbrev Follows : S × View → Type 0
  Follows t = (p : Phase) × Since policy.policy_version base (log (t.0)) p

  protect-Ends :
      (capabilities : Capabilities) (screen : S × View)
      → OnPath (permitted_phase capabilities) screen
      → Ends (λ _. Follows) (λ _. Follows) (protect calls policy capabilities screen)
  unfolding protect
  protect-Ends capabilities screen h =
      let v = policy.policy_version in
      Ends-if (is_ready capabilities.vpn_filtering.level) _ _ screen
        (λ ready.
          let permitted_now =
            subst (λ b. OnPath (if b then permitted else stopped) screen) ready h in
          let view =
            warn_communication policy.communication_safety
              capabilities.communication_risk_signals.level (screen.1) in
          Ends-bind (λ _. report calls v)
            (step-Ends calls log L v base (λ _. started) permitted (λ _. protecting)
              (screen.0, view) calls.start_protection (λ _. start) permitted_now
              (L.start_logs (screen.0)))
            (λ _ t ht. report-Ends calls log L v base t ht))
        (λ unready. Ends-both {P = Follows} _ (permitted_phase capabilities, h))

  after_apply-Ends :
      (result : PolicyApplyResult) (screen : S × View)
      → OnPath (applied_phase result) screen
      → Ends (λ _. Follows) (λ _. Follows) (after_apply calls policy result screen)
  unfolding after_apply
  after_apply-Ends result screen h =
      let v = policy.policy_version in
      Ends-if (is_refused result) _ _ screen
        (λ _. Ends-both {P = Follows} _ (applied_phase result, h))
        (λ not_refused.
          Ends-bind (λ capabilities. protect calls policy capabilities)
            (step-Ends calls log L v base saw_capabilities accepted permitted_phase screen
              calls.get_capabilities (permitted_step v)
              (subst (λ b. OnPath (if b then stopped else accepted) screen) not_refused h)
              (L.capabilities_log (screen.0)))
            (λ capabilities t ht. protect-Ends capabilities t ht))

  sync_protection-Ends :
      (screen : S × View)
      → OnPath waiting screen
      → Ends (λ _. Follows) (λ _. Follows) (sync_protection calls policy screen)
  unfolding sync_protection
  sync_protection-Ends screen h =
      let v = policy.policy_version in
      Ends-bind (λ result. unless_cancelled calls (after_apply calls policy result))
        (step-Ends calls log L v base applied_policy waiting applied_phase screen
          (calls.apply_policy_bundle policy.bundle) (applied_step v) h
          (L.apply_logs policy.bundle (screen.0)))
        (λ result t ht.
          Ends-if (calls.is_cancelled (t.0)) _ (after_apply calls policy result) t
            (λ _. returned tt t (applied_phase result, ht)) (λ _. after_apply-Ends result t ht))

  run_sync-Ends :
      (screen : S × View)
      → OnPath waiting screen
      → Ends (λ _. Follows) (λ _. Follows) (run_sync calls policy screen)
  unfolding run_sync
  run_sync-Ends screen h = Ends-on_error _ (sync_protection-Ends screen h) (λ error t (p, there).
      Ends-both {P = Follows} _
        (p, (recover_protection-Goes calls log L policy.policy_version base p).goes t there))

-- A synchronisation refines the protocol: however it ends and whichever calls throw, the calls that
-- have returned since it began are those of a run of the machine for the policy's version. So the
-- protection is started only after the native module has applied the bundle, or has refused it as no
-- newer than the one that it holds, and has then said that it may filter; the version is acknowledged
-- only after the protection has started, that version and no other, and the state is reported only
-- after that. After a refusal for any other reason none of these calls is made.
pub run_sync-Follows :
    {S B R A N : Type 0} (calls : ProtectionCalls S B R A N) (log : S → List Event)
    → IsLogged calls log
    → (policy : Policy B) (screen : S × View)
    → let final = (run_sync calls policy screen).1 in
      (p : Phase) × Since policy.policy_version (log (screen.0)) (log (final.0)) p
run_sync-Follows calls log L policy screen =
    reached (run_sync-Ends calls log L policy (log (screen.0)) screen (begun _ refl))
