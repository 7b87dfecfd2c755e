-- ===== src/Mobile/Protection/Protocol.antt =====
-- The protocol that the home screen of a child's device follows with the native module and the
-- service: a machine that reads the calls which have returned.
pub mod Stays
pub mod Refined
use you_tube_gradian_devin.Common.{
  ℕ, Text, text, List, [], ◌∷◌, Bool, true, false, ◌≡◌, if◌then◌else◌,
}
use you_tube_gradian_devin.Common.Programs.{Ends}
use you_tube_gradian_devin.Contracts.{SignalSource}
use you_tube_gradian_devin.Mobile.Child.Events.{UsageEvent, DeviceEvent, ContentReviewRequest}
use you_tube_gradian_devin.Mobile.Protection.View.{Capabilities, ProtectionHealth, is_ready}
use you_tube_gradian_devin.Mobile.Protection.Calls.{
  PolicyApplyResult, applied, refused, ObservedApp, ProtectionCalls,
}

-- A call that has returned, with its result or its arguments.
pub data Event : Type 0 where
  applied_policy : PolicyApplyResult → Event
  saw_capabilities : Capabilities → Event
  started : Event
  acknowledged : ℕ → Event
  reported : ProtectionHealth → Capabilities → Event

pub data Phase : Type 0 where
  waiting accepted permitted protecting told finished stopped : Phase

-- The native module stands by the bundle: it has applied it, or has refused it as no newer than the
-- one that it holds.
abbrev pub StandsBy : PolicyApplyResult → Type 0
StandsBy (applied version) = Unit
StandsBy (refused version reason) = reason ≡ text "POLICY_VERSION_NOT_MONOTONIC"

-- One step of the machine for the version of a policy.
pub data Step (version : ℕ) : Phase → Event → Phase → Type 0 where
  accept : (r : PolicyApplyResult) → StandsBy r → Step version waiting (applied_policy r) accepted
  refuse :
      (r : PolicyApplyResult) → (StandsBy r → ⊥) → Step version waiting (applied_policy r) stopped
  permit :
      (c : Capabilities)
      → is_ready c.vpn_filtering.level ≡ true
      → Step version accepted (saw_capabilities c) permitted
  forbid :
      (c : Capabilities)
      → is_ready c.vpn_filtering.level ≡ false
      → Step version accepted (saw_capabilities c) stopped
  start : Step version permitted started protecting
  tell : Step version protecting (acknowledged version) told
  beat : (h : ProtectionHealth) (c : Capabilities) → Step version told (reported h c) finished
  -- To look at the capabilities is allowed at any time.
  look : (p : Phase) (c : Capabilities) → Step version p (saw_capabilities c) p

-- The machine has come from `waiting` to a phase, on the events before an earlier log; the newest
-- event comes first.
pub data Since (version : ℕ) (base : List Event) : List Event → Phase → Type 0 where
  begun : (log : List Event) → log ≡ base → Since version base log waiting
  next :
      {log : List Event} {p q : Phase} {e : Event}
      → Since version base log p
      → Step version p e q
      → Since version base (e ∷ log) q

-- `log` has the events of the five calls of the protocol that have returned, the newest first.
pub record IsLogged {S B R A N : Type 0} (calls : ProtectionCalls S B R A N) (log : S → List Event)
    : Type 0 where
  pub apply_logs :
      (b : B) (s : S)
      → Ends
          (λ r t. log t ≡ applied_policy r ∷ log s)
          (λ _ t. log t ≡ log s)
          (calls.apply_policy_bundle b s)
  pub capabilities_log :
      (s : S)
      → Ends
          (λ c t. log t ≡ saw_capabilities c ∷ log s)
          (λ _ t. log t ≡ log s)
          (calls.get_capabilities s)
  pub start_logs :
      (s : S)
      → Ends (λ _ t. log t ≡ started ∷ log s) (λ _ t. log t ≡ log s) (calls.start_protection s)
  pub acknowledge_logs :
      (v : ℕ) (s : S)
      → Ends
          (λ _ t. log t ≡ acknowledged v ∷ log s)
          (λ _ t. log t ≡ log s)
          (calls.acknowledge_policy v s)
  pub heartbeat_logs :
      (h : ProtectionHealth) (c : Capabilities) (s : S)
      → Ends (λ _ t. log t ≡ reported h c ∷ log s) (λ _ t. log t ≡ log s) (calls.heartbeat h c s)
  pub status_keeps : (s : S) → log ((calls.get_protection_status s).1) ≡ log s
  pub approvals_keep : (s : S) → log ((calls.content_approvals s).1) ≡ log s
  pub apply_approvals_keeps : (a : A) (s : S) → log ((calls.apply_content_approvals a s).1) ≡ log s
  pub reviews_keep : (s : S) → log ((calls.pending_reviews s).1) ≡ log s
  pub create_keeps :
      (r : ContentReviewRequest) (key : Text) (s : S)
      → log ((calls.create_request r key s).1) ≡ log s
  pub review_done_keeps : (a f : Text) (s : S) → log ((calls.acknowledge_review a f s).1) ≡ log s
  pub risks_keep : (s : S) → log ((calls.pending_risks s).1) ≡ log s
  pub ingest_risk_keeps :
      (e : DeviceEvent N) (key : Text) (s : S) → log ((calls.ingest_risk e key s).1) ≡ log s
  pub risk_done_keeps :
      (source : SignalSource) (a f : Text) (s : S)
      → log ((calls.acknowledge_risk source a f s).1) ≡ log s
  pub version_keeps : (s : S) → log ((calls.reputation.get_version s).1) ≡ log s
  pub fetch_keeps : (v : ℕ) (s : S) → log ((calls.reputation.fetch v s).1) ≡ log s
  pub reputation_keeps : (b : R) (s : S) → log ((calls.reputation.apply b s).1) ≡ log s
  pub usage_keeps : (s : S) → log ((calls.get_usage_summary s).1) ≡ log s
  pub now_keeps : (s : S) → log ((calls.now s).1) ≡ log s
  pub ingest_usage_keeps :
      (es : List UsageEvent) (s : S) → log ((calls.ingest_usage es s).1) ≡ log s
  pub observed_keeps : (s : S) → log ((calls.get_observed_apps s).1) ≡ log s
  pub inventory_keeps :
      (apps : List ObservedApp) (s : S) → log ((calls.ingest_inventory apps s).1) ≡ log s
  pub metrics_keep : (s : S) → log ((calls.get_performance_metrics s).1) ≡ log s
