-- ===== src/Mobile/Child/Received.antt =====
-- What `syncReputation` of apps/mobile/src/app/child/home.tsx has handed over when it ends.
use you_tube_gradian_devin.Common.{
  ℕ, text, Option, List, All, In, true, false, ◌≡◌, ◌⊎◌, ◌or_default◌, ok,
}
use you_tube_gradian_devin.Common.Results.Ensures.{OnSome}
use you_tube_gradian_devin.Common.Programs.{Ends}
use you_tube_gradian_devin.Mobile.Child.Reputation.{ApplyResult, Reply, ReputationCalls, bundles_of}

-- The native module does not take a delta, because the version before it is missing.
abbrev pub IsGap : ApplyResult → Type 0
IsGap r = (r.applied ≡ false) × (r.reason ≡ text "DELTA_GAP")

-- The native module has taken the bundle, or has one that is as new.
abbrev pub IsTaken : ApplyResult → Type 0
IsTaken r = (r.applied ≡ true) ⊎ (r.reason ≡ text "VERSION_NOT_MONOTONIC")

-- The calls return. The bundles that the service sends are taken, or refused for a gap; the bundle
-- that it sends for version 0 is applied. `Stands b s`: the reputations of `b`, or newer ones, are in
-- force; they are where the bundle is taken, and no other bundle undoes it.
pub record IsServed {S B : Type 0} (calls : ReputationCalls S B) (IsFine IsWhole : B → Type 0)
    (Stands : B → S → Type 0) : Type 0 where
  pub versions : (s : S) → Ends (λ _ _. Unit {0}) (λ _ _. ⊥) (calls.get_version s)
  pub replies :
      (v : ℕ) (s : S) → Ends (λ r _. All IsFine (bundles_of r)) (λ _ _. ⊥) (calls.fetch v s)
  pub whole : (s : S) → Ends (λ r _. OnSome IsWhole r.bundle) (λ _ _. ⊥) (calls.fetch 0 s)
  pub fine_applied :
      (b : B) (s : S) → IsFine b → Ends (λ r _. IsGap r ⊎ IsTaken r) (λ _ _. ⊥) (calls.apply b s)
  pub whole_applied :
      (b : B) (s : S) → IsWhole b → Ends (λ r _. r.applied ≡ true) (λ _ _. ⊥) (calls.apply b s)
  pub taken_stands :
      (b : B) (s : S) (r : ApplyResult)
      → (calls.apply b s).0 ≡ ok r
      → IsTaken r
      → Stands b ((calls.apply b s).1)
  pub apply_keeps : (a b : B) (s : S) → Stands b s → Stands b ((calls.apply a s).1)

-- One of the bundles was refused for a gap, and what the service then sent for version 0 is in force.
pub record Restarted {S B : Type 0} (calls : ReputationCalls S B) (Stands : B → S → Type 0)
    (bundles : List B) (t : S) : Type 0 where
  pub refused : B
  pub offered : In refused bundles
  pub at : S
  pub result : ApplyResult
  pub result_is : (calls.apply refused at).0 ≡ ok result
  pub is_gap : IsGap result
  pub full : Reply B
  pub asked : S
  pub full_is : (calls.fetch 0 asked).0 ≡ ok full
  pub whole_stands : OnSome (λ b. Stands b t) full.bundle

-- The reply of the service for the version that the native module holds, and what became of it.
pub record Received {S B : Type 0} (calls : ReputationCalls S B) (Stands : B → S → Type 0) (s t : S)
    : Type 0 where
  pub held : Option ℕ
  pub held_is : (calls.get_version s).0 ≡ ok held
  pub reply : Reply B
  pub reply_is : (calls.fetch (held or_default 0) ((calls.get_version s).1)).0 ≡ ok reply
  pub arrived :
      All (λ b. Stands b t) (bundles_of reply) ⊎ Restarted calls Stands (bundles_of reply) t

module _ {S B : Type 0} (calls : ReputationCalls S B) (IsFine IsWhole : B → Type 0)
    (Stands : B → S → Type 0) (V : IsServed calls IsFine IsWhole Stands) where
  abbrev AllStand : List B → S → Type 0
  AllStand bundles t = All (λ b. Stands b t) bundles

  -- The bundles that are done stay so, and those that are left are taken, or one of them has a gap.
  abbrev Goal : (all done todo : List B) → S → Type 0
  Goal all done todo t = (AllStand done t × AllStand todo t) ⊎ Restarted calls Stands all t
