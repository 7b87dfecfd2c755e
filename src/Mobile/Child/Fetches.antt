-- ===== src/Mobile/Child/Fetches.antt =====
-- How often `syncReputation` asks the service, however it ends.
use you_tube_gradian_devin.Common.{ℕ, ◌+◌, ◌≤◌, Option, none, some, List, [], ◌∷◌, ◌≡◌, arith}
use you_tube_gradian_devin.Common.Programs.{
  Goes, IsGraded, Goes-return, Goes-throw, Goes-weaken, Goes-bind,
}
use you_tube_gradian_devin.Mobile.Session.Bounds.{Goes-if, Within-IsGraded}
use you_tube_gradian_devin.Mobile.Child.Reputation.{
  ReputationCalls, bundles_of, apply_full, start_over, apply_bundles, sync_reputation,
}

module _ {S B : Type 0} (calls : ReputationCalls S B) {Rel : ℕ → S → S → Type 0} (G : IsGraded Rel)
    (versions : Goes Rel 0 calls.get_version) (fetches : (v : ℕ) → Goes Rel 1 (calls.fetch v))
    (applies : (b : B) → Goes Rel 0 (calls.apply b)) where
  apply_full-Goes : (o : Option B) → Goes Rel 0 (apply_full calls o)
  unfolding apply_full
  apply_full-Goes none = Goes-return G tt
  apply_full-Goes (some bundle) =
      Goes-bind G (applies bundle) (λ fallback. Goes-if _ (Goes-throw G _) (Goes-return G tt))

  start_over-Goes : Goes Rel 1 (start_over calls)
  unfolding start_over
  start_over-Goes = Goes-bind G (fetches 0) (λ full. apply_full-Goes full.bundle)

  apply_bundles-Goes : (bundles : List B) → Goes Rel 1 (apply_bundles calls bundles)
  unfolding apply_bundles
  apply_bundles-Goes [] = Goes-weaken G (omega arith) (Goes-return G tt)
  apply_bundles-Goes (bundle ∷ bundles) = Goes-bind G (applies bundle) (λ result.
      Goes-if _ start_over-Goes
        (Goes-if _ (Goes-weaken G (omega arith) (Goes-throw G _)) (apply_bundles-Goes bundles)))

  pub sync_reputation-Goes : Goes Rel 2 (sync_reputation calls)
  unfolding sync_reputation
  sync_reputation-Goes =
      Goes-bind G versions
        (λ version. Goes-bind G (fetches _) (λ response. apply_bundles-Goes (bundles_of response)))

-- However it ends, a synchronisation asks the service for reputations at most twice.
pub sync_reputation-fetch :
    {S B : Type 0} (calls : ReputationCalls S B) (count : S → ℕ)
    → ((s : S) → count ((calls.get_version s).1) ≡ count s)
    → ((v : ℕ) (s : S) → count ((calls.fetch v s).1) ≡ count s + 1)
    → ((b : B) (s : S) → count ((calls.apply b s).1) ≡ count s)
    → (s : S) → count ((sync_reputation calls s).1) ≤ count s + 2
sync_reputation-fetch calls count versions fetches applies s =
    (sync_reputation-Goes calls (Within-IsGraded count)
        (record { goes = λ s. omega (arith, versions s) })
        (λ v. record { goes = λ s. omega (arith, fetches v s) })
        (λ b. record { goes = λ s. omega (arith, applies b s) })).goes
      s
