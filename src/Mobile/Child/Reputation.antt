-- ===== src/Mobile/Child/Reputation.antt =====
-- `syncReputation`: the bundle and the deltas of reputations are handed to the native module.
use you_tube_gradian_devin.Common.{
  ℕ, Text, text, text_eq, Option, none, some, List, [], ◌∷◌, Bool, ◌&&◌, not, if◌then◌else◌,
  ◌or_default◌, ◌++◌,
}
use you_tube_gradian_devin.Common.Programs.{Program, return, throw, ◌>>=◌}
use you_tube_gradian_devin.Mobile.Session.{Failure}
use you_tube_gradian_devin.Mobile.Session.Network.{plain_error}

-- `ReputationApplyResult`
pub record ApplyResult : Type 0 where
  pub applied : Bool
  pub reason : Text

-- The reply of `api.reputation`.
pub record Reply (B : Type 0) : Type 0 where
  pub bundle : Option B
  pub deltas : List B

-- The calls of the native module and of the client.
pub record ReputationCalls (S B : Type 0) : Type 0 where
  pub get_version : Program S Failure (Option ℕ)
  pub fetch : ℕ → Program S Failure (Reply B)
  pub apply : B → Program S Failure ApplyResult

abbrev pub bundles_of : {B : Type 0} → Reply B → List B
bundles_of response = elim response.bundle [
  | some bundle ↦ bundle ∷ response.deltas
  | none ↦ response.deltas
]

abbrev pub rejected_for : Text → ApplyResult → Bool
rejected_for reason result = not result.applied && text_eq result.reason reason

abbrev pub is_rejected : ApplyResult → Bool
is_rejected result =
    not result.applied && not (text_eq result.reason (text "VERSION_NOT_MONOTONIC"))

module _ {S B : Type 0} (calls : ReputationCalls S B) where
  unfoldable pub apply_full : Option B → Program S Failure Unit
  apply_full none = return tt
  apply_full (some bundle) = do
    fallback ← calls.apply bundle
    if not fallback.applied
        then throw (plain_error (text "Reputation full bundle rejected: " ++ fallback.reason))
        else return tt

  -- The branch of a gap, which leaves the loop.
  unfoldable pub start_over : Program S Failure Unit
  start_over = do full ← calls.fetch 0; apply_full full.bundle

  unfoldable pub apply_bundles : List B → Program S Failure Unit
  apply_bundles [] = return tt
  apply_bundles (bundle ∷ bundles) = calls.apply bundle >>= λ result.
      if rejected_for (text "DELTA_GAP") result
      then start_over
      else if is_rejected result
      then throw (plain_error (text "Reputation bundle rejected: " ++ result.reason))
      else apply_bundles bundles

  unfoldable pub sync_reputation : Program S Failure Unit
  sync_reputation = do
    version ← calls.get_version
    response ← calls.fetch (version or_default 0)
    apply_bundles (bundles_of response)
