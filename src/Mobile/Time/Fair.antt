-- ===== src/Mobile/Time/Fair.antt =====
-- What the screen of apps/mobile/src/app/child/time.tsx says of an application's budget, beside the
-- budgets that the evaluator reads.
use you_tube_gradian_devin.Common.{ℕ, ◌+◌, ◌*◌, ◌≤◌, some, true, ◌≡◌, ◌⊎◌}
use you_tube_gradian_devin.Policy.Platform.{Platform}
use you_tube_gradian_devin.Policy.Budget.{over_budget}
use you_tube_gradian_devin.Mobile.Time.{Label, no_time, minutes_left}

-- What a label says, for the minutes of an application's rule and the evaluator's budget of the
-- device.
pub record IsFair (minutes used budget device_used : ℕ) (label : Label) : Type 0 where
  pub none_left :
      label ≡ no_time
      → (over_budget (some minutes) used ≡ true) ⊎ (over_budget (some budget) device_used ≡ true)
  pub used_up : over_budget (some minutes) used ≡ true → label ≡ no_time
  pub left : (n : ℕ) → label ≡ minutes_left n → (1 ≤ n) × (used + n * 60 ≤ minutes * 60)
