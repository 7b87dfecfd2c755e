-- ===== src/Mobile/Time/Tests.antt =====
-- The screen on a bundle with two limits of the device in force, and the theorems on it.
use you_tube_gradian_devin.Common.{
  ℕ, ◌≤◌, Text, text, some, none, [], ◌∷◌, ◌≡◌, refl, Option, ok, find_or_throw,
}
use you_tube_gradian_devin.Policy.Bundle.{
  Action, OverrideKind, TemporaryOverride, SignedPolicyBundle,
}
use you_tube_gradian_devin.Policy.Rules.{is_active}
use you_tube_gradian_devin.Policy.Window.{instant_from}
use you_tube_gradian_devin.Policy.Budget.{device_budget, active_device_override}
use you_tube_gradian_devin.Policy.Tests.{platform, bundle, opening}
use you_tube_gradian_devin.Mobile.Time.{active_grants, grant_of, device_limit}
use you_tube_gradian_devin.Mobile.Time.Agreed.{device_budget-device_limit}

abbrev limit_of : ℕ → TemporaryOverride
limit_of minutes = record {
  like = record { rule_id = text "o"; action = Action.limit; daily_minutes = some minutes };
  target_kind = OverrideKind.device;
  target_ref = text "device";
  starts_at = text "A";
  expires_at = text "Z";
}

abbrev twice_limited : SignedPolicyBundle
twice_limited = record bundle { temporary_overrides = limit_of 75 ∷ limit_of 90 ∷ [] }

first_code : Text → Option ℕ
first_code [] = none
first_code (c ∷ t) = some c

-- The evaluator grants 75 minutes, and the screen shows 90.
granted : device_budget twice_limited.base_policy (some (limit_of 75)) ≡ some 75
unfolding device_budget
granted = refl

shown :
    device_limit twice_limited.base_policy
      (active_grants first_code b'M' twice_limited.temporary_overrides)
    ≡ some 90
unfolding device_limit active_grants grant_of first_code
shown = refl

read :
    active_device_override platform twice_limited (opening (text "games") 0)
    ≡ ok (some (limit_of 75))
unfolding active_device_override find_or_throw is_active instant_from
read = refl

device_budget-device_limit_example :
    (limit : ℕ) × (device_limit twice_limited.base_policy
        (active_grants first_code b'M' twice_limited.temporary_overrides)
      ≡ some limit)
    × (75 ≤ limit)
unfolding is_active instant_from first_code
device_budget-device_limit_example =
    device_budget-device_limit platform twice_limited (opening (text "games") 0) first_code b'M'
      (some (limit_of 75)) 75 (refl, (refl, tt)) read refl granted
