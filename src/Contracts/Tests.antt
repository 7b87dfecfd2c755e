-- ===== src/Contracts/Tests.antt =====
-- The guards on a text that each of them reads.
use you_tube_gradian_devin.Common.{text, true, ◌≡◌, ◌↔◌}
use you_tube_gradian_devin.Contracts.Guards.{
  is_age_band, is_capability_level, is_policy_decision_action,
}
use you_tube_gradian_devin.Contracts.Guarded.{band_text, level_text, action_text, Names, guards_iff}
use you_tube_gradian_devin.Policy.Canonical.Values.{Value, string}

abbrev limited : Value
limited = string (text "LIMITED")

guards_iff_example :
    ((is_age_band limited ≡ true) ↔ Names band_text limited)
    × ((is_capability_level limited ≡ true) ↔ Names level_text limited)
    × ((is_policy_decision_action limited ≡ true) ↔ Names action_text limited)
guards_iff_example = guards_iff limited
