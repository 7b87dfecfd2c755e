-- ===== src/Contracts/Guards.antt =====
-- The guards of packages/contracts/src/types.ts: whether any value is of a type of texts.
use you_tube_gradian_devin.Common.{Text, text, text_eq, List, [], ◌∷◌, Bool, false, ◌||◌, any}
use you_tube_gradian_devin.Policy.Canonical.Values.{Value, string}

abbrev pub age_bands : List Text
age_bands = text "YOUNG_CHILD" ∷ text "PRETEEN" ∷ text "TEEN" ∷ text "OLDER_TEEN" ∷ []

-- `capability_levels` of packages/contracts/content-risk-contract.json.
abbrev pub capability_levels : List Text
capability_levels =
    text "FULL"
    ∷ text "LIMITED"
    ∷ text "BEST_EFFORT"
    ∷ text "UNAVAILABLE"
    ∷ text "REGION_LIMITED"
    ∷ []

unfoldable pub is_age_band : Value → Bool
is_age_band (string value) = any (λ band. text_eq band value) age_bands
is_age_band _ = false

unfoldable pub is_capability_level : Value → Bool
is_capability_level (string value) = any (λ level. text_eq level value) capability_levels
is_capability_level _ = false

-- `value === wanted` for a text that is wanted.
abbrev pub is_text : Value → Text → Bool
is_text (string value) wanted = text_eq value wanted
is_text _ wanted = false

unfoldable pub is_policy_decision_action : Value → Bool
is_policy_decision_action value =
    is_text value (text "ALLOW")
    || (is_text value (text "BLOCK")
        || (is_text value (text "LIMIT_REACHED") || is_text value (text "ALLOW_WITH_BUDGET")))
