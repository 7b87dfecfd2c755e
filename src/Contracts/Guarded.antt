-- ===== src/Contracts/Guarded.antt =====
-- The values that the guards let through.
use you_tube_gradian_devin.Common.{
  Text, text, text_eq, text_eq_iff, Bool-cases, true, In, ◌≡◌, refl, ap, ◌∙◌, ◌↔◌, inl, inr, arith,
}
use you_tube_gradian_devin.Common.Included.{any-In}
use you_tube_gradian_devin.Contracts.{CapabilityLevel, PolicyDecisionAction}
use you_tube_gradian_devin.Contracts.Guards.{
  age_bands, capability_levels, is_age_band, is_capability_level, is_policy_decision_action,
}
use you_tube_gradian_devin.Policy.Bundle.{AgeBand}
use you_tube_gradian_devin.Policy.Canonical.Values.{Value, string}

abbrev pub band_text : AgeBand → Text
band_text AgeBand.young_child = text "YOUNG_CHILD"
band_text AgeBand.preteen = text "PRETEEN"
band_text AgeBand.teen = text "TEEN"
band_text AgeBand.older_teen = text "OLDER_TEEN"

abbrev pub level_text : CapabilityLevel → Text
level_text CapabilityLevel.full = text "FULL"
level_text CapabilityLevel.limited = text "LIMITED"
level_text CapabilityLevel.best_effort = text "BEST_EFFORT"
level_text CapabilityLevel.unavailable = text "UNAVAILABLE"
level_text CapabilityLevel.region_limited = text "REGION_LIMITED"

abbrev pub action_text : PolicyDecisionAction → Text
action_text PolicyDecisionAction.allow = text "ALLOW"
action_text PolicyDecisionAction.block = text "BLOCK"
action_text PolicyDecisionAction.limit_reached = text "LIMIT_REACHED"
action_text PolicyDecisionAction.allow_with_budget = text "ALLOW_WITH_BUDGET"

-- A value is the text of a member of the type.
abbrev pub Names : {A : Type 0} → (A → Text) → Value → Type 0
Names {A} to_text value = (member : A) × (value ≡ string (to_text member))

band_of : (t : Text) → In t age_bands → (band : AgeBand) × (t ≡ band_text band)
band_of t (inl e) = (AgeBand.young_child, e)
band_of t (inr (inl e)) = (AgeBand.preteen, e)
band_of t (inr (inr (inl e))) = (AgeBand.teen, e)
band_of t (inr (inr (inr (inl e)))) = (AgeBand.older_teen, e)
band_of t (inr (inr (inr (inr m)))) = elim m [ ]

band_text-In : (band : AgeBand) → In (band_text band) age_bands
band_text-In AgeBand.young_child = inl refl
band_text-In AgeBand.preteen = inr (inl refl)
band_text-In AgeBand.teen = inr (inr (inl refl))
band_text-In AgeBand.older_teen = inr (inr (inr (inl refl)))

level_of : (t : Text) → In t capability_levels → (level : CapabilityLevel) × (t ≡ level_text level)
level_of t (inl e) = (CapabilityLevel.full, e)
level_of t (inr (inl e)) = (CapabilityLevel.limited, e)
level_of t (inr (inr (inl e))) = (CapabilityLevel.best_effort, e)
level_of t (inr (inr (inr (inl e)))) = (CapabilityLevel.unavailable, e)
level_of t (inr (inr (inr (inr (inl e))))) = (CapabilityLevel.region_limited, e)
level_of t (inr (inr (inr (inr (inr m))))) = elim m [ ]

level_text-In : (level : CapabilityLevel) → In (level_text level) capability_levels
level_text-In CapabilityLevel.full = inl refl
level_text-In CapabilityLevel.limited = inr (inl refl)
level_text-In CapabilityLevel.best_effort = inr (inr (inl refl))
level_text-In CapabilityLevel.unavailable = inr (inr (inr (inl refl)))
level_text-In CapabilityLevel.region_limited = inr (inr (inr (inr (inl refl))))

sound_band : (value : Value) → is_age_band value ≡ true → Names band_text value
unfolding is_age_band
sound_band (string t) h =
    let (band, e) = band_of t ((any-In age_bands t).0 h) in (band, ap string e)
sound_band _ h = cc

sound_level : (value : Value) → is_capability_level value ≡ true → Names level_text value
unfolding is_capability_level
sound_level (string t) h =
    let (level, e) = level_of t ((any-In capability_levels t).0 h) in (level, ap string e)
sound_level _ h = cc

action_of :
    (t : Text)
    → is_policy_decision_action (string t) ≡ true
    → (action : PolicyDecisionAction) × (t ≡ action_text action)
unfolding is_policy_decision_action
action_of t h = elim (Bool-cases (text_eq t (text "ALLOW"))) [
  | inl e ↦ (PolicyDecisionAction.allow, (text_eq_iff _ _).0 e)
  | inr n ↦ elim (Bool-cases (text_eq t (text "BLOCK"))) [
    | inl e ↦ (PolicyDecisionAction.block, (text_eq_iff _ _).0 e)
    | inr m ↦ elim (Bool-cases (text_eq t (text "LIMIT_REACHED"))) [
      | inl e ↦ (PolicyDecisionAction.limit_reached, (text_eq_iff _ _).0 e)
      | inr k ↦ (PolicyDecisionAction.allow_with_budget, (text_eq_iff _ _).0 (ground arith))
    ]
  ]
]

sound_action : (value : Value) → is_policy_decision_action value ≡ true → Names action_text value
unfolding is_policy_decision_action
sound_action (string t) h = let (action, e) = action_of t h in (action, ap string e)
sound_action _ h = cc

complete_action :
    (action : PolicyDecisionAction) → is_policy_decision_action (string (action_text action)) ≡ true
unfolding is_policy_decision_action text_eq
complete_action PolicyDecisionAction.allow = refl
complete_action PolicyDecisionAction.block = refl
complete_action PolicyDecisionAction.limit_reached = refl
complete_action PolicyDecisionAction.allow_with_budget = refl

complete_band : (band : AgeBand) → is_age_band (string (band_text band)) ≡ true
unfolding is_age_band
complete_band band = (any-In age_bands (band_text band)).1 (band_text-In band)

complete_level : (level : CapabilityLevel) → is_capability_level (string (level_text level)) ≡ true
unfolding is_capability_level
complete_level level = (any-In capability_levels (level_text level)).1 (level_text-In level)

-- Of all values, the three guards let through those that are the text of an age band, of a level of
-- a capability and of an action of a decision, and no others.
pub guards_iff :
    (value : Value)
    → ((is_age_band value ≡ true) ↔ Names band_text value)
      × ((is_capability_level value ≡ true) ↔ Names level_text value)
      × ((is_policy_decision_action value ≡ true) ↔ Names action_text value)
guards_iff value = (
  (sound_band value, λ (band, e). ap is_age_band e ∙ complete_band band),
  (sound_level value, λ (level, e). ap is_capability_level e ∙ complete_level level),
  (sound_action value, λ (action, e). ap is_policy_decision_action e ∙ complete_action action),
)
