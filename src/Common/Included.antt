-- ===== src/Common/Included.antt =====
-- Texts that stand in a list.
use mathlib.Core.Path.{◌≡◌, refl, sym}
use mathlib.Core.Logic.{◌≢◌, ◌↔◌, inl, inr}
use mathlib.Core.Bool.{true, false}
use mathlib.Core.List.{List, [], ◌∷◌}
use you_tube_gradian_devin.Common.Tests.{Bool-cases}
use you_tube_gradian_devin.Common.Lists.{any, In}
use you_tube_gradian_devin.Common.Texts.{Text, text_eq, text_eq_iff}

pub text_eq-ne : (k x : Text) → text_eq k x ≡ false → k ≢ x
text_eq-ne k x h e = let same : text_eq k x ≡ true = (text_eq_iff k x).1 e in cc

-- `known.includes(x)`
pub any-In : (known : List Text) (x : Text) → (any (λ k. text_eq k x) known ≡ true) ↔ In x known
unfolding any
any-In [] x = (λ h. cc, λ m. elim m [ ])
any-In (k ∷ known) x = elim (Bool-cases (text_eq k x)) [
  | inl same ↦ (λ h. inl (sym ((text_eq_iff k x).0 same)), λ m. rw same refl)
  | inr other ↦ rw other (
    λ h. inr ((any-In known x).0 h),
    λ m. elim m [ inl e ↦ elim (text_eq-ne k x other (sym e)) [ ] | inr n ↦ (any-In known x).1 n ],
  )
]
