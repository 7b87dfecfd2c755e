-- ===== src/Policy/Validation/Distinct.antt =====
-- The identifiers that `validateUniqueIdentifiers` of packages/policy-schema/src/validation.ts
-- accepts.
use you_tube_gradian_devin.Common.{
  Text, text_eq, true, false, List, [], ◌∷◌, any, Bool-cases, subst, ◌≡◌, refl, In, inl, inr, ◌↔◌,
}
use you_tube_gradian_devin.Common.Included.{any-In}
use you_tube_gradian_devin.Policy.Validation.{repetitions}

-- No identifier stands in the list twice.
abbrev pub IsDistinct : List Text → Type 0
IsDistinct [] = Unit
IsDistinct (x ∷ xs) = (In x xs → ⊥) × IsDistinct xs

-- None of the identifiers is known, and none stands in the list twice.
abbrev IsNew : List Text → List Text → Type 0
IsNew known [] = Unit
IsNew known (x ∷ xs) = (In x known → ⊥) × IsNew (x ∷ known) xs

any-false : (known : List Text) (x : Text) → any (λ k. text_eq k x) known ≡ false → In x known → ⊥
any-false known x h m = let there : any (λ k. text_eq k x) known ≡ true = (any-In known x).1 m in cc

repetitions-IsNew : (known xs : List Text) → (repetitions known xs ≡ []) ↔ IsNew known xs
unfolding repetitions
repetitions-IsNew known [] = (λ h. tt, λ h. refl)
repetitions-IsNew known (x ∷ xs) = elim (Bool-cases (any (λ k. text_eq k x) known)) [
  | inl there ↦ rw there (λ h. cc, λ h. elim (h.0 ((any-In known x).0 there)) [ ])
  | inr away ↦ rw away (
    λ h. (λ m. any-false known x away m, (repetitions-IsNew (x ∷ known) xs).0 h),
    λ h. (repetitions-IsNew (x ∷ known) xs).1 (h.1),
  )
]

IsNew-iff :
    (known xs : List Text)
    → IsNew known xs ↔ (IsDistinct xs × ((x : Text) → In x xs → In x known → ⊥))
IsNew-iff known [] = (λ h. (tt, λ x m. elim m [ ]), λ h. tt)
IsNew-iff known (x ∷ xs) =
    let ih : IsNew (x ∷ known) xs
        ↔ (IsDistinct xs × ((y : Text) → In y xs → In y (x ∷ known) → ⊥)) =
      IsNew-iff (x ∷ known) xs in
    (
      λ h. (
        (λ m. (ih.0 (h.1)).1 x m (inl refl), (ih.0 (h.1)).0),
        λ y m. elim m [
          | inl e ↦ λ n. h.0 (subst (λ z. In z known) e n)
          | inr k ↦ λ n. (ih.0 (h.1)).1 y k (inr n)
        ],
      ),
      λ h. (
        λ n. h.1 x (inl refl) n,
        ih.1 (
          (h.0).1,
          λ y m.
              λ n. elim n [ inl e ↦ (h.0).0 (subst (λ z. In z xs) e m) | inr k ↦ h.1 y (inr m) k ],
        ),
      ),
    )

-- The loop over a bundle's identifiers finds no issue exactly where none of them is listed twice.
pub repetitions_iff : (xs : List Text) → (repetitions [] xs ≡ []) ↔ IsDistinct xs
repetitions_iff xs = (
  λ h. ((IsNew-iff [] xs).0 ((repetitions-IsNew [] xs).0 h)).0,
  λ h. (repetitions-IsNew [] xs).1 ((IsNew-iff [] xs).1 (h, λ x m n. n)),
)
