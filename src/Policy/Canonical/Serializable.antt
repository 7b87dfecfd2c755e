-- ===== src/Policy/Canonical/Serializable.antt =====
-- The values that have a canonical JSON text.
use you_tube_gradian_devin.Common.{
  ℕ, Text, Bool, Bool-cases, true, false, List, [], ◌∷◌, ◌++◌, ◌≡◌, refl, ◌↔◌, inl, inr, arith, ◌<◌,
  ◌^◌, Result, ok, err, All, map_or_throw, if◌then◌else◌,
}
use you_tube_gradian_devin.Common.Results.Success.{
  Succeeds, returns, value_of_Succeeds, Succeeds-of_eq, bind-Succeeds, first-Succeeds,
  Succeeds-map_or_throw_iff, Succeeds-bind,
}
use you_tube_gradian_devin.Policy.Canonical.Values.{
  Value, undefined, null, boolean, integer, other_number, string, array, object, unsupported, Items,
  nil, cons, Fields, end, field,
}
use you_tube_gradian_devin.Policy.Canonical.{
  TypeError, lone_surrogate, is_high, is_low, check_surrogates, stringify, escape_string, Property,
  insert, property_text, canonicalize, canonicalize_items, sorted_properties, text_lt, is_safe,
  integer_text, unsafe_number,
}

-- Each surrogate of the text is half of a pair.
pub data IsWellFormed : Text → Type 0 where
  none_left : IsWellFormed []
  unit :
      {c : ℕ} {s : Text}
      → is_high c ≡ false
      → is_low c ≡ false
      → IsWellFormed s
      → IsWellFormed (c ∷ s)
  pair :
      {c d : ℕ} {s : Text}
      → is_high c ≡ true
      → is_low d ≡ true
      → IsWellFormed s
      → IsWellFormed (c ∷ d ∷ s)

-- The value and all its parts have a canonical text.
abbrev mutual
  pub IsCanonical : Value → Type 0
  IsCanonical undefined = ⊥
  IsCanonical null = Unit
  IsCanonical (boolean b) = Unit
  IsCanonical (integer negative n) = n < 2 ^ 53
  IsCanonical other_number = ⊥
  IsCanonical (string value) = IsWellFormed value
  IsCanonical (array items) = AreCanonical items
  IsCanonical (object fields) = HasCanonical fields
  IsCanonical unsupported = ⊥

  pub AreCanonical : Items → Type 0
  AreCanonical nil = Unit
  AreCanonical (cons value items) = IsCanonical value × AreCanonical items

  pub HasCanonical : Fields → Type 0
  HasCanonical end = Unit
  HasCanonical (field key value fields) = IsWellFormed key × IsCanonical value × HasCanonical fields

check-of_IsWellFormed : {s : Text} → IsWellFormed s → check_surrogates s ≡ ok tt
unfolding check_surrogates
check-of_IsWellFormed none_left = refl
check-of_IsWellFormed (unit {s = []} h l w) = rw (h, l) refl
check-of_IsWellFormed (unit {s = d ∷ s} h l w) = rw (h, l) (check-of_IsWellFormed w)
check-of_IsWellFormed (pair h l w) = rw (h, l) (check-of_IsWellFormed w)

check-IsWellFormed : (s : Text) → check_surrogates s ≡ ok tt → IsWellFormed s
unfolding check_surrogates
check-IsWellFormed [] h = none_left
check-IsWellFormed (c ∷ []) h = elim (Bool-cases (is_high c)) [
  | inl high ↦ (let k : err lone_surrogate ≡ ok tt = rw high at h in cc)
  | inr not_high ↦ elim (Bool-cases (is_low c)) [
    | inl low ↦ (let k : err lone_surrogate ≡ ok tt = rw (not_high, low) at h in cc)
    | inr not_low ↦ unit not_high not_low none_left
  ]
]
check-IsWellFormed (c ∷ d ∷ s) h = elim (Bool-cases (is_high c)) [
  | inl high ↦ elim (Bool-cases (is_low d)) [
    | inl low ↦ pair high low (check-IsWellFormed s (rw (high, low) at h))
    | inr not_low ↦ (let k : err lone_surrogate ≡ ok tt = rw (high, not_low) at h in cc)
  ]
  | inr not_high ↦ elim (Bool-cases (is_low c)) [
    | inl low ↦ (let k : err lone_surrogate ≡ ok tt = rw (not_high, low) at h in cc)
    | inr not_low ↦ unit not_high not_low (check-IsWellFormed (d ∷ s) (rw (not_high, not_low) at h))
  ]
]

no_value : {A : Type 0} {e : TypeError} {P : Type 0} → Succeeds {A = A} (err e) → P
no_value h = let found = value_of_Succeeds h in let e = found.1 in cc

escape_string-Succeeds : (s : Text) → Succeeds (escape_string s) ↔ IsWellFormed s
unfolding escape_string
escape_string-Succeeds s = (
  λ h.
      let step = bind-Succeeds (check_surrogates s) _ h in
      check-IsWellFormed s (unit_ok (step.0) (step.1)),
  λ w. Succeeds-bind _ (Succeeds-of_eq (check-of_IsWellFormed w)) (λ _. returns (stringify s)),
)
  where
    unit_ok : {r : Result TypeError Unit} (u : Unit) → r ≡ ok u → r ≡ ok tt
    unit_ok u e = e

property_text-Succeeds :
    (key : Text) (value : Result TypeError Text)
    → Succeeds (property_text (key, value)) ↔ (IsWellFormed key × Succeeds value)
property_text-Succeeds key value = (
  λ h.
      let step = bind-Succeeds (escape_string key) _ h in
      (
        (escape_string-Succeeds key).0 (first-Succeeds (escape_string key) _ h),
        first-Succeeds value _ (step.2),
      ),
  λ h.
      Succeeds-bind _ ((escape_string-Succeeds key).1 (h.0))
        (λ k. Succeeds-bind _ (h.1) (λ v. returns (k ++ b':' ∷ v))),
)

insert-All :
    (P : Property → Type 0) (p : Property) (l : List Property)
    → All P (insert p l) ↔ (P p × All P l)
unfolding insert
insert-All P p [] = (λ h. h, λ h. h)
insert-All P p (q ∷ l) = elim (Bool-cases (text_lt (q.0) (p.0))) [
  | inl below ↦ rw below (
    λ h. (((insert-All P p l).0 (h.1)).0, (h.0, ((insert-All P p l).0 (h.1)).1)),
    λ h. ((h.1).0, (insert-All P p l).1 (h.0, (h.1).1)),
  )
  | inr above ↦ rw above (λ h. h, λ h. h)
]

integer-Succeeds :
    (negative : Bool) (n : ℕ)
    → Succeeds (if is_safe n then ok (integer_text negative n) else err unsafe_number)
      ↔ (n < 2 ^ 53)
integer-Succeeds negative n = elim (Bool-cases (is_safe n)) [
  | inl safe ↦ rw safe (λ h. ground arith, λ h. returns (integer_text negative n))
  | inr not_safe ↦ rw not_safe (λ h. no_value h, λ h. absurd (ground arith))
]

mutual
  unfolding canonicalize

  canonicalize-Succeeds : (v : Value) → Succeeds (canonicalize v) ↔ IsCanonical v
  canonicalize-Succeeds undefined = (no_value, λ h. elim h [ ])
  canonicalize-Succeeds null = (λ h. tt, λ h. returns _)
  canonicalize-Succeeds (boolean true) = (λ h. tt, λ h. returns _)
  canonicalize-Succeeds (boolean false) = (λ h. tt, λ h. returns _)
  canonicalize-Succeeds (integer negative n) = integer-Succeeds negative n
  canonicalize-Succeeds other_number = (no_value, λ h. elim h [ ])
  canonicalize-Succeeds (string s) = escape_string-Succeeds s
  canonicalize-Succeeds (array items) = (
    λ h. (canonicalize_items-Succeeds items).0 (first-Succeeds (canonicalize_items items) _ h),
    λ h. Succeeds-bind _ ((canonicalize_items-Succeeds items).1 h) (λ texts. returns _),
  )
  canonicalize-Succeeds (object fields) = (
    λ h. (sorted_properties-Succeeds fields).0 (
        (Succeeds-map_or_throw_iff property_text (sorted_properties fields)).0
          (first-Succeeds (map_or_throw property_text (sorted_properties fields)) _ h)),
    λ h.
        Succeeds-bind _
          ((Succeeds-map_or_throw_iff property_text (sorted_properties fields)).1
            ((sorted_properties-Succeeds fields).1 h))
          (λ texts. returns _),
  )
  canonicalize-Succeeds unsupported = (no_value, λ h. elim h [ ])

  canonicalize_items-Succeeds :
      (items : Items) → Succeeds (canonicalize_items items) ↔ AreCanonical items
  canonicalize_items-Succeeds nil = (λ h. tt, λ h. returns [])
  canonicalize_items-Succeeds (cons v items) = (
    λ h.
        let step = bind-Succeeds (canonicalize v) _ h in
        (
          (canonicalize-Succeeds v).0 (first-Succeeds (canonicalize v) _ h),
          (canonicalize_items-Succeeds items).0
              (first-Succeeds (canonicalize_items items) _ (step.2)),
        ),
    λ h. Succeeds-bind _ ((canonicalize-Succeeds v).1 (h.0)) (λ t.
        Succeeds-bind _ ((canonicalize_items-Succeeds items).1 (h.1))
          (λ texts. returns (t ∷ texts))),
  )

  sorted_properties-Succeeds :
      (fields : Fields)
      → All (λ p. Succeeds (property_text p)) (sorted_properties fields) ↔ HasCanonical fields
  sorted_properties-Succeeds end = (λ h. tt, λ h. tt)
  sorted_properties-Succeeds (field key v fields) =
      let inserted =
        insert-All (λ p. Succeeds (property_text p)) (key, canonicalize v)
          (sorted_properties fields) in
      let first = property_text-Succeeds key (canonicalize v) in
      (
        λ h.
            let parts = inserted.0 h in
            let both = first.0 (parts.0) in
            (
              both.0,
              (canonicalize-Succeeds v).0 (both.1),
              (sorted_properties-Succeeds fields).0 (parts.1),
            ),
        λ h. inserted.1 (
          first.1 (h.0, (canonicalize-Succeeds v).1 (h.1)),
          (sorted_properties-Succeeds fields).1 (h.2),
        ),
      )

-- A value has a canonical text exactly if nothing in it, at any depth, is undefined, a function, a
-- number that is not a safe integer, or a text or key with half of a surrogate pair.
pub canonicalize-IsCanonical : (v : Value) → Succeeds (canonicalize v) ↔ IsCanonical v
canonicalize-IsCanonical v = canonicalize-Succeeds v
