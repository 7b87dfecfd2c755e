-- ===== src/Release/Admission/Version.antt =====
-- The version codes that apps/mobile/scripts/release-admission.mjs admits.
use you_tube_gradian_devin.Common.{
  ℕ, zero, suc, ◌+◌, ◌-◌, ◌*◌, ◌/◌, ◌%◌, ◌≤◌, ◌<◌, Text, decimal, decimal_small, decimal_next,
  append_assoc, Bool, Bool-cases, true, false, ◌||◌, not, [], ◌∷◌, ◌++◌, all, ltb, ◌≡◌, ◌↔◌, inl,
  inr, refl, sym, ap, ◌∙◌, subst, arith,
}
use you_tube_gradian_devin.Release.Patterns.{is_digit, is_version_code, big_int}
use you_tube_gradian_devin.Release.Admission.{
  Diagnostic, bad_version_code, push_if, validate_version_code,
}

append_nil : (t : Text) → t ++ [] ≡ t
append_nil [] = refl
append_nil (c ∷ t) = ap (λ r. c ∷ r) (append_nil t)

-- Digits after the decimal text of a number continue it.
decimal-big_int :
    (n : ℕ) (cs : Text)
    → 0 < n
    → all is_digit cs ≡ true
    → (decimal n ++ cs ≡ decimal (big_int n cs)) × (0 < big_int n cs)
unfolding all big_int
decimal-big_int n [] pos h = (append_nil (decimal n), pos)
decimal-big_int n (c ∷ cs) pos h =
    let digit : (48 ≤ c) × (c ≤ 57) × (all is_digit cs ≡ true) = ground arith in
    let (e, q) = decimal-big_int (n * 10 + (c - 48)) cs (omega arith) (digit.2) in
    let next = decimal_next n (c - 48) pos (omega arith) in
    let same : 48 + (c - 48) ≡ c = omega arith in
    (
      ap (λ d. decimal n ++ d ∷ cs) (sym same)
          ∙ sym (append_assoc (decimal n) _ cs)
          ∙ ap (λ t. t ++ cs) (sym next)
          ∙ e,
      q,
    )

all-append :
    (cs : Text) (d : ℕ)
    → all is_digit cs ≡ true
    → is_digit d ≡ true
    → all is_digit (cs ++ d ∷ []) ≡ true
unfolding all
all-append [] d h k = ground arith
all-append (c ∷ cs) d h k = ground (arith, all-append cs d)

is_version_code-append :
    (cs : Text) (d : ℕ)
    → is_version_code cs ≡ true
    → is_digit d ≡ true
    → is_version_code (cs ++ d ∷ []) ≡ true
is_version_code-append [] d h k = cc
is_version_code-append (c ∷ cs) d h k = ground (arith, all-append cs d)

big_int-append :
    (n : ℕ) (cs : Text) (d : ℕ) → big_int n (cs ++ (48 + d) ∷ []) ≡ big_int n cs * 10 + d
unfolding big_int
big_int-append n [] d = omega arith
big_int-append n (c ∷ cs) d = big_int-append (n * 10 + (c - 48)) cs d

abbrev IsCode : ℕ → Text → Type 0
IsCode n t = (is_version_code t ≡ true) × (big_int 0 t ≡ n)

one_digit : (n : ℕ) → 0 < n → n < 10 → IsCode n ((48 + n) ∷ [])
unfolding all big_int
one_digit n pos h = (ground arith, omega arith)

one_more :
    (n m d : ℕ) (t : Text) → n ≡ m * 10 + d → d < 10 → IsCode m t → IsCode n (t ++ (48 + d) ∷ [])
one_more n m d t e h (code, value) = (
  is_version_code-append t (48 + d) code (ground arith),
  omega (arith, big_int-append 0 t d, value),
)

decimal-IsCode : (k n : ℕ) → n < k → 0 < n → IsCode n (decimal n)
decimal-IsCode zero n h pos = absurd (omega arith)
decimal-IsCode (suc k) n h pos = elim (Bool-cases (ltb n 10)) [
  | inl small ↦
      let lt : n < 10 = ground arith in
      subst (IsCode n) (sym (decimal_small n lt)) (one_digit n pos lt)
  | inr large ↦
      let ge : 10 ≤ n = ground arith in
      let parts : n ≡ n / 10 * 10 + n % 10 = omega arith in
      let next = decimal_next (n / 10) (n % 10) (omega arith) (omega arith) in
      let smaller = decimal-IsCode k (n / 10) (omega arith) (omega arith) in
      subst (IsCode n) (sym (ap decimal parts ∙ next))
        (one_more n (n / 10) (n % 10) _ parts (omega arith) smaller)
]

pub push_if_nil : (b : Bool) (d : Diagnostic) → (push_if b d ≡ []) ↔ (b ≡ false)
push_if_nil true d = (λ h. cc, λ h. cc)
push_if_nil false d = (λ h. refl, λ h. refl)

version_code-decimal :
    (t : Text) → is_version_code t ≡ true → (t ≡ decimal (big_int 0 t)) × (0 < big_int 0 t)
unfolding big_int
version_code-decimal [] h = cc
version_code-decimal (c ∷ cs) h =
    let parts : (49 ≤ c) × (c ≤ 57) × (all is_digit cs ≡ true) = ground arith in
    let (e, q) = decimal-big_int (c - 48) cs (omega arith) (parts.2) in
    let first = decimal_small (c - 48) (omega arith) in
    let same : 48 + (c - 48) ≡ c = omega arith in
    let start : 0 * 10 + (c - 48) ≡ c - 48 = omega arith in
    (
      ap (λ d. d ∷ cs) (sym same)
          ∙ ap (λ s. s ++ cs) (sym first)
          ∙ e
          ∙ ap (λ m. decimal (big_int m cs)) (sym start),
      subst (λ m. 0 < big_int m cs) (sym start) q,
    )

-- A version code is admitted exactly where it is the decimal text of a positive number that fits
-- in 31 bits: without a sign, a space or a zero in front.
pub validate_version_code_iff :
    (t : Text)
    → (validate_version_code t ≡ []) ↔ ((n : ℕ) × (t ≡ decimal n) × (0 < n) × (n ≤ 2147483647))
unfolding validate_version_code
validate_version_code_iff t = (
  λ h.
      let test = (push_if_nil _ _).0 h in
      let parts : (is_version_code t ≡ true) × (big_int 0 t ≤ 2147483647) = ground arith in
      let (e, q) = version_code-decimal t (parts.0) in (big_int 0 t, e, q, parts.1),
  λ (n, e, pos, le).
      let (code, same) = decimal-IsCode (suc n) n (omega arith) pos in
      subst
        (λ s.
          push_if (not (is_version_code s) || ltb 2147483647 (big_int 0 s)) bad_version_code ≡ [])
        (sym e) ((push_if_nil _ _).1 (ground arith)),
)
