-- ===== src/Policy/Validation/Described.antt =====
-- What the rules of a bundle satisfy that `validateBundle` of
-- packages/policy-schema/src/validation.ts accepts, in words of their own.
use you_tube_gradian_devin.Common.{
  ℕ, ◌==◌, ==_iff, Text, Bool, Bool-cases, true, false, ◌&&◌, not, List, [], ◌∷◌, ◌++◌, map, In,
  ◌≡◌, ◌↔◌, ◌⊎◌, inl, inr, refl, sym, ap, ◌∙◌, subst, starts_with, arith,
}
use you_tube_gradian_devin.Common.Included.{any-In}
use you_tube_gradian_devin.Policy.Bundle.{CategoryRule, DomainRule, SignedPolicyBundle}
use you_tube_gradian_devin.Policy.Domain.{includes, drop_last_dot}
use you_tube_gradian_devin.Policy.Validation.{Checks, trim, is_host, is_hard, identifiers_of}
use you_tube_gradian_devin.Policy.Validation.Distinct.{IsDistinct}

-- What stands before the last dot of a value that ends with one, and else the value.
abbrev pub Names : (value domain : Text) → Type 0
Names value domain =
    (value ≡ domain ++ b'.' ∷ [])
    ⊎ ((value ≡ domain) × ((rest : Text) → value ≡ rest ++ b'.' ∷ [] → ⊥))

nil_append : (rest : Text) → [] ≡ rest ++ b'.' ∷ [] → ⊥
nil_append [] e = cc
nil_append (r ∷ rest) e = cc

no_dot_after :
    (c d : ℕ) (value : Text)
    → ((rest : Text) → d ∷ value ≡ rest ++ b'.' ∷ [] → ⊥)
    → (rest : Text) → c ∷ d ∷ value ≡ rest ++ b'.' ∷ []
    → ⊥
no_dot_after c d value h [] e = cc
no_dot_after c d value h (r ∷ rest) e = h rest (ground arith)

no_single_dot : (c : ℕ) → (c == b'.') ≡ false → (rest : Text) → c ∷ [] ≡ rest ++ b'.' ∷ [] → ⊥
no_single_dot c h [] e = let same : (c == b'.') ≡ true = (==_iff c b'.').1 (ground arith) in cc
no_single_dot c h (r ∷ rest) e = nil_append rest (ground arith)

drop_last_dot-Names : (value : Text) → Names value (drop_last_dot value)
unfolding drop_last_dot
drop_last_dot-Names [] = inr (refl, nil_append)
drop_last_dot-Names (c ∷ []) = elim (Bool-cases (c == b'.')) [
  | inl dot ↦ rw dot (inl (ap (λ x. x ∷ []) ((==_iff c b'.').0 dot)))
  | inr other ↦ rw other (inr (refl, no_single_dot c other))
]
drop_last_dot-Names (c ∷ d ∷ value) = elim (drop_last_dot-Names (d ∷ value)) [
  | inl e ↦ inl (ap (λ t. c ∷ t) e)
  | inr (e, no_dot) ↦ inr (ap (λ t. c ∷ t) e, no_dot_after c d value no_dot)
]

drop_last_dot-append : (domain : Text) → drop_last_dot (domain ++ b'.' ∷ []) ≡ domain
unfolding drop_last_dot
drop_last_dot-append [] = refl
drop_last_dot-append (c ∷ []) = refl
drop_last_dot-append (c ∷ d ∷ domain) = ap (λ t. c ∷ t) (drop_last_dot-append (d ∷ domain))

Names-drop_last_dot : (value domain : Text) → Names value domain → drop_last_dot value ≡ domain
Names-drop_last_dot value domain (inl e) = ap drop_last_dot e ∙ drop_last_dot-append domain
Names-drop_last_dot value domain (inr (e, no_dot)) = elim (drop_last_dot-Names value) [
  | inl dotted ↦ absurd (no_dot (drop_last_dot value) dotted)
  | inr (same, _) ↦ sym same ∙ e
]

-- A domain has a dot where the search finds one.
has_dot_iff : (domain : Text) → (includes (b'.' ∷ []) domain ≡ true) ↔ In b'.' domain
unfolding includes starts_with
has_dot_iff [] = (λ h. cc, λ m. elim m [ ])
has_dot_iff (c ∷ domain) = elim (Bool-cases (b'.' == c)) [
  | inl dot ↦ rw dot (λ h. inl ((==_iff b'.' c).0 dot), λ m. refl)
  | inr other ↦ rw other (
    λ h. inr ((has_dot_iff domain).0 h),
    λ m. elim m [
      | inl e ↦ let same : (b'.' == c) ≡ true = (==_iff b'.' c).1 e in cc
      | inr n ↦ (has_dot_iff domain).1 n
    ],
  )
]

module _ {V : Type 0} (checks : Checks V) where
  -- The domain of a rule, without spaces around it and without a last dot, is no IP address and has a
  -- dot.
  pub record IsHost (rule : DomainRule) : Type 0 where
    pub domain : Text
    pub named : Names (trim rule.domain) domain
    pub no_address : checks.is_ip domain ≡ false
    pub has_dot : In b'.' domain

  host_sound : (address dot : Bool) → (not address && dot) ≡ true → (address ≡ false) × (dot ≡ true)
  host_sound true dot h = cc
  host_sound false dot h = (refl, h)

  pub is_host_iff : (rule : DomainRule) → (is_host checks rule ≡ true) ↔ IsHost rule
  unfolding is_host
  is_host_iff rule =
      let domain = drop_last_dot (trim rule.domain) in
      (
        λ h.
            let (no_address, dot) =
              host_sound (checks.is_ip domain) (includes (b'.' ∷ []) domain) h in
            record {
              domain = domain;
              named = drop_last_dot-Names (trim rule.domain);
              no_address = no_address;
              has_dot = (has_dot_iff domain).0 dot;
            },
        λ r.
            ap (λ d. not (checks.is_ip d) && includes (b'.' ∷ []) d)
              (Names-drop_last_dot (trim rule.domain) r.domain r.named)
            ∙ rw r.no_address ((has_dot_iff r.domain).1 r.has_dot),
      )

  pub is_hard_iff :
      (rule : CategoryRule) → (is_hard checks rule ≡ true) ↔ In rule.category checks.hard_categories
  unfolding is_hard
  is_hard_iff rule = any-In checks.hard_categories rule.category

-- Each list is without repetitions, and nothing of it stands in an earlier list.
abbrev pub IsApart : (earlier : List Text) → List (List Text) → Type 0
IsApart earlier [] = Unit
IsApart earlier (xs ∷ lists) =
    (IsDistinct xs × ((x : Text) → In x earlier → In x xs → ⊥)) × IsApart (earlier ++ xs) lists

In-append : (x : Text) (xs ys : List Text) → In x (xs ++ ys) ↔ (In x xs ⊎ In x ys)
In-append x [] ys = (λ m. inr m, λ m. elim m [ inl n ↦ elim n [ ] | inr n ↦ n ])
In-append x (y ∷ xs) ys = (
  λ m. elim m [
    | inl e ↦ inl (inl e)
    | inr n ↦ elim ((In-append x xs ys).0 n) [ inl k ↦ inl (inr k) | inr k ↦ inr k ]
  ],
  λ m. elim m [
    | inl n ↦ elim n [ inl e ↦ inl e | inr k ↦ inr ((In-append x xs ys).1 (inl k)) ]
    | inr k ↦ inr ((In-append x xs ys).1 (inr k))
  ],
)

IsDistinct-append_iff :
    (xs ys : List Text)
    → IsDistinct (xs ++ ys)
      ↔ (IsDistinct xs × (IsDistinct ys × ((x : Text) → In x xs → In x ys → ⊥)))
IsDistinct-append_iff [] ys = (λ d. (tt, (d, λ x m. elim m [ ])), λ (_, (d, _)). d)
IsDistinct-append_iff (z ∷ xs) ys =
    let others = IsDistinct-append_iff xs ys in
    (
      λ (new, d).
          let (first, (second, apart)) = others.0 d in
          (
            (λ m. new ((In-append z xs ys).1 (inl m)), first),
            (
              second,
              λ x m k. elim m [
                | inl e ↦ new ((In-append z xs ys).1 (inr (subst (λ w. In w ys) e k)))
                | inr n ↦ apart x n k
              ],
            ),
          ),
      λ ((new, first), (second, apart)). (
        λ m. elim ((In-append z xs ys).0 m) [ inl n ↦ new n | inr k ↦ apart z (inl refl) k ],
        others.1 (first, (second, λ x n k. apart x (inr n) k)),
      ),
    )

-- The lists one after another.
abbrev joined : List Text → List (List Text) → List Text
joined earlier [] = earlier
joined earlier (xs ∷ lists) = joined (earlier ++ xs) lists

joined_iff :
    (earlier : List Text) (lists : List (List Text))
    → IsDistinct (joined earlier lists) ↔ (IsDistinct earlier × IsApart earlier lists)
joined_iff earlier [] = (λ d. (d, tt), λ (d, _). d)
joined_iff earlier (xs ∷ lists) =
    let rest = joined_iff (earlier ++ xs) lists in
    let here = IsDistinct-append_iff earlier xs in
    (
      λ d.
          let (both, apart) = rest.0 d in
          let (first, (second, none_shared)) = here.0 both in
          (first, ((second, none_shared), apart)),
      λ (first, ((second, none_shared), apart)).
          rest.1 (here.1 (first, (second, none_shared)), apart),
    )

-- The identifiers of each of the seven collections.
abbrev pub collected : SignedPolicyBundle → List (List Text)
collected bundle =
    map (λ rule. rule.rule_id) bundle.app_rules
    ∷ map (λ rule. rule.rule_id) bundle.domain_rules
    ∷ map (λ rule. rule.rule_id) bundle.category_rules
    ∷ map (λ rule. rule.rule_id) bundle.base_policy.hard_category_rules
    ∷ map (λ rule. rule.rule_id) bundle.base_policy.default_category_rules
    ∷ map (λ routine. routine.routine_id) bundle.routines
    ∷ map (λ override. override.rule_id) bundle.temporary_overrides
    ∷ []

-- No identifier is used twice: not in one of the seven collections, and not in two of them.
abbrev pub HasDistinct : SignedPolicyBundle → Type 0
HasDistinct bundle = IsApart [] (collected bundle)

pub identifiers_iff :
    (bundle : SignedPolicyBundle) → IsDistinct (identifiers_of bundle) ↔ HasDistinct bundle
identifiers_iff bundle =
    let lists = joined_iff [] (collected bundle) in
    (λ d. (lists.0 d).1, λ apart. lists.1 (tt, apart))
