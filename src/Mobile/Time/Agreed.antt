-- ===== src/Mobile/Time/Agreed.antt =====
-- The time that the screen shows, against the budgets of the policy evaluator.
use Prim.Native.Nat.{max, min}
use you_tube_gradian_devin.Common.{
  ℕ, ◌+◌, ◌*◌, ◌-◌, ◌/◌, ◌≤◌, Text, Option, none, some, List, [], ◌∷◌, Bool, Bool-cases, true,
  false, ◌&&◌, map, find, find_sound, add_some, All, In, leb, if◌then◌else◌, ◌≡◌, ◌↔◌, ◌⊎◌, inl,
  inr, refl, sym, ap, ◌∙◌, subst, arith, Result, ok, find_or_throw-eq-find,
}
use you_tube_gradian_devin.Policy.Bundle.{
  Action, OverrideKind, TemporaryOverride, SignedPolicyBundle,
}
use you_tube_gradian_devin.Policy.Platform.{Platform, RangeError}
use you_tube_gradian_devin.Policy.Rules.{DecisionContext, is_device, is_active}
use you_tube_gradian_devin.Policy.Budget.{
  defined, greatest, greatest_from, minutes_of, device_budget, over_budget, active_device_override,
}
use you_tube_gradian_devin.Mobile.Time.{
  GrantAction, GrantKind, Grant, grant_of, active_grants, is_current_override, device_minutes,
  device_limit, Label, no_time, minutes_left, remaining_label, budget_label,
}

greatest_from-bound :
    (best : ℕ) (xs : List ℕ) (x : ℕ) → (x ≤ best) ⊎ In x xs → x ≤ greatest_from best xs
greatest_from-bound best [] x (inl h) = h
greatest_from-bound best [] x (inr m) = elim m [ ]
greatest_from-bound best (y ∷ ys) x (inl h) =
    greatest_from-bound (max best y) ys x (inl (omega arith))
greatest_from-bound best (y ∷ ys) x (inr (inl e)) =
    greatest_from-bound (max best y) ys x (inl (omega (arith, e)))
greatest_from-bound best (y ∷ ys) x (inr (inr m)) = greatest_from-bound (max best y) ys x (inr m)

greatest_from-In :
    (best : ℕ) (xs : List ℕ) → (greatest_from best xs ≡ best) ⊎ In (greatest_from best xs) xs
greatest_from-In best [] = inl refl
greatest_from-In best (y ∷ ys) = elim (greatest_from-In (max best y) ys) [
  | inr m ↦ inr (inr m)
  | inl e ↦ elim (max_cases best y) [
    | inl first ↦ inl (e ∙ first)
    | inr second ↦ inr (inl (e ∙ second))
  ]
]
  where
    max_cases : (a b : ℕ) → (max a b ≡ a) ⊎ (max a b ≡ b)
    max_cases a b = elim (Bool-cases (leb a b)) [
      | inl h ↦ inr (ground arith)
      | inr h ↦ inl (ground arith)
    ]

-- The greatest number of a list is in it, and none is greater.
greatest-In : (xs : List ℕ) (b : ℕ) → greatest xs ≡ some b → In b xs
greatest-In [] b h = cc
greatest-In (x ∷ xs) b h =
    let e : greatest_from x xs ≡ b = ground arith in
    elim (greatest_from-In x xs) [
      | inl same ↦ inl (sym e ∙ same)
      | inr m ↦ inr (subst (λ n. In n xs) e m)
    ]

greatest_bound : (xs : List ℕ) (x : ℕ) → In x xs → (b : ℕ) × (greatest xs ≡ some b) × (x ≤ b)
greatest_bound [] x m = elim m [ ]
greatest_bound (y ∷ ys) x (inl e) =
    (greatest_from y ys, refl, greatest_from-bound y ys x (inl (omega (arith, e))))
greatest_bound (y ∷ ys) x (inr m) = (greatest_from y ys, refl, greatest_from-bound y ys x (inr m))

In-defined : (x : ℕ) (values : List (Option ℕ)) → In (some x) values → In x (defined values)
In-defined x [] m = elim m [ ]
In-defined x (none ∷ values) (inl e) = absurd (none_some e)
  where
    none_some : some x ≡ none → ⊥
    none_some e = cc
In-defined x (none ∷ values) (inr m) = In-defined x values m
In-defined x (some y ∷ values) (inl e) = inl (ground arith)
In-defined x (some y ∷ values) (inr m) = inr (In-defined x values m)

In-defined_inv : (x : ℕ) (values : List (Option ℕ)) → In x (defined values) → In (some x) values
In-defined_inv x [] m = elim m [ ]
In-defined_inv x (none ∷ values) m = inr (In-defined_inv x values m)
In-defined_inv x (some y ∷ values) (inl e) = inl (ap some e)
In-defined_inv x (some y ∷ values) (inr m) = inr (In-defined_inv x values m)

In-map : {A B : Type 0} (f : A → B) (x : A) (xs : List A) → In x xs → In (f x) (map f xs)
In-map f x [] m = elim m [ ]
In-map f x (y ∷ ys) (inl e) = inl (ap f e)
In-map f x (y ∷ ys) (inr m) = inr (In-map f x ys m)

In-add_some :
    {A : Type 0} (a : A) (o : Option A) (rest : List A)
    → (o ≡ some a) ⊎ In a rest
    → In a (add_some o rest)
In-add_some a none rest (inl e) = absurd (some_none e)
  where
    some_none : none ≡ some a → ⊥
    some_none e = cc
In-add_some a none rest (inr m) = m
In-add_some a (some b) rest (inl e) = inl (ground arith)
In-add_some a (some b) rest (inr m) = inr m

In-active_grants :
    (parse_date : Text → Option ℕ) (now : ℕ) (overrides : List TemporaryOverride)
    (o : TemporaryOverride) (grant : Grant)
    → In o overrides
    → grant_of parse_date now o ≡ some grant
    → In grant (active_grants parse_date now overrides)
unfolding active_grants
In-active_grants parse_date now [] o grant m h = elim m [ ]
In-active_grants parse_date now (first ∷ rest) o grant (inl e) h =
    In-add_some grant _ _ (inl (ap (grant_of parse_date now) (sym e) ∙ h))
In-active_grants parse_date now (first ∷ rest) o grant (inr m) h =
    In-add_some grant _ _ (inr (In-active_grants parse_date now rest o grant m h))

-- A device limit in force is among the grants that the screen lists, with its minutes.
limit-In :
    (parse_date : Text → Option ℕ) (now : ℕ) (overrides : List TemporaryOverride)
    (o : TemporaryOverride) (minutes : ℕ)
    → In o overrides
    → is_current_override parse_date now o ≡ true
    → o.action ≡ Action.limit
    → o.target_kind ≡ OverrideKind.device
    → o.daily_minutes ≡ some minutes
    → In (some minutes) (map device_minutes (active_grants parse_date now overrides))
unfolding grant_of
limit-In parse_date now overrides o minutes m current limits on_device has =
    let grant : Grant = record {
      action = GrantAction.limit;
      minutes = some minutes;
      rule_id = o.rule_id;
      target_kind = GrantKind.device;
      target_ref = o.target_ref;
    } in
    let granted : grant_of parse_date now o ≡ some grant =
      rw current (rw limits (rw on_device (rw has refl))) in
    In-map device_minutes grant _ (In-active_grants parse_date now overrides o grant m granted)

same_ok :
    {a b : Option TemporaryOverride}
    → ◌≡◌ {A = Result RangeError (Option TemporaryOverride)} (ok a) (ok b)
    → a ≡ b
same_ok e = cc

is_device_sound : (kind : OverrideKind) → is_device kind ≡ true → kind ≡ OverrideKind.device
is_device_sound OverrideKind.device h = refl
is_device_sound OverrideKind.app h = cc
is_device_sound OverrideKind.domain h = cc
is_device_sound OverrideKind.category h = cc

module _ (P : Platform) (bundle : SignedPolicyBundle) (context : DecisionContext)
    (parse_date : Text → Option ℕ) (now : ℕ) where
  -- The two clocks tell the same of an override.
  abbrev pub Agrees : TemporaryOverride → Type 0
  Agrees o = is_active P context.timestamp o ≡ ok (is_current_override parse_date now o)

  abbrev on_device_now : TemporaryOverride → Bool
  on_device_now o = is_device o.target_kind && is_current_override parse_date now o

  tested :
      (overrides : List TemporaryOverride)
      → All Agrees overrides
      → All
          (λ o.
            (if is_device o.target_kind then is_active P context.timestamp o else ok false)
            ≡ ok (on_device_now o))
          overrides
  tested [] h = tt
  tested (o ∷ os) (h, hs) = (ground (arith, h), tested os hs)

  -- The override that the evaluator reads is in force by the clock of the screen.
  found :
      (o : TemporaryOverride)
      → All Agrees bundle.temporary_overrides
      → active_device_override P bundle context ≡ ok (some o)
      → In o bundle.temporary_overrides
        × (is_current_override parse_date now o ≡ true)
        × (o.target_kind ≡ OverrideKind.device)
  unfolding active_device_override
  found o h e =
      let plain = find_or_throw-eq-find _ on_device_now bundle.temporary_overrides (tested _ h) in
      let is_found : find on_device_now bundle.temporary_overrides ≡ some o =
        same_ok (sym plain ∙ e) in
      let (holds, there) = find_sound on_device_now bundle.temporary_overrides o is_found in
      (there, ground arith, is_device_sound o.target_kind (ground arith))

  -- The override that the evaluator reads, if any, is a LIMIT.
  abbrev pub IsLimit : Option TemporaryOverride → Type 0
  IsLimit none = Unit
  IsLimit (some o) = o.action ≡ Action.limit

  budget-In :
      (active : Option TemporaryOverride) (budget : ℕ)
      → All Agrees bundle.temporary_overrides
      → active_device_override P bundle context ≡ ok active
      → IsLimit active
      → In (some budget) (bundle.base_policy.daily_device_budget_minutes ∷ minutes_of active ∷ [])
      → In (some budget) (
          bundle.base_policy.daily_device_budget_minutes
          ∷ map device_minutes (active_grants parse_date now bundle.temporary_overrides))
  budget-In active budget h e limits (inl base) = inl base
  budget-In none budget h e limits (inr (inl m)) = absurd (some_none m)
    where
      some_none : some budget ≡ none → ⊥
      some_none m = cc
  budget-In (some o) budget h e limits (inr (inl m)) =
      let (there, current, on_device) = found o h e in
      inr (
        limit-In parse_date now bundle.temporary_overrides o budget there current limits on_device
          (sym m))
  budget-In none budget h e limits (inr (inr m)) = elim m [ ]
  budget-In (some o) budget h e limits (inr (inr m)) = elim m [ ]

  -- Where the screen's clock and the evaluator's agree on the overrides, and the override of the device
  -- that the evaluator reads is a LIMIT, if there is one: the screen shows no less time for the device
  -- than the evaluator's budget allows.
  pub device_budget-device_limit :
      (active : Option TemporaryOverride) (budget : ℕ)
      → All Agrees bundle.temporary_overrides
      → active_device_override P bundle context ≡ ok active
      → IsLimit active
      → device_budget bundle.base_policy active ≡ some budget
      → (shown : ℕ) × (device_limit bundle.base_policy
            (active_grants parse_date now bundle.temporary_overrides)
          ≡ some shown)
        × (budget ≤ shown)
  unfolding device_budget device_limit
  device_budget-device_limit active budget h e limits has =
      let base = bundle.base_policy.daily_device_budget_minutes in
      let shown =
        base ∷ map device_minutes (active_grants parse_date now bundle.temporary_overrides) in
      let read = base ∷ minutes_of active ∷ [] in
      greatest_bound (defined shown) budget (
        In-defined budget shown (
          budget-In active budget h e limits
            (In-defined_inv budget read (greatest-In _ budget has))))

-- The seconds are within the minutes, if there is a limit.
abbrev pub Within : Option ℕ → ℕ → Type 0
Within none seconds = Unit
Within (some minutes) seconds = seconds ≤ minutes * 60

-- What the label of an application without a grant says, for its own budget and the device's.
pub record IsHonest (minutes used : ℕ) (device : Option ℕ) (device_used : ℕ) (label : Label)
    : Type 0 where
  pub none_left :
      (label ≡ no_time)
      ↔ ((over_budget (some minutes) used ≡ true) ⊎ (over_budget device device_used ≡ true))
  pub left :
      (n : ℕ)
      → label ≡ minutes_left n
      → (1 ≤ n) × (used + n * 60 ≤ minutes * 60) × Within device (device_used + n * 60)

remaining_label-no_time : (seconds : ℕ) → (remaining_label seconds ≡ no_time) ↔ (seconds ≡ 0)
unfolding remaining_label
remaining_label-no_time seconds = (λ h. ground arith, λ h. ground arith)

remaining_label-minutes_left :
    (seconds n : ℕ) → remaining_label seconds ≡ minutes_left n → (1 ≤ n) × (n * 60 ≤ seconds)
unfolding remaining_label
remaining_label-minutes_left seconds n h =
    let minutes : seconds / 60 ≡ n = ground arith in
    let enough : 60 ≤ seconds = ground arith in
    (omega (arith, minutes, enough), omega (arith, minutes))

used_up_iff :
    (minutes used : ℕ) → (minutes * 60 - used ≡ 0) ↔ (over_budget (some minutes) used ≡ true)
used_up_iff minutes used = (λ h. ground arith, λ h. ground arith)

never : false ≡ true → ⊥
never e = cc

either_used_up :
    (minutes used device device_used : ℕ)
    → min (minutes * 60 - used) (device * 60 - device_used) ≡ 0
    → (over_budget (some minutes) used ≡ true) ⊎ (over_budget (some device) device_used ≡ true)
either_used_up minutes used device device_used h = elim (Bool-cases (leb (minutes * 60) used)) [
  | inl e ↦ inl e
  | inr e ↦ inr ((used_up_iff device device_used).0 (ground arith))
]

-- An application without a grant: the screen says that no time is left exactly where the evaluator
-- takes the application's budget or the limit shown for the device to be used up; and where it says
-- that some minutes are left, there is one at least, and that much use exceeds neither of them.
pub budget_label-IsHonest :
    (minutes used : ℕ) (device : Option ℕ) (device_used : ℕ)
    → IsHonest minutes used device device_used (budget_label none minutes used device device_used)
unfolding budget_label
budget_label-IsHonest minutes used none device_used = record {
  none_left = (
    λ h. inl ((used_up_iff minutes used).0 ((remaining_label-no_time _).0 h)),
    λ k.
        (remaining_label-no_time (minutes * 60 - used)).1
          (elim k [ inl e ↦ (used_up_iff minutes used).1 e | inr e ↦ absurd (never e) ]),
  );
  left = λ n h.
      let (one, within) = remaining_label-minutes_left (minutes * 60 - used) n h in
      (one, omega (arith, within, one), tt);
}
budget_label-IsHonest minutes used (some device) device_used = record {
  none_left = (
    λ h. either_used_up minutes used device device_used ((remaining_label-no_time _).0 h),
    λ k.
        (remaining_label-no_time (min (minutes * 60 - used) (device * 60 - device_used))).1
          (elim k [
            | inl e ↦ omega (arith, (used_up_iff minutes used).1 e)
            | inr e ↦ omega (arith, (used_up_iff device device_used).1 e)
          ]),
  );
  left = λ n h.
      let (one, within) =
        remaining_label-minutes_left (min (minutes * 60 - used) (device * 60 - device_used)) n h in
      (one, omega (arith, within, one), omega (arith, within, one));
}
