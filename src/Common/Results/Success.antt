-- ===== src/Common/Results/Success.antt =====
-- Computations that return, one rule for each way to build one.
use mathlib.Core.Path.{◌≡◌, refl}
use mathlib.Core.Logic.{◌↔◌}
use mathlib.Core.Bool.{Bool, true, false}
use mathlib.Core.Option.{Option, none, some}
use mathlib.Core.List.{List, [], ◌∷◌}
use you_tube_gradian_devin.Common.Tests.{if◌then◌else◌}
use you_tube_gradian_devin.Common.Lists.{All}
use you_tube_gradian_devin.Common.Results.{
  Result, ok, err, ◌>>=◌, find_or_throw, map_or_throw, ◌or_else◌,
}

pub data Succeeds {E A : Type 0} : Result E A → Type 0 where
  returns : (a : A) → Succeeds (ok a)

pub value_of_Succeeds : {E A : Type 0} {r : Result E A} → Succeeds r → (a : A) × (r ≡ ok a)
value_of_Succeeds (returns a) = (a, refl)

pub Succeeds-of_eq : {E A : Type 0} {r : Result E A} {a : A} → r ≡ ok a → Succeeds r
Succeeds-of_eq {a} e = rw e (returns a)

pub Succeeds-bind :
    {E A B : Type 0} {m : Result E A} (f : A → Result E B)
    → Succeeds m
    → ((a : A) → Succeeds (f a))
    → Succeeds (m >>= f)
Succeeds-bind f (returns a) k = k a

pub Succeeds-map_or_throw :
    {E A B : Type 0} (f : A → Result E B) (xs : List A)
    → ((a : A) → Succeeds (f a))
    → Succeeds (map_or_throw f xs)
unfolding map_or_throw
Succeeds-map_or_throw f [] h = returns []
Succeeds-map_or_throw f (x ∷ xs) h =
    Succeeds-bind _ (h x)
      (λ y. Succeeds-bind _ (Succeeds-map_or_throw f xs h) (λ ys. returns (y ∷ ys)))

module _ {E A : Type 0} where
  continue-Succeeds :
      (o : Option A) (r : Result E A)
      → Succeeds r
      → Succeeds (elim o as (λ _. Result E A) [ some a ↦ ok a | none ↦ r ])
  continue-Succeeds none r h = h
  continue-Succeeds (some a) r h = returns a

  pub Succeeds-or_else :
      {m : Result E (Option A)} {r : Result E A} → Succeeds m → Succeeds r → Succeeds (m or_else r)
  unfolding ◌or_else◌
  Succeeds-or_else {r} (returns o) k = continue-Succeeds o r k

  pub Succeeds-if :
      (b : Bool) {x y : Result E A} → Succeeds x → Succeeds y → Succeeds (if b then x else y)
  Succeeds-if true h k = h
  Succeeds-if false h k = k

module _ {E A : Type 0} (p : A → Result E Bool) where
  pub Succeeds-find_or_throw :
      (xs : List A) → All (λ x. Succeeds (p x)) xs → Succeeds (find_or_throw p xs)
  unfolding find_or_throw
  Succeeds-find_or_throw [] h = returns none
  Succeeds-find_or_throw (x ∷ xs) (q, h) =
      Succeeds-bind _ q
        (λ found. Succeeds-if found (returns (some x)) (Succeeds-find_or_throw xs h))

-- The first step of a computation that returns has returned, and so has the rest at its value.
pub bind-Succeeds :
    {E A B : Type 0} (m : Result E A) (f : A → Result E B)
    → Succeeds (m >>= f)
    → (a : A) × (m ≡ ok a) × Succeeds (f a)
bind-Succeeds (ok a) f h = (a, refl, h)
bind-Succeeds (err e) f h = elim (no_error h) [ ]
  where
    no_error : {E A : Type 0} {e : E} → Succeeds {A = A} (err e) → ⊥
    no_error k = let found = value_of_Succeeds k in let e = found.1 in cc

pub first-Succeeds :
    {E A B : Type 0} (m : Result E A) (f : A → Result E B) → Succeeds (m >>= f) → Succeeds m
first-Succeeds m f h = let step = bind-Succeeds m f h in Succeeds-of_eq (step.1)

pub Succeeds-map_or_throw_iff :
    {E A B : Type 0} (f : A → Result E B) (xs : List A)
    → Succeeds (map_or_throw f xs) ↔ All (λ x. Succeeds (f x)) xs
unfolding map_or_throw
Succeeds-map_or_throw_iff f [] = (λ h. tt, λ h. returns [])
Succeeds-map_or_throw_iff f (x ∷ xs) = (
  λ h.
      let step = bind-Succeeds (f x) _ h in
      (first-Succeeds (f x) _ h, (Succeeds-map_or_throw_iff f xs).0 (first-Succeeds _ _ (step.2))),
  λ h.
      Succeeds-bind _ (h.0)
        (λ y. Succeeds-bind _ ((Succeeds-map_or_throw_iff f xs).1 (h.1)) (λ ys. returns (y ∷ ys))),
)
