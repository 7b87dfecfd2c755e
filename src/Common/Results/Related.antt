-- ===== src/Common/Results/Related.antt =====
-- Two computations that throw the same error or return related values.
use mathlib.Core.Path.{◌≡◌}
use mathlib.Core.Option
use mathlib.Core.Option.{Option, none, some}
use you_tube_gradian_devin.Common.Results.{Result, ok, err, ◌>>=◌, ◌or_else◌}
use you_tube_gradian_devin.Common.Results.Ensures.{ok-injective}

pub data Related {E A : Type 0} (R : A → A → Type 0) : Result E A → Result E A → Type 0 where
  both : {a b : A} → R a b → Related R (ok a) (ok b)
  same_error : (e : E) → Related R (err e) (err e)

pub data OnBoth {A : Type 0} (R : A → A → Type 0) : Option A → Option A → Type 0 where
  neither : OnBoth R none none
  each : {a b : A} → R a b → OnBoth R (some a) (some b)

module _ {E A : Type 0} {R : A → A → Type 0} where
  pub Related_values : {r s : Result E A} {a b : A} → Related R r s → r ≡ ok a → s ≡ ok b → R a b
  Related_values (both h) p q = rw (← ok-injective p, ← ok-injective q) h
  Related_values (same_error e) p q = cc

  -- The same first step on both sides.
  pub Related-bind :
      {B : Type 0} (m : Result E B) {f g : B → Result E A}
      → ((b : B) → Related R (f b) (g b))
      → Related R (m >>= f) (m >>= g)
  Related-bind (ok b) h = h b
  Related-bind (err e) h = same_error e

  continue-Related :
      {o p : Option A} {r s : Result E A}
      → OnBoth R o p
      → Related R r s
      → Related R
          (elim o as (λ _. Result E A) [ some a ↦ ok a | none ↦ r ])
          (elim p as (λ _. Result E A) [ some a ↦ ok a | none ↦ s ])
  continue-Related neither k = k
  continue-Related (each h) k = both h

  pub Related-or_else :
      {m n : Result E (Option A)} {r s : Result E A}
      → Related (OnBoth R) m n
      → Related R r s
      → Related R (m or_else r) (n or_else s)
  unfolding ◌or_else◌
  Related-or_else (both h) k = continue-Related h k
  Related-or_else (same_error e) k = same_error e

module _ {A : Type 0} (R : A → A → Type 0) where
  pub OnBoth-map :
      {B : Type 0} (f g : B → A) (o : Option B)
      → ((b : B) → R (f b) (g b))
      → OnBoth R (Option.map f o) (Option.map g o)
  OnBoth-map f g none h = neither
  OnBoth-map f g (some b) h = each (h b)

  pub OnBoth-refl : ((a : A) → R a a) → (o : Option A) → OnBoth R o o
  OnBoth-refl h none = neither
  OnBoth-refl h (some a) = each (h a)

pub Related-refl :
    {E A : Type 0} {R : A → A → Type 0} → ((a : A) → R a a) → (r : Result E A) → Related R r r
Related-refl h (ok a) = both (h a)
Related-refl h (err e) = same_error e
