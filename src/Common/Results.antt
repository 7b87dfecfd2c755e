-- ===== src/Common/Results.antt =====
-- A computation that returns a value or throws an error.
pub mod Success
pub mod Ensures
pub mod Related
use mathlib.Core.Path.{◌≡◌, refl}
use mathlib.Core.Bool.{Bool}
use mathlib.Core.Option.{Option, none, some}
use mathlib.Core.List.{List, [], ◌∷◌, map}
use native.Mathlib.Omega.{arith}
use you_tube_gradian_devin.Common.Tests.{if◌then◌else◌}
use you_tube_gradian_devin.Common.Lists.{All, find}

pub data Result (E A : Type 0) : Type 0 where
  ok : A → Result E A
  err : E → Result E A

infixl 5 ◌>>=◌
abbrev pub ◌>>=◌ : {E A B : Type 0} → Result E A → (A → Result E B) → Result E B
ok a >>= f = f a
err e >>= f = err e

module _ {E A : Type 0} where
  -- `null` is thrown as the given error.
  abbrev pub or_throw : Option A → E → Result E A
  or_throw none e = err e
  or_throw (some a) e = ok a

  -- `items.find(p)` with a test that may throw.
  unfoldable pub find_or_throw : (A → Result E Bool) → List A → Result E (Option A)
  find_or_throw p [] = ok none
  find_or_throw p (x ∷ xs) = do found ← p x; if found then ok (some x) else find_or_throw p xs

-- `items.map(f)` with a function that may throw.
unfoldable pub map_or_throw : {E A B : Type 0} → (A → Result E B) → List A → Result E (List B)
map_or_throw f [] = ok []
map_or_throw f (x ∷ xs) = do y ← f x; ys ← map_or_throw f xs; ok (y ∷ ys)

-- An early return: the second computation runs where the first finds nothing.
infixr 4 ◌or_else◌
unfoldable pub ◌or_else◌ : {E A : Type 0} → Result E (Option A) → Result E A → Result E A
first or_else rest = first >>= λ found. elim found [ some a ↦ ok a | none ↦ rest ]

-- A test that does not throw finds what the plain `find` finds.
pub find_or_throw-eq-find :
    {E A : Type 0} (p : A → Result E Bool) (q : A → Bool) (xs : List A)
    → All (λ x. p x ≡ ok (q x)) xs
    → find_or_throw p xs ≡ ok (find q xs)
unfolding find_or_throw find
find_or_throw-eq-find p q [] h = refl
find_or_throw-eq-find p q (x ∷ xs) (e, h) = rw e (ground (arith, find_or_throw-eq-find p q xs h))

pub map_or_throw-eq-map :
    {E A B : Type 0} (f : A → Result E B) (g : A → B) (xs : List A)
    → All (λ x. f x ≡ ok (g x)) xs
    → map_or_throw f xs ≡ ok (map g xs)
unfolding map_or_throw
map_or_throw-eq-map f g [] h = refl
map_or_throw-eq-map f g (x ∷ xs) (e, h) = rw e (rw (map_or_throw-eq-map f g xs h))
