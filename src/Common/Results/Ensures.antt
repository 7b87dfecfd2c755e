-- ===== src/Common/Results/Ensures.antt =====
-- What every value that a computation returns satisfies, one rule for each way to build one.
use mathlib.Core.Path.{◌≡◌, refl, subst}
use mathlib.Core.Logic.{inl, inr}
use mathlib.Core.Bool.{Bool, true, false}
use mathlib.Core.Option
use mathlib.Core.Option.{Option, none, some}
use mathlib.Core.List.{List, [], ◌∷◌}
use native.Mathlib.Omega.{arith}
use you_tube_gradian_devin.Common.Tests.{if◌then◌else◌}
use you_tube_gradian_devin.Common.Lists.{All, In}
use you_tube_gradian_devin.Common.Results.{
  Result, ok, err, ◌>>=◌, find_or_throw, map_or_throw, ◌or_else◌,
}

pub data Ensures {E A : Type 0} (Q : A → Type 0) : Result E A → Type 0 where
  ensured : (a : A) → Q a → Ensures Q (ok a)
  thrown : (e : E) → Ensures Q (err e)

abbrev pub OnSome : {A : Type 0} → (A → Type 0) → Option A → Type 0
OnSome Q none = Unit
OnSome Q (some a) = Q a

pub OnSome-map :
    {A B : Type 0} (Q : B → Type 0) (f : A → B) (o : Option A)
    → ((a : A) → Q (f a))
    → OnSome Q (Option.map f o)
OnSome-map Q f none h = tt
OnSome-map Q f (some a) h = h a

pub OnSome-if :
    {A : Type 0} (Q : A → Type 0) (b : Bool) (o : Option A)
    → OnSome Q o
    → OnSome Q (if b then o else none)
OnSome-if Q true o h = h
OnSome-if Q false o h = tt

pub ok-injective : {E A : Type 0} {a b : A} → ◌≡◌ {A = Result E A} (ok a) (ok b) → a ≡ b
ok-injective h = cc

-- What is ensured holds of the value that is returned.
pub Ensures_value :
    {E A : Type 0} {Q : A → Type 0} {r : Result E A} {a : A} → Ensures Q r → r ≡ ok a → Q a
Ensures_value {Q} (ensured b q) e = subst Q (ok-injective e) q
Ensures_value (thrown x) e = cc

pub Ensures-bind :
    {E A B : Type 0} {R : A → Type 0} {Q : B → Type 0} {m : Result E A} (f : A → Result E B)
    → Ensures R m
    → ((a : A) → R a → Ensures Q (f a))
    → Ensures Q (m >>= f)
Ensures-bind f (ensured a r) k = k a r
Ensures-bind f (thrown e) k = thrown e

pub Ensures-any : {E A : Type 0} (r : Result E A) → Ensures (λ _. Unit {0}) r
Ensures-any (ok a) = ensured a tt
Ensures-any (err e) = thrown e

pub Ensures-eq : {E A : Type 0} (r : Result E A) → Ensures (λ a. r ≡ ok a) r
Ensures-eq (ok a) = ensured a refl
Ensures-eq (err e) = thrown e

pub Ensures-map_or_throw :
    {E A B : Type 0} {Q : B → Type 0} (f : A → Result E B) (xs : List A)
    → ((a : A) → Ensures Q (f a))
    → Ensures (All Q) (map_or_throw f xs)
unfolding map_or_throw
Ensures-map_or_throw f [] h = ensured [] tt
Ensures-map_or_throw f (x ∷ xs) h =
    Ensures-bind _ (h x)
      (λ y q. Ensures-bind _ (Ensures-map_or_throw f xs h) (λ ys qs. ensured (y ∷ ys) (q, qs)))

module _ {E A : Type 0} {Q : A → Type 0} where
  continue-Ensures :
      (o : Option A) (r : Result E A)
      → OnSome Q o
      → Ensures Q r
      → Ensures Q (elim o as (λ _. Result E A) [ some a ↦ ok a | none ↦ r ])
  continue-Ensures none r q h = h
  continue-Ensures (some a) r q h = ensured a q

  pub Ensures-or_else :
      {m : Result E (Option A)} {r : Result E A}
      → Ensures (OnSome Q) m
      → Ensures Q r
      → Ensures Q (m or_else r)
  unfolding ◌or_else◌
  Ensures-or_else {r} (ensured o q) k = continue-Ensures o r q k
  Ensures-or_else (thrown e) k = thrown e

  pub Ensures-if :
      (b : Bool) {x y : Result E A} → Ensures Q x → Ensures Q y → Ensures Q (if b then x else y)
  Ensures-if true h k = h
  Ensures-if false h k = k

pub Ensures-weaken :
    {E A : Type 0} {Q R : A → Type 0} {r : Result E A}
    → ((a : A) → Q a → R a)
    → Ensures Q r
    → Ensures R r
Ensures-weaken f (ensured a q) = ensured a (f a q)
Ensures-weaken f (thrown e) = thrown e

module _ {E A : Type 0} (p : A → Result E Bool) where
  abbrev pub IsFound : List A → A → Type 0
  IsFound xs a = In a xs × (p a ≡ ok true)

  IsFound-cons :
      (x : A) (xs : List A) (o : Option A) → OnSome (IsFound xs) o → OnSome (IsFound (x ∷ xs)) o
  IsFound-cons x xs none h = tt
  IsFound-cons x xs (some a) (m, e) = (inr m, e)

  find_step :
      (x : A) (xs : List A) (b : Result E Bool)
      → p x ≡ b
      → Ensures (OnSome (IsFound xs)) (find_or_throw p xs)
      → Ensures
          (OnSome (IsFound (x ∷ xs)))
          (b >>= λ found. if found then ok (some x) else find_or_throw p xs)
  find_step x xs (ok true) e h = ensured (some x) (inl refl, e)
  find_step x xs (ok false) e h = Ensures-weaken (IsFound-cons x xs) h
  find_step x xs (err c) e h = thrown c

  step_ne-none :
      (x : A) (xs : List A) (b : Result E Bool)
      → (b >>= λ found. if found then ok (some x) else find_or_throw p xs) ≡ ok none
      → (find_or_throw p xs ≡ ok none → ⊥)
      → ⊥
  step_ne-none x xs (ok true) h k = cc
  step_ne-none x xs (ok false) h k = k h
  step_ne-none x xs (err e) h k = cc

  -- What is found stands in the list, and passed the test.
  pub Ensures-find_or_throw : (xs : List A) → Ensures (OnSome (IsFound xs)) (find_or_throw p xs)
  unfolding find_or_throw
  Ensures-find_or_throw [] = ensured none tt
  Ensures-find_or_throw (x ∷ xs) = find_step x xs (p x) refl (Ensures-find_or_throw xs)

  -- Where something listed passes the test, the search does not come back with nothing.
  pub find_or_throw-ne-none :
      (xs : List A) (a : A) → In a xs → p a ≡ ok true → find_or_throw p xs ≡ ok none → ⊥
  unfolding find_or_throw
  find_or_throw-ne-none [] a m e h = m
  find_or_throw-ne-none (x ∷ xs) a (inl same) e h =
      let passes : p x ≡ ok true = rw (← same) e in ground arith
  find_or_throw-ne-none (x ∷ xs) a (inr m) e h =
      step_ne-none x xs (p x) h (λ k. find_or_throw-ne-none xs a m e k)
