-- ===== src/Policy/Rules/Last.antt =====
-- `lastMatching` walks its items from the end.
use mathlib.Core.List.{reverse-cons, reverse-reverse}
use you_tube_gradian_devin.Common.{
  ℕ, zero, suc, ◌≤◌, Bool, some, List, [], ◌∷◌, ◌++◌, reverse, ◌≡◌, refl, subst, arith, find,
  length, get_elem?-append, get_elem?-concat, length-concat, if◌then◌else◌,
}
use you_tube_gradian_devin.Policy.Rules.{last_matching_from, last_matching}

module _ {A : Type 0} (p : A → Bool) where
  -- Items past the ones still to be read do not matter.
  loop-append :
      (xs ys : List A) (n : ℕ)
      → n ≤ length xs
      → last_matching_from (xs ++ ys) p n ≡ last_matching_from xs p n
  unfolding last_matching_from
  loop-append xs ys zero h = refl
  loop-append xs ys (suc n) h =
      ground (arith, get_elem?-append xs ys n h, loop-append xs ys n (omega arith))

  last_matching-concat :
      (xs : List A) (y : A)
      → last_matching (xs ++ y ∷ []) p ≡ (if p y then some y else last_matching xs p)
  unfolding last_matching
  last_matching-concat xs y = rw (length-concat xs y) (
      unfold last_matching_from in
      rw (get_elem?-concat xs y, last_matching_from)
        (rw (loop-append xs (y ∷ []) (length xs) (omega arith)) refl))

  last_matching-reverse : (xs : List A) → last_matching (reverse xs) p ≡ find p xs
  last_matching-reverse [] = unfold last_matching find in refl
  last_matching-reverse (x ∷ xs) =
      rw (reverse-cons, last_matching-concat, last_matching-reverse xs) (unfold find in refl)

  -- The walk from the end finds what `find` finds in the reversed items: the last that matches.
  pub last_matching-eq-find : (xs : List A) → last_matching xs p ≡ find p (reverse xs)
  last_matching-eq-find xs =
      subst (λ l. last_matching l p ≡ find p (reverse xs)) (reverse-reverse xs)
        (last_matching-reverse (reverse xs))
