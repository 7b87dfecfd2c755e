-- ===== src/Common/Programs/Endings.antt =====
-- More rules on how programs end.
use mathlib.Core.Path.{◌≡◌, refl}
use mathlib.Core.Bool.{Bool, true, false}
use you_tube_gradian_devin.Common.Tests.{if◌then◌else◌}
use you_tube_gradian_devin.Common.Results.{Result, ok, err}
use you_tube_gradian_devin.Common.Programs.{
  Program, ◌>>=◌, continue, settle, settled, rethrow, both, return, Ends, returned, thrown,
}

module _ {S E : Type 0} where
  pub Ends-if :
      {A : Type 0} {Q : A → S → Type 0} {R : E → S → Type 0} (b : Bool) (m k : Program S E A)
      (s : S)
      → (b ≡ true → Ends Q R (m s))
      → (b ≡ false → Ends Q R (k s))
      → Ends Q R ((if b then m else k) s)
  Ends-if true m k s h g = h refl
  Ends-if false m k s h g = g refl

  -- What a program does before is of no matter.
  pub Ends-after :
      {A B : Type 0} {Q : B → S → Type 0} {R : E → S → Type 0} (m : Program S E A)
      (f : A → Program S E B) (s : S)
      → ((e : E) (t : S) → R e t)
      → ((a : A) (t : S) → Ends Q R (f a t))
      → Ends Q R ((m >>= f) s)
  Ends-after {A} {B} {Q} {R} m f s throws h = after (m s)
    where
      after : (x : Result E A × S) → Ends Q R (continue x f)
      after (ok a, t) = h a t
      after (err e, t) = thrown e t (throws e t)

  module _ {A B : Type 0} {R : E → S → Type 0} (throws : (e : E) (t : S) → R e t) where
    second_thrown :
        {Q : A × B → S → Type 0} (e : E) (x : Result E B × S)
        → Ends Q R (
            continue
              (settle x)
              (λ second. rethrow {A = A} (err e) >>= λ a. rethrow second >>= λ b. return (a, b)))
    second_thrown e (r, t) = thrown e t (throws e t)

    second_Ends :
        {P : B → S → Type 0} {Q : A × B → S → Type 0} (a : A) (x : Result E B × S)
        → Ends P R x
        → ((b : B) (t : S) → P b t → Q (a, b) t)
        → Ends Q R (
            continue
              (settle x)
              (λ second. rethrow (ok a) >>= λ a. rethrow second >>= λ b. return (a, b)))
    second_Ends a x (returned b t p) h = returned (a, b) t (h b t p)
    second_Ends a x (thrown e t r) h = thrown e t r

    -- Both results hold where both programs return.
    pub both-Ends :
        {P : A → S → Type 0} {P' : A → B → S → Type 0} {Q : A × B → S → Type 0} (m : Program S E A)
        (k : Program S E B) (s : S)
        → Ends P R (m s)
        → ((a : A) (t : S) → P a t → Ends (P' a) R (k t))
        → ((a : A) (b : B) (t : S) → P' a b t → Q (a, b) t)
        → Ends Q R (both m k s)
    unfolding both
    both-Ends {P} {P'} {Q} m k s h g join = after (m s) h
      where
        after :
            (x : Result E A × S)
            → Ends P R x
            → Ends Q R (
                continue (settle x) (λ first. settled k >>= λ second.
                rethrow first >>= λ a. rethrow second >>= λ b. return (a, b)))
        after x (returned a t p) = second_Ends a (k t) (g a t p) (join a)
        after x (thrown e t r) = second_thrown e (k t)

-- What holds however a program ends holds of its state.
pub reached :
    {S E A : Type 0} {T : S → Type 0} {x : Result E A × S} → Ends (λ _. T) (λ _. T) x → T (x.1)
reached (returned a t h) = h
reached (thrown e t h) = h
