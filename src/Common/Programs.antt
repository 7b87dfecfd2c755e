-- ===== src/Common/Programs.antt =====
-- Programs that change a state and return a value or throw an error. An error keeps the state.
pub mod Screens
pub mod Endings
use Prim.Native.Nat.{ℕ, ◌+◌, ◌≤◌}
use native.Mathlib.Omega.{arith}
use you_tube_gradian_devin.Common.Results.{Result, ok, err}

abbrev pub Program : Type 0 → Type 0 → Type 0 → Type 0
Program S E A = S → Result E A × S

module _ {S E : Type 0} where
  abbrev pub return : {A : Type 0} → A → Program S E A
  return a s = (ok a, s)

  abbrev pub throw : {A : Type 0} → E → Program S E A
  throw e s = (err e, s)

  abbrev pub continue : {A B : Type 0} → Result E A × S → (A → Program S E B) → Result E B × S
  continue (ok a, s) f = f a s
  continue (err e, s) f = (err e, s)

  infixl 5 ◌>>=◌
  abbrev pub ◌>>=◌ : {A B : Type 0} → Program S E A → (A → Program S E B) → Program S E B
  ◌>>=◌ m f s = continue (m s) f

  infixl 5 ◌>>◌
  abbrev pub ◌>>◌ : {A B : Type 0} → Program S E A → Program S E B → Program S E B
  m >> n = m >>= λ _. n

  abbrev pub recover : {A : Type 0} → Result E A × S → (E → Program S E A) → Result E A × S
  recover (ok a, s) f = (ok a, s)
  recover (err e, s) f = f e s

  -- `try { m } catch (error) { f(error) }`
  abbrev pub on_error : {A : Type 0} → Program S E A → (E → Program S E A) → Program S E A
  on_error m f s = recover (m s) f

  abbrev pub settle : {A : Type 0} → Result E A × S → Result E (Result E A) × S
  settle (r, s) = (ok r, s)

  -- One promise of `Promise.allSettled`.
  abbrev pub settled : {A : Type 0} → Program S E A → Program S E (Result E A)
  settled m s = settle (m s)

  -- What a settled program has given, once more.
  abbrev pub rethrow : {A : Type 0} → Result E A → Program S E A
  rethrow (ok a) = return a
  rethrow (err e) = throw e

  -- `Promise.all([m, k])`, where `m` runs before `k`, and `k` does also where `m` has thrown.
  unfoldable pub both : {A B : Type 0} → Program S E A → Program S E B → Program S E (A × B)
  both m k = do
    first ← settled m
    second ← settled k
    a ← rethrow first
    b ← rethrow second
    return (a, b)

  -- What a program does to the state, whether it returns or throws, with a count of its effects.
  pub record Goes (Rel : ℕ → S → S → Type 0) (n : ℕ) {A : Type 0} (m : Program S E A) : Type 0 where
    pub goes : (s : S) → Rel n s ((m s).1)

pub record IsGraded {S : Type 0} (Rel : ℕ → S → S → Type 0) : Type 0 where
  pub nothing : (s : S) → Rel 0 s s
  pub and_then : (a b : ℕ) (s t u : S) → Rel a s t → Rel b t u → Rel (a + b) s u
  pub at_least : (a b : ℕ) (s t : S) → a ≤ b → Rel a s t → Rel b s t

module _ {S E : Type 0} {Rel : ℕ → S → S → Type 0} (G : IsGraded Rel) where
  pub Goes-return : {A : Type 0} (a : A) → Goes {E = E} Rel 0 (return a)
  Goes-return a = record { goes = G.nothing }

  pub Goes-throw : {A : Type 0} (e : E) → Goes Rel 0 {A = A} (throw e)
  Goes-throw e = record { goes = G.nothing }

  pub Goes-weaken : {A : Type 0} {a b : ℕ} {m : Program S E A} → a ≤ b → Goes Rel a m → Goes Rel b m
  Goes-weaken h g = record { goes = λ s. G.at_least _ _ s _ h (g.goes s) }

  continue-Rel :
      {A B : Type 0} {a b : ℕ} (s : S) (x : Result E A × S) (f : A → Program S E B)
      → Rel a s (x.1)
      → ((v : A) → Goes Rel b (f v))
      → Rel (a + b) s ((continue x f).1)
  continue-Rel {a} {b} s (ok v, t) f h k = G.and_then a b s t _ h ((k v).goes t)
  continue-Rel {a} {b} s (err e, t) f h k = G.at_least a (a + b) s t (omega arith) h

  pub Goes-bind :
      {A B : Type 0} {a b : ℕ} {m : Program S E A} {f : A → Program S E B}
      → Goes Rel a m
      → ((v : A) → Goes Rel b (f v))
      → Goes Rel (a + b) (m >>= f)
  Goes-bind {m} {f} g k = record { goes = λ s. continue-Rel s (m s) f (g.goes s) k }

  recover-Rel :
      {A : Type 0} {a b : ℕ} (s : S) (x : Result E A × S) (f : E → Program S E A)
      → Rel a s (x.1)
      → ((e : E) → Goes Rel b (f e))
      → Rel (a + b) s ((recover x f).1)
  recover-Rel {a} {b} s (ok v, t) f h k = G.at_least a (a + b) s t (omega arith) h
  recover-Rel {a} {b} s (err e, t) f h k = G.and_then a b s t _ h ((k e).goes t)

  pub Goes-on_error :
      {A : Type 0} {a b : ℕ} {m : Program S E A} {f : E → Program S E A}
      → Goes Rel a m
      → ((e : E) → Goes Rel b (f e))
      → Goes Rel (a + b) (on_error m f)
  Goes-on_error {m} {f} g k = record { goes = λ s. recover-Rel s (m s) f (g.goes s) k }

module _ {S E : Type 0} {Rel : ℕ → S → S → Type 0} where
  pub Goes-settled :
      {A : Type 0} {n : ℕ} {m : Program S E A} → Goes Rel n m → Goes Rel n (settled m)
  Goes-settled {m} g = record { goes = λ s. settle-Rel (m s) (g.goes s) }
    where
      settle-Rel :
          {A : Type 0} {n : ℕ} {s : S} (x : Result E A × S) → Rel n s (x.1) → Rel n s ((settle x).1)
      settle-Rel (r, t) h = h

pub Goes-rethrow :
    {S E A : Type 0} {Rel : ℕ → S → S → Type 0} (G : IsGraded Rel) (r : Result E A)
    → Goes Rel 0 (rethrow r)
Goes-rethrow G (ok a) = Goes-return G a
Goes-rethrow G (err e) = Goes-throw G e

pub Goes-both :
    {S E A B : Type 0} {Rel : ℕ → S → S → Type 0} {a b : ℕ} (G : IsGraded Rel) {m : Program S E A}
    {k : Program S E B}
    → Goes Rel a m
    → Goes Rel b k
    → Goes Rel (a + b) (both m k)
unfolding both
Goes-both G g h = Goes-weaken G (omega arith) (
    Goes-bind G (Goes-settled g) (λ first. Goes-bind G (Goes-settled h) (λ second.
      Goes-bind G (Goes-rethrow G first)
        (λ x. Goes-bind G (Goes-rethrow G second) (λ y. Goes-return G (x, y))))))

-- How a program ends: what it returns satisfies `Q` and what it throws `R`, each with the state.
pub data Ends {S E A : Type 0} (Q : A → S → Type 0) (R : E → S → Type 0)
    : Result E A × S → Type 0 where
  returned : (a : A) (s : S) → Q a s → Ends Q R (ok a, s)
  thrown : (e : E) (s : S) → R e s → Ends Q R (err e, s)

module _ {S E : Type 0} {R : E → S → Type 0} where
  pub Ends-bind :
      {A B : Type 0} {P : A → S → Type 0} {Q : B → S → Type 0} {x : Result E A × S}
      (f : A → Program S E B)
      → Ends P R x
      → ((a : A) (s : S) → P a s → Ends Q R (f a s))
      → Ends Q R (continue x f)
  Ends-bind f (returned a s p) k = k a s p
  Ends-bind f (thrown e s r) k = thrown e s r

  pub Ends-on_error :
      {A : Type 0} {Q : A → S → Type 0} {P : E → S → Type 0} {x : Result E A × S}
      (f : E → Program S E A)
      → Ends Q P x
      → ((e : E) (s : S) → P e s → Ends Q R (f e s))
      → Ends Q R (recover x f)
  Ends-on_error f (returned a s p) k = returned a s p
  Ends-on_error f (thrown e s r) k = k e s r

  pub Ends-weaken :
      {A : Type 0} {P Q : A → S → Type 0} {T : E → S → Type 0} {x : Result E A × S}
      → Ends P T x
      → ((a : A) (s : S) → P a s → Q a s)
      → ((e : E) (s : S) → T e s → R e s)
      → Ends Q R x
  Ends-weaken (returned a s p) h k = returned a s (h a s p)
  Ends-weaken (thrown e s r) h k = thrown e s (k e s r)

-- What holds of the state at the end, however the program ends.
pub Ends-both :
    {S E A : Type 0} {P : S → Type 0} (x : Result E A × S) → P (x.1) → Ends (λ _. P) (λ _. P) x
Ends-both (ok a, s) h = returned a s h
Ends-both (err e, s) h = thrown e s h

pub Ends-and :
    {S E A : Type 0} {Q : A → S → Type 0} {R : E → S → Type 0} {P : S → Type 0} {x : Result E A × S}
    → Ends Q R x
    → P (x.1)
    → Ends (λ a s. Q a s × P s) R x
Ends-and (returned a s q) p = returned a s (q, p)
Ends-and (thrown e s r) p = thrown e s r

pub Ends-throwing :
    {S E A : Type 0} {Q : A → S → Type 0} {R : E → S → Type 0} {P : S → Type 0} {x : Result E A × S}
    → Ends Q R x
    → P (x.1)
    → Ends Q (λ _. P) x
Ends-throwing (returned a s q) p = returned a s q
Ends-throwing (thrown e s r) p = thrown e s p
