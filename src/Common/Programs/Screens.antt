-- ===== src/Common/Programs/Screens.antt =====
-- Programs on what a component calls and on the component's own state, side by side.
use Prim.Native.Nat.{ℕ}
use mathlib.Core.Path.{◌≡◌, refl}
use mathlib.Core.Bool.{Bool}
use you_tube_gradian_devin.Common.Tests.{if◌then◌else◌}
use you_tube_gradian_devin.Common.Results.{Result, ok}
use you_tube_gradian_devin.Common.Programs.{Program, return, on_error, Goes, Ends, returned, thrown}

-- A relation on the states of what is called.
abbrev pub OnState : {S V : Type 0} → (ℕ → S → S → Type 0) → ℕ → S × V → S × V → Type 0
OnState Rel n s t = Rel n (s.0) (t.0)

module _ {S V E : Type 0} where
  abbrev pub lifted : {A : Type 0} → V → Result E A × S → Result E A × (S × V)
  lifted view (r, s) = (r, (s, view))

  -- A call, which leaves the state of the component alone.
  abbrev pub lift : {A : Type 0} → Program S E A → Program (S × V) E A
  lift m screen = lifted (screen.1) (m (screen.0))

  -- The setters of a component, which do not throw.
  abbrev pub update : (V → V) → Program (S × V) E Unit
  update f screen = (ok tt, (screen.0, f (screen.1)))

  pub lifted-Ends :
      {A : Type 0} {Q : A → S → Type 0} {R : E → S → Type 0} (view : V) {x : Result E A × S}
      → Ends Q R x
      → Ends (λ a t. Q a (t.0) × (t.1 ≡ view)) (λ e t. R e (t.0) × (t.1 ≡ view)) (lifted view x)
  lifted-Ends view (returned a s q) = returned a (s, view) (q, refl)
  lifted-Ends view (thrown e s r) = thrown e (s, view) (r, refl)

  lifted-OnState :
      {A : Type 0} (Rel : ℕ → S → S → Type 0) (n : ℕ) (s : S) (view : V) (x : Result E A × S)
      → Rel n s (x.1)
      → OnState Rel n (s, view) ((lifted view x).1)
  lifted-OnState Rel n s view (r, t) h = h

  pub lift-Goes :
      {A : Type 0} {Rel : ℕ → S → S → Type 0} {n : ℕ} {m : Program S E A}
      → Goes Rel n m
      → Goes (OnState Rel) n (lift m)
  lift-Goes {Rel} {n} {m} g = record {
    goes = λ screen. lifted-OnState Rel n (screen.0) (screen.1) (m (screen.0)) (g.goes (screen.0));
  }

-- `void m.catch(() => undefined)`
abbrev pub ignored : {S E : Type 0} → Program S E Unit → Program S E Unit
ignored m = on_error m (λ _. return tt)

-- What is done only where the test holds.
abbrev pub when : {S E : Type 0} → Bool → Program S E Unit → Program S E Unit
when b m = if b then m else return tt
