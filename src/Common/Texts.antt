-- ===== src/Common/Texts.antt =====
-- A text is the list of its UTF-16 code units, which is what the program's strings are.
use Prim.Native.Nat.{ℕ, zero, suc, ◌+◌, ◌*◌, ◌/◌, ◌%◌, ◌<◌}
use mathlib.Core.WellFounded.{Acc}
use native.Mathlib.Decide.{dec_lt}
use Prim.Native.Char.{code}
use Prim.Native.String.{String}
use mathlib.Core.Path.{◌≡◌, refl, sym, ap, ◌∙◌, subst}
use mathlib.Core.Logic.{◌↔◌}
use mathlib.Core.Bool.{Bool, true, false, ◌&&◌}
use mathlib.Core.List.{List, [], ◌∷◌, ◌++◌}
use native.Mathlib.Omega.{arith}
use you_tube_gradian_devin.Common.Tests.{◌==◌, if◌then◌else◌}

abbrev pub Text : Type 0
Text = List ℕ

-- A literal; each of its characters is ASCII, so it is one code unit.
abbrev pub text : String → Text
text String.[] = []
text (String.◌∷◌ c s) = code c ∷ text s

-- `left === right`
unfoldable pub text_eq : Text → Text → Bool
text_eq [] [] = true
text_eq (a ∷ s) (b ∷ t) = a == b && text_eq s t
text_eq _ _ = false

text_eq_sound : (s t : Text) → text_eq s t ≡ true → s ≡ t
unfolding text_eq
text_eq_sound [] [] h = refl
text_eq_sound (a ∷ s) (b ∷ t) h = ground (arith, text_eq_sound s t)
text_eq_sound [] (b ∷ t) h = cc
text_eq_sound (a ∷ s) [] h = cc

pub text_eq_refl : (s : Text) → text_eq s s ≡ true
unfolding text_eq
text_eq_refl [] = refl
text_eq_refl (a ∷ s) = ground (arith, text_eq_refl s)

pub text_eq_iff : (s t : Text) → (text_eq s t ≡ true) ↔ (s ≡ t)
text_eq_iff s t = (text_eq_sound s t, λ e. rw e (text_eq_refl t))

-- A text is truthy when it is not empty.
abbrev pub truthy : Text → Bool
truthy [] = false
truthy (_ ∷ _) = true

-- `value.startsWith(prefix)`
unfoldable pub starts_with : Text → Text → Bool
starts_with [] value = true
starts_with (p ∷ prefix) [] = false
starts_with (p ∷ prefix) (c ∷ value) = p == c && starts_with prefix value

abbrev grow_first : ℕ → List Text → List Text
grow_first c [] = (c ∷ []) ∷ []
grow_first c (part ∷ parts) = (c ∷ part) ∷ parts

-- `value.split(separator)` for a separator of one code unit.
unfoldable pub split : ℕ → Text → List Text
split separator [] = [] ∷ []
split separator (c ∷ cs) =
    let rest = split separator cs in if c == separator then [] ∷ rest else grow_first c rest

pub tenth_lt : {n : ℕ} → 0 < n → n / 10 < n
tenth_lt h = omega arith

-- The last digit of `n` in front of the digits after it, and its other digits in front of that.
digit_if : (n : ℕ) → Dec (0 < n) → (0 < n → Text → Text) → Text → Text
digit_if n (yes h) others after = others h ((b'0' + n % 10) ∷ after)
digit_if n (no z) others after = after

digits_from : (n : ℕ) → Acc ◌<◌ n → Text → Text
unfolding digit_if
digits_from n (Acc.intro _ smaller) after =
    digit_if n (dec_lt 0 n) (λ h. digits_from (n / 10) (smaller (n / 10) (tenth_lt h))) after

acc_below : (k n : ℕ) → n < k → Acc ◌<◌ n
acc_below zero n h = absurd (omega arith)
acc_below (suc k) n h = Acc.intro n λ m lt. acc_below k m (omega arith)

acc_all : (n : ℕ) → Acc ◌<◌ n
unfolding acc_below
acc_all n = acc_below (suc n) n (omega arith)

-- `String(n)`
unfoldable pub decimal : ℕ → Text
unfolding digits_from digit_if acc_below acc_all
decimal n = if n == 0 then b'0' ∷ [] else digits_from n (acc_all n) []

pub append_assoc : (s t u : Text) → (s ++ t) ++ u ≡ s ++ (t ++ u)
append_assoc [] t u = refl
append_assoc (c ∷ s) t u = ap (λ r. c ∷ r) (append_assoc s t u)

digit_if-append :
    (n : ℕ) (d e : Dec (0 < n)) (f g : 0 < n → Text → Text) (after : Text)
    → ((h k : 0 < n) (t : Text) → f h t ≡ g k [] ++ t)
    → ((k : 0 < n) (t : Text) → g k t ≡ g k [] ++ t)
    → digit_if n d f after ≡ digit_if n e g [] ++ after
unfolding digit_if
digit_if-append n (yes h) (yes k) f g after p q =
    p h k _ ∙ sym (append_assoc (g k []) _ after) ∙ ap (λ t. t ++ after) (sym (q k _))
digit_if-append n (no z) (no w) f g after p q = refl
digit_if-append n (yes h) (no w) f g after p q = absurd (w h)
digit_if-append n (no z) (yes k) f g after p q = absurd (z k)

-- The digits in front of a text do not depend on it, nor on how the recursion is known to end.
digits_from-append :
    (n : ℕ) (a b : Acc ◌<◌ n) (after : Text) → digits_from n a after ≡ digits_from n b [] ++ after
unfolding digits_from
digits_from-append n (Acc.intro _ f) (Acc.intro _ g) after =
    digit_if-append n (dec_lt 0 n) (dec_lt 0 n) _ _ after
      (λ h k t. digits_from-append (n / 10) (f (n / 10) (tenth_lt h)) (g (n / 10) (tenth_lt k)) t)
      (λ k t. digits_from-append (n / 10) (g (n / 10) (tenth_lt k)) (g (n / 10) (tenth_lt k)) t)

digit_if_yes :
    (n : ℕ) (d : Dec (0 < n)) (f : 0 < n → Text → Text) (r after : Text)
    → 0 < n
    → ((h : 0 < n) (t : Text) → f h t ≡ r ++ t)
    → digit_if n d f after ≡ r ++ (b'0' + n % 10) ∷ after
unfolding digit_if
digit_if_yes n (yes h) f r after pos p = p h _
digit_if_yes n (no z) f r after pos p = absurd (z pos)

digits_from_step :
    (n k : ℕ) (a : Acc ◌<◌ n) (b : Acc ◌<◌ k) (after : Text)
    → 0 < n
    → n / 10 ≡ k
    → digits_from n a after ≡ digits_from k b [] ++ (b'0' + n % 10) ∷ after
unfolding digits_from
digits_from_step n k (Acc.intro _ f) b after pos e =
    digit_if_yes n (dec_lt 0 n) _ _ after pos (λ h t.
      subst
        (λ j.
          (c : Acc ◌<◌ j)
          → digits_from (n / 10) (f (n / 10) (tenth_lt h)) t ≡ digits_from j c [] ++ t)
        e (λ c. digits_from-append (n / 10) (f (n / 10) (tenth_lt h)) c t) b)

decimal_step :
    (n k : ℕ) (b : Acc ◌<◌ k)
    → 0 < n
    → n / 10 ≡ k
    → decimal n ≡ digits_from k b [] ++ (b'0' + n % 10) ∷ []
unfolding decimal
decimal_step n k b pos e =
    let zero_test : (n == 0) ≡ false = ground arith in
    rw zero_test (digits_from_step n k (acc_all n) b [] pos e)

digit_if_no :
    (n : ℕ) (d : Dec (0 < n)) (f : 0 < n → Text → Text) (after : Text)
    → n ≡ 0
    → digit_if n d f after ≡ after
unfolding digit_if
digit_if_no n (yes h) f after e = absurd (omega arith)
digit_if_no n (no z) f after e = refl

digits_from_zero : (n : ℕ) (a : Acc ◌<◌ n) → n ≡ 0 → digits_from n a [] ≡ []
unfolding digits_from
digits_from_zero n (Acc.intro _ f) e = digit_if_no n (dec_lt 0 n) _ [] e

decimal_pos : (n : ℕ) → 0 < n → decimal n ≡ digits_from n (acc_all n) []
unfolding decimal
decimal_pos n pos = let zero_test : (n == 0) ≡ false = ground arith in rw zero_test refl

-- The decimal text of a single digit.
pub decimal_small : (n : ℕ) → n < 10 → decimal n ≡ (b'0' + n) ∷ []
unfolding decimal
decimal_small zero h = refl
decimal_small (suc n) h =
    decimal_step (suc n) 0 (acc_all 0) (omega arith) (omega arith)
    ∙ ap (λ t. t ++ (b'0' + suc n % 10) ∷ []) (digits_from_zero 0 (acc_all 0) refl)
    ∙ ap (λ d. (b'0' + d) ∷ []) (omega arith)

-- The decimal text of a number with one more digit.
pub decimal_next : (n d : ℕ) → 0 < n → d < 10 → decimal (n * 10 + d) ≡ decimal n ++ (b'0' + d) ∷ []
decimal_next n d pos h =
    decimal_step (n * 10 + d) n (acc_all n) (omega arith) (omega arith)
    ∙ ap (λ t. t ++ (b'0' + (n * 10 + d) % 10) ∷ []) (sym (decimal_pos n pos))
    ∙ ap (λ r. decimal n ++ (b'0' + r) ∷ []) (omega arith)
