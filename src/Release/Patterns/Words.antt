-- ===== src/Release/Patterns/Words.antt =====
-- The placeholders of apps/mobile/scripts/release-admission.mjs, by where their words stand.
use you_tube_gradian_devin.Common.{
  ℕ, Text, truthy, Bool, Bool-cases, true, false, ◌&&◌, ◌||◌, List, [], ◌∷◌, ◌++◌, any, all, All,
  In, length, drop, ◌≡◌, ◌↔◌, ◌⊎◌, inl, inr, refl, sym, ap, subst, arith,
}
use you_tube_gradian_devin.Common.Prefixes.{starts_with-drop, starts_with-append, drop-append}
use you_tube_gradian_devin.Release.Patterns.{
  lowered, is_separator, placeholder_words, ends_word, word_at, has_word, is_placeholder,
}

-- Whether a word can begin after the text: it is empty and the flag is set, or a separator ends it.
abbrev pub begins_word : Bool → Text → Bool
begins_word can_begin [] = can_begin
begins_word can_begin (c ∷ rest) = begins_word (is_separator c) rest

-- One of the words stands in the text, between separators or the ends of the text.
pub record Stands (words : List Text) (can_begin : Bool) (t : Text) : Type 0 where
  pub before : Text
  pub word : Text
  pub after : Text
  pub parts : t ≡ before ++ (word ++ after)
  pub listed : In word words
  pub begins : begins_word can_begin before ≡ true
  pub ends : ends_word after ≡ true

any_sound :
    {A : Type 0} (p : A → Bool) (xs : List A) → any p xs ≡ true → (x : A) × (In x xs) × (p x ≡ true)
unfolding any
any_sound p [] h = cc
any_sound p (x ∷ xs) h = elim (Bool-cases (p x)) [
  | inl holds ↦ (x, inl refl, holds)
  | inr fails ↦ let (y, there, holds) = any_sound p xs (ground arith) in (y, inr there, holds)
]

any_complete :
    {A : Type 0} (p : A → Bool) (xs : List A) (x : A) → In x xs → p x ≡ true → any p xs ≡ true
unfolding any
any_complete p [] x m h = elim m [ ]
any_complete p (y ∷ ys) x (inl e) h = rw (← e) (rw h refl)
any_complete p (y ∷ ys) x (inr m) h = ground (arith, any_complete p ys x m h)

Stands-after :
    (words : List Text) (b : Bool) (c : ℕ) (t : Text)
    → Stands words (is_separator c) t
    → Stands words b (c ∷ t)
Stands-after words b c t s = record {
  before = c ∷ s.before;
  word = s.word;
  after = s.after;
  parts = ap (λ r. c ∷ r) s.parts;
  listed = s.listed;
  begins = s.begins;
  ends = s.ends;
}

has_word_sound :
    (words : List Text) (b : Bool) (t : Text) → has_word words b t ≡ true → Stands words b t
unfolding has_word
has_word_sound words b [] h = cc
has_word_sound words b (c ∷ t) h = elim (Bool-cases (b && any (word_at (c ∷ t)) words)) [
  | inl here ↦
      let first : b ≡ true = ground arith in
      let (w, listed, at) = any_sound (word_at (c ∷ t)) words (ground arith) in
      record {
        before = [];
        word = w;
        after = drop (length w) (c ∷ t);
        parts = starts_with-drop w (c ∷ t) (ground arith);
        listed = listed;
        begins = first;
        ends = ground arith;
      }
  | inr later ↦ Stands-after words b c t (has_word_sound words (is_separator c) t (ground arith))
]

word_at-append : (w after : Text) → ends_word after ≡ true → word_at (w ++ after) w ≡ true
word_at-append w after h = rw (starts_with-append w after, drop-append w after) h

-- A word that begins the text is not empty, so the text is not.
has_word_here :
    (words : List Text) (w t : Text)
    → In w words
    → word_at t w ≡ true
    → truthy t ≡ true
    → has_word words true t ≡ true
unfolding has_word
has_word_here words w [] m h k = cc
has_word_here words w (c ∷ t) m h k = rw (any_complete (word_at (c ∷ t)) words w m h) refl

or_true : (b : Bool) → b || true ≡ true
or_true true = refl
or_true false = refl

In-All : {A : Type 0} (P : A → Type 0) (xs : List A) (x : A) → All P xs → In x xs → P x
In-All P [] x h m = elim m [ ]
In-All P (y ∷ ys) x h (inl e) = subst P (sym e) (h.0)
In-All P (y ∷ ys) x h (inr m) = In-All P ys x (h.1) m

truthy-append : (w t : Text) → truthy w ≡ true → truthy (w ++ t) ≡ true
truthy-append [] t h = cc
truthy-append (c ∷ w) t h = refl

has_word_complete :
    (words : List Text) (b : Bool) (before w after : Text)
    → All (λ word. truthy word ≡ true) words
    → In w words
    → begins_word b before ≡ true
    → ends_word after ≡ true
    → has_word words b (before ++ (w ++ after)) ≡ true
unfolding has_word
has_word_complete words b [] w after all_truthy m begins ends =
    subst (λ can_begin. has_word words can_begin (w ++ after) ≡ true) (sym begins)
      (has_word_here words w (w ++ after) m (word_at-append w after ends)
        (truthy-append w after (In-All (λ word. truthy word ≡ true) words w all_truthy m)))
has_word_complete words b (c ∷ before) w after all_truthy m begins ends =
    rw (has_word_complete words (is_separator c) before w after all_truthy m begins ends)
      (or_true _)

all-truthy : (words : List Text) → all truthy words ≡ true → All (λ word. truthy word ≡ true) words
unfolding all
all-truthy [] h = tt
all-truthy (word ∷ words) h = (ground arith, all-truthy words (ground arith))

words_truthy : All (λ word. truthy word ≡ true) placeholder_words
unfolding all
words_truthy = all-truthy placeholder_words refl

Stands-has_word :
    (t : Text) → Stands placeholder_words true t → has_word placeholder_words true t ≡ true
Stands-has_word t s =
    subst (λ u. has_word placeholder_words true u ≡ true) (sym s.parts)
      (has_word_complete placeholder_words true s.before s.word s.after words_truthy s.listed
        s.begins s.ends)

-- A text is taken for a placeholder exactly where it is empty or one of the words stands in it, with
-- its letters lowered: the word begins the text or follows a separator, and it ends the text or a
-- separator follows it.
pub is_placeholder_iff :
    (t : Text) → (is_placeholder t ≡ true) ↔ ((t ≡ []) ⊎ Stands placeholder_words true (lowered t))
unfolding is_placeholder
is_placeholder_iff [] = (λ h. inl refl, λ h. refl)
is_placeholder_iff (c ∷ t) = (
  λ h. inr (has_word_sound placeholder_words true (lowered (c ∷ t)) h),
  λ h. elim h [ inl e ↦ cc | inr s ↦ Stands-has_word (lowered (c ∷ t)) s ],
)
