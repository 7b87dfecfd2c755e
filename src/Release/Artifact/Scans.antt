-- ===== src/Release/Artifact/Scans.antt =====
-- The regular expressions and searches of apps/mobile/scripts/verify-release-artifact.mjs, on code
-- units, and its lists of messages.
use you_tube_gradian_devin.Common.{
  ℕ, zero, suc, ◌-◌, ◌==◌, Text, text, starts_with, drop, length, Bool, true, false, ◌&&◌, ◌||◌,
  not, Option, none, some, List, [], ◌∷◌, leb, any, if◌then◌else◌,
}
use you_tube_gradian_devin.Policy.Domain.{includes, ends_with}
use you_tube_gradian_devin.Release.Patterns.{lowered, trim_start, is_digit, is_hex}

-- The messages of the tests that fail.
unfoldable pub reports : List (Bool × Text) → List Text
reports [] = []
reports ((passes, message) ∷ checks) = if passes then reports checks else message ∷ reports checks

-- `\w`
abbrev pub is_word : ℕ → Bool
is_word c = is_digit c || (leb b'a' c && leb c b'z') || (leb b'A' c && leb c b'Z') || c == b'_'

-- `\b` in front of the text, after a word.
abbrev pub at_end_of_word : Text → Bool
at_end_of_word [] = true
at_end_of_word (c ∷ rest) = not (is_word c)

-- `/fixture/i`
abbrev pub is_fixture : Text → Bool
is_fixture t = includes (text "fixture") (lowered t)

abbrev pub push_front : ℕ → Option Text → Option Text
push_front c none = none
push_front c (some rest) = some (c ∷ rest)

-- What stands before the first of these code units, where there is one.
unfoldable pub up_to : ℕ → Text → Option Text
up_to stop [] = none
up_to stop (c ∷ rest) =
    let others = push_front c (up_to stop rest) in if c == stop then some [] else others

abbrev pub take_while : (ℕ → Bool) → Text → Text
take_while p [] = []
take_while p (c ∷ rest) = let others = take_while p rest in if p c then c ∷ others else []

abbrev pub drop_while : (ℕ → Bool) → Text → Text
drop_while p [] = []
drop_while p (c ∷ rest) = let others = drop_while p rest in if p c then others else c ∷ rest

abbrev pub some_text : Text → Option Text
some_text [] = none
some_text (c ∷ t) = some (c ∷ t)

-- The first value that a place of the text gives.
unfoldable pub first_at : {A : Type 0} → (Text → Option A) → Text → Option A
first_at match_at [] = match_at []
first_at match_at (c ∷ rest) = elim (match_at (c ∷ rest)) [
  | some a ↦ some a
  | none ↦ first_at match_at rest
]

-- `\bfalse\b`, where the flag tells whether a word can begin.
unfoldable pub has_false : Bool → Text → Bool
has_false can_begin [] = false
has_false can_begin (c ∷ rest) =
    (can_begin && starts_with (text "false") (c ∷ rest) && at_end_of_word (drop 5 (c ∷ rest)))
    || has_false (not (is_word c)) rest

-- `0x0+\b`
unfoldable pub has_zero : Text → Bool
has_zero [] = false
has_zero (c ∷ rest) =
    (starts_with (text "0x0") (c ∷ rest)
      && at_end_of_word (drop_while (λ d. d == b'0') (drop 3 (c ∷ rest))))
    || has_zero rest

-- The tag of this name that begins the text, up to its end.
abbrev pub tag_at : Text → Text → Option Text
tag_at name t =
    if starts_with (b'<' ∷ name) t && at_end_of_word (drop (length (b'<' ∷ name)) t)
    then up_to b'>' t
    else none

-- `matchAll(/<name\b[^>]*>/g)` without the closing signs, where the flag tells whether the text stands
-- inside a tag that has been matched.
unfoldable pub tags : Text → Bool → Text → List Text
tags name inside [] = []
tags name true (c ∷ rest) = tags name (not (c == b'>')) rest
tags name false (c ∷ rest) = elim (tag_at name (c ∷ rest)) [
  | none ↦ tags name false rest
  | some tag ↦ tag ∷ tags name true rest
]

-- `/certificate SHA-256 digest:\s*([0-9A-F:]+)/i`
abbrev pub digest_at : Text → Option Text
digest_at t =
    if starts_with (text "certificate sha-256 digest:") (lowered t)
    then some_text (take_while (λ c. is_hex c || c == b':') (trim_start (drop 27 t)))
    else none

abbrev pub is_line_end : ℕ → Bool
is_line_end c = c == 10 || c == 13 || c == 8232 || c == 8233

-- `/certificate DN:\s*(.+)/i`; a subject of spaces counts as none, which is tested alike.
abbrev pub subject_at : Text → Option Text
subject_at t =
    if starts_with (text "certificate dn:") (lowered t)
    then some_text (take_while (λ c. not (is_line_end c)) (trim_start (drop 15 t)))
    else none

-- `/cn\s*=\s*android debug/i`
abbrev pub after_equals : Text → Bool
after_equals [] = false
after_equals (c ∷ rest) = c == b'=' && starts_with (text "android debug") (trim_start rest)

unfoldable pub is_debug_subject : Text → Bool
is_debug_subject [] = false
is_debug_subject (c ∷ rest) =
    (starts_with (text "cn") (lowered (c ∷ rest))
      && after_equals (trim_start (drop 2 (lowered (c ∷ rest)))))
    || is_debug_subject rest

-- The digits between a prefix and a quote.
abbrev pub quoted_digits_at : (prefix : Text) (quote : ℕ) → Text → Option Text
quoted_digits_at prefix quote t =
    let rest = drop (length prefix) t in
    if starts_with prefix t && starts_with (quote ∷ []) (drop_while is_digit rest)
    then some_text (take_while is_digit rest)
    else none

abbrev pub inspected_at : Text → Bool
inspected_at t =
    starts_with (text "assets/") t
    || (not (any is_line_end t)
        && (ends_with (text ".dex") t
            || ends_with (text ".jsbundle") t
            || ends_with (text ".bundle") t
            || ends_with (text ".json") t))

-- `/(^|\/)(assets\/|.*\.dex$|.*\.(?:jsbundle|bundle|json)$)/i`, on a text in lower case.
unfoldable pub is_inspected : Bool → Text → Bool
is_inspected can_begin [] = can_begin && inspected_at []
is_inspected can_begin (c ∷ rest) =
    (can_begin && inspected_at (c ∷ rest)) || is_inspected (c == b'/') rest

-- `.replaceAll(part, "")` for a part that is not empty; the number is that of the code units of a
-- match which are still to be left out.
unfoldable pub without : Text → ℕ → Text → Text
without part n [] = []
without part (suc n) (c ∷ rest) = without part n rest
without part zero (c ∷ rest) =
    let is_here = starts_with part (c ∷ rest) in
    let others = without part (if is_here then length part - 1 else 0) rest in
    if is_here then others else c ∷ others
