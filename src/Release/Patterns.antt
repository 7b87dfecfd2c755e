-- ===== src/Release/Patterns.antt =====
-- The regular expressions of apps/mobile/scripts/release-admission.mjs, on code units. The letters of
-- their words are ASCII, and so are all the code units that match them without regard to case.
pub mod Words
use you_tube_gradian_devin.Common.{
  ℕ, ◌+◌, ◌*◌, ◌-◌, Text, text, truthy, starts_with, Bool, true, false, ◌&&◌, ◌||◌, not, List, [],
  ◌∷◌, any, all, length, drop, leb, ◌==◌, if◌then◌else◌,
}

unfoldable pub lowered : Text → Text
lowered [] = []
lowered (c ∷ value) = (if leb b'A' c && leb c b'Z' then c + 32 else c) ∷ lowered value

-- `\s`
abbrev pub is_space : ℕ → Bool
is_space c =
    (leb 9 c && leb c 13)
    || c == 32
    || c == 160
    || c == 5760
    || (leb 8192 c && leb c 8202)
    || c == 8232
    || c == 8233
    || c == 8239
    || c == 8287
    || c == 12288
    || c == 65279

unfoldable pub trim_start : Text → Text
trim_start [] = []
trim_start (c ∷ value) = let rest = trim_start value in if is_space c then rest else c ∷ value

-- A code unit in front of what is left of the spaces at the end.
abbrev pub keep : ℕ → Text → Text
keep c [] = if is_space c then [] else c ∷ []
keep c (d ∷ rest) = c ∷ d ∷ rest

unfoldable pub trim_end : Text → Text
trim_end [] = []
trim_end (c ∷ value) = keep c (trim_end value)

-- `value.trim()`
unfoldable pub trim : Text → Text
trim value = trim_end (trim_start value)

-- `[._/-]`
abbrev pub is_separator : ℕ → Bool
is_separator c = c == b'.' || c == b'_' || c == b'/' || c == b'-'

abbrev pub placeholder_words : List Text
placeholder_words =
    text "example"
    ∷ text "invalid"
    ∷ text "localhost"
    ∷ text "127.0.0.1"
    ∷ text "0.0.0.0"
    ∷ text "changeme"
    ∷ text "change-me"
    ∷ text "change_me"
    ∷ text "change me"
    ∷ text "replaceme"
    ∷ text "replace-me"
    ∷ text "replace_me"
    ∷ text "replace me"
    ∷ text "placeholder"
    ∷ text "fixture"
    ∷ text "test"
    ∷ []

-- `(?:$|[._/-])`
abbrev pub ends_word : Text → Bool
ends_word [] = true
ends_word (c ∷ value) = is_separator c

abbrev pub word_at : Text → Text → Bool
word_at value word = starts_with word value && ends_word (drop (length word) value)

-- Whether a match of `PLACEHOLDER_PATTERN` begins in the text, where the flag tells whether one can
-- begin at its first code unit.
unfoldable pub has_word : List Text → Bool → Text → Bool
has_word words can_begin [] = false
has_word words can_begin (c ∷ value) =
    (can_begin && any (word_at (c ∷ value)) words) || has_word words (is_separator c) value

-- `isPlaceholder`
unfoldable pub is_placeholder : Text → Bool
is_placeholder value = not (truthy value) || has_word placeholder_words true (lowered value)

-- `\s*=\s*android debug`
abbrev pub after_name : Text → Bool
after_name [] = false
after_name (c ∷ value) = c == b'=' && starts_with (text "android debug") (trim_start value)

abbrev pub debug_signing_at : Text → Bool
debug_signing_at value =
    starts_with (text "debug.keystore") value
    || starts_with (text "androiddebugkey") value
    || (starts_with (text "cn") value && after_name (trim_start (drop 2 value)))

unfoldable pub has_debug_signing : Text → Bool
has_debug_signing [] = false
has_debug_signing (c ∷ value) = debug_signing_at (c ∷ value) || has_debug_signing value

-- `DEBUG_SIGNING_PATTERN.test(value)`
abbrev pub is_debug_signing : Text → Bool
is_debug_signing value = has_debug_signing (lowered value)

abbrev pub is_digit : ℕ → Bool
is_digit c = leb b'0' c && leb c b'9'

abbrev pub is_hex : ℕ → Bool
is_hex c = is_digit c || (leb b'a' c && leb c b'f') || (leb b'A' c && leb c b'F')

-- `/^[a-fA-F0-9]{64}$/`
abbrev pub is_digest : Text → Bool
is_digest value = length value == 64 && all is_hex value

abbrev pub is_base64 : ℕ → Bool
is_base64 c =
    (leb b'A' c && leb c b'Z') || (leb b'a' c && leb c b'z') || is_digit c || c == b'+' || c == b'/'

-- The groups of the pattern of `decodeCanonicalBase64`.
unfoldable pub base64_form : Text → Bool
base64_form [] = true
base64_form (a ∷ b ∷ c ∷ d ∷ value) =
    let rest = base64_form value in
    if is_base64 a && is_base64 b
    then (if is_base64 c && is_base64 d
        then rest
        else not (truthy value) && (is_base64 c || c == b'=') && d == b'=')
    else false
base64_form _ = false

-- `/^[1-9]\d*$/`
abbrev pub is_version_code : Text → Bool
is_version_code [] = false
is_version_code (c ∷ value) = leb b'1' c && leb c b'9' && all is_digit value

-- `BigInt(value)` of a text of digits that stands after the digits of `n`.
unfoldable pub big_int : ℕ → Text → ℕ
big_int n [] = n
big_int n (c ∷ value) = big_int (n * 10 + (c - b'0')) value
