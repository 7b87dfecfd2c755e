-- ===== src/Policy/Canonical.antt =====
-- packages/policy-schema/src/canonical.ts: the canonical JSON text that a policy bundle is signed as.
pub mod Values
pub mod Order
pub mod Serializable
use you_tube_gradian_devin.Common.{
  ℕ, ◌+◌, ◌-◌, ◌/◌, ◌%◌, ◌^◌, ◌<◌, Text, text, text_eq, decimal, Bool, true, false, ◌&&◌, not, List,
  [], ◌∷◌, ◌++◌, leb, ltb, ◌==◌, if◌then◌else◌, Result, ok, err, ◌>>=◌, map_or_throw,
}
use you_tube_gradian_devin.Policy.Canonical.Values.{
  Value, undefined, null, boolean, integer, other_number, string, array, object, unsupported, Items,
  nil, cons, Fields, end, field,
}

-- The `TypeError`s of the module.
pub data TypeError : Type 0 where
  lone_surrogate undefined_value unsafe_number unsupported_value : TypeError

abbrev pub is_high : ℕ → Bool
is_high code = leb 55296 code && leb code 56319

abbrev pub is_low : ℕ → Bool
is_low code = leb 56320 code && leb code 57343

-- The loop of `escapeString`: a high surrogate takes the code unit after it along.
unfoldable pub check_surrogates : Text → Result TypeError Unit
check_surrogates [] = ok tt
check_surrogates (code ∷ []) =
    if is_high code then err lone_surrogate else if is_low code then err lone_surrogate else ok tt
check_surrogates (code ∷ next ∷ value) =
    let after = check_surrogates value in
    let rest = check_surrogates (next ∷ value) in
    if is_high code
    then (if is_low next then after else err lone_surrogate)
    else if is_low code
    then err lone_surrogate
    else rest

abbrev hex_digit : ℕ → ℕ
hex_digit n = if ltb n 10 then b'0' + n else b'a' + (n - 10)

-- One code unit inside the quotes of `JSON.stringify`.
abbrev pub escaped : ℕ → Text
escaped c =
    if c == 34
    then text "\\\""
    else if c == 92
    then text "\\\\"
    else if c == 8
    then text "\\b"
    else if c == 9
    then text "\\t"
    else if c == 10
    then text "\\n"
    else if c == 12
    then text "\\f"
    else if c == 13
    then text "\\r"
    else if ltb c 32
    then text "\\u00" ++ hex_digit (c / 16) ∷ hex_digit (c % 16) ∷ []
    else c ∷ []

abbrev pub escape_all : Text → Text
escape_all [] = []
escape_all (c ∷ value) = escaped c ++ escape_all value

-- `JSON.stringify` of a string without lone surrogates.
abbrev pub stringify : Text → Text
stringify value = 34 ∷ escape_all value ++ 34 ∷ []

unfoldable pub escape_string : Text → Result TypeError Text
escape_string value = do _ ← check_surrogates value; ok (stringify value)

-- `JSON.stringify` of an integer; that of minus zero is 0.
abbrev pub integer_text : Bool → ℕ → Text
integer_text negative n = if negative && not (n == 0) then b'-' ∷ decimal n else decimal n

-- `Number.isSafeInteger` of an integer.
abbrev pub is_safe : ℕ → Bool
is_safe n = ltb n (2 ^ 53)

-- `texts.join(",")`
abbrev pub join : List Text → Text
join [] = []
join (t ∷ []) = t
join (t ∷ u ∷ texts) = t ++ b',' ∷ join (u ∷ texts)

-- `left < right` on strings: by code units.
unfoldable pub text_lt : Text → Text → Bool
text_lt [] [] = false
text_lt [] (d ∷ right) = true
text_lt (c ∷ left) [] = false
text_lt (c ∷ left) (d ∷ right) = let rest = text_lt left right in if c == d then rest else ltb c d

-- A property of an object, with what its value gives.
abbrev pub Property : Type 0
Property = Text × Result TypeError Text

-- A property in its place among those that are sorted by their keys.
unfoldable pub insert : Property → List Property → List Property
insert p [] = p ∷ []
insert p (q ∷ properties) =
    let rest = insert p properties in if text_lt (q.0) (p.0) then q ∷ rest else p ∷ q ∷ properties

abbrev pub property_text : Property → Result TypeError Text
property_text (key, value) = do k ← escape_string key; v ← value; ok (k ++ b':' ∷ v)

abbrev pub object_text : List Property → Result TypeError Text
object_text properties = do
  texts ← map_or_throw property_text properties
  ok (b'{' ∷ join texts ++ b'}' ∷ [])

unfoldable mutual
  pub canonicalize : Value → Result TypeError Text
  canonicalize undefined = err undefined_value
  canonicalize null = ok (text "null")
  canonicalize (boolean true) = ok (text "true")
  canonicalize (boolean false) = ok (text "false")
  canonicalize (integer negative n) =
      if is_safe n then ok (integer_text negative n) else err unsafe_number
  canonicalize other_number = err unsafe_number
  canonicalize (string value) = escape_string value
  canonicalize (array items) = do
    texts ← canonicalize_items items
    ok (b'[' ∷ join texts ++ b']' ∷ [])
  canonicalize (object fields) = object_text (sorted_properties fields)
  canonicalize unsupported = err unsupported_value

  -- `value.map(canonicalize)`
  pub canonicalize_items : Items → Result TypeError (List Text)
  canonicalize_items nil = ok []
  canonicalize_items (cons value items) = do
    t ← canonicalize value
    texts ← canonicalize_items items
    ok (t ∷ texts)

  -- The properties of an object, sorted by their keys.
  pub sorted_properties : Fields → List Property
  sorted_properties end = []
  sorted_properties (field key value fields) =
      insert (key, canonicalize value) (sorted_properties fields)
