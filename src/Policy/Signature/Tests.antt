-- ===== src/Policy/Signature/Tests.antt =====
-- A small bundle and a signature scheme, and the theorems on them.
use you_tube_gradian_devin.Common.{
  Text, text, text_eq, true, false, Option, none, some, ◌++◌, ◌≡◌, refl, ◌↔◌, ok, truthy,
  if◌then◌else◌, map_or_throw, decimal,
}
use you_tube_gradian_devin.Common.Results.Success.{Succeeds}
use you_tube_gradian_devin.Policy.Canonical.Values.{
  string, integer, object, Fields, end, field, SameFields, swapped, same_object,
}
use native.Mathlib.Decide.{dec_lt}
use you_tube_gradian_devin.Policy.Canonical.{
  canonicalize, escape_string, check_surrogates, text_lt, insert,
}
use you_tube_gradian_devin.Policy.Canonical.Order.{canonicalize-Same}
use you_tube_gradian_devin.Policy.Canonical.Serializable.{IsCanonical, canonicalize-IsCanonical}
use you_tube_gradian_devin.Policy.Signature.{Crypto, key_id_of, verify_bundle_against_trusted_keys}
use you_tube_gradian_devin.Policy.Signature.Trust.{
  IsVerified, verify_bundle_against_trusted_keys_iff,
}

abbrev rest : Fields
rest = field (text "signature") (string (text "k{}")) end

abbrev bundle : Fields
bundle =
    field (text "key_id") (string (text "k1"))
      (field (text "policy_version") (integer false 12) rest)

abbrev reordered : Fields
reordered =
    field (text "policy_version") (integer false 12)
      (field (text "key_id") (string (text "k1")) rest)

reordered-SameFields : SameFields bundle reordered
reordered-SameFields = swapped (λ e. cc)

-- A signature is the key followed by the data.
abbrev crypto : Crypto Text Text
crypto = record {
  decode_base64 = λ t. some t;
  encode = λ t. t;
  import_key = λ raw. some raw;
  verify = λ key signature data_signed. some (text_eq signature (key ++ data_signed));
}

abbrev trusted : Text → Option Text
trusted id = if text_eq id (text "k1") then some (text "k") else none

canonical_bundle :
    canonicalize (object bundle)
    ≡ ok (text "{\"key_id\":\"k1\",\"policy_version\":12,\"signature\":\"k{}\"}")
unfolding canonicalize check_surrogates text_lt insert map_or_throw escape_string decimal dec_lt
canonical_bundle = refl

canonicalize-Same_example : canonicalize (object bundle) ≡ canonicalize (object reordered)
canonicalize-Same_example =
    canonicalize-Same (object bundle) (object reordered) (same_object reordered-SameFields)

canonicalize-IsCanonical_example :
    Succeeds (canonicalize (object bundle)) ↔ IsCanonical (object bundle)
canonicalize-IsCanonical_example = canonicalize-IsCanonical (object bundle)

verify_bundle_against_trusted_keys_iff_example :
    (verify_bundle_against_trusted_keys crypto bundle trusted ≡ ok bundle) ↔ (
      (public_key : Text) × (trusted (key_id_of bundle) ≡ some public_key)
      × (truthy public_key ≡ true)
      × IsVerified crypto bundle public_key)
verify_bundle_against_trusted_keys_iff_example =
    verify_bundle_against_trusted_keys_iff crypto bundle trusted
