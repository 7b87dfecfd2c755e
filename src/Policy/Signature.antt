-- ===== src/Policy/Signature.antt =====
-- `canonicalizeForSigning` of packages/policy-schema/src/canonical.ts, and signature.ts: a bundle as
-- the object that JSON gives is verified against a key, or against the keys that are trusted.
pub mod Trust
mod Tests
use you_tube_gradian_devin.Common.{
  Text, text, text_eq, truthy, Bool, true, false, Option, none, some, List, if◌then◌else◌,
  ◌or_default◌, Result, ok, err, ◌>>=◌,
}
use you_tube_gradian_devin.Contracts.{PolicyDecision, PolicyDecisionAction, PolicyReasonCode}
use you_tube_gradian_devin.Policy.Canonical.Values.{Value, string, object, Fields, end, field}
use you_tube_gradian_devin.Policy.Canonical.{TypeError, canonicalize}

-- What signature.ts calls and does not define: `atob` as bytes, `TextEncoder`, and the import of a
-- key and the test of a signature by `crypto.subtle`. `none` is a thrown error.
pub record Crypto (Bytes Key : Type 0) : Type 0 where
  pub decode_base64 : Text → Option Bytes
  pub encode : Text → Bytes
  pub import_key : Bytes → Option Key
  pub verify : Key → Bytes → Bytes → Option Bool

-- `bundle[key]`
unfoldable pub property : Text → Fields → Option Value
property key end = none
property key (field k value fields) =
    let rest = property key fields in if text_eq k key then some value else rest

-- A property that is a text; of a parsed bundle `signature` and `key_id` are.
abbrev pub text_of : Option Value → Text
text_of (some (string value)) = value
text_of _ = text ""

abbrev pub signature_of : Fields → Text
signature_of bundle = text_of (property (text "signature") bundle)

abbrev pub key_id_of : Fields → Text
key_id_of bundle = text_of (property (text "key_id") bundle)

-- `Object.entries(bundle).filter(([key]) => key !== "signature")`
unfoldable pub unsigned : Fields → Fields
unsigned end = end
unsigned (field key value fields) =
    let rest = unsigned fields in
    if text_eq key (text "signature") then rest else field key value rest

abbrev pub or_false : Option Bool → Bool
or_false none = false
or_false (some b) = b

-- An error of `canonicalize` is one of those that the `catch` takes.
abbrev pub returned : Result TypeError Text → Option Text
returned (ok t) = some t
returned (err e) = none

pub data BundleVerificationError : Type 0 where
  not_verified not_trusted : BundleVerificationError

infixl 5 ◌then_if◌
abbrev pub ◌then_if◌ : {A B : Type 0} → Option A → (A → Option B) → Option B
none then_if f = none
(some a) then_if f = f a

module _ {Bytes Key : Type 0} (crypto : Crypto Bytes Key) where
  unfoldable pub canonicalize_for_signing : Fields → Option Bytes
  canonicalize_for_signing bundle =
      returned (canonicalize (object (unsigned bundle))) then_if λ t. some (crypto.encode t)

  unfoldable pub verify_policy_signature : Fields → Text → Bool
  verify_policy_signature bundle public_key = or_false (
      crypto.decode_base64 public_key then_if λ raw. crypto.import_key raw then_if λ key.
      crypto.decode_base64 (signature_of bundle) then_if λ signature.
      canonicalize_for_signing bundle then_if λ data_signed.
      crypto.verify key signature data_signed)

  unfoldable pub verify_bundle : Fields → Text → Result BundleVerificationError Fields
  verify_bundle bundle public_key =
      if verify_policy_signature bundle public_key then ok bundle else err not_verified

  abbrev pub trusted_by : Fields → Option Text → Bool
  trusted_by bundle none = false
  trusted_by bundle (some public_key) =
      if truthy public_key then verify_policy_signature bundle public_key else false

  unfoldable pub verify_bundle_against_trusted_keys :
      Fields → (Text → Option Text) → Result BundleVerificationError Fields
  verify_bundle_against_trusted_keys bundle trusted_public_keys =
      if trusted_by bundle (trusted_public_keys (key_id_of bundle))
      then ok bundle
      else err not_trusted

abbrev pub tampered_signature_decision : PolicyDecision
tampered_signature_decision = record {
  action = PolicyDecisionAction.block;
  reason_code = PolicyReasonCode.tampered_signature;
  policy_rule_id = none;
  bundle_stale = false;
}
