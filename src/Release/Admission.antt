-- ===== src/Release/Admission.antt =====
-- `validateReleaseAdmission` of apps/mobile/scripts/release-admission.mjs.
pub mod Version
pub mod Keys
pub mod Admitted
mod Tests
use you_tube_gradian_devin.Common.{
  ℕ, zero, suc, ◌==◌, Text, text, text_eq, decimal, truthy, Bool, true, false, ◌&&◌, ◌||◌, not,
  Option, none, some, is_some, ◌or_default◌, List, [], ◌∷◌, ◌++◌, any, filter, length, ltb,
  if◌then◌else◌,
}
use you_tube_gradian_devin.Policy.Canonical.Values.{
  Value, undefined, null, boolean, integer, other_number, string, array, object, unsupported, Items,
  nil, cons, Fields, end, field,
}
use you_tube_gradian_devin.Policy.Signature.{property}
use you_tube_gradian_devin.Release.Patterns.{
  lowered, trim, is_placeholder, is_debug_signing, is_digest, base64_form, is_version_code, big_int,
}

pub record Url : Type 0 where
  pub protocol : Text
  pub hostname : Text

-- What the script calls: the file system, `new URL`, `JSON.parse` and `Buffer`. `none` is an error.
pub record Host : Type 0 where
  pub exists : Text → Bool
  pub is_file : Text → Option Bool
  pub parse_url : Text → Option Url
  pub parse_json : Text → Option Value
  pub decode_base64 : Text → List ℕ
  pub encode_base64 : List ℕ → Text

abbrev pub Environment : Type 0
Environment = Text → Option Text

pub data Diagnostic : Type 0 where
  no_store_file no_such_file debug_signing : Diagnostic
  not_configured : (name : Text) → Diagnostic
  bad_digest : Diagnostic
  bad_url : (label : Text) → Diagnostic
  no_trusted_keys bad_trusted_keys no_key_id unknown_key_id : Diagnostic
  bad_version_code fixtures_enabled : Diagnostic

abbrev pub message : Diagnostic → Text
message no_store_file =
    text "GUARDIAN_RELEASE_STORE_FILE must name a non-debug signing keystore; "
    ++ text "Gradle validates the keystore and certificate."
message no_such_file = text "GUARDIAN_RELEASE_STORE_FILE must be an existing regular keystore file."
message debug_signing = text "Release builds must not use debug signing material."
message (not_configured name) = name ++ text " must be explicitly configured for release signing."
message bad_digest =
    text "GUARDIAN_RELEASE_CERT_SHA256 must be the configured release certificate SHA-256 digest."
message (bad_url label) = label ++ text " must be a non-placeholder HTTPS URL."
message no_trusted_keys =
    text "GUARDIAN_POLICY_TRUSTED_PUBLIC_KEYS must contain at least one trusted policy public key."
message bad_trusted_keys =
    text "GUARDIAN_POLICY_TRUSTED_PUBLIC_KEYS must be a non-empty production Ed25519 "
    ++ text "trust-anchor JSON object."
message no_key_id = text "GUARDIAN_POLICY_KEY_ID must identify the active trusted policy key."
message unknown_key_id =
    text "GUARDIAN_POLICY_KEY_ID must be present in the active trust-anchor map."
message bad_version_code = text "GUARDIAN_RELEASE_VERSION_CODE must be a positive 32-bit integer."
message fixtures_enabled = text "Release admission forbids fixture code."

-- `value(environment, name)`
abbrev pub value : Environment → Text → Text
value environment name = trim (environment name or_default [])

-- What the checks report, one after the other.
unfoldable pub in_order : List (List Diagnostic) → List Diagnostic
in_order [] = []
in_order (reported ∷ rest) = reported ++ in_order rest

-- `if (fails) errors.push(diagnostic)`
abbrev pub push_if : Bool → Diagnostic → List Diagnostic
push_if true diagnostic = diagnostic ∷ []
push_if false diagnostic = []

abbrev pub is_safe_url : Option Url → Bool
is_safe_url none = false
is_safe_url (some url) = text_eq url.protocol (text "https:") && not (is_placeholder url.hostname)

abbrev pub truthy_values : List Text
truthy_values = text "true" ∷ text "1" ∷ text "yes" ∷ text "on" ∷ []

-- A name of an index below `n`.
unfoldable pub is_index : ℕ → Text → Bool
is_index zero key = false
is_index (suc n) key = text_eq (decimal n) key || is_index n key

abbrev pub count_items : Items → ℕ
count_items nil = 0
count_items (cons v items) = suc (count_items items)

abbrev pub has_index : ℕ → Text → Bool
has_index n key = text_eq key (text "length") || is_index n key

-- `Object.hasOwn(keys, keyId)`; it throws on `null`.
unfoldable pub lacks : Value → Text → Bool
lacks (object keys) key_id = not (is_some (property key_id keys))
lacks (array items) key_id = not (has_index (count_items items) key_id)
lacks (string t) key_id = not (has_index (length t) key_id)
lacks null key_id = false
lacks undefined key_id = false
lacks _ key_id = true

abbrev pub lacks_key : Option Value → Text → Bool
lacks_key none key_id = false
lacks_key (some keys) key_id = lacks keys key_id

unfoldable pub validate_configured : Text → Text → List Diagnostic
validate_configured name configured =
    push_if (not (truthy configured) || is_placeholder configured) (not_configured name)

unfoldable pub validate_version_code : Text → List Diagnostic
validate_version_code version =
    push_if (not (is_version_code version) || ltb 2147483647 (big_int 0 version)) bad_version_code

module _ (host : Host) where
  -- `decodeCanonicalBase64`
  unfoldable pub decode_canonical_base64 : Text → Option (List ℕ)
  decode_canonical_base64 encoded =
      let decoded = host.decode_base64 encoded in
      if base64_form encoded
      then (if text_eq (host.encode_base64 decoded) encoded then some decoded else none)
      else none

  abbrev pub has_key_length : Option (List ℕ) → Bool
  has_key_length none = false
  has_key_length (some decoded) = length decoded == 32

  unfoldable pub is_anchor : Text → Value → Bool
  is_anchor key_id (string encoded) =
      not (is_placeholder key_id)
      && not (is_placeholder encoded)
      && has_key_length (decode_canonical_base64 encoded)
  is_anchor key_id _ = false

  unfoldable pub are_anchors : Fields → Bool
  are_anchors end = true
  are_anchors (field key_id encoded keys) = is_anchor key_id encoded && are_anchors keys

  unfoldable pub is_anchor_map : Option Value → Bool
  is_anchor_map (some (object (field key_id encoded keys))) =
      are_anchors (field key_id encoded keys)
  is_anchor_map _ = false

  unfoldable pub validate_key_id : Text → Text → List Diagnostic
  validate_key_id raw key_id =
      if is_placeholder key_id
      then no_key_id ∷ []
      else push_if (lacks_key (host.parse_json raw) key_id) unknown_key_id

  unfoldable pub validate_trusted_keys : Text → Text → List Diagnostic
  validate_trusted_keys raw key_id =
      if truthy raw
      then push_if (not (is_anchor_map (host.parse_json raw))) bad_trusted_keys
        ++ validate_key_id raw key_id
      else no_trusted_keys ∷ []

  unfoldable pub validate_https_url : Text → Text → List Diagnostic
  validate_https_url raw label = push_if (not (is_safe_url (host.parse_url raw))) (bad_url label)

  abbrev pub is_store_file : Text → Bool
  is_store_file path = host.exists path && (host.is_file path or_default false)

  unfoldable pub validate_store_file : Text → List Diagnostic
  validate_store_file path =
      if truthy path then push_if (not (is_store_file path)) no_such_file else no_store_file ∷ []

  unfoldable pub validate_release_admission : Environment → List Diagnostic
  validate_release_admission environment =
      let store_file = value environment (text "GUARDIAN_RELEASE_STORE_FILE") in
      let store_password = value environment (text "GUARDIAN_RELEASE_STORE_PASSWORD") in
      let key_alias = value environment (text "GUARDIAN_RELEASE_KEY_ALIAS") in
      let key_password = value environment (text "GUARDIAN_RELEASE_KEY_PASSWORD") in
      let digest = value environment (text "GUARDIAN_RELEASE_CERT_SHA256") in
      let fixtures = value environment (text "GUARDIAN_ENABLE_TEST_FIXTURES") in
      in_order (
        validate_store_file store_file
        ∷ push_if (is_debug_signing store_file || is_debug_signing key_alias) debug_signing
        ∷ validate_configured (text "GUARDIAN_RELEASE_STORE_PASSWORD") store_password
        ∷ validate_configured (text "GUARDIAN_RELEASE_KEY_ALIAS") key_alias
        ∷ validate_configured (text "GUARDIAN_RELEASE_KEY_PASSWORD") key_password
        ∷ push_if (not (is_digest (filter (λ c. not (c == b':')) digest))) bad_digest
        ∷ validate_https_url (value environment (text "EXPO_PUBLIC_API_URL"))
            (text "Release API URL")
        ∷ validate_https_url (value environment (text "GUARDIAN_DOH_URL")) (text "Release DoH URL")
        ∷ validate_trusted_keys (value environment (text "GUARDIAN_POLICY_TRUSTED_PUBLIC_KEYS"))
            (value environment (text "GUARDIAN_POLICY_KEY_ID"))
        ∷ validate_version_code (value environment (text "GUARDIAN_RELEASE_VERSION_CODE"))
        ∷ push_if (any (text_eq (lowered fixtures)) truthy_values) fixtures_enabled
        ∷ [])

-- What `main` writes to the standard output or to the standard error, and the exit code.
pub record Outcome : Type 0 where
  pub output : Text
  pub errors : Text
  pub exit_code : ℕ

abbrev pub error_lines : List Diagnostic → Text
error_lines [] = []
error_lines (diagnostic ∷ []) = text "- " ++ message diagnostic
error_lines (diagnostic ∷ next ∷ rest) =
    text "- " ++ message diagnostic ++ b'\n' ∷ error_lines (next ∷ rest)

abbrev pub outcome : List Diagnostic → Outcome
outcome [] = record {
  output = text "Guardian release admission passed.\n";
  errors = [];
  exit_code = 0;
}
outcome (diagnostic ∷ rest) = record {
  output = [];
  errors =
      text "Guardian release admission failed:\n" ++ error_lines (diagnostic ∷ rest) ++ text "\n";
  exit_code = 1;
}

-- `main`
unfoldable pub main : Host → Environment → Outcome
main host environment = outcome (validate_release_admission host environment)
