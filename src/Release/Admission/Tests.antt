-- ===== src/Release/Admission/Tests.antt =====
-- The configuration of a release build, and one that is refused.
use you_tube_gradian_devin.Common.{
  ℕ, Text, text, text_eq, true, none, some, List, [], ◌∷◌, ◌++◌, if◌then◌else◌, ◌≡◌, ◌↔◌,
}
use you_tube_gradian_devin.Policy.Canonical.Values.{string, object, end, field}
use you_tube_gradian_devin.Release.Admission.{
  Host, Environment, Diagnostic, main, validate_version_code, validate_trusted_keys,
}
use you_tube_gradian_devin.Release.Admission.Admitted.{IsAdmitted, main-exit_code}

abbrev repeated : {A : Type 0} → A → List A → List A
repeated x [] = []
repeated x (y ∷ ys) = x ∷ repeated x ys

-- 43 letters and the padding, which stand for 32 bytes.
abbrev encoded : Text
encoded = repeated b'A' (text "0123456789012345678901234567890123456789012") ++ text "="

abbrev bytes : List ℕ
bytes = repeated 0 (text "01234567890123456789012345678901")

abbrev simple_host : Host
simple_host = record {
  exists = λ path. true;
  is_file = λ path. some true;
  parse_url = λ raw. some (record { protocol = text "https:"; hostname = text "api.guardian.org" });
  parse_json = λ raw. some (object (field (text "policy-1") (string encoded) end));
  decode_base64 = λ t. bytes;
  encode_base64 = λ decoded. encoded;
}

abbrev configured : List (Text × Text)
configured =
    (text "GUARDIAN_RELEASE_STORE_FILE", text "/keys/release.jks")
    ∷ (text "GUARDIAN_RELEASE_STORE_PASSWORD", text "s3cret")
    ∷ (text "GUARDIAN_RELEASE_KEY_ALIAS", text "release")
    ∷ (text "GUARDIAN_RELEASE_KEY_PASSWORD", text " s3cret ")
    ∷ (text "GUARDIAN_RELEASE_CERT_SHA256", repeated b'a' encoded ++ text "01234567:8901234567F9")
    ∷ (text "EXPO_PUBLIC_API_URL", text "https://api.guardian.org")
    ∷ (text "GUARDIAN_DOH_URL", text "https://api.guardian.org")
    ∷ (text "GUARDIAN_POLICY_TRUSTED_PUBLIC_KEYS", text "{...}")
    ∷ (text "GUARDIAN_POLICY_KEY_ID", text "policy-1")
    ∷ (text "GUARDIAN_RELEASE_VERSION_CODE", text "2147483647")
    ∷ []

abbrev looked_up : List (Text × Text) → Environment
looked_up [] name = none
looked_up ((k, v) ∷ rest) name = if text_eq k name then some v else looked_up rest name

abbrev environment : Environment
environment = looked_up configured

abbrev good_outcome : ℕ
good_outcome = (main simple_host environment).exit_code

abbrev odd_outcomes : List (List Diagnostic)
odd_outcomes =
    validate_version_code (text "2147483648")
    ∷ validate_version_code (text "012")
    ∷ validate_trusted_keys simple_host (text "{...}") (text "test/policy")
    ∷ validate_trusted_keys simple_host (text "{...}") (text "policy-2")
    ∷ []

main-exit_code_example :
    ((main simple_host environment).exit_code ≡ 0) ↔ IsAdmitted simple_host environment
main-exit_code_example = main-exit_code simple_host environment
