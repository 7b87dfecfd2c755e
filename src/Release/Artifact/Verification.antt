-- ===== src/Release/Artifact/Verification.antt =====
-- `main` of apps/mobile/scripts/verify-release-artifact.mjs, with the checks that read what other tools
-- print. A thrown error is its message.
use you_tube_gradian_devin.Common.{
  Text, text, text_eq, truthy, split, Bool, true, false, ◌&&◌, Option, none, some, List, [], ◌∷◌,
  ◌++◌, filter, if◌then◌else◌, ◌or_default◌, Result, ok, err, ◌>>=◌, or_throw, map_or_throw,
}
use you_tube_gradian_devin.Release.Patterns.{lowered, is_digest, is_version_code}
use you_tube_gradian_devin.Release.Artifact.{required_apk_abis, verify_apk_abis}
use you_tube_gradian_devin.Release.Artifact.Scans.{
  first_at, digest_at, subject_at, quoted_digits_at, is_inspected,
}
use you_tube_gradian_devin.Release.Artifact.Manifest.{
  verify_manifest_xml, verify_manifest_tree, fixture_marker_errors,
}
pub use you_tube_gradian_devin.Release.Artifact.Judged.{
  argument, is_required, normalized_digest, version_error, check_version, check_certificate,
  bundletool_arguments, named,
}

-- `X509Certificate`: the digest of its bytes in hexadecimal digits, and its subject.
pub record Certificate : Type 0 where
  pub digest : Text
  pub subject : Text

-- What the script calls: the file system, the programs that it runs, where `unzip` gives decoded
-- contents, and the parser of a certificate. `none` is a thrown error.
pub record Tools : Type 0 where
  pub exists : Text → Bool
  pub is_file : Text → Option Bool
  pub is_empty : Text → Option Bool
  pub output : (command : Text) → List Text → Option Text
  pub certificate : Text → Option Certificate

-- `process.argv` and `process.env`.
pub record Call : Type 0 where
  pub arguments : List Text
  pub environment : Text → Option Text

module _ (tools : Tools) (call : Call) where
  abbrev pub run_tool : Text → List Text → Result Text Text
  run_tool command arguments =
      or_throw (tools.output command arguments) (command ++ text " failed.")

  abbrev pub existing_file : Text → Text → Result Text Text
  existing_file path label =
      if truthy path && tools.exists path
      then (do
        is_regular ← or_throw (tools.is_file path) (path ++ text " cannot be read.")
        if is_regular then ok path else err (is_required label))
      else err (is_required label)

  -- `requiredFile(argument(name), label)`
  unfoldable pub required_file : Text → Text → Result Text Text
  required_file name label = existing_file (argument call.arguments name or_default []) label

  unfoldable pub required_value : Text → Text → Result Text Text
  required_value name label =
      let value = argument call.arguments name or_default [] in
      if truthy value then ok value else err (is_required label)

  unfoldable pub expected_digest : Result Text Text
  expected_digest =
      let value =
        normalized_digest (call.environment (text "GUARDIAN_RELEASE_CERT_SHA256") or_default []) in
      if is_digest value
      then ok value
      else err (text "GUARDIAN_RELEASE_CERT_SHA256 is required for final artifact verification.")

  unfoldable pub archive_entries : Text → Result Text (List Text)
  archive_entries artifact = do
    listing ← run_tool (text "unzip") (text "-Z1" ∷ artifact ∷ [])
    ok (filter truthy (split 10 listing))

  unfoldable pub archive_fixture_errors : Text → Result Text (List Text)
  archive_fixture_errors artifact = do
    entries ← archive_entries artifact
    contents ←
        map_or_throw (λ entry. run_tool (text "unzip") (text "-p" ∷ artifact ∷ entry ∷ []))
          (filter (λ entry. is_inspected true (lowered entry)) entries)
    ok (fixture_marker_errors entries contents)

  abbrev pub check_apk_digest : Text → Option Text → Result Text (List Text)
  check_apk_digest details none = ok (check_certificate (text "Release APK") false [])
  check_apk_digest details (some digest) = do
    expected ← expected_digest
    ok (
        check_certificate (text "Release APK") (text_eq (normalized_digest digest) expected)
          (first_at subject_at details or_default []))

  unfoldable pub verify_apk_certificate : (apk apksigner : Text) → Result Text (List Text)
  verify_apk_certificate apk apksigner = do
    details ←
        run_tool apksigner (text "verify" ∷ text "--verbose" ∷ text "--print-certs" ∷ apk ∷ [])
    check_apk_digest details (first_at digest_at details)

  unfoldable pub verify_aab_certificate : (aab keytool jarsigner : Text) → Result Text (List Text)
  verify_aab_certificate aab keytool jarsigner = do
    verified ← run_tool jarsigner (text "-verify" ∷ text "-certs" ∷ aab ∷ [])
    pem ← run_tool keytool (text "-printcert" ∷ text "-jarfile" ∷ aab ∷ text "-rfc" ∷ [])
    certificate ← or_throw (tools.certificate pem) (text "The certificate cannot be read.")
    expected ← expected_digest
    ok (
        check_certificate (text "Release AAB") (text_eq certificate.digest expected)
          certificate.subject)

  unfoldable pub verify_apk_version : (apk aapt expected : Text) → Result Text (List Text)
  verify_apk_version apk aapt expected = do
    badging ← run_tool aapt (text "dump" ∷ text "badging" ∷ apk ∷ [])
    ok (
        check_version (text "Release APK")
          (first_at (quoted_digits_at (text "versionCode='") b'\'') badging) expected)

  abbrev pub verify_aab_version : (manifest expected : Text) → List Text
  verify_aab_version manifest expected =
      check_version (text "Release AAB")
        (first_at (quoted_digits_at (text "versionCode=" ++ b'"' ∷ []) b'"') manifest) expected

  unfoldable pub apk_errors : (artifact expected : Text) → Result Text (List Text)
  apk_errors artifact expected = do
    aapt ← required_file (text "--aapt") (text "Android aapt")
    apksigner ← required_file (text "--apksigner") (text "Android apksigner")
    tree ← run_tool aapt (text "dump" ∷ text "xmltree" ∷ artifact ∷ text "AndroidManifest.xml" ∷ [])
    certificate ← verify_apk_certificate artifact apksigner
    version ← verify_apk_version artifact aapt expected
    entries ← archive_entries artifact
    ok (
        verify_manifest_tree tree
        ++ (certificate
            ++ (version
                ++ verify_apk_abis entries (
                    required_apk_abis (call.environment (text "GUARDIAN_RELEASE_REQUIRED_ABIS"))))))

  unfoldable pub aab_errors : (artifact expected : Text) → Result Text (List Text)
  aab_errors artifact expected = do
    keytool ← required_file (text "--keytool") (text "keytool")
    jarsigner ← required_file (text "--jarsigner") (text "jarsigner")
    java ← required_file (text "--java") (text "JDK Java executable")
    classpath ← required_value (text "--bundletool-classpath") (text "Bundletool classpath")
    manifest ← run_tool java (bundletool_arguments artifact classpath)
    certificate ← verify_aab_certificate artifact keytool jarsigner
    ok (
        certificate
        ++ (verify_manifest_xml manifest (text "AAB") ++ verify_aab_version manifest expected))

  abbrev pub listed : List Text → Text
  listed [] = []
  listed (error ∷ errors) = 10 ∷ (text "- " ++ (error ++ listed errors))

  abbrev pub required_version : Result Text Text
  required_version =
      let version = call.environment (text "GUARDIAN_RELEASE_VERSION_CODE") or_default [] in
      if is_version_code version
      then ok version
      else err (text "GUARDIAN_RELEASE_VERSION_CODE is required for final artifact verification.")

  -- The errors of the artifact by its kind, and the name of the kind.
  unfoldable pub kind_errors :
      Option Text → (artifact expected : Text) → Result Text (List Text × Text)
  kind_errors none artifact expected = err (text "Release artifact kind must be apk or aab.")
  kind_errors (some kind) artifact expected =
      if text_eq kind (text "apk")
      then apk_errors artifact expected >>= named (text "APK")
      else if text_eq kind (text "aab")
      then aab_errors artifact expected >>= named (text "AAB")
      else err (text "Release artifact kind must be apk or aab.")

  abbrev pub concluded : List Text → Text → Result Text Text
  concluded [] kind =
      ok (text "Guardian release " ++ (kind ++ (text " artifact policy passed." ++ 10 ∷ [])))
  concluded (error ∷ errors) kind =
      err (text "Release artifact policy failed:" ++ listed (error ∷ errors))

  unfoldable pub verified : Text → Text → Result Text Text
  verified artifact expected = do
    fixtures ← archive_fixture_errors artifact
    (errors, kind) ← kind_errors (argument call.arguments (text "--kind")) artifact expected
    concluded (fixtures ++ errors) kind

  abbrev pub unless_empty : Bool → Text → Text → Result Text Text
  unless_empty true artifact expected = err (
      text "Release "
      ++ (argument call.arguments (text "--kind") or_default text "undefined" ++ text " is empty."))
  unless_empty false artifact expected = verified artifact expected

  -- `main`, which gives what it prints.
  unfoldable pub main : Result Text Text
  main = do
    artifact ← required_file (text "--artifact") (text "Release artifact")
    expected ← required_version
    is_empty ← or_throw (tools.is_empty artifact) (artifact ++ text " cannot be read.")
    unless_empty is_empty artifact expected
