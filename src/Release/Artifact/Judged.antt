-- ===== src/Release/Artifact/Judged.antt =====
-- How apps/mobile/scripts/verify-release-artifact.mjs reads its arguments and judges a version and a
-- certificate.
use you_tube_gradian_devin.Common.{
  ◌==◌, Text, text, text_eq, Bool, not, Option, none, some, List, [], ◌∷◌, ◌++◌, filter,
  if◌then◌else◌, ◌or_default◌, Result, ok,
}
use you_tube_gradian_devin.Release.Patterns.{lowered}
use you_tube_gradian_devin.Release.Artifact.Scans.{is_debug_subject}

-- `argument(name)`
unfoldable pub argument : List Text → Text → Option Text
argument [] name = none
argument (_ ∷ []) name = none
argument (first ∷ second ∷ rest) name =
    let later = argument (second ∷ rest) name in if text_eq first name then some second else later

abbrev pub is_required : Text → Text
is_required label = label ++ text " is required."

abbrev pub normalized_digest : Text → Text
normalized_digest value = lowered (filter (λ c. not (c == b':')) value)

abbrev pub version_error : Text → Option Text → Text → Text
version_error subject version expected =
    subject
    ++ (text " versionCode "
        ++ (version
            or_default text "is absent"
              ++ (text " does not equal requested " ++ (expected ++ text "."))))

abbrev pub check_version : Text → Option Text → Text → List Text
check_version subject none expected = version_error subject none expected ∷ []
check_version subject (some version) expected =
    if text_eq version expected then [] else version_error subject (some version) expected ∷ []

-- The two last tests of a certificate, whose digest is that of the release or not.
abbrev pub check_certificate : Text → Bool → Text → List Text
check_certificate subject matches name =
    if matches
    then (if is_debug_subject name
        then (subject ++ text " is signed with an Android debug certificate.") ∷ []
        else [])
    else (subject ++ text " signer does not match GUARDIAN_RELEASE_CERT_SHA256.") ∷ []

-- `bundletoolDumpManifestArgs`
abbrev pub bundletool_arguments : Text → Text → List Text
bundletool_arguments aab classpath =
    text "-cp"
    ∷ classpath
    ∷ text "com.android.tools.build.bundletool.BundleToolMain"
    ∷ text "dump"
    ∷ text "manifest"
    ∷ (text "--bundle=" ++ aab)
    ∷ text "--module=base"
    ∷ []

abbrev pub named : Text → List Text → Result Text (List Text × Text)
named kind errors = ok (errors, kind)
