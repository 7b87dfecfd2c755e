-- ===== src/Release/Artifact/Runs.antt =====
-- A package that the verification approves, and the theorem on it.
use you_tube_gradian_devin.Common.{
  Text, text, text_eq, starts_with, split, find, any, all, filter, true, false, Option, none, some,
  List, [], ◌∷◌, ◌++◌, if◌then◌else◌, ok, map_or_throw, ◌≡◌, ◌↔◌, refl,
}
use you_tube_gradian_devin.Policy.Domain.{includes, ends_with}
use you_tube_gradian_devin.Release.Patterns.{trim, trim_start, trim_end, lowered}
use you_tube_gradian_devin.Release.Artifact.{
  required_apk_abis, abi_of, present_abis, verify_apk_abis,
}
use you_tube_gradian_devin.Release.Artifact.Scans.{
  reports, up_to, first_at, has_false, has_zero, is_debug_subject, is_inspected, without,
}
use you_tube_gradian_devin.Release.Artifact.Manifest.{
  assigned, before_element, metadata_nodes, has_attribute, verify_manifest_tree,
  fixture_marker_errors,
}
use you_tube_gradian_devin.Release.Artifact.Manifests.{IsSafeTree, verify_manifest_tree_iff}
use you_tube_gradian_devin.Release.Artifact.Judged.{argument}
use you_tube_gradian_devin.Release.Artifact.Verification.{
  Tools, Call, required_file, expected_digest, archive_entries, archive_fixture_errors,
  verify_apk_certificate, verify_apk_version, apk_errors, kind_errors, verified, main,
}
use you_tube_gradian_devin.Release.Artifact.Approved.{IsApproved}
use you_tube_gradian_devin.Release.Artifact.Decided.{main_iff}

abbrev lines : List Text → Text
lines [] = []
lines (line ∷ rest) = line ++ 10 ∷ lines rest

abbrev metadata : Text → Text
metadata name = assigned (text "A: android:name(0)") name

abbrev tree : Text
tree = lines (
    text "A: android:allowBackup(0)=0x0"
    ∷ text "A: android:usesCleartextTraffic(0)=0x0"
    ∷ text "E: meta-data"
    ∷ metadata (text "isMonitoringTool")
    ∷ assigned (text "A: android:value(0)") (text "child_monitoring")
    ∷ text "E: meta-data"
    ∷ metadata (text "com.guardian.family.CHILD_MONITORING_DISCLOSURE")
    ∷ text "E: meta-data"
    ∷ metadata (text "com.guardian.family.ACCESSIBILITY_DECLARATION")
    ∷ text "E: meta-data"
    ∷ metadata (text "com.guardian.family.VPN_DECLARATION")
    ∷ text "E: GuardianVpnService"
    ∷ text "E: GuardianAccessibilityService"
    ∷ text "E: GuardianNotificationListenerService"
    ∷ [])

abbrev signer : Text
signer = text "00112233445566778899aabbccddeeff00112233445566778899AABBCCDDEEFF"

-- What the tools print, by the command and its first arguments.
abbrev printed : Text → List Text → Text
printed command [] = []
printed command (first ∷ []) = []
printed command (first ∷ second ∷ rest) =
    if text_eq command (text "aapt")
    then (if text_eq second (text "xmltree") then tree else text "versionCode='7'")
    else if text_eq command (text "signer")
    then text "certificate DN: CN=Guardian" ++ 10 ∷ (text "certificate SHA-256 digest: " ++ signer)
    else if text_eq first (text "-Z1")
    then lines (text "lib/x86/a.so" ∷ text "a.json" ∷ [])
    else text "{}"

abbrev tools : Tools
tools = record {
  exists = λ path. true;
  is_file = λ path. some true;
  is_empty = λ path. some false;
  output = λ command arguments. some (printed command arguments);
  certificate = λ pem. none;
}

abbrev environment : Text → Option Text
environment name =
    if text_eq name (text "GUARDIAN_RELEASE_VERSION_CODE")
    then some (text "7")
    else if text_eq name (text "GUARDIAN_RELEASE_CERT_SHA256")
    then some signer
    else if text_eq name (text "GUARDIAN_RELEASE_REQUIRED_ABIS")
    then some (text "x86")
    else none

abbrev call : Call
call = record {
  arguments =
      text "--artifact"
      ∷ text "a.apk"
      ∷ text "--kind"
      ∷ text "apk"
      ∷ text "--aapt"
      ∷ text "aapt"
      ∷ text "--apksigner"
      ∷ text "signer"
      ∷ [];
  environment = environment;
}

tree_safe : verify_manifest_tree tree ≡ []
unfolding verify_manifest_tree reports metadata_nodes before_element has_attribute any find split
    includes starts_with lowered has_false has_zero trim_start text_eq
tree_safe = refl

-- The manifest, the signer, the version and the library are those of the release.
run_approved : main tools call ≡ ok (text "Guardian release APK artifact policy passed." ++ 10 ∷ [])
unfolding main verified kind_errors apk_errors verify_apk_version verify_apk_certificate
    archive_fixture_errors archive_entries expected_digest required_file argument
    verify_manifest_tree reports metadata_nodes before_element has_attribute any find split includes
    starts_with lowered has_false has_zero trim_start text_eq verify_apk_abis required_apk_abis
    abi_of present_abis up_to first_at is_debug_subject is_inspected without fixture_marker_errors
    map_or_throw filter all ends_with trim trim_end
run_approved = refl

verify_manifest_tree_iff_example : (verify_manifest_tree tree ≡ []) ↔ IsSafeTree tree
verify_manifest_tree_iff_example = verify_manifest_tree_iff tree

main_iff_example : IsApproved tools call
main_iff_example =
    (main_iff tools call).0
      (text "Guardian release APK artifact policy passed." ++ 10 ∷ [], run_approved)
