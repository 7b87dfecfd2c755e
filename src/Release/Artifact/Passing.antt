-- ===== src/Release/Artifact/Passing.antt =====
-- The packages and bundles with which apps/mobile/scripts/verify-release-artifact.mjs finds nothing
-- wrong.
use you_tube_gradian_devin.Common.{Text, text, List, [], ◌++◌, ok, or_throw, ◌≡◌, ap, ◌∙◌}
use you_tube_gradian_devin.Release.Admission.Keys.{append_nil_iff}
use you_tube_gradian_devin.Release.Artifact.{required_apk_abis, verify_apk_abis}
use you_tube_gradian_devin.Release.Artifact.Libraries.{verify_apk_abis_iff}
use you_tube_gradian_devin.Release.Artifact.Manifest.{verify_manifest_xml, verify_manifest_tree}
use you_tube_gradian_devin.Release.Artifact.Manifests.{
  verify_manifest_tree_iff, verify_manifest_xml_iff,
}
use you_tube_gradian_devin.Release.Artifact.Verification.{
  Tools, Call, archive_entries, verify_apk_certificate, verify_aab_certificate, verify_apk_version,
  apk_errors, aab_errors, verify_aab_version, check_version,
}
use you_tube_gradian_devin.Release.Artifact.Packages.{Lists, IsApprovedApk}
use you_tube_gradian_devin.Release.Artifact.Bundles.{IsReleaseCertificate, IsApprovedAab}
use you_tube_gradian_devin.Release.Artifact.Returning.{
  bind_complete, check_version_complete, check_certificate_complete, required_file_complete,
  required_value_complete, run_tool_complete, expected_digest_complete, check_apk_digest_complete,
}

no_errors : {A : Type 0} (xs ys : List A) → xs ≡ [] → ys ≡ [] → xs ++ ys ≡ []
no_errors xs ys e f = (append_nil_iff xs ys).1 (e, f)

module _ (tools : Tools) (call : Call) where
  pub archive_entries_complete :
      (artifact : Text) (entries : List Text)
      → Lists tools call artifact entries
      → archive_entries tools call artifact ≡ ok entries
  unfolding archive_entries
  archive_entries_complete artifact entries l =
      bind_complete _ _ l.listing _ (run_tool_complete tools call _ _ l.listing l.listed)
        (ap ok l.entries_are)

  pub apk_errors_complete :
      (artifact version : Text)
      → IsApprovedApk tools call artifact version
      → apk_errors tools call artifact version ≡ ok []
  unfolding apk_errors verify_apk_certificate verify_apk_version
  apk_errors_complete artifact version p =
      let required = required_apk_abis (call.environment (text "GUARDIAN_RELEASE_REQUIRED_ABIS")) in
      let certified : verify_apk_certificate tools call artifact p.apksigner ≡ ok [] =
        bind_complete _ _ p.details _ (run_tool_complete tools call _ _ p.details p.details_read)
          (check_apk_digest_complete tools call p.details p.signature) in
      let versions : verify_apk_version tools call artifact p.aapt version ≡ ok [] =
        bind_complete _ _ p.badging _ (run_tool_complete tools call _ _ p.badging p.badging_read) (
          ap (λ found. ok (check_version (text "Release APK") found version)) p.has_version
          ∙ ap ok (check_version_complete (text "Release APK") version)) in
      bind_complete _ _ p.aapt _ (required_file_complete tools call _ _ p.aapt p.aapt_file) (
        bind_complete _ _ p.apksigner _
          (required_file_complete tools call _ _ p.apksigner p.apksigner_file)
          (bind_complete _ _ p.tree _ (run_tool_complete tools call _ _ p.tree p.tree_read) (
            bind_complete _ _ [] _ certified (
              bind_complete _ _ [] _ versions (
                bind_complete _ _ p.entries _
                  (archive_entries_complete artifact p.entries p.entries_listed)
                  (ap ok (
                    no_errors (verify_manifest_tree p.tree) (verify_apk_abis p.entries required)
                      ((verify_manifest_tree_iff p.tree).1 p.tree_safe)
                      ((verify_apk_abis_iff p.entries required).1 p.libraries))))))))

  certificate_complete :
      (artifact keytool jarsigner : Text)
      → IsReleaseCertificate tools call artifact keytool jarsigner
      → verify_aab_certificate tools call artifact keytool jarsigner ≡ ok []
  unfolding verify_aab_certificate
  certificate_complete artifact keytool jarsigner c =
      bind_complete _ _ c.verified _ (run_tool_complete tools call _ _ c.verified c.verification) (
        bind_complete _ _ c.pem _ (run_tool_complete tools call _ _ c.pem c.pem_read) (
          bind_complete _ _ c.certificate _
            (ap (λ found. or_throw found (text "The certificate cannot be read.")) c.parsed)
            (bind_complete _ _ c.certificate.digest _
              (expected_digest_complete tools call _ c.is_expected)
              (ap ok (
                check_certificate_complete (text "Release AAB") c.certificate.digest _
                  c.no_debug)))))

  pub aab_errors_complete :
      (artifact version : Text)
      → IsApprovedAab tools call artifact version
      → aab_errors tools call artifact version ≡ ok []
  unfolding aab_errors
  aab_errors_complete artifact version b =
      bind_complete _ _ b.keytool _ (required_file_complete tools call _ _ b.keytool b.keytool_file)
        (bind_complete _ _ b.jarsigner _
          (required_file_complete tools call _ _ b.jarsigner b.jarsigner_file)
          (bind_complete _ _ b.java _ (required_file_complete tools call _ _ b.java b.java_file) (
            bind_complete _ _ b.classpath _
              (required_value_complete tools call _ _ b.classpath b.classpath_given
                b.classpath_some)
              (bind_complete _ _ b.manifest _
                (run_tool_complete tools call _ _ b.manifest b.manifest_read)
                (bind_complete _ _ [] _
                  (certificate_complete artifact b.keytool b.jarsigner b.signature)
                  (ap ok (
                    no_errors (verify_manifest_xml b.manifest (text "AAB"))
                      (verify_aab_version tools call b.manifest version)
                      ((verify_manifest_xml_iff b.manifest (text "AAB")).1 b.manifest_safe)
                      (ap (λ found. check_version (text "Release AAB") found version) b.has_version
                        ∙ check_version_complete (text "Release AAB") version))))))))
