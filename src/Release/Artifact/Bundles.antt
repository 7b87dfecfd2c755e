-- ===== src/Release/Artifact/Bundles.antt =====
-- What has been found of a bundle (AAB) that apps/mobile/scripts/verify-release-artifact.mjs finds
-- nothing wrong with.
use you_tube_gradian_devin.Common.{
  Text, text, truthy, text_eq, text_eq_iff, true, false, some, [], ◌∷◌, ◌++◌, ok, or_throw, ◌≡◌,
  sym, ap, ◌∙◌, subst,
}
use you_tube_gradian_devin.Release.Admission.Keys.{append_nil_iff}
use you_tube_gradian_devin.Release.Artifact.Scans.{first_at, quoted_digits_at, is_debug_subject}
use you_tube_gradian_devin.Release.Artifact.Manifest.{verify_manifest_xml}
use you_tube_gradian_devin.Release.Artifact.Manifests.{IsSafeXml, verify_manifest_xml_iff}
use you_tube_gradian_devin.Release.Artifact.Verification.{
  Certificate, Tools, Call, argument, bundletool_arguments, run_tool, required_file, required_value,
  expected_digest, check_version, check_certificate, verify_aab_certificate, aab_errors,
}
use you_tube_gradian_devin.Release.Artifact.Steps.{
  bind_sound, ok_injective, or_throw_sound, check_version_sound, check_certificate_sound, IsFile,
  required_file_sound, required_value_sound, run_tool_sound, IsReleaseDigest, expected_digest_sound,
}

module _ (tools : Tools) (call : Call) where
  -- The certificate of a bundle: the digest of the release, and no subject of a debug certificate.
  pub record IsReleaseCertificate (artifact keytool jarsigner : Text) : Type 0 where
    pub verified : Text
    pub verification :
        tools.output jarsigner (text "-verify" ∷ text "-certs" ∷ artifact ∷ []) ≡ some verified
    pub pem : Text
    pub pem_read :
        tools.output keytool (text "-printcert" ∷ text "-jarfile" ∷ artifact ∷ text "-rfc" ∷ [])
        ≡ some pem
    pub certificate : Certificate
    pub parsed : tools.certificate pem ≡ some certificate
    pub is_expected : IsReleaseDigest tools call certificate.digest
    pub no_debug : is_debug_subject certificate.subject ≡ false

  certificate_sound :
      (artifact keytool jarsigner : Text)
      → verify_aab_certificate tools call artifact keytool jarsigner ≡ ok []
      → IsReleaseCertificate artifact keytool jarsigner
  unfolding verify_aab_certificate
  certificate_sound artifact keytool jarsigner h =
      let (printed, verification, h1) =
        bind_sound (run_tool tools call jarsigner (text "-verify" ∷ text "-certs" ∷ artifact ∷ []))
          _ [] h in
      let (pem, pem_read, h2) =
        bind_sound
          (run_tool tools call keytool
            (text "-printcert" ∷ text "-jarfile" ∷ artifact ∷ text "-rfc" ∷ []))
          _ [] h1 in
      let (certificate, parsed, h3) =
        bind_sound (or_throw (tools.certificate pem) (text "The certificate cannot be read.")) _ []
          h2 in
      let (expected, configured, h4) = bind_sound (expected_digest tools call) _ [] h3 in
      let matches = text_eq certificate.digest expected in
      let (same, no_debug) =
        check_certificate_sound (text "Release AAB") matches certificate.subject (
          ok_injective (check_certificate (text "Release AAB") matches certificate.subject) []
            h4) in
      record {
        verified = printed;
        verification = run_tool_sound tools call _ _ printed verification;
        pem = pem;
        pem_read = run_tool_sound tools call _ _ pem pem_read;
        certificate = certificate;
        parsed = or_throw_sound _ _ certificate parsed;
        is_expected =
            subst (IsReleaseDigest tools call)
              (sym ((text_eq_iff certificate.digest expected).0 same))
              (expected_digest_sound tools call expected configured);
        no_debug = no_debug;
      }

  -- A bundle whose manifest, certificate and version are those of the release.
  pub record IsApprovedAab (artifact version : Text) : Type 0 where
    pub keytool : Text
    pub keytool_file : IsFile tools call (text "--keytool") keytool
    pub jarsigner : Text
    pub jarsigner_file : IsFile tools call (text "--jarsigner") jarsigner
    pub java : Text
    pub java_file : IsFile tools call (text "--java") java
    pub classpath : Text
    pub classpath_given : argument call.arguments (text "--bundletool-classpath") ≡ some classpath
    pub classpath_some : truthy classpath ≡ true
    pub manifest : Text
    pub manifest_read : tools.output java (bundletool_arguments artifact classpath) ≡ some manifest
    pub manifest_safe : IsSafeXml manifest
    pub signature : IsReleaseCertificate artifact keytool jarsigner
    pub has_version :
        first_at (quoted_digits_at (text "versionCode=" ++ b'"' ∷ []) b'"') manifest ≡ some version

  pub aab_errors_sound :
      (artifact version : Text)
      → aab_errors tools call artifact version ≡ ok []
      → IsApprovedAab artifact version
  unfolding aab_errors
  aab_errors_sound artifact version h =
      let (keytool, keytool_given, h1) =
        bind_sound (required_file tools call (text "--keytool") (text "keytool")) _ [] h in
      let (jarsigner, jarsigner_given, h2) =
        bind_sound (required_file tools call (text "--jarsigner") (text "jarsigner")) _ [] h1 in
      let (java, java_given, h3) =
        bind_sound (required_file tools call (text "--java") (text "JDK Java executable")) _ []
          h2 in
      let (classpath, classpath_found, h4) =
        bind_sound
          (required_value tools call (text "--bundletool-classpath") (text "Bundletool classpath"))
          _ [] h3 in
      let (manifest, manifest_read, h5) =
        bind_sound (run_tool tools call java (bundletool_arguments artifact classpath)) _ [] h4 in
      let (certificate, certified, h6) =
        bind_sound (verify_aab_certificate tools call artifact keytool jarsigner) _ [] h5 in
      let found = first_at (quoted_digits_at (text "versionCode=" ++ b'"' ∷ []) b'"') manifest in
      let versions = check_version (text "Release AAB") found version in
      let xml = verify_manifest_xml manifest (text "AAB") in
      let (certificate_fine, e1) =
        (append_nil_iff certificate (xml ++ versions)).0
          (ok_injective (certificate ++ (xml ++ versions)) [] h6) in
      let (xml_fine, version_fine) = (append_nil_iff xml versions).0 e1 in
      record {
        keytool = keytool;
        keytool_file = required_file_sound tools call _ _ keytool keytool_given;
        jarsigner = jarsigner;
        jarsigner_file = required_file_sound tools call _ _ jarsigner jarsigner_given;
        java = java;
        java_file = required_file_sound tools call _ _ java java_given;
        classpath = classpath;
        classpath_given = (required_value_sound tools call _ _ classpath classpath_found).0;
        classpath_some = (required_value_sound tools call _ _ classpath classpath_found).1;
        manifest = manifest;
        manifest_read = run_tool_sound tools call _ _ manifest manifest_read;
        manifest_safe = (verify_manifest_xml_iff manifest (text "AAB")).0 xml_fine;
        signature =
            certificate_sound artifact keytool jarsigner (certified ∙ ap ok certificate_fine);
        has_version = check_version_sound (text "Release AAB") found version version_fine;
      }
