-- ===== src/Release/Artifact/Packages.antt =====
-- What has been found of a package (APK) that apps/mobile/scripts/verify-release-artifact.mjs finds
-- nothing wrong with.
use you_tube_gradian_devin.Common.{
  Text, text, truthy, split, some, List, [], ◌∷◌, ◌++◌, filter, ok, All, In, ◌≡◌, refl, ap, ◌∙◌,
}
use you_tube_gradian_devin.Release.Admission.Keys.{append_nil_iff}
use you_tube_gradian_devin.Release.Artifact.{required_apk_abis, verify_apk_abis}
use you_tube_gradian_devin.Release.Artifact.Libraries.{IsLibrary, verify_apk_abis_iff}
use you_tube_gradian_devin.Release.Artifact.Scans.{first_at, quoted_digits_at}
use you_tube_gradian_devin.Release.Artifact.Manifest.{verify_manifest_tree}
use you_tube_gradian_devin.Release.Artifact.Manifests.{IsSafeTree, verify_manifest_tree_iff}
use you_tube_gradian_devin.Release.Artifact.Verification.{
  Tools, Call, run_tool, required_file, archive_entries, check_version, verify_apk_certificate,
  verify_apk_version, apk_errors,
}
use you_tube_gradian_devin.Release.Artifact.Steps.{
  bind_sound, ok_injective, check_version_sound, IsFile, required_file_sound, run_tool_sound,
  IsReleaseSignature, check_apk_digest_sound,
}

module _ (tools : Tools) (call : Call) where
  -- The entries that `unzip` lists.
  pub record Lists (artifact : Text) (entries : List Text) : Type 0 where
    pub listing : Text
    pub listed : tools.output (text "unzip") (text "-Z1" ∷ artifact ∷ []) ≡ some listing
    pub entries_are : filter truthy (split 10 listing) ≡ entries

  pub archive_entries_sound :
      (artifact : Text) (entries : List Text)
      → archive_entries tools call artifact ≡ ok entries
      → Lists artifact entries
  unfolding archive_entries
  archive_entries_sound artifact entries h =
      let (listing, listed, rest) =
        bind_sound (run_tool tools call (text "unzip") (text "-Z1" ∷ artifact ∷ [])) _ entries h in
      record {
        listing = listing;
        listed = run_tool_sound tools call _ _ listing listed;
        entries_are = ok_injective (filter truthy (split 10 listing)) entries rest;
      }

  -- A package whose manifest, signature, version and libraries are those of the release.
  pub record IsApprovedApk (artifact version : Text) : Type 0 where
    pub aapt : Text
    pub aapt_file : IsFile tools call (text "--aapt") aapt
    pub apksigner : Text
    pub apksigner_file : IsFile tools call (text "--apksigner") apksigner
    pub tree : Text
    pub tree_read :
        tools.output aapt
          (text "dump" ∷ text "xmltree" ∷ artifact ∷ text "AndroidManifest.xml" ∷ [])
        ≡ some tree
    pub tree_safe : IsSafeTree tree
    pub details : Text
    pub details_read :
        tools.output apksigner
          (text "verify" ∷ text "--verbose" ∷ text "--print-certs" ∷ artifact ∷ [])
        ≡ some details
    pub signature : IsReleaseSignature tools call details
    pub badging : Text
    pub badging_read :
        tools.output aapt (text "dump" ∷ text "badging" ∷ artifact ∷ []) ≡ some badging
    pub has_version :
        first_at (quoted_digits_at (text "versionCode='") b'\'') badging ≡ some version
    pub entries : List Text
    pub entries_listed : Lists artifact entries
    pub libraries :
        All
          (λ abi. (entry : Text) × In entry entries × IsLibrary abi entry)
          (required_apk_abis (call.environment (text "GUARDIAN_RELEASE_REQUIRED_ABIS")))

  signature_sound :
      (artifact apksigner : Text)
      → verify_apk_certificate tools call artifact apksigner ≡ ok []
      → (details : Text) × (tools.output apksigner
            (text "verify" ∷ text "--verbose" ∷ text "--print-certs" ∷ artifact ∷ [])
          ≡ some details)
        × IsReleaseSignature tools call details
  unfolding verify_apk_certificate
  signature_sound artifact apksigner h =
      let (details, read, rest) =
        bind_sound
          (run_tool tools call apksigner
            (text "verify" ∷ text "--verbose" ∷ text "--print-certs" ∷ artifact ∷ []))
          _ [] h in
      (
        details,
        run_tool_sound tools call _ _ details read,
        check_apk_digest_sound tools call details _ refl rest,
      )

  version_sound :
      (artifact aapt version : Text)
      → verify_apk_version tools call artifact aapt version ≡ ok []
      → (badging : Text) × (tools.output aapt (text "dump" ∷ text "badging" ∷ artifact ∷ [])
          ≡ some badging)
        × (first_at (quoted_digits_at (text "versionCode='") b'\'') badging ≡ some version)
  unfolding verify_apk_version
  version_sound artifact aapt version h =
      let (badging, read, rest) =
        bind_sound (run_tool tools call aapt (text "dump" ∷ text "badging" ∷ artifact ∷ [])) _ []
          h in
      let found = first_at (quoted_digits_at (text "versionCode='") b'\'') badging in
      (
        badging,
        run_tool_sound tools call _ _ badging read,
        check_version_sound (text "Release APK") found version
            (ok_injective (check_version (text "Release APK") found version) [] rest),
      )

  pub apk_errors_sound :
      (artifact version : Text)
      → apk_errors tools call artifact version ≡ ok []
      → IsApprovedApk artifact version
  unfolding apk_errors
  apk_errors_sound artifact version h =
      let (aapt, aapt_given, h1) =
        bind_sound (required_file tools call (text "--aapt") (text "Android aapt")) _ [] h in
      let (apksigner, apksigner_given, h2) =
        bind_sound (required_file tools call (text "--apksigner") (text "Android apksigner")) _ []
          h1 in
      let (tree, tree_read, h3) =
        bind_sound
          (run_tool tools call aapt
            (text "dump" ∷ text "xmltree" ∷ artifact ∷ text "AndroidManifest.xml" ∷ []))
          _ [] h2 in
      let (certificate, certified, h4) =
        bind_sound (verify_apk_certificate tools call artifact apksigner) _ [] h3 in
      let (versions, version_read, h5) =
        bind_sound (verify_apk_version tools call artifact aapt version) _ [] h4 in
      let (entries, listed, h6) = bind_sound (archive_entries tools call artifact) _ [] h5 in
      let required = required_apk_abis (call.environment (text "GUARDIAN_RELEASE_REQUIRED_ABIS")) in
      let abis = verify_apk_abis entries required in
      let all_errors =
        ok_injective (verify_manifest_tree tree ++ (certificate ++ (versions ++ abis))) [] h6 in
      let (tree_fine, e1) =
        (append_nil_iff (verify_manifest_tree tree) (certificate ++ (versions ++ abis))).0
          all_errors in
      let (certificate_fine, e2) = (append_nil_iff certificate (versions ++ abis)).0 e1 in
      let (version_fine, abis_fine) = (append_nil_iff versions abis).0 e2 in
      let (details, details_read, signature) =
        signature_sound artifact apksigner (certified ∙ ap ok certificate_fine) in
      let (badging, badging_read, has_version) =
        version_sound artifact aapt version (version_read ∙ ap ok version_fine) in
      record {
        aapt = aapt;
        aapt_file = required_file_sound tools call _ _ aapt aapt_given;
        apksigner = apksigner;
        apksigner_file = required_file_sound tools call _ _ apksigner apksigner_given;
        tree = tree;
        tree_read = run_tool_sound tools call _ _ tree tree_read;
        tree_safe = (verify_manifest_tree_iff tree).0 tree_fine;
        details = details;
        details_read = details_read;
        signature = signature;
        badging = badging;
        badging_read = badging_read;
        has_version = has_version;
        entries = entries;
        entries_listed = archive_entries_sound artifact entries listed;
        libraries = (verify_apk_abis_iff entries required).0 abis_fine;
      }
