-- ===== src/Release/Artifact/Decided.antt =====
-- The calls of `main` of apps/mobile/scripts/verify-release-artifact.mjs that end with an approval.
use you_tube_gradian_devin.Common.{
  Text, text, text_eq, [], ◌∷◌, ◌++◌, Option, false, ◌>>=◌, or_throw, ok, ◌≡◌, ◌↔◌, inl, inr, ap,
  ◌∙◌,
}
use you_tube_gradian_devin.Release.Artifact.Manifests.{fixture_marker_errors_iff}
use you_tube_gradian_devin.Release.Artifact.Verification.{
  Tools, Call, argument, named, archive_fixture_errors, kind_errors, concluded, verified,
  unless_empty, main,
}
use you_tube_gradian_devin.Release.Artifact.Approved.{
  IsApproved, IsCleanArchive, IsApprovedKind, main-IsApproved,
}
use you_tube_gradian_devin.Release.Artifact.Returning.{
  bind_complete, required_file_complete, required_version_complete,
}
use you_tube_gradian_devin.Release.Artifact.Passing.{
  archive_entries_complete, apk_errors_complete, aab_errors_complete,
}

module _ (tools : Tools) (call : Call) where
  archive_fixture_errors_complete :
      (artifact : Text)
      → IsCleanArchive tools call artifact
      → archive_fixture_errors tools call artifact ≡ ok []
  unfolding archive_fixture_errors
  archive_fixture_errors_complete artifact a =
      bind_complete _ _ a.entries _
        (archive_entries_complete tools call artifact a.entries a.listed)
        (bind_complete _ _ a.contents _ a.read
          (ap ok ((fixture_marker_errors_iff a.entries a.contents).1 a.clean)))

  kind_errors_complete :
      (kind : Option Text) (artifact version : Text)
      → IsApprovedKind tools call artifact version kind
      → (name : Text) × (kind_errors tools call kind artifact version ≡ ok ([], name))
  unfolding kind_errors text_eq
  kind_errors_complete kind artifact version k = elim k [
    | inl (is_apk, p) ↦ (
      text "APK",
      ap (λ o. kind_errors tools call o artifact version) is_apk
          ∙ ap (λ r. r >>= named (text "APK")) (apk_errors_complete tools call artifact version p),
    )
    | inr (is_aab, b) ↦ (
      text "AAB",
      ap (λ o. kind_errors tools call o artifact version) is_aab
          ∙ ap (λ r. r >>= named (text "AAB")) (aab_errors_complete tools call artifact version b),
    )
  ]

  verified_complete :
      (a : IsApproved tools call)
      → (said : Text) × (verified tools call a.artifact a.version ≡ ok said)
  unfolding verified
  verified_complete a =
      let kind = argument call.arguments (text "--kind") in
      let (name, judged) = kind_errors_complete kind a.artifact a.version a.kind in
      let passed : Text =
        text "Guardian release " ++ (name ++ (text " artifact policy passed." ++ 10 ∷ [])) in
      let clean = archive_fixture_errors_complete a.artifact a.archive in
      (
        passed,
        ap
              (λ fixtures. fixtures >>= λ found.
                kind_errors tools call kind a.artifact a.version >>= λ (errors, said).
                concluded tools call (found ++ errors) said)
              clean
            ∙ ap (λ others. others >>= λ (errors, said). concluded tools call errors said) judged,
      )

  main_complete : IsApproved tools call → (said : Text) × (main tools call ≡ ok said)
  unfolding main
  main_complete a =
      let (said, passes) = verified_complete a in
      (
        said,
        bind_complete _ _ a.artifact _
            (required_file_complete tools call _ _ a.artifact a.artifact_file)
            (bind_complete _ _ a.version _
              (required_version_complete tools call a.version a.version_given a.version_form)
              (bind_complete _ (λ is_empty. unless_empty tools call is_empty a.artifact a.version)
                false _ (ap (λ o. or_throw o (a.artifact ++ text " cannot be read.")) a.some_bytes)
                passes)),
      )

  -- `main` prints that the policy has passed exactly where the following holds. The artifact is a file
  -- with bytes, the version is a version code that the environment gives, and no text `fixture` stands
  -- in the archive's names and inspected contents but in the guard's. By its kind, the file is a package
  -- or a bundle for which the tools print a safe manifest, the configured digest of its signer, a subject
  -- that is no debug certificate's and the same version, and a package has the libraries of each
  -- required ABI.
  pub main_iff : ((said : Text) × (main tools call ≡ ok said)) ↔ IsApproved tools call
  main_iff = (λ (said, h). main-IsApproved tools call said h, main_complete)
