-- ===== src/Release/Artifact/Approved.antt =====
-- What has been found of an artifact that `main` of apps/mobile/scripts/verify-release-artifact.mjs
-- approves.
use you_tube_gradian_devin.Common.{
  Text, text, text_eq, text_eq_iff, Bool, true, false, Option, none, some, List, [], ◌∷◌, ◌++◌,
  filter, if◌then◌else◌, ◌or_default◌, Result, ok, err, ◌>>=◌, or_throw, map_or_throw, ◌≡◌, ◌⊎◌,
  Bool-cases, inl, inr, refl, ap, ◌∙◌, arith,
}
use you_tube_gradian_devin.Release.Patterns.{lowered, is_version_code}
use you_tube_gradian_devin.Release.Admission.Keys.{append_nil_iff}
use you_tube_gradian_devin.Release.Artifact.Scans.{is_inspected}
use you_tube_gradian_devin.Release.Artifact.Manifest.{fixture_marker_errors}
use you_tube_gradian_devin.Release.Artifact.Manifests.{
  IsFixtureFreeArchive, fixture_marker_errors_iff,
}
use you_tube_gradian_devin.Release.Artifact.Verification.{
  Tools, Call, argument, named, run_tool, required_file, archive_entries, archive_fixture_errors,
  apk_errors, aab_errors, kind_errors, concluded, verified, required_version, unless_empty, main,
}
use you_tube_gradian_devin.Release.Artifact.Steps.{
  bind_sound, ok_injective, or_throw_sound, guard_sound, IsFile, required_file_sound,
  required_version_sound,
}
use you_tube_gradian_devin.Release.Artifact.Bundles.{IsApprovedAab, aab_errors_sound}
use you_tube_gradian_devin.Release.Artifact.Packages.{
  Lists, archive_entries_sound, IsApprovedApk, apk_errors_sound,
}

named_sound :
    (found : Result Text (List Text)) (kind name : Text)
    → (found >>= named kind) ≡ ok ([], name)
    → found ≡ ok []
named_sound (ok []) kind name h = refl
named_sound (ok (error ∷ errors)) kind name h =
    let same : error ∷ errors ≡ [] =
      ap (λ p. p.0) (ok_injective (error ∷ errors, kind) ([], name) h) in
    cc
named_sound (err e) kind name h = cc

module _ (tools : Tools) (call : Call) where
  -- The archive was listed and each entry to be inspected was read, and no `fixture` stands in them.
  pub record IsCleanArchive (artifact : Text) : Type 0 where
    pub entries : List Text
    pub listed : Lists tools call artifact entries
    pub contents : List Text
    pub read :
        map_or_throw
          (λ entry. run_tool tools call (text "unzip") (text "-p" ∷ artifact ∷ entry ∷ []))
          (filter (λ entry. is_inspected true (lowered entry)) entries)
        ≡ ok contents
    pub clean : IsFixtureFreeArchive entries contents

  archive_fixture_errors_sound :
      (artifact : Text)
      → archive_fixture_errors tools call artifact ≡ ok []
      → IsCleanArchive artifact
  unfolding archive_fixture_errors
  archive_fixture_errors_sound artifact h =
      let (entries, listed, h1) = bind_sound (archive_entries tools call artifact) _ [] h in
      let (contents, read, h2) =
        bind_sound
          (map_or_throw
            (λ entry. run_tool tools call (text "unzip") (text "-p" ∷ artifact ∷ entry ∷ []))
            (filter (λ entry. is_inspected true (lowered entry)) entries))
          _ [] h1 in
      record {
        entries = entries;
        listed = archive_entries_sound tools call artifact entries listed;
        contents = contents;
        read = read;
        clean =
            (fixture_marker_errors_iff entries contents).0
              (ok_injective (fixture_marker_errors entries contents) [] h2);
      }

  -- The kind of the artifact is one of the two, and it is approved as such.
  abbrev pub IsApprovedKind : (artifact version : Text) → Option Text → Type 0
  IsApprovedKind artifact version kind =
      ((kind ≡ some (text "apk")) × IsApprovedApk tools call artifact version)
      ⊎ ((kind ≡ some (text "aab")) × IsApprovedAab tools call artifact version)

  kind_errors_sound :
      (kind : Option Text) (artifact version name : Text)
      → kind_errors tools call kind artifact version ≡ ok ([], name)
      → IsApprovedKind artifact version kind
  unfolding kind_errors
  kind_errors_sound none artifact version name h = cc
  kind_errors_sound (some kind) artifact version name h =
      elim (Bool-cases (text_eq kind (text "apk"))) [
        | inl is_apk ↦
            let only : apk_errors tools call artifact version >>= named (text "APK")
                ≡ ok ([], name) =
              ground arith in
            inl (
              ap some ((text_eq_iff kind (text "apk")).0 is_apk),
              apk_errors_sound tools call artifact version (named_sound _ _ name only),
            )
        | inr not_apk ↦
            let second : (if text_eq kind (text "aab")
                  then aab_errors tools call artifact version >>= named (text "AAB")
                  else err (text "Release artifact kind must be apk or aab."))
                ≡ ok ([], name) =
              ground arith in
            let (is_aab, only) =
              guard_sound (text_eq kind (text "aab"))
                (aab_errors tools call artifact version >>= named (text "AAB")) _ ([], name)
                second in
            inr (
              ap some ((text_eq_iff kind (text "aab")).0 is_aab),
              aab_errors_sound tools call artifact version (named_sound _ _ name only),
            )
      ]

  -- What has been found where `main` approves.
  pub record IsApproved : Type 0 where
    pub artifact : Text
    pub artifact_file : IsFile tools call (text "--artifact") artifact
    pub some_bytes : tools.is_empty artifact ≡ some false
    pub version : Text
    pub version_given :
        call.environment (text "GUARDIAN_RELEASE_VERSION_CODE") or_default [] ≡ version
    pub version_form : is_version_code version ≡ true
    pub archive : IsCleanArchive artifact
    pub kind : IsApprovedKind artifact version (argument call.arguments (text "--kind"))

  concluded_sound :
      (errors : List Text) (kind said : Text)
      → concluded tools call errors kind ≡ ok said
      → errors ≡ []
  concluded_sound [] kind said h = refl
  concluded_sound (error ∷ errors) kind said h = cc

  verified_sound :
      (artifact version said : Text)
      → verified tools call artifact version ≡ ok said
      → IsCleanArchive artifact
        × IsApprovedKind artifact version (argument call.arguments (text "--kind"))
  unfolding verified
  verified_sound artifact version said h =
      let kind = argument call.arguments (text "--kind") in
      let (fixtures, archive, h1) =
        bind_sound (archive_fixture_errors tools call artifact) _ said h in
      let (found, judged, h2) =
        bind_sound (kind_errors tools call kind artifact version) _ said h1 in
      let (no_fixtures, no_errors) =
        (append_nil_iff fixtures found.0).0
          (concluded_sound (fixtures ++ found.0) found.1 said h2) in
      (
        archive_fixture_errors_sound artifact (archive ∙ ap ok no_fixtures),
        kind_errors_sound kind artifact version found.1
            (judged ∙ ap (λ errors. ok (errors, found.1)) no_errors),
      )

  unless_empty_sound :
      (is_empty : Bool) (artifact version said : Text)
      → unless_empty tools call is_empty artifact version ≡ ok said
      → (is_empty ≡ false) × (verified tools call artifact version ≡ ok said)
  unless_empty_sound true artifact version said h = cc
  unless_empty_sound false artifact version said h = (refl, h)

  -- What `main` approves is approved by the description.
  pub main-IsApproved : (said : Text) → main tools call ≡ ok said → IsApproved
  unfolding main
  main-IsApproved said h =
      let (artifact, given, h1) =
        bind_sound (required_file tools call (text "--artifact") (text "Release artifact")) _ said
          h in
      let (version, configured, h2) = bind_sound (required_version tools call) _ said h1 in
      let (is_empty, measured, h3) =
        bind_sound (or_throw (tools.is_empty artifact) (artifact ++ text " cannot be read.")) _ said
          h2 in
      let (some_bytes, h4) = unless_empty_sound is_empty artifact version said h3 in
      let (version_given, version_form) = required_version_sound tools call version configured in
      let (archive, kind) = verified_sound artifact version said h4 in
      record {
        artifact = artifact;
        artifact_file = required_file_sound tools call _ _ artifact given;
        some_bytes = or_throw_sound _ _ is_empty measured ∙ ap some some_bytes;
        version = version;
        version_given = version_given;
        version_form = version_form;
        archive = archive;
        kind = kind;
      }
