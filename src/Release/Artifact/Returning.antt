-- ===== src/Release/Artifact/Returning.antt =====
-- The steps of apps/mobile/scripts/verify-release-artifact.mjs raise no error where what they look for
-- is there.
use you_tube_gradian_devin.Common.{
  Text, text, text_eq, text_eq_iff, truthy, true, false, some, List, [], ◌or_default◌, Result, ok,
  ◌>>=◌, ◌≡◌, refl, ap, ◌∙◌,
}
use you_tube_gradian_devin.Release.Patterns.{is_version_code}
use you_tube_gradian_devin.Release.Artifact.Scans.{first_at, digest_at, is_debug_subject}
use you_tube_gradian_devin.Release.Artifact.Verification.{
  Tools, Call, argument, normalized_digest, check_version, check_certificate, run_tool,
  required_file, required_value, expected_digest, check_apk_digest, required_version,
}
use you_tube_gradian_devin.Release.Artifact.Steps.{IsFile, IsReleaseDigest, IsReleaseSignature}

pub bind_complete :
    {E A B : Type 0} (m : Result E A) (f : A → Result E B) (a : A) (r : Result E B)
    → m ≡ ok a
    → f a ≡ r
    → (m >>= f) ≡ r
bind_complete m f a r e k = ap (λ x. x >>= f) e ∙ k

pub check_version_complete :
    (subject version : Text) → check_version subject (some version) version ≡ []
check_version_complete subject version = rw ((text_eq_iff version version).1 refl) refl

pub check_certificate_complete :
    (subject digest name : Text)
    → is_debug_subject name ≡ false
    → check_certificate subject (text_eq digest digest) name ≡ []
check_certificate_complete subject digest name h =
    rw ((text_eq_iff digest digest).1 refl) (rw h refl)

module _ (tools : Tools) (call : Call) where
  pub required_file_complete :
      (name label path : Text)
      → IsFile tools call name path
      → required_file tools call name label ≡ ok path
  unfolding required_file
  required_file_complete name label path f =
      rw f.given (rw f.some_path (rw f.exists (rw f.is_regular refl)))

  pub required_value_complete :
      (name label value : Text)
      → argument call.arguments name ≡ some value
      → truthy value ≡ true
      → required_value tools call name label ≡ ok value
  unfolding required_value
  required_value_complete name label value e h = rw e (rw h refl)

  pub run_tool_complete :
      (command : Text) (arguments : List Text) (printed : Text)
      → tools.output command arguments ≡ some printed
      → run_tool tools call command arguments ≡ ok printed
  run_tool_complete command arguments printed h = rw h refl

  pub expected_digest_complete :
      (digest : Text) → IsReleaseDigest tools call digest → expected_digest tools call ≡ ok digest
  unfolding expected_digest
  expected_digest_complete digest d = rw d.is_configured (rw d.has_form refl)

  pub check_apk_digest_complete :
      (details : Text)
      → IsReleaseSignature tools call details
      → check_apk_digest tools call details (first_at digest_at details) ≡ ok []
  check_apk_digest_complete details s = rw s.found (
      bind_complete _ _ (normalized_digest s.digest) _ (expected_digest_complete _ s.is_expected) (
        ap ok (
          check_certificate_complete (text "Release APK") (normalized_digest s.digest) _
            s.no_debug)))

  pub required_version_complete :
      (version : Text)
      → call.environment (text "GUARDIAN_RELEASE_VERSION_CODE") or_default [] ≡ version
      → is_version_code version ≡ true
      → required_version tools call ≡ ok version
  required_version_complete version e h = rw e (rw h refl)
