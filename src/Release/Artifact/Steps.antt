-- ===== src/Release/Artifact/Steps.antt =====
-- What the steps of apps/mobile/scripts/verify-release-artifact.mjs have found where they raise no
-- error: files, outputs, signatures and versions.
use you_tube_gradian_devin.Common.{
  Text, text, text_eq, text_eq_iff, truthy, Bool, Bool-cases, true, false, ◌&&◌, Option, none, some,
  List, [], ◌++◌, if◌then◌else◌, ◌or_default◌, Result, ok, err, ◌>>=◌, or_throw, ◌≡◌, inl, inr,
  refl, sym, subst, ap, ◌∙◌, arith,
}
use you_tube_gradian_devin.Release.Patterns.{is_digest, is_version_code}
use you_tube_gradian_devin.Release.Artifact.Scans.{
  first_at, digest_at, subject_at, is_debug_subject,
}
use you_tube_gradian_devin.Release.Artifact.Verification.{
  Tools, Call, argument, is_required, normalized_digest, check_version, check_certificate, run_tool,
  existing_file, required_file, required_value, expected_digest, check_apk_digest, required_version,
}

-- The first step of a computation that gives a value has given one, and so has the rest.
pub bind_sound :
    {E A B : Type 0} (m : Result E A) (f : A → Result E B) (b : B)
    → (m >>= f) ≡ ok b
    → (a : A) × (m ≡ ok a) × (f a ≡ ok b)
bind_sound (ok a) f b h = (a, refl, h)
bind_sound (err e) f b h = cc

pub ok_injective : {E A : Type 0} (x y : A) → ◌≡◌ {A = Result E A} (ok x) (ok y) → x ≡ y
ok_injective x y h = ground arith

-- A computation behind a test gives a value only where the test succeeds.
pub guard_sound :
    {E A : Type 0} (b : Bool) (r : Result E A) (e : E) (a : A)
    → (if b then r else err e) ≡ ok a
    → (b ≡ true) × (r ≡ ok a)
guard_sound true r e a h = (refl, h)
guard_sound false r e a h = cc

pub and_sound : (a b : Bool) → (a && b) ≡ true → (a ≡ true) × (b ≡ true)
and_sound true b h = (refl, h)
and_sound false b h = cc

pub or_throw_sound :
    {E A : Type 0} (o : Option A) (e : E) (a : A) → or_throw o e ≡ ok a → o ≡ some a
or_throw_sound none e a h = cc
or_throw_sound (some x) e a h = ap some (ok_injective x a h)

pub check_version_sound :
    (subject : Text) (found : Option Text) (expected : Text)
    → check_version subject found expected ≡ []
    → found ≡ some expected
check_version_sound subject none expected h = cc
check_version_sound subject (some version) expected h =
    elim (Bool-cases (text_eq version expected)) [
      | inl same ↦ ap some ((text_eq_iff version expected).0 same)
      | inr other ↦ cc
    ]

pub check_certificate_sound :
    (subject : Text) (matches : Bool) (name : Text)
    → check_certificate subject matches name ≡ []
    → (matches ≡ true) × (is_debug_subject name ≡ false)
check_certificate_sound subject true name h = (refl, ground arith)
check_certificate_sound subject false name h = cc

module _ (tools : Tools) (call : Call) where
  -- The argument of this name is the path of a file.
  pub record IsFile (name path : Text) : Type 0 where
    pub given : argument call.arguments name ≡ some path
    pub some_path : truthy path ≡ true
    pub exists : tools.exists path ≡ true
    pub is_regular : tools.is_file path ≡ some true

  existing_file_sound :
      (name label : Text) (given : Option Text) (path : Text)
      → argument call.arguments name ≡ given
      → existing_file tools call (given or_default []) label ≡ ok path
      → IsFile name path
  existing_file_sound name label none path e h = cc
  existing_file_sound name label (some given) path e h =
      let (there, rest) =
        guard_sound (truthy given && tools.exists given) _ (is_required label) path h in
      let (is_regular, read, last) =
        bind_sound (or_throw (tools.is_file given) (given ++ text " cannot be read.")) _ path
          rest in
      let (regular, same) = guard_sound is_regular (ok given) (is_required label) path last in
      let (some_given, exists) = and_sound _ _ there in
      let file : IsFile name given = record {
        given = e;
        some_path = some_given;
        exists = exists;
        is_regular = or_throw_sound _ _ _ read ∙ ap some regular;
      } in
      subst (IsFile name) (ok_injective given path same) file

  pub required_file_sound :
      (name label path : Text) → required_file tools call name label ≡ ok path → IsFile name path
  unfolding required_file
  required_file_sound name label path h =
      existing_file_sound name label (argument call.arguments name) path refl h

  present_value_sound :
      (name label : Text) (given : Option Text) (value : Text)
      → argument call.arguments name ≡ given
      → (if truthy (given or_default []) then ok (given or_default []) else err (is_required label))
        ≡ ok value
      → (argument call.arguments name ≡ some value) × (truthy value ≡ true)
  present_value_sound name label none value e h = cc
  present_value_sound name label (some given) value e h =
      let (some_given, same) = guard_sound (truthy given) (ok given) (is_required label) value h in
      let is_given : given ≡ value = ok_injective given value same in
      (e ∙ ap some is_given, subst (λ v. truthy v ≡ true) is_given some_given)

  pub required_value_sound :
      (name label value : Text)
      → required_value tools call name label ≡ ok value
      → (argument call.arguments name ≡ some value) × (truthy value ≡ true)
  unfolding required_value
  required_value_sound name label value h =
      present_value_sound name label (argument call.arguments name) value refl h

  pub run_tool_sound :
      (command : Text) (arguments : List Text) (printed : Text)
      → run_tool tools call command arguments ≡ ok printed
      → tools.output command arguments ≡ some printed
  run_tool_sound command arguments printed h =
      or_throw_sound (tools.output command arguments) _ printed h

  -- The digest is the one that the release is configured with.
  pub record IsReleaseDigest (digest : Text) : Type 0 where
    pub is_configured :
        normalized_digest (call.environment (text "GUARDIAN_RELEASE_CERT_SHA256") or_default [])
        ≡ digest
    pub has_form : is_digest digest ≡ true

  pub expected_digest_sound :
      (digest : Text) → expected_digest tools call ≡ ok digest → IsReleaseDigest digest
  unfolding expected_digest
  expected_digest_sound digest h =
      let value =
        normalized_digest (call.environment (text "GUARDIAN_RELEASE_CERT_SHA256") or_default []) in
      let (has_form, same) = guard_sound (is_digest value) (ok value) _ digest h in
      let e : value ≡ digest = ok_injective value digest same in
      record { is_configured = e; has_form = subst (λ d. is_digest d ≡ true) e has_form }

  -- What `apksigner` prints: the digest of the release, and no subject of a debug certificate.
  pub record IsReleaseSignature (details : Text) : Type 0 where
    pub digest : Text
    pub found : first_at digest_at details ≡ some digest
    pub is_expected : IsReleaseDigest (normalized_digest digest)
    pub no_debug : is_debug_subject (first_at subject_at details or_default []) ≡ false

  pub check_apk_digest_sound :
      (details : Text) (digest : Option Text)
      → first_at digest_at details ≡ digest
      → check_apk_digest tools call details digest ≡ ok []
      → IsReleaseSignature details
  check_apk_digest_sound details none e h =
      let raised = ok_injective (check_certificate (text "Release APK") false []) [] h in cc
  check_apk_digest_sound details (some digest) e h =
      let subject = first_at subject_at details or_default [] in
      let (expected, configured, rest) = bind_sound (expected_digest tools call) _ [] h in
      let matches = text_eq (normalized_digest digest) expected in
      let (same, no_debug) =
        check_certificate_sound (text "Release APK") matches subject
          (ok_injective (check_certificate (text "Release APK") matches subject) [] rest) in
      record {
        digest = digest;
        found = e;
        is_expected =
            subst IsReleaseDigest (sym ((text_eq_iff (normalized_digest digest) expected).0 same))
              (expected_digest_sound expected configured);
        no_debug = no_debug;
      }

  pub required_version_sound :
      (version : Text)
      → required_version tools call ≡ ok version
      → (call.environment (text "GUARDIAN_RELEASE_VERSION_CODE") or_default [] ≡ version)
        × (is_version_code version ≡ true)
  required_version_sound version h =
      let value = call.environment (text "GUARDIAN_RELEASE_VERSION_CODE") or_default [] in
      let (has_form, same) = guard_sound (is_version_code value) (ok value) _ version h in
      let e : value ≡ version = ok_injective value version same in
      (e, subst (λ v. is_version_code v ≡ true) e has_form)
