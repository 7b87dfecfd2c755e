-- ===== src/Release/Admission/Admitted.antt =====
-- The configurations that apps/mobile/scripts/release-admission.mjs admits.
use you_tube_gradian_devin.Common.{
  ℕ, ◌==◌, ◌≤◌, ◌<◌, Text, text, text_eq, text_eq_iff, text_eq_refl, decimal, truthy, Bool,
  Bool-cases, true, false, ◌||◌, not, Option, none, some, ◌or_default◌, List, [], ◌∷◌, any, filter,
  All, In, ◌≡◌, ◌≢◌, ◌↔◌, inl, inr, refl, ap, arith,
}
use you_tube_gradian_devin.Release.Patterns.{lowered, is_placeholder, is_debug_signing, is_digest}
use you_tube_gradian_devin.Release.Admission.{
  Host, Url, Environment, Diagnostic, value, in_order, is_safe_url, truthy_values, is_store_file,
  validate_store_file, outcome, main, validate_configured, validate_https_url,
  validate_release_admission,
}
use you_tube_gradian_devin.Release.Admission.Version.{push_if_nil, validate_version_code_iff}
use you_tube_gradian_devin.Release.Admission.Keys.{
  IsTrusted, append_nil_iff, not_sound, else_nil, validate_trusted_keys_iff,
}

in_order_iff :
    (reports : List (List Diagnostic))
    → (in_order reports ≡ []) ↔ All (λ reported. reported ≡ []) reports
unfolding in_order
in_order_iff [] = (λ h. tt, λ h. refl)
in_order_iff (reported ∷ rest) = (
  λ h.
      let (first, others) = (append_nil_iff reported _).0 h in
      (first, (in_order_iff rest).0 others),
  λ (first, others). (append_nil_iff reported _).1 (first, (in_order_iff rest).1 others),
)

validate_configured_iff :
    (name configured : Text)
    → (validate_configured name configured ≡ []) ↔ (is_placeholder configured ≡ false)
unfolding validate_configured is_placeholder
validate_configured_iff name [] = (λ h. cc, λ h. cc)
validate_configured_iff name (c ∷ rest) = (λ h. (push_if_nil _ _).0 h, λ h. (push_if_nil _ _).1 h)

-- No word of the list is the text.
any-text_eq_iff :
    (t : Text) (words : List Text)
    → (any (text_eq t) words ≡ false) ↔ ((w : Text) → In w words → t ≢ w)
unfolding any
any-text_eq_iff t [] = (λ h w m e. m, λ h. refl)
any-text_eq_iff t (word ∷ words) = (
  λ h w m. elim m [
    | inl e ↦ λ same. ground (arith, text_eq_refl t, same, e)
    | inr m ↦ (any-text_eq_iff t words).0 (ground arith) w m
  ],
  λ h. elim (Bool-cases (text_eq t word)) [
    | inl same ↦ absurd (h word (inl refl) ((text_eq_iff t word).0 same))
    | inr other ↦ rw other ((any-text_eq_iff t words).1 (λ w m. h w (inr m)))
  ],
)

module _ (host : Host) where
  -- A text that parses to a URL over HTTPS whose host is no placeholder.
  pub record IsSafeUrl (raw : Text) : Type 0 where
    pub url : Url
    pub parses : host.parse_url raw ≡ some url
    pub https : url.protocol ≡ text "https:"
    pub host_real : is_placeholder url.hostname ≡ false

  pub record IsKeystore (path : Text) : Type 0 where
    pub named : truthy path ≡ true
    pub exists : host.exists path ≡ true
    pub is_file : host.is_file path ≡ some true

  validate_https_url_iff :
      (raw label : Text) → (validate_https_url host raw label ≡ []) ↔ IsSafeUrl raw
  unfolding validate_https_url
  validate_https_url_iff raw label = (
    λ h. parsed (host.parse_url raw) refl (not_sound _ ((push_if_nil _ _).0 h)),
    λ u.
        let https = (text_eq_iff u.url.protocol (text "https:")).1 u.https in
        rw (u.parses, https, u.host_real) refl,
  )
    where
      parsed : (o : Option Url) → host.parse_url raw ≡ o → is_safe_url o ≡ true → IsSafeUrl raw
      parsed none e h = cc
      parsed (some url) e h = record {
        url = url;
        parses = e;
        https = (text_eq_iff url.protocol (text "https:")).0 (ground arith);
        host_real = ground arith;
      }

  or_default_false : (o : Option Bool) → (o or_default false) ≡ true → o ≡ some true
  or_default_false none h = cc
  or_default_false (some b) h = ap some h

  validate_store_file_iff : (path : Text) → (validate_store_file host path ≡ []) ↔ IsKeystore path
  unfolding validate_store_file
  validate_store_file_iff path = (
    λ h.
        let (named, checked) = else_nil (truthy path) _ _ h in
        let good : is_store_file host path ≡ true = not_sound _ ((push_if_nil _ _).0 checked) in
        record {
          named = named;
          exists = ground arith;
          is_file = or_default_false _ (ground arith);
        },
    λ k. rw (k.named, k.exists, k.is_file) refl,
  )

  -- What a configuration that is admitted has.
  pub record IsAdmitted (environment : Environment) : Type 0 where
    pub keystore : IsKeystore (value environment (text "GUARDIAN_RELEASE_STORE_FILE"))
    pub store_signing :
        is_debug_signing (value environment (text "GUARDIAN_RELEASE_STORE_FILE")) ≡ false
    pub alias_signing :
        is_debug_signing (value environment (text "GUARDIAN_RELEASE_KEY_ALIAS")) ≡ false
    pub store_password :
        is_placeholder (value environment (text "GUARDIAN_RELEASE_STORE_PASSWORD")) ≡ false
    pub key_alias : is_placeholder (value environment (text "GUARDIAN_RELEASE_KEY_ALIAS")) ≡ false
    pub key_password :
        is_placeholder (value environment (text "GUARDIAN_RELEASE_KEY_PASSWORD")) ≡ false
    pub digest :
        is_digest
          (filter (λ c. not (c == b':')) (value environment (text "GUARDIAN_RELEASE_CERT_SHA256")))
        ≡ true
    pub api_url : IsSafeUrl (value environment (text "EXPO_PUBLIC_API_URL"))
    pub doh_url : IsSafeUrl (value environment (text "GUARDIAN_DOH_URL"))
    pub trusted :
        IsTrusted host
          (value environment (text "GUARDIAN_POLICY_TRUSTED_PUBLIC_KEYS"))
          (value environment (text "GUARDIAN_POLICY_KEY_ID"))
    pub version :
        (n : ℕ) × (value environment (text "GUARDIAN_RELEASE_VERSION_CODE") ≡ decimal n)
        × (0 < n)
        × (n ≤ 2147483647)
    pub no_fixtures :
        (w : Text)
        → In w truthy_values
        → lowered (value environment (text "GUARDIAN_ENABLE_TEST_FIXTURES")) ≢ w

  or_false_iff : (a b : Bool) → (a || b ≡ false) ↔ ((a ≡ false) × (b ≡ false))
  or_false_iff a b = (λ h. (ground arith, ground arith), λ (h, k). rw (h, k) refl)

  validate_release_admission_iff :
      (environment : Environment)
      → (validate_release_admission host environment ≡ []) ↔ IsAdmitted environment
  unfolding validate_release_admission
  validate_release_admission_iff environment = (
    λ h.
        let (
          store,
          (
            signing,
            (
              password,
              (alias, (key_password, (digest, (api, (doh, (keys, (version, (fixtures, u)))))))),
            ),
          ),
        ) =
          (in_order_iff _).0 h in
        let (store_signing, alias_signing) = (or_false_iff _ _).0 ((push_if_nil _ _).0 signing) in
        record {
          keystore = (validate_store_file_iff _).0 store;
          store_signing = store_signing;
          alias_signing = alias_signing;
          store_password = (validate_configured_iff _ _).0 password;
          key_alias = (validate_configured_iff _ _).0 alias;
          key_password = (validate_configured_iff _ _).0 key_password;
          digest = not_sound _ ((push_if_nil _ _).0 digest);
          api_url = (validate_https_url_iff _ _).0 api;
          doh_url = (validate_https_url_iff _ _).0 doh;
          trusted = (validate_trusted_keys_iff host _ _).0 keys;
          version = (validate_version_code_iff _).0 version;
          no_fixtures = (any-text_eq_iff _ _).0 ((push_if_nil _ _).0 fixtures);
        },
    λ a. (in_order_iff _).1 (
      (validate_store_file_iff _).1 a.keystore,
      (
        (push_if_nil _ _).1 ((or_false_iff _ _).1 (a.store_signing, a.alias_signing)),
        (
          (validate_configured_iff _ _).1 a.store_password,
          (
            (validate_configured_iff _ _).1 a.key_alias,
            (
              (validate_configured_iff _ _).1 a.key_password,
              (
                (push_if_nil _ _).1 (ap not a.digest),
                (
                  (validate_https_url_iff _ _).1 a.api_url,
                  (
                    (validate_https_url_iff _ _).1 a.doh_url,
                    (
                      (validate_trusted_keys_iff host _ _).1 a.trusted,
                      (
                        (validate_version_code_iff _).1 a.version,
                        ((push_if_nil _ _).1 ((any-text_eq_iff _ _).1 a.no_fixtures), tt),
                      ),
                    ),
                  ),
                ),
              ),
            ),
          ),
        ),
      ),
    ),
  )

  outcome-exit_code : (ds : List Diagnostic) → ((outcome ds).exit_code ≡ 0) ↔ (ds ≡ [])
  outcome-exit_code [] = (λ h. refl, λ h. refl)
  outcome-exit_code (d ∷ ds) = (λ h. absurd (omega arith), λ h. cc)

  -- The script ends with the exit code 0 exactly where the configuration is safe: the
  -- keystore is an existing regular file, neither its path nor the key's alias is that of a debug
  -- key, the passwords and the alias are no placeholders, the digest has 64 hexadecimal digits, both
  -- URLs are HTTPS with a host that is no placeholder, the active policy key is one of the anchors,
  -- the version code is the decimal text of a positive 31-bit number, and the fixtures are not on.
  pub main-exit_code :
      (environment : Environment) → ((main host environment).exit_code ≡ 0) ↔ IsAdmitted environment
  unfolding main
  main-exit_code environment =
      let (a, b) = outcome-exit_code (validate_release_admission host environment) in
      let (c, d) = validate_release_admission_iff environment in (λ h. c (a h), λ h. b (d h))
