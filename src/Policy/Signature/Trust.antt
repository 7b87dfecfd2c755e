-- ===== src/Policy/Signature/Trust.antt =====
-- Which bundles packages/policy-schema/src/signature.ts accepts.
use you_tube_gradian_devin.Common.{
  Text, text, text_eq, text_eq_iff, truthy, Bool, Bool-cases, true, false, Option, none, some, ◌≡◌,
  refl, ap, ◌∙◌, ◌↔◌, inl, inr, arith, if◌then◌else◌, Result, ok, err,
}
use you_tube_gradian_devin.Policy.Canonical.{TypeError}
use you_tube_gradian_devin.Policy.Canonical.Values.{
  Value, object, Fields, end, field, Same, SameFields, same_value, same_array, same_object,
  same_end, same_field, swapped, same_trans,
}
use you_tube_gradian_devin.Policy.Canonical.{canonicalize}
use you_tube_gradian_devin.Policy.Canonical.Order.{Same-canonicalize}
use you_tube_gradian_devin.Policy.Signature.{
  Crypto, property, text_of, signature_of, key_id_of, unsigned, returned, or_false, ◌then_if◌,
  canonicalize_for_signing, verify_policy_signature, trusted_by, verify_bundle_against_trusted_keys,
  BundleVerificationError, not_trusted,
}

same_fields : (fs : Fields) → SameFields fs fs
same_fields end = same_end
same_fields (field k v fs) = same_field same_value (same_fields fs)

SameFields-unsigned : {fs gs : Fields} → SameFields fs gs → SameFields (unsigned fs) (unsigned gs)
unfolding unsigned
SameFields-unsigned same_end = same_end
SameFields-unsigned (same_field {k} h r) = elim (Bool-cases (text_eq k (text "signature"))) [
  | inl is ↦ rw is (SameFields-unsigned r)
  | inr other ↦ rw other (same_field h (SameFields-unsigned r))
]
SameFields-unsigned (swapped {j} {k} {v} {w} {fs} ne) =
    elim (Bool-cases (text_eq j (text "signature"))) [
      | inl a ↦ rw a (same_fields _)
      | inr a ↦ elim (Bool-cases (text_eq k (text "signature"))) [
        | inl b ↦ rw (a, b) (same_fields _)
        | inr b ↦ rw (a, b) (swapped ne)
      ]
    ]
SameFields-unsigned (same_trans h k) = same_trans (SameFields-unsigned h) (SameFields-unsigned k)

Same-text_of : {v w : Value} → Same v w → text_of (some v) ≡ text_of (some w)
Same-text_of same_value = refl
Same-text_of (same_array h) = refl
Same-text_of (same_object h) = refl

SameFields-property :
    (key : Text) {fs gs : Fields}
    → SameFields fs gs
    → text_of (property key fs) ≡ text_of (property key gs)
unfolding property
SameFields-property key same_end = refl
SameFields-property key (same_field {k} h r) = elim (Bool-cases (text_eq k key)) [
  | inl is ↦ rw is (Same-text_of h)
  | inr other ↦ rw other (SameFields-property key r)
]
SameFields-property key (swapped {j} {k} ne) = ground (arith, text_eq_iff j key, text_eq_iff k key)
SameFields-property key (same_trans h r) = SameFields-property key h ∙ SameFields-property key r

some-injective : {A : Type 0} {a b : A} → some a ≡ some b → a ≡ b
some-injective h = cc

then_if_true :
    {A : Type 0} (o : Option A) (f : A → Option Bool)
    → or_false (o then_if f) ≡ true
    → (a : A) × (o ≡ some a) × (or_false (f a) ≡ true)
then_if_true none f h = absurd (false_ne h)
  where
    false_ne : false ≡ true → ⊥
    false_ne e = cc
then_if_true (some a) f h = (a, refl, h)

or_false-true : (o : Option Bool) → or_false o ≡ true → o ≡ some true
or_false-true none h = cc
or_false-true (some b) h = ap some h

returned_ok : (r : Result TypeError Text) (t : Text) → returned r ≡ some t → r ≡ ok t
returned_ok (ok u) t h = cc
returned_ok (err e) t h = cc

module _ {Bytes Key : Type 0} (crypto : Crypto Bytes Key) where
  -- The order in which a bundle's properties stand, at any depth, changes neither the key that it
  -- names nor whether its signature is verified by a key.
  pub verify_policy_signature-SameFields :
      (fs gs : Fields) (public_key : Text)
      → SameFields fs gs
      → (key_id_of fs ≡ key_id_of gs)
        × (verify_policy_signature crypto fs public_key
            ≡ verify_policy_signature crypto gs public_key)
  unfolding verify_policy_signature canonicalize_for_signing
  verify_policy_signature-SameFields fs gs public_key h = (
    SameFields-property (text "key_id") h,
    rw
        (
          Same-canonicalize (same_object (SameFields-unsigned h)),
          SameFields-property (text "signature") h,
        )
        refl,
  )

  -- The steps of a verification that succeeds.
  pub record IsVerified (bundle : Fields) (public_key : Text) : Type 0 where
    pub raw : Bytes
    pub key : Key
    pub signature : Bytes
    pub canonical : Text
    pub raw_of : crypto.decode_base64 public_key ≡ some raw
    pub key_of : crypto.import_key raw ≡ some key
    pub signature_is : crypto.decode_base64 (signature_of bundle) ≡ some signature
    pub canonical_is : canonicalize (object (unsigned bundle)) ≡ ok canonical
    pub verified : crypto.verify key signature (crypto.encode canonical) ≡ some true

  signed_data :
      (bundle : Fields) (f : Bytes → Option Bool)
      → or_false (canonicalize_for_signing crypto bundle then_if f) ≡ true
      → (t : Text) × (canonicalize (object (unsigned bundle)) ≡ ok t)
        × (f (crypto.encode t) ≡ some true)
  unfolding canonicalize_for_signing
  signed_data bundle f h = elim_returned (canonicalize (object (unsigned bundle))) refl h
    where
      elim_returned :
          (r : Result TypeError Text)
          → canonicalize (object (unsigned bundle)) ≡ r
          → or_false ((returned r then_if λ t. some (crypto.encode t)) then_if f) ≡ true
          → (t : Text) × (canonicalize (object (unsigned bundle)) ≡ ok t)
            × (f (crypto.encode t) ≡ some true)
      elim_returned (ok t) e k = (t, e, or_false-true _ k)
      elim_returned (err x) e k = absurd (let no : false ≡ true = k in cc)

  signature-IsVerified :
      (bundle : Fields) (public_key : Text)
      → verify_policy_signature crypto bundle public_key ≡ true
      → IsVerified bundle public_key
  unfolding verify_policy_signature
  signature-IsVerified bundle public_key h =
      let (raw, raw_of, h1) = then_if_true (crypto.decode_base64 public_key) _ h in
      let (key, key_of, h2) = then_if_true (crypto.import_key raw) _ h1 in
      let (signature, signature_is, h3) =
        then_if_true (crypto.decode_base64 (signature_of bundle)) _ h2 in
      let (canonical, canonical_is, verified) = signed_data bundle _ h3 in
      record {
        raw = raw;
        key = key;
        signature = signature;
        canonical = canonical;
        raw_of = raw_of;
        key_of = key_of;
        signature_is = signature_is;
        canonical_is = canonical_is;
        verified = verified;
      }

  verified-of_IsVerified :
      (bundle : Fields) (public_key : Text)
      → IsVerified bundle public_key
      → verify_policy_signature crypto bundle public_key ≡ true
  unfolding verify_policy_signature canonicalize_for_signing
  verified-of_IsVerified bundle public_key v =
      rw (v.raw_of, v.key_of, v.signature_is, v.canonical_is, v.verified) refl

  trusted_by-IsVerified :
      (bundle : Fields) (trusted : Option Text)
      → (trusted_by crypto bundle trusted ≡ true) ↔ (
          (public_key : Text) × (trusted ≡ some public_key)
          × (truthy public_key ≡ true)
          × IsVerified bundle public_key)
  trusted_by-IsVerified bundle none = (λ h. cc, λ (k, e, t, v). cc)
  trusted_by-IsVerified bundle (some public_key) = elim (Bool-cases (truthy public_key)) [
    | inl present ↦ rw present (
      λ h. (public_key, refl, present, signature-IsVerified bundle public_key h),
      λ (k, e, t, v). rw (some-injective e) (verified-of_IsVerified bundle k v),
    )
    | inr empty ↦
        rw empty (
          λ h. cc,
          λ (k, e, t, v). let no : truthy public_key ≡ true = rw (some-injective e) t in cc,
        )
  ]

  -- A bundle is accepted exactly if the key that it names is trusted and not empty, and that key
  -- verifies the bundle's signature of the canonical text of the rest of the bundle.
  pub verify_bundle_against_trusted_keys_iff :
      (bundle : Fields) (trusted_public_keys : Text → Option Text)
      → (verify_bundle_against_trusted_keys crypto bundle trusted_public_keys ≡ ok bundle) ↔ (
          (public_key : Text) × (trusted_public_keys (key_id_of bundle) ≡ some public_key)
          × (truthy public_key ≡ true)
          × IsVerified bundle public_key)
  unfolding verify_bundle_against_trusted_keys
  verify_bundle_against_trusted_keys_iff bundle trusted_public_keys =
      let by = trusted_by-IsVerified bundle (trusted_public_keys (key_id_of bundle)) in
      (λ h. by.0 (accepted_true _ h), λ h. rw (by.1 h) refl)
    where
      accepted_true :
          (b : Bool)
          → ◌≡◌ {A = Result BundleVerificationError Fields}
              (if b then ok bundle else err not_trusted)
              (ok bundle)
          → b ≡ true
      accepted_true true e = refl
      accepted_true false e = cc
