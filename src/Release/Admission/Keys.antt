-- ===== src/Release/Admission/Keys.antt =====
-- The trusted keys that apps/mobile/scripts/release-admission.mjs admits.
use you_tube_gradian_devin.Common.{
  ℕ, ◌==◌, ==_iff, Text, text_eq, text_eq_iff, truthy, Bool, Bool-cases, true, false, not, Option,
  none, some, is_some, List, [], ◌∷◌, ◌++◌, length, if◌then◌else◌, ◌≡◌, ◌↔◌, inl, inr, refl, subst,
  arith,
}
use you_tube_gradian_devin.Policy.Canonical.Values.{
  Value, undefined, null, boolean, integer, other_number, string, array, object, unsupported,
  Fields, end, field,
}
use you_tube_gradian_devin.Policy.Signature.{property}
use you_tube_gradian_devin.Release.Patterns.{is_placeholder}
use you_tube_gradian_devin.Release.Admission.{
  Host, lacks, lacks_key, decode_canonical_base64, has_key_length, is_anchor, are_anchors,
  is_anchor_map, validate_key_id, validate_trusted_keys,
}
use you_tube_gradian_devin.Release.Admission.Version.{push_if_nil}

pub append_nil_iff : {A : Type 0} (xs ys : List A) → (xs ++ ys ≡ []) ↔ ((xs ≡ []) × (ys ≡ []))
append_nil_iff [] ys = (λ h. (refl, h), λ h. h.1)
append_nil_iff (x ∷ xs) ys = (λ h. cc, λ h. cc)

pub not_sound : (b : Bool) → not b ≡ false → b ≡ true
not_sound true h = refl
not_sound false h = cc

-- A test that reports a diagnostic where it fails, or where it succeeds, has not.
pub else_nil :
    {A : Type 0} (b : Bool) (xs : List A) (x : A)
    → (if b then xs else x ∷ []) ≡ []
    → (b ≡ true) × (xs ≡ [])
else_nil true xs x h = (refl, h)
else_nil false xs x h = cc

then_nil :
    {A : Type 0} (b : Bool) (xs : List A) (x : A)
    → (if b then x ∷ [] else xs) ≡ []
    → (b ≡ false) × (xs ≡ [])
then_nil true xs x h = cc
then_nil false xs x h = (refl, h)

module _ (host : Host) where
  -- A name and the key that it stands for: 32 bytes in canonical Base64.
  pub record IsAnchor (key_id : Text) (value : Value) : Type 0 where
    pub encoded : Text
    pub bytes : List ℕ
    pub is_text : value ≡ string encoded
    pub key_id_real : is_placeholder key_id ≡ false
    pub encoded_real : is_placeholder encoded ≡ false
    pub decodes : decode_canonical_base64 host encoded ≡ some bytes
    pub has_length : length bytes ≡ 32

  abbrev pub AllAnchors : Fields → Type 0
  AllAnchors end = Unit
  AllAnchors (field key_id value keys) = IsAnchor key_id value × AllAnchors keys

  -- An object of anchors, one of which has the active name.
  pub record IsTrusted (raw key_id : Text) : Type 0 where
    pub keys : Fields
    pub active : Value
    pub configured : truthy raw ≡ true
    pub parses : host.parse_json raw ≡ some (object keys)
    pub anchors : AllAnchors keys
    pub has_active : property key_id keys ≡ some active

  is_anchor_sound :
      (key_id : Text) (value : Value) → is_anchor host key_id value ≡ true → IsAnchor key_id value
  unfolding is_anchor
  is_anchor_sound key_id (string encoded) h =
      let k : is_placeholder key_id ≡ false = ground arith in
      let e : is_placeholder encoded ≡ false = ground arith in
      let l : has_key_length host (decode_canonical_base64 host encoded) ≡ true = ground arith in
      decoded _ refl k e l
    where
      decoded :
          (o : Option (List ℕ))
          → decode_canonical_base64 host encoded ≡ o
          → is_placeholder key_id ≡ false
          → is_placeholder encoded ≡ false
          → has_key_length host o ≡ true
          → IsAnchor key_id (string encoded)
      decoded none d k e l = cc
      decoded (some bytes) d k e l = record {
        encoded = encoded;
        bytes = bytes;
        is_text = refl;
        key_id_real = k;
        encoded_real = e;
        decodes = d;
        has_length = (==_iff (length bytes) 32).0 l;
      }
  is_anchor_sound key_id undefined h = cc
  is_anchor_sound key_id null h = cc
  is_anchor_sound key_id other_number h = cc
  is_anchor_sound key_id unsupported h = cc
  is_anchor_sound key_id (boolean b) h = cc
  is_anchor_sound key_id (integer s n) h = cc
  is_anchor_sound key_id (array items) h = cc
  is_anchor_sound key_id (object fields) h = cc

  is_anchor_complete :
      (key_id : Text) (value : Value) → IsAnchor key_id value → is_anchor host key_id value ≡ true
  unfolding is_anchor
  is_anchor_complete key_id value a =
      let l : (length a.bytes == 32) ≡ true = (==_iff (length a.bytes) 32).1 a.has_length in
      rw a.is_text (rw (a.key_id_real, a.encoded_real, a.decodes) l)

  are_anchors_iff : (keys : Fields) → (are_anchors host keys ≡ true) ↔ AllAnchors keys
  unfolding are_anchors
  are_anchors_iff end = (λ h. tt, λ h. refl)
  are_anchors_iff (field key_id value keys) = (
    λ h.
        let first : is_anchor host key_id value ≡ true = ground arith in
        let rest : are_anchors host keys ≡ true = ground arith in
        (is_anchor_sound key_id value first, (are_anchors_iff keys).0 rest),
    λ h. ground (arith, is_anchor_complete key_id value (h.0), (are_anchors_iff keys).1 (h.1)),
  )

  -- The active name is that of an anchor, so it is no placeholder.
  active_real :
      (key_id : Text) (keys : Fields) (v : Value)
      → AllAnchors keys
      → property key_id keys ≡ some v
      → is_placeholder key_id ≡ false
  unfolding property
  active_real key_id end v h e = cc
  active_real key_id (field k w keys) v h e = elim (Bool-cases (text_eq k key_id)) [
    | inl is ↦ subst (λ t. is_placeholder t ≡ false) ((text_eq_iff k key_id).0 is) (h.0.key_id_real)
    | inr other ↦ active_real key_id keys v (h.1) (ground arith)
  ]

  is_anchor_map_sound :
      (o : Option Value)
      → is_anchor_map host o ≡ true
      → (keys : Fields) × (o ≡ some (object keys)) × AllAnchors keys
  unfolding is_anchor_map
  is_anchor_map_sound none h = cc
  is_anchor_map_sound (some (object (field k v keys))) h =
      (field k v keys, refl, (are_anchors_iff (field k v keys)).0 h)
  is_anchor_map_sound (some (object end)) h = cc
  is_anchor_map_sound (some undefined) h = cc
  is_anchor_map_sound (some null) h = cc
  is_anchor_map_sound (some other_number) h = cc
  is_anchor_map_sound (some unsupported) h = cc
  is_anchor_map_sound (some (boolean b)) h = cc
  is_anchor_map_sound (some (integer s n)) h = cc
  is_anchor_map_sound (some (string t)) h = cc
  is_anchor_map_sound (some (array items)) h = cc

  is_anchor_map_complete :
      (key_id : Text) (keys : Fields) (v : Value)
      → property key_id keys ≡ some v
      → AllAnchors keys
      → is_anchor_map host (some (object keys)) ≡ true
  unfolding is_anchor_map property
  is_anchor_map_complete key_id end v e h = cc
  is_anchor_map_complete key_id (field k w keys) v e h = (are_anchors_iff (field k w keys)).1 h

  is_some_sound : {A : Type 0} (o : Option A) → not (is_some o) ≡ false → (a : A) × (o ≡ some a)
  is_some_sound none h = cc
  is_some_sound (some a) h = (a, refl)

  trusted_sound :
      (raw key_id : Text)
      → truthy raw ≡ true
      → is_anchor_map host (host.parse_json raw) ≡ true
      → lacks_key (host.parse_json raw) key_id ≡ false
      → IsTrusted raw key_id
  unfolding lacks
  trusted_sound raw key_id configured h k =
      let (keys, parses, anchors) = is_anchor_map_sound _ h in
      let (v, found) =
        is_some_sound (property key_id keys) (subst (λ o. lacks_key o key_id ≡ false) parses k) in
      record {
        keys = keys;
        active = v;
        configured = configured;
        parses = parses;
        anchors = anchors;
        has_active = found;
      }

  trusted_complete :
      (raw key_id : Text) → IsTrusted raw key_id → validate_trusted_keys host raw key_id ≡ []
  unfolding validate_trusted_keys validate_key_id lacks
  trusted_complete raw key_id t =
      let real = active_real key_id t.keys t.active t.anchors t.has_active in
      let good = is_anchor_map_complete key_id t.keys t.active t.has_active t.anchors in
      rw (t.configured, t.parses, good, real, t.has_active) refl

  -- The trusted keys and the active key's name are admitted exactly where the text of the keys
  -- parses to an object, each of whose properties is a name that is no placeholder with 32 bytes in
  -- canonical Base64, and one of the properties has the active name.
  pub validate_trusted_keys_iff :
      (raw key_id : Text) → (validate_trusted_keys host raw key_id ≡ []) ↔ IsTrusted raw key_id
  unfolding validate_trusted_keys validate_key_id
  validate_trusted_keys_iff raw key_id = (
    λ h.
        let (configured, checked) = else_nil (truthy raw) _ _ h in
        let (shape, named) = (append_nil_iff _ _).0 checked in
        let (real, found) = then_nil (is_placeholder key_id) _ _ named in
        trusted_sound raw key_id configured (not_sound _ ((push_if_nil _ _).0 shape))
          ((push_if_nil _ _).0 found),
    trusted_complete raw key_id,
  )
