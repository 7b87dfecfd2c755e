-- ===== src/Release/Artifact/Libraries.antt =====
-- The archives in which `verifyApkAbis` finds all required libraries.
use you_tube_gradian_devin.Common.{
  ℕ, add_some, ◌==◌, Text, text, text_eq, starts_with, drop, Bool-cases, true, false, Option, none,
  some, List, [], ◌∷◌, ◌++◌, any, filter, All, In, ◌≡◌, ◌≢◌, ◌↔◌, ◌⊎◌, refl, sym, ap, ◌∙◌, inl, inr,
  arith,
}
use you_tube_gradian_devin.Common.Included.{any-In}
use you_tube_gradian_devin.Common.Prefixes.{starts_with-drop}
use you_tube_gradian_devin.Release.Artifact.Scans.{push_front, up_to}
use you_tube_gradian_devin.Release.Artifact.{
  before_slash, non_empty, abi_of, present_abis, verify_apk_abis,
}

-- The name of a folder: some text without a slash.
pub record IsFolder (name : Text) : Type 0 where
  pub some_text : name ≢ []
  pub no_slash : All (λ c. (c == b'/') ≡ false) name

-- The entry lies in the folder of the ABI among the libraries.
pub record IsLibrary (abi entry : Text) : Type 0 where
  pub folder : IsFolder abi
  pub file : Text
  pub path : entry ≡ text "lib/" ++ (abi ++ b'/' ∷ file)

pushed :
    (c : ℕ) (o : Option Text) (name : Text)
    → push_front c o ≡ some name
    → (rest : Text) × (o ≡ some rest) × (name ≡ c ∷ rest)
pushed c none name h = cc
pushed c (some rest) name h = (rest, refl, ground arith)

before_slash_sound :
    (t name : Text)
    → before_slash t ≡ some name
    → All (λ c. (c == b'/') ≡ false) name × (rest : Text) × (t ≡ name ++ b'/' ∷ rest)
unfolding up_to
before_slash_sound [] name h = cc
before_slash_sound (c ∷ cs) name h = elim (Bool-cases (c == b'/')) [
  | inl slash ↦
      let name_empty : name ≡ [] = ground arith in
      let is_slash : c ≡ b'/' = ground arith in rw name_empty (tt, cs, ap (λ d. d ∷ cs) is_slash)
  | inr other ↦
      let (part, found, name_is) = pushed c (before_slash cs) name (ground arith) in
      let (fine, rest, e) = before_slash_sound cs part found in
      rw name_is ((other, fine), rest, ap (λ d. c ∷ d) e)
]

before_slash_complete :
    (name rest : Text)
    → All (λ c. (c == b'/') ≡ false) name
    → before_slash (name ++ b'/' ∷ rest) ≡ some name
unfolding up_to
before_slash_complete [] rest h = refl
before_slash_complete (c ∷ name) rest (other, h) =
    rw other (ap (push_front c) (before_slash_complete name rest h))

non_empty_sound :
    (o : Option Text) (name : Text) → non_empty o ≡ some name → (o ≡ some name) × (name ≢ [])
non_empty_sound none name h = cc
non_empty_sound (some []) name h = cc
non_empty_sound (some (c ∷ cs)) name h = (h, λ e. let same : c ∷ cs ≡ name = ground arith in cc)

non_empty_keeps : (name : Text) → name ≢ [] → non_empty (some name) ≡ some name
non_empty_keeps [] h = absurd (h refl)
non_empty_keeps (c ∷ cs) h = refl

abi_of_sound : (abi entry : Text) → abi_of entry ≡ some abi → IsLibrary abi entry
unfolding abi_of
abi_of_sound abi entry h =
    let begins : starts_with (text "lib/") entry ≡ true = ground arith in
    let named : non_empty (before_slash (drop 4 entry)) ≡ some abi = ground arith in
    let (found, some_text) = non_empty_sound _ abi named in
    let (no_slash, file, e) = before_slash_sound (drop 4 entry) abi found in
    record {
      folder = record { some_text = some_text; no_slash = no_slash };
      file = file;
      path = starts_with-drop (text "lib/") entry begins ∙ ap (λ rest. text "lib/" ++ rest) e;
    }

abi_of_complete : (abi entry : Text) → IsLibrary abi entry → abi_of entry ≡ some abi
unfolding abi_of starts_with
abi_of_complete abi entry l = rw l.path (
    rw (before_slash_complete abi l.file l.folder.no_slash)
      (non_empty_keeps abi l.folder.some_text))

abi_of_iff : (abi entry : Text) → (abi_of entry ≡ some abi) ↔ IsLibrary abi entry
abi_of_iff abi entry = (abi_of_sound abi entry, abi_of_complete abi entry)

In-add_some :
    (abi : Text) (o : Option Text) (rest : List Text)
    → In abi (add_some o rest) ↔ ((o ≡ some abi) ⊎ In abi rest)
In-add_some abi none rest = (λ m. inr m, λ m. elim m [ inl e ↦ absurd (none≢ e) | inr n ↦ n ])
  where
    none≢ : none ≡ some abi → ⊥
    none≢ e = cc
In-add_some abi (some first) rest = (
  λ m. elim m [ inl e ↦ inl (ap some (sym e)) | inr n ↦ inr n ],
  λ m. elim m [ inl e ↦ inl (ground arith) | inr n ↦ inr n ],
)

In-present_abis :
    (abi : Text) (entries : List Text)
    → In abi (present_abis entries) ↔ ((entry : Text) × In entry entries × IsLibrary abi entry)
unfolding present_abis
In-present_abis abi [] = (λ m. elim m [ ], λ (entry, m, l). elim m [ ])
In-present_abis abi (e ∷ es) = (
  λ m. elim ((In-add_some abi (abi_of e) _).0 m) [
    | inl named ↦ (e, inl refl, abi_of_sound abi e named)
    | inr n ↦ let (entry, k, l) = (In-present_abis abi es).0 n in (entry, inr k, l)
  ],
  λ (entry, m, l). (In-add_some abi (abi_of e) _).1 (elim m [
    | inl here ↦ inl (ap abi_of (sym here) ∙ abi_of_complete abi entry l)
    | inr n ↦ inr ((In-present_abis abi es).1 (entry, n, l))
  ]),
)

-- No library is missed exactly where for each required ABI the archive has an entry in the ABI's own
-- folder, directly under the folder of the libraries.
pub verify_apk_abis_iff :
    (entries required : List Text)
    → (verify_apk_abis entries required ≡ [])
      ↔ All (λ abi. (entry : Text) × In entry entries × IsLibrary abi entry) required
unfolding verify_apk_abis filter
verify_apk_abis_iff entries [] = (λ h. tt, λ h. refl)
verify_apk_abis_iff entries (abi ∷ required) =
    elim (Bool-cases (any (λ p. text_eq p abi) (present_abis entries))) [
      | inl found ↦ rw found (
        λ h. (
          (In-present_abis abi entries).0 ((any-In (present_abis entries) abi).0 found),
          (verify_apk_abis_iff entries required).0 h,
        ),
        λ (l, ls). (verify_apk_abis_iff entries required).1 ls,
      )
      | inr missing ↦ rw missing (
        λ h. cc,
        λ (l, ls).
            let found : any (λ p. text_eq p abi) (present_abis entries) ≡ true =
              (any-In (present_abis entries) abi).1 ((In-present_abis abi entries).1 l) in
            cc,
      )
    ]
