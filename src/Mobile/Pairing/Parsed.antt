-- ===== src/Mobile/Pairing/Parsed.antt =====
-- Which links pair a child's device.
use you_tube_gradian_devin.Common.{
  ℕ, Text, text, text_eq, text_eq_iff, truthy, Option, none, some, [], ◌∷◌, ◌++◌, All, Bool-cases,
  true, false, ◌&&◌, all, length, ◌==◌, ==_iff, ◌or_default◌, ◌≡◌, ◌≢◌, ◌↔◌, refl, sym, ap, ◌∙◌,
  subst, inl, inr, arith,
}
use you_tube_gradian_devin.Release.Patterns.{is_digit}
use you_tube_gradian_devin.Mobile.Pairing.{
  PairingUri, ParsedUrl, strip_slashes, session_of, pairing_of, pairing_if_read, parse_pairing_uri,
}

-- The text is not empty and begins with no slash.
abbrev pub IsName : Text → Type 0
IsName [] = ⊥
IsName (c ∷ rest) = c ≢ b'/'

pub record IsPairing (uri : ParsedUrl) (pairing : PairingUri) : Type 0 where
  pub slashes : Text
  pub is_guardian : uri.protocol ≡ text "guardian:"
  pub is_pair : uri.hostname ≡ text "pair"
  pub has_slashes : All (λ c. c ≡ b'/') slashes
  pub has_session : uri.pathname ≡ slashes ++ pairing.session_id
  pub session_named : IsName pairing.session_id
  pub has_child : uri.get (text "child_id") ≡ some pairing.child_id
  pub child_named : truthy pairing.child_id ≡ true
  pub has_code : uri.get (text "code") ≡ some pairing.code
  pub six : length pairing.code ≡ 6
  pub digits : all is_digit pairing.code ≡ true

other_lem : (c : ℕ) → (c == b'/') ≡ false → c ≢ b'/'
other_lem c other e = ground arith

strip_sound :
    (t : Text)
    → truthy (strip_slashes t) ≡ true
    → (slashes : Text) × All (λ c. c ≡ b'/') slashes
      × (t ≡ slashes ++ strip_slashes t)
      × IsName (strip_slashes t)
unfolding strip_slashes
strip_sound [] h = cc
strip_sound (c ∷ t) h = elim (Bool-cases (c == b'/')) [
  | inl slash ↦
      let (slashes, are, parts, named) = strip_sound t (rw slash at h) in
      (
        c ∷ slashes,
        ((==_iff c b'/').0 slash, are),
        rw slash (ap (λ r. c ∷ r) parts),
        rw slash named,
      )
  | inr other ↦ ([], tt, rw other refl, rw other (other_lem c other))
]

strip_complete :
    (slashes name : Text)
    → All (λ c. c ≡ b'/') slashes
    → IsName name
    → strip_slashes (slashes ++ name) ≡ name
unfolding strip_slashes
strip_complete [] [] h n = absurd n
strip_complete [] (c ∷ name) h n = elim (Bool-cases (c == b'/')) [
  | inl slash ↦ absurd (n ((==_iff c b'/').0 slash))
  | inr other ↦ rw other refl
]
strip_complete (c ∷ slashes) name (e, h) n =
    rw ((==_iff c b'/').1 e) (strip_complete slashes name h n)

truthy_of : (name : Text) → IsName name → truthy name ≡ true
truthy_of [] n = absurd n
truthy_of (c ∷ name) n = refl

session_sound :
    (uri : ParsedUrl)
    → truthy (session_of uri) ≡ true
    → (uri.protocol ≡ text "guardian:")
      × (uri.hostname ≡ text "pair")
      × (session_of uri ≡ strip_slashes uri.pathname)
unfolding session_of
session_sound uri h =
    elim (Bool-cases
      (text_eq uri.protocol (text "guardian:") && text_eq uri.hostname (text "pair"))) [
        | inl both_are ↦ (
          (text_eq_iff _ _).0 (ground arith),
          (text_eq_iff _ _).0 (ground arith),
          rw both_are refl,
        )
        | inr neither ↦ absurd (empty (rw neither at h))
      ]
  where
    empty : truthy [] ≡ true → ⊥
    empty e = cc

-- A parameter that is not missing or empty.
given : (o : Option Text) → truthy (o or_default []) ≡ true → o ≡ some (o or_default [])
given none h = cc
given (some t) h = refl

six_given : (o : Option Text) → length (o or_default []) ≡ 6 → o ≡ some (o or_default [])
six_given none h = absurd (omega arith)
six_given (some t) h = refl

pairing_of_sound : (uri : ParsedUrl) (r : PairingUri) → pairing_of uri ≡ some r → IsPairing uri r
unfolding pairing_of
pairing_of_sound uri r h =
    let child : Text = uri.get (text "child_id") or_default [] in
    let code : Text = uri.get (text "code") or_default [] in
    let session_given : truthy (session_of uri) ≡ true = ground arith in
    let child_given : truthy child ≡ true = ground arith in
    let six_long : length code ≡ 6 = ground arith in
    let all_digits : all is_digit code ≡ true = ground arith in
    let result : r ≡ record { session_id = session_of uri; child_id = child; code = code } =
      ground arith in
    let (g, p, s) = session_sound uri session_given in
    let (slashes, are, parts, named) = strip_sound uri.pathname (rw s at session_given) in
    subst (IsPairing uri) (sym result) (record {
      slashes = slashes;
      is_guardian = g;
      is_pair = p;
      has_slashes = are;
      has_session = parts ∙ ap (λ u. slashes ++ u) (sym s);
      session_named = subst IsName (sym s) named;
      has_child = given _ child_given;
      child_named = child_given;
      has_code = six_given _ six_long;
      six = six_long;
      digits = all_digits;
    })

session_complete :
    (uri : ParsedUrl) (r : PairingUri) → IsPairing uri r → session_of uri ≡ r.session_id
unfolding session_of
session_complete uri r h =
    let guardian : text_eq uri.protocol (text "guardian:") ≡ true =
      (text_eq_iff _ _).1 h.is_guardian in
    let pair : text_eq uri.hostname (text "pair") ≡ true = (text_eq_iff _ _).1 h.is_pair in
    let both_are : (text_eq uri.protocol (text "guardian:") && text_eq uri.hostname (text "pair"))
        ≡ true =
      ground arith in
    rw both_are (
      ap strip_slashes h.has_session
      ∙ strip_complete h.slashes r.session_id h.has_slashes h.session_named)

pairing_of_complete : (uri : ParsedUrl) (r : PairingUri) → IsPairing uri r → pairing_of uri ≡ some r
unfolding pairing_of
pairing_of_complete uri r h =
    let session = session_complete uri r h in
    let named = truthy_of r.session_id h.session_named in
    let six : (length r.code == 6) ≡ true = (==_iff (length r.code) 6).1 h.six in
    rw (session, h.has_child, h.has_code, named, h.child_named, six, h.digits) refl

-- A link is accepted exactly where it is a URL of the scheme `guardian` and the host `pair` whose
-- path is the session's name after slashes, with a child that is not empty and a code of six
-- digits; and the session, the child and the code are those of the link.
pub parse_pairing_uri_iff :
    (parse_url : Text → Option ParsedUrl) (value : Text) (r : PairingUri)
    → (parse_pairing_uri parse_url value ≡ some r)
      ↔ ((uri : ParsedUrl) × (parse_url value ≡ some uri) × IsPairing uri r)
unfolding parse_pairing_uri
parse_pairing_uri_iff parse_url value r = (
  λ h. parsed (parse_url value) refl h,
  λ (uri, e, p). ap pairing_if_read e ∙ pairing_of_complete uri r p,
)
  where
    parsed :
        (o : Option ParsedUrl)
        → parse_url value ≡ o
        → pairing_if_read o ≡ some r
        → (uri : ParsedUrl) × (parse_url value ≡ some uri) × IsPairing uri r
    parsed none e h = cc
    parsed (some uri) e h = (uri, e, pairing_of_sound uri r h)
