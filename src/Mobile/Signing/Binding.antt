-- ===== src/Mobile/Signing/Binding.antt =====
-- What a signature of a request binds.
use you_tube_gradian_devin.Common.{
  ℕ, ◌/◌, ◌%◌, ◌<◌, Text, List, [], ◌∷◌, All, ◌≡◌, ◌≢◌, ◌↔◌, refl, ap, ◌∙◌, arith,
}
use you_tube_gradian_devin.Mobile.Signing.{
  Signer, hex_digit, hex, SignedRequest, ◌on_line◌, message_of,
}

-- The text has no line feed.
abbrev pub IsLine : Text → Type 0
IsLine = All (λ c. c ≢ 10)

line_injective :
    (a b s t : Text) → IsLine a → IsLine b → a on_line s ≡ b on_line t → (a ≡ b) × (s ≡ t)
line_injective [] [] s t h k e = (refl, cc)
line_injective [] (d ∷ b) s t h (ne, k) e = absurd (ne (cc))
line_injective (c ∷ a) [] s t (ne, h) k e = absurd (ne (cc))
line_injective (c ∷ a) (d ∷ b) s t (_, h) (_, k) e =
    let head : c ≡ d = cc in
    let rest : a on_line s ≡ b on_line t = cc in
    let (same, after) = line_injective a b s t h k rest in
    (ap (λ x. x ∷ a) head ∙ ap (λ x. d ∷ x) same, after)

hex_digit_injective : (m n : ℕ) → m < 16 → n < 16 → hex_digit m ≡ hex_digit n → m ≡ n
hex_digit_injective m n h k e = ground arith

abbrev pub IsBytes : List ℕ → Type 0
IsBytes = All (λ byte. byte < 256)

hex_injective : (s t : List ℕ) → IsBytes s → IsBytes t → hex s ≡ hex t → s ≡ t
unfolding hex
hex_injective [] [] h k e = refl
hex_injective [] (d ∷ t) h k e = cc
hex_injective (c ∷ s) [] h k e = cc
hex_injective (c ∷ s) (d ∷ t) (c_byte, h) (d_byte, k) e =
    let high : hex_digit (c / 16) ≡ hex_digit (d / 16) = cc in
    let low : hex_digit (c % 16) ≡ hex_digit (d % 16) = cc in
    let rest : hex s ≡ hex t = cc in
    let same_high = hex_digit_injective (c / 16) (d / 16) (omega arith) (omega arith) high in
    let same_low = hex_digit_injective (c % 16) (d % 16) (omega arith) (omega arith) low in
    ap (λ x. x ∷ s) (omega (arith, same_high, same_low))
    ∙ ap (λ x. d ∷ x) (hex_injective s t h k rest)

-- The parts of a request that the text has are lines.
pub record IsLines (signer : Signer) (request : SignedRequest) : Type 0 where
  pub method : IsLine (signer.upper request.method)
  pub path : IsLine request.path
  pub timestamp : IsLine request.timestamp
  pub nonce : IsLine request.nonce

-- Of requests whose method, path, timestamp and nonce have no line feed, two are signed as the same
-- text exactly where these are the same, the method without regard to case, and so are the digests
-- of their bodies: a signature is for one method, path, time, nonce and body's digest alone.
pub message_of-eq_iff :
    (signer : Signer) (r q : SignedRequest) (d e : List ℕ)
    → IsLines signer r
    → IsLines signer q
    → IsBytes d
    → IsBytes e
    → (message_of signer r d ≡ message_of signer q e) ↔ (
        (signer.upper r.method ≡ signer.upper q.method)
        × (r.path ≡ q.path)
        × (r.timestamp ≡ q.timestamp)
        × (r.nonce ≡ q.nonce)
        × (d ≡ e))
unfolding message_of
message_of-eq_iff signer r q d e lr lq bd be = (
  λ same.
      let (m, s1) = line_injective _ _ _ _ lr.method lq.method same in
      let (p, s2) = line_injective _ _ _ _ lr.path lq.path s1 in
      let (t, s3) = line_injective _ _ _ _ lr.timestamp lq.timestamp s2 in
      let (n, s4) = line_injective _ _ _ _ lr.nonce lq.nonce s3 in
      (m, p, t, n, hex_injective d e bd be s4),
  λ (m, p, t, n, s). cc,
)
