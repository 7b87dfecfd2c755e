-- ===== src/Mobile/Signing.antt =====
-- apps/mobile/src/api/device-signing.ts: the text that a device signs for a request.
pub mod Binding
mod Tests
use you_tube_gradian_devin.Common.{
  ℕ, ◌+◌, ◌-◌, ◌/◌, ◌%◌, Text, Option, none, some, List, [], ◌∷◌, ◌++◌, ltb, if◌then◌else◌,
}

-- `Crypto.digest` with SHA-256, `TextEncoder`, `atob` and `btoa` on bytes, the signature of
-- `@noble/ed25519`, and `toUpperCase`. `none` is a thrown error.
pub record Signer : Type 0 where
  pub sha256 : List ℕ → Option (List ℕ)
  pub utf8 : Text → List ℕ
  pub from_base64 : Text → Option (List ℕ)
  pub to_base64 : List ℕ → Text
  pub sign : (message key : List ℕ) → Option (List ℕ)
  pub upper : Text → Text

abbrev pub hex_digit : ℕ → ℕ
hex_digit n = if ltb n 10 then b'0' + n else b'a' + (n - 10)

-- `byte.toString(16).padStart(2, "0")`
unfoldable pub hex : List ℕ → Text
hex [] = []
hex (byte ∷ bytes) = hex_digit (byte / 16) ∷ hex_digit (byte % 16) ∷ hex bytes

pub record SignedRequest : Type 0 where
  pub method : Text
  pub path : Text
  pub timestamp : Text
  pub nonce : Text
  pub body : Text

-- `next` on a line of its own.
infixr 66 ◌on_line◌
abbrev pub ◌on_line◌ : Text → Text → Text
line on_line next = line ++ 10 ∷ next

module _ (signer : Signer) where
  unfoldable pub message_of : SignedRequest → List ℕ → Text
  message_of request digest =
      signer.upper request.method
      on_line (request.path on_line (request.timestamp on_line (request.nonce on_line hex digest)))

  abbrev pub sign_with : List ℕ → Option (List ℕ) → Option Text
  sign_with message none = none
  sign_with message (some key) = elim (signer.sign message key) [
    | none ↦ none
    | some signature ↦ some (signer.to_base64 signature)
  ]

  abbrev pub sign_digest : Text → SignedRequest → Option (List ℕ) → Option Text
  sign_digest private_key request none = none
  sign_digest private_key request (some digest) =
      sign_with (signer.utf8 (message_of request digest)) (signer.from_base64 private_key)

  unfoldable pub sign_device_request : Text → SignedRequest → Option Text
  sign_device_request private_key request =
      sign_digest private_key request (signer.sha256 (signer.utf8 request.body))
