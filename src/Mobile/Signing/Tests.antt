-- ===== src/Mobile/Signing/Tests.antt =====
-- The theorem on two requests that differ in their path.
use you_tube_gradian_devin.Common.{ℕ, Text, text, some, List, [], ◌∷◌, ◌≡◌, ◌↔◌, arith}
use you_tube_gradian_devin.Mobile.Signing.{Signer, SignedRequest, message_of}
use you_tube_gradian_devin.Mobile.Signing.Binding.{IsLines, message_of-eq_iff}

abbrev plain_signer : Signer
plain_signer = record {
  sha256 = λ bytes. some bytes;
  utf8 = λ t. t;
  from_base64 = λ t. some t;
  to_base64 = λ bytes. bytes;
  sign = λ message key. some message;
  upper = λ t. t;
}

abbrev request_at : Text → SignedRequest
request_at path = record {
  method = text "POST";
  path = path;
  timestamp = text "17";
  nonce = text "n";
  body = text "";
}

request-IsLines : IsLines plain_signer (request_at (text "/a"))
request-IsLines = record {
  method = omega arith;
  path = omega arith;
  timestamp = omega arith;
  nonce = omega arith;
}

other-IsLines : IsLines plain_signer (request_at (text "/b"))
other-IsLines = record {
  method = omega arith;
  path = omega arith;
  timestamp = omega arith;
  nonce = omega arith;
}

abbrev digest : List ℕ
digest = 255 ∷ 0 ∷ []

message_of-eq_iff_example :
    (message_of plain_signer (request_at (text "/a")) digest
      ≡ message_of plain_signer (request_at (text "/b")) digest)
    ↔ ((text "POST" ≡ text "POST")
        × (text "/a" ≡ text "/b")
        × (text "17" ≡ text "17")
        × (text "n" ≡ text "n")
        × (digest ≡ digest))
message_of-eq_iff_example =
    message_of-eq_iff plain_signer (request_at (text "/a")) (request_at (text "/b")) digest digest
      request-IsLines other-IsLines (omega arith) (omega arith)
