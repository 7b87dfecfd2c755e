-- ===== src/Mobile/Pairing.antt =====
-- apps/mobile/src/state/pairing-uri.ts and apps/mobile/src/state/pairing.ts: the link that pairs a
-- child's device, and what the screen says of an attempt.
pub mod Parsed
mod Tests
use you_tube_gradian_devin.Common.{
  ℕ, suc, Text, text, text_eq, truthy, Option, none, some, List, [], ◌∷◌, ◌++◌, Bool, Bool-cases,
  true, false, ◌&&◌, ◌||◌, not, all, length, leb, ◌==◌, if◌then◌else◌, ◌or_default◌, ◌≡◌, refl, sym,
  ap, ◌∙◌, inl, inr, arith,
}
use you_tube_gradian_devin.Release.Patterns.{is_digit}

pub record PairingUri : Type 0 where
  pub session_id : Text
  pub child_id : Text
  pub code : Text

-- A URL that `new URL` has read; `get` is that of its search parameters.
pub record ParsedUrl : Type 0 where
  pub protocol : Text
  pub hostname : Text
  pub pathname : Text
  pub get : Text → Option Text

-- `.replace(/^\/+/, "")`
unfoldable pub strip_slashes : Text → Text
strip_slashes [] = []
strip_slashes (c ∷ path) = let rest = strip_slashes path in if c == b'/' then rest else c ∷ path

-- `/^\d{6}$/`
abbrev pub is_code : Text → Bool
is_code code = length code == 6 && all is_digit code

unfoldable pub session_of : ParsedUrl → Text
session_of uri =
    if text_eq uri.protocol (text "guardian:") && text_eq uri.hostname (text "pair")
    then strip_slashes uri.pathname
    else []

unfoldable pub pairing_of : ParsedUrl → Option PairingUri
pairing_of uri =
    let session_id = session_of uri in
    let child_id = uri.get (text "child_id") or_default [] in
    let code = uri.get (text "code") or_default [] in
    if not (truthy session_id) || (not (truthy child_id) || not (is_code code))
    then none
    else some (record { session_id = session_id; child_id = child_id; code = code })

abbrev pub pairing_if_read : Option ParsedUrl → Option PairingUri
pairing_if_read none = none
pairing_if_read (some uri) = pairing_of uri

-- `parse_url` is `new URL`, where `none` is an error.
unfoldable pub parse_pairing_uri : (parse_url : Text → Option ParsedUrl) → Text → Option PairingUri
parse_pairing_uri parse_url value = pairing_if_read (parse_url value)

pub data PairingAttempt : Type 0 where
  expired revoked accepted : PairingAttempt
  wrong_code : (attempts : ℕ) → PairingAttempt

unfoldable pub pairing_message : PairingAttempt → Text
pairing_message expired = text "This pairing code has expired."
pairing_message revoked = text "This device has been revoked."
pairing_message (wrong_code attempts) =
    if leb 5 attempts
    then text "Too many incorrect codes. Create a new pairing session."
    else text "That code is incorrect."
pairing_message accepted = text "Device paired."
