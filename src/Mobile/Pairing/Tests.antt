-- ===== src/Mobile/Pairing/Tests.antt =====
-- A link, and the theorem on it.
use you_tube_gradian_devin.Common.{Text, text, text_eq, Option, none, some, ◌≡◌, ◌↔◌, if◌then◌else◌}
use you_tube_gradian_devin.Mobile.Pairing.{PairingUri, ParsedUrl, parse_pairing_uri}
use you_tube_gradian_devin.Mobile.Pairing.Parsed.{IsPairing, parse_pairing_uri_iff}

abbrev read_link : Text → Option ParsedUrl
read_link value = some (record {
  protocol = text "guardian:";
  hostname = text "pair";
  pathname = text "/s1";
  get = λ name.
      if text_eq name (text "child_id")
      then some (text "c1")
      else if text_eq name (text "code")
      then some (text "012345")
      else none;
})

abbrev link : Text
link = text "guardian://pair/s1?child_id=c1&code=012345"

abbrev parsed_link : Option PairingUri
parsed_link = parse_pairing_uri read_link link

abbrev pairing : PairingUri
pairing = record { session_id = text "s1"; child_id = text "c1"; code = text "012345" }

parse_pairing_uri_iff_example :
    (parse_pairing_uri read_link link ≡ some pairing)
    ↔ ((uri : ParsedUrl) × (read_link link ≡ some uri) × IsPairing uri pairing)
parse_pairing_uri_iff_example = parse_pairing_uri_iff read_link link pairing
