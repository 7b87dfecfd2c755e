-- ===== src/Mobile/Session/Tests/Carried.antt =====
-- The theorem on the credentials of an operation, at the table of the tests.
use you_tube_gradian_devin.Common.{text, true}
use you_tube_gradian_devin.Common.Programs.{Ends}
use you_tube_gradian_devin.Mobile.Session.{access_token, device_token}
use you_tube_gradian_devin.Mobile.Session.Client.{prepare}
use you_tube_gradian_devin.Mobile.Session.Tests.{
  World, table, table-IsSecureStore, paired, refusing,
}
use you_tube_gradian_devin.Mobile.Endpoints.{acknowledge_policy, Encoding, path_of, init_of}
use you_tube_gradian_devin.Mobile.Endpoints.Authenticated.{IsCarried, prepare-path_of}

abbrev plain_encoding : Encoding
plain_encoding = record {
  encode = λ t. t;
  search = λ params. text "";
  stringify = λ value. text "{}";
  now = text "1970";
  random = text "r";
}

prepare-path_of_example :
    Ends
      (λ prepared _.
        IsCarried true
          (World.items paired access_token)
          (World.items paired device_token)
          (init_of plain_encoding (acknowledge_policy 4))
          prepared)
      (λ _ _. Unit {0})
      (prepare table refusing
        (path_of plain_encoding (acknowledge_policy 4))
        (init_of plain_encoding (acknowledge_policy 4))
        paired)
prepare-path_of_example =
    prepare-path_of table World.items table-IsSecureStore refusing plain_encoding
      (acknowledge_policy 4) paired
