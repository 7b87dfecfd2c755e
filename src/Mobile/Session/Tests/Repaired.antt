-- ===== src/Mobile/Session/Tests/Repaired.antt =====
-- The theorems on the clearing of the identity and on a new pairing, at the table of the tests.
use you_tube_gradian_devin.Common.{text, none, ◌≡◌, refl, ◌⊎◌, ok, err}
use you_tube_gradian_devin.Common.Programs.{Ends}
use you_tube_gradian_devin.Mobile.Session.{
  device_token, clear_device_identity, save_device_credentials,
}
use you_tube_gradian_devin.Mobile.Session.Cleared.{IsSaved}
use you_tube_gradian_devin.Mobile.Session.Network.{plain_error}
use you_tube_gradian_devin.Mobile.Session.Tests.{World, table, table-IsSecureStore, paired}
use you_tube_gradian_devin.Mobile.Repair.{DeviceCredentials, Dependencies, activate_child_re_pair}
use you_tube_gradian_devin.Mobile.Repair.Replaced.{IsWired, activate_child_re_pair-IsSaved}

-- The native module refuses the new device.
abbrev wired : Dependencies World
wired = record {
  stop_protection = λ w. (ok tt, w);
  clear_native_identity = λ w. (ok tt, w);
  clear_request_outbox = λ w. (ok tt, w);
  configure_native_device = λ id w. (err (plain_error (text "no device")), w);
  clear_credentials = clear_device_identity table;
  save_credentials = save_device_credentials table;
}

wired-IsWired : IsWired table World.items wired
wired-IsWired = record {
  stop = λ w k. refl;
  native = λ w k. refl;
  outbox = λ w k. refl;
  configure = λ id w k. refl;
  clears = refl;
  saves = λ private_key family device. refl;
}

abbrev credentials : DeviceCredentials
credentials = record { device_id = text "d2"; device_token = text "t2"; family_id = text "f2" }

activate_child_re_pair-IsSaved_example :
    Ends
      (λ _. IsSaved World.items (text "key") credentials.family_id credentials.device_token)
      (λ _ t.
        (World.items t device_token ≡ World.items paired device_token)
        ⊎ (World.items t device_token ≡ none))
      (activate_child_re_pair wired credentials (text "key") paired)
activate_child_re_pair-IsSaved_example =
    activate_child_re_pair-IsSaved table World.items table-IsSecureStore wired wired-IsWired
      credentials (text "key") paired
