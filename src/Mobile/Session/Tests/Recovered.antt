-- ===== src/Mobile/Session/Tests/Recovered.antt =====
-- The theorem on the reset of a revoked device, at the table of the tests with a role beside it.
use you_tube_gradian_devin.Common.{Text, text, Option, none, some, ◌≡◌, refl, In, Result, ok, err}
use you_tube_gradian_devin.Common.Programs.{Ends, returned}
use you_tube_gradian_devin.Mobile.Session.{
  Key, Failure, SecureStore, Stores, IsSecureStore, device_identity_keys,
}
use you_tube_gradian_devin.Mobile.Session.Network.{plain_error}
use you_tube_gradian_devin.Mobile.Session.Tests.{World, table, table-IsSecureStore, paired}
use you_tube_gradian_devin.Mobile.Recovery.{
  RoleItem, Protection, IsRoleItem, clear_revoked_child_device, clear_revoked_child_device-Ends,
}

abbrev Device : Type 0
Device = World × Option Text

abbrev beside : {A : Type 0} → Option Text → Result Failure A × World → Result Failure A × Device
beside role (r, w) = (r, (w, role))

abbrev items : Device → Key → Option Text
items (w, role) = World.items w

abbrev role : Device → Option Text
role (w, r) = r

abbrev device_table : SecureStore Device
device_table = record {
  get_item = λ k d. beside (d.1) (table.get_item k (d.0));
  set_item = λ k v d. beside (d.1) (table.set_item k v (d.0));
  delete_item = λ k d. beside (d.1) (table.delete_item k (d.0));
}

beside-Stores :
    (r : Option Text) (k : Key) (v : Option Text) (w : World) (x : Result Failure Unit × World)
    → Stores World.items k v w x
    → Stores items k v (w, r) (beside r x)
beside-Stores r k v w (result, t) h = record {
  others = λ j ne. h.others j ne;
  stored = λ u e. h.stored u e;
  failed = λ error e j. h.failed error e j;
}

device_table-IsSecureStore : IsSecureStore device_table items
device_table-IsSecureStore = record {
  get_keeps = λ k j d. refl;
  get_value = λ k d v e. cc;
  sets = λ k v (w, r). beside-Stores r k (some v) w _ (table-IsSecureStore.sets k v w);
  deletes = λ k (w, r). beside-Stores r k none w _ (table-IsSecureStore.deletes k w);
}

abbrev role_item : RoleItem Device
role_item = record {
  get_item = λ d. (ok (d.1), d);
  set_item = λ v d. (ok tt, (d.0, some v));
  delete_item = λ d. (ok tt, (d.0, none));
}

-- The native module does not stop.
abbrev stuck : Protection Device
stuck = record {
  stop_protection = λ d. (err (plain_error (text "stuck")), d);
  clear_child_identity = λ d. (ok tt, d);
}

role_item-IsRoleItem : IsRoleItem device_table items role_item role stuck
role_item-IsRoleItem = record {
  deletes = λ d. returned tt (d.0, none) (refl, λ k. refl);
  others_keep = λ k d. refl;
  stop_keeps = λ d. refl;
  clear_keeps = λ d. refl;
}

abbrev revoked : Device
revoked = (paired, some (text "child"))

clear_revoked_child_device-Ends_example :
    Ends
      (λ _ t. ((k : Key) → In k device_identity_keys → items t k ≡ none) × (role t ≡ none))
      (λ _ t. role t ≡ some (text "child"))
      (clear_revoked_child_device role_item device_table stuck revoked)
clear_revoked_child_device-Ends_example =
    clear_revoked_child_device-Ends device_table items device_table-IsSecureStore role_item role
      stuck role_item-IsRoleItem revoked
