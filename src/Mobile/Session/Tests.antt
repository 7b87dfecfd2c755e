-- ===== src/Mobile/Session/Tests.antt =====
-- A store that is a table whose next calls may throw, a network that refuses the first request, and
-- the theorems on them.
mod Repaired
mod Provided
mod Carried
mod Recovered
use you_tube_gradian_devin.Common.{
  ℕ, ◌+◌, ◌≤◌, Text, text, Option, none, some, List, [], ◌∷◌, Bool, true, false, ◌≡◌, ◌≢◌, refl,
  Result, ok, err,
}
use you_tube_gradian_devin.Common.Programs.{Program, Ends}
use you_tube_gradian_devin.Mobile.Session.{
  Key, access_token, refresh_token, device_token, Failure, SecureStore, Stores, IsSecureStore,
  save_device_credentials,
}
use you_tube_gradian_devin.Mobile.Session.Network.{RequestInit, Network, plain_error}
use you_tube_gradian_devin.Mobile.Session.Client.{request, logout}
use you_tube_gradian_devin.Mobile.Session.Cleared.{
  Key-discrete, IsSaved, save_device_credentials-IsSaved,
}
use you_tube_gradian_devin.Mobile.Session.Untouched.{
  IsApart, IsCount, request-SameDevice, request-Within,
}

record World : Type 0 where
  items : Key → Option Text
  -- Whether each of the next writes throws.
  faults : List Bool
  fetched : ℕ

abbrev if_same : {j k : Key} → Dec (j ≡ k) → Option Text → Option Text → Option Text
if_same (yes e) v other = v
if_same (no ne) v other = other

abbrev update : Key → Option Text → (Key → Option Text) → Key → Option Text
update k v items j = if_same (Key-discrete j k) v (items j)

abbrev write_with : Key → Option Text → World → List Bool → Result Failure Unit × World
write_with k v w [] = (ok tt, record w { items = update k v w.items })
write_with k v w (true ∷ faults) = (err (plain_error (text "locked")), record w { faults = faults })
write_with k v w (false ∷ faults) =
    (ok tt, record w { items = update k v w.items; faults = faults })

abbrev write : Key → Option Text → Program World Failure Unit
write k v w = write_with k v w w.faults

abbrev table : SecureStore World
table = record {
  get_item = λ k w. (ok (w.items k), w);
  set_item = λ k v. write k (some v);
  delete_item = λ k. write k none;
}

if_same_yes : {j k : Key} (d : Dec (j ≡ k)) (v other : Option Text) → j ≡ k → if_same d v other ≡ v
if_same_yes (yes e) v other h = refl
if_same_yes (no ne) v other h = elim (ne h) [ ]

if_same_no :
    {j k : Key} (d : Dec (j ≡ k)) (v other : Option Text) → j ≢ k → if_same d v other ≡ other
if_same_no (yes e) v other h = elim (h e) [ ]
if_same_no (no ne) v other h = refl

write-Stores :
    (k : Key) (v : Option Text) (w : World) (faults : List Bool)
    → Stores World.items k v w (write_with k v w faults)
write-Stores k v w [] = record {
  others = λ j ne. if_same_no (Key-discrete j k) v (w.items j) ne;
  stored = λ u e. if_same_yes (Key-discrete k k) v (w.items k) refl;
  failed = λ e h. cc;
}
write-Stores k v w (true ∷ faults) = record {
  others = λ j ne. refl;
  stored = λ u e. cc;
  failed = λ e h j. refl;
}
write-Stores k v w (false ∷ faults) = record {
  others = λ j ne. if_same_no (Key-discrete j k) v (w.items j) ne;
  stored = λ u e. if_same_yes (Key-discrete k k) v (w.items k) refl;
  failed = λ e h. cc;
}

table-IsSecureStore : IsSecureStore table World.items
table-IsSecureStore = record {
  get_keeps = λ k j w. refl;
  get_value = λ k w v e. cc;
  sets = λ k v w. write-Stores k (some v) w w.faults;
  deletes = λ k w. write-Stores k none w w.faults;
}

-- The first request is refused, and so is the refresh: the session expires.
abbrev refusing : Network World Text
refusing = record {
  fetch = λ r w. (
    ok (record { status = 401; message = none; value = none }),
    record w { fetched = w.fetched + 1 },
  );
  prove = λ key method r w. (ok (record { timestamp = []; nonce = []; signature = [] }), w);
  to_tokens = λ v. record { access = v; refresh = v };
  refresh_body = λ token. token;
  session_expired = λ w. (ok tt, w);
}

abbrev paired : World
paired = record {
  items = update access_token (some (text "parent")) (
      update refresh_token (some (text "again"))
        (update device_token (some (text "child")) (λ k. none)));
  faults = [];
  fetched = 0;
}

abbrev get_init : RequestInit
get_init = record { method = none; body = none; headers = [] }

abbrev unpaired : World
unpaired = record { items = λ k. none; faults = false ∷ false ∷ true ∷ true ∷ []; fetched = 0 }

refusing-IsApart : IsApart World.items refusing
refusing-IsApart = record {
  fetch_keeps = λ r w k. refl;
  prove_keeps = λ key method r w k. refl;
  expired_keeps = λ w k. refl;
}

write-count :
    (k : Key) (v : Option Text) (w : World) (faults : List Bool)
    → ((write_with k v w faults).1).fetched ≡ w.fetched
write-count k v w [] = refl
write-count k v w (true ∷ faults) = refl
write-count k v w (false ∷ faults) = refl

refusing-IsCount : IsCount table refusing World.fetched
refusing-IsCount = record {
  get_count = λ k w. refl;
  set_count = λ k v w. write-count k (some v) w w.faults;
  delete_count = λ k w. write-count k none w w.faults;
  fetch_count = λ r w. refl;
  prove_count = λ key method r w. refl;
  expired_count = λ w. refl;
}

request-SameDevice_example :
    (((request table refusing (text "/v1/families") get_init true paired).1).items device_token
      ≡ paired.items device_token)
    × (((logout table refusing paired).1).items device_token ≡ paired.items device_token)
request-SameDevice_example =
    request-SameDevice table World.items refusing table-IsSecureStore refusing-IsApart
      (text "/v1/families") get_init true paired device_token tt

-- The writes of the token and then of the clean-up throw.
save_device_credentials-IsSaved_example :
    Ends
      (λ _. IsSaved World.items (text "key") (text "family") (text "token"))
      (λ _ t. World.items t device_token ≡ none)
      (save_device_credentials table (text "key") (text "family") (text "token") unpaired)
save_device_credentials-IsSaved_example =
    save_device_credentials-IsSaved table World.items table-IsSecureStore (text "key")
      (text "family") (text "token") unpaired refl
