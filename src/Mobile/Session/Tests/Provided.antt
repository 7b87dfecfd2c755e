-- ===== src/Mobile/Session/Tests/Provided.antt =====
-- The theorems on the provider of the parent's session, at the table of the tests.
use you_tube_gradian_devin.Common.{◌⊎◌, Text, text, none, [], ◌∷◌, true, false, ◌≡◌, refl, ok, err}
use you_tube_gradian_devin.Mobile.Session.{device_private_key}
use you_tube_gradian_devin.Mobile.Session.Network.{plain_error}
use you_tube_gradian_devin.Mobile.Session.Tests.{World, table, table-IsSecureStore, paired}
use you_tube_gradian_devin.Mobile.Provider.{View, ParentCalls, start, sign_in, sign_out}
use you_tube_gradian_devin.Mobile.Provider.Kept.{IsHarmless, session_keeps_proof}
use you_tube_gradian_devin.Mobile.Provider.SignedOut.{
  Finishes, IsForgotten, sign_out-IsSignedOut, start-IsLoaded,
}

-- A service that knows one family of one child and whose logout throws.
abbrev answering : ParentCalls World Text
answering = record {
  me = λ w. (ok (text "parent"), w);
  families = λ w. (ok (record { id = text "f1" } ∷ []), w);
  children = λ id w. (ok (record { id = text "c1" } ∷ []), w);
  logout = λ w. (err (plain_error (text "offline")), w);
}

answering-IsHarmless : IsHarmless World.items answering
answering-IsHarmless = record {
  me_keeps = λ w k h. refl;
  families_keep = λ w k h. refl;
  children_keep = λ id w k h. refl;
  logout_keeps = λ w k h. refl;
}

abbrev mounted : World × View Text
mounted =
    (paired, record { parent = none; loading = true; family = none; child = none; expired = false })

session_keeps_proof_example :
    (World.items (((start table answering mounted).1).0) device_private_key
      ≡ World.items paired device_private_key)
    × (World.items
          (((sign_in table answering (record { access = text "a"; refresh = text "r" }) mounted).1
            ).0)
          device_private_key
        ≡ World.items paired device_private_key)
    × (World.items (((sign_out table answering mounted).1).0) device_private_key
        ≡ World.items paired device_private_key)
session_keeps_proof_example =
    session_keeps_proof table World.items table-IsSecureStore answering answering-IsHarmless
      (record { access = text "a"; refresh = text "r" }) mounted device_private_key tt

sign_out-IsSignedOut_example :
    Finishes table World.items table-IsSecureStore answering mounted
      (answering.logout paired)
      (sign_out table answering mounted)
sign_out-IsSignedOut_example =
    sign_out-IsSignedOut table World.items table-IsSecureStore answering mounted

start-IsLoaded_example :
    let t = (start table answering mounted).1 in
    (t.1.loading ≡ false)
    × ((t.1.expired ≡ false) ⊎ IsForgotten table World.items table-IsSecureStore answering t)
start-IsLoaded_example = start-IsLoaded table World.items table-IsSecureStore answering mounted
