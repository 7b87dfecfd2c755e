-- ===== src/Mobile/Session/Untouched.antt =====
-- The identity of the child's device, and the number of fetches, through the calls of the client.
use you_tube_gradian_devin.Common.{ℕ, ◌+◌, ◌≤◌, Text, Option, Bool, ◌≡◌, ◌≢◌, refl, ◌∙◌, arith}
use you_tube_gradian_devin.Common.Programs.{IsGraded}
use you_tube_gradian_devin.Mobile.Session.{
  Key, access_token, refresh_token, device_token, device_private_key, family_id, selected_child_id,
  SecureStore, IsSecureStore,
}
use you_tube_gradian_devin.Mobile.Session.Network.{RequestInit, Request, Network}
use you_tube_gradian_devin.Mobile.Session.Client.{request, logout}
use you_tube_gradian_devin.Mobile.Session.Bounds.{
  Within, Within-IsGraded, Costs, request-Goes, logout-Goes,
}

-- The keys that pair the device with a child.
abbrev pub IsDeviceKey : Key → Type 0
IsDeviceKey access_token = ⊥
IsDeviceKey refresh_token = ⊥
IsDeviceKey device_token = Unit
IsDeviceKey device_private_key = Unit
IsDeviceKey family_id = Unit
IsDeviceKey selected_child_id = Unit

ne-access_token : (k : Key) → IsDeviceKey k → k ≢ access_token
ne-access_token access_token h = elim h [ ]
ne-access_token refresh_token h = elim h [ ]
ne-access_token device_token h = λ e. cc
ne-access_token device_private_key h = λ e. cc
ne-access_token family_id h = λ e. cc
ne-access_token selected_child_id h = λ e. cc

ne-refresh_token : (k : Key) → IsDeviceKey k → k ≢ refresh_token
ne-refresh_token access_token h = elim h [ ]
ne-refresh_token refresh_token h = elim h [ ]
ne-refresh_token device_token h = λ e. cc
ne-refresh_token device_private_key h = λ e. cc
ne-refresh_token family_id h = λ e. cc
ne-refresh_token selected_child_id h = λ e. cc

-- The network, the signature and the listener do not write to the secure store.
pub record IsApart {S V : Type 0} (contents : S → Key → Option Text) (network : Network S V)
    : Type 0 where
  pub fetch_keeps :
      (r : Request) (s : S) (k : Key) → contents ((network.fetch r s).1) k ≡ contents s k
  pub prove_keeps :
      (key method : Text) (r : Request) (s : S) (k : Key)
      → contents ((network.prove key method r s).1) k ≡ contents s k
  pub expired_keeps : (s : S) (k : Key) → contents ((network.session_expired s).1) k ≡ contents s k

module _ {S V : Type 0} (store : SecureStore S) (contents : S → Key → Option Text)
    (network : Network S V) where
  abbrev SameDevice : ℕ → S → S → Type 0
  SameDevice n s t = (k : Key) → IsDeviceKey k → contents t k ≡ contents s k

  SameDevice-IsGraded : IsGraded SameDevice
  SameDevice-IsGraded = record {
    nothing = λ s k h. refl;
    and_then = λ a b s t u p q k h. q k h ∙ p k h;
    at_least = λ a b s t h p. p;
  }

  SameDevice-Costs :
      IsSecureStore store contents → IsApart contents network → Costs SameDevice store network
  SameDevice-Costs H A = record {
    gets = λ key. record { goes = λ s k h. H.get_keeps key k s };
    sets_access =
        λ v. record { goes = λ s k h. (H.sets access_token v s).others k (ne-access_token k h) };
    sets_refresh =
        λ v. record { goes = λ s k h. (H.sets refresh_token v s).others k (ne-refresh_token k h) };
    deletes_access = record {
      goes = λ s k h. (H.deletes access_token s).others k (ne-access_token k h);
    };
    deletes_refresh = record {
      goes = λ s k h. (H.deletes refresh_token s).others k (ne-refresh_token k h);
    };
    fetches = λ r. record { goes = λ s k h. A.fetch_keeps r s k };
    proves = λ key method r. record { goes = λ s k h. A.prove_keeps key method r s k };
    expires = record { goes = λ s k h. A.expired_keeps s k };
  }

  -- Where the calls of the network and the listener do not write to the secure store: however a
  -- request or a logout of the client ends, and whichever calls throw, it leaves the child's device
  -- paired. Each key of the device's identity holds what it held before, also where the parent's
  -- session is refreshed, expires or is cleared.
  pub request-SameDevice :
      IsSecureStore store contents
      → IsApart contents network
      → (path : Text) (init : RequestInit) (retry : Bool) (s : S) (k : Key) → IsDeviceKey k
      → (contents ((request store network path init retry s).1) k ≡ contents s k)
        × (contents ((logout store network s).1) k ≡ contents s k)
  request-SameDevice H A path init retry s k h =
      let C = SameDevice-Costs H A in
      (
        (request-Goes SameDevice-IsGraded store network C path init retry).goes s k h,
        (logout-Goes SameDevice-IsGraded store network C).goes s k h,
      )

-- `count` counts the fetches: one more for a fetch, none for another call.
pub record IsCount {S V : Type 0} (store : SecureStore S) (network : Network S V) (count : S → ℕ)
    : Type 0 where
  pub get_count : (k : Key) (s : S) → count ((store.get_item k s).1) ≡ count s
  pub set_count : (k : Key) (v : Text) (s : S) → count ((store.set_item k v s).1) ≡ count s
  pub delete_count : (k : Key) (s : S) → count ((store.delete_item k s).1) ≡ count s
  pub fetch_count : (r : Request) (s : S) → count ((network.fetch r s).1) ≡ count s + 1
  pub prove_count :
      (key method : Text) (r : Request) (s : S) → count ((network.prove key method r s).1) ≡ count s
  pub expired_count : (s : S) → count ((network.session_expired s).1) ≡ count s

module _ {S V : Type 0} (store : SecureStore S) (network : Network S V) (count : S → ℕ) where
  Within-Costs : IsCount store network count → Costs (Within count) store network
  Within-Costs N = record {
    gets = λ k. record { goes = λ s. omega (arith, N.get_count k s) };
    sets_access = λ v. record { goes = λ s. omega (arith, N.set_count access_token v s) };
    sets_refresh = λ v. record { goes = λ s. omega (arith, N.set_count refresh_token v s) };
    deletes_access = record { goes = λ s. omega (arith, N.delete_count access_token s) };
    deletes_refresh = record { goes = λ s. omega (arith, N.delete_count refresh_token s) };
    fetches = λ r. record { goes = λ s. omega (arith, N.fetch_count r s) };
    proves = λ key method r. record { goes = λ s. omega (arith, N.prove_count key method r s) };
    expires = record { goes = λ s. omega (arith, N.expired_count s) };
  }

  -- A request ends after at most three fetches: its own, one for the refresh of the session, and
  -- one for the retry.
  pub request-Within :
      IsCount store network count
      → (path : Text) (init : RequestInit) (retry : Bool) (s : S)
      → count ((request store network path init retry s).1) ≤ count s + 3
  request-Within N path init retry s =
      (request-Goes (Within-IsGraded count) store network (Within-Costs N) path init retry).goes s
