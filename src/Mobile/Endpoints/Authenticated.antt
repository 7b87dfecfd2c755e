-- ===== src/Mobile/Endpoints/Authenticated.antt =====
-- Which credential the requests of the operations carry.
use you_tube_gradian_devin.Common.{
  Text, text, truthy, starts_with, Option, none, some, is_some, Bool, true, false, ◌&&◌, ◌≡◌, refl,
  ◌∙◌, if◌then◌else◌, ◌or_default◌, [], Result, ok, err,
}
use you_tube_gradian_devin.Common.Programs.{return, Ends, Ends-both, returned, thrown, Ends-bind}
use you_tube_gradian_devin.Common.Programs.Endings.{Ends-if}
use you_tube_gradian_devin.Mobile.Session.{
  Key, access_token, device_token, device_private_key, Failure, SecureStore, IsSecureStore,
}
use you_tube_gradian_devin.Mobile.Session.Network.{
  RequestInit, Request, Network, is_present, changes,
}
use you_tube_gradian_devin.Mobile.Session.Client.{
  by_device, bearer_of, Prepared, proof_with, prove_device, prepare,
}
use you_tube_gradian_devin.Mobile.Endpoints.{
  Endpoint, signup, redeem_pairing, policy, acknowledge_policy, reputation, classify_domain,
  heartbeat, ingest_events, ingest_inventory, create_request, content_approvals, push_action,
  Encoding, path_of, init_of,
}

-- The operations of a child's device; that of a push message goes where the message says.
abbrev pub is_of_device : Endpoint → Bool
is_of_device (redeem_pairing input) = true
is_of_device policy = true
is_of_device (acknowledge_policy policy_version) = true
is_of_device (reputation version) = true
is_of_device (classify_domain identifier) = true
is_of_device (heartbeat body) = true
is_of_device (ingest_events events correlation_id idempotency_key) = true
is_of_device (ingest_inventory apps) = true
is_of_device (create_request input idempotency_key) = true
is_of_device content_approvals = true
is_of_device (push_action path reason) = starts_with (text "/v1/devices") path
is_of_device _ = false

starts_with-path_of :
    (encoding : Encoding) (e : Endpoint)
    → starts_with (text "/v1/devices") (path_of encoding e) ≡ is_of_device e
unfolding path_of starts_with
starts_with-path_of encoding (signup email password) = refl
starts_with-path_of encoding _ = refl

-- What the credentials of a request are, for the tokens that the store holds.
pub record IsCarried (is_device : Bool) (access device : Option Text) (init : RequestInit)
    (prepared : Prepared) : Type 0 where
  -- The operation of a paired device carries the device's token, any other the parent's, if any.
  pub token : prepared.request.bearer ≡ (
      if is_present device && is_device then device else if is_present access then access else none)
  -- Those that change something carry the proof of a paired device, and no others.
  pub proof :
      is_some prepared.request.proof ≡ ((is_present device && is_device) && changes init.method)
  pub sends : prepared.request.init ≡ init

bearer_of-eq :
    (b : Bool) (access device : Option Text)
    → bearer_of b access device ≡ (if b then device else if is_present access then access else none)
bearer_of-eq true access device = refl
bearer_of-eq false access device = refl

module _ {S V : Type 0} (store : SecureStore S) (contents : S → Key → Option Text)
    (H : IsSecureStore store contents) (network : Network S V) where
  read_value :
      (k : Key) (s : S) (x : Result Failure (Option Text) × S)
      → ((v : Option Text) → x.0 ≡ ok v → v ≡ contents s k)
      → ((j : Key) → contents (x.1) j ≡ contents s j)
      → Ends
          (λ v t. (v ≡ contents s k) × ((j : Key) → contents t j ≡ contents s j))
          (λ _ _. Unit {0})
          x
  read_value k s (ok v, t) value keeps = returned v t (value v refl, keeps)
  read_value k s (err e, t) value keeps = thrown e t tt

  get-Ends :
      (k : Key) (s : S)
      → Ends
          (λ v t. (v ≡ contents s k) × ((j : Key) → contents t j ≡ contents s j))
          (λ _ _. Unit {0})
          (store.get_item k s)
  get-Ends k s = read_value k s (store.get_item k s) (H.get_value k s) (λ j. H.get_keeps k j s)

  Anyway : {A : Type 0} (x : Result Failure A × S) → Ends (λ _ _. Unit {0}) (λ _ _. Unit {0}) x
  Anyway x = Ends-both {P = λ _. Unit {0}} x tt

  proof_with-Ends :
      (key : Option Text) (r : Request) (s : S)
      → Ends (λ o _. is_some o ≡ true) (λ _ _. Unit {0}) (proof_with store network key r s)
  unfolding proof_with
  proof_with-Ends none r s = thrown _ s tt
  proof_with-Ends (some key) r s =
      let m = network.prove key (r.init.method or_default []) r in
      Ends-if (truthy key) _ _ s
        (λ _.
          Ends-bind (λ proof. return (some proof)) (Anyway (m s))
            (λ proof t _. returned (some proof) t refl))
        (λ _. thrown _ s tt)

  prove_device-Ends :
      (b : Bool) (r : Request) (s : S)
      → Ends (λ o _. is_some o ≡ b) (λ _ _. Unit {0}) (prove_device store network b r s)
  unfolding prove_device
  prove_device-Ends false r s = returned none s refl
  prove_device-Ends true r s =
      Ends-bind (λ key. proof_with store network key r)
        (Anyway (store.get_item device_private_key s)) (λ key t _. proof_with-Ends key r t)

  prepare-IsCarried :
      (is_device : Bool) (path : Text) (init : RequestInit) (s : S)
      → starts_with (text "/v1/devices") path ≡ is_device
      → Ends
          (λ prepared _.
            IsCarried is_device (contents s access_token) (contents s device_token) init prepared)
          (λ _ _. Unit {0})
          (prepare store network path init s)
  unfolding prepare
  prepare-IsCarried is_device path init s same =
      Ends-bind _ (get-Ends access_token s) (λ access t ha.
        Ends-bind _ (get-Ends device_token t) (λ device u hd.
          Ends-bind _ (prove_device-Ends _ _ u) (λ proof v made.
            let is_token = hd.0 ∙ ha.1 device_token in
            returned _ v (record {
              token =
                  rw (← is_token, ← ha.0, ← same)
                    (bearer_of-eq (by_device device path) access device);
              proof = rw (← is_token, ← same) made;
              sends = refl;
            }))))

-- The credentials of an operation, for the tokens that the store held: the operation of a paired
-- device carries the device's token, and each that changes something its proof too; an operation of
-- the parent never carries the device's token, and where the device is paired, no operation of the
-- device carries the parent's.
pub prepare-path_of :
    {S V : Type 0} (store : SecureStore S) (contents : S → Key → Option Text)
    → IsSecureStore store contents
    → (network : Network S V) (encoding : Encoding) (e : Endpoint) (s : S)
    → Ends
        (λ prepared _.
          IsCarried
            (is_of_device e)
            (contents s access_token)
            (contents s device_token)
            (init_of encoding e)
            prepared)
        (λ _ _. Unit {0})
        (prepare store network (path_of encoding e) (init_of encoding e) s)
prepare-path_of store contents H network encoding e s =
    prepare-IsCarried store contents H network (is_of_device e) (path_of encoding e)
      (init_of encoding e) s (starts_with-path_of encoding e)
