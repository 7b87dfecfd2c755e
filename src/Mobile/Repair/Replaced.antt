-- ===== src/Mobile/Repair/Replaced.antt =====
-- What a re-pairing leaves of the credentials in the secure store.
use you_tube_gradian_devin.Common.{Text, Option, none, ◌≡◌, refl, ◌∙◌, inl, inr, ◌⊎◌}
use you_tube_gradian_devin.Common.Programs.{
  Program, return, on_error, Ends, returned, thrown, Ends-bind, Ends-on_error, Ends-weaken,
  Ends-both, Ends-throwing,
}
use you_tube_gradian_devin.Mobile.Session.{
  Key, device_token, Failure, SecureStore, IsSecureStore, clear_device_identity,
  save_device_credentials,
}
use you_tube_gradian_devin.Mobile.Session.Cleared.{
  IsSaved, save_device_credentials-IsSaved, clear_device_identity-StaysEmpty,
  clear_device_identity-IsOldOrGone,
}
use you_tube_gradian_devin.Mobile.Session.Unpaired.{clear_device_identity-Ends}
use you_tube_gradian_devin.Mobile.Repair.{
  DeviceCredentials, Dependencies, establish, abandon, activate_child_re_pair,
}

-- A call that does not write to the secure store.
abbrev pub Keeps : {S : Type 0} → (S → Key → Option Text) → Program S Failure Unit → Type 0
Keeps {S} contents m = (s : S) (k : Key) → contents ((m s).1) k ≡ contents s k

-- The dependencies that the application passes: the session storage, and calls of the native module
-- and of the outbox, which do not write to the keys of the session storage.
pub record IsWired {S : Type 0} (store : SecureStore S) (contents : S → Key → Option Text)
    (dependencies : Dependencies S) : Type 0 where
  pub stop : Keeps contents dependencies.stop_protection
  pub native : Keeps contents dependencies.clear_native_identity
  pub outbox : Keeps contents dependencies.clear_request_outbox
  pub configure : (id : Text) → Keeps contents (dependencies.configure_native_device id)
  pub clears : dependencies.clear_credentials ≡ clear_device_identity store
  pub saves :
      (private_key family device : Text)
      → dependencies.save_credentials private_key family device
        ≡ save_device_credentials store private_key family device

module _ {S : Type 0} (store : SecureStore S) (contents : S → Key → Option Text)
    (H : IsSecureStore store contents) (dependencies : Dependencies S)
    (W : IsWired store contents dependencies) where
  abbrev HasNoToken : S → Type 0
  HasNoToken t = contents t device_token ≡ none

  token-Ends :
      (m : Program S Failure Unit)
      → Keeps contents m
      → (s : S) → HasNoToken s
      → Ends (λ _. HasNoToken) (λ _. HasNoToken) (m s)
  token-Ends m keeps s empty = Ends-both (m s) (keeps s device_token ∙ empty)

  ignored-Ends :
      (m : Program S Failure Unit) (s : S)
      → Ends (λ _. HasNoToken) (λ _. HasNoToken) (m s)
      → Ends (λ _. HasNoToken) (λ _. HasNoToken) (on_error m (λ _. return tt) s)
  ignored-Ends m s h = Ends-on_error _ h (λ e t k. returned tt t k)

  establish-Ends :
      (credentials : DeviceCredentials) (private_key : Text) (s : S)
      → HasNoToken s
      → Ends
          (λ _. IsSaved contents private_key credentials.family_id credentials.device_token)
          (λ _. HasNoToken)
          (establish dependencies credentials private_key s)
  unfolding establish
  establish-Ends credentials private_key s empty =
      Ends-bind _ (token-Ends dependencies.clear_native_identity W.native s empty) (λ _ t h.
        Ends-bind _ (token-Ends dependencies.clear_request_outbox W.outbox t h) (λ _ u k.
          Ends-bind _
            (token-Ends (dependencies.configure_native_device credentials.device_id)
              (W.configure credentials.device_id) u k)
            (λ _ v l. rw (W.saves private_key credentials.family_id credentials.device_token) (
              save_device_credentials-IsSaved store contents H private_key credentials.family_id
                credentials.device_token v l))))

  abandon-Ends :
      {Q : Unit {0} → S → Type 0} (error : Failure) (s : S)
      → HasNoToken s
      → Ends Q (λ _. HasNoToken) (abandon dependencies error s)
  unfolding abandon
  abandon-Ends error s empty =
      let cleared = ignored-Ends (clear_device_identity store) s (
        Ends-both _
          ((clear_device_identity-StaysEmpty store contents H device_token).goes s empty)) in
      Ends-bind _ (rw W.clears cleared) (λ _ t h.
        Ends-bind _
          (ignored-Ends dependencies.clear_native_identity t
            (token-Ends dependencies.clear_native_identity W.native t h))
          (λ _ u k. thrown error u k))

  stopped :
      (s : S)
      → Ends
          (λ _ t. contents t device_token ≡ contents s device_token)
          (λ _ t. (contents t device_token ≡ contents s device_token) ⊎ HasNoToken t)
          (dependencies.stop_protection s)
  stopped s =
      Ends-weaken
        (Ends-both {P = λ t. contents t device_token ≡ contents s device_token}
          (dependencies.stop_protection s) (W.stop s device_token))
        (λ _ t h. h) (λ _ t h. inl h)

  cleared-Ends :
      (s : S)
      → Ends
          (λ _. HasNoToken)
          (λ _ t. (contents t device_token ≡ contents s device_token) ⊎ HasNoToken t)
          (clear_device_identity store s)
  cleared-Ends s =
      Ends-throwing
        (Ends-weaken (clear_device_identity-Ends store contents H s)
          (λ _ t h. h device_token (inl refl)) (λ _ t h. h))
        ((clear_device_identity-IsOldOrGone store contents H device_token).goes s)

  -- Whatever the device was paired with: a re-pairing that returns has saved the new credentials,
  -- and after one that throws the store holds the token from before or none, never the new one.
  pub activate_child_re_pair-IsSaved :
      (credentials : DeviceCredentials) (private_key : Text) (s : S)
      → Ends
          (λ _. IsSaved contents private_key credentials.family_id credentials.device_token)
          (λ _ t.
            (contents t device_token ≡ contents s device_token) ⊎ (contents t device_token ≡ none))
          (activate_child_re_pair dependencies credentials private_key s)
  unfolding activate_child_re_pair
  activate_child_re_pair-IsSaved credentials private_key s = Ends-bind _ (stopped s) (λ _ t same.
      Ends-bind _
        (rw W.clears (
          Ends-weaken (cleared-Ends t) (λ _ u h. h)
            (λ _ u h. elim h [ inl old ↦ inl (old ∙ same) | inr gone ↦ inr gone ])))
        (λ _ u empty. Ends-on_error _ (establish-Ends credentials private_key u empty) (λ e v h.
          Ends-weaken {P = λ _ _. ⊥} (abandon-Ends e v h) (λ _ w no_end. elim no_end [ ])
            (λ _ w gone. inr gone))))
