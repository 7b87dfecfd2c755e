-- ===== src/Mobile/Session/Cleared.antt =====
-- What `sessionStorage` of apps/mobile/src/api/client.ts leaves behind when its calls throw.
use you_tube_gradian_devin.Common.{
  ◌⊎◌, inl, inr, ℕ, Text, ap, Option, none, some, List, [], ◌∷◌, ◌≡◌, ◌≢◌, refl, ◌∙◌, Result, ok,
  err,
}
use you_tube_gradian_devin.Common.Programs.{
  return, on_error, Goes, IsGraded, Goes-return, Goes-throw, Goes-bind, Goes-settled, Ends-both,
  Ends, returned, thrown, Ends-bind, Ends-on_error, Ends-weaken,
}
use you_tube_gradian_devin.Mobile.Session.{
  Key, device_token, device_private_key, family_id, Failure, SecureStore, Stores, IsSecureStore,
  throw_first, delete_all, clear_device_identity, save_device_credentials,
}

pub Key-discrete : Discrete Key
Key-discrete = hlevel

abbrev pub IsSaved : {S : Type 0} → (S → Key → Option Text) → Text → Text → Text → S → Type 0
IsSaved contents private_key family device t =
    (contents t device_private_key ≡ some private_key)
    × (contents t family_id ≡ some family)
    × (contents t device_token ≡ some device)

module _ {S : Type 0} (store : SecureStore S) {Rel : ℕ → S → S → Type 0} (G : IsGraded Rel)
    (deletes : (key : Key) → Goes Rel 0 (store.delete_item key)) where
  delete_all-Goes : (keys : List Key) → Goes Rel 0 (delete_all store keys)
  unfolding delete_all
  delete_all-Goes [] = Goes-return G []
  delete_all-Goes (key ∷ keys) =
      Goes-bind G (Goes-settled (deletes key))
        (λ result. Goes-bind G (delete_all-Goes keys) (λ results. Goes-return G (result ∷ results)))

  throw_first-Goes :
      (results : List (Result Failure Unit)) → Goes Rel 0 (throw_first {S = S} results)
  unfolding throw_first
  throw_first-Goes [] = Goes-return G tt
  throw_first-Goes (ok u ∷ results) = throw_first-Goes results
  throw_first-Goes (err e ∷ results) = Goes-throw G e

  pub clear_device_identity-Goes : Goes Rel 0 (clear_device_identity store)
  unfolding clear_device_identity
  clear_device_identity-Goes = Goes-bind G (delete_all-Goes _) throw_first-Goes

module _ {S : Type 0} (store : SecureStore S) (contents : S → Key → Option Text)
    (H : IsSecureStore store contents) where
  abbrev pub Unchanged : S → S → Type 0
  Unchanged s t = (j : Key) → contents t j ≡ contents s j

  abbrev pub Changed : Key → Option Text → S → S → Type 0
  Changed k v s t = (contents t k ≡ v) × ((j : Key) → j ≢ k → contents t j ≡ contents s j)

  pub call-Ends :
      {k : Key} {v : Option Text} {s : S} (x : Result Failure Unit × S)
      → Stores contents k v s x
      → Ends (λ _ t. Changed k v s t) (λ _ t. Unchanged s t) x
  call-Ends (ok u, t) h = returned u t (h.stored u refl, h.others)
  call-Ends (err e, t) h = thrown e t (h.failed e refl)

  pub set-Ends :
      (k : Key) (v : Text) (s : S)
      → Ends (λ _ t. Changed k (some v) s t) (λ _ t. Unchanged s t) (store.set_item k v s)
  set-Ends k v s = call-Ends _ (H.sets k v s)

  -- A key that holds nothing is not filled.
  abbrev pub StaysEmpty : Key → ℕ → S → S → Type 0
  StaysEmpty k n s t = contents s k ≡ none → contents t k ≡ none

  StaysEmpty-IsGraded : (k : Key) → IsGraded (StaysEmpty k)
  StaysEmpty-IsGraded k = record {
    nothing = λ s h. h;
    and_then = λ a b s t u p q h. q (p h);
    at_least = λ a b s t le p. p;
  }

  call-StaysEmpty :
      {j k : Key} {s : S} (x : Result Failure Unit × S)
      → Dec (k ≡ j)
      → Stores contents j none s x
      → contents s k ≡ none
      → contents (x.1) k ≡ none
  call-StaysEmpty (ok u, t) (yes e) h empty = ap (contents t) e ∙ h.stored u refl
  call-StaysEmpty {k} (ok u, t) (no ne) h empty = h.others k ne ∙ empty
  call-StaysEmpty {k} (err e, t) d h empty = h.failed e refl k ∙ empty

  delete_item-StaysEmpty : (k key : Key) → Goes (StaysEmpty k) 0 (store.delete_item key)
  delete_item-StaysEmpty k key = record {
    goes = λ s. call-StaysEmpty _ (Key-discrete k key) (H.deletes key s);
  }

  pub delete_all-StaysEmpty :
      (k : Key) (keys : List Key) → Goes (StaysEmpty k) 0 (delete_all store keys)
  delete_all-StaysEmpty k = delete_all-Goes store (StaysEmpty-IsGraded k) (delete_item-StaysEmpty k)

  pub clear_device_identity-StaysEmpty :
      (k : Key) → Goes (StaysEmpty k) 0 (clear_device_identity store)
  clear_device_identity-StaysEmpty k =
      clear_device_identity-Goes store (StaysEmpty-IsGraded k) (delete_item-StaysEmpty k)

  -- A key holds what it held, or nothing.
  abbrev pub IsOldOrGone : Key → ℕ → S → S → Type 0
  IsOldOrGone k n s t = (contents t k ≡ contents s k) ⊎ (contents t k ≡ none)

  IsOldOrGone-IsGraded : (k : Key) → IsGraded (IsOldOrGone k)
  IsOldOrGone-IsGraded k = record {
    nothing = λ s. inl refl;
    and_then = λ a b s t u p q. elim q [
      | inr gone ↦ inr gone
      | inl kept ↦ elim p [ inl old ↦ inl (kept ∙ old) | inr gone ↦ inr (kept ∙ gone) ]
    ];
    at_least = λ a b s t le p. p;
  }

  call-IsOldOrGone :
      {j k : Key} {s : S} (x : Result Failure Unit × S)
      → Dec (k ≡ j)
      → Stores contents j none s x
      → IsOldOrGone k 0 s (x.1)
  call-IsOldOrGone (ok u, t) (yes e) h = inr (ap (contents t) e ∙ h.stored u refl)
  call-IsOldOrGone {k} (ok u, t) (no ne) h = inl (h.others k ne)
  call-IsOldOrGone {k} (err e, t) d h = inl (h.failed e refl k)

  pub clear_device_identity-IsOldOrGone :
      (k : Key) → Goes (IsOldOrGone k) 0 (clear_device_identity store)
  clear_device_identity-IsOldOrGone k =
      clear_device_identity-Goes store (IsOldOrGone-IsGraded k)
        (λ key. record { goes = λ s. call-IsOldOrGone _ (Key-discrete k key) (H.deletes key s) })

  abbrev HasNoToken : S → Type 0
  HasNoToken t = contents t device_token ≡ none

  ignored_clear-Ends :
      (s : S)
      → HasNoToken s
      → Ends
          (λ _. HasNoToken)
          (λ _. HasNoToken)
          (on_error (clear_device_identity store) (λ _. return tt) s)
  ignored_clear-Ends s empty =
      Ends-on_error _ (Ends-both _ ((clear_device_identity-StaysEmpty device_token).goes s empty))
        (λ e t h. returned tt t h)

  private_key_saved :
      (private_key : Text) (s : S)
      → HasNoToken s
      → Ends
          (λ _ t. (contents t device_private_key ≡ some private_key) × HasNoToken t)
          (λ _. HasNoToken)
          (store.set_item device_private_key private_key s)
  private_key_saved private_key s empty =
      Ends-weaken (set-Ends device_private_key private_key s)
        (λ _ t h. (h.0, h.1 device_token (λ e. cc) ∙ empty)) (λ _ t h. h device_token ∙ empty)

  family_saved :
      (private_key family : Text) (s : S)
      → (contents s device_private_key ≡ some private_key) × HasNoToken s
      → Ends
          (λ _ t.
            (contents t device_private_key ≡ some private_key)
            × (contents t family_id ≡ some family)
            × HasNoToken t)
          (λ _. HasNoToken)
          (store.set_item family_id family s)
  family_saved private_key family s (kept, empty) =
      Ends-weaken (set-Ends family_id family s)
        (λ _ t h.
          (h.1 device_private_key (λ e. cc) ∙ kept, h.0, h.1 device_token (λ e. cc) ∙ empty))
        (λ _ t h. h device_token ∙ empty)

  token-IsSaved :
      (private_key family device : Text) (s : S)
      → (contents s device_private_key ≡ some private_key)
        × (contents s family_id ≡ some family)
        × HasNoToken s
      → Ends
          (λ _. IsSaved contents private_key family device)
          (λ _. HasNoToken)
          (store.set_item device_token device s)
  token-IsSaved private_key family device s (kept, kept_family, empty) =
      Ends-weaken (set-Ends device_token device s)
        (λ _ t h.
          (h.1 device_private_key (λ e. cc) ∙ kept, h.1 family_id (λ e. cc) ∙ kept_family, h.0))
        (λ _ t h. h device_token ∙ empty)

  -- On a device without a token, the credentials are all saved where the call returns, and where it
  -- throws there is no token, whichever calls of the store have thrown, those of the clean-up
  -- included: a token never stands without the key and the family that belong to it.
  pub save_device_credentials-IsSaved :
      (private_key family device : Text) (s : S)
      → contents s device_token ≡ none
      → Ends
          (λ _. IsSaved contents private_key family device)
          (λ _ t. contents t device_token ≡ none)
          (save_device_credentials store private_key family device s)
  unfolding save_device_credentials
  save_device_credentials-IsSaved private_key family device s empty =
      Ends-on_error _
        (Ends-bind _ (private_key_saved private_key s empty) (λ _ t h.
          Ends-bind _ (family_saved private_key family t h)
            (λ _ u k. token-IsSaved private_key family device u k)))
        (λ e t h. Ends-bind _ (ignored_clear-Ends t h) (λ _ u k. thrown e u k))
