-- ===== src/Mobile/Session.antt =====
-- `sessionStorage` of apps/mobile/src/api/client.ts, on a secure store whose calls may throw.
pub mod Network
pub mod Client
pub mod Bounds
pub mod Untouched
pub mod Cleared
pub mod Unpaired
mod Tests
use you_tube_gradian_devin.Common.{
  ℕ, Text, Option, none, some, List, [], ◌∷◌, ◌≡◌, ◌≢◌, Result, ok, err,
}
use you_tube_gradian_devin.Common.Programs.{Program, return, throw, ◌>>=◌, ◌>>◌, on_error, settled}

pub data Key : Type 0 where
  access_token refresh_token device_token device_private_key family_id selected_child_id : Key

-- A thrown `Error`: `ApiError`, `GeneratedGuardianError`, or one that the platform throws.
pub record Failure : Type 0 where
  pub message : Text
  pub status : Option ℕ
  pub code : Option Text

pub record Tokens : Type 0 where
  pub access : Text
  pub refresh : Text

-- `expo-secure-store`.
pub record SecureStore (S : Type 0) : Type 0 where
  pub get_item : Key → Program S Failure (Option Text)
  pub set_item : Key → Text → Program S Failure Unit
  pub delete_item : Key → Program S Failure Unit

-- How a call on the key `k` that stores `v` ends: the other keys keep what they hold, and all do
-- where the call throws.
pub record Stores {S : Type 0} (contents : S → Key → Option Text) (k : Key) (v : Option Text)
    (s : S) (x : Result Failure Unit × S) : Type 0 where
  pub others : (j : Key) → j ≢ k → contents (x.1) j ≡ contents s j
  pub stored : (u : Unit) → x.0 ≡ ok u → contents (x.1) k ≡ v
  pub failed : (e : Failure) → x.0 ≡ err e → (j : Key) → contents (x.1) j ≡ contents s j

-- What the secure store documents: a key-value store, each of whose calls may throw.
pub record IsSecureStore {S : Type 0} (store : SecureStore S) (contents : S → Key → Option Text)
    : Type 0 where
  pub get_keeps : (k j : Key) (s : S) → contents ((store.get_item k s).1) j ≡ contents s j
  pub get_value :
      (k : Key) (s : S) (v : Option Text) → (store.get_item k s).0 ≡ ok v → v ≡ contents s k
  pub sets : (k : Key) (v : Text) (s : S) → Stores contents k (some v) s (store.set_item k v s)
  pub deletes : (k : Key) (s : S) → Stores contents k none s (store.delete_item k s)

-- `DEVICE_IDENTITY_KEYS`
abbrev pub device_identity_keys : List Key
device_identity_keys = device_token ∷ device_private_key ∷ family_id ∷ selected_child_id ∷ []

-- `results.find((result) => result.status === "rejected")`, whose reason is thrown.
unfoldable pub throw_first : {S : Type 0} → List (Result Failure Unit) → Program S Failure Unit
throw_first [] = return tt
throw_first (ok u ∷ results) = throw_first results
throw_first (err e ∷ results) = throw e

module _ {S : Type 0} (store : SecureStore S) where
  unfoldable pub set_tokens : Tokens → Program S Failure Unit
  set_tokens tokens = do
    store.set_item access_token tokens.access
    store.set_item refresh_token tokens.refresh

  unfoldable pub clear_parent_session : Program S Failure Unit
  clear_parent_session = do store.delete_item access_token; store.delete_item refresh_token

  -- `Promise.allSettled(keys.map((key) => SecureStore.deleteItemAsync(key)))`
  unfoldable pub delete_all : List Key → Program S Failure (List (Result Failure Unit))
  delete_all [] = return []
  delete_all (key ∷ keys) = do
    result ← settled (store.delete_item key)
    results ← delete_all keys
    return (result ∷ results)

  unfoldable pub clear_device_identity : Program S Failure Unit
  clear_device_identity = do results ← delete_all device_identity_keys; throw_first results

  unfoldable pub clear : Program S Failure Unit
  clear = do clear_parent_session; clear_device_identity

  unfoldable pub save_device_credentials :
      (private_key family device : Text) → Program S Failure Unit
  save_device_credentials private_key family device =
      on_error
        (do
          store.set_item device_private_key private_key
          store.set_item family_id family
          store.set_item device_token device)
        (λ error. do on_error clear_device_identity (λ _. return tt); throw error)
