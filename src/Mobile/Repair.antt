-- ===== src/Mobile/Repair.antt =====
-- apps/mobile/src/state/child-repair.ts: a device is paired with another child, on the session
-- storage of apps/mobile/src/api/client.ts.
pub mod Replaced
use you_tube_gradian_devin.Common.{Text}
use you_tube_gradian_devin.Common.Programs.{Program, return, throw, ◌>>=◌, ◌>>◌, on_error}
use you_tube_gradian_devin.Mobile.Session.{
  Failure, SecureStore, clear_device_identity, save_device_credentials,
}

pub record DeviceCredentials : Type 0 where
  pub device_id : Text
  pub device_token : Text
  pub family_id : Text

-- `ChildRePairDependencies`: the calls of the native module and of the outbox, and those of the
-- session storage.
pub record Dependencies (S : Type 0) : Type 0 where
  pub stop_protection : Program S Failure Unit
  pub clear_native_identity : Program S Failure Unit
  pub clear_request_outbox : Program S Failure Unit
  pub configure_native_device : Text → Program S Failure Unit
  pub clear_credentials : Program S Failure Unit
  pub save_credentials : (private_key family device : Text) → Program S Failure Unit

module _ {S : Type 0} (dependencies : Dependencies S) where
  -- The body of the `try`.
  unfoldable pub establish : DeviceCredentials → Text → Program S Failure Unit
  establish credentials private_key = do
    dependencies.clear_native_identity
    dependencies.clear_request_outbox
    dependencies.configure_native_device credentials.device_id
    dependencies.save_credentials private_key credentials.family_id credentials.device_token

  -- The body of the `catch`.
  unfoldable pub abandon : Failure → Program S Failure Unit
  abandon error = do
    on_error dependencies.clear_credentials (λ _. return tt)
    on_error dependencies.clear_native_identity (λ _. return tt)
    throw error

  unfoldable pub activate_child_re_pair : DeviceCredentials → Text → Program S Failure Unit
  activate_child_re_pair credentials private_key = do
    dependencies.stop_protection
    dependencies.clear_credentials
    on_error (establish credentials private_key) abandon
