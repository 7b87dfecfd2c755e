-- ===== src/Mobile/Provider.antt =====
-- `SessionProvider` of apps/mobile/src/auth/session.tsx, on the session storage of
-- apps/mobile/src/api/client.ts. Calls that `Promise.all` starts together run one after the other,
-- each to its end, and the listener of an expired session runs between the operations.
pub mod Kept
pub mod SignedOut
use you_tube_gradian_devin.Common.{
  Text, text, text_eq, truthy, Option, none, some, List, [], ◌∷◌, Bool, true, false, find,
  if◌then◌else◌, ◌or_default◌, Result, ok, err,
}
use you_tube_gradian_devin.Common.Programs.{
  Program, return, throw, ◌>>=◌, ◌>>◌, on_error, settled, rethrow, both,
}
use you_tube_gradian_devin.Common.Programs.Screens.{lift, update}
use you_tube_gradian_devin.Mobile.Session.{
  access_token, family_id, selected_child_id, Failure, Tokens, SecureStore, set_tokens,
  clear_parent_session,
}
use you_tube_gradian_devin.Mobile.Session.Network.{is_present}

-- A family or a child, of which the provider reads the identifier.
pub record Item : Type 0 where
  pub id : Text

-- The state of the component; `P` is the type of a parent.
pub record View (P : Type 0) : Type 0 where
  pub parent : Option P
  pub loading : Bool
  pub family : Option Text
  pub child : Option Text
  -- `sessionError`
  pub expired : Bool

-- `api.me`, `api.families`, `api.children` and `api.logout`.
pub record ParentCalls (S P : Type 0) : Type 0 where
  pub me : Program S Failure P
  pub families : Program S Failure (List Item)
  pub children : Text → Program S Failure (List Item)
  pub logout : Program S Failure Unit

abbrev first_item : List Item → Option Item
first_item [] = none
first_item (item ∷ items) = some item

abbrev is_stored : Option Text → Item → Bool
is_stored none item = false
is_stored (some stored) item = text_eq item.id stored

-- `items.find((item) => item.id === stored) ?? items.at(0)`
unfoldable pub choose : List Item → Option Text → Option Item
choose items stored = elim (find (is_stored stored) items) [
  | some item ↦ some item
  | none ↦ first_item items
]

abbrev pub Selection : Type 0
Selection = Option Text × Option Text

abbrev pub id_of : Option Item → Option Text
id_of none = none
id_of (some item) = some item.id

-- `error instanceof ApiError && error.code === "SESSION_EXPIRED"`; only an `ApiError` has that code.
abbrev pub is_expired : Failure → Bool
is_expired error = text_eq (error.code or_default []) (text "SESSION_EXPIRED")

-- The listener of `subscribeToParentSessionExpiry`.
abbrev pub session_expired : {P : Type 0} → View P → View P
session_expired view = record view { parent = none; expired = true }

module _ {S P : Type 0} (store : SecureStore S) (calls : ParentCalls S P) where
  unfoldable pub select_child : Option Item → Program S Failure Unit
  select_child none = return tt
  select_child (some child) = store.set_item selected_child_id child.id

  unfoldable pub select_family : Option Item → Option Text → Program S Failure Selection
  select_family none stored_child = return (none, none)
  select_family (some family) stored_child = do
    children ← calls.children family.id
    store.set_item family_id family.id
    select_child (choose children stored_child)
    return (some family.id, id_of (choose children stored_child))

  unfoldable pub discover_family : Program S Failure Selection
  discover_family = do
    found ← both calls.families (both (store.get_item family_id) (store.get_item selected_child_id))
    select_family (choose (found.0) (found.1.0)) (found.1.1)

  abbrev pub Screen : Type 0
  Screen = S × View P

  unfoldable pub load_parent : Option Text → Program Screen Failure (Option P)
  load_parent token =
      if is_present token
      then (do
        found ← lift (both calls.me discover_family)
        update (λ view. record view { family = found.1.0; child = found.1.1 })
        return (some (found.0)))
      else return none

  unfoldable pub forget : Failure → Program Screen Failure Unit
  forget error = do
    lift (clear_parent_session store)
    update (λ view. record view { parent = none; expired = is_expired error })

  -- The two `then` calls of the effect that runs when the component is mounted.
  unfoldable pub restore : Program Screen Failure Unit
  restore = do
    token ← lift (store.get_item access_token)
    parent ← load_parent token
    update (λ view. record view { parent = parent })

  unfoldable pub start : Program Screen Failure Unit
  start = do
    result ← settled (on_error restore forget)
    update (λ view. record view { loading = false })
    rethrow result

  unfoldable pub sign_in : Tokens → Program Screen Failure Unit
  sign_in tokens = do
    lift (set_tokens store tokens)
    found ← lift (both calls.me discover_family)
    update (λ view. record view {
      parent = some (found.0);
      family = found.1.0;
      child = found.1.1;
      expired = false;
    })

  -- The `finally` of `signOut`.
  unfoldable pub signed_out : Program Screen Failure Unit
  signed_out = do
    lift (clear_parent_session store)
    update (λ view. record view { parent = none; family = none; child = none; expired = false })

  unfoldable pub sign_out : Program Screen Failure Unit
  sign_out = do result ← settled (lift calls.logout); signed_out; rethrow result

  unfoldable pub set_family : Text → Program Screen Failure Unit
  set_family next = do
    lift (store.set_item family_id next)
    update (λ view. record view { family = some next })

  unfoldable pub set_child : Text → Program Screen Failure Unit
  set_child next = do
    lift (store.set_item selected_child_id next)
    update (λ view. record view { child = some next })
