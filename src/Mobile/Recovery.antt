-- ===== src/Mobile/Recovery.antt =====
-- `roleStorage` of apps/mobile/src/state/role.ts, `clearRevokedChildDevice` of
-- apps/mobile/src/state/child-device-recovery.ts, and apps/mobile/src/state/push-actions.ts.
use you_tube_gradian_devin.Common.{
  ℕ, Text, text, text_eq, Option, none, some, List, ◌++◌, find, In, if◌then◌else◌, ◌≡◌, refl, ◌∙◌,
}
use you_tube_gradian_devin.Common.Programs.{
  Program, return, throw, ◌>>=◌, ◌>>◌, settled, Goes, IsGraded, Goes-settled, Ends, Ends-bind,
  Ends-both, Ends-and, Ends-throwing, Ends-weaken,
}
use you_tube_gradian_devin.Mobile.Session.{
  Key, Failure, SecureStore, IsSecureStore, device_identity_keys, clear_device_identity,
}
use you_tube_gradian_devin.Mobile.Session.Network.{plain_error}
use you_tube_gradian_devin.Mobile.Session.Cleared.{clear_device_identity-Goes}
use you_tube_gradian_devin.Mobile.Session.Unpaired.{clear_device_identity-Ends}

pub data Role : Type 0 where
  parent child : Role

abbrev pub role_text : Role → Text
role_text parent = text "parent"
role_text child = text "child"

-- The calls of `expo-secure-store` with `ROLE_KEY`.
pub record RoleItem (S : Type 0) : Type 0 where
  pub get_item : Program S Failure (Option Text)
  pub set_item : Text → Program S Failure Unit
  pub delete_item : Program S Failure Unit

unfoldable pub role_of : Option Text → Option Role
role_of none = none
role_of (some role) =
    if text_eq role (text "parent")
    then some parent
    else if text_eq role (text "child")
    then some child
    else none

-- `GuardianProtection`, as far as it is called here.
pub record Protection (S : Type 0) : Type 0 where
  pub stop_protection : Program S Failure Unit
  pub clear_child_identity : Program S Failure Unit

module _ {S : Type 0} (item : RoleItem S) where
  unfoldable pub get_role : Program S Failure (Option Role)
  get_role = do role ← item.get_item; return (role_of role)

  unfoldable pub set_role : Role → Program S Failure Unit
  set_role role = item.set_item (role_text role)

  unfoldable pub clear_role : Program S Failure Unit
  clear_role = item.delete_item

  unfoldable pub clear_revoked_child_device : SecureStore S → Protection S → Program S Failure Unit
  clear_revoked_child_device store protection = do
    settled protection.stop_protection
    settled protection.clear_child_identity
    clear_device_identity store
    clear_role

pub record PushAction : Type 0 where
  pub id : Text
  pub method : Text
  pub path : Text

-- `handleRequestPushAction`, which calls `api.pushAction` at the path of the chosen action.
unfoldable pub handle_request_push_action :
    {S R : Type 0} (push_action : (path : Text) → Option Text → Program S Failure R) (type : Text)
    (actions : List PushAction) (action : Text) (reason : Option Text)
    → Program S Failure R
handle_request_push_action push_action type actions action reason =
    if text_eq type (text "REQUEST_DECISION")
    then (elim (find (λ candidate. text_eq candidate.id action) actions) [
      | none ↦ throw (plain_error (text "Push action is unavailable: " ++ action))
      | some selected ↦
          if text_eq selected.method (text "POST")
          then push_action selected.path reason
          else throw (plain_error (text "Push action is unavailable: " ++ action))
    ])
    else throw (plain_error (text "Unsupported push payload."))

-- The role is an item of its own: the deletion of another item and the native module leave it.
pub record IsRoleItem {S : Type 0} (store : SecureStore S) (contents : S → Key → Option Text)
    (item : RoleItem S) (role : S → Option Text) (protection : Protection S) : Type 0 where
  pub deletes :
      (s : S)
      → Ends
          (λ _ t. (role t ≡ none) × ((k : Key) → contents t k ≡ contents s k))
          (λ _ t. role t ≡ role s)
          (item.delete_item s)
  pub others_keep : (k : Key) (s : S) → role ((store.delete_item k s).1) ≡ role s
  pub stop_keeps : (s : S) → role ((protection.stop_protection s).1) ≡ role s
  pub clear_keeps : (s : S) → role ((protection.clear_child_identity s).1) ≡ role s

module _ {S : Type 0} (store : SecureStore S) (contents : S → Key → Option Text)
    (H : IsSecureStore store contents) (item : RoleItem S) (role : S → Option Text)
    (protection : Protection S) (I : IsRoleItem store contents item role protection) where
  abbrev SameRole : ℕ → S → S → Type 0
  SameRole n s t = role t ≡ role s

  SameRole-IsGraded : IsGraded SameRole
  SameRole-IsGraded = record {
    nothing = λ s. refl;
    and_then = λ a b s t u p q. q ∙ p;
    at_least = λ a b s t le p. p;
  }

  deletes-Goes : (k : Key) → Goes SameRole 0 (store.delete_item k)
  deletes-Goes k = record { goes = λ s. I.others_keep k s }

  stop-Goes : Goes SameRole 0 protection.stop_protection
  stop-Goes = record { goes = λ s. I.stop_keeps s }

  clear-Goes : Goes SameRole 0 protection.clear_child_identity
  clear-Goes = record { goes = λ s. I.clear_keeps s }

  abbrev IsUnpaired : S → Type 0
  IsUnpaired t = (k : Key) → In k device_identity_keys → contents t k ≡ none

  identity-Ends :
      (s : S)
      → Ends
          (λ _ t. IsUnpaired t × (role t ≡ role s))
          (λ _ t. role t ≡ role s)
          (clear_device_identity store s)
  identity-Ends s =
      let same = (clear_device_identity-Goes store SameRole-IsGraded deletes-Goes).goes s in
      Ends-throwing (Ends-and (clear_device_identity-Ends store contents H s) same) same

  identity_after :
      (s u : S)
      → role u ≡ role s
      → Ends
          (λ _ t. IsUnpaired t × (role t ≡ role s))
          (λ _ t. role t ≡ role s)
          (clear_device_identity store u)
  identity_after s u kept =
      Ends-weaken (identity-Ends u) (λ _ v h. (h.0, h.1 ∙ kept)) (λ _ v h. h ∙ kept)

  settled_after :
      (m : Program S Failure Unit) (s u : S)
      → Goes SameRole 0 m
      → role u ≡ role s
      → Ends (λ _ t. role t ≡ role s) (λ _ t. role t ≡ role s) (settled m u)
  settled_after m s u g kept = Ends-both (settled m u) ((Goes-settled g).goes u ∙ kept)

  -- Whatever the native module does, a revoked device is cleared in order: where the call returns,
  -- no key of the device's identity is left, nor a role; where it throws, the role is what it was.
  pub clear_revoked_child_device-Ends :
      (s : S)
      → Ends
          (λ _ t. ((k : Key) → In k device_identity_keys → contents t k ≡ none) × (role t ≡ none))
          (λ _ t. role t ≡ role s)
          (clear_revoked_child_device item store protection s)
  unfolding clear_revoked_child_device clear_role
  clear_revoked_child_device-Ends s =
      Ends-bind _ (settled_after protection.stop_protection s s stop-Goes refl) (λ _ t same.
        Ends-bind _ (settled_after protection.clear_child_identity s t clear-Goes same) (λ _ u kept.
          Ends-bind _ (identity_after s u kept) (λ _ v (gone, still).
            Ends-weaken (I.deletes v) (λ _ w h. (λ k m. h.1 k ∙ gone k m, h.0))
              (λ _ w h. h ∙ still))))
