-- ===== src/Mobile/Provider/Kept.antt =====
-- The device's credential through the parent's session.
use you_tube_gradian_devin.Common.{ℕ, Text, Option, none, some, false, ◌≡◌, ◌≢◌, refl, subst, ◌∙◌}
use you_tube_gradian_devin.Common.Programs.{
  Goes, IsGraded, Goes-return, Goes-bind, Goes-on_error, Goes-settled, Goes-rethrow, Goes-both,
  both,
}
use you_tube_gradian_devin.Common.Programs.Screens.{lift, update, lift-Goes}
use you_tube_gradian_devin.Mobile.Session.{
  Key, access_token, refresh_token, device_token, device_private_key, family_id, selected_child_id,
  Failure, Tokens, SecureStore, IsSecureStore, clear_parent_session, set_tokens,
}
use you_tube_gradian_devin.Mobile.Session.Bounds.{Goes-if}
use you_tube_gradian_devin.Mobile.Provider.{
  Item, View, ParentCalls, choose, select_child, select_family, discover_family, update, is_expired,
  load_parent, forget, restore, start, sign_in, signed_out, sign_out,
}

-- The credential that proves the device: its token and its private key.
abbrev pub IsProof : Key → Type 0
IsProof device_token = Unit
IsProof device_private_key = Unit
IsProof access_token = ⊥
IsProof refresh_token = ⊥
IsProof family_id = ⊥
IsProof selected_child_id = ⊥

ne_key : (j k : Key) → IsProof j → (IsProof k → ⊥) → j ≢ k
ne_key j k h not_proof e = not_proof (subst IsProof e h)

-- The calls of the service do not write to the credential.
pub record IsHarmless {S P : Type 0} (contents : S → Key → Option Text) (calls : ParentCalls S P)
    : Type 0 where
  pub me_keeps : (s : S) (k : Key) → IsProof k → contents ((calls.me s).1) k ≡ contents s k
  pub families_keep :
      (s : S) (k : Key) → IsProof k → contents ((calls.families s).1) k ≡ contents s k
  pub children_keep :
      (id : Text) (s : S) (k : Key)
      → IsProof k
      → contents ((calls.children id s).1) k ≡ contents s k
  pub logout_keeps : (s : S) (k : Key) → IsProof k → contents ((calls.logout s).1) k ≡ contents s k

module _ {S P : Type 0} (store : SecureStore S) (contents : S → Key → Option Text)
    (H : IsSecureStore store contents) (calls : ParentCalls S P)
    (K : IsHarmless contents calls) where
  abbrev Same : ℕ → S → S → Type 0
  Same n s t = (k : Key) → IsProof k → contents t k ≡ contents s k

  abbrev SameScreen : ℕ → S × View P → S × View P → Type 0
  SameScreen n s t = Same n (s.0) (t.0)

  Same-IsGraded : IsGraded Same
  Same-IsGraded = record {
    nothing = λ s k h. refl;
    and_then = λ a b s t u p q k h. q k h ∙ p k h;
    at_least = λ a b s t h p. p;
  }

  SameScreen-IsGraded : IsGraded SameScreen
  SameScreen-IsGraded = record {
    nothing = λ s k h. refl;
    and_then = λ a b s t u p q k h. q k h ∙ p k h;
    at_least = λ a b s t h p. p;
  }

  set-Goes : (k : Key) (v : Text) → (IsProof k → ⊥) → Goes Same 0 (store.set_item k v)
  set-Goes k v not_proof = record {
    goes = λ s j h. (H.sets k v s).others j (ne_key j k h not_proof);
  }

  delete-Goes : (k : Key) → (IsProof k → ⊥) → Goes Same 0 (store.delete_item k)
  delete-Goes k not_proof = record {
    goes = λ s j h. (H.deletes k s).others j (ne_key j k h not_proof);
  }

  get-Goes : (k : Key) → Goes Same 0 (store.get_item k)
  get-Goes k = record { goes = λ s j h. H.get_keeps k j s }

  children-Goes : (id : Text) → Goes Same 0 (calls.children id)
  children-Goes id = record { goes = λ s k h. K.children_keep id s k h }

  families-Goes : Goes Same 0 calls.families
  families-Goes = record { goes = λ s k h. K.families_keep s k h }

  api_me-Goes : Goes Same 0 calls.me
  api_me-Goes = record { goes = λ s k h. K.me_keeps s k h }

  logout-Goes : Goes Same 0 calls.logout
  logout-Goes = record { goes = λ s k h. K.logout_keeps s k h }

  clear-Goes : Goes Same 0 (clear_parent_session store)
  unfolding clear_parent_session
  clear-Goes =
      Goes-bind Same-IsGraded (delete-Goes access_token (λ h. h))
        (λ _. delete-Goes refresh_token (λ h. h))

  tokens-Goes : (tokens : Tokens) → Goes Same 0 (set_tokens store tokens)
  unfolding set_tokens
  tokens-Goes tokens =
      Goes-bind Same-IsGraded (set-Goes access_token _ (λ h. h))
        (λ _. set-Goes refresh_token _ (λ h. h))

  select_child-Goes : (o : Option Item) → Goes Same 0 (select_child store calls o)
  unfolding select_child
  select_child-Goes none = Goes-return Same-IsGraded tt
  select_child-Goes (some child) = set-Goes selected_child_id _ (λ h. h)

  select_family-Goes :
      (o : Option Item) (stored : Option Text) → Goes Same 0 (select_family store calls o stored)
  unfolding select_family
  select_family-Goes none stored = Goes-return Same-IsGraded _
  select_family-Goes (some family) stored =
      let G = Same-IsGraded in
      Goes-bind G (children-Goes family.id) (λ children.
        Goes-bind G (set-Goes family_id _ (λ h. h))
          (λ _. Goes-bind G (select_child-Goes (choose children stored)) (λ _. Goes-return G _)))

  discover_family-Goes : Goes Same 0 (discover_family store calls)
  unfolding discover_family
  discover_family-Goes =
      let G = Same-IsGraded in
      Goes-bind G
        (Goes-both G families-Goes (Goes-both G (get-Goes family_id) (get-Goes selected_child_id)))
        (λ found. select_family-Goes (choose (found.0) (found.1.0)) (found.1.1))

  update-Goes : (f : View P → View P) → Goes {E = Failure} SameScreen 0 (update f)
  update-Goes f = record { goes = λ screen k h. refl }

  found-Goes : Goes SameScreen 0 (lift (both calls.me (discover_family store calls)))
  found-Goes = lift-Goes (Goes-both Same-IsGraded api_me-Goes discover_family-Goes)

  load_parent-Goes : (token : Option Text) → Goes SameScreen 0 (load_parent store calls token)
  unfolding load_parent
  load_parent-Goes token =
      let G = SameScreen-IsGraded in
      Goes-if _
        (Goes-bind G found-Goes (λ found.
          Goes-bind G (update-Goes (λ view. record view { family = found.1.0; child = found.1.1 }))
            (λ _. Goes-return G (some (found.0)))))
        (Goes-return G none)

  restore-Goes : Goes SameScreen 0 (restore store calls)
  unfolding restore
  restore-Goes =
      let G = SameScreen-IsGraded in
      Goes-bind G (lift-Goes (get-Goes access_token)) (λ token.
        Goes-bind G (load_parent-Goes token)
          (λ parent. update-Goes (λ view. record view { parent = parent })))

  forget-Goes : (error : Failure) → Goes SameScreen 0 (forget store calls error)
  unfolding forget
  forget-Goes error =
      Goes-bind SameScreen-IsGraded (lift-Goes clear-Goes)
        (λ _. update-Goes (λ view. record view { parent = none; expired = is_expired error }))

  start-Goes : Goes SameScreen 0 (start store calls)
  unfolding start
  start-Goes =
      let G = SameScreen-IsGraded in
      Goes-bind G (Goes-settled (Goes-on_error G restore-Goes forget-Goes)) (λ result.
        Goes-bind G (update-Goes (λ view. record view { loading = false }))
          (λ _. Goes-rethrow G result))

  sign_in-Goes : (tokens : Tokens) → Goes SameScreen 0 (sign_in store calls tokens)
  unfolding sign_in
  sign_in-Goes tokens =
      let G = SameScreen-IsGraded in
      Goes-bind G (lift-Goes (tokens-Goes tokens)) (λ _. Goes-bind G found-Goes (λ found.
        update-Goes (λ view. record view {
          parent = some (found.0);
          family = found.1.0;
          child = found.1.1;
          expired = false;
        })))

  sign_out-Goes : Goes SameScreen 0 (sign_out store calls)
  unfolding sign_out signed_out
  sign_out-Goes =
      let G = SameScreen-IsGraded in
      Goes-bind G (Goes-settled (lift-Goes logout-Goes)) (λ result.
        Goes-bind G
          (Goes-bind G (lift-Goes clear-Goes) (λ _.
            update-Goes (λ view. record view {
              parent = none;
              family = none;
              child = none;
              expired = false;
            })))
          (λ _. Goes-rethrow G result))

  -- However they end, the start of the application, a sign-in and a sign-out leave the token and
  -- the private key of the child's device as they are, while the calls of the service do.
  pub session_keeps_proof :
      (tokens : Tokens) (screen : S × View P) (k : Key)
      → IsProof k
      → (contents (((start store calls screen).1).0) k ≡ contents (screen.0) k)
        × (contents (((sign_in store calls tokens screen).1).0) k ≡ contents (screen.0) k)
        × (contents (((sign_out store calls screen).1).0) k ≡ contents (screen.0) k)
  session_keeps_proof tokens screen k h = (
    start-Goes.goes screen k h,
    (sign_in-Goes tokens).goes screen k h,
    sign_out-Goes.goes screen k h,
  )
