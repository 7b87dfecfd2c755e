-- ===== src/Mobile/Provider/SignedOut.antt =====
-- What the parent's session leaves behind when it is signed out or expires.
use you_tube_gradian_devin.Common.{
  ℕ, ◌⊎◌, inl, inr, Text, Option, none, some, ap, false, ◌≡◌, refl, ◌∙◌, sym, subst, Result, ok,
  err,
}
use you_tube_gradian_devin.Common.Programs.{
  Program, ◌>>◌, on_error, rethrow, settle, Ends, returned, thrown, Ends-bind, Ends-on_error,
  Ends-weaken, Ends-both, Goes, IsGraded, Goes-bind, Goes-return, both,
}
use you_tube_gradian_devin.Common.Programs.Endings.{reached}
use you_tube_gradian_devin.Common.Programs.Screens.{lift, lifted, update, lifted-Ends}
use you_tube_gradian_devin.Mobile.Session.{
  Key, access_token, refresh_token, Failure, SecureStore, Stores, IsSecureStore,
  clear_parent_session,
}
use you_tube_gradian_devin.Mobile.Session.Cleared.{Changed}
use you_tube_gradian_devin.Mobile.Session.Bounds.{Goes-if}
use you_tube_gradian_devin.Mobile.Provider.{
  discover_family, View, ParentCalls, load_parent, forget, restore, start, signed_out, sign_out,
}

module _ {S P : Type 0} (store : SecureStore S) (contents : S → Key → Option Text)
    (H : IsSecureStore store contents) (calls : ParentCalls S P) where
  abbrev pub HasNoSession : S → Type 0
  HasNoSession t = (contents t access_token ≡ none) × (contents t refresh_token ≡ none)

  -- Nothing of the parent is stored or shown.
  abbrev pub IsSignedOut : S × View P → Type 0
  IsSignedOut (t, view) =
      HasNoSession t
      × (view.parent ≡ none)
      × (view.family ≡ none)
      × (view.child ≡ none)
      × (view.expired ≡ false)

  -- One of the two deletions throws from this state.
  abbrev pub DeletionThrows : S → Failure → Type 0
  DeletionThrows s e =
      ((store.delete_item access_token s).0 ≡ err e)
      ⊎ ((store.delete_item refresh_token ((store.delete_item access_token s).1)).0 ≡ err e)

  deleted-Ends :
      {k : Key} {s : S} (x : Result Failure Unit × S)
      → Stores contents k none s x
      → Ends (λ _ t. Changed store contents H k none s t × (x.1 ≡ t)) (λ e _. x.0 ≡ err e) x
  deleted-Ends (ok u, t) h = returned u t ((h.stored u refl, h.others), refl)
  deleted-Ends (err e, t) h = thrown e t refl

  clear-HasNoSession :
      (s : S) → Ends (λ _. HasNoSession) (λ e _. DeletionThrows s e) (clear_parent_session store s)
  unfolding clear_parent_session
  clear-HasNoSession s =
      Ends-bind (λ _. store.delete_item refresh_token)
        (Ends-weaken (deleted-Ends _ (H.deletes access_token s)) (λ _ t h. h) (λ _ t e. inl e))
        (λ _ t (gone, same).
          Ends-weaken (deleted-Ends _ (H.deletes refresh_token t))
            (λ _ u (h, _). (h.1 access_token (λ e. cc) ∙ gone.0, h.0))
            (λ error u e.
              inr (subst (λ v. (store.delete_item refresh_token v).0 ≡ err error) (sym same) e)))

  signed_out-Ends :
      (screen : S × View P)
      → Ends
          (λ _. IsSignedOut)
          (λ e t. DeletionThrows (screen.0) e × (t.1 ≡ screen.1))
          (signed_out store calls screen)
  unfolding signed_out
  signed_out-Ends screen =
      Ends-bind _
        (Ends-weaken (lifted-Ends (screen.1) (clear-HasNoSession (screen.0))) (λ _ t h. h)
          (λ _ t h. h))
        (λ _ t h. returned tt _ (h.0, refl, refl, refl, refl))

  rethrow-Ends :
      {A : Type 0} {T : S × View P → Type 0} (r : Result Failure A) (t : S × View P)
      → T t
      → Ends (λ _. T) (λ _. T) (rethrow r t)
  rethrow-Ends (ok a) t h = returned a t h
  rethrow-Ends (err e) t h = thrown e t h

  settled_lift-Ends :
      {A : Type 0} (view : View P) (x : Result Failure A × S)
      → Ends {E = Failure}
          (λ r t. (r ≡ x.0) × (t ≡ (x.1, view)))
          (λ _ _. ⊥)
          (settle (lifted view x))
  settled_lift-Ends view (r, s) = returned r (s, view) (refl, refl)

  -- What a sign-out from this screen leaves, by the reply of the service.
  abbrev pub Finishes :
      S × View P → Result Failure Unit × S → Result Failure Unit × (S × View P) → Type 0
  Finishes screen reply ended =
      Ends (λ _ t. IsSignedOut t × (reply.0 ≡ ok tt))
        (λ e t.
          (IsSignedOut t × (reply.0 ≡ err e)) ⊎ (DeletionThrows (reply.1) e × (t.1 ≡ screen.1)))
        ended

  rethrown-Ends :
      (screen t : S × View P) (reply : Result Failure Unit × S) (r : Result Failure Unit)
      → r ≡ reply.0
      → IsSignedOut t
      → Finishes screen reply (rethrow r t)
  rethrown-Ends screen t reply (ok u) e h = returned u t (h, sym e)
  rethrown-Ends screen t reply (err error) e h = thrown error t (inl (h, sym e))

  -- A sign-out that returns has deleted both tokens of the parent and shows no parent, family or
  -- child, and the call of the service has returned. Where a sign-out throws, either the call of the
  -- service has thrown the error, and the tokens are deleted and nothing is shown all the same, or a
  -- deletion of a token has thrown it after that call, and the screen shows what it showed.
  pub sign_out-IsSignedOut :
      (screen : S × View P)
      → Finishes screen (calls.logout (screen.0)) (sign_out store calls screen)
  unfolding sign_out
  sign_out-IsSignedOut screen =
      let reply = calls.logout (screen.0) in
      Ends-bind _
        (Ends-weaken (settled_lift-Ends (screen.1) reply) (λ _ t h. h) (λ _ t h. absurd h))
        (λ result t (result_is, state_is).
          Ends-bind _
            (Ends-weaken (signed_out-Ends t) (λ _ u h. h)
              (λ e u (threw, shows). inr (
                subst (λ v. DeletionThrows (v.0) e) state_is threw,
                shows ∙ ap (λ v. v.1) state_is,
              )))
            (λ _ u h. rethrown-Ends screen u reply result result_is h))

  abbrev SameExpired : ℕ → S × View P → S × View P → Type 0
  SameExpired n s t = t.1.expired ≡ s.1.expired

  SameExpired-IsGraded : IsGraded SameExpired
  SameExpired-IsGraded = record {
    nothing = λ s. refl;
    and_then = λ a b s t u p q. q ∙ p;
    at_least = λ a b s t le p. p;
  }

  keep-Goes : {A : Type 0} (m : Program S Failure A) → Goes SameExpired 0 (lift m)
  keep-Goes m = record { goes = λ screen. refl }

  same_update :
      (f : View P → View P)
      → ((view : View P) → (f view).expired ≡ view.expired)
      → Goes {E = Failure} SameExpired 0 (update f)
  same_update f h = record { goes = λ screen. h (screen.1) }

  load_parent-Goes : (token : Option Text) → Goes SameExpired 0 (load_parent store calls token)
  unfolding load_parent
  load_parent-Goes token =
      let G = SameExpired-IsGraded in
      Goes-if _
        (Goes-bind G (keep-Goes (both calls.me (discover_family store calls))) (λ found.
          Goes-bind G
            (same_update (λ view. record view { family = found.1.0; child = found.1.1 })
              (λ view. refl))
            (λ _. Goes-return G (some (found.0)))))
        (Goes-return G none)

  restore-Goes : Goes SameExpired 0 (restore store calls)
  unfolding restore
  restore-Goes =
      let G = SameExpired-IsGraded in
      Goes-bind G (keep-Goes (store.get_item access_token)) (λ token.
        Goes-bind G (load_parent-Goes token)
          (λ parent. same_update (λ view. record view { parent = parent }) (λ view. refl)))

  -- The parent's tokens are deleted and no parent is shown.
  abbrev pub IsForgotten : S × View P → Type 0
  IsForgotten (t, view) = HasNoSession t × (view.parent ≡ none)

  forget-Ends :
      (error : Failure) (screen : S × View P)
      → Ends (λ _. IsForgotten) (λ _ t. t.1 ≡ screen.1) (forget store calls error screen)
  unfolding forget
  forget-Ends error screen =
      Ends-bind _
        (Ends-weaken (lifted-Ends (screen.1) (clear-HasNoSession (screen.0))) (λ _ t h. h)
          (λ _ t h. h.1))
        (λ _ t h. returned tt _ (h.0, refl))

  Loaded : View P → S × View P → Type 0
  Loaded view t = (t.1.expired ≡ view.expired) ⊎ IsForgotten t

  recovered-Ends :
      (screen : S × View P)
      → Ends
          (λ _. Loaded (screen.1))
          (λ _. Loaded (screen.1))
          (on_error (restore store calls) (forget store calls) screen)
  unfolding Loaded
  recovered-Ends screen =
      Ends-on_error _
        (Ends-weaken (Ends-both _ (restore-Goes.goes screen)) (λ _ t h. inl h) (λ _ t h. h))
        (λ e t same.
          Ends-weaken (forget-Ends e t) (λ _ u h. inr h) (λ _ u h. inl (ap View.expired h ∙ same)))

  settle-Ends :
      {A B : Type 0} {T : B → Type 0} {R : Failure → B → Type 0} {x : Result Failure A × B}
      → Ends (λ _. T) (λ _. T) x
      → Ends (λ _. T) R (settle x)
  settle-Ends (returned a t h) = returned (ok a) t h
  settle-Ends (thrown e t h) = returned (err e) t h

  LoadedAfter : View P → S × View P → Type 0
  LoadedAfter view t = (t.1.loading ≡ false) × Loaded view t

  start-Ends :
      (screen : S × View P)
      → Ends (λ _. LoadedAfter (screen.1)) (λ _. LoadedAfter (screen.1)) (start store calls screen)
  unfolding start LoadedAfter Loaded
  start-Ends screen =
      Ends-bind (λ result. update (λ view. record view { loading = false }) >> rethrow result)
        (settle-Ends (recovered-Ends screen)) (λ result t h. rethrow-Ends result _ (refl, h))

  -- However the start of the application ends, it no longer shows that it is loading; and it says
  -- of the session what it said before, unless it shows no parent and both tokens of the parent are
  -- deleted.
  pub start-IsLoaded :
      (screen : S × View P)
      → let t = (start store calls screen).1 in
        (t.1.loading ≡ false) × ((t.1.expired ≡ screen.1.expired) ⊎ IsForgotten t)
  unfolding LoadedAfter Loaded
  start-IsLoaded screen = reached (start-Ends screen)
