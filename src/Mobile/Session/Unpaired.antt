-- ===== src/Mobile/Session/Unpaired.antt =====
-- `clearDeviceIdentity` of apps/mobile/src/api/client.ts: what is gone once it returns.
use you_tube_gradian_devin.Common.{
  Text, Option, none, List, [], ◌∷◌, ◌≡◌, ap, ◌∙◌, Result, ok, err, All, In, inl, inr,
}
use you_tube_gradian_devin.Common.Programs.{
  settle, Ends, returned, thrown, Ends-bind, Ends-and, Ends-weaken,
}
use you_tube_gradian_devin.Mobile.Session.{
  Key, Failure, SecureStore, IsSecureStore, throw_first, delete_all, clear_device_identity,
  device_identity_keys,
}
use you_tube_gradian_devin.Mobile.Session.Cleared.{Changed, call-Ends, delete_all-StaysEmpty}

abbrev IsOk : Result Failure Unit → Type 0
IsOk (ok u) = Unit
IsOk (err e) = ⊥

module _ {S : Type 0} (store : SecureStore S) (contents : S → Key → Option Text)
    (H : IsSecureStore store contents) where
  settled_deletion :
      {k : Key} {s : S} {x : Result Failure Unit × S}
      → Ends (λ _ t. Changed store contents H k none s t) (λ _ t. Unit {0}) x
      → Ends (λ r t. IsOk r → contents t k ≡ none) (λ _ _. ⊥) (settle x)
  settled_deletion (returned u t h) = returned (ok u) t (λ o. h.0)
  settled_deletion (thrown e t h) = returned (err e) t (λ o. elim o [ ])

  delete_all-Ends :
      (keys : List Key) (s : S)
      → Ends
          (λ results t. All IsOk results → (k : Key) → In k keys → contents t k ≡ none)
          (λ _ _. ⊥)
          (delete_all store keys s)
  unfolding delete_all
  delete_all-Ends [] s = returned [] s (λ h k m. elim m [ ])
  delete_all-Ends (key ∷ keys) s =
      Ends-bind _
        (settled_deletion
          (Ends-weaken (call-Ends store contents H _ (H.deletes key s)) (λ _ t h. h) (λ _ t h. tt)))
        (λ r t gone.
          Ends-bind _
            (Ends-and {P = λ u. contents t key ≡ none → contents u key ≡ none}
              (delete_all-Ends keys t) ((delete_all-StaysEmpty store contents H key keys).goes t))
            (λ results u h. returned (r ∷ results) u (λ all_ok k m. elim m [
              | inl same ↦ ap (contents u) same ∙ h.1 (gone (all_ok.0))
              | inr there ↦ h.0 (all_ok.1) k there
            ])))

  throw_first-Ends :
      (P : S → Type 0) (results : List (Result Failure Unit)) (t : S)
      → (All IsOk results → P t)
      → Ends (λ _. P) (λ _ _. Unit {0}) (throw_first results t)
  unfolding throw_first
  throw_first-Ends P [] t h = returned tt t (h tt)
  throw_first-Ends P (ok u ∷ results) t h = throw_first-Ends P results t (λ rest. h (tt, rest))
  throw_first-Ends P (err e ∷ results) t h = thrown e t tt

  -- Clearing the device's identity either throws, or leaves none of its keys in the store.
  pub clear_device_identity-Ends :
      (s : S)
      → Ends
          (λ _ t. (k : Key) → In k device_identity_keys → contents t k ≡ none)
          (λ _ _. Unit {0})
          (clear_device_identity store s)
  unfolding clear_device_identity
  clear_device_identity-Ends s =
      Ends-bind _ (Ends-weaken (delete_all-Ends device_identity_keys s) (λ _ t h. h) (λ _ t h. tt))
        (λ results t h. throw_first-Ends _ results t h)
