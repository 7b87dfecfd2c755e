-- ===== src/Mobile/Requests/Honest.antt =====
-- What the screen of apps/mobile/src/app/child/requests.tsx says of the requests in the outbox is so.
use you_tube_gradian_devin.Common.{
  ℕ, Text, Option, some, List, [], ◌∷◌, ◌++◌, Bool, true, ◌||◌, any, All, if◌then◌else◌, ◌≡◌, ◌↔◌,
  ◌⊎◌, inl, inr, refl, sym, ap, ◌∙◌, subst, arith,
}
use you_tube_gradian_devin.Common.Programs.{
  return, ◌>>=◌, on_error, Ends, returned, Ends-bind, Ends-on_error, Ends-both, Ends-weaken,
}
use you_tube_gradian_devin.Common.Programs.Screens.{lifted-Ends}
use you_tube_gradian_devin.Common.Programs.Endings.{Ends-if}
use you_tube_gradian_devin.Mobile.Session.{Failure}
use you_tube_gradian_devin.Mobile.Outbox.{
  QueuedAccessRequest, Queue, Raw, array, read_request_outbox, enqueue_request, Delivery, delivered,
  kept_after, after_delivery,
}
use you_tube_gradian_devin.Mobile.Requests.{
  RequestInput, RequestCalls, Message, still_queued, all_delivered, queued_locally, sending,
  not_saved, View, was_revoked, has_failed, message_for, read, send, deliver, deliver_each, flush,
  enqueue, sync, submit,
}

-- `contents` is what the storage holds under the outbox's key; a call that throws changes nothing of
-- it, and neither does the service.
pub record IsStorage {S : Type 0} (calls : RequestCalls S) (contents : S → Option Raw)
    : Type 0 where
  pub get_lem :
      (s : S)
      → Ends
          (λ v t. (v ≡ contents s) × (contents t ≡ contents s))
          (λ _ t. contents t ≡ contents s)
          (calls.get_item s)
  pub set_lem :
      (v : Option Raw) (s : S)
      → Ends (λ _ t. contents t ≡ v) (λ _ t. contents t ≡ contents s) (calls.set_item v s)
  pub create_keeps :
      (input : RequestInput) (key : Text) (s : S)
      → contents ((calls.create_request input key s).1) ≡ contents s

-- A delivery of the request has failed.
abbrev IsMarked : QueuedAccessRequest → Type 0
IsMarked request = (was_revoked request.state || has_failed request.state) ≡ true

kept_after-IsMarked :
    (request : QueuedAccessRequest) (status : Option ℕ) (message : Option Text)
    → IsMarked (kept_after request status message)
unfolding kept_after
kept_after-IsMarked request status message = ground arith

All-concat :
    {A : Type 0} (P : A → Type 0) (xs : List A) (y : A) → All P xs → P y → All P (xs ++ y ∷ [])
All-concat P [] y h k = (k, tt)
All-concat P (x ∷ xs) y (p, h) k = (p, All-concat P xs y h k)

after_delivery-IsMarked :
    (remaining : Queue) (request : QueuedAccessRequest) (end : Delivery)
    → All IsMarked remaining
    → All IsMarked (after_delivery remaining request end)
unfolding after_delivery
after_delivery-IsMarked remaining request delivered h = h
after_delivery-IsMarked remaining request (Delivery.thrown status message) h =
    All-concat IsMarked remaining _ h (kept_after-IsMarked request status message)

message_for_iff :
    (remaining : Queue) (message : Option Message)
    → All IsMarked remaining
    → (message_for remaining message ≡ some all_delivered) ↔ (remaining ≡ [])
unfolding message_for any
message_for_iff [] message h = (λ e. refl, λ e. refl)
message_for_iff (request ∷ requests) message (marked, h) = (λ e. ground arith, λ e. cc)

-- A synchronisation from `a` has ended in `b`.
pub record Synced {S : Type 0} (contents : S → Option Raw) (a b : S × View) : Type 0 where
  -- Either the storage has exactly the requests that are shown, and the screen says that all are
  -- delivered exactly where there are none; or the storage is as it was, and it says that they wait.
  pub shown :
      ((contents (b.0) ≡ some (array b.1.outbox))
        × ((b.1.message ≡ some all_delivered) ↔ (b.1.outbox ≡ [])))
      ⊎ ((contents (b.0) ≡ contents (a.0)) × (b.1.message ≡ some still_queued))
  pub keeps_offline : b.1.is_offline ≡ a.1.is_offline

module _ {S : Type 0} (calls : RequestCalls S) (contents : S → Option Raw)
    (I : IsStorage calls contents) where
  deliver-Ends :
      (request : QueuedAccessRequest) (s : S)
      → Ends (λ _ t. contents t ≡ contents s) (λ _ _. ⊥) (deliver calls request s)
  unfolding deliver send
  deliver-Ends request s =
      let kept : S → Type 0 = λ t. contents t ≡ contents s in
      Ends-on_error _
        (Ends-bind (λ _. return delivered)
          (Ends-both {P = kept} (calls.create_request _ _ s) (I.create_keeps _ _ s))
          (λ _ t h. returned delivered t h))
        (λ error t h. returned _ t h)

  deliver_each-Ends :
      (remaining requests : Queue) (s : S)
      → All IsMarked remaining
      → Ends
          (λ out t. All IsMarked out × (contents t ≡ contents s))
          (λ _ _. ⊥)
          (deliver_each calls remaining requests s)
  unfolding deliver_each
  deliver_each-Ends remaining [] s h = returned remaining s (h, refl)
  deliver_each-Ends remaining (request ∷ requests) s h =
      Ends-bind (λ end. deliver_each calls (after_delivery remaining request end) requests)
        (deliver-Ends request s)
        (λ end t same.
          Ends-weaken
            (deliver_each-Ends (after_delivery remaining request end) requests t
              (after_delivery-IsMarked remaining request end h))
            (λ out u k. (k.0, k.1 ∙ same)) (λ e u k. k))

  read-Ends :
      (s : S)
      → Ends
          (λ q t. (q ≡ read_request_outbox (contents s)) × (contents t ≡ contents s))
          (λ _ t. contents t ≡ contents s)
          (read calls s)
  unfolding read
  read-Ends s =
      Ends-bind _ (I.get_lem s)
        (λ v t h. returned (read_request_outbox v) t (ap read_request_outbox (h.0), h.1))

  flush-Ends :
      (s : S)
      → Ends
          (λ out t. All IsMarked out × (contents t ≡ some (array out)))
          (λ _ t. contents t ≡ contents s)
          (flush calls s)
  unfolding flush
  flush-Ends s = Ends-bind _ (read-Ends s) (λ requests t h.
      Ends-bind (λ remaining. calls.set_item (some (array remaining)) >>= λ _. return remaining)
        (Ends-weaken (deliver_each-Ends [] requests t tt) (λ out u k. k) (λ e u k. absurd k))
        (λ remaining u k.
          Ends-bind (λ _. return remaining)
            (Ends-weaken (I.set_lem (some (array remaining)) u) (λ _ v e. e)
              (λ _ v e. e ∙ k.1 ∙ h.1))
            (λ _ v e. returned remaining v (k.0, e))))

  read_or_none-Ends :
      (s : S)
      → Ends (λ _ t. contents t ≡ contents s) (λ _ _. ⊥) (on_error (read calls) (λ e. return []) s)
  read_or_none-Ends s =
      Ends-on_error _ (Ends-weaken (read-Ends s) (λ q t h. h.1) (λ e t h. h))
        (λ e t h. returned [] t h)

  sync-Ends :
      (screen : S × View) → Ends (λ _. Synced contents screen) (λ _ _. ⊥) (sync calls screen)
  unfolding sync
  sync-Ends screen =
      let unchanged : S × View → Type 0 =
        λ t. (contents (t.0) ≡ contents (screen.0)) × (t.1 ≡ screen.1) in
      Ends-on_error {P = λ _. unchanged} _
        (Ends-bind _ (lifted-Ends (screen.1) (flush-Ends (screen.0))) (λ remaining t h.
          returned tt _ (record {
            shown = inl (h.0.1, message_for_iff remaining t.1.message (h.0.0));
            keeps_offline = ap View.is_offline (h.1);
          })))
        (λ error t h.
          Ends-bind _
            (Ends-weaken (lifted-Ends (t.1) (read_or_none-Ends (t.0))) (λ _ _ k. k) (λ _ _ k. k.0))
            (λ requests u k. returned tt _ (record {
              shown = inr (k.0 ∙ h.0, refl);
              keeps_offline = ap View.is_offline (k.1 ∙ h.1);
            })))

  -- The storage is as it was and the screen says that the request was not saved; or the request has
  -- been put at the end of the outbox, and that is said, or it has been synchronised.
  abbrev pub Submitted : QueuedAccessRequest → S × View → S × View → Type 0
  Submitted request a b =
      ((contents (b.0) ≡ contents (a.0)) × (b.1.message ≡ some not_saved))
      ⊎ ((middle : S × View) × (contents (middle.0) ≡ enqueue_request request (contents (a.0)))
          × (if a.1.is_offline
              then (b ≡ middle) × (b.1.message ≡ some queued_locally)
              else Synced contents middle b))

  enqueue-Ends :
      (request : QueuedAccessRequest) (s : S)
      → Ends
          (λ _ t. contents t ≡ enqueue_request request (contents s))
          (λ _ t. contents t ≡ contents s)
          (enqueue calls request s)
  unfolding enqueue
  enqueue-Ends request s =
      Ends-bind (λ stored. calls.set_item (enqueue_request request stored)) (I.get_lem s)
        (λ stored t h.
          Ends-weaken (I.set_lem (enqueue_request request stored) t)
            (λ _ u k. k ∙ ap (enqueue_request request) (h.0)) (λ _ u k. k ∙ h.1))

  noted : QueuedAccessRequest → Bool → View → View
  noted request is_offline view = record view {
    outbox = view.outbox ++ request ∷ [];
    message = some (if is_offline then queued_locally else sending);
  }

  -- What follows the saving of the request.
  settled-Ends :
      (request : QueuedAccessRequest) (screen t : S × View)
      → contents (t.0) ≡ enqueue_request request (contents (screen.0))
      → Ends
          (λ _. Submitted request screen)
          (λ _ _. ⊥)
          ((if screen.1.is_offline then return tt else sync calls)
            (t.0, noted request screen.1.is_offline (t.1)))
  unfolding noted
  settled-Ends request screen t h =
      let middle : S × View = (t.0, noted request screen.1.is_offline (t.1)) in
      let outcome : Bool → S × View → Type 0 = λ b u.
        if b
        then (u ≡ middle) × (u.1.message ≡ some queued_locally)
        else Synced contents middle u in
      Ends-if screen.1.is_offline (return tt) (sync calls) middle
        (λ offline. returned tt middle (inr (middle, h, rw offline (refl, refl))))
        (λ online.
          Ends-weaken (sync-Ends middle)
            (λ _ u k. inr (middle, h, subst (λ b. outcome b u) (sym online) k)) (λ _ u k. k))

  -- Whichever calls of the storage and of the service throw, a synchronisation and the making of a
  -- request throw nothing. After a synchronisation the storage has exactly the requests that the
  -- screen shows, and it says that they are delivered exactly where there are none, or the storage is
  -- as it was and the screen says that they wait. A new request is put at the end of the stored
  -- outbox, and then kept there where the device is offline and synchronised where it is not; or the
  -- storage is as it was and the screen says that the request was not saved.
  pub submit-Submitted :
      (request : QueuedAccessRequest) (screen : S × View)
      → Ends (λ _. Synced contents screen) (λ _ _. ⊥) (sync calls screen)
        × Ends (λ _. Submitted request screen) (λ _ _. ⊥) (submit calls request screen)
  unfolding submit noted
  submit-Submitted request screen =
      let kept : Failure → S × View → Type 0 = λ _ t. contents (t.0) ≡ contents (screen.0) in
      (
        sync-Ends screen,
        Ends-on_error {P = kept} _
            (Ends-bind {R = kept} _
              (Ends-weaken (lifted-Ends (screen.1) (enqueue-Ends request (screen.0))) (λ _ _ k. k)
                (λ _ _ k. k.0))
              (λ _ t h.
                Ends-weaken (settled-Ends request screen t (h.0)) (λ _ u k. k) (λ _ u k. absurd k)))
            (λ error t h. returned tt _ (inl (h, refl))),
      )
