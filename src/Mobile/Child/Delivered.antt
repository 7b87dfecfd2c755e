-- ===== src/Mobile/Child/Delivered.antt =====
-- What a flush of an outbox of the native module loses: nothing.
use you_tube_gradian_devin.Common.{
  ℕ, Text, Option, List, [], ◌∷◌, In, ◌≡◌, refl, sym, subst, ◌⊎◌, inl, inr, Result, ok, err,
}
use you_tube_gradian_devin.Common.Programs.{
  Program, Ends, returned, thrown, Ends-bind, Ends-both, Ends-weaken,
}
use you_tube_gradian_devin.Contracts.{SignalSource}
use you_tube_gradian_devin.Mobile.Session.{Failure}
use you_tube_gradian_devin.Mobile.Child.Events.{
  PendingContentRiskEvent, DeviceEvent, upload_event, flush_each, flush_pending_content_risk_events,
}

module _ {S A : Type 0} where
  -- `IsPending a s`: the outbox of the device still holds `a`. `IsDelivered a s`: the service has it.
  -- A delivery that returns has delivered its item; only an acknowledgement takes items out, and
  -- only those that are the same as its own; what is delivered stays delivered.
  pub record IsOutbox (IsSame : A → A → Type 0) (IsPending IsDelivered : A → S → Type 0)
      (deliver acknowledge : A → Program S Failure Unit) : Type 0 where
    pub deliver_pending : (a b : A) (s : S) → IsPending b s → IsPending b ((deliver a s).1)
    pub deliver_delivered : (a b : A) (s : S) → IsDelivered b s → IsDelivered b ((deliver a s).1)
    pub deliver_returns :
        (a : A) (s : S) (u : Unit) → (deliver a s).0 ≡ ok u → IsDelivered a ((deliver a s).1)
    pub acknowledge_pending :
        (a b : A) (s : S) → IsPending b s → IsSame a b ⊎ IsPending b ((acknowledge a s).1)
    pub acknowledge_delivered :
        (a b : A) (s : S) → IsDelivered b s → IsDelivered b ((acknowledge a s).1)

  module _ {IsSame : A → A → Type 0} {IsPending IsDelivered : A → S → Type 0}
      {deliver acknowledge : A → Program S Failure Unit}
      (O : IsOutbox IsSame IsPending IsDelivered deliver acknowledge) where
    -- The service has an item that is the same as this one.
    abbrev pub HasSame : A → S → Type 0
    HasSame b s = (a : A) × (IsSame a b × IsDelivered a s)

    abbrev pub IsSafe : A → S → Type 0
    IsSafe b s = IsPending b s ⊎ HasSame b s

    deliver-IsSafe : (a b : A) (s : S) → IsSafe b s → IsSafe b ((deliver a s).1)
    deliver-IsSafe a b s (inl p) = inl (O.deliver_pending a b s p)
    deliver-IsSafe a b s (inr (c, (same, d))) = inr (c, (same, O.deliver_delivered a c s d))

    acknowledge-IsSafe :
        (a b : A) (s : S) → IsDelivered a s → IsSafe b s → IsSafe b ((acknowledge a s).1)
    acknowledge-IsSafe a b s has (inl p) = elim (O.acknowledge_pending a b s p) [
      | inl same ↦ inr (a, (same, O.acknowledge_delivered a a s has))
      | inr q ↦ inl q
    ]
    acknowledge-IsSafe a b s has (inr (c, (same, d))) =
        inr (c, (same, O.acknowledge_delivered a c s d))

    -- What one round for `a` does to `b`.
    abbrev IsRound : A → A → S → S → Type 0
    IsRound a b s t = IsDelivered a t × IsSafe b t × (IsDelivered b s → IsDelivered b t)

    deliver-Ends :
        (a b : A) (s : S)
        → IsSafe b s
        → Ends (λ _ t. IsRound a b s t) (λ _ t. IsSafe b t) (deliver a s)
    deliver-Ends a b s safe =
        after (deliver a s) (O.deliver_returns a s) (deliver-IsSafe a b s safe)
          (O.deliver_delivered a b s)
      where
        after :
            (x : Result Failure Unit × S)
            → ((u : Unit) → x.0 ≡ ok u → IsDelivered a (x.1))
            → IsSafe b (x.1)
            → (IsDelivered b s → IsDelivered b (x.1))
            → Ends (λ _ t. IsRound a b s t) (λ _ t. IsSafe b t) x
        after (ok u, t) has still kept = returned u t (has u refl, still, kept)
        after (err e, t) has still kept = thrown e t still

    acknowledge-Ends :
        (a b : A) (s t : S)
        → IsRound a b s t
        → Ends (λ _ u. IsRound a b s u) (λ _ u. IsSafe b u) (acknowledge a t)
    acknowledge-Ends a b s t (has, safe, kept) =
        Ends-weaken
          (Ends-both {P = λ u. IsRound a b s u} (acknowledge a t) (
            O.acknowledge_delivered a a t has,
            acknowledge-IsSafe a b t has safe,
            λ d. O.acknowledge_delivered a b t (kept d),
          ))
          (λ _ u h. h) (λ _ u h. h.1)

    flush_each-Ends :
        (items : List A) (b : A) (s : S)
        → IsSafe b s
        → Ends
            (λ _ t. (In b items ⊎ IsDelivered b s → IsDelivered b t) × IsSafe b t)
            (λ _ t. IsSafe b t)
            (flush_each deliver acknowledge items s)
    unfolding flush_each
    flush_each-Ends [] b s safe =
        returned tt s (λ h. elim h [ inl m ↦ elim m [ ] | inr d ↦ d ], safe)
    flush_each-Ends (a ∷ items) b s safe = Ends-bind _ (deliver-Ends a b s safe) (λ _ t h.
        Ends-bind _ (acknowledge-Ends a b s t h) (λ _ u (has, still, kept).
          Ends-weaken (flush_each-Ends items b u still)
            (λ _ v (delivered, safe_now). (
              λ from. elim from [
                | inl m ↦ elim m [
                  | inl e ↦ delivered (inr (subst (λ c. IsDelivered c u) (sym e) has))
                  | inr there ↦ delivered (inl there)
                ]
                | inr d ↦ delivered (inr (kept d))
              ],
              safe_now,
            ))
            (λ _ v safe_now. safe_now)))

-- The key by which the native module takes events out of its outbox, and by which the service knows
-- them.
pub record IsSameEvent {R : Type 0} (a b : PendingContentRiskEvent R) : Type 0 where
  pub signal_source : a.signal_source ≡ b.signal_source
  pub app_ref : a.app_ref ≡ b.app_ref
  pub fingerprint : a.fingerprint ≡ b.fingerprint

-- While an upload that returns has delivered its event, and an acknowledgement takes only events of
-- its own source, application and fingerprint out of the outbox: a flush loses no event, however it
-- ends. Each event that the device's outbox held is still there, or an event of the same source,
-- application and fingerprint has been delivered; and where the flush returns, each event of its list
-- has itself been delivered.
pub flush_pending_content_risk_events-IsSafe :
    {S R : Type 0} (IsPending IsDelivered : PendingContentRiskEvent R → S → Type 0)
    (to_iso : ℕ → Option Text) (upload : DeviceEvent R → Text → Program S Failure Unit)
    (acknowledge : SignalSource → Text → Text → Program S Failure Unit)
    → (O : IsOutbox IsSameEvent IsPending IsDelivered
        (upload_event to_iso upload)
        (λ event. acknowledge event.signal_source event.app_ref event.fingerprint))
    → (events : List (PendingContentRiskEvent R)) (event : PendingContentRiskEvent R) (s : S)
    → IsPending event s
    → Ends
        (λ _ t. (In event events → IsDelivered event t) × IsSafe O event t)
        (λ _ t. IsSafe O event t)
        (flush_pending_content_risk_events to_iso events upload acknowledge s)
unfolding flush_pending_content_risk_events
flush_pending_content_risk_events-IsSafe IsPending IsDelivered to_iso upload acknowledge O events
      event s held =
    Ends-weaken (flush_each-Ends O events event s (inl held))
      (λ _ t (delivered, safe). (λ m. delivered (inl m), safe)) (λ _ t safe. safe)
