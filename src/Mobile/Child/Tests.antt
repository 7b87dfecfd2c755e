-- ===== src/Mobile/Child/Tests.antt =====
-- An outbox with two events, a service of reputations, and the theorems on them.
use you_tube_gradian_devin.Common.{
  ℕ, ◌+◌, Text, text, text_eq, text_eq_iff, Option, some, ◌&&◌, if◌then◌else◌, Bool-cases, subst,
  sym, ◌==◌, ==_iff, ap, ◌∙◌, List, [], ◌∷◌, Bool, true, false, ◌≡◌, refl, ok, err, In, inl, inr,
  ◌⊎◌,
}
use you_tube_gradian_devin.Common.Programs.{Program, Ends}
use you_tube_gradian_devin.Contracts.{
  SignalSource, CapabilityLevel, ContentAction, ContentRiskSeverity,
}
use you_tube_gradian_devin.Mobile.Session.{Failure}
use you_tube_gradian_devin.Mobile.Session.Network.{plain_error}
use you_tube_gradian_devin.Mobile.Child.Events.{
  PendingContentRiskEvent, DeviceEvent, device_event, content_risk_event_to_device_event,
  upload_event, flush_each, flush_pending_content_risk_events,
}
use you_tube_gradian_devin.Mobile.Child.Delivered.{
  IsOutbox, IsSafe, IsSameEvent, flush_pending_content_risk_events-IsSafe,
}
use you_tube_gradian_devin.Mobile.Child.Reputation.{ApplyResult, ReputationCalls}
use you_tube_gradian_devin.Mobile.Child.Received.{Received}

abbrev event : PendingContentRiskEvent ℕ
event = record {
  signal_source = SignalSource.notification;
  app_ref = text "chat";
  fingerprint = text "f1";
  category = text "BULLYING_HARASSMENT";
  severity = ContentRiskSeverity.high;
  confidence = 93;
  reason_code = text "BULLYING_TARGETED";
  classifier_version = text "1";
  capability_level = CapabilityLevel.limited;
  action = ContentAction.warn;
  occurred_at_millis = 0;
}

abbrev iso : ℕ → Option Text
iso millis = some (text "1970")

-- The events that the device holds, and those that the service has; the device is offline once the
-- service has one event.
abbrev World : Type 0
World = List (PendingContentRiskEvent ℕ) × List (DeviceEvent ℕ)

abbrev upload : DeviceEvent ℕ → Text → Program World Failure Unit
upload e key (held, []) = (ok tt, (held, e ∷ []))
upload e key (held, sent ∷ more) = (err (plain_error (text "offline")), (held, sent ∷ more))

-- Another event of the same chat that is still held.
abbrev other : PendingContentRiskEvent ℕ
other = record event { fingerprint = text "f2" }

abbrev number : SignalSource → ℕ
number SignalSource.notification = 0
number SignalSource.accessibility_text = 1
number SignalSource.network_destination = 2
number SignalSource.usage = 3
number SignalSource.media_metadata = 4

source_at : ℕ → SignalSource
source_at n =
    if n == 0
    then SignalSource.notification
    else if n == 1
    then SignalSource.accessibility_text
    else if n == 2
    then SignalSource.network_destination
    else if n == 3
    then SignalSource.usage
    else SignalSource.media_metadata

abbrev has_key : SignalSource → Text → Text → PendingContentRiskEvent ℕ → Bool
has_key source app_ref fingerprint e =
    number source == number e.signal_source
    && (text_eq app_ref e.app_ref && text_eq fingerprint e.fingerprint)

-- `acknowledgeContentRiskEvent` of the native module.
remaining :
    SignalSource → Text → Text → List (PendingContentRiskEvent ℕ) → List (PendingContentRiskEvent ℕ)
remaining source app_ref fingerprint [] = []
remaining source app_ref fingerprint (e ∷ es) =
    let rest = remaining source app_ref fingerprint es in
    if has_key source app_ref fingerprint e then rest else e ∷ rest

abbrev acknowledge : SignalSource → Text → Text → Program World Failure Unit
acknowledge source app_ref fingerprint (held, sent) =
    (ok tt, (remaining source app_ref fingerprint held, sent))

abbrev IsPending : PendingContentRiskEvent ℕ → World → Type 0
IsPending e world = In e (world.0)

abbrev IsDelivered : PendingContentRiskEvent ℕ → World → Type 0
IsDelivered e world = In (device_event (text "1970") e) (world.1)

number-injective : (a b : SignalSource) → number a ≡ number b → a ≡ b
unfolding source_at
number-injective a b h = sym (source_at-number a) ∙ (ap source_at h ∙ source_at-number b)
  where
    source_at-number : (c : SignalSource) → source_at (number c) ≡ c
    source_at-number SignalSource.notification = refl
    source_at-number SignalSource.accessibility_text = refl
    source_at-number SignalSource.network_destination = refl
    source_at-number SignalSource.usage = refl
    source_at-number SignalSource.media_metadata = refl

both_hold : (a b : Bool) → (a && b) ≡ true → (a ≡ true) × (b ≡ true)
both_hold true b h = (refl, h)
both_hold false b h = cc

same_key :
    (a b : PendingContentRiskEvent ℕ)
    → has_key a.signal_source a.app_ref a.fingerprint b ≡ true
    → IsSameEvent a b
same_key a b h =
    let (sources, rest) = both_hold _ _ h in
    let (apps, fingerprints) = both_hold _ _ rest in
    record {
      signal_source = number-injective _ _ ((==_iff _ _).0 sources);
      app_ref = (text_eq_iff _ _).0 apps;
      fingerprint = (text_eq_iff _ _).0 fingerprints;
    }

In-remaining :
    (a b : PendingContentRiskEvent ℕ) (held : List (PendingContentRiskEvent ℕ))
    → In b held
    → IsSameEvent a b ⊎ In b (remaining a.signal_source a.app_ref a.fingerprint held)
unfolding remaining
In-remaining a b [] m = elim m [ ]
In-remaining a b (e ∷ es) m =
    elim (Bool-cases (has_key a.signal_source a.app_ref a.fingerprint e)) [
      | inl yes_same ↦ rw yes_same (elim m [
        | inl here ↦ inl (subst (IsSameEvent a) (sym here) (same_key a e yes_same))
        | inr there ↦ In-remaining a b es there
      ])
      | inr differs ↦ rw differs (elim m [
        | inl here ↦ inr (inl here)
        | inr there ↦ elim (In-remaining a b es there) [ inl same ↦ inl same | inr n ↦ inr (inr n) ]
      ])
    ]

offline-IsOutbox :
    IsOutbox IsSameEvent IsPending IsDelivered
      (upload_event iso upload)
      (λ e. acknowledge e.signal_source e.app_ref e.fingerprint)
unfolding content_risk_event_to_device_event
offline-IsOutbox = record {
  deliver_pending = pending_kept;
  deliver_delivered = delivered_kept;
  deliver_returns = now_delivered;
  acknowledge_pending = λ a b (held, sent) m. In-remaining a b held m;
  acknowledge_delivered = λ a b world m. m;
}
  where
    pending_kept :
        (a b : PendingContentRiskEvent ℕ) (world : World)
        → IsPending b world
        → IsPending b ((upload_event iso upload a world).1)
    pending_kept a b (held, []) m = m
    pending_kept a b (held, sent ∷ more) m = m

    delivered_kept :
        (a b : PendingContentRiskEvent ℕ) (world : World)
        → IsDelivered b world
        → IsDelivered b ((upload_event iso upload a world).1)
    delivered_kept a b (held, []) m = inr m
    delivered_kept a b (held, sent ∷ more) m = m

    now_delivered :
        (a : PendingContentRiskEvent ℕ) (world : World) (u : Unit)
        → (upload_event iso upload a world).0 ≡ ok u
        → IsDelivered a ((upload_event iso upload a world).1)
    now_delivered a (held, []) u e = inl refl
    now_delivered a (held, sent ∷ more) u e = cc

-- The first event is delivered and taken out; the device is offline for the second, which it holds.
second_held :
    (flush_pending_content_risk_events iso
      (event ∷ other ∷ [])
      upload
      acknowledge
      (event ∷ other ∷ [], [])).1
    ≡ (other ∷ [], device_event (text "1970") event ∷ [])
unfolding flush_pending_content_risk_events flush_each content_risk_event_to_device_event remaining
    text_eq
second_held = refl

flush_pending_content_risk_events-IsSafe_example :
    Ends
      (λ _ t.
        (In other (event ∷ other ∷ []) → IsDelivered other t) × IsSafe offline-IsOutbox other t)
      (λ _ t. IsSafe offline-IsOutbox other t)
      (flush_pending_content_risk_events iso
        (event ∷ other ∷ [])
        upload
        acknowledge
        (event ∷ other ∷ [], []))
flush_pending_content_risk_events-IsSafe_example =
    flush_pending_content_risk_events-IsSafe IsPending IsDelivered iso upload acknowledge
      offline-IsOutbox (event ∷ other ∷ []) other (event ∷ other ∷ [], []) (inr (inl refl))

abbrev by_target : List (Text × ℕ)
by_target = (text "APP:games", 90000) ∷ (text "CATEGORY:GAMES", 90000) ∷ (text "APP:chat", 0) ∷ []

abbrev today : Text
today = text "2026-01-01"

-- The fetches and the bundles that have been taken; the first delta has a gap, a full bundle is taken.
abbrev Device : Type 0
Device = ℕ × List Bool

abbrev take_bundle : Bool → Program Device Failure ApplyResult
take_bundle true (n, taken) = (ok (record { applied = true; reason = [] }), (n, true ∷ taken))
take_bundle false (n, taken) =
    (ok (record { applied = false; reason = text "DELTA_GAP" }), (n, taken))

abbrev calls : ReputationCalls Device Bool
calls = record {
  get_version = λ d. (ok (some 3), d);
  fetch = λ v (n, taken).
      (ok (record { bundle = some true; deltas = false ∷ true ∷ [] }), (n + 1, taken));
  apply = take_bundle;
}

abbrev Stands : Bool → Device → Type 0
Stands b device = In b (device.1)
