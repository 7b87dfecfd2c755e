-- ===== src/Mobile/Protection/Protocol/Stays.antt =====
-- The calls of the home screen of a child's device that leave the protocol in its phase.
use you_tube_gradian_devin.Common.{
  ℕ, Text, Option, none, some, List, [], ◌∷◌, true, false, ◌≡◌, sym, subst, Result,
}
use you_tube_gradian_devin.Common.Programs.{
  Program, ◌>>=◌, Goes, IsGraded, Goes-return, Goes-throw, Goes-bind, Goes-on_error, Goes-settled,
  Goes-both, Ends, returned, thrown,
}
use you_tube_gradian_devin.Common.Programs.Screens.{OnState, lift, update, lift-Goes, ignored}
use you_tube_gradian_devin.Mobile.Session.{Failure}
use you_tube_gradian_devin.Mobile.Session.Bounds.{Goes-if}
use you_tube_gradian_devin.Mobile.Child.Events.{
  UsageEvent, DeviceEvent, risk_key, upload_converted, content_risk_event_to_device_event,
  flush_each, flush_content_review_outbox, flush_pending_content_risk_events, app_usage_events,
}
use you_tube_gradian_devin.Mobile.Child.Reputation.{sync_reputation}
use you_tube_gradian_devin.Mobile.Child.Fetches.{sync_reputation-Goes}
use you_tube_gradian_devin.Mobile.Protection.View.{View, Capabilities, active, unavailable, shown}
use you_tube_gradian_devin.Mobile.Protection.Calls.{ProtectionCalls}
use you_tube_gradian_devin.Mobile.Protection.Sync.{
  say, unless_cancelled, refresh_native_protection, flush_reviews, flush_content_risk_outbox,
  send_events, send_usage, upload_usage, upload_inventory, refresh_opportunistic, report_reputation,
  finish_sync, recover_protection,
}
use you_tube_gradian_devin.Mobile.Protection.Protocol.{
  Event, saw_capabilities, Phase, look, Since, next, IsLogged,
}

module _ {S B R A N : Type 0} (calls : ProtectionCalls S B R A N) (log : S → List Event)
    (L : IsLogged calls log) (version : ℕ) (base : List Event) (p : Phase) where
  abbrev pub Stays : ℕ → S → S → Type 0
  Stays n s t = Since version base (log s) p → Since version base (log t) p

  Stays-IsGraded : IsGraded Stays
  Stays-IsGraded = record {
    nothing = λ s h. h;
    and_then = λ a b s t u f g h. g (f h);
    at_least = λ a b s t le f. f;
  }

  abbrev pub StaysScreen : ℕ → S × View → S × View → Type 0
  StaysScreen = OnState Stays

  pub StaysScreen-IsGraded : IsGraded StaysScreen
  StaysScreen-IsGraded = record {
    nothing = λ s h. h;
    and_then = λ a b s t u f g h. g (f h);
    at_least = λ a b s t le f. f;
  }

  -- A call that logs nothing.
  quiet :
      {C : Type 0} (m : Program S Failure C) → ((s : S) → log ((m s).1) ≡ log s) → Goes Stays 0 m
  quiet m keeps = record { goes = λ s h. subst (λ l. Since version base l p) (sym (keeps s)) h }

  seen :
      (s : S) (x : Result Failure Capabilities × S)
      → Ends (λ c t. log t ≡ saw_capabilities c ∷ log s) (λ _ t. log t ≡ log s) x
      → Stays 0 s (x.1)
  seen s x (returned c t e) h = subst (λ l. Since version base l p) (sym e) (next h (look p c))
  seen s x (thrown error t e) h = subst (λ l. Since version base l p) (sym e) h

  capabilities-Goes : Goes Stays 0 calls.get_capabilities
  capabilities-Goes = record {
    goes = λ s. seen s (calls.get_capabilities s) (L.capabilities_log s);
  }

  ignored-Goes : (m : Program S Failure Unit) → Goes Stays 0 m → Goes Stays 0 (ignored m)
  ignored-Goes m g = Goes-on_error Stays-IsGraded g (λ _. Goes-return Stays-IsGraded tt)

  flush_each-Goes :
      {C : Type 0} (deliver acknowledge : C → Program S Failure Unit)
      → ((c : C) → Goes Stays 0 (deliver c))
      → ((c : C) → Goes Stays 0 (acknowledge c))
      → (items : List C) → Goes Stays 0 (flush_each deliver acknowledge items)
  unfolding flush_each
  flush_each-Goes deliver acknowledge d a [] = Goes-return Stays-IsGraded tt
  flush_each-Goes deliver acknowledge d a (item ∷ items) =
      let G = Stays-IsGraded in
      Goes-bind G (d item)
        (λ _. Goes-bind G (a item) (λ _. flush_each-Goes deliver acknowledge d a items))

  flush_reviews-Goes : Goes Stays 0 (flush_reviews calls)
  unfolding flush_reviews flush_content_review_outbox
  flush_reviews-Goes =
      Goes-bind Stays-IsGraded (quiet calls.pending_reviews L.reviews_keep) (λ requests.
        flush_each-Goes _ _ (λ r. quiet _ (L.create_keeps r _))
          (λ r. quiet _ (L.review_done_keeps _ _)) requests)

  converted-Goes :
      (key : Text) (event : Option (DeviceEvent N))
      → Goes Stays 0 (upload_converted calls.ingest_risk key event)
  converted-Goes key none = Goes-throw Stays-IsGraded _
  converted-Goes key (some event) = quiet _ (L.ingest_risk_keeps event key)

  flush_risks-Goes : Goes Stays 0 (flush_content_risk_outbox calls)
  unfolding flush_content_risk_outbox flush_pending_content_risk_events
  flush_risks-Goes = Goes-bind Stays-IsGraded (quiet calls.pending_risks L.risks_keep) (λ events.
      flush_each-Goes _ _
        (λ e. converted-Goes (risk_key e) (content_risk_event_to_device_event calls.to_iso e))
        (λ e. quiet _ (L.risk_done_keeps _ _ _)) events)

  opportunistic-Goes : Goes Stays 0 (refresh_opportunistic calls)
  unfolding refresh_opportunistic
  opportunistic-Goes =
      let G = Stays-IsGraded in
      Goes-bind G
        (ignored-Goes _ (
          Goes-bind G (quiet calls.content_approvals L.approvals_keep)
            (λ a. quiet (calls.apply_content_approvals a) (L.apply_approvals_keeps a))))
        (λ _.
          Goes-bind G (ignored-Goes _ flush_reviews-Goes) (λ _. ignored-Goes _ flush_risks-Goes))

  -- The phase does not count effects.
  uncounted : {C : Type 0} {a b : ℕ} {m : Program S Failure C} → Goes Stays a m → Goes Stays b m
  uncounted g = record { goes = g.goes }

  reputation-Goes : Goes Stays 0 (sync_reputation calls.reputation)
  reputation-Goes = uncounted {a = 2} (
      sync_reputation-Goes calls.reputation Stays-IsGraded
        (quiet calls.reputation.get_version L.version_keeps)
        (λ v. uncounted {a = 0} (quiet (calls.reputation.fetch v) (L.fetch_keeps v)))
        (λ b. quiet (calls.reputation.apply b) (L.reputation_keeps b)))

  pub status-Goes : Goes StaysScreen 0 (lift calls.get_protection_status)
  status-Goes = lift-Goes (quiet calls.get_protection_status L.status_keeps)

  pub looked-Goes : Goes StaysScreen 0 (lift calls.get_capabilities)
  looked-Goes = lift-Goes capabilities-Goes

  pub update-Goes : (f : View → View) → Goes {E = Failure} StaysScreen 0 (update f)
  update-Goes f = record { goes = λ screen h. h }

  pub unless_cancelled-Goes :
      (m : Program (S × View) Failure Unit)
      → Goes StaysScreen 0 m
      → Goes StaysScreen 0 (unless_cancelled calls m)
  unless_cancelled-Goes m g = record {
    goes = λ screen.
        (Goes-if (calls.is_cancelled (screen.0)) (Goes-return StaysScreen-IsGraded tt) g).goes
          screen;
  }

  refresh-Goes : Goes StaysScreen 0 (refresh_native_protection calls)
  unfolding refresh_native_protection
  refresh-Goes =
      Goes-bind StaysScreen-IsGraded
        (lift-Goes (
          Goes-both Stays-IsGraded (quiet calls.get_protection_status L.status_keeps)
            capabilities-Goes))
        (λ found. update-Goes (shown (found.0) (found.1)))

  send_events-Goes : (events : List UsageEvent) → Goes Stays 0 (send_events calls events)
  unfolding send_events
  send_events-Goes [] = Goes-return Stays-IsGraded tt
  send_events-Goes (event ∷ events) =
      quiet (calls.ingest_usage (event ∷ events)) (L.ingest_usage_keeps (event ∷ events))

  send_usage-Goes : (by_target : List (Text × ℕ)) → Goes Stays 0 (send_usage calls by_target)
  unfolding send_usage
  send_usage-Goes by_target =
      Goes-bind Stays-IsGraded (quiet calls.now L.now_keeps)
        (λ occurred_at. send_events-Goes (app_usage_events by_target occurred_at))

  upload_usage-Goes : Goes StaysScreen 0 (upload_usage calls)
  unfolding upload_usage
  upload_usage-Goes = record {
    goes = λ screen.
        let G = StaysScreen-IsGraded in
        (Goes-if (screen.1.usage_uploaded) (Goes-return G tt) (
            Goes-bind G (lift-Goes (quiet calls.get_usage_summary L.usage_keeps)) (λ by_target.
              Goes-bind G (lift-Goes (send_usage-Goes by_target))
                (λ _. update-Goes (λ view. record view { usage_uploaded = true }))))).goes
          screen;
  }

  upload_inventory-Goes : Goes StaysScreen 0 (upload_inventory calls)
  unfolding upload_inventory
  upload_inventory-Goes = record {
    goes = λ screen.
        let G = StaysScreen-IsGraded in
        (Goes-if (screen.1.inventory_uploaded) (Goes-return G tt) (
            Goes-bind G (lift-Goes (quiet calls.get_observed_apps L.observed_keeps)) (λ apps.
              Goes-bind G (lift-Goes (quiet (calls.ingest_inventory apps) (L.inventory_keeps apps)))
                (λ _. update-Goes (λ view. record view { inventory_uploaded = true }))))).goes
          screen;
  }

  report_reputation-Goes : Goes StaysScreen 0 (report_reputation calls)
  unfolding report_reputation
  report_reputation-Goes =
      let G = StaysScreen-IsGraded in
      Goes-on_error G
        (Goes-bind G (lift-Goes reputation-Goes) (λ _.
          unless_cancelled-Goes _
            (update-Goes (λ view. record view { reputation_unavailable = false }))))
        (λ _.
          unless_cancelled-Goes _
            (update-Goes (λ view. record view { reputation_unavailable = true })))

  finish_sync-Goes : Goes StaysScreen 0 (finish_sync calls)
  unfolding finish_sync
  finish_sync-Goes =
      let G = StaysScreen-IsGraded in
      Goes-bind G (Goes-settled upload_usage-Goes) (λ _.
        Goes-bind G (Goes-settled upload_inventory-Goes) (λ _.
          Goes-bind G
            (lift-Goes (
              Goes-if calls.is_dev (quiet calls.get_performance_metrics L.metrics_keep)
                (Goes-return Stays-IsGraded tt)))
            (λ _. refresh-Goes)))

  -- What the effect does once the heartbeat is sent.
  pub after_heartbeat-Goes :
      (v : ℕ)
      → Goes StaysScreen 0 (
          lift (refresh_opportunistic calls) >>= λ _.
          update
            (λ view. record view { acknowledged_version = some v; protection_message = active })
          >>= λ _. report_reputation calls >>= λ _. finish_sync calls)
  after_heartbeat-Goes v =
      let G = StaysScreen-IsGraded in
      Goes-bind G (lift-Goes opportunistic-Goes) (λ _.
        Goes-bind G
          (update-Goes
            (λ view. record view { acknowledged_version = some v; protection_message = active }))
          (λ _. Goes-bind G report_reputation-Goes (λ _. finish_sync-Goes)))

  pub recover_protection-Goes : Goes StaysScreen 0 (recover_protection calls)
  unfolding recover_protection
  recover_protection-Goes = unless_cancelled-Goes _ (
      Goes-on_error StaysScreen-IsGraded refresh-Goes
        (λ _. unless_cancelled-Goes _ (update-Goes (say unavailable))))
