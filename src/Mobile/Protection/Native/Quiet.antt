-- ===== src/Mobile/Protection/Native/Quiet.antt =====
-- The calls that the screen makes for native events, by what they leave alone.
use you_tube_gradian_devin.Common.{
  ℕ, Text, text, truthy, starts_with, ◌&&◌, Option, none, some, List, [], ◌∷◌, ◌++◌, ◌≡◌, refl, ap,
  ◌∙◌, arith, Result,
}
use you_tube_gradian_devin.Common.Programs.{
  Program, return, ◌>>=◌, Goes, IsGraded, Goes-bind, Goes-both, Ends, Ends-bind, Ends-both,
  Ends-weaken, Ends-on_error, returned,
}
use you_tube_gradian_devin.Common.Programs.Screens.{lifted, lift, update, lifted-Ends, ignored}
use you_tube_gradian_devin.Common.Programs.Endings.{Ends-if}
use you_tube_gradian_devin.Mobile.Session.{Failure}
use you_tube_gradian_devin.Mobile.Child.Reputation.{sync_reputation}
use you_tube_gradian_devin.Mobile.Child.Fetches.{sync_reputation-Goes}
use you_tube_gradian_devin.Mobile.Protection.View.{
  ProtectionStatus, Capabilities, WebBlocked, View, shown,
}
use you_tube_gradian_devin.Mobile.Protection.Calls.{ProtectionCalls}
use you_tube_gradian_devin.Mobile.Protection.Sync.{refresh_native_protection}
use you_tube_gradian_devin.Mobile.Protection.Native.{
  blocked_device_event, report_blocked, classify_pending,
}
use you_tube_gradian_devin.Mobile.Protection.Native.Told.{
  ◌or_before◌, time_said, IsReporting, Leaves, Leaves-trans,
}

module _ {S B R A N : Type 0} (calls : ProtectionCalls S B R A N) (sent : S → List (Option Text))
    (I : IsReporting calls sent) where
  -- A program that sends nothing and changes none of those parts of the screen.
  Keeps : ℕ → S → S → Type 0
  Keeps n s t = sent t ≡ sent s

  Keeps-IsGraded : IsGraded Keeps
  unfolding Keeps
  Keeps-IsGraded = record {
    nothing = λ s. refl;
    and_then = λ a b s t u f g. g ∙ f;
    at_least = λ a b s t le f. f;
  }

  -- The screen says something, and nothing is sent.
  pub said :
      (app time : Option Text) (s : S) {a b : View}
      → b.blocked_event_count ≡ a.blocked_event_count
      → b.blocked_event ≡ a.blocked_event
      → b.app_blocked_message ≡ app or_before a.app_blocked_message
      → b.time_message ≡ time or_before a.time_message
      → Leaves sent 0 none app time [] (s, a) (s, b)
  said app time s count blocked app_said time_said = record {
    count = omega (arith, count);
    blocked = blocked;
    app_message = app_said;
    time_message = time_said;
    sent_reports = refl;
  }

  abbrev pub LeavesNothing : ℕ → S × View → S × View → Type 0
  LeavesNothing n = Leaves sent 0 none none none []

  pub LeavesNothing-IsGraded : IsGraded LeavesNothing
  LeavesNothing-IsGraded = record {
    nothing = λ s. said none none (s.0) refl refl refl refl;
    and_then = λ a b s t u f g. Leaves-trans sent f g;
    at_least = λ a b s t le f. f;
  }

  -- A call changes nothing of the screen.
  lifted-Leaves :
      {C : Type 0} (sends : List (Option Text)) (screen : S × View) (x : Result Failure C × S)
      → sent (x.1) ≡ sends ++ sent (screen.0)
      → Leaves sent 0 none none none sends screen ((lifted (screen.1) x).1)
  lifted-Leaves sends screen (r, t) h = record {
    count = omega arith;
    blocked = refl;
    app_message = refl;
    time_message = refl;
    sent_reports = h;
  }

  pub ignored-Ends :
      {T : Type 0} {P : T → Type 0} (m : Program T Failure Unit) (s : T)
      → P ((m s).1)
      → Ends (λ _. P) (λ _ _. ⊥) (ignored m s)
  ignored-Ends {T} {P} m s h =
      Ends-on_error _ (Ends-both {P = P} (m s) h) (λ e t k. returned tt t k)

  kept-Goes :
      {C : Type 0} (m : Program S Failure C) → ((s : S) → sent ((m s).1) ≡ sent s) → Goes Keeps 0 m
  unfolding Keeps
  kept-Goes m h = record { goes = h }

  lifted-Goes :
      {C : Type 0} (m : Program S Failure C) → Goes Keeps 0 m → Goes LeavesNothing 0 (lift m)
  unfolding Keeps
  lifted-Goes m g = record {
    goes = λ screen. lifted-Leaves [] screen (m (screen.0)) (g.goes (screen.0));
  }

  shown-Goes :
      (status : ProtectionStatus) (capabilities : Capabilities)
      → Goes {E = Failure} LeavesNothing 0 (update (shown status capabilities))
  unfolding shown
  shown-Goes status capabilities = record {
    goes = λ screen. said none none (screen.0) refl refl refl refl;
  }

  pub refresh-Goes : Goes LeavesNothing 0 (refresh_native_protection calls)
  unfolding refresh_native_protection
  refresh-Goes =
      Goes-bind LeavesNothing-IsGraded
        (lifted-Goes _ (
          Goes-both Keeps-IsGraded (kept-Goes calls.get_protection_status I.statuses)
            (kept-Goes calls.get_capabilities I.capabilities)))
        (λ found. shown-Goes (found.0) (found.1))

  fetch-Goes : (v : ℕ) → Goes Keeps 1 (calls.reputation.fetch v)
  unfolding Keeps
  fetch-Goes v = record { goes = I.fetches v }

  classified-Goes :
      (domain : Text)
      → Goes Keeps 2 (calls.classify_domain domain >>= λ _. sync_reputation calls.reputation)
  classified-Goes domain =
      Goes-bind Keeps-IsGraded (kept-Goes (calls.classify_domain domain) (I.classifies domain))
        (λ _.
          sync_reputation-Goes calls.reputation Keeps-IsGraded
            (kept-Goes calls.reputation.get_version I.versions) fetch-Goes
            (λ b. kept-Goes (calls.reputation.apply b) (I.applies b)))

  pub classify_pending-Ends :
      (domain : Option Text) (reason_code : Text) (s : S)
      → Ends (λ _ t. sent t ≡ sent s) (λ _ _. ⊥) (classify_pending calls domain reason_code s)
  unfolding classify_pending Keeps
  classify_pending-Ends none reason_code s = returned tt s refl
  classify_pending-Ends (some domain) reason_code s =
      let m : Program S Failure Unit =
        calls.classify_domain domain >>= λ _. sync_reputation calls.reputation in
      let is_pending = truthy domain && starts_with (text "REPUTATION_PENDING") reason_code in
      Ends-if is_pending (ignored m) (return tt) s
        (λ _. ignored-Ends {P = λ t. sent t ≡ sent s} m s ((classified-Goes domain).goes s))
        (λ _. returned tt s refl)

  pub report_blocked-Ends :
      (event : WebBlocked) (s : S)
      → Ends
          (λ _ t. sent t ≡ event.correlation_id ∷ sent s)
          (λ _ _. ⊥)
          (report_blocked calls event s)
  unfolding report_blocked
  report_blocked-Ends event s = Ends-bind _ (I.clock s) (λ occurred_at t h.
      let e = blocked_device_event occurred_at event in
      ignored-Ends {P = λ u. sent u ≡ event.correlation_id ∷ sent s}
        (calls.ingest_event e event.correlation_id) t
        (I.reports_event e event.correlation_id t ∙ ap (λ z. event.correlation_id ∷ z) h))

  pub lift_Ends :
      (sends : List (Option Text)) (screen : S × View) (m : Program S Failure Unit)
      → Ends (λ _ t. sent t ≡ sends ++ sent (screen.0)) (λ _ _. ⊥) (m (screen.0))
      → Ends (λ _. Leaves sent 0 none none none sends screen) (λ _ _. ⊥) (lift m screen)
  lift_Ends sends screen m ends =
      Ends-weaken (lifted-Ends (screen.1) ends)
        (λ a t k. record {
          count = omega (arith, ap View.blocked_event_count (k.1));
          blocked = ap View.blocked_event (k.1);
          app_message = ap View.app_blocked_message (k.1);
          time_message = ap View.time_message (k.1);
          sent_reports = k.0;
        })
        (λ e t k. k.0)
