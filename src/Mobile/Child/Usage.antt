-- ===== src/Mobile/Child/Usage.antt =====
-- The usage that `appUsageEvents` reports.
use Prim.Native.Nat.{min}
use you_tube_gradian_devin.Common.{
  ℕ, ◌<◌, Text, text, List, [], ◌∷◌, ◌++◌, In, filter, ◌≡◌, refl, sym, ap, inl, inr, arith, Bool,
  Bool-cases, true, false, ◌&&◌, starts_with, ltb, ltb→lt, subst,
}
use you_tube_gradian_devin.Common.Prefixes.{starts_with-drop, starts_with-append}
use you_tube_gradian_devin.Mobile.Child.Events.{
  UsageEvent, app_usage_events, is_app_usage, usage_event,
}

-- What an event says of the map that the native module returns.
pub record IsReported (by_target : List (Text × ℕ)) (occurred_at : Text) (event : UsageEvent)
    : Type 0 where
  pub seconds : ℕ
  pub listed : In (text "APP:" ++ event.app_ref, seconds) by_target
  pub positive : 0 < seconds
  pub duration : event.duration_seconds ≡ min seconds 86400
  pub at : event.occurred_at ≡ occurred_at

and_left : (a b : Bool) → (a && b) ≡ true → a ≡ true
and_left true b h = refl
and_left false b h = cc

and_right : (a b : Bool) → (a && b) ≡ true → b ≡ true
and_right true b h = h
and_right false b h = cc

usage_event-IsReported :
    (target : Text) (seconds : ℕ) (by_target : List (Text × ℕ)) (occurred_at : Text)
    → is_app_usage (target, seconds) ≡ true
    → IsReported
        ((target, seconds) ∷ by_target)
        occurred_at
        (usage_event occurred_at (target, seconds))
usage_event-IsReported target seconds by_target occurred_at h = record {
  seconds = seconds;
  listed = inl (
      ap (λ x. (x, seconds))
        (sym (
          starts_with-drop (text "APP:") target
            (and_left (starts_with (text "APP:") target) (ltb 0 seconds) h))));
  positive = ltb→lt 0 seconds (and_right (starts_with (text "APP:") target) (ltb 0 seconds) h);
  duration = refl;
  at = refl;
}

later-IsReported :
    {x : Text × ℕ} {by_target : List (Text × ℕ)} {occurred_at : Text} {event : UsageEvent}
    → IsReported by_target occurred_at event
    → IsReported (x ∷ by_target) occurred_at event
later-IsReported r = record {
  seconds = r.seconds;
  listed = inr r.listed;
  positive = r.positive;
  duration = r.duration;
  at = r.at;
}

reported :
    (by_target : List (Text × ℕ)) (occurred_at : Text) (event : UsageEvent)
    → In event (app_usage_events by_target occurred_at)
    → IsReported by_target occurred_at event
unfolding app_usage_events filter
reported [] occurred_at event m = elim m [ ]
reported ((target, seconds) ∷ by_target) occurred_at event m =
    elim (Bool-cases (is_app_usage (target, seconds))) [
      | inl used ↦ elim (rw used at m) [
        | inl e ↦
            subst (λ x. IsReported ((target, seconds) ∷ by_target) occurred_at x) (sym e)
              (usage_event-IsReported target seconds by_target occurred_at used)
        | inr there ↦ later-IsReported (reported by_target occurred_at event there)
      ]
      | inr other ↦ later-IsReported (reported by_target occurred_at event (rw other at m))
    ]

used_app :
    (ref : Text) (seconds : ℕ) → 0 < seconds → is_app_usage (text "APP:" ++ ref, seconds) ≡ true
used_app ref seconds h = rw (starts_with-append (text "APP:") ref) (ground arith)

listed :
    (by_target : List (Text × ℕ)) (occurred_at ref : Text) (seconds : ℕ)
    → In (text "APP:" ++ ref, seconds) by_target
    → 0 < seconds
    → In
        (usage_event occurred_at (text "APP:" ++ ref, seconds))
        (app_usage_events by_target occurred_at)
unfolding app_usage_events filter
listed [] occurred_at ref seconds m h = elim m [ ]
listed ((target, s) ∷ by_target) occurred_at ref seconds (inl e) h =
    let used : is_app_usage (target, s) ≡ true =
      subst (λ x. is_app_usage x ≡ true) e (used_app ref seconds h) in
    rw used (inl (ap (usage_event occurred_at) e))
listed ((target, s) ∷ by_target) occurred_at ref seconds (inr there) h =
    elim (Bool-cases (is_app_usage (target, s))) [
      | inl used ↦ rw used (inr (listed by_target occurred_at ref seconds there h))
      | inr other ↦ rw other (listed by_target occurred_at ref seconds there h)
    ]

-- The events report the applications that were used, and nothing else: an event gives the seconds
-- of a key `APP:` with its reference, at most a day of them, and each such key with more than no
-- seconds has its event.
pub app_usage_events-IsReported :
    (by_target : List (Text × ℕ)) (occurred_at : Text)
    → ((event : UsageEvent)
        → In event (app_usage_events by_target occurred_at)
        → IsReported by_target occurred_at event)
      × ((ref : Text) (seconds : ℕ)
          → In (text "APP:" ++ ref, seconds) by_target
          → 0 < seconds
          → In
              (record {
                occurred_at = occurred_at;
                app_ref = ref;
                duration_seconds = min seconds 86400;
              })
              (app_usage_events by_target occurred_at))
app_usage_events-IsReported by_target occurred_at =
    (reported by_target occurred_at, listed by_target occurred_at)
