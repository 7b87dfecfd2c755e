-- ===== src/Mobile/Protection/Native/Told.antt =====
-- What a sequence of native events leaves on the screen and has sent to the service, told from the
-- events alone.
use mathlib.Core.List.{append_assoc}
use you_tube_gradian_devin.Common.{
  ℕ, ◌+◌, Text, text, decimal, Option, none, some, List, [], ◌∷◌, ◌++◌, ◌≡◌, refl, sym, ap, ◌∙◌,
  arith,
}
use you_tube_gradian_devin.Common.Programs.{Ends}
use you_tube_gradian_devin.Mobile.Child.Events.{DeviceEvent}
use you_tube_gradian_devin.Mobile.Protection.View.{WebBlocked, View}
use you_tube_gradian_devin.Mobile.Protection.Calls.{ProtectionCalls}
use you_tube_gradian_devin.Mobile.Protection.Native.{
  NativeEvent, app_blocked, web_blocked, time_warning, time_expired, safety_event, separated,
}

-- What is newer, or else what was there before.
infixr 66 ◌or_before◌
abbrev pub ◌or_before◌ : {A : Type 0} → Option A → Option A → Option A
none or_before older = older
some a or_before older = some a

or_before_assoc :
    {A : Type 0} (c b a : Option A) → (c or_before b) or_before a ≡ c or_before (b or_before a)
or_before_assoc none b a = refl
or_before_assoc (some c) b a = refl

-- What the newest event that says something says.
abbrev pub last_of : {E A : Type 0} → (E → Option A) → List E → Option A
last_of pick [] = none
last_of pick (event ∷ events) = last_of pick events or_before pick event

module _ {N : Type 0} where
  abbrev pub blocked_page : NativeEvent N → Option WebBlocked
  blocked_page (web_blocked event) = some event
  blocked_page _ = none

  abbrev pub pages_of : NativeEvent N → ℕ
  pages_of (web_blocked event) = 1
  pages_of _ = 0

  abbrev pub blocked_app : NativeEvent N → Option Text
  blocked_app (app_blocked app_ref reason_code) = some (separated app_ref reason_code)
  blocked_app _ = none

  abbrev pub time_said : NativeEvent N → Option Text
  time_said (time_warning target_ref remaining_seconds) =
      some (separated target_ref (decimal remaining_seconds ++ text "s remaining"))
  time_said (time_expired target_ref) = some (separated target_ref (text "time expired"))
  time_said _ = none

  -- The correlation of an event that is reported to the service.
  abbrev pub reports_of : NativeEvent N → List (Option Text)
  reports_of (web_blocked event) = event.correlation_id ∷ []
  reports_of (safety_event event) = event.correlation_id ∷ []
  reports_of _ = []

  abbrev pub pages : List (NativeEvent N) → ℕ
  pages [] = 0
  pages (event ∷ events) = pages_of event + pages events

  -- The newest comes first.
  abbrev pub reports : List (NativeEvent N) → List (Option Text)
  reports [] = []
  reports (event ∷ events) = reports events ++ reports_of event

-- `sent` has the correlations of the reports, the newest first, and the clock returns.
pub record IsReporting {S B R A N : Type 0} (calls : ProtectionCalls S B R A N)
    (sent : S → List (Option Text)) : Type 0 where
  pub reports_event :
      (e : DeviceEvent N) (c : Option Text) (s : S)
      → sent ((calls.ingest_event e c s).1) ≡ c ∷ sent s
  pub clock : (s : S) → Ends (λ _ t. sent t ≡ sent s) (λ _ _. ⊥) (calls.now s)
  pub classifies : (domain : Text) (s : S) → sent ((calls.classify_domain domain s).1) ≡ sent s
  pub versions : (s : S) → sent ((calls.reputation.get_version s).1) ≡ sent s
  pub fetches : (v : ℕ) (s : S) → sent ((calls.reputation.fetch v s).1) ≡ sent s
  pub applies : (b : R) (s : S) → sent ((calls.reputation.apply b s).1) ≡ sent s
  pub statuses : (s : S) → sent ((calls.get_protection_status s).1) ≡ sent s
  pub capabilities : (s : S) → sent ((calls.get_capabilities s).1) ≡ sent s

-- From `a` to `b` that many pages, and what is newest, are added, and those reports are sent.
pub record Leaves {S : Type 0} (sent : S → List (Option Text)) (added : ℕ)
    (page : Option WebBlocked) (app time : Option Text) (sends : List (Option Text))
    (a b : S × View) : Type 0 where
  pub count : b.1.blocked_event_count ≡ a.1.blocked_event_count + added
  pub blocked : b.1.blocked_event ≡ page or_before a.1.blocked_event
  pub app_message : b.1.app_blocked_message ≡ app or_before a.1.app_blocked_message
  pub time_message : b.1.time_message ≡ time or_before a.1.time_message
  pub sent_reports : sent (b.0) ≡ sends ++ sent (a.0)

module _ {S : Type 0} (sent : S → List (Option Text)) where
  pub Leaves-trans :
      {m n : ℕ} {p q : Option WebBlocked} {x y v w : Option Text} {h k : List (Option Text)}
      {a b c : S × View}
      → Leaves sent m p x v h a b
      → Leaves sent n q y w k b c
      → Leaves sent (m + n) (q or_before p) (y or_before x) (w or_before v) (k ++ h) a c
  Leaves-trans {m} {n} {p} {q} {x} {y} {v} {w} {h} {k} {a} {b} {c} f g = record {
    count = omega (arith, f.count, g.count);
    blocked = g.blocked ∙ ap (λ z. q or_before z) f.blocked ∙ sym (or_before_assoc q p _);
    app_message =
        g.app_message ∙ ap (λ z. y or_before z) f.app_message ∙ sym (or_before_assoc y x _);
    time_message =
        g.time_message ∙ ap (λ z. w or_before z) f.time_message ∙ sym (or_before_assoc w v _);
    sent_reports = g.sent_reports ∙ ap (λ z. k ++ z) f.sent_reports ∙ sym (append_assoc k h _);
  }
