-- ===== src/Policy/Window/Week.antt =====
-- A window read as a set of minutes of the week.
use you_tube_gradian_devin.Common.{
  ℕ, ◌+◌, ◌-◌, ◌*◌, ◌%◌, ◌<◌, ◌≤◌, Bool, ◌&&◌, ◌||◌, some, List, [], ◌∷◌, ◌≡◌, refl, ◌∙◌, arith,
  ltb, leb, ◌==◌, if◌then◌else◌, any, All,
}
use you_tube_gradian_devin.Policy.Bundle.{TimeWindow}
use you_tube_gradian_devin.Policy.Platform.{ZonedDateTime, IsClock}
use you_tube_gradian_devin.Policy.Window.{minutes_since_midnight, is_in_window, yesterday_of}

-- The minute of the week, from Monday at midnight, at which day `day` has reached `minute`.
abbrev pub week_minute : ℕ → ℕ → ℕ
week_minute day minute = (day - 1) * 1440 + minute

-- How long a window from `start` to `end` lasts: to the next time that the clock shows `end`.
abbrev pub window_length : ℕ → ℕ → ℕ
window_length start end = if start == end then 1440 else (end + 1440 - start) % 1440

-- Equal ends stand for the whole calendar day, whatever time they name.
abbrev pub window_start : ℕ → ℕ → ℕ
window_start start end = if start == end then 0 else start

-- The occurrence that starts on `day` has begun and has not ended, on the circle of a week.
abbrev pub covers : ℕ → ℕ → ℕ → ℕ → Bool
covers start end now day =
    ltb ((now + 10080 - week_minute day (window_start start end)) % 10080) (window_length start end)

module _ {A : Type 0} where
  any-and : (p : A → Bool) (c : Bool) (xs : List A) → (any p xs && c) ≡ any (λ x. p x && c) xs
  unfolding any
  any-and p c [] = refl
  any-and p c (x ∷ xs) = ground (arith, any-and p c xs)

  any-or : (p q : A → Bool) (xs : List A) → (any p xs || any q xs) ≡ any (λ x. p x || q x) xs
  unfolding any
  any-or p q [] = refl
  any-or p q (x ∷ xs) = ground (arith, any-or p q xs)

  any_congr : (p q : A → Bool) (xs : List A) → All (λ x. p x ≡ q x) xs → any p xs ≡ any q xs
  unfolding any
  any_congr p q [] h = refl
  any_congr p q (x ∷ xs) (e, h) = ground (arith, any_congr p q xs h)

All-map : (P Q : ℕ → Type 0) (xs : List ℕ) → ((x : ℕ) → P x → Q x) → All P xs → All Q xs
All-map P Q [] f h = tt
All-map P Q (x ∷ xs) f (p, h) = (f x p, All-map P Q xs f h)

abbrev pub IsDay : ℕ → Type 0
IsDay day = (1 ≤ day) × (day ≤ 7)

module _ (start end today current : ℕ) (t : IsDay today) (c : current < 1440) where
  abbrev now : ℕ
  now = week_minute today current

  day_of_full : (day : ℕ) → start ≡ end → IsDay day → (day == today) ≡ covers start end now day
  day_of_full day e d = ground arith

  day_of_plain :
      (day : ℕ)
      → start < end
      → end < 1440
      → IsDay day
      → (day == today && (leb start current && ltb current end)) ≡ covers start end now day
  day_of_plain day l e d = ground arith

  day_of_overnight :
      (day : ℕ)
      → end < start
      → start < 1440
      → IsDay day
      → ((day == today && leb start current) || (day == yesterday_of today && ltb current end))
        ≡ covers start end now day
  day_of_overnight day l s d = ground arith

  any_full :
      (days : List ℕ)
      → All IsDay days
      → start ≡ end
      → any (λ d. d == today) days ≡ any (covers start end now) days
  any_full days h e = any_congr _ _ days (All-map _ _ days (λ d. day_of_full d e) h)

  any_plain :
      (days : List ℕ)
      → All IsDay days
      → start < end
      → end < 1440
      → (any (λ d. d == today) days && (leb start current && ltb current end))
        ≡ any (covers start end now) days
  any_plain days h l e =
      any-and _ _ days ∙ any_congr _ _ days (All-map _ _ days (λ d. day_of_plain d l e) h)

  any_overnight :
      (days : List ℕ)
      → All IsDay days
      → end < start
      → start < 1440
      → ((any (λ d. d == today) days && leb start current)
          || (any (λ d. d == yesterday_of today) days && ltb current end))
        ≡ any (covers start end now) days
  any_overnight days h l s =
      rw (any-and _ _ days, any-and _ _ days)
        (any-or _ _ days ∙ any_congr _ _ days (All-map _ _ days (λ d. day_of_overnight d l s) h))

abbrev pub minute_of_day : ZonedDateTime → ℕ
minute_of_day t = t.hour * 60 + t.minute

-- A window whose ends are times of the day, on days of the week.
pub record IsWindow (window : TimeWindow) (start end : ℕ) : Type 0 where
  pub reads_start : minutes_since_midnight window.start ≡ some start
  pub reads_end : minutes_since_midnight window.end ≡ some end
  pub start_in_day : start < 1440
  pub end_in_day : end < 1440
  pub day_names : All IsDay window.days

-- Of a window on days of the week, with ends that are times of the day, and a date-time of a
-- 24-hour clock: the code takes the moment to be in the window exactly when some listed day's
-- occurrence covers it on the circle of the week's 10080 minutes, where an occurrence lasts until
-- the clock next shows the end, past midnight and from Sunday into Monday too, and equal ends give
-- the listed calendar day.
pub is_in_window-eq-covers :
    (window : TimeWindow) (start end : ℕ) (t : ZonedDateTime)
    → IsWindow window start end
    → IsClock t
    → is_in_window window t
      ≡ any (covers start end (week_minute t.day_of_week (minute_of_day t))) window.days
unfolding is_in_window
is_in_window-eq-covers window start end t w k =
    let day : IsDay t.day_of_week = (k.first_day, k.last_day) in
    let inside : minute_of_day t < 1440 = omega arith in
    rw (w.reads_start, w.reads_end)
      (ground (
        arith,
        any_full start end t.day_of_week (minute_of_day t) day inside window.days w.day_names,
        any_plain start end t.day_of_week (minute_of_day t) day inside window.days w.day_names,
        any_overnight start end t.day_of_week (minute_of_day t) day inside window.days w.day_names,
      ))
