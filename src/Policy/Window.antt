-- ===== src/Policy/Window.antt =====
-- `localDateTime`, `minutesSinceMidnight` and `isInWindow` of packages/policy-schema/src/evaluator.ts.
-- A number that may be NaN is an `Option`, and every comparison with `none` is false.
pub mod Week
pub mod Clock
use you_tube_gradian_devin.Common.{
  split, ℕ, ◌+◌, ◌-◌, ◌*◌, Text, Bool, true, false, ◌&&◌, ◌||◌, Option, none, some, List, [], ◌∷◌,
  ltb, leb, ◌==◌, if◌then◌else◌, any, Result, or_throw, ◌>>=◌,
}
use you_tube_gradian_devin.Policy.Bundle.{TimeWindow}
use you_tube_gradian_devin.Policy.Platform.{
  ZonedDateTime, Platform, RangeError, bad_instant, bad_timezone,
}

-- `Temporal.Instant.from(timestamp)`
unfoldable pub instant_from : Platform → Text → Result RangeError ℕ
instant_from P timestamp = or_throw (P.instant_from timestamp) (bad_instant timestamp)

unfoldable pub local_date_time : Platform → Text → Text → Result RangeError ZonedDateTime
unfolding instant_from
local_date_time P timestamp timezone = do
  instant ← instant_from P timestamp
  or_throw (P.to_zoned instant timezone) (bad_timezone timezone)

number_from : ℕ → Text → Option ℕ
number_from n [] = some n
number_from n (c ∷ cs) =
    let rest = number_from (n * 10 + (c - b'0')) cs in
    if leb b'0' c && leb c b'9' then rest else none

-- `Number(text)` of a text of digits, the empty one included; any other text counts as NaN here.
unfoldable pub number : Text → Option ℕ
unfolding number_from
number digits = number_from 0 digits

-- `hours * 60 + minutes`
abbrev hours_and_minutes : Option ℕ → Option ℕ → Option ℕ
hours_and_minutes (some hours) (some minutes) = some (hours * 60 + minutes)
hours_and_minutes (some hours) none = none
hours_and_minutes none minutes = none

-- Of a text with no colon the second part is `undefined`, and its number is NaN.
abbrev first_two : List Text → Option ℕ
first_two (hours ∷ minutes ∷ _) = hours_and_minutes (number hours) (number minutes)
first_two (hours ∷ []) = none
first_two [] = none

unfoldable pub minutes_since_midnight : Text → Option ℕ
unfolding split number
minutes_since_midnight value = first_two (split b':' value)

abbrev pub same : Option ℕ → Option ℕ → Bool
same (some a) (some b) = a == b
same (some a) none = false
same none b = false

abbrev pub less : Option ℕ → Option ℕ → Bool
less (some a) (some b) = ltb a b
less (some a) none = false
less none b = false

abbrev pub at_most : Option ℕ → Option ℕ → Bool
at_most (some a) (some b) = leb a b
at_most (some a) none = false
at_most none b = false

-- `days.includes(day)`
abbrev pub includes_day : List ℕ → ℕ → Bool
includes_day days day = any (λ d. d == day) days

abbrev pub yesterday_of : ℕ → ℕ
yesterday_of today = if today == 1 then 7 else today - 1

unfoldable pub is_in_window : TimeWindow → ZonedDateTime → Bool
is_in_window window date_time =
    let today = date_time.day_of_week in
    let yesterday = yesterday_of today in
    let current : Option ℕ = some (date_time.hour * 60 + date_time.minute) in
    let start = minutes_since_midnight window.start in
    let end = minutes_since_midnight window.end in
    if same start end
    then includes_day window.days today
    else if less start end
    then includes_day window.days today && (at_most start current && less current end)
    else (includes_day window.days today && at_most start current)
      || (includes_day window.days yesterday && less current end)
