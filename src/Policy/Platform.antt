-- ===== src/Policy/Platform.antt =====
-- What the evaluator calls and does not define: `@js-temporal/polyfill`, `tldts` and the URL parser.
use you_tube_gradian_devin.Common.{ℕ, Text, Option, ◌<◌, ◌≤◌}

-- The fields of a `Temporal.ZonedDateTime` that the evaluator reads.
pub record ZonedDateTime : Type 0 where
  pub day_of_week : ℕ
  pub hour : ℕ
  pub minute : ℕ

-- What Temporal documents of a date-time: the days are 1 (Monday) to 7, on a 24-hour clock.
pub record IsClock (t : ZonedDateTime) : Type 0 where
  pub first_day : 1 ≤ t.day_of_week
  pub last_day : t.day_of_week ≤ 7
  pub hours : t.hour < 24
  pub minutes : t.minute < 60

-- `none` is a thrown exception, and `null` for the two functions of `tldts`. An instant is the
-- number of nanoseconds since the earliest one that Temporal represents.
pub record Platform : Type 0 where
  pub instant_from : Text → Option ℕ
  pub to_zoned : ℕ → Text → Option ZonedDateTime
  pub url_hostname : Text → Option Text
  pub get_domain : Text → Option Text
  pub get_public_suffix : Text → Option Text

-- The `RangeError`s that the evaluator lets through.
pub data RangeError : Type 0 where
  bad_instant bad_timezone : Text → RangeError
