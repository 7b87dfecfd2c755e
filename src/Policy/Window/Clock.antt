-- ===== src/Policy/Window/Clock.antt =====
-- Reading the `HH:MM` texts that the bundle's schema admits.
use you_tube_gradian_devin.Common.{ℕ, ◌+◌, ◌*◌, ◌/◌, ◌%◌, ◌<◌, Text, some, [], ◌∷◌, ◌≡◌, arith}
use you_tube_gradian_devin.Policy.Window.{minutes_since_midnight}

-- The text `HH:MM` of a time of the day.
unfoldable pub clock_text : ℕ → ℕ → Text
clock_text hour minute =
    (b'0' + hour / 10)
    ∷ (b'0' + hour % 10)
    ∷ b':'
    ∷ (b'0' + minute / 10)
    ∷ (b'0' + minute % 10)
    ∷ []

-- The minutes that are read from the text of a time of the day are its minutes since midnight.
pub minutes-clock_text :
    (hour minute : ℕ)
    → hour < 24
    → minute < 60
    → minutes_since_midnight (clock_text hour minute) ≡ some (hour * 60 + minute)
unfolding minutes_since_midnight clock_text
minutes-clock_text hour minute h m = ground arith
