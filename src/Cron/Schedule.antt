-- ===== src/Cron/Schedule.antt =====
-- CronSchedule of tical_code/core/cron.py: the patterns, their intervals, and their names.
use existential_identity_tes.Base.{
  ℕ, leb, ◌==◌, if◌then◌else◌, String, Bool, true, false, ◌&&◌, ◌||◌, List, [], ◌∷◌, map,
}
use existential_identity_tes.Base.Text.{codes, to_lower, contains}
use mathlib.Core.List.{reverse}

pub data CronSchedule : Type 0 where
  every_minute every_5_minutes every_15_minutes every_30_minutes : CronSchedule
  hourly every_6_hours daily custom : CronSchedule

unfoldable pub get_interval : CronSchedule → ℕ
get_interval every_minute = 60
get_interval every_5_minutes = 300
get_interval every_15_minutes = 900
get_interval every_30_minutes = 1800
get_interval hourly = 3600
get_interval every_6_hours = 21_600
get_interval daily = 86_400
get_interval custom = 0

unfoldable pub schedule_value : CronSchedule → String
schedule_value every_minute = "every_minute"
schedule_value every_5_minutes = "every_5_minutes"
schedule_value every_15_minutes = "every_15_minutes"
schedule_value every_30_minutes = "every_30_minutes"
schedule_value hourly = "hourly"
schedule_value every_6_hours = "every_6_hours"
schedule_value daily = "daily"
schedule_value custom = "custom"

abbrev pub schedules : List CronSchedule
schedules =
    every_minute ∷ every_5_minutes ∷ every_15_minutes ∷ every_30_minutes ∷ hourly ∷ every_6_hours
    ∷ daily ∷ custom ∷ []

-- `str.isspace` of one character.
unfoldable pub is_space : ℕ → Bool
is_space c =
    (leb 9 c && leb c 13)
    || (leb 28 c && leb c 32)
    || c == 133
    || c == 160
    || c == 5760
    || (leb 8192 c && leb c 8202)
    || c == 8232
    || c == 8233
    || c == 8239
    || c == 8287
    || c == 12288

unfoldable pub strip_left : List ℕ → List ℕ
unfolding is_space
strip_left [] = []
strip_left (c ∷ cs) = let rest = strip_left cs in if is_space c then rest else c ∷ cs

-- `text.strip()`
unfoldable pub strip_text : List ℕ → List ℕ
unfolding strip_left
strip_text text = reverse (strip_left (reverse (strip_left text)))

abbrev pub same_codes : List ℕ → List ℕ → Bool
same_codes [] [] = true
same_codes (c ∷ cs) (d ∷ ds) = c == d && same_codes cs ds
same_codes _ _ = false

-- The first of the patterns that passes a test, or another.
unfoldable pub first_schedule :
    (CronSchedule → Bool) → List CronSchedule → CronSchedule → CronSchedule
first_schedule test [] default = default
first_schedule test (s ∷ ss) default =
    let rest = first_schedule test ss default in if test s then s else rest

unfoldable pub from_string : String → CronSchedule
unfolding strip_text to_lower first_schedule contains schedule_value
from_string text =
    let value = strip_text (map to_lower (codes text)) in
    first_schedule (λ s. same_codes (codes (schedule_value s)) value) schedules
      (first_schedule
        (λ s.
          contains value (codes (schedule_value s)) || contains (codes (schedule_value s)) value)
        schedules every_minute)
