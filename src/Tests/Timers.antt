-- ===== src/Tests/Timers.antt =====
-- Timers over a calendar with months of thirty days.
use bpmn_ai.Timer.Numbers.{fields}
use bpmn_ai.Timer.Numbers.{has_prefix}
use bpmn_ai.Timer.Numbers.{atoi}
use bpmn_ai.Timer.Numbers.{has_char}
use bpmn_ai.Timer.Field.{field_matches}
use bpmn_ai.Base.{ℕ, ◌+◌, ◌-◌, ◌*◌, ◌/◌, ◌%◌, ◌<◌, none, some, ◌≡◌, ◌⊎◌, refl, arith}
use bpmn_ai.Model
use bpmn_ai.Timer.Cron.{Calendar, CronFields, next_cron, next_cron_outcome, past, panicked}
use bpmn_ai.Timer.Cron.Search.{next_cron_fires, MovesOn, AllMatch, AnyPanics}
use bpmn_ai.Timer.Duration.{minute, hour, day}
use bpmn_ai.Timer.Schedule.{calculate_schedule}

abbrev plain : Calendar
plain = record {
  month = λ t. (t / (30 * day)) % 12 + 1;
  day_of_month = λ t. (t / day) % 30 + 1;
  weekday = λ t. (t / day) % 7;
  hour_of_day = λ t. (t / hour) % 24;
  minute_of_hour = λ t. (t / minute) % 60;
  add_years = λ n t. t + n * (360 * day);
  add_months = λ n t. t + n * (30 * day);
  add_days = λ n t. t + n * day;
  month_start = λ t. t - t % (30 * day);
  day_start = λ t. t - t % day;
}

abbrev quarter_past_noon : CronFields
quarter_past_noon = record {
  minutes = "15";
  hours = "12";
  days = "*";
  months = "*";
  weekdays = "*";
}

abbrev morning : ℕ
morning = 100 * day + 10 * hour + 45 * minute

plain-MovesOn : MovesOn plain
plain-MovesOn = (λ t. omega arith, λ t. omega arith)

-- The search goes through the hours at the minute that it starts with, and so past 12:15 of the
-- same day.
test_missed : next_cron plain quarter_past_noon morning ≡ some (101 * day + 12 * hour + 15 * minute)
unfolding next_cron field_matches has_char atoi
test_missed = refl

test_every :
    calculate_schedule (λ l s. none) plain morning Model.TimerType.cycle "every 5 minutes"
    ≡ some (some (morning + 5 * minute))
unfolding calculate_schedule has_prefix fields atoi
test_every = refl

next_cron_fires_example :
    ((t : ℕ) × (next_cron plain quarter_past_noon morning ≡ some t)
      × (morning < t)
      × (t < morning + 2 * (360 * day))
      × AllMatch plain quarter_past_noon t)
    ⊎ ((next_cron_outcome plain quarter_past_noon morning ≡ past)
        × (next_cron plain quarter_past_noon morning ≡ some (morning + hour)))
    ⊎ ((next_cron_outcome plain quarter_past_noon morning ≡ panicked)
        × (t : ℕ) × (morning < t)
        × (t < morning + 2 * (360 * day))
        × AnyPanics plain quarter_past_noon t)
next_cron_fires_example = next_cron_fires plain quarter_past_noon morning plain-MovesOn
