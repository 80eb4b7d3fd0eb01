-- ===== src/Timer/Cron.antt =====
-- internal/element/events/timer.go: nextCron. A time is the number of nanoseconds since the zero
-- time; the calendar of its location, `time.Date`, `AddDate` and the fields of a time, is a
-- parameter. The loop runs on fuel, the nanoseconds up to the end of the search, which are
-- enough if each turn but the last moves the time on.
pub mod Search
use bpmn_ai.Base.{
  ℕ, zero, suc, ◌+◌, ◌-◌, ◌%◌, String, Bool, true, false, Option, none, some, ltb, if◌then◌else◌,
}
use bpmn_ai.Timer.Duration.{minute, hour, day}
use bpmn_ai.Timer.Field.{field_matches}

-- `add_months`, `add_days` and `add_years` are AddDate with one of its arguments and the other two
-- 0; `month_start` and `day_start` are time.Date with the year and month, or also the day, of a time.
pub record Calendar : Type 0 where
  pub month : ℕ → ℕ
  pub day_of_month : ℕ → ℕ
  pub weekday : ℕ → ℕ
  pub hour_of_day : ℕ → ℕ
  pub minute_of_hour : ℕ → ℕ
  pub add_years : ℕ → ℕ → ℕ
  pub add_months : ℕ → ℕ → ℕ
  pub add_days : ℕ → ℕ → ℕ
  pub month_start : ℕ → ℕ
  pub day_start : ℕ → ℕ

pub record CronFields : Type 0 where
  pub minutes : String
  pub hours : String
  pub days : String
  pub months : String
  pub weekdays : String

-- What a turn of the loop decides: to return the time, to go on from another one, or a panic.
pub data Verdict : Type 0 where
  fires panics : Verdict
  skip_to : ℕ → Verdict

abbrev test : Option Bool → ℕ → Verdict → Verdict
test none next rest = panics
test (some false) next rest = skip_to next
test (some true) next rest = rest

unfoldable pub verdict : Calendar → CronFields → ℕ → Verdict
verdict c f t = test (field_matches f.months (c.month t)) (c.month_start (c.add_months 1 t)) (
    test (field_matches f.days (c.day_of_month t)) (c.day_start (c.add_days 1 t)) (
      test (field_matches f.weekdays (c.weekday t)) (t + day) (
        test (field_matches f.hours (c.hour_of_day t)) (t + hour)
          (test (field_matches f.minutes (c.minute_of_hour t)) (t + minute) fires))))

pub data Outcome : Type 0 where
  found : ℕ → Outcome
  past panicked spent : Outcome

unfoldable pub turn : Verdict → ℕ → (ℕ → Outcome) → Outcome
turn fires t next = found t
turn panics t next = panicked
turn (skip_to u) t next = next u

unfoldable pub search : Calendar → CronFields → ℕ → ℕ → ℕ → Outcome
unfolding verdict turn
search c f zero end t = spent
search c f (suc n) end t = if ltb t end then turn (verdict c f t) t (search c f n end) else past

-- The next full minute.
unfoldable pub cron_start : ℕ → ℕ
cron_start now = now - now % minute + minute

-- None is a panic.
abbrev pub scheduled : ℕ → Outcome → Option ℕ
scheduled now (found t) = some t
scheduled now past = some (now + hour)
scheduled now panicked = none
scheduled now spent = none

unfoldable pub next_cron_outcome : Calendar → CronFields → ℕ → Outcome
unfolding search cron_start
next_cron_outcome c f now =
    let end = c.add_years 2 now in search c f (suc (end - cron_start now)) end (cron_start now)

unfoldable pub next_cron : Calendar → CronFields → ℕ → Option ℕ
unfolding next_cron_outcome
next_cron c f now = scheduled now (next_cron_outcome c f now)
