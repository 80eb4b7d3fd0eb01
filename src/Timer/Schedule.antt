-- ===== src/Timer/Schedule.antt =====
-- internal/element/events/timer.go: CalculateSchedule and parseCronNext. `now` is the reading of the
-- clock and `parse_time` is `time.Parse`. A panic is none; a timer that is never scheduled is some none.
use bpmn_ai.Base.{
  ℕ, ◌+◌, ◌-◌, ◌*◌, ◌%◌, ◌^◌, String, List, [], ◌∷◌, Option, none, some, ltb, if◌then◌else◌,
}
use bpmn_ai.Errors.{ok, err}
use bpmn_ai.Model.{TimerType}
use bpmn_ai.Model
use bpmn_ai.Timer.Cron.{Calendar, CronFields, next_cron}
use bpmn_ai.Timer.Duration.{parse_iso_duration, second, minute, hour}
use bpmn_ai.Timer.Numbers.{word, parse_int, has_prefix, fields}

-- A time and a duration, which is negative from 2 ^ 63 on.
unfoldable pub add_duration : ℕ → ℕ → ℕ
add_duration t d = if ltb d (2 ^ 63) then t + d else t - (word - d)

abbrev unit_of : String → ℕ
unit_of unit =
    if has_prefix "s" unit
    then second
    else if has_prefix "m" unit
    then minute
    else if has_prefix "h" unit
    then hour
    else second

abbrev unit_part : List String → String
unit_part [] = "seconds"
unit_part (u ∷ us) = u

-- "every X unit": none if no interval stands there.
unfoldable pub every : ℕ → List String → Option ℕ
unfolding add_duration
every now [] = none
every now (w ∷ []) = none
every now (w ∷ interval ∷ rest) =
    some (add_duration now ((parse_int interval * unit_of (unit_part rest)) % word))

abbrev five : List String → Option CronFields
five (m ∷ h ∷ d ∷ mon ∷ w ∷ []) =
    some (record { minutes = m; hours = h; days = d; months = mon; weekdays = w })
five _ = none

abbrev or_cron : Calendar → ℕ → Option ℕ → Option CronFields → Option (Option ℕ)
or_cron c now (some t) f = some (some t)
or_cron c now none none = some none
or_cron c now none (some f) = elim (next_cron c f now) [ none ↦ none | some t ↦ some (some t) ]

unfoldable pub parse_cron_next : Calendar → ℕ → String → Option (Option ℕ)
unfolding every
parse_cron_next c now expr =
    let words = fields expr in
    or_cron c now (if has_prefix "every " expr then every now words else none) (five words)

unfoldable pub first_layout : (String → String → Option ℕ) → List String → String → Option ℕ
first_layout parse_time [] s = none
first_layout parse_time (l ∷ ls) s =
    let rest = first_layout parse_time ls s in
    elim (parse_time l s) [ none ↦ rest | some t ↦ some t ]

-- The layout of RFC 3339 is also the first of the others.
abbrev layouts : List String
layouts =
    "2006-01-02T15:04:05Z07:00" ∷ "2006-01-02T15:04:05Z07:00" ∷ "2006-01-02T15:04:05" ∷ "2006-01-02"
    ∷ []

unfoldable pub calculate_schedule :
    (String → String → Option ℕ) → Calendar → ℕ → TimerType → String → Option (Option ℕ)
unfolding parse_cron_next first_layout add_duration
calculate_schedule parse_time c now type value = elim type [
  | Model.TimerType.duration ↦ elim (parse_iso_duration value) [
    | ok d ↦ some (some (add_duration now d))
    | err e ↦ some none
  ]
  | Model.TimerType.date ↦ some (first_layout parse_time layouts value)
  | Model.TimerType.cycle ↦ parse_cron_next c now value
  | Model.TimerType.unset ↦ some none
]
