-- ===== src/Timer/Cron/Search.antt =====
-- internal/element/events/timer.go: the search of nextCron ends, and what it finds.
use bpmn_ai.Base.{
  ℕ, zero, suc, ◌+◌, ◌-◌, ◌≤◌, ◌<◌, Bool, true, false, Option, none, some, ltb, ltb→lt, ◌≡◌, refl,
  ap, arith, Bool-cases, inl, inr, ◌⊎◌,
}
use bpmn_ai.Timer.Cron.{
  Calendar, CronFields, Verdict, fires, panics, skip_to, verdict, Outcome, found, past, panicked,
  spent, search, turn, cron_start, next_cron_outcome, next_cron, scheduled,
}
use bpmn_ai.Timer.Cron
use bpmn_ai.Timer.Duration.{hour}
use bpmn_ai.Timer.Field.{field_matches}

-- What the package time promises of a location whose clock is never put forward, such as UTC: the start
-- of the next month and that of the next day are later. Where midnight is left out by such a change it
-- does not say on which side of the gap the start of the day falls.
abbrev pub MovesOn : Calendar → Type 0
MovesOn c =
    ((t : ℕ) → t < c.month_start (c.add_months 1 t)) × ((t : ℕ) → t < c.day_start (c.add_days 1 t))

-- All five fields match at this time.
abbrev pub AllMatch : Calendar → CronFields → ℕ → Type 0
AllMatch c f t =
    (field_matches f.months (c.month t) ≡ some true)
    × (field_matches f.days (c.day_of_month t) ≡ some true)
    × (field_matches f.weekdays (c.weekday t) ≡ some true)
    × (field_matches f.hours (c.hour_of_day t) ≡ some true)
    × (field_matches f.minutes (c.minute_of_hour t) ≡ some true)

-- Some field cannot be matched with this time: it has a step by 0.
abbrev pub AnyPanics : Calendar → CronFields → ℕ → Type 0
AnyPanics c f t =
    (field_matches f.months (c.month t) ≡ none)
    ⊎ (field_matches f.days (c.day_of_month t) ≡ none)
    ⊎ (field_matches f.weekdays (c.weekday t) ≡ none)
    ⊎ (field_matches f.hours (c.hour_of_day t) ≡ none)
    ⊎ (field_matches f.minutes (c.minute_of_hour t) ≡ none)

-- What is known of a verdict: it goes on to a later time, a time that fires matches, and one that
-- panics has a reason.
abbrev Sound : (Matches Panics : Type 0) → ℕ → Verdict → Type 0
Sound Matches Panics t fires = Matches
Sound Matches Panics t panics = Panics
Sound Matches Panics t (skip_to u) = t < u

test-Sound :
    {M N P : Type 0} (o : Option Bool) (t next : ℕ) (rest : Verdict)
    → t < next
    → (o ≡ none → P)
    → (o ≡ some true → M → N)
    → Sound M P t rest
    → Sound N P t (Cron.test o next rest)
test-Sound none t next rest le p f s = p refl
test-Sound (some false) t next rest le p f s = le
test-Sound (some true) t next fires le p f s = f refl s
test-Sound (some true) t next panics le p f s = s
test-Sound (some true) t next (skip_to u) le p f s = s

verdict-Sound :
    (c : Calendar) (f : CronFields) (t : ℕ)
    → MovesOn c
    → Sound (AllMatch c f t) (AnyPanics c f t) t (verdict c f t)
unfolding verdict
verdict-Sound c f t (month, day_later) =
    test-Sound (field_matches f.months (c.month t)) t _ _ (month t) (λ e. inl e)
      (λ a (b, d, e, g). (a, b, d, e, g))
      (test-Sound (field_matches f.days (c.day_of_month t)) t _ _ (day_later t) (λ e. inr (inl e))
        (λ b (d, e, g). (b, d, e, g))
        (test-Sound (field_matches f.weekdays (c.weekday t)) t _ _ (omega arith)
          (λ e. inr (inr (inl e))) (λ d (e, g). (d, e, g))
          (test-Sound (field_matches f.hours (c.hour_of_day t)) t _ _ (omega arith)
            (λ e. inr (inr (inr (inl e)))) (λ e g. (e, g))
            (test-Sound {M = Unit} (field_matches f.minutes (c.minute_of_hour t)) t _ fires
              (omega arith) (λ e. inr (inr (inr (inr e)))) (λ g u. g) tt))))

-- What the search yields, from a time on: a time before the end that matches, or a panic at one that
-- has a reason for it.
abbrev Right : Calendar → CronFields → ℕ → ℕ → Outcome → Type 0
Right c f end t (found u) = (t ≤ u) × (u < end) × AllMatch c f u
Right c f end t past = Unit
Right c f end t panicked = (u : ℕ) × (t ≤ u) × (u < end) × AnyPanics c f u
Right c f end t spent = ⊥

Right-later :
    (c : Calendar) (f : CronFields) (end t u : ℕ) (o : Outcome)
    → t ≤ u
    → Right c f end u o
    → Right c f end t o
Right-later c f end t u (found v) le (a, b, m) = (omega arith, b, m)
Right-later c f end t u past le h = tt
Right-later c f end t u panicked le (v, a, b, m) = (v, omega arith, b, m)
Right-later c f end t u spent le h = h

turn-Right :
    (c : Calendar) (f : CronFields) (end t : ℕ) (v : Verdict) (next : ℕ → Outcome)
    → t < end
    → Sound (AllMatch c f t) (AnyPanics c f t) t v
    → ((u : ℕ) → t < u → Right c f end u (next u))
    → Right c f end t (turn v t next)
unfolding turn
turn-Right c f end t fires next lt m h = (omega arith, lt, m)
turn-Right c f end t panics next lt m h = (t, omega arith, lt, m)
turn-Right c f end t (skip_to u) next lt m h =
    Right-later c f end t u (next u) (omega arith) (h u m)

search-Right :
    (c : Calendar) (f : CronFields) (n end t : ℕ)
    → MovesOn c
    → end - t < n
    → Right c f end t (search c f n end t)
unfolding search
search-Right c f zero end t on h = absurd (omega arith)
search-Right c f (suc n) end t on h = elim (Bool-cases (ltb t end)) [
  | inl e ↦ rw e (
      turn-Right c f end t (verdict c f t) (search c f n end) (ltb→lt t end e)
        (verdict-Sound c f t on)
        (λ u lt. let inside = ltb→lt t end e in search-Right c f n end u on (omega arith)))
  | inr e ↦ rw e tt
]

cron_start_later : (now : ℕ) → now < cron_start now
unfolding cron_start
cron_start_later now = omega arith

outcome-cases :
    (c : Calendar) (f : CronFields) (now : ℕ) (o : Outcome)
    → next_cron_outcome c f now ≡ o
    → Right c f (c.add_years 2 now) (cron_start now) o
    → ((t : ℕ) × (next_cron c f now ≡ some t)
        × (now < t)
        × (t < c.add_years 2 now)
        × AllMatch c f t)
      ⊎ ((next_cron_outcome c f now ≡ past) × (next_cron c f now ≡ some (now + hour)))
      ⊎ ((next_cron_outcome c f now ≡ panicked)
          × (t : ℕ) × (now < t)
          × (t < c.add_years 2 now)
          × AnyPanics c f t)
unfolding next_cron
outcome-cases c f now (found t) e (a, b, m) =
    let later = cron_start_later now in inl (t, ap (scheduled now) e, omega arith, b, m)
outcome-cases c f now past e h = inr (inl (e, ap (scheduled now) e))
outcome-cases c f now panicked e (t, a, b, m) =
    let later = cron_start_later now in inr (inr (e, t, omega arith, b, m))
outcome-cases c f now spent e h = absurd h

-- If the calendar has a later start of the month and of the day to go to from every time, as in UTC,
-- the search of nextCron ends: with a time after now and within the next two years at which all five
-- fields match, or past the two years, for which it yields an hour from now, or with the panic
-- of a step by 0 at a time within them.
pub next_cron_fires :
    (c : Calendar) (f : CronFields) (now : ℕ)
    → MovesOn c
    → ((t : ℕ) × (next_cron c f now ≡ some t)
        × (now < t)
        × (t < c.add_years 2 now)
        × AllMatch c f t)
      ⊎ ((next_cron_outcome c f now ≡ past) × (next_cron c f now ≡ some (now + hour)))
      ⊎ ((next_cron_outcome c f now ≡ panicked)
          × (t : ℕ) × (now < t)
          × (t < c.add_years 2 now)
          × AnyPanics c f t)
unfolding next_cron next_cron_outcome
next_cron_fires c f now on = outcome-cases c f now (next_cron_outcome c f now) refl (
    search-Right c f (suc (c.add_years 2 now - cron_start now)) (c.add_years 2 now) (cron_start now)
      on (omega arith))
