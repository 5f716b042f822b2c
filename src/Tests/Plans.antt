-- ===== src/Tests/Plans.antt =====
-- Runs of packages/cron/src/planner.
use nope.Prelude.{ℕ, ◌/◌, ◌%◌, ◌<◌, ◌≡◌, refl, [], ◌∷◌, none, some, arith, true, false, Bool}
use nope.Cron.CronPlan.{
  TimeFields, StandardField, wildcard, CronSpec, Plan, matches_field, candidate_matches, accepts,
  next, limit,
}
use nope.Cron.CronPlan.Search.{Means, candidate, next-Means}
use nope.Cron.Every as Every

-- Monday, 1 January 2024, for ever, at the second of the instant.
abbrev fields_at : ℕ → TimeFields
fields_at t = record {
  year = 2024;
  month = 1;
  day = 1;
  hour = 0;
  minute = 0;
  second = t / 1000 % 60;
  day_of_week = 1;
}

abbrev no_calendar : ℕ → TimeFields → Bool
no_calendar t f = true

-- Each minute at second 10, in the months `ms`, on any day.
abbrev at_ten : StandardField → CronSpec
at_ten ms = record {
  seconds = StandardField.values (10 ∷ []);
  minutes = wildcard;
  hours = wildcard;
  months = ms;
  years = wildcard;
  day_of_month = record {
    any = true;
    ignore = false;
    values = [];
    nearest_weekdays = [];
    last_day_offsets = [];
    last_weekday = false;
  };
  day_of_week = record {
    any = false;
    ignore = false;
    values = 5 ∷ [];
    last_in_month = [];
    nth_in_month = [];
  };
}

abbrev plan_of : StandardField → Plan
plan_of ms = record { spec = at_ten ms; max_runs = none; end_at = none; emitted = 0 }

next-Means_example :
    Means
      (accepts fields_at no_calendar (at_ten wildcard))
      none
      limit
      5000
      (next fields_at no_calendar (plan_of wildcard) 4000).1
next-Means_example = next-Means fields_at no_calendar (plan_of wildcard) 4000 refl

never :
    (j : ℕ)
    → j < limit
    → accepts fields_at no_calendar (at_ten (StandardField.values (7 ∷ []))) (candidate 5000 j)
      ≡ false
unfolding accepts candidate_matches matches_field
never j h = ground arith

abbrev each_minute : Every.Plan
each_minute = record {
  interval_ms = 60_000;
  anchor_ms = 1000;
  end_at = none;
  max_runs = some 3;
  emitted = 1;
}
