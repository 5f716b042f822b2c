-- ===== src/Tests/Calendars.antt =====
-- Runs of packages/cron/src/planner/calendars.ts.
use nope.Prelude.{◌≡◌, refl, List, [], ◌∷◌, none, some, true, text, text_dec, arith}
use nope.Cron.CronPlan.{TimeFields}
use nope.Cron.Calendars.{Rule, Filter, filtered, create_calendar_filter, accepts}
use nope.Cron.Calendars.Meaning.Filters.{
  accepted, includes_of, excludes_of, create_calendar_filter-accepts,
}

-- Every day of December but Christmas, in whatever year, and new year's day of 2025.
abbrev rules : List Rule
rules =
    record {
      include = some (text "*-12-*" ∷ text "2025-01-01" ∷ []);
      exclude = some (text "*-12-25" ∷ []);
    }
    ∷ []

abbrev winter : Filter
winter =
    filtered
      (record {
        keys = text "2025-01-01" ∷ [];
        patterns = record { year = none; month = some 12; day = none } ∷ [];
      })
      (record { keys = []; patterns = record { year = none; month = some 12; day = some 25 } ∷ [] })

abbrev new_year : TimeFields
new_year = record {
  year = 2025;
  month = 1;
  day = 1;
  hour = 0;
  minute = 0;
  second = 0;
  day_of_week = 3;
}

made : create_calendar_filter (some rules) ≡ some winter
unfolding create_calendar_filter
made = refl

open_on_new_year : accepts winter new_year ≡ true
unfolding accepts text_dec
open_on_new_year = refl

create_calendar_filter-accepts_example :
    accepts winter new_year ≡ accepted new_year (includes_of rules) (excludes_of rules)
create_calendar_filter-accepts_example =
    create_calendar_filter-accepts new_year rules winter
      (record {
        year_from = omega arith;
        year_to = omega arith;
        month_to = omega arith;
        day_to = omega arith;
      })
      made
