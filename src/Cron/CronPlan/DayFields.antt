-- ===== src/Cron/CronPlan/DayFields.antt =====
-- How the two day fields of an expression join.
use nope.Prelude.{◌≡◌, true, false, arith}
use nope.Cron.CronPlan.{
  TimeFields, CronSpec, matches_day_of_month, matches_day_of_week, day_matches,
}

-- A day-of-month field `*` makes a day-of-week field count for nothing, unless that says `?`: every
-- day matches, also those of the other weekdays.
pub star_ignores_day_of_week :
    (f : TimeFields) (s : CronSpec)
    → s.day_of_month.any ≡ true
    → s.day_of_month.ignore ≡ false
    → s.day_of_week.ignore ≡ false
    → day_matches f s ≡ true
unfolding day_matches matches_day_of_month
star_ignores_day_of_week f s a i j = ground arith

-- With `?` in the one field the other decides alone.
pub question_mark_leaves_other :
    (f : TimeFields) (s : CronSpec)
    → s.day_of_month.ignore ≡ true
    → s.day_of_week.ignore ≡ false
    → day_matches f s ≡ matches_day_of_week f s.day_of_week
unfolding day_matches
question_mark_leaves_other f s i j = ground arith
