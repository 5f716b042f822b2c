-- ===== src/Cron/Days.antt =====
-- The part of the language's UTC calendar that packages/cron/src/planner/cron.ts calls: `Date.UTC` with
-- `getUTCDate` and `getUTCDay`, in the proleptic Gregorian calendar, for years from 1 on. Months are
-- counted from 0, as `monthIndex` is; 0 is Sunday.
use nope.Prelude.{
  ℕ, zero, suc, ◌+◌, ◌-◌, ◌*◌, ◌/◌, ◌%◌, ◌≤◌, ◌≡◌, refl, Bool, ◌&&◌, ◌||◌, not, ◌==◌, if◌then◌else◌,
  arith,
}

unfoldable pub is_leap : ℕ → Bool
is_leap y = y % 4 == 0 && (not (y % 100 == 0) || y % 400 == 0)

unfoldable pub month_length : Bool → ℕ → ℕ
month_length leap m =
    if m == 1
    then (if leap then 29 else 28)
    else if m == 3 || (m == 5 || (m == 8 || m == 10))
    then 30
    else 31

-- `getDaysInMonth`: day 0 of the next month.
unfoldable pub get_days_in_month : ℕ → ℕ → ℕ
unfolding is_leap month_length
get_days_in_month y m = month_length (is_leap y) m

unfoldable pub days_before_month : Bool → ℕ → ℕ
unfolding month_length
days_before_month leap zero = 0
days_before_month leap (suc m) = days_before_month leap m + month_length leap m

-- The days before the first of the month, from the first of January of the year 1, a Monday.
unfoldable pub days_before : ℕ → ℕ → ℕ
unfolding is_leap days_before_month
days_before y m =
    365 * (y - 1) + (y - 1) / 4 - (y - 1) / 100 + (y - 1) / 400 + days_before_month (is_leap y) m

-- `getUTCDay` of a day of a month.
unfoldable pub day_of_week : ℕ → ℕ → ℕ → ℕ
unfolding days_before
day_of_week y m d = (days_before y m + d) % 7

pub get_days_in_month_bounds :
    (y m : ℕ) → (28 ≤ get_days_in_month y m) × (get_days_in_month y m ≤ 31)
unfolding get_days_in_month
get_days_in_month_bounds y m = ground arith

-- 2024-03-01 was a Friday, 2024-02 had 29 days, 1970-01-01 was a Thursday.
calendar_samples :
    (day_of_week 2024 2 1 ≡ 5) × (get_days_in_month 2024 1 ≡ 29) × (day_of_week 1970 0 1 ≡ 4)
unfolding day_of_week get_days_in_month
calendar_samples = (refl, refl, refl)
