-- ===== src/Cron/CronPlan/Weekdays.antt =====
-- `W` and `LW`: the nearest weekday to a day, and the last of a month.
use nope.Prelude.{ℕ, ◌+◌, ◌-◌, ◌%◌, ◌≤◌, ◌<◌, ◌≡◌, ◌==◌, if◌then◌else◌, min, max, arith, ◌⊎◌}
use nope.Cron.Days.{get_days_in_month, get_days_in_month_bounds, day_of_week, days_before}
use nope.Cron.CronPlan.{shift_to_weekday, nearest_weekday, compute_last_weekday}

-- A day from Monday to Friday.
abbrev pub IsWeekday : ℕ → ℕ → ℕ → Type 0
IsWeekday y m d = (1 ≤ day_of_week y m d) × (day_of_week y m d ≤ 5)

-- The shift, over a count `x` of the days before the month.
shift_lem :
    (x n d : ℕ)
    → 28 ≤ n
    → 1 ≤ d
    → d ≤ n
    → let e = shift_to_weekday n d ((x + d) % 7) in
      (1 ≤ (x + e) % 7) × ((x + e) % 7 ≤ 5) × (1 ≤ e) × (e ≤ n) × (e ≤ d + 2) × (d ≤ e + 2)
unfolding shift_to_weekday
shift_lem x n d h p q = ground arith

-- `nearestWeekday` gives a weekday of the same month, at most two days from the target where that is
-- a day of the month.
pub nearest_weekday_lem :
    (y m target : ℕ)
    → 1 ≤ target
    → target ≤ get_days_in_month y m
    → let d = nearest_weekday y m target in
      IsWeekday y m d × (1 ≤ d) × (d ≤ get_days_in_month y m) × (d ≤ target + 2) × (target ≤ d + 2)
unfolding nearest_weekday day_of_week
nearest_weekday_lem y m target p q =
    let (lo, hi) = get_days_in_month_bounds y m in
    let e : min (max target 1) (get_days_in_month y m) ≡ target = omega arith in
    rw e (
      let (a, b, c, d, f, g) = shift_lem (days_before y m) (get_days_in_month y m) target lo p q in
      ((a, b), c, d, f, g))

last_lem :
    (x n k : ℕ)
    → 28 ≤ n
    → let dow = (x + n) % 7 in
      let d = if dow == 6 then n - 1 else n in
      let e = if dow == 0 then d - 2 else d in
      (1 ≤ (x + e) % 7) × ((x + e) % 7 ≤ 5) × (e ≤ n) × (n ≤ e + 2)
last_lem x n k h = ground arith

-- `computeLastWeekday` gives the last weekday of the month: a weekday, with no weekday after it.
pub compute_last_weekday_lem :
    (y m d : ℕ)
    → compute_last_weekday y m < d
    → d ≤ get_days_in_month y m
    → IsWeekday y m (compute_last_weekday y m)
      × (compute_last_weekday y m ≤ get_days_in_month y m)
      × ((day_of_week y m d ≡ 6) ⊎ (day_of_week y m d ≡ 0))
unfolding compute_last_weekday day_of_week
compute_last_weekday_lem y m d p q = let (lo, hi) = get_days_in_month_bounds y m in ground arith
