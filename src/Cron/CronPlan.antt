-- ===== src/Cron/CronPlan.antt =====
-- packages/cron/src/planner/cron.ts from the parsed expression on: the matchers of a `CronSpec`, and
-- the search of `next`. A `Set` of numbers is a list. The time fields of an instant in the plan's time
-- zone (tz.ts, over `Intl`) and the calendar filter are parameters.
pub mod Weekdays
pub mod Search
pub mod DayFields
use nope.Prelude.{
  ℕ, zero, suc, ◌+◌, ◌-◌, ◌*◌, ◌/◌, ◌%◌, ◌≤◌, ◌<◌, ◌≡◌, refl, Bool, true, false, ◌&&◌, ◌||◌, not,
  List, [], ◌∷◌, Option, none, some, ltb, leb, ◌==◌, if◌then◌else◌, min, max,
}
use nope.Cron.Days.{get_days_in_month, day_of_week}

-- `TimeFields` of tz.ts; `month` counts from 1.
pub record TimeFields : Type 0 where
  pub year : ℕ
  pub month : ℕ
  pub day : ℕ
  pub hour : ℕ
  pub minute : ℕ
  pub second : ℕ
  pub day_of_week : ℕ

-- `StandardField`: `*`, or the values.
pub data StandardField : Type 0 where
  wildcard : StandardField
  values : List ℕ → StandardField

pub record DayOfMonthMatcher : Type 0 where
  pub any : Bool
  pub ignore : Bool
  pub values : List ℕ
  pub nearest_weekdays : List ℕ
  pub last_day_offsets : List ℕ
  pub last_weekday : Bool

-- A day that is `none` is a NaN.
pub record Nth : Type 0 where
  pub day : Option ℕ
  pub nth : ℕ

pub record DayOfWeekMatcher : Type 0 where
  pub any : Bool
  pub ignore : Bool
  pub values : List ℕ
  pub last_in_month : List (Option ℕ)
  pub nth_in_month : List Nth

pub record CronSpec : Type 0 where
  pub seconds : StandardField
  pub minutes : StandardField
  pub hours : StandardField
  pub months : StandardField
  pub years : StandardField
  pub day_of_month : DayOfMonthMatcher
  pub day_of_week : DayOfWeekMatcher

-- Whether some element passes a test, the first that does ending the loop.
abbrev pub some_of {ℓ} : {A : Type ℓ} → (A → Bool) → List A → Bool
some_of p [] = false
some_of p (x ∷ xs) = p x || some_of p xs

unfoldable pub matches_field : ℕ → StandardField → Bool
matches_field v wildcard = true
matches_field v (values vs) = some_of (λ x. x == v) vs

-- `nearestWeekday` past the clamping of the day, by the day's weekday.
pub shift_to_weekday : ℕ → ℕ → ℕ → ℕ
shift_to_weekday days_in_month day dow =
    if leb 1 dow && leb dow 5
    then day
    else if dow == 6
    then (if day == 1 then day + 2 else day - 1)
    else if day == days_in_month
    then day - 2
    else day + 1

pub nearest_weekday : ℕ → ℕ → ℕ → ℕ
unfolding shift_to_weekday
nearest_weekday y m target =
    let n = get_days_in_month y m in
    let day = min (max target 1) n in shift_to_weekday n day (day_of_week y m day)

unfoldable pub compute_last_weekday : ℕ → ℕ → ℕ
compute_last_weekday y m =
    let n = get_days_in_month y m in
    let dow = day_of_week y m n in
    let d = if dow == 6 then n - 1 else n in if dow == 0 then d - 2 else d

pub matches_day_of_month : TimeFields → DayOfMonthMatcher → Bool
unfolding nearest_weekday compute_last_weekday
matches_day_of_month f m =
    let y = f.year in
    let mi = f.month - 1 in
    let n = get_days_in_month y mi in
    m.any
    || (some_of (λ x. x == f.day) m.values
        || (some_of (λ offset. f.day == max 1 (n - offset)) m.last_day_offsets
            || (m.last_weekday && f.day == compute_last_weekday y mi
                || some_of (λ target. f.day == nearest_weekday y mi target) m.nearest_weekdays)))

-- Whether a stored day is that weekday, which a NaN never is.
abbrev pub same_day : Option ℕ → ℕ → Bool
same_day none dow = false
same_day (some d) dow = dow == d

pub matches_day_of_week : TimeFields → DayOfWeekMatcher → Bool
matches_day_of_week f m =
    let dow = f.day_of_week in
    let n = get_days_in_month f.year (f.month - 1) in
    m.any
    || (some_of (λ x. x == dow) m.values
        || (some_of (λ target. same_day target dow && ltb n (f.day + 7)) m.last_in_month
            || some_of (λ (e : Nth). same_day e.day dow && (f.day - 1) / 7 + 1 == e.nth)
                m.nth_in_month))

-- The day's part of `candidateMatches`.
pub day_matches : TimeFields → CronSpec → Bool
unfolding matches_day_of_month matches_day_of_week
day_matches f s =
    let dom = matches_day_of_month f s.day_of_month in
    let dow = matches_day_of_week f s.day_of_week in
    let dom_active = not s.day_of_month.ignore in
    let dow_active = not s.day_of_week.ignore in
    if dom_active && dow_active
    then dom || dow
    else if dom_active
    then dom
    else if dow_active
    then dow
    else true

unfoldable pub candidate_matches : TimeFields → CronSpec → Bool
unfolding matches_field day_matches
candidate_matches f s =
    matches_field f.second s.seconds
    && (matches_field f.minute s.minutes
        && (matches_field f.hour s.hours
            && (matches_field f.month s.months
                && (day_matches f s && matches_field f.year s.years))))

-- What `next` does: gives an instant, gives `undefined`, or throws at the iteration limit.
pub data Answer : Type 0 where
  found : ℕ → Answer
  undefined : Answer
  throws : Answer

-- The plan, with `emitted`. `max_runs` is `none` for infinity.
pub record Plan : Type 0 where
  pub spec : CronSpec
  pub max_runs : Option ℕ
  pub end_at : Option ℕ
  pub emitted : ℕ

abbrev past : Option ℕ → ℕ → Bool
past none c = false
past (some e) c = ltb e c

abbrev reached : Option ℕ → ℕ → Bool
reached none n = false
reached (some m) n = leb m n

-- The `while` loop of `next`: `n` iterations are left, `c` is the candidate.
pub search : (ℕ → Bool) → Option ℕ → ℕ → ℕ → Answer
search test end_at zero c = throws
search test end_at (suc n) c =
    let rest = search test end_at n (c + 1000) in
    if past end_at c then undefined else if test c then found c else rest

-- `const limit`
unfoldable pub limit : ℕ
limit = 500_000

module _ (extract_fields : ℕ → TimeFields) (allow_date : ℕ → TimeFields → Bool) where
  unfoldable pub accepts : CronSpec → ℕ → Bool
  unfolding candidate_matches
  accepts s c = let f = extract_fields c in candidate_matches f s && allow_date c f

  pub note : Plan → Answer → Plan × Answer
  note p (found c) = (record p { emitted = p.emitted + 1 }, found c)
  note p undefined = (p, undefined)
  note p throws = (p, throws)

  pub next : Plan → ℕ → Plan × Answer
  unfolding note
  next p after =
      if reached p.max_runs p.emitted
      then (p, undefined)
      else note p (search (accepts p.spec) p.end_at limit (after + 1000))
