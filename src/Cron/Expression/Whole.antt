-- ===== src/Cron/Expression/Whole.antt =====
-- The bounds of a whole expression.
use nope.Prelude.{
  ℕ, ◌≤◌, ◌≡◌, refl, subst, Bool, true, false, ◌||◌, List, [], ◌∷◌, ◌++◌, Option, none, some, ltb,
  All, arith, Text, text, text_eq, length, ◌&&◌, if◌then◌else◌,
}
use nope.Cron.CronPlan.{DayOfMonthMatcher, DayOfWeekMatcher, Nth, CronSpec}
use nope.Cron.Expression.{
  seconds, minutes, hours, day_of_month, month, day_of_week, year, and_then, day_entry,
  day_of_month_token, day_of_month_tokens, parse_day_of_month_field, with_day, day_of_week_token,
  day_of_week_tokens, parse_day_of_week_field, spec_of, build_spec,
}
use nope.Prelude.{part, split_on, has_char, ends_in, starts}
use nope.Cron.Expression.Bounds.{
  Allowed, AllAllowed, FieldAllowed, Every, and_then-Every, and_then-any, map_matcher-Every,
  if_Every, normalize_Every, append_All, add_all-All, expand_token_Allowed,
  parse_standard_field_Allowed,
}

-- Days of the month that a month can have; a target of `W` too. What `L-` takes off is in no bounds.
pub record DaysAllowed (m : DayOfMonthMatcher) : Type 0 where
  pub values : AllAllowed day_of_month m.values
  pub nearest_weekdays : AllAllowed day_of_month m.nearest_weekdays

-- A weekday, or a NaN.
abbrev pub DayAllowed : Option ℕ → Type 0
DayAllowed none = Unit
DayAllowed (some d) = Allowed day_of_week d

abbrev pub NthAllowed : Nth → Type 0
NthAllowed x = DayAllowed x.day × (1 ≤ x.nth) × (x.nth ≤ 5)

pub record WeekdaysAllowed (m : DayOfWeekMatcher) : Type 0 where
  pub values : AllAllowed day_of_week m.values
  pub last_in_month : All DayAllowed m.last_in_month
  pub nth_in_month : All NthAllowed m.nth_in_month

pub record SpecAllowed (s : CronSpec) : Type 0 where
  pub seconds_field : FieldAllowed seconds s.seconds
  pub minutes_field : FieldAllowed minutes s.minutes
  pub hours_field : FieldAllowed hours s.hours
  pub months_field : FieldAllowed month s.months
  pub years_field : FieldAllowed year s.years
  pub days : DaysAllowed s.day_of_month
  pub weekdays : WeekdaysAllowed s.day_of_week

any-Every : {A : Type 0} (o : Option A) → Every (λ a. Unit) o
any-Every none = tt
any-Every (some a) = tt

append_one :
    {A : Type 0} (P : A → Type 0) (xs : List A) (y : A) → All P xs → P y → All P (xs ++ y ∷ [])
append_one P [] y h p = (p, tt)
append_one P (x ∷ xs) y h p = (h.0, append_one P xs y h.1 p)

day_entry-Allowed :
    (o : Option ℕ) (use_day : Option ℕ → DayOfWeekMatcher)
    → ((d : Option ℕ) → DayAllowed d → WeekdaysAllowed (use_day d))
    → Every WeekdaysAllowed (day_entry o use_day)
day_entry-Allowed none use_day k = k none tt
day_entry-Allowed (some n) use_day k =
    map_matcher-Every (Allowed day_of_week) WeekdaysAllowed (λ d. use_day (some d)) _
      (normalize_Every day_of_week n) (λ d a. k (some d) a)

module _ (number : Text → Option ℕ) where
  day_of_month_token_Allowed :
      (t : Text) (m : DayOfMonthMatcher)
      → DaysAllowed m
      → Every DaysAllowed (day_of_month_token number t m)
  day_of_month_token_Allowed t m h =
      if_Every DaysAllowed (text_eq t (text "L")) (some _) _
        (λ b. record { values = h.values; nearest_weekdays = h.nearest_weekdays })
        (λ b.
          if_Every DaysAllowed (starts t (text "L-")) _ _
            (λ c.
              map_matcher-Every (λ a. Unit) DaysAllowed _ _ (any-Every _)
                (λ n u. record { values = h.values; nearest_weekdays = h.nearest_weekdays }))
            (λ c.
              if_Every DaysAllowed (text_eq t (text "LW")) (some _) _
                (λ d. record { values = h.values; nearest_weekdays = h.nearest_weekdays })
                (λ d.
                  if_Every DaysAllowed (ends_in b'W' t) _ _
                    (λ w. and_then-any DaysAllowed _ _ (λ n.
                      if_Every DaysAllowed (ltb n 1 || ltb 31 n) none (some _) (λ q. tt)
                        (λ q. record {
                          values = h.values;
                          nearest_weekdays =
                              append_All (Allowed day_of_month) m.nearest_weekdays n
                                h.nearest_weekdays (ground arith, ground arith);
                        })))
                    (λ w.
                      map_matcher-Every (AllAllowed day_of_month) DaysAllowed _ _
                        (expand_token_Allowed number day_of_month t)
                        (λ vs k. record {
                          values = add_all-All (Allowed day_of_month) m.values vs h.values k;
                          nearest_weekdays = h.nearest_weekdays;
                        })))))

  days_Allowed :
      (ts : List Text) (m : DayOfMonthMatcher)
      → DaysAllowed m
      → Every DaysAllowed (day_of_month_tokens number ts m)
  unfolding day_of_month_tokens
  days_Allowed [] m h = h
  days_Allowed (t ∷ ts) m h =
      and_then-Every DaysAllowed DaysAllowed _ _ (day_of_month_token_Allowed t m h)
        (λ m' k. days_Allowed ts m' k)

  parse_day_of_month_field_Allowed :
      (value : Text) → Every DaysAllowed (parse_day_of_month_field number value)
  unfolding parse_day_of_month_field
  parse_day_of_month_field_Allowed value =
      if_Every DaysAllowed (text_eq value (text "*") || text_eq value (text "?")) (some _) _
        (λ b. record { values = tt; nearest_weekdays = tt })
        (λ b. days_Allowed _ _ (record { values = tt; nearest_weekdays = tt }))

  day_of_week_token_Allowed :
      (t : Text) (m : DayOfWeekMatcher)
      → WeekdaysAllowed m
      → Every WeekdaysAllowed (day_of_week_token number t m)
  day_of_week_token_Allowed t m h =
      if_Every WeekdaysAllowed (has_char b'#' t) _ _
        (λ b. and_then-any WeekdaysAllowed _ _ (λ n. numbered n (ltb n 1 || ltb 5 n) refl))
        (λ b.
          if_Every WeekdaysAllowed (ends_in b'L' t && ltb 1 (length t)) _ _
            (λ c. day_entry-Allowed _ _ (λ d k. record {
              values = h.values;
              last_in_month = append_one DayAllowed m.last_in_month d h.last_in_month k;
              nth_in_month = h.nth_in_month;
            }))
            (λ c.
              if_Every WeekdaysAllowed (text_eq t (text "L")) none _ (λ d. tt)
                (λ d.
                  map_matcher-Every (AllAllowed day_of_week) WeekdaysAllowed _ _
                    (expand_token_Allowed number day_of_week t)
                    (λ vs k. record {
                      values = add_all-All (Allowed day_of_week) m.values vs h.values k;
                      last_in_month = h.last_in_month;
                      nth_in_month = h.nth_in_month;
                    }))))
    where
      numbered :
          (n : ℕ) (b : Bool)
          → (ltb n 1 || ltb 5 n) ≡ b
          → Every WeekdaysAllowed (
              and_then
                (with_day number (part (split_on b'#' t) 0) (λ d. record m {
                  nth_in_month = m.nth_in_month ++ record { day = d; nth = n } ∷ [];
                }))
                (λ m'. if b then none else some m'))
      numbered n true e = and_then-any WeekdaysAllowed _ _ (λ m'. tt)
      numbered n false e =
          and_then-Every WeekdaysAllowed WeekdaysAllowed _ _
            (day_entry-Allowed (number (part (split_on b'#' t) 0)) _ (λ d k. record {
              values = h.values;
              last_in_month = h.last_in_month;
              nth_in_month =
                  append_one NthAllowed m.nth_in_month _ h.nth_in_month
                    (k, ground arith, ground arith);
            }))
            (λ m' k. k)

  weekdays_Allowed :
      (ts : List Text) (m : DayOfWeekMatcher)
      → WeekdaysAllowed m
      → Every WeekdaysAllowed (day_of_week_tokens number ts m)
  unfolding day_of_week_tokens
  weekdays_Allowed [] m h = h
  weekdays_Allowed (t ∷ ts) m h =
      and_then-Every WeekdaysAllowed WeekdaysAllowed _ _ (day_of_week_token_Allowed t m h)
        (λ m' k. weekdays_Allowed ts m' k)

  parse_day_of_week_field_Allowed :
      (value : Text) → Every WeekdaysAllowed (parse_day_of_week_field number value)
  unfolding parse_day_of_week_field
  parse_day_of_week_field_Allowed value =
      if_Every WeekdaysAllowed (text_eq value (text "*") || text_eq value (text "?")) (some _) _
        (λ b. record { values = tt; last_in_month = tt; nth_in_month = tt })
        (λ b. weekdays_Allowed _ _ (record { values = tt; last_in_month = tt; nth_in_month = tt }))

  spec_of_Allowed : (parts : List Text) → Every SpecAllowed (spec_of number parts)
  spec_of_Allowed parts =
      and_then-Every (FieldAllowed seconds) SpecAllowed _ _
        (parse_standard_field_Allowed number seconds _)
        (λ s hs.
          and_then-Every (FieldAllowed minutes) SpecAllowed _ _
            (parse_standard_field_Allowed number minutes _)
            (λ m hm.
              and_then-Every (FieldAllowed hours) SpecAllowed _ _
                (parse_standard_field_Allowed number hours _)
                (λ o ho.
                  and_then-Every DaysAllowed SpecAllowed _ _ (parse_day_of_month_field_Allowed _)
                    (λ d hd.
                      and_then-Every (FieldAllowed month) SpecAllowed _ _
                        (parse_standard_field_Allowed number month _)
                        (λ n hn.
                          and_then-Every WeekdaysAllowed SpecAllowed _ _
                            (parse_day_of_week_field_Allowed _)
                            (λ w hw.
                              and_then-Every (FieldAllowed year) SpecAllowed _ _
                                (parse_standard_field_Allowed number year _)
                                (λ y hy. record {
                                  seconds_field = hs;
                                  minutes_field = hm;
                                  hours_field = ho;
                                  months_field = hn;
                                  years_field = hy;
                                  days = hd;
                                  weekdays = hw;
                                })))))))

  -- What an expression is parsed to has in every list of values, and in the targets of `W`, numbers
  -- within the bounds of the field only; a day before `#` or `L` is from 0 to 6 or a NaN, and an
  -- occurrence from 1 to 5. The number after `L-` is in no bounds, and nothing is stated of it.
  pub build_spec-SpecAllowed :
      (expression : Text) (s : CronSpec) → build_spec number expression ≡ some s → SpecAllowed s
  unfolding build_spec
  build_spec-SpecAllowed expression s e =
      subst (Every SpecAllowed) e (and_then-any SpecAllowed _ _ spec_of_Allowed)
