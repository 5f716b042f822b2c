-- ===== src/Cron/Expression.antt =====
-- packages/cron/src/planner/cron.ts: from the text of an expression to a `CronSpec`. `none` is an
-- exception. `number` is `Number(…)` of a text, `none` where that is NaN: texts that stand for
-- numbers other than the natural ones are not modelled. A `Set` is the list of its members. White
-- space is that of ASCII.
pub mod Bounds
pub mod Whole
pub mod Steps
use nope.Prelude.{
  ℕ, zero, suc, ◌+◌, ◌-◌, Bool, true, false, not, ◌&&◌, ◌||◌, List, [], ◌∷◌, ◌++◌, Option, none,
  some, ltb, leb, ◌==◌, if◌then◌else◌, length, Text, text, text_eq, push_front, split_on, has_char,
  part, but_last, ends_in, starts, behind,
}
use nope.Prelude.Sort.{sort}
use nope.Cron.CronPlan.{StandardField, DayOfMonthMatcher, DayOfWeekMatcher, Nth, CronSpec}

pub data FieldName : Type 0 where
  seconds minutes hours day_of_month month day_of_week year : FieldName

-- `CronField`, whose `allowWildcard` is always true.
pub record CronField : Type 0 where
  pub name : FieldName
  pub min : ℕ
  pub max : ℕ

-- `CRON_FIELDS`
abbrev pub field_of : FieldName → CronField
field_of seconds = record { name = seconds; min = 0; max = 59 }
field_of minutes = record { name = minutes; min = 0; max = 59 }
field_of hours = record { name = hours; min = 0; max = 23 }
field_of day_of_month = record { name = day_of_month; min = 1; max = 31 }
field_of month = record { name = month; min = 1; max = 12 }
field_of day_of_week = record { name = day_of_week; min = 0; max = 7 }
field_of year = record { name = year; min = 1970; max = 2099 }

abbrev pub is_weekday_field : FieldName → Bool
is_weekday_field day_of_week = true
is_weekday_field _ = false

abbrev pub is_day_field : FieldName → Bool
is_day_field day_of_week = true
is_day_field day_of_month = true
is_day_field _ = false

unfoldable pub and_then : {A B : Type 0} → Option A → (A → Option B) → Option B
and_then none f = none
and_then (some a) f = f a

-- `Set.add` of every element.
abbrev pub member : ℕ → List ℕ → Bool
member n [] = false
member n (m ∷ ms) = m == n || member n ms

abbrev pub add_all : List ℕ → List ℕ → List ℕ
add_all ns [] = ns
add_all ns (m ∷ ms) = add_all (if member m ns then ns else ns ++ m ∷ []) ms

unfoldable pub normalize_field_value : ℕ → CronField → Option ℕ
normalize_field_value v f =
    if ltb v f.min || ltb f.max v
    then none
    else if is_weekday_field f.name && v == 7
    then some 0
    else some v

abbrev pub cons_value : Option ℕ → Option (List ℕ) → Option (List ℕ)
cons_value none rest = none
cons_value (some v) none = none
cons_value (some v) (some vs) = some (v ∷ vs)

-- The loop from `i` to `end` by `step`, on fuel.
unfoldable pub range : ℕ → ℕ → ℕ → ℕ → CronField → Option (List ℕ)
range zero i last step f = some []
range (suc n) i last step f =
    let rest = range n (i + step) last step f in
    if ltb last i then some [] else cons_value (normalize_field_value i f) rest

abbrev pub is_space : ℕ → Bool
is_space c = c == 32 || (leb 9 c && leb c 13)

abbrev pub trim_start : Text → Text
trim_start [] = []
trim_start (c ∷ cs) = if is_space c then trim_start cs else c ∷ cs

-- A text without the white space at its end.
abbrev pub trim_end : Text → Text
trim_end [] = []
trim_end (c ∷ cs) = let rest = trim_end cs in if is_space c && text_eq rest [] then [] else c ∷ rest

abbrev pub split_space : Text → List Text
split_space [] = [] ∷ []
split_space (c ∷ cs) =
    let rest = split_space cs in if is_space c then [] ∷ rest else push_front c rest

abbrev pub no_empty : List Text → List Text
no_empty [] = []
no_empty ([] ∷ ts) = no_empty ts
no_empty ((c ∷ t) ∷ ts) = (c ∷ t) ∷ no_empty ts

-- `split(/\s+/)` of a text without white space at its ends; of the empty text one part fewer, which
-- is refused as well.
abbrev pub words : Text → List Text
words t = no_empty (split_space t)

-- `NICKNAMES`
abbrev pub nickname : Text → Option Text
nickname t =
    if text_eq t (text "@yearly") || text_eq t (text "@annually")
    then some (text "0 0 0 1 1 ? *")
    else if text_eq t (text "@monthly")
    then some (text "0 0 0 1 * ? *")
    else if text_eq t (text "@weekly")
    then some (text "0 0 0 ? * 1 *")
    else if text_eq t (text "@daily")
    then some (text "0 0 0 * * ? *")
    else none

unfoldable pub normalize_expression : Text → Text
normalize_expression expression =
    let trimmed = trim_end (trim_start expression) in
    elim (nickname trimmed) [ none ↦ trimmed | some t ↦ t ]

unfoldable pub map_matcher : {A B : Type 0} → (A → B) → Option A → Option B
map_matcher f none = none
map_matcher f (some a) = some (f a)

abbrev pub single : Option ℕ → Option (List ℕ)
single none = none
single (some v) = some (v ∷ [])

abbrev pub between : ℕ → ℕ → ℕ → CronField → Option (List ℕ)
between start last step f =
    if ltb last start then none else range (suc (last - start)) start last step f

abbrev pub sorted_values : Option (List ℕ) → Option StandardField
sorted_values none = none
sorted_values (some ns) = some (StandardField.values (sort (λ a b. ltb b a) ns))

abbrev pub no_days : Bool → Bool → DayOfMonthMatcher
no_days any ignore = record {
  any = any;
  ignore = ignore;
  values = [];
  nearest_weekdays = [];
  last_day_offsets = [];
  last_weekday = false;
}

abbrev pub no_weekdays : Bool → Bool → DayOfWeekMatcher
no_weekdays any ignore = record {
  any = any;
  ignore = ignore;
  values = [];
  last_in_month = [];
  nth_in_month = [];
}

-- The parts of an expression, filled to seven.
abbrev pub filled : List Text → Option (List Text)
filled parts =
    if ltb (length parts) 5 || ltb 7 (length parts)
    then none
    else if length parts == 5
    then some (text "0" ∷ parts ++ text "*" ∷ [])
    else if length parts == 6
    then some (parts ++ text "*" ∷ [])
    else some parts

abbrev pub range_part : Text → Text
range_part token = if has_char b'/' token then part (split_on b'/' token) 0 else token

abbrev pub day_entry : Option ℕ → (Option ℕ → DayOfWeekMatcher) → Option DayOfWeekMatcher
day_entry none use_day = some (use_day none)
day_entry (some n) use_day =
    map_matcher (λ d. use_day (some d)) (normalize_field_value n (field_of day_of_week))

module _ (number : Text → Option ℕ) where
  abbrev pub step_of : Text → Option ℕ
  step_of token =
      if has_char b'/' token
      then and_then (number (part (split_on b'/' token) 1)) (λ n. if n == 0 then none else some n)
      else some 1

  abbrev pub expand_range : Text → ℕ → CronField → Option (List ℕ)
  expand_range r step f =
      if text_eq r (text "*")
      then range (suc (f.max - f.min)) f.min f.max step f
      else if has_char b'-' r
      then and_then (number (part (split_on b'-' r) 0)) (λ start.
        and_then (number (part (split_on b'-' r) 1)) (λ last. between start last step f))
      else and_then (number r) (λ n. single (normalize_field_value n f))

  unfoldable pub expand_token : Text → CronField → Option (List ℕ)
  unfolding range normalize_field_value
  expand_token token f = and_then (step_of token) (λ step. expand_range (range_part token) step f)

  -- The loop over the tokens of `parseStandardField`.
  unfoldable pub expand_all : List Text → CronField → List ℕ → Option (List ℕ)
  unfolding expand_token
  expand_all [] f ns = some ns
  expand_all (t ∷ ts) f ns = and_then (expand_token t f) (λ vs. expand_all ts f (add_all ns vs))

  unfoldable pub parse_standard_field : Text → CronField → Option StandardField
  unfolding expand_all
  parse_standard_field value f =
      if text_eq value (text "*")
      then some StandardField.wildcard
      else if text_eq value (text "?")
      then (if is_day_field f.name then some StandardField.wildcard else none)
      else sorted_values (expand_all (split_on b',' value) f [])

  -- What the loop over the tokens of `parseDayOfMonthField` adds for one token.
  abbrev pub day_of_month_token : Text → DayOfMonthMatcher → Option DayOfMonthMatcher
  day_of_month_token t m =
      if text_eq t (text "L")
      then some (record m { last_day_offsets = m.last_day_offsets ++ 0 ∷ [] })
      else if starts t (text "L-")
      then map_matcher (λ n. record m { last_day_offsets = m.last_day_offsets ++ n ∷ [] })
          (number (behind 2 t))
      else if text_eq t (text "LW")
      then some (record m { last_weekday = true })
      else if ends_in b'W' t
      then and_then (number (but_last t)) (λ n.
        if ltb n 1 || ltb 31 n
        then none
        else some (record m { nearest_weekdays = m.nearest_weekdays ++ n ∷ [] }))
      else map_matcher (λ vs. record m { values = add_all m.values vs })
          (expand_token t (field_of day_of_month))

  unfoldable pub day_of_month_tokens : List Text → DayOfMonthMatcher → Option DayOfMonthMatcher
  unfolding expand_token
  day_of_month_tokens [] m = some m
  day_of_month_tokens (t ∷ ts) m =
      and_then (day_of_month_token t m) (λ m'. day_of_month_tokens ts m')

  unfoldable pub parse_day_of_month_field : Text → Option DayOfMonthMatcher
  unfolding day_of_month_tokens
  parse_day_of_month_field value =
      if text_eq value (text "*") || text_eq value (text "?")
      then some (no_days true (text_eq value (text "?")))
      else day_of_month_tokens (split_on b',' value) (no_days false false)

  -- `normalizeFieldValue(Number(t), …)` before `use` of the day: a NaN passes the bounds, and is used.
  abbrev pub with_day : Text → (Option ℕ → DayOfWeekMatcher) → Option DayOfWeekMatcher
  with_day t use_day = day_entry (number t) use_day

  -- What the loop of `parseDayOfWeekField` adds for one token.
  abbrev pub day_of_week_token : Text → DayOfWeekMatcher → Option DayOfWeekMatcher
  day_of_week_token t m =
      if has_char b'#' t
      then and_then (number (part (split_on b'#' t) 1)) (λ n.
        and_then
          (with_day (part (split_on b'#' t) 0)
            (λ d. record m { nth_in_month = m.nth_in_month ++ record { day = d; nth = n } ∷ [] }))
          (λ m'. if ltb n 1 || ltb 5 n then none else some m'))
      else if ends_in b'L' t && ltb 1 (length t)
      then with_day (but_last t) (λ d. record m { last_in_month = m.last_in_month ++ d ∷ [] })
      else if text_eq t (text "L")
      then none
      else map_matcher (λ vs. record m { values = add_all m.values vs })
          (expand_token t (field_of day_of_week))

  unfoldable pub day_of_week_tokens : List Text → DayOfWeekMatcher → Option DayOfWeekMatcher
  unfolding expand_token
  day_of_week_tokens [] m = some m
  day_of_week_tokens (t ∷ ts) m = and_then (day_of_week_token t m) (λ m'. day_of_week_tokens ts m')

  unfoldable pub parse_day_of_week_field : Text → Option DayOfWeekMatcher
  unfolding day_of_week_tokens
  parse_day_of_week_field value =
      if text_eq value (text "*") || text_eq value (text "?")
      then some (no_weekdays true (text_eq value (text "?")))
      else day_of_week_tokens (split_on b',' value) (no_weekdays false false)

  abbrev pub spec_of : List Text → Option CronSpec
  spec_of parts = and_then (parse_standard_field (part parts 0) (field_of seconds)) (λ second.
      and_then (parse_standard_field (part parts 1) (field_of minutes)) (λ minute.
        and_then (parse_standard_field (part parts 2) (field_of hours)) (λ hour.
          and_then (parse_day_of_month_field (part parts 3)) (λ day.
            and_then (parse_standard_field (part parts 4) (field_of month)) (λ mon.
              and_then (parse_day_of_week_field (part parts 5)) (λ weekday.
                and_then (parse_standard_field (part parts 6) (field_of year)) (λ y. some (record {
                  seconds = second;
                  minutes = minute;
                  hours = hour;
                  months = mon;
                  years = y;
                  day_of_month = day;
                  day_of_week = weekday;
                }))))))))

  unfoldable pub build_spec : Text → Option CronSpec
  unfolding parse_standard_field parse_day_of_month_field parse_day_of_week_field
  build_spec expression = and_then (filled (words (normalize_expression expression))) spec_of
