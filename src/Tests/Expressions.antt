-- ===== src/Tests/Expressions.antt =====
-- Runs of the parser of packages/cron/src/planner/cron.ts, with the decimal numbers.
use nope.Prelude.{
  ◌↔◌, arith, ℕ, ◌+◌, ◌-◌, ◌*◌, ◌≡◌, refl, true, false, ◌&&◌, List, [], ◌∷◌, Option, none, some,
  leb, if◌then◌else◌, Text, text,
}
use nope.Cron.CronPlan.{StandardField, CronSpec}
use nope.Cron.Expression.Whole.{SpecAllowed, build_spec-SpecAllowed}
use nope.Cron.Expression.Steps.{IsStep, between-IsStep}
use nope.Cron.Expression.{
  no_days, member, map_matcher, and_then, build_spec, expand_token, parse_standard_field, field_of,
  minutes, normalize_field_value, range, between, expand_all, expand_token,
  parse_day_of_month_field, parse_day_of_week_field, normalize_expression, day_of_month_tokens,
  day_of_week_tokens,
}

abbrev digits : ℕ → Text → Option ℕ
digits n [] = some n
digits n (c ∷ cs) = if leb b'0' c && leb c b'9' then digits (n * 10 + (c - b'0')) cs else none

abbrev decimal : Text → Option ℕ
decimal t = digits 0 t

quarters : expand_token decimal (text "0-59/15") (field_of minutes) ≡ some (0 ∷ 15 ∷ 30 ∷ 45 ∷ [])
unfolding and_then expand_token range normalize_field_value
quarters = refl

-- A step behind a single number is ignored.
lone_step : expand_token decimal (text "5/10") (field_of minutes) ≡ some (5 ∷ [])
unfolding and_then expand_token range normalize_field_value
lone_step = refl

-- An empty token is the number 0.
empty_token : expand_token decimal [] (field_of minutes) ≡ some (0 ∷ [])
unfolding and_then expand_token range normalize_field_value
empty_token = refl

abbrev nine : CronSpec
nine = record {
  seconds = StandardField.values (0 ∷ []);
  minutes = StandardField.values (0 ∷ 30 ∷ []);
  hours = StandardField.values (9 ∷ 10 ∷ []);
  months = StandardField.wildcard;
  years = StandardField.wildcard;
  day_of_month = no_days true true;
  day_of_week = record {
    any = false;
    ignore = false;
    values = 0 ∷ 1 ∷ [];
    last_in_month = some 5 ∷ [];
    nth_in_month = record { day = some 2; nth = 3 } ∷ [];
  };
}

build_spec-SpecAllowed_example : SpecAllowed nine
unfolding and_then map_matcher build_spec normalize_expression parse_standard_field expand_all
    expand_token range normalize_field_value parse_day_of_month_field parse_day_of_week_field
    day_of_month_tokens day_of_week_tokens
build_spec-SpecAllowed_example =
    build_spec-SpecAllowed decimal (text " 0,30 9-10 ? * 7,1,5L,2#3 ") nine refl

between-IsStep_example :
    (vs : List ℕ) × (between 0 59 15 (field_of minutes) ≡ some vs)
    × ((v : ℕ) → (member v vs ≡ true) ↔ IsStep 0 59 15 v)
between-IsStep_example =
    between-IsStep 0 59 15 (field_of minutes) refl (omega arith) (omega arith) (omega arith)
      (omega arith)
