-- ===== src/Cron/Calendars.antt =====
-- packages/cron/src/planner/calendars.ts. The entries have been trimmed; a `Set` of keys is the list of
-- its members. The fields of the date are given, as the plans give them.
pub mod Meaning
use nope.Prelude.{
  ℕ, zero, suc, ◌+◌, ◌-◌, ◌*◌, ◌/◌, ◌%◌, Bool, true, false, not, ◌&&◌, ◌||◌, List, [], ◌∷◌, ◌++◌,
  Option, none, some, ltb, leb, ◌==◌, if◌then◌else◌, Text, split_on, text_dec,
}
use nope.Prelude.Sets.{has, add}
use nope.Cron.CronPlan.{TimeFields, some_of}

-- `CalendarRule` of api.ts
pub record Rule : Type 0 where
  pub include : Option (List Text)
  pub exclude : Option (List Text)

pub record Pattern : Type 0 where
  pub year : Option ℕ
  pub month : Option ℕ
  pub day : Option ℕ

pub data Entry : Type 0 where
  by_key : Text → Entry
  by_pattern : Pattern → Entry

-- The keys and patterns of one kind.
pub record Days : Type 0 where
  pub keys : List Text
  pub patterns : List Pattern

pub data Filter : Type 0 where
  everything : Filter
  filtered : Days → Days → Filter

abbrev pub is_digit : ℕ → Bool
is_digit c = leb 48 c && leb c 57

-- `\d{4}|\*` and `\d{2}|\*`
abbrev pub is_year : Text → Bool
is_year (c ∷ []) = c == 42
is_year (a ∷ b ∷ c ∷ d ∷ []) = is_digit a && (is_digit b && (is_digit c && is_digit d))
is_year t = false

abbrev pub is_pair : Text → Bool
is_pair (c ∷ []) = c == 42
is_pair (a ∷ b ∷ []) = is_digit a && is_digit b
is_pair t = false

-- `Number` of digits, behind those read.
abbrev pub number : ℕ → Text → ℕ
number n [] = n
number n (c ∷ cs) = number (n * 10 + (c - 48)) cs

-- `*` is undefined.
abbrev pub part_value : Text → Option ℕ
part_value (c ∷ []) = none
part_value t = some (number 0 t)

-- Zero is falsy, so that the test passes it.
abbrev pub beyond : Option ℕ → ℕ → Bool
beyond none top = false
beyond (some n) top = ltb top n

abbrev pub entry_of : Text → Text → Text → Option ℕ → Option ℕ → Option ℕ → Entry
entry_of y m d (some a) (some b) (some c) = by_key (y ++ 45 ∷ m ++ 45 ∷ d)
entry_of y m d a b c = by_pattern (record { year = a; month = b; day = c })

-- `none` is an error thrown.
abbrev pub entry_in : List Text → Option Entry
entry_in (y ∷ m ∷ d ∷ []) =
    if is_year y && (is_pair m && is_pair d)
    then (if beyond (part_value m) 12 || beyond (part_value d) 31
        then none
        else some (entry_of y m d (part_value y) (part_value m) (part_value d)))
    else none
entry_in ts = none

unfoldable pub normalize_entry : Text → Option Entry
normalize_entry t = entry_in (split_on 45 t)

-- `String` of a number, whose digits are fewer than the rounds.
abbrev pub digits : ℕ → ℕ → Text
digits zero n = []
digits (suc f) n =
    let rest = digits f (n / 10) in if ltb n 10 then (48 + n) ∷ [] else rest ++ (48 + n % 10) ∷ []

abbrev pub to_text : ℕ → Text
to_text n = digits (suc n) n

-- `padStart(2, "0")`
abbrev pub pad : Text → Text
pad [] = 48 ∷ 48 ∷ []
pad (c ∷ []) = 48 ∷ c ∷ []
pad t = t

unfoldable pub date_key : TimeFields → Text
date_key f = to_text f.year ++ 45 ∷ pad (to_text f.month) ++ 45 ∷ pad (to_text f.day)

abbrev pub agrees : Option ℕ → ℕ → Bool
agrees none n = true
agrees (some m) n = m == n

unfoldable pub matches_pattern : TimeFields → Pattern → Bool
matches_pattern f p = agrees p.year f.year && (agrees p.month f.month && agrees p.day f.day)

abbrev pub add_entry : Days → Entry → Days
add_entry d (by_key k) = record d { keys = add text_dec d.keys k }
add_entry d (by_pattern p) = record d { patterns = d.patterns ++ p ∷ [] }

unfoldable pub add_all : List Text → Days → Option Days
unfolding normalize_entry
add_all [] d = some d
add_all (t ∷ ts) d = elim (normalize_entry t) [ none ↦ none | some e ↦ add_all ts (add_entry d e) ]

abbrev pub listed : Option (List Text) → List Text
listed none = []
listed (some ts) = ts

unfoldable pub add_rules : List Rule → Days → Days → Option Filter
unfolding add_all
add_rules [] is es = some (filtered is es)
add_rules (r ∷ rs) is es = elim (add_all (listed r.include) is) [
  | none ↦ none
  | some is' ↦ elim (add_all (listed r.exclude) es) [
    | none ↦ none
    | some es' ↦ add_rules rs is' es'
  ]
]

abbrev pub no_days : Days
no_days = record { keys = []; patterns = [] }

unfoldable pub create_calendar_filter : Option (List Rule) → Option Filter
unfolding add_rules
create_calendar_filter none = some everything
create_calendar_filter (some []) = some everything
create_calendar_filter (some (r ∷ rs)) = add_rules (r ∷ rs) no_days no_days

abbrev pub no_entries : List Text → List Pattern → Bool
no_entries [] [] = true
no_entries [] (p ∷ ps) = false
no_entries (k ∷ ks) ps = false

unfoldable pub on_days : TimeFields → Days → Bool
unfolding date_key matches_pattern
on_days f d = has text_dec d.keys (date_key f) || some_of (matches_pattern f) d.patterns

unfoldable pub accepts : Filter → TimeFields → Bool
unfolding on_days
accepts everything f = true
accepts (filtered is es) f =
    if on_days f es then false else if no_entries is.keys is.patterns then true else on_days f is
