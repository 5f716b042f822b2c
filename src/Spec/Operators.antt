-- ===== src/Spec/Operators.antt =====
-- packages/specification/src/ops/builtins.ts: the predicates of the built-in operators.
pub mod Opposites
use Prim.Native.String.{String}
use nope.Prelude.{
  Text, text, text_eq, text_dec, ℕ, ◌+◌, Bool, true, false, not, ◌&&◌, ◌||◌, List, [], ◌∷◌, Option,
  none, some, ltb, leb, ◌==◌, if◌then◌else◌, length,
}
use nope.Spec.{
  Value, Values, Members, Numbers, undefined, null, bool, num, str, arr, obj, nil, cons, nullish,
  strict_eq, length_values, length_members,
}
use nope.Spec.Tree.{Input, Outcome, returned}

-- What the predicates take from the language: numbers, `String(…)` and `new RegExp(…).test(…)`,
-- where `none` is an exception.
pub record Js (N : Type 0) : Type 0 where
  pub numbers : Numbers N
  pub to_text : Value N → Text
  pub regex_test : Text → Text → Text → Option Bool

-- `startsWith`, `includes` and `endsWith` of texts.
abbrev pub starts_with : Text → Text → Bool
starts_with s [] = true
starts_with [] (d ∷ t) = false
starts_with (c ∷ s) (d ∷ t) = c == d && starts_with s t

abbrev pub includes : Text → Text → Bool
includes [] t = starts_with [] t
includes (c ∷ s) t = starts_with (c ∷ s) t || includes s t

abbrev pub ends_with : Text → Text → Bool
ends_with [] t = text_eq [] t
ends_with (c ∷ s) t = text_eq (c ∷ s) t || ends_with s t

abbrev pub texts_or_empty : Option Text → Text
texts_or_empty none = []
texts_or_empty (some t) = t

abbrev pub list_or_empty : {A : Type 0} → Option (List A) → List A
list_or_empty none = []
list_or_empty (some l) = l

abbrev pub true_or_throws : Option Bool → Bool
true_or_throws none = false
true_or_throws (some b) = b

module _ {N : Type 0} (js : Js N) where
  abbrev pub same : Value N → Value N → Bool
  same = strict_eq js.numbers

  -- `typeof a === "number" && typeof b === "number" && test(a, b)`
  abbrev pub both_numbers : (N → N → Bool) → Value N → Value N → Bool
  both_numbers test (num a) (num b) = test a b
  both_numbers test _ _ = false

  abbrev pub is_in : List (Value N) → Value N → Bool
  is_in [] v = false
  is_in (w ∷ ws) v = same w v || is_in ws v

  -- `Array.includes`: unlike `===`, it finds a NaN.
  abbrev pub same_value_zero : Value N → Value N → Bool
  same_value_zero (num a) (num b) =
      js.numbers.eq a b || (not (js.numbers.eq a a) && not (js.numbers.eq b b))
  same_value_zero v w = same v w

  abbrev pub array_includes : Values N → Value N → Bool
  array_includes nil v = false
  array_includes (cons w ws) v = same_value_zero w v || array_includes ws v

  -- `String(value ?? "")`
  abbrev pub text_of : Value N → Text
  text_of v = if nullish v then [] else js.to_text v

  abbrev pub get_length : Value N → Option ℕ
  get_length (str s) = some (length s)
  get_length (arr r vs) = some (length_values vs)
  get_length (obj r ms) = some (length_members ms)
  get_length _ = none

  abbrev pub compare_with : (N → N → Bool) → Option ℕ → Value N → Bool
  compare_with test (some l) (num n) = test (js.numbers.of_nat l) n
  compare_with test _ _ = false

  abbrev pub compare_length : (N → N → Bool) → Value N → Value N → Bool
  compare_length test actual expected = compare_with test (get_length actual) expected

  unfoldable pub eq : Value N → Input N → Bool
  eq actual input = same actual input.value

  unfoldable pub ne : Value N → Input N → Bool
  ne actual input = not (same actual input.value)

  pub lt : Value N → Input N → Bool
  lt actual input = both_numbers js.numbers.lt actual input.value

  pub lte : Value N → Input N → Bool
  lte actual input = both_numbers js.numbers.le actual input.value

  pub gt : Value N → Input N → Bool
  gt actual input = both_numbers (λ a b. js.numbers.lt b a) actual input.value

  pub gte : Value N → Input N → Bool
  gte actual input = both_numbers (λ a b. js.numbers.le b a) actual input.value

  unfoldable pub within : Value N → Input N → Bool
  within actual input = is_in (list_or_empty input.values) actual

  unfoldable pub not_in : Value N → Input N → Bool
  not_in actual input = not (is_in (list_or_empty input.values) actual)

  unfoldable pub exists : Value N → Input N → Bool
  exists undefined input = false
  exists null input = false
  exists _ input = true

  unfoldable pub missing : Value N → Input N → Bool
  missing undefined input = true
  missing null input = true
  missing _ input = false

  -- An absent or an empty pattern matches nothing, and so does one that is no regular expression.
  abbrev pub test_pattern : Text → Text → Option Text → Bool
  test_pattern s flags none = false
  test_pattern s flags (some []) = false
  test_pattern s flags (some (c ∷ cs)) = true_or_throws (js.regex_test (c ∷ cs) flags s)

  pub regex : Value N → Input N → Bool
  regex (str s) input = test_pattern s (texts_or_empty input.flags) input.pattern
  regex _ input = false

  pub starts_with_text : Value N → Input N → Bool
  starts_with_text (str s) input = starts_with s (text_of input.value)
  starts_with_text _ input = false

  pub ends_with_text : Value N → Input N → Bool
  ends_with_text (str s) input = ends_with s (text_of input.value)
  ends_with_text _ input = false

  pub contains : Value N → Input N → Bool
  contains (str s) input = includes s (text_of input.value)
  contains (arr r vs) input = array_includes vs input.value
  contains _ input = false

  abbrev pub equals_length : Option ℕ → Value N → Bool
  equals_length (some l) (num n) = js.numbers.eq (js.numbers.of_nat l) n
  equals_length none undefined = true
  equals_length _ _ = false

  pub length_eq : Value N → Input N → Bool
  length_eq actual input = equals_length (get_length actual) input.value

  unfoldable pub length_lt : Value N → Input N → Bool
  length_lt actual input = compare_length js.numbers.lt actual input.value

  unfoldable pub length_lte : Value N → Input N → Bool
  length_lte actual input = compare_length js.numbers.le actual input.value

  unfoldable pub length_gt : Value N → Input N → Bool
  length_gt actual input = compare_length (λ l v. js.numbers.lt v l) actual input.value

  unfoldable pub length_gte : Value N → Input N → Bool
  length_gte actual input = compare_length (λ l v. js.numbers.le v l) actual input.value

  -- `builtInOperators`: the kinds and the predicates.
  abbrev pub built_in :
      {C : Type 0} → (Value N → Input N → Bool) → Value N → Value N → C → Input N → Outcome
  built_in p actual root c input = returned (p actual input)

  unfoldable pub builtin_operators :
      {C : Type 0} → List (Text × (Value N → Value N → C → Input N → Outcome))
  builtin_operators =
      (text "eq", built_in eq)
      ∷ (text "ne", built_in ne)
      ∷ (text "lt", built_in lt)
      ∷ (text "lte", built_in lte)
      ∷ (text "gt", built_in gt)
      ∷ (text "gte", built_in gte)
      ∷ (text "in", built_in within)
      ∷ (text "notIn", built_in not_in)
      ∷ (text "exists", built_in exists)
      ∷ (text "missing", built_in missing)
      ∷ (text "regex", built_in regex)
      ∷ (text "startsWith", built_in starts_with_text)
      ∷ (text "endsWith", built_in ends_with_text)
      ∷ (text "contains", built_in contains)
      ∷ (text "lengthEq", built_in length_eq)
      ∷ (text "lengthLt", built_in length_lt)
      ∷ (text "lengthLte", built_in length_lte)
      ∷ (text "lengthGt", built_in length_gt)
      ∷ (text "lengthGte", built_in length_gte)
      ∷ []
