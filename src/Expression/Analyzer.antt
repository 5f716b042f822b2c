-- ===== src/Expression/Analyzer.antt =====
-- packages/expression/src/analyzer/expression.analyzer.ts: what an expression refers to, and its
-- complexity. `sort()` of texts compares code units. A `Set` of literals compares by `===`: NaN is no
-- literal of JSON.
use nope.Prelude.{
  ℕ, ◌+◌, Bool, true, false, ◌&&◌, ◌||◌, List, [], ◌∷◌, ◌++◌, Option, none, some, ltb, ◌==◌,
  if◌then◌else◌, length, Text, text, text_eq, text_dec,
}
use nope.Prelude.Sort.{sort}
use nope.Prelude.Sets.{add}
use nope.Spec.{
  Numbers, Value, Values, Members, undefined, null, bool, num, str, arr, obj, nil, cons, end,
  member, strict_eq,
}
use nope.Expression.{Schema, get_member, string_member, is_operand}

-- `b < a` of texts
abbrev pub text_gt : Text → Text → Bool
text_gt [] t = false
text_gt (c ∷ s) [] = true
text_gt (c ∷ s) (d ∷ t) = ltb d c || (c == d && text_gt s t)

-- The text of the key, added to the set, or else what the members give.
abbrev pub keep_text : Option Text → List Text → List Text → List Text
keep_text (some t) s rest = add text_dec s t
keep_text none s rest = rest

module _ {N : Type 0} where
  -- `extractFromOperand` of `extractVariables`, where the key is `var`, and of `extractReferences`,
  -- where it is `ref`: the set that it leaves.
  unfoldable mutual
    pub extract : Text → Value N → List Text → List Text
    extract key (arr i vs) s = extract_all key vs s
    extract key (obj i ms) s = keep_text (string_member ms key) s (extract_members key ms s)
    extract key undefined s = s
    extract key null s = s
    extract key (bool b) s = s
    extract key (num n) s = s
    extract key (str t) s = s

    pub extract_all : Text → Values N → List Text → List Text
    extract_all key nil s = s
    extract_all key (cons v vs) s = extract_all key vs (extract key v s)

    -- `Object.values(…).forEach(…)`
    pub extract_members : Text → Members N → List Text → List Text
    extract_members key end s = s
    extract_members key (member k v ms) s = extract_members key ms (extract key v s)

  unfoldable pub extract_operations : Text → List (Members N) → List Text → List Text
  unfolding extract_members
  extract_operations key [] s = s
  extract_operations key (ms ∷ os) s = extract_operations key os (extract_members key ms s)

  unfoldable pub extract_variables : Schema N → List Text
  unfolding extract_operations
  extract_variables schema = sort text_gt (extract_operations (text "var") schema.operations [])

  unfoldable pub extract_references : Schema N → List Text
  unfolding extract_operations
  extract_references schema = extract_operations (text "ref") schema.operations []

  abbrev pub has_value : Numbers N → List (Value N) → Value N → Bool
  has_value ns [] v = false
  has_value ns (w ∷ ws) v = strict_eq ns w v || has_value ns ws v

  abbrev pub add_value : Numbers N → List (Value N) → Value N → List (Value N)
  add_value ns ws v = if has_value ns ws v then ws else ws ++ v ∷ []

  abbrev pub add_values : Numbers N → List (Value N) → Values N → List (Value N)
  add_values ns ws nil = ws
  add_values ns ws (cons v vs) = add_values ns (add_value ns ws v) vs

  -- `operand.val`, if it is an array.
  abbrev pub array_of : Option (Value N) → Option (Values N)
  array_of (some (arr i vs)) = some vs
  array_of _ = none

  mutual
    pub extract_literal : Numbers N → Value N → List (Value N) → List (Value N)
    extract_literal ns undefined s = s
    extract_literal ns null s = s
    extract_literal ns (bool b) s = add_value ns s (bool b)
    extract_literal ns (num n) s = add_value ns s (num n)
    extract_literal ns (str t) s = add_value ns s (str t)
    extract_literal ns (arr i vs) s = extract_literal_all ns vs s
    extract_literal ns (obj i ms) s = elim (get_member ms (text "literal")) [
      | some v ↦ add_value ns s v
      | none ↦ elim (array_of (get_member ms (text "val"))) [
        | some vs ↦ add_values ns s vs
        | none ↦ extract_literal_members ns ms s
      ]
    ]

    pub extract_literal_all : Numbers N → Values N → List (Value N) → List (Value N)
    extract_literal_all ns nil s = s
    extract_literal_all ns (cons v vs) s = extract_literal_all ns vs (extract_literal ns v s)

    pub extract_literal_members : Numbers N → Members N → List (Value N) → List (Value N)
    extract_literal_members ns end s = s
    extract_literal_members ns (member k v ms) s =
        extract_literal_members ns ms (extract_literal ns v s)

  pub extract_literals_of : Numbers N → List (Members N) → List (Value N) → List (Value N)
  unfolding extract_literal_members
  extract_literals_of ns [] s = s
  extract_literals_of ns (ms ∷ os) s = extract_literals_of ns os (extract_literal_members ns ms s)

  pub extract_literals : Numbers N → Schema N → List (Value N)
  unfolding extract_literals_of
  extract_literals ns schema = extract_literals_of ns schema.operations []

abbrev pub scores : List (Text × ℕ)
scores =
    (text "+", 1)
    ∷ (text "-", 1)
    ∷ (text "*", 2)
    ∷ (text "/", 2)
    ∷ (text "%", 2)
    ∷ (text "**", 3)
    ∷ (text ">", 1)
    ∷ (text ">=", 1)
    ∷ (text "<", 1)
    ∷ (text "<=", 1)
    ∷ (text "==", 1)
    ∷ (text "===", 1)
    ∷ (text "!=", 1)
    ∷ (text "!==", 1)
    ∷ (text "and", 1)
    ∷ (text "or", 1)
    ∷ (text "not", 1)
    ∷ (text "xor", 2)
    ∷ (text "if", 2)
    ∷ (text "switch", 3)
    ∷ (text "map", 4)
    ∷ (text "filter", 4)
    ∷ (text "reduce", 5)
    ∷ (text "find", 3)
    ∷ (text "every", 3)
    ∷ (text "some", 3)
    ∷ (text "concat", 1)
    ∷ (text "substring", 2)
    ∷ (text "replace", 3)
    ∷ (text "split", 2)
    ∷ []

abbrev pub score_in : List (Text × ℕ) → Text → ℕ
score_in [] op = 2
score_in ((k, n) ∷ m) op = let rest = score_in m op in if text_eq k op then n else rest

-- `complexityMap[operator] || 2`
pub get_operator_complexity : Text → ℕ
get_operator_complexity op = score_in scores op

module _ {N : Type 0} where
  unfoldable mutual
    pub analyze_operand : Value N → ℕ
    analyze_operand (arr i vs) = analyze_all vs
    analyze_operand (obj i ms) =
        let entries = analyze_entries ms in if is_operand ms then 1 else entries
    analyze_operand undefined = 1
    analyze_operand null = 1
    analyze_operand (bool b) = 1
    analyze_operand (num n) = 1
    analyze_operand (str t) = 1

    pub analyze_all : Values N → ℕ
    analyze_all nil = 0
    analyze_all (cons v vs) = analyze_operand v + analyze_all vs

    pub analyze_entries : Members N → ℕ
    analyze_entries end = 0
    analyze_entries (member op args ms) =
        get_operator_complexity op + analyze_operand args + analyze_entries ms

  unfoldable pub complexity_of : List (Members N) → ℕ
  unfolding analyze_operand
  complexity_of [] = 0
  complexity_of (ms ∷ os) = analyze_operand (obj 0 ms) + complexity_of os

  unfoldable pub calculate_complexity : Schema N → ℕ
  unfolding complexity_of
  calculate_complexity schema = complexity_of schema.operations

pub data Performance : Type 0 where
  fast medium slow : Performance

pub record Summary : Type 0 where
  pub complexity : ℕ
  pub operations_count : ℕ
  pub variables : List Text
  pub literals_count : ℕ
  pub references : List Text
  pub estimated_performance : Performance

pub generate_summary : {N : Type 0} → Numbers N → Schema N → Summary
unfolding extract_variables extract_literals extract_references calculate_complexity
generate_summary ns schema =
    let complexity = calculate_complexity schema in
    record {
      complexity = complexity;
      operations_count = length schema.operations;
      variables = extract_variables schema;
      literals_count = length (extract_literals ns schema);
      references = extract_references schema;
      estimated_performance =
          if ltb complexity 10 then fast else if ltb complexity 50 then medium else slow;
    }
