-- ===== src/Expression/Validator.antt =====
-- packages/expression/src/analyzer/expression.validator.ts. A problem stands for its message, with the
-- path that the message names.
pub mod WellFormed
pub mod Valid
use nope.Prelude.{
  ℕ, zero, suc, ◌+◌, Bool, true, false, not, ◌||◌, List, [], ◌∷◌, ◌++◌, Option, none, some, ltb,
  ◌==◌, if◌then◌else◌, length, Text, text, text_eq,
}
use nope.Spec.{
  Value, Values, Members, undefined, null, bool, num, str, arr, obj, nil, cons, end, member,
  length_values,
}
use nope.Expression.{Schema, is_operand}
use nope.Expression.Analyzer.{calculate_complexity}

pub data Step : Type 0 where
  operations : ℕ → Step
  operator : Text → Step
  index : ℕ → Step

abbrev pub Where : Type 0
Where = List Step

pub data Problem : Type 0 where
  no_id no_name no_operations invalid_type : Problem
  not_object not_one_operator : Where → Problem
  -- The arguments that are expected, and those that are there.
  not_exactly not_at_least not_at_most : Where → ℕ → ℕ → Problem

pub data Warning : Type 0 where
  no_description : Warning
  high_complexity : ℕ → Warning

-- `{ exact }`, `{ min }` and `{ min, max }`
pub data Requirement : Type 0 where
  anything : Requirement
  exact min : ℕ → Requirement
  between : ℕ → ℕ → Requirement

abbrev pub requirements : List (Text × Requirement)
requirements =
    (text "not", exact 1)
    ∷ (text "abs", exact 1)
    ∷ (text "round", exact 1)
    ∷ (text "+", min 1)
    ∷ (text "-", exact 2)
    ∷ (text "*", min 1)
    ∷ (text "/", exact 2)
    ∷ (text ">", exact 2)
    ∷ (text ">=", exact 2)
    ∷ (text "<", exact 2)
    ∷ (text "<=", exact 2)
    ∷ (text "==", exact 2)
    ∷ (text "===", exact 2)
    ∷ (text "!=", exact 2)
    ∷ (text "!==", exact 2)
    ∷ (text "and", min 1)
    ∷ (text "or", min 1)
    ∷ (text "if", between 2 3)
    ∷ []

abbrev pub requirement_in : List (Text × Requirement) → Text → Requirement
requirement_in [] op = anything
requirement_in ((k, r) ∷ m) op = let rest = requirement_in m op in if text_eq k op then r else rest

-- `argRequirements[operator]`
unfoldable pub requirement_of : Text → Requirement
requirement_of op = requirement_in requirements op

unfoldable pub count_problems : Requirement → ℕ → Where → List Problem
count_problems anything n path = []
count_problems (exact e) n path = if n == e then [] else not_exactly path e n ∷ []
count_problems (min m) n path = if ltb n m then not_at_least path m n ∷ [] else []
count_problems (between m x) n path =
    if ltb n m
    then not_at_least path m n ∷ []
    else if ltb x n
    then not_at_most path x n ∷ []
    else []

abbrev pub problem_if : Bool → Problem → List Problem
problem_if true p = p ∷ []
problem_if false p = []

abbrev pub is_nil : {A : Type 0} → List A → Bool
is_nil [] = true
is_nil (x ∷ xs) = false

module _ {N : Type 0} where
  abbrev pub arg_count : Value N → ℕ
  arg_count (arr i vs) = length_values vs
  arg_count _ = 1

  abbrev pub is_array : Value N → Bool
  is_array (arr i vs) = true
  is_array _ = false

  -- An argument that is validated as an operation.
  abbrev pub is_nested : Value N → Bool
  is_nested (arr i vs) = true
  is_nested (obj i ms) = not (is_operand ms)
  is_nested _ = false

  -- The problems of an argument at an index.
  abbrev pub nested_problems : Value N → List Problem → List Problem
  nested_problems v problems = if is_nested v then problems else []

  -- `validateOperatorArgs`: `each` are the problems of the elements of an array, `alone` those of the
  -- one argument that is no array.
  abbrev pub validate_operator_args :
      Text → Value N → Where → List Problem → List Problem → List Problem
  validate_operator_args op (arr i vs) path each alone =
      count_problems (requirement_of op) (length_values vs) path ++ each
  validate_operator_args op args path each alone =
      count_problems (requirement_of op) 1 path ++ nested_problems args alone

  -- `Object.entries` of an array of one element has the operator `0`.
  unfoldable mutual
    unfolding count_problems

    pub validate_operation : Value N → Where → List Problem
    validate_operation (obj i (member op args end)) path =
        validate_operator_args op args (path ++ operator op ∷ [])
          (elements args (path ++ operator op ∷ []))
          (validate_operation args ((path ++ operator op ∷ []) ++ index 0 ∷ []))
    validate_operation (obj i end) path = not_one_operator path ∷ []
    validate_operation (obj i (member op args (member k v ms))) path = not_one_operator path ∷ []
    validate_operation (arr i nil) path = not_one_operator path ∷ []
    validate_operation (arr i (cons args nil)) path =
        validate_operator_args (text "0") args (path ++ operator (text "0") ∷ [])
          (elements args (path ++ operator (text "0") ∷ []))
          (validate_operation args ((path ++ operator (text "0") ∷ []) ++ index 0 ∷ []))
    validate_operation (arr i (cons v (cons w vs))) path = not_one_operator path ∷ []
    validate_operation undefined path = not_object path ∷ []
    validate_operation null path = not_object path ∷ []
    validate_operation (bool b) path = not_object path ∷ []
    validate_operation (num n) path = not_object path ∷ []
    validate_operation (str t) path = not_object path ∷ []

    pub elements : Value N → Where → List Problem
    elements (arr i vs) path = validate_each vs 0 path
    elements (obj i ms) path = []
    elements undefined path = []
    elements null path = []
    elements (bool b) path = []
    elements (num n) path = []
    elements (str t) path = []

    -- `argsArray.forEach(…)`
    pub validate_each : Values N → ℕ → Where → List Problem
    validate_each nil n path = []
    validate_each (cons v vs) n path =
        nested_problems v (validate_operation v (path ++ index n ∷ []))
        ++ validate_each vs (n + 1) path

  unfoldable pub validate_operations : List (Members N) → ℕ → List Problem
  unfolding validate_operation
  validate_operations [] n = []
  validate_operations (ms ∷ os) n =
      validate_operation (obj 0 ms) (operations n ∷ []) ++ validate_operations os (n + 1)

  unfoldable pub schema_problems : Schema N → List Problem
  unfolding validate_operations
  schema_problems schema =
      problem_if (text_eq schema.id []) no_id
      ++ (problem_if (text_eq schema.name []) no_name
          ++ (problem_if (is_nil schema.operations) no_operations
              ++ (problem_if
                    (not (
                      text_eq schema.multiple_operations (text "and")
                      || text_eq schema.multiple_operations (text "or")))
                    invalid_type
                  ++ validate_operations schema.operations 0)))

  abbrev pub schema_warnings : Schema N → List Warning
  schema_warnings schema =
      (if text_eq schema.description [] then no_description ∷ [] else [])
      ++ (if ltb 100 (calculate_complexity schema)
          then high_complexity (calculate_complexity schema) ∷ []
          else [])

pub record Report : Type 0 where
  pub valid : Bool
  pub errors : List Problem
  pub warnings : List Warning

unfoldable pub validate : {N : Type 0} → Schema N → Report
unfolding schema_problems calculate_complexity
validate schema = record {
  valid = length (schema_problems schema) == 0;
  errors = schema_problems schema;
  warnings = schema_warnings schema;
}
