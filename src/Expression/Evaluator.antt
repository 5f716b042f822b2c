-- ===== src/Expression/Evaluator.antt =====
-- packages/expression/src/evaluator/expression.evaluator.ts: ExpressionEvaluator over the cache of
-- shareds/cache. The engine of json-logic-engine is a parameter: what `build` makes of an expression,
-- and what the function that it makes answers; `none` is a rejected promise. A promise stands for its
-- outcome. The text of a schema in JSON, digits of base 36, the size of a cached promise and the time
-- are parameters too, and so is which of two racing promises comes first. The built-in methods, which
-- the engine calls, are not modelled.
pub mod Caching
use nope.Prelude.{
  ℕ, zero, suc, ◌+◌, ◌-◌, ◌*◌, ◌%◌, ◌^◌, Bool, true, false, not, ◌||◌, List, [], ◌∷◌, ◌++◌, Option,
  none, some, ◌==◌, if◌then◌else◌, Text, text, text_eq, text_dec,
}
use nope.Prelude.Sets.{add}
use nope.Spec.{Value, Members, obj}
use nope.Expression.{Schema}
use nope.Expression.Analyzer.{extract, extract_operations}
use nope.Cache.Lru.{Cache, create, get, set, has, clear, size}

-- The errors of `evaluate`; `rejected` is any that comes from the engine.
pub data Failure : Type 0 where
  no_id no_operations invalid_type rejected timed_out : Failure

pub data Result (R : Type 0) : Type 0 where
  success : R → Result R
  failure : Failure → Result R

-- The parameters: `F` is the type of compiled functions, `D` that of data.
pub record Engine (N F D R : Type 0) : Type 0 where
  pub build : Text → List (Members N) → Option F
  pub call : F → D → Option R
  pub stringify : Text → List (Members N) → Text
  pub base36 : ℕ → Text
  pub promise_size : ℕ

-- One round of the loop of `hashSchema`, on 32 bits.
abbrev pub hash_step : ℕ → ℕ → ℕ
hash_step hash char = (hash * 32 + (2 ^ 32 - hash) + char) % 2 ^ 32

pub hash_text : ℕ → Text → ℕ
hash_text hash [] = hash
hash_text hash (c ∷ cs) = hash_text (hash_step hash c) cs

abbrev pub versioned : Text → Option Text → Text
versioned id none = id
versioned id (some []) = id
versioned id (some (c ∷ cs)) = id ++ text "@" ++ c ∷ cs

module _ {N F D R : Type 0} (engine : Engine N F D R) (strict_mode : Bool) where
  pub hash_schema : Schema N → Text
  unfolding hash_text
  hash_schema schema =
      engine.base36 (hash_text 0 (engine.stringify schema.multiple_operations schema.operations))

  unfoldable pub get_cache_key : Schema N → Text
  unfolding hash_schema
  get_cache_key schema =
      if strict_mode
      then versioned schema.id schema.version ++ text "#" ++ hash_schema schema
      else versioned schema.id schema.version

  -- `this.engine.build({ [schema.multipleOperations]: schema.operations })`
  abbrev pub build_schema : Schema N → Option F
  build_schema schema = engine.build schema.multiple_operations schema.operations

  abbrev pub compile_found :
      Cache Text (Option F) → Schema N → ℕ → Option (Option F) → Cache Text (Option F) × Option F
  compile_found c schema now (some cached) = (c, cached)
  compile_found c schema now none = (
    set text_dec c (get_cache_key schema) (build_schema schema) none none engine.promise_size now,
    build_schema schema,
  )

  unfoldable pub compile : Cache Text (Option F) → Schema N → ℕ → Cache Text (Option F) × Option F
  unfolding get_cache_key
  compile c schema now =
      let (c', cached) = get text_dec c (get_cache_key schema) now in
      compile_found c' schema now cached

  -- `validateSchema`: the error that it throws.
  unfoldable pub validate_schema : Schema N → Option Failure
  validate_schema schema = if text_eq schema.id [] then some no_id else elim schema.operations [
    | [] ↦ some no_operations
    | ms ∷ os ↦
        if text_eq schema.multiple_operations (text "and")
          || text_eq schema.multiple_operations (text "or")
        then none
        else some invalid_type
  ]

  abbrev pub answer : Option R → Result R
  answer none = failure rejected
  answer (some r) = success r

  -- `evaluateInternal`, once the function is there.
  abbrev pub evaluate_compiled : Option F → D → Result R
  evaluate_compiled none d = failure rejected
  evaluate_compiled (some f) d = answer (engine.call f d)

  abbrev pub evaluate_checked :
      Option Failure
      → Cache Text (Option F)
      → Schema N
      → D
      → Bool
      → ℕ
      → Cache Text (Option F) × Result R
  evaluate_checked (some e) c schema d late now = (c, failure e)
  evaluate_checked none c schema d late now =
      let (c', f) = compile c schema now in
      (c', if late then failure timed_out else evaluate_compiled f d)

  -- `late` says that the timeout comes first.
  unfoldable pub evaluate :
      Cache Text (Option F) → Schema N → D → Bool → ℕ → Cache Text (Option F) × Result R
  unfolding compile validate_schema
  evaluate c schema d late now = evaluate_checked (validate_schema schema) c schema d late now

  -- `evaluateMany`: each call of `evaluate` runs up to its first wait, behind `compile`, before the
  -- next.
  unfoldable pub evaluate_many :
      Cache Text (Option F)
      → List (Schema N × Bool)
      → D
      → ℕ
      → Cache Text (Option F) × List (Result R)
  unfolding evaluate
  evaluate_many c [] d now = (c, [])
  evaluate_many c (x ∷ xs) d now =
      let (c1, r) = evaluate c x.0 d x.1 now in
      let (c2, rs) = evaluate_many c1 xs d now in (c2, r ∷ rs)

  abbrev pub result_of : Result R → Option R
  result_of (success r) = some r
  result_of (failure e) = none

  pub evaluate_or_throw :
      Cache Text (Option F) → Schema N → D → Bool → ℕ → Cache Text (Option F) × Option R
  unfolding evaluate
  evaluate_or_throw c schema d late now =
      let (c', r) = evaluate c schema d late now in (c', result_of r)

  pub is_cached : Cache Text (Option F) → Schema N → ℕ → Cache Text (Option F) × Bool
  is_cached c schema now = has text_dec c (get_cache_key schema) now

  abbrev pub clear_cache : Cache Text (Option F) → Cache Text (Option F)
  clear_cache c = clear c

  unfoldable pub precompile : Cache Text (Option F) → List (Schema N) → ℕ → Cache Text (Option F)
  unfolding compile
  precompile c [] now = c
  precompile c (x ∷ xs) now = precompile (compile c x now).0 xs now

  abbrev pub is_built : Option F → Bool
  is_built none = false
  is_built (some f) = true

  pub validate : Cache Text (Option F) → Schema N → ℕ → Cache Text (Option F) × Bool
  unfolding compile
  validate c schema now = let (c', f) = compile c schema now in (c', is_built f)

module _ {N : Type 0} where
  -- `getDependencies`
  unfoldable pub extract_vars : List (Members N) → List Text → List Text
  unfolding extract
  extract_vars [] s = s
  extract_vars (ms ∷ os) s = extract_vars os (extract (text "var") (obj 0 ms) s)

  unfoldable pub get_dependencies : Schema N → List Text
  unfolding extract_vars
  get_dependencies schema = extract_vars schema.operations []
