-- ===== src/Tests/Logic.antt =====
-- Runs of packages/expression, with natural numbers for all that is a parameter.
use nope.Prelude.{
  text_ne, ◌≢◌, sym, Option, ℕ, ◌+◌, ◌≡◌, refl, true, false, List, [], ◌∷◌, none, some, arith, Text,
  text, text_dec, All, length, ◌↔◌,
}
use nope.Spec.{Value, Members, num, str, arr, obj, nil, cons, end, member}
use nope.Expression.{Schema}
use nope.Expression.Analyzer.{extract_variables, extract_operations, extract, extract_references}
use nope.Expression.Recursion.{
  detect_recursion, check_each, check_recursion, references_of, references_found,
}
use nope.Expression.Recursion.Walks.{Walk, IsCircular}
use nope.Expression.Recursion.Decides.{detect_recursion-Decides}
use nope.Expression.Evaluator.{Engine, compile, get_cache_key, build_schema}
use nope.Expression.Evaluator.Caching.{
  Call, evaluates, compiles, clears, run, run_fresh, schemas_of, KeysDetermine, run-run_fresh,
  compile_stale,
}
use nope.Cache.Lru.{create, get}

-- `{ "ref": t }`
abbrev ref_to : Text → Value ℕ
ref_to t = obj 0 (member (text "ref") (str t) end)

abbrev var_of : Text → Value ℕ
var_of t = obj 0 (member (text "var") (str t) end)

abbrev both : Value ℕ → Value ℕ → Members ℕ
both v w = member (text "+") (arr 0 (cons v (cons w nil))) end

abbrev named : Text → List (Members ℕ) → Schema ℕ
named id os = record {
  id = id;
  name = text "a name";
  description = [];
  multiple_operations = text "and";
  operations = os;
  version = none;
}

-- `a` refers to `b`, and `b` to `a`.
abbrev round_trip : List (Schema ℕ)
round_trip =
    named (text "a") (both (ref_to (text "b")) (num 1) ∷ [])
    ∷ named (text "b") (both (num 2) (ref_to (text "a")) ∷ [])
    ∷ []

found_both :
    detect_recursion 3 round_trip
    ≡ some ((text "a" ∷ text "b" ∷ text "a" ∷ []) ∷ (text "b" ∷ text "a" ∷ text "b" ∷ []) ∷ [])
unfolding detect_recursion references_of references_found extract_references extract_operations
    extract check_each check_recursion text_dec
found_both = refl

detect_recursion-Decides_example :
    (issues : List (List Text)) × (detect_recursion 3 round_trip ≡ some issues)
    × All (IsCircular (references_of round_trip)) issues
    × ((issues ≡ []) ↔ ((v : Text) → Walk (references_of round_trip) v v → ⊥))
detect_recursion-Decides_example = detect_recursion-Decides round_trip

-- An engine whose functions add the number of operations that the expression has.
abbrev counter : Engine ℕ ℕ ℕ ℕ
counter = record {
  build = λ t os. some (length os);
  call = λ f d. some (f + d);
  stringify = λ t os. t;
  base36 = λ n. n ∷ [];
  promise_size = 2;
}

abbrev one_sum : Schema ℕ
one_sum = named (text "a") (both (num 1) (num 2) ∷ [])

abbrev two_sums : Schema ℕ
two_sums = named (text "b") (both (num 1) (num 2) ∷ both (num 3) (num 4) ∷ [])

abbrev history : List (Call ℕ ℕ)
history =
    evaluates one_sum 5 false 10
    ∷ compiles two_sums 11
    ∷ evaluates two_sums 7 true 13
    ∷ evaluates two_sums 7 false 14
    ∷ clears
    ∷ evaluates one_sum 6 false 15
    ∷ []

keys_apart : get_cache_key counter false one_sum ≢ get_cache_key counter false two_sums
unfolding get_cache_key
keys_apart = text_ne (text "a") (text "b") refl

keys_determine : KeysDetermine counter false (schemas_of history)
keys_determine = (one_row, (two_row, (two_row, (two_row, (one_row, tt)))))
  where
    one_row :
        All
          (λ y.
            get_cache_key counter false one_sum ≡ get_cache_key counter false y
            → Option.some 1 ≡ build_schema counter false y)
          (schemas_of history)
    one_row = (
      λ e. refl,
      (
        λ e. absurd (keys_apart e),
        (λ e. absurd (keys_apart e), (λ e. absurd (keys_apart e), (λ e. refl, tt))),
      ),
    )

    two_row :
        All
          (λ y.
            get_cache_key counter false two_sums ≡ get_cache_key counter false y
            → Option.some 2 ≡ build_schema counter false y)
          (schemas_of history)
    two_row = (
      λ e. absurd (keys_apart (sym e)),
      (λ e. refl, (λ e. refl, (λ e. refl, (λ e. absurd (keys_apart (sym e)), tt)))),
    )

run-run_fresh_example :
    run counter false (create 2 (some 3) true) history ≡ run_fresh counter false history
run-run_fresh_example = run-run_fresh counter false 2 (some 3) history keys_determine

compile_stale_example :
    (compile counter false
      (compile counter false
        (create 2 none true)
        (named (text "a") (both (num 1) (num 2) ∷ []))
        10).0
      (named (text "a") [])
      11).1
    ≡ some 1
unfolding get_cache_key create get
compile_stale_example =
    compile_stale counter false (create 2 none true) (named (text "a") (both (num 1) (num 2) ∷ []))
      (named (text "a") []) 10 11 (record { sizes = refl; keys = tt }) (omega arith) refl
      (omega arith) refl refl

-- An operation that is a variable itself is missed by the analyzer.
missed : extract_variables (named (text "a") (member (text "var") (str (text "x")) end ∷ [])) ≡ []
unfolding extract_variables extract_operations extract
missed = refl
