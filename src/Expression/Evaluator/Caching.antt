-- ===== src/Expression/Evaluator/Caching.antt =====
-- What the cache of the evaluator does to its answers.
use nope.Prelude.{
  ℕ, ◌≤◌, ◌≡◌, refl, sym, ap, ◌∙◌, subst, Bool, true, false, List, [], ◌∷◌, Option, none, some,
  if◌then◌else◌, inl, inr, Text, text, text_dec, All,
}
use nope.Prelude.Sort.{sort}
use nope.Prelude.Sets.{In, All-In}
use nope.Spec.{Members}
use nope.Expression.{Schema, string_member}
use nope.Expression.Analyzer.{
  text_gt, keep_text, extract, extract_members, extract_operations, extract_variables,
}
use nope.Expression.Evaluator.{
  Engine, Failure, Result, get_cache_key, build_schema, compile_found, compile, validate_schema,
  evaluate_checked, evaluate_compiled, evaluate, failure, timed_out, extract_vars, get_dependencies,
}
use nope.Cache.Lru.{Cache, get, set, create, clear, over}
use nope.Cache.Lru.Sizes.{Sound}
use nope.Cache.Lru.Recency.{get-set}
use nope.Cache.Lru.Contents.{Holds, get-Holds, set-Holds}

-- The calls of a client.
pub data Call (N D : Type 0) : Type 0 where
  evaluates : Schema N → D → Bool → ℕ → Call N D
  compiles : Schema N → ℕ → Call N D
  clears : Call N D

-- The schemas of a history.
abbrev pub schemas_of : {N D : Type 0} → List (Call N D) → List (Schema N)
schemas_of [] = []
schemas_of (evaluates x d late now ∷ xs) = x ∷ schemas_of xs
schemas_of (compiles x now ∷ xs) = x ∷ schemas_of xs
schemas_of (clears ∷ xs) = schemas_of xs

module _ {N F D R : Type 0} (engine : Engine N F D R) (strict_mode : Bool) where
  abbrev fresh_checked : Option Failure → Schema N → D → Bool → Result R
  fresh_checked (some e) schema d late = failure e
  fresh_checked none schema d late =
      if late
      then failure timed_out
      else evaluate_compiled engine strict_mode (build_schema engine strict_mode schema) d

  -- The answer of an evaluator without a cache.
  unfoldable pub evaluate_fresh : Schema N → D → Bool → Result R
  evaluate_fresh schema d late =
      fresh_checked (validate_schema engine strict_mode schema) schema d late

  -- The answers of the evaluations, in order.
  pub run : Cache Text (Option F) → List (Call N D) → List (Result R)
  unfolding evaluate compile clear
  run c [] = []
  run c (evaluates x d late now ∷ xs) =
      (evaluate engine strict_mode c x d late now).1
      ∷ run (evaluate engine strict_mode c x d late now).0 xs
  run c (compiles x now ∷ xs) = run (compile engine strict_mode c x now).0 xs
  run c (clears ∷ xs) = run (clear c) xs

  pub run_fresh : List (Call N D) → List (Result R)
  unfolding evaluate_fresh
  run_fresh [] = []
  run_fresh (evaluates x d late now ∷ xs) = evaluate_fresh x d late ∷ run_fresh xs
  run_fresh (compiles x now ∷ xs) = run_fresh xs
  run_fresh (clears ∷ xs) = run_fresh xs

  -- The key determines, of these schemas, what one is built to.
  abbrev pub KeysDetermine : List (Schema N) → Type 0
  KeysDetermine schemas =
      All
        (λ x.
          All
            (λ y.
              get_cache_key engine strict_mode x ≡ get_cache_key engine strict_mode y
              → build_schema engine strict_mode x ≡ build_schema engine strict_mode y)
            schemas)
        schemas

module _ {N F D R : Type 0} (engine : Engine N F D R) (strict_mode : Bool)
    (schemas : List (Schema N)) where
  -- What stands under a key is what each of the schemas with that key is built to.
  abbrev Built : Text → Option F → Type 0
  Built k f =
      (x : Schema N)
      → In x schemas
      → get_cache_key engine strict_mode x ≡ k
      → f ≡ build_schema engine strict_mode x

  apart :
      (x y : Schema N)
      → KeysDetermine engine strict_mode schemas
      → In x schemas
      → In y schemas
      → get_cache_key engine strict_mode x ≡ get_cache_key engine strict_mode y
      → build_schema engine strict_mode x ≡ build_schema engine strict_mode y
  apart x y keys i j = All-In _ schemas y (All-In _ schemas x keys i) j

  compile-Holds :
      (c : Cache Text (Option F)) (schema : Schema N) (now : ℕ)
      → KeysDetermine engine strict_mode schemas
      → In schema schemas
      → Holds Built c
      → Holds Built (compile engine strict_mode c schema now).0
        × ((compile engine strict_mode c schema now).1 ≡ build_schema engine strict_mode schema)
  unfolding compile
  compile-Holds c schema now keys i h =
      let k = get_cache_key engine strict_mode schema in
      let (h', found) = get-Holds Built text_dec c k now h in
      go (get text_dec c k now).0 (get text_dec c k now).1 h' found
    where
      go :
          (c' : Cache Text (Option F)) (o : Option (Option F))
          → Holds Built c'
          → ((f : Option F) → o ≡ some f → Built (get_cache_key engine strict_mode schema) f)
          → Holds Built (compile_found engine strict_mode c' schema now o).0
            × ((compile_found engine strict_mode c' schema now o).1
                ≡ build_schema engine strict_mode schema)
      go c' (some f) h found = (h, found f refl schema i refl)
      go c' none h found = (
        set-Holds Built text_dec c' (get_cache_key engine strict_mode schema)
            (build_schema engine strict_mode schema) none none engine.promise_size now h
            (λ x m e. apart schema x keys i m (sym e)),
        refl,
      )

  evaluate-fresh :
      (c : Cache Text (Option F)) (schema : Schema N) (d : D) (late : Bool) (now : ℕ)
      → KeysDetermine engine strict_mode schemas
      → In schema schemas
      → Holds Built c
      → Holds Built (evaluate engine strict_mode c schema d late now).0
        × ((evaluate engine strict_mode c schema d late now).1
            ≡ evaluate_fresh engine strict_mode schema d late)
  unfolding evaluate evaluate_fresh
  evaluate-fresh c schema d late now keys i h = go (validate_schema engine strict_mode schema)
    where
      go :
          (o : Option Failure)
          → Holds Built (evaluate_checked engine strict_mode o c schema d late now).0
            × ((evaluate_checked engine strict_mode o c schema d late now).1
                ≡ fresh_checked engine strict_mode o schema d late)
      go (some e) = (h, refl)
      go none =
          let (h', same) = compile-Holds c schema now keys i h in
          (
            h',
            ap (λ f. if late then failure timed_out else evaluate_compiled engine strict_mode f d)
                same,
          )

  run_same :
      (c : Cache Text (Option F)) (xs : List (Call N D))
      → KeysDetermine engine strict_mode schemas
      → ((x : Schema N) → In x (schemas_of xs) → In x schemas)
      → Holds Built c
      → run engine strict_mode c xs ≡ run_fresh engine strict_mode xs
  unfolding run run_fresh clear
  run_same c [] keys i h = refl
  run_same c (evaluates x d late now ∷ xs) keys i h =
      let (h', e) = evaluate-fresh c x d late now keys (i x (inl refl)) h in
      let rest =
        run_same (evaluate engine strict_mode c x d late now).0 xs keys (λ y m. i y (inr m)) h' in
      ap (λ r. r ∷ run engine strict_mode (evaluate engine strict_mode c x d late now).0 xs) e
      ∙ ap (◌∷◌ (evaluate_fresh engine strict_mode x d late)) rest
  run_same c (compiles x now ∷ xs) keys i h =
      run_same (compile engine strict_mode c x now).0 xs keys (λ y m. i y (inr m))
        (compile-Holds c x now keys (i x (inl refl)) h).0
  run_same c (clears ∷ xs) keys i h = run_same (clear c) xs keys i tt

module _ {N F D R : Type 0} (engine : Engine N F D R) (strict_mode : Bool) where
  -- Where no two schemas of a history have one key and are built to different functions: whatever was
  -- evaluated, compiled and cleared before, at whatever times and with whatever bounds of the cache,
  -- every evaluation of the history answers what it would without a cache.
  pub run-run_fresh :
      (max_entries : ℕ) (max_size : Option ℕ) (xs : List (Call N D))
      → KeysDetermine engine strict_mode (schemas_of xs)
      → run engine strict_mode (create max_entries max_size true) xs
        ≡ run_fresh engine strict_mode xs
  unfolding create
  run-run_fresh max_entries max_size xs keys =
      run_same engine strict_mode (schemas_of xs) (create max_entries max_size true) xs keys
        (λ x i. i) tt

  compile_absent :
      (c : Cache Text (Option F)) (x : Schema N) (now : ℕ)
      → (get text_dec c (get_cache_key engine strict_mode x) now) ≡ (c, none)
      → (compile engine strict_mode c x now).0
        ≡ set text_dec c
            (get_cache_key engine strict_mode x)
            (build_schema engine strict_mode x)
            none
            none
            engine.promise_size
            now
  unfolding compile
  compile_absent c x now e =
      ap
        (λ (r : Cache Text (Option F) × Option (Option F)).
          (compile_found engine strict_mode r.0 x now r.1).0)
        e

  compile_present :
      (c : Cache Text (Option F)) (y : Schema N) (later : ℕ) (f : Option F)
      → (get text_dec c (get_cache_key engine strict_mode y) later).1 ≡ some f
      → (compile engine strict_mode c y later).1 ≡ f
  unfolding compile
  compile_present c y later f e =
      ap
        (λ o.
          (compile_found engine strict_mode
            (get text_dec c (get_cache_key engine strict_mode y) later).0 y later o).1)
        e

  -- A schema that is compiled right after another one with the same key, whatever its operations, is
  -- answered with what the other was built to: in a sound cache that has no entry under the key and
  -- that may hold one.
  pub compile_stale :
      (c : Cache Text (Option F)) (x y : Schema N) (now later : ℕ)
      → Sound text_dec c
      → 1 ≤ c.max_entries
      → over c.max_size engine.promise_size ≡ false
      → now ≤ later
      → get text_dec c (get_cache_key engine strict_mode x) now ≡ (c, none)
      → get_cache_key engine strict_mode x ≡ get_cache_key engine strict_mode y
      → (compile engine strict_mode (compile engine strict_mode c x now).0 y later).1
        ≡ build_schema engine strict_mode x
  compile_stale c x y now later s one small l absent same =
      let k = get_cache_key engine strict_mode x in
      let f = build_schema engine strict_mode x in
      let stored =
        get-set text_dec c k f none none engine.promise_size now later s one small l refl in
      let found : (get text_dec (compile engine strict_mode c x now).0
            (get_cache_key engine strict_mode y) later).1
          ≡ some f =
        subst
          (λ (d : Cache Text (Option F)).
            (get text_dec d (get_cache_key engine strict_mode y) later).1 ≡ some f)
          (sym (compile_absent c x now absent))
          (subst
            (λ q.
              (get text_dec (set text_dec c k f none none engine.promise_size now) q later).1
              ≡ some f)
            same stored) in
      compile_present (compile engine strict_mode c x now).0 y later f found

module _ {N : Type 0} where
  extract_vars-operations :
      (os : List (Members N)) (s : List Text)
      → All (λ ms. string_member ms (text "var") ≡ none) os
      → extract_vars os s ≡ extract_operations (text "var") os s
  unfolding extract_vars extract_operations extract
  extract_vars-operations [] s h = refl
  extract_vars-operations (ms ∷ os) s h =
      ap (λ o. extract_vars os (keep_text o s (extract_members (text "var") ms s))) h.0
      ∙ extract_vars-operations os (extract_members (text "var") ms s) h.1

  -- Where no operation of the expression has itself a member `var` that is a text, the dependencies
  -- that the evaluator finds are, sorted, the variables that the analyzer finds.
  pub extract_variables-get_dependencies :
      (schema : Schema N)
      → All (λ ms. string_member ms (text "var") ≡ none) schema.operations
      → extract_variables schema ≡ sort text_gt (get_dependencies schema)
  unfolding extract_variables get_dependencies
  extract_variables-get_dependencies schema h =
      ap (sort text_gt) (sym (extract_vars-operations schema.operations [] h))
