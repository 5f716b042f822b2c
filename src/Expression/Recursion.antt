-- ===== src/Expression/Recursion.antt =====
-- packages/expression/src/analyzer/expression.analyzer.ts: `detectRecursion`. An issue is its path, with
-- the id that closes it last. `checkRecursion` runs on fuel: `none` means that it ran out.
pub mod Walks
pub mod Detects
pub mod Decides
use nope.Prelude.{
  ℕ, zero, suc, ◌+◌, List, [], ◌∷◌, ◌++◌, Option, none, some, if◌then◌else◌, length, map, Text,
  text_dec, map_get, map_set,
}
use nope.Prelude.Sets.{has, add, remove}
use nope.Expression.{Schema}
use nope.Expression.Analyzer.{extract_references}

-- The variables that the closures share.
pub record Search : Type 0 where
  pub visited : List Text
  pub stack : List Text
  pub issues : List (List Text)

-- `refs.forEach(…)`
abbrev pub each : (Text → Search → Option Search) → List Text → Search → Option Search
each f [] s = some s
each f (r ∷ rs) s = elim (f r s) [ none ↦ none | some s' ↦ each f rs s' ]

abbrev pub enter : Text → Search → Search
enter id s = record s { visited = add text_dec s.visited id; stack = add text_dec s.stack id }

abbrev pub leave : Text → Option Search → Option Search
leave id none = none
leave id (some s) = some (record s { stack = remove text_dec s.stack id })

module _ (refs : Text → List Text) where
  unfoldable pub check_recursion : ℕ → Text → List Text → Search → Option Search
  check_recursion zero id path s = none
  check_recursion (suc n) id path s =
      let inside = each (λ r t. check_recursion n r (path ++ id ∷ []) t) (refs id) (enter id s) in
      if has text_dec s.stack id
      then some (record s { issues = s.issues ++ (path ++ id ∷ []) ∷ [] })
      else if has text_dec s.visited id
      then some s
      else leave id inside

  -- The loop over the schemas, each with new sets.
  unfoldable pub check_each : ℕ → List Text → List (List Text) → Option (List (List Text))
  unfolding check_recursion
  check_each n [] issues = some issues
  check_each n (id ∷ ids) issues =
      elim (check_recursion n id [] (record { visited = []; stack = []; issues = issues })) [
        | none ↦ none
        | some s ↦ check_each n ids s.issues
      ]

module _ {N : Type 0} where
  abbrev pub schema_map : List (Schema N) → List (Text × Schema N) → List (Text × Schema N)
  schema_map [] m = m
  schema_map (x ∷ xs) m = schema_map xs (map_set text_dec m x.id x)

  unfoldable pub references_found : Option (Schema N) → List Text
  unfolding extract_references
  references_found none = []
  references_found (some x) = extract_references x

  -- `schemaMap.get(id)` and its references.
  unfoldable pub references_of : List (Schema N) → Text → List Text
  unfolding references_found
  references_of schemas id = references_found (map_get text_dec (schema_map schemas []) id)

  abbrev pub ids_of : List (Schema N) → List Text
  ids_of [] = []
  ids_of (x ∷ xs) = x.id ∷ ids_of xs

  unfoldable pub detect_recursion : ℕ → List (Schema N) → Option (List (List Text))
  unfolding references_of check_each
  detect_recursion fuel schemas = check_each (references_of schemas) fuel (ids_of schemas) []
