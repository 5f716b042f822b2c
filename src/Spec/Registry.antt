-- ===== src/Spec/Registry.antt =====
-- packages/specification/src/core/registry.ts and ops/factory.ts. `none` is an exception.
pub mod Distinct
use nope.Prelude.{
  Text, text, text_eq, text_dec, ℕ, Bool, true, false, not, List, [], ◌∷◌, Option, none, some,
  if◌then◌else◌, map_get, map_set,
}
use nope.Spec.{Value, Numbers}
use nope.Spec.Tree.{Spec, FieldSpec, field, Input, Outcome, no_meta}

-- `Operator`
pub record Operator (N C : Type 0) : Type 0 where
  pub kind : Text
  pub create : Input N → Spec N C

-- `RegisteredSpecEntry`; `factory` is what the factory makes of the metadata.
pub record Entry (N C : Type 0) : Type 0 where
  pub id : Text
  pub factory : Spec N C

-- `RegistryImpl`
pub record Registry (N C : Type 0) : Type 0 where
  pub operators : List (Text × Operator N C)
  pub specs : List (Text × Entry N C)

abbrev pub present : {V : Type 0} → Option V → Bool
present none = false
present (some v) = true

-- `Map.has`
abbrev pub has : {V : Type 0} → List (Text × V) → Text → Bool
has m k = present (map_get text_dec m k)

module _ {N C : Type 0} where
  unfoldable pub add_operator : Registry N C → Operator N C → Option (Registry N C)
  add_operator r op =
      if has r.operators op.kind
      then none
      else some (record r { operators = map_set text_dec r.operators op.kind op })

  abbrev pub add_with_id : Registry N C → Spec N C → Text → Option (Registry N C)
  add_with_id r s [] = none
  add_with_id r s (c ∷ cs) =
      if has r.specs (c ∷ cs)
      then none
      else some (record r {
        specs = map_set text_dec r.specs (c ∷ cs) (record { id = c ∷ cs; factory = s });
      })

  unfoldable pub add_spec : Registry N C → Spec N C → Option Text → Option (Registry N C)
  add_spec r s none = none
  add_spec r s (some id) = add_with_id r s id

  unfoldable pub get_operator : Registry N C → Text → Option (Operator N C)
  get_operator r kind = map_get text_dec r.operators kind

  abbrev pub made : Option (Entry N C) → Option (Spec N C)
  made none = none
  made (some e) = some e.factory

  unfoldable pub get_spec : Registry N C → Text → Option (Spec N C)
  get_spec r id = made (map_get text_dec r.specs id)

  -- The loop of the constructor.
  unfoldable pub add_operators : Registry N C → List (Operator N C) → Option (Registry N C)
  add_operators r [] = some r
  add_operators r (op ∷ ops) = elim (add_operator r op) [
    | none ↦ none
    | some r' ↦ add_operators r' ops
  ]

  unfoldable pub create_registry : List (Operator N C) → Option (Registry N C)
  create_registry ops = add_operators (record { operators = []; specs = [] }) ops

  -- `createFieldOperator`, by the kind and the predicate of its options.
  unfoldable pub create_field_operator :
      Text → (Value N → Value N → C → Input N → Outcome) → Operator N C
  create_field_operator kind predicate = record {
    kind = kind;
    create = λ input. field (record {
      kind = kind;
      path = input.path;
      input = some input;
      predicate = λ actual root c. predicate actual root c input;
      meta = no_meta;
    });
  }
