-- ===== src/Spec/Ast.antt =====
-- packages/specification/src/ast/schema.ts and ast/serializer.ts.
pub mod RoundTrip
pub mod Rewrite
use nope.Prelude.{
  Text, text, text_eq, text_dec, ℕ, Bool, true, false, not, ◌&&◌, List, [], ◌∷◌, Option, none, some,
  if◌then◌else◌,
}
use nope.Spec.{Value, Numbers, undefined}
use nope.Spec.Tree.{
  Spec, Specs, FieldSpec, BaseSpec, PlainSpec, Input, CompositeMode, field, base, plain, composite,
  nil, cons, all_of, any_of, none_of, create_all_spec, create_any_spec, create_not_spec,
}
use nope.Spec.Registry.{Registry, Operator, get_operator, get_spec}

mutual
  -- `AstNode`
  pub data AstNode (N : Type 0) : Type 0 where
    op : Text → Input N → AstNode N
    not_node : AstNode N → AstNode N
    and_node : AstNodes N → AstNode N
    or_node : AstNodes N → AstNode N
    ref : Text → AstNode N

  pub data AstNodes (N : Type 0) : Type 0 where
    end : AstNodes N
    next : AstNode N → AstNodes N → AstNodes N

-- What `fromAst` leaves: SPEC_AST_INVALID or SPEC_REGISTRY_UNKNOWN where it throws.
pub data Built (A : Type 0) : Type 0 where
  built : A → Built A
  ast_invalid : Built A
  registry_unknown : Built A

-- `{ path, ...(json.input ?? {}) }`
abbrev pub input_of : {N C : Type 0} → FieldSpec N C → Input N
input_of f = elim f.input [
  | none ↦ record {
    path = f.path;
    value = undefined;
    values = none;
    pattern = none;
    flags = none;
    min = none;
    max = none;
    extra = [];
  }
  | some i ↦ i
]

-- A node of a specification that is neither a `FieldSpec` nor a `CompositeSpec`.
abbrev pub ref_to : {N : Type 0} → Bool → Text → Option (AstNode N)
ref_to false id = none
ref_to true [] = none
ref_to true (c ∷ cs) = some (ref (c ∷ cs))

abbrev pub ref_found : {N : Type 0} → Bool → Option Text → Option (AstNode N)
ref_found r none = none
ref_found r (some id) = ref_to r id

abbrev pub map_node : {A B : Type 0} → (A → B) → Option A → Option B
map_node f none = none
map_node f (some a) = some (f a)

abbrev pub map_next : {N : Type 0} → Option (AstNode N) → Option (AstNodes N) → Option (AstNodes N)
map_next none as' = none
map_next (some a) none = none
map_next (some a) (some as') = some (next a as')

module _ {N C : Type 0} where
  -- `toAst`, by whether the options have a registry.
  unfoldable mutual
    pub to_ast : Bool → Spec N C → Option (AstNode N)
    to_ast r (field f) = some (op f.kind (input_of f))
    to_ast r (base b) = ref_to r b.id
    to_ast r (plain p) = ref_found r p.id
    to_ast r (composite none_of meta ss) = map_node not_node (first_ast r ss)
    to_ast r (composite all_of meta ss) = map_node and_node (all_ast r ss)
    to_ast r (composite any_of meta ss) = map_node or_node (all_ast r ss)

    pub first_ast : Bool → Specs N C → Option (AstNode N)
    first_ast r nil = none
    first_ast r (cons s ss) = to_ast r s

    pub all_ast : Bool → Specs N C → Option (AstNodes N)
    all_ast r nil = some end
    all_ast r (cons s ss) = map_next (to_ast r s) (all_ast r ss)

abbrev pub is_none_left : {A : Type 0} → List A → Bool
is_none_left [] = true
is_none_left (a ∷ l) = false

-- `AstSchema`: what of it the types do not say.
unfoldable mutual
  pub valid : {N : Type 0} → AstNode N → Bool
  valid (op kind input) = is_none_left input.extra
  valid (not_node a) = valid a
  valid (and_node as') = all_valid as'
  valid (or_node as') = all_valid as'
  valid (ref id) = true

  pub all_valid : {N : Type 0} → AstNodes N → Bool
  all_valid end = true
  all_valid (next a as') = valid a && all_valid as'

abbrev pub then_build : {A B : Type 0} → (A → B) → Built A → Built B
then_build f (built a) = built (f a)
then_build f ast_invalid = ast_invalid
then_build f registry_unknown = registry_unknown

module _ {N C : Type 0} where
  abbrev pub create_from : Input N → Option (Operator N C) → Built (Spec N C)
  create_from i none = registry_unknown
  create_from i (some o) = built (o.create i)

  abbrev pub found : Option (Spec N C) → Built (Spec N C)
  found none = registry_unknown
  found (some s) = built s

  abbrev pub then_next : Built (Spec N C) → Built (Specs N C) → Built (Specs N C)
  then_next (built s) rest = then_build (cons s) rest
  then_next ast_invalid rest = ast_invalid
  then_next registry_unknown rest = registry_unknown

  unfoldable mutual
    pub from_ast : Registry N C → AstNode N → Built (Spec N C)
    from_ast r (op kind input) =
        if valid (op kind input) then create_from input (get_operator r kind) else ast_invalid
    from_ast r (not_node a) =
        if valid (not_node a) then then_build create_not_spec (from_ast r a) else ast_invalid
    from_ast r (and_node as') =
        if valid (and_node as') then then_build create_all_spec (from_nodes r as') else ast_invalid
    from_ast r (or_node as') =
        if valid (or_node as') then then_build create_any_spec (from_nodes r as') else ast_invalid
    from_ast r (ref id) = found (get_spec r id)

    pub from_nodes : Registry N C → AstNodes N → Built (Specs N C)
    from_nodes r end = built nil
    from_nodes r (next a as') = then_next (from_ast r a) (from_nodes r as')
