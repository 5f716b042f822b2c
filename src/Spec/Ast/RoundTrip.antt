-- ===== src/Spec/Ast/RoundTrip.antt =====
-- A specification written out and read back is the same but for its metadata.
use nope.Prelude.{Text, ◌≡◌, refl, ap, ◌∙◌, true, [], ◌∷◌, some}
use nope.Spec.Tree.{
  Spec, Specs, field, base, plain, composite, nil, cons, all_of, any_of, none_of, create_all_spec,
  create_any_spec, create_not_spec, no_meta,
}
use nope.Spec.Tree.Meaning.{Single}
use nope.Spec.Registry.{Registry, Operator, get_operator, get_spec}
use nope.Spec.Ast.{
  AstNode, AstNodes, op, not_node, and_node, or_node, ref, end, next, built, input_of, ref_to,
  ref_found, to_ast, all_ast, valid, all_valid, from_ast, from_nodes, found, is_none_left,
}

module _ {N C : Type 0} where
  -- The node names a specification that the registry holds under its id.
  abbrev pub Listed : Registry N C → Spec N C → Text → Type 0
  Listed r s [] = ⊥
  Listed r s (c ∷ cs) = get_spec r (c ∷ cs) ≡ some s

  -- The specification without the metadata of its composites and its field specifications.
  unfoldable mutual
    pub bare : Spec N C → Spec N C
    bare (field f) = field (record f { meta = no_meta })
    bare (base b) = base b
    bare (plain p) = plain p
    bare (composite m meta ss) = composite m no_meta (all_bare ss)

    pub all_bare : Specs N C → Specs N C
    all_bare nil = nil
    all_bare (cons s ss) = cons (bare s) (all_bare ss)

  -- The registry has the operator that makes each field specification of its input, which has no
  -- members without a name of their own, and every other leaf under its id.
  unfoldable mutual
    pub Registered : Registry N C → Spec N C → Type 0
    Registered r (field f) =
        (o : Operator N C) × (get_operator r f.kind ≡ some o)
        × (o.create (input_of f) ≡ bare (field f))
        × (is_none_left (input_of f).extra ≡ true)
    Registered r (base b) = Listed r (base b) b.id
    Registered r (plain p) = (id : Text) × (p.id ≡ some id) × Listed r (plain p) id
    Registered r (composite all_of meta ss) = AllRegistered r ss
    Registered r (composite any_of meta ss) = AllRegistered r ss
    Registered r (composite none_of meta ss) = Single ss × AllRegistered r ss

    pub AllRegistered : Registry N C → Specs N C → Type 0
    AllRegistered r nil = Unit
    AllRegistered r (cons s ss) = Registered r s × AllRegistered r ss

  -- It can be written, and what is written is valid and read as it was, the metadata apart.
  abbrev pub Returns : Registry N C → Spec N C → Type 0
  Returns r s =
      (a : AstNode N) × (to_ast true s ≡ some a)
      × (valid a ≡ true)
      × (from_ast r a ≡ built (bare s))

  abbrev AllReturn : Registry N C → Specs N C → Type 0
  AllReturn r ss =
      (as' : AstNodes N) × (all_ast true ss ≡ some as')
      × (all_valid as' ≡ true)
      × (from_nodes r as' ≡ built (all_bare ss))

  Listed-returns :
      (r : Registry N C) (s : Spec N C) (id : Text)
      → Listed r s id
      → (a : AstNode N) × (ref_to true id ≡ some a) × (valid a ≡ true) × (from_ast r a ≡ built s)
  unfolding from_ast valid
  Listed-returns r s [] h = absurd h
  Listed-returns r s (c ∷ cs) h = (ref (c ∷ cs), refl, refl, ap found h)

  mutual
    unfolding bare to_ast from_ast valid Registered create_not_spec create_all_spec create_any_spec

    returns : (r : Registry N C) (s : Spec N C) → Registered r s → Returns r s
    returns r (field f) (o, g, c, x) = (op f.kind (input_of f), refl, x, rw (x, g) (ap built c))
    returns r (base b) h = Listed-returns r (base b) b.id h
    returns r (plain p) (id, e, h) =
        let (a, w, v, g) = Listed-returns r (plain p) id h in (a, ap (ref_found true) e ∙ w, v, g)
    returns r (composite all_of meta ss) h =
        let (as', w, v, g) = all_return r ss h in (and_node as', rw w refl, v, rw (v, g) refl)
    returns r (composite any_of meta ss) h =
        let (as', w, v, g) = all_return r ss h in (or_node as', rw w refl, v, rw (v, g) refl)
    returns r (composite none_of meta nil) h = absurd h.0
    returns r (composite none_of meta (cons s nil)) h =
        let (a, w, v, g) = returns r s h.1.0 in (not_node a, rw w refl, v, rw (v, g) refl)
    returns r (composite none_of meta (cons s (cons t ss))) h = absurd h.0

    all_return : (r : Registry N C) (ss : Specs N C) → AllRegistered r ss → AllReturn r ss
    all_return r nil h = (end, refl, refl, refl)
    all_return r (cons s ss) h =
        let (a, w, v, g) = returns r s h.0 in
        let (as', w', v', g') = all_return r ss h.1 in
        (next a as', rw (w, w') refl, rw (v, v') refl, rw (g, g') refl)

  -- A specification whose leaves the registry knows, and each of whose negations is of one
  -- specification, is written to a valid syntax tree. What is read back from it is the specification
  -- without the metadata of its composites and field specifications: ids, names, tags, versions and
  -- owners are lost.
  pub from_ast-to_ast : (r : Registry N C) (s : Spec N C) → Registered r s → Returns r s
  from_ast-to_ast r s h = returns r s h
