-- ===== src/Spec/Ast/Rewrite.antt =====
-- What is read from a syntax tree is written out as that tree.
use nope.Prelude.{
  Text, text_dec, ◌≡◌, refl, sym, ap, ◌∙◌, Bool, true, false, List, [], ◌∷◌, some, if◌then◌else◌,
  Bool-cases, Option-cases, inl, inr, arith, map_get, map_get-set_self, map_get-set_ne, subst,
}
use nope.Spec.{Value}
use nope.Spec.Tree.{
  Spec, Specs, FieldSpec, Input, Outcome, field, cons, create_all_spec, create_any_spec,
  create_not_spec,
}
use nope.Spec.Registry.{
  Registry, Operator, get_operator, add_operator, add_operators, create_registry,
  create_field_operator, has,
}
use nope.Spec.Ast.{
  AstNode, AstNodes, op, not_node, and_node, or_node, ref, end, next, Built, built, ast_invalid,
  registry_unknown, to_ast, all_ast, map_node, from_ast, from_nodes, create_from, found, then_build,
  then_next,
}

-- A predicate of an operator's options.
abbrev pub Predicate : Type 0 → Type 0 → Type 0
Predicate N C = Value N → Value N → C → Input N → Outcome

-- The options of operators, each its kind and its predicate.
abbrev pub operators : {N C : Type 0} → List (Text × Predicate N C) → List (Operator N C)
operators [] = []
operators ((kind, p) ∷ ps) = create_field_operator kind p ∷ operators ps

then_build_built :
    {A B : Type 0} (f : A → B) (x : Built A) (b : B)
    → then_build f x ≡ built b
    → (a : A) × (x ≡ built a) × (f a ≡ b)
then_build_built f (built a) b e = (a, refl, ground arith)
then_build_built f ast_invalid b e = cc
then_build_built f registry_unknown b e = cc

some_eq : {A : Type 0} {a b : A} → some a ≡ some b → a ≡ b
some_eq e = cc

built_eq : {A : Type 0} {a b : A} → built a ≡ built b → a ≡ b
built_eq e = cc

-- The tree refers to no registered specification.
unfoldable mutual
  pub NoRefs : {N : Type 0} → AstNode N → Type 0
  NoRefs (op kind i) = Unit
  NoRefs (not_node a) = NoRefs a
  NoRefs (and_node as') = AllNoRefs as'
  NoRefs (or_node as') = AllNoRefs as'
  NoRefs (ref id) = ⊥

  pub AllNoRefs : {N : Type 0} → AstNodes N → Type 0
  AllNoRefs end = Unit
  AllNoRefs (next a as') = NoRefs a × AllNoRefs as'

module _ {N C : Type 0} where
  if_built :
      (b : Bool) (x : Built (Spec N C)) (s : Spec N C)
      → (if b then x else ast_invalid) ≡ built s
      → x ≡ built s
  if_built true x s e = e
  if_built false x s e = cc

  then_next_built :
      (x : Built (Spec N C)) (y : Built (Specs N C)) (ss : Specs N C)
      → then_next x y ≡ built ss
      → (s : Spec N C) × (ts : Specs N C) × (x ≡ built s) × (y ≡ built ts) × (cons s ts ≡ ss)
  then_next_built (built s) y ss e =
      let (ts, f, g) = then_build_built (cons s) y ss e in (s, ts, refl, f, g)
  then_next_built ast_invalid y ss e = cc
  then_next_built registry_unknown y ss e = cc

  -- An operator makes field specifications of its kind that keep their input.
  Keeps : Text → Operator N C → Type 0
  Keeps kind o =
      (i : Input N)
      → (f : FieldSpec N C) × (o.create i ≡ field f) × (f.kind ≡ kind) × (f.input ≡ some i)

  AllKeep : Registry N C → Type 0
  AllKeep r = (kind : Text) (o : Operator N C) → get_operator r kind ≡ some o → Keeps kind o

  add_operator_keep :
      (r r' : Registry N C) (o : Operator N C)
      → AllKeep r
      → Keeps o.kind o
      → add_operator r o ≡ some r'
      → AllKeep r'
  unfolding AllKeep add_operator get_operator
  add_operator_keep r r' o all keeps e kind p found = elim (Bool-cases (has r.operators o.kind)) [
    | inl b ↦ absurd (ground (arith, rw b at e))
    | inr b ↦
        let same =
          ap (λ (q : Registry N C). map_get text_dec q.operators kind) (some_eq (rw b at e)) in
        elim (text_dec o.kind kind) [
          | yes w ↦
              let self = map_get-set_self text_dec r.operators o.kind o in
              subst (Keeps kind) (some_eq (sym self ∙ ap (map_get text_dec _) w ∙ same ∙ found))
                (subst (λ k. Keeps k o) w keeps)
          | no n ↦
              all kind p (sym (map_get-set_ne text_dec r.operators o.kind kind o n) ∙ same ∙ found)
        ]
  ]

  kept : (kind : Text) (p : Predicate N C) → Keeps kind (create_field_operator kind p)
  unfolding create_field_operator Keeps
  kept kind p i = (_, refl, refl, refl)

  add_operators_keep :
      (r r' : Registry N C) (ps : List (Text × Predicate N C))
      → AllKeep r
      → add_operators r (operators ps) ≡ some r'
      → AllKeep r'
  unfolding add_operators create_field_operator
  add_operators_keep r r' [] all e = subst AllKeep (some_eq e) all
  add_operators_keep r r' ((kind, p) ∷ ps) all e =
      let o : Operator N C = create_field_operator kind p in
      elim (Option-cases (add_operator r o)) [
        | inl q ↦ absurd (ground (arith, rw (add_operators, q) at e))
        | inr (r1, q) ↦
            add_operators_keep r1 r' ps (add_operator_keep r r1 o all (kept kind p) q)
              (rw (add_operators, q) at e)
      ]

  create_registry_keeps :
      (r : Registry N C) (ps : List (Text × Predicate N C))
      → create_registry (operators ps) ≡ some r
      → AllKeep r
  unfolding create_registry AllKeep get_operator
  create_registry_keeps r ps e = add_operators_keep _ r ps (λ kind o q. cc) e

  op_back :
      (r : Registry N C) (w : Bool) (kind : Text) (i : Input N) (s : Spec N C)
      → AllKeep r
      → create_from i (get_operator r kind) ≡ built s
      → to_ast w s ≡ some (op kind i)
  unfolding AllKeep Keeps to_ast
  op_back r w kind i s all e = elim (Option-cases (get_operator r kind)) [
    | inl q ↦ absurd (ground (arith, rw q at e))
    | inr (o, q) ↦
        let (f, made, k, kept_input) = all kind o q i in
        let made' = sym made ∙ built_eq (rw q at e) in
        subst (λ t. to_ast w t ≡ some (op kind i)) made' (rw (k, kept_input) refl)
  ]

  mutual
    unfolding from_ast to_ast NoRefs create_not_spec create_all_spec create_any_spec

    to_ast_back :
        (r : Registry N C) (w : Bool) (a : AstNode N) (s : Spec N C)
        → AllKeep r
        → NoRefs a
        → from_ast r a ≡ built s
        → to_ast w s ≡ some a
    to_ast_back r w (op kind i) s all h e = op_back r w kind i s all (if_built _ _ s e)
    to_ast_back r w (not_node a) s all h e =
        let (t, f, g) = then_build_built create_not_spec _ s (if_built _ _ s e) in
        subst (λ u. to_ast w u ≡ some (not_node a)) g
          (ap (map_node not_node) (to_ast_back r w a t all h f))
    to_ast_back r w (and_node as') s all h e =
        let (t, f, g) = then_build_built create_all_spec _ s (if_built _ _ s e) in
        subst (λ u. to_ast w u ≡ some (and_node as')) g
          (ap (map_node and_node) (all_back r w as' t all h f))
    to_ast_back r w (or_node as') s all h e =
        let (t, f, g) = then_build_built create_any_spec _ s (if_built _ _ s e) in
        subst (λ u. to_ast w u ≡ some (or_node as')) g
          (ap (map_node or_node) (all_back r w as' t all h f))
    to_ast_back r w (ref id) s all h e = absurd h

    all_back :
        (r : Registry N C) (w : Bool) (as' : AstNodes N) (ss : Specs N C)
        → AllKeep r
        → AllNoRefs as'
        → from_nodes r as' ≡ built ss
        → all_ast w ss ≡ some as'
    all_back r w end ss all h e = subst (λ us. all_ast w us ≡ some end) (built_eq e) refl
    all_back r w (next a as') ss all h e =
        let (t, ts, f, g, q) = then_next_built _ _ ss e in
        subst (λ us. all_ast w us ≡ some (next a as')) q
          (rw (to_ast_back r w a t all h.0 f, all_back r w as' ts all h.1 g) refl)

  -- With a registry of operators that `createFieldOperator` makes: a syntax tree without references
  -- from which a specification is built is the tree that the specification is written out as.
  pub to_ast-from_ast :
      (r : Registry N C) (ps : List (Text × Predicate N C)) (w : Bool) (a : AstNode N)
      (s : Spec N C)
      → create_registry (operators ps) ≡ some r
      → NoRefs a
      → from_ast r a ≡ built s
      → to_ast w s ≡ some a
  to_ast-from_ast r ps w a s c h e = to_ast_back r w a s (create_registry_keeps r ps c) h e
