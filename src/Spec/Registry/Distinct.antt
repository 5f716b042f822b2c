-- ===== src/Spec/Registry/Distinct.antt =====
-- A registry of operators of different kinds.
use nope.Prelude.{
  Text, text_dec, ◌≡◌, ◌≢◌, refl, sym, ap, ◌∙◌, false, List, [], ◌∷◌, none, some, All, map_get,
  map_set, map_get-set_self, map_get-set_ne,
}
use nope.Spec.Registry.{
  Registry, Operator, add_operator, add_operators, create_registry, get_operator, has, present,
}

module _ {N C : Type 0} where
  -- The operators have different kinds.
  abbrev pub Distinct : List (Operator N C) → Type 0
  Distinct [] = Unit
  Distinct (o ∷ os) = All (λ p. o.kind ≢ p.kind) os × Distinct os

  -- The registry has none of the kinds.
  abbrev Fresh : Registry N C → List (Operator N C) → Type 0
  Fresh r os = All (λ o. map_get text_dec r.operators o.kind ≡ none) os

  abbrev with_operator : Registry N C → Operator N C → Registry N C
  with_operator r o = record r { operators = map_set text_dec r.operators o.kind o }

  add_fresh :
      (r : Registry N C) (o : Operator N C)
      → map_get text_dec r.operators o.kind ≡ none
      → add_operator r o ≡ some (with_operator r o)
  unfolding add_operator
  add_fresh r o e = let b : has r.operators o.kind ≡ false = ap present e in rw b refl

  Fresh-with :
      (r : Registry N C) (o : Operator N C) (os : List (Operator N C))
      → All (λ p. o.kind ≢ p.kind) os
      → Fresh r os
      → Fresh (with_operator r o) os
  Fresh-with r o [] d f = tt
  Fresh-with r o (p ∷ os) d f =
      (map_get-set_ne text_dec r.operators o.kind p.kind o d.0 ∙ f.0, Fresh-with r o os d.1 f.1)

  -- The registry that the loop leaves, and that it keeps what other kinds have.
  record Loaded (r : Registry N C) (os : List (Operator N C)) : Type 0 where
    pub registry : Registry N C
    pub loaded : add_operators r os ≡ some registry
    pub kept :
        (k : Text)
        → All (λ o. k ≢ o.kind) os
        → get_operator registry k ≡ map_get text_dec r.operators k
    pub found : All (λ o. get_operator registry o.kind ≡ some o) os

  load : (r : Registry N C) (os : List (Operator N C)) → Distinct os → Fresh r os → Loaded r os
  unfolding add_operators get_operator
  load r [] d f = record { registry = r; loaded = refl; kept = λ k h. refl; found = tt }
  load r (o ∷ os) d f =
      let rest = load (with_operator r o) os d.1 (Fresh-with r o os d.0 f.1) in
      record {
        registry = rest.registry;
        loaded = rw (add_operators, add_fresh r o f.0) rest.loaded;
        kept = λ k h.
            rest.kept k h.1 ∙ map_get-set_ne text_dec r.operators o.kind k o (λ e. h.0 (sym e));
        found = (rest.kept o.kind d.0 ∙ map_get-set_self text_dec r.operators o.kind o, rest.found);
      }

  Fresh-empty : (os : List (Operator N C)) → Fresh (record { operators = []; specs = [] }) os
  Fresh-empty [] = tt
  Fresh-empty (o ∷ os) = (refl, Fresh-empty os)

  -- Operators of different kinds are all taken, and each is found under its kind.
  pub create_registry-get_operator :
      (os : List (Operator N C))
      → Distinct os
      → (r : Registry N C) × (create_registry os ≡ some r)
        × All (λ o. get_operator r o.kind ≡ some o) os
  unfolding create_registry
  create_registry-get_operator os d =
      let l = load (record { operators = []; specs = [] }) os d (Fresh-empty os) in
      (l.registry, l.loaded, l.found)
