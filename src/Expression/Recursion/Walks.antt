-- ===== src/Expression/Recursion/Walks.antt =====
-- The references between schemas as a graph.
use nope.Prelude.{refl, subst, List, [], ◌∷◌, ◌++◌, inl, inr, Text}
use nope.Prelude.Sets.{In}

module _ (refs : Text → List Text) where
  -- At least one reference after another, from the first id to the last.
  pub data Walk : Text → Text → Type 0 where
    one : (v w : Text) → In w (refs v) → Walk v w
    more : (u v w : Text) → In v (refs u) → Walk v w → Walk u w

  -- No walk from the id goes on for ever.
  pub data Safe : Text → Type 0 where
    safe : (v : Text) → ((w : Text) → In w (refs v) → Safe w) → Safe v

  -- Each id refers to the next.
  abbrev pub Chain : List Text → Type 0
  Chain [] = Unit
  Chain (x ∷ []) = Unit
  Chain (x ∷ y ∷ xs) = In y (refs x) × Chain (y ∷ xs)

  Walk-concat : (u v w : Text) → Walk u v → In w (refs v) → Walk u w
  Walk-concat u v w (one _ _ h) i = more u v w h (one v w i)
  Walk-concat u v w (more _ x _ h p) i = more u x w h (Walk-concat x v w p i)

  pub Safe-Walk : (v : Text) → Safe v → Walk v v → ⊥
  Safe-Walk v (safe _ k) (one _ _ h) = Safe-Walk v (k v h) (one v v h)
  Safe-Walk v (safe _ k) (more _ x _ h p) = Safe-Walk x (k x h) (Walk-concat x v x p h)

  pub Safe-reached : (v w : Text) → Safe v → Walk v w → Safe w
  Safe-reached v w (safe _ k) (one _ _ h) = k w h
  Safe-reached v w (safe _ k) (more _ x _ h p) = Safe-reached x w (k x h) p

  pub Chain-concat :
      (path : List Text) (id r : Text)
      → Chain (path ++ id ∷ [])
      → In r (refs id)
      → Chain ((path ++ id ∷ []) ++ r ∷ [])
  Chain-concat [] id r c h = (h, tt)
  Chain-concat (x ∷ []) id r c h = (c.0, (h, tt))
  Chain-concat (x ∷ y ∷ path) id r c h = (c.0, Chain-concat (y ∷ path) id r c.1 h)

  pub Chain-Walk : (path : List Text) (a b : Text) → In a path → Chain (path ++ b ∷ []) → Walk a b
  Chain-Walk [] a b i c = elim i [ ]
  Chain-Walk (x ∷ []) a b (inl e) c = subst (λ v. Walk v b) e (one x b c.0)
  Chain-Walk (x ∷ []) a b (inr i) c = elim i [ ]
  Chain-Walk (x ∷ y ∷ path) a b (inl e) c =
      subst (λ v. Walk v b) e (more x y b c.0 (Chain-Walk (y ∷ path) y b (inl refl) c.1))
  Chain-Walk (x ∷ y ∷ path) a b (inr i) c = Chain-Walk (y ∷ path) a b i c.1

  -- An issue: a path through the graph that meets a cycle.
  pub record IsCircular (issue : List Text) : Type 0 where
    pub chain : Chain issue
    pub id : Text
    pub within : In id issue
    pub cycle : Walk id id
