-- ===== src/Prelude/Maps.antt =====
-- The language's `Map`: an association list in insertion order. `set` on a present key keeps the
-- key's place, on a new key appends.
use mathlib.Core.Path.{◌≡◌, refl, sym, ◌∙◌}
use mathlib.Core.Logic.{◌≢◌, ite, if_pos, if_neg}
use mathlib.Core.List.{List, [], ◌∷◌, map}
use mathlib.Core.Option.{Option, none, some}
use native.Mathlib.Omega.{arith}
use nope.Prelude.Lists.{All}

module _ {ℓ} {K V : Type ℓ} (dec : Discrete K) where
  abbrev pub map_get : List (K × V) → K → Option V
  map_get [] k = none
  map_get ((j, v) ∷ m) k = ite (dec j k) (some v) (map_get m k)

  abbrev pub map_set : List (K × V) → K → V → List (K × V)
  map_set [] k v = (k, v) ∷ []
  map_set ((j, w) ∷ m) k v = ite (dec j k) ((k, v) ∷ m) ((j, w) ∷ map_set m k v)

  abbrev pub map_delete : List (K × V) → K → List (K × V)
  map_delete [] k = []
  map_delete ((j, w) ∷ m) k = ite (dec j k) (map_delete m k) ((j, w) ∷ map_delete m k)

  pub map_get-set_self : (m : List (K × V)) (k : K) (v : V) → map_get (map_set m k v) k ≡ some v
  map_get-set_self [] k v = ground arith
  map_get-set_self ((j, w) ∷ m) k v = ground (arith, map_get-set_self m k v)

  pub map_get-set_ne :
      (m : List (K × V)) (k q : K) (v : V) → k ≢ q → map_get (map_set m k v) q ≡ map_get m q
  map_get-set_ne [] k q v h = ground arith
  map_get-set_ne ((j, w) ∷ m) k q v h = ground (arith, map_get-set_ne m k q v)

  pub map_get-delete_self : (m : List (K × V)) (k : K) → map_get (map_delete m k) k ≡ none
  map_get-delete_self [] k = refl
  map_get-delete_self ((j, w) ∷ m) k = ground (arith, map_get-delete_self m k)

  pub map_get-delete_ne :
      (m : List (K × V)) (k q : K) → k ≢ q → map_get (map_delete m k) q ≡ map_get m q
  map_get-delete_ne [] k q h = refl
  map_get-delete_ne ((j, w) ∷ m) k q h = ground (arith, map_get-delete_ne m k q)

-- A map whose values name their key: every value stands under its own key, and once.
module _ {K V : Type 0} (dec : Discrete K) (key : V → K) where
  abbrev pub Keyed : List (K × V) → Type 0
  Keyed [] = Unit
  Keyed ((k, v) ∷ m) = (key v ≡ k) × (map_get dec m k ≡ none) × Keyed m

  pub Keyed-set :
      (m : List (K × V)) (k : K) (v : V) → key v ≡ k → Keyed m → Keyed (map_set dec m k v)
  Keyed-set [] k v e h = (e, refl, tt)
  Keyed-set ((j, w) ∷ m) k v e h = elim (dec j k) [
    | yes p ↦ rw (if_pos (dec j k) p) (e, rw (← p) h.1, h.2)
    | no n ↦
        rw (if_neg (dec j k) n)
          (h.0, map_get-set_ne dec m k j v (λ q. n (sym q)) ∙ h.1, Keyed-set m k v e h.2)
  ]

  pub Keyed-delete : (m : List (K × V)) (k : K) → Keyed m → Keyed (map_delete dec m k)
  Keyed-delete [] k h = tt
  Keyed-delete ((j, w) ∷ m) k h = elim (dec j k) [
    | yes p ↦ rw (if_pos (dec j k) p) (Keyed-delete m k h.2)
    | no n ↦
        rw (if_neg (dec j k) n)
          (h.0, map_get-delete_ne dec m k j (λ q. n (sym q)) ∙ h.1, Keyed-delete m k h.2)
  ]

  -- What is found is found under its own key.
  pub Keyed-get :
      (m : List (K × V)) (k : K) (v : V) → Keyed m → map_get dec m k ≡ some v → key v ≡ k
  Keyed-get [] k v h e = cc
  Keyed-get ((j, w) ∷ m) k v h e = elim (dec j k) [
    | yes p ↦ ground arith
    | no n ↦ Keyed-get m k v h.2 (ground arith)
  ]

  Keyed-weaken :
      (j : K) (w : V) (m : List (K × V)) (l : List V)
      → map_get dec m j ≡ none
      → All (λ v. map_get dec m (key v) ≡ some v) l
      → All (λ v. map_get dec ((j, w) ∷ m) (key v) ≡ some v) l
  Keyed-weaken j w m [] f h = tt
  Keyed-weaken j w m (v ∷ l) f h = (
    elim (dec j (key v)) [
      | yes p ↦ absurd (ground arith)
      | no n ↦ if_neg (dec j (key v)) n (some w) (map_get dec m (key v)) ∙ h.0
    ],
    Keyed-weaken j w m l f h.1,
  )

  pub Keyed-All :
      (m : List (K × V)) → Keyed m → All (λ v. map_get dec m (key v) ≡ some v) (map (λ e. e.1) m)
  Keyed-All [] h = tt
  Keyed-All ((j, w) ∷ m) h = (
    if_pos (dec j (key w)) (sym h.0) (some w) (map_get dec m (key w)),
    Keyed-weaken j w m (map (λ e. e.1) m) h.1 (Keyed-All m h.2),
  )
