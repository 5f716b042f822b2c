-- ===== src/Cache/Lru/Sizes.antt =====
-- The bounds of the cache, and the total size that it keeps.
use nope.Prelude.{
  ℕ, suc, ◌+◌, ◌≤◌, ◌≡◌, refl, sym, ap, ◌∙◌, subst, false, List, [], ◌∷◌, none, some, if_pos,
  if_neg, length, sum_by, map_get, map_delete, map_get-delete_self, sum_by-append, length-append,
  arith,
}
use nope.Prelude.Keys.{NoDup, NoDup-delete, delete_absent, NoDup-append}
use nope.Cache.Lru.{Entry, Cache, over, move_to_front}

abbrev pub size_of : {K V : Type 0} → K × Entry V → ℕ
size_of x = x.1.sz

module _ {K V : Type 0} (dec : Discrete K) where
  -- The node of a key is one node.
  pub delete_found :
      (ns : List (K × Entry V)) (k : K) (e : Entry V)
      → NoDup dec ns
      → map_get dec ns k ≡ some e
      → (sum_by size_of ns ≡ e.sz + sum_by size_of (map_delete dec ns k))
        × (length ns ≡ suc (length (map_delete dec ns k)))
  delete_found [] k e h g = cc
  delete_found ((j, x) ∷ ns) k e h g = elim (dec j k) [
    | yes p ↦
        let same : some x ≡ some e = sym (if_pos (dec j k) p (some x) (map_get dec ns k)) ∙ g in
        let gone = delete_absent dec ns k (subst (λ q. map_get dec ns q ≡ none) p h.0) in
        rw (if_pos (dec j k) p, gone) (ground (arith, same), refl)
    | no n ↦
        let (s, l) =
          delete_found ns k e h.1 (sym (if_neg (dec j k) n (some x) (map_get dec ns k)) ∙ g) in
        rw (if_neg (dec j k) n) (omega (arith, s), ap suc l)
  ]

  -- The total is the sum of the sizes, and every key has one node.
  pub record Sound (c : Cache K V) : Type 0 where
    pub sizes : c.total_size ≡ sum_by size_of c.nodes
    pub keys : NoDup dec c.nodes

  -- The bounds that the options set.
  pub record Bounded (c : Cache K V) : Type 0 where
    pub by_size : over c.max_size c.total_size ≡ false
    pub by_count : length c.nodes ≤ c.max_entries

  pub moved :
      (ns : List (K × Entry V)) (k : K) (old e : Entry V)
      → NoDup dec ns
      → map_get dec ns k ≡ some old
      → NoDup dec (move_to_front dec ns k e)
        × (old.sz + sum_by size_of (move_to_front dec ns k e) ≡ e.sz + sum_by size_of ns)
        × (length (move_to_front dec ns k e) ≡ length ns)
  moved ns k old e h g =
      let (s, l) = delete_found ns k old h g in
      (
        NoDup-append dec (map_delete dec ns k) k e (NoDup-delete dec ns k h)
            (map_get-delete_self dec ns k),
        omega (arith, s, sum_by-append size_of (map_delete dec ns k) ((k, e) ∷ [])),
        omega (arith, l, length-append (map_delete dec ns k) ((k, e) ∷ [])),
      )
