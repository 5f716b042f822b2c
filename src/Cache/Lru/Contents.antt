-- ===== src/Cache/Lru/Contents.antt =====
-- A property of every entry, which no operation of the cache loses.
use nope.Prelude.{
  ℕ, zero, suc, ◌≡◌, subst, ◌||◌, List, [], ◌∷◌, ◌++◌, Option, none, some, ltb, length, All,
  map_get, map_delete, if_pos, if_neg, if_elim, Bool-cases, Option-cases, inl, inr,
}
use nope.Prelude.Sets.{All-append}
use nope.Cache.Lru.{
  Entry, Cache, is_expired, over, sweep_first, sweep, swept, evict, remove_node, get, new_entry,
  put_found, put, set,
}
use nope.Cache.Lru.Recency.{IsEnd, evict-IsEnd}

module _ {K V : Type 0} (P : K → V → Type 0) where
  abbrev pub OfNode : K × Entry V → Type 0
  OfNode x = P x.0 x.1.v

  -- The property holds of every key with its value.
  abbrev pub Holds : Cache K V → Type 0
  Holds c = All OfNode c.nodes

  All-IsEnd : (ns ms : List (K × Entry V)) → IsEnd ns ms → All OfNode ms → All OfNode ns
  All-IsEnd ns ms (before, e) h = All-behind before ns (subst (All OfNode) (sym_of e) h)
    where
      sym_of : {xs ys : List (K × Entry V)} → xs ≡ ys → ys ≡ xs
      sym_of e = cc

      All-behind : (xs ys : List (K × Entry V)) → All OfNode (xs ++ ys) → All OfNode ys
      All-behind [] ys h = h
      All-behind (x ∷ xs) ys h = All-behind xs ys h.1

  All-sweep :
      (now n : ℕ) (ns : List (K × Entry V)) → All OfNode ns → All OfNode (sweep_first now n ns).0
  unfolding sweep_first
  All-sweep now zero ns h = h
  All-sweep now (suc n) [] h = tt
  All-sweep now (suc n) (x ∷ ns) h = elim (Bool-cases (is_expired now x.1)) [
    | inl b ↦ rw b (All-sweep now n ns h.1)
    | inr b ↦ rw b (h.0, All-sweep now n ns h.1)
  ]

  swept-Holds : (c : Cache K V) (now : ℕ) → Holds c → All OfNode (swept c now).0
  unfolding swept sweep
  swept-Holds c now h =
      if_elim (λ (r : List (K × Entry V) × ℕ). All OfNode r.0) c.lazy_expiration
        (λ b.
          if_elim (λ (r : List (K × Entry V) × ℕ). All OfNode r.0)
            (over c.max_size c.total_size || ltb c.max_entries (length c.nodes))
            {x = sweep_first now 10 c.nodes} {y = (c.nodes, 0)} (λ d. All-sweep now 10 c.nodes h)
            (λ d. h))
        (λ b. All-sweep now (length c.nodes) c.nodes h)

  evict-Holds : (c : Cache K V) (now : ℕ) → Holds c → Holds (evict c now)
  evict-Holds c now h = All-IsEnd (evict c now).nodes _ (evict-IsEnd c now) (swept-Holds c now h)

  module _ (dec : Discrete K) where
    All-delete :
        (ns : List (K × Entry V)) (k : K) → All OfNode ns → All OfNode (map_delete dec ns k)
    All-delete [] k h = tt
    All-delete ((j, e) ∷ ns) k h = elim (dec j k) [
      | yes p ↦ rw (if_pos (dec j k) p) (All-delete ns k h.1)
      | no n ↦ rw (if_neg (dec j k) n) (h.0, All-delete ns k h.1)
    ]

    node_Holds :
        (ns : List (K × Entry V)) (k : K) (e : Entry V)
        → All OfNode ns
        → map_get dec ns k ≡ some e
        → P k e.v
    node_Holds [] k e h g = cc
    node_Holds ((j, x) ∷ ns) k e h g = elim (dec j k) [
      | yes p ↦
          let same : some x ≡ some e = sym_eq (if_pos (dec j k) p (some x) (map_get dec ns k)) g in
          subst (λ (y : Entry V). P k y.v) (some_eq same) (subst (λ q. P q x.v) p h.0)
      | no n ↦ node_Holds ns k e h.1 (rw (if_neg (dec j k) n) at g)
    ]
      where
        sym_eq : {A : Type 0} {a b c : A} → a ≡ b → a ≡ c → b ≡ c
        sym_eq p q = cc

        some_eq : {A : Type 0} {a b : A} → some a ≡ some b → a ≡ b
        some_eq p = cc

    -- `get` answers with a value that stands under its key.
    pub get-Holds :
        (c : Cache K V) (k : K) (now : ℕ)
        → Holds c
        → Holds (get dec c k now).0 × ((v : V) → (get dec c k now).1 ≡ some v → P k v)
    unfolding get remove_node
    get-Holds c k now h = elim (Option-cases (map_get dec c.nodes k)) [
      | inl e ↦ rw e (h, λ v q. cc)
      | inr (e, f) ↦
          let p = node_Holds c.nodes k e h f in
          elim (Bool-cases (is_expired now e)) [
            | inl b ↦ rw f (rw b (All-delete c.nodes k h, λ v q. cc))
            | inr b ↦ rw f (
                rw b (
                  All-append OfNode (map_delete dec c.nodes k) _ (All-delete c.nodes k h) (p, tt),
                  λ v q. subst (P k) (unwrap q) p,
                ))
          ]
    ]
      where
        unwrap : {A : Type 0} {a b : A} → some a ≡ some b → a ≡ b
        unwrap p = cc

    pub set-Holds :
        (c : Cache K V) (k : K) (v : V) (ttl sliding : Option ℕ) (sz now : ℕ)
        → Holds c
        → P k v
        → Holds (set dec c k v ttl sliding sz now)
    unfolding set put
    set-Holds c k v ttl sliding sz now h p =
        evict-Holds (put dec c k (new_entry v ttl sliding sz now)) now
          (put_Holds c k (new_entry v ttl sliding sz now) (map_get dec c.nodes k) h p)
      where
        put_Holds :
            (c : Cache K V) (k : K) (e : Entry V) (old : Option (Entry V))
            → Holds c
            → P k e.v
            → Holds (put_found dec c k e old)
        put_Holds c k e none h p = All-append OfNode c.nodes _ h (p, tt)
        put_Holds c k e (some old) h p =
            All-append OfNode (map_delete dec c.nodes k) _ (All-delete c.nodes k h) (p, tt)
