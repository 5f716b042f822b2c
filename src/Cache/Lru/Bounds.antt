-- ===== src/Cache/Lru/Bounds.antt =====
-- Every operation keeps the total size and the bounds.
use nope.Prelude.{
  ℕ, zero, suc, ◌+◌, ◌-◌, ◌≤◌, ◌≡◌, refl, ap, ◌∙◌, false, ◌||◌, List, [], ◌∷◌, Option, none, some,
  ltb, length, sum_by, map_get, sum_by-append, arith, Bool-cases, inl, inr, if_elim,
}
use nope.Cache.Lru.{
  Entry, Cache, is_expired, over, slide, sweep_first, sweep, evict_size, evict_count, swept, evict,
  remove_node, get_found, new_entry, put_found, put, set, del_found,
}
use nope.Prelude.Keys.{NoDup, NoDup-delete, NoDup-append}
use nope.Cache.Lru.Sizes.{size_of, Sound, Bounded, delete_found, moved}

pub over_zero : (bound : Option ℕ) → over bound 0 ≡ false
over_zero none = refl
over_zero (some b) = ground arith

over_less : (bound : Option ℕ) (m n : ℕ) → m ≤ n → over bound n ≡ false → over bound m ≡ false
over_less none m n l h = refl
over_less (some b) m n l h = ground (arith, l, h)

module _ {K V : Type 0} (dec : Discrete K) where
  sweep_absent :
      (now n : ℕ) (ns : List (K × Entry V)) (k : K)
      → map_get dec ns k ≡ none
      → map_get dec (sweep_first now n ns).0 k ≡ none
  unfolding sweep_first
  sweep_absent now zero ns k h = h
  sweep_absent now (suc n) [] k h = refl
  sweep_absent now (suc n) ((j, e) ∷ ns) k h = elim (dec j k) [
    | yes p ↦ absurd (ground (arith, h))
    | no m ↦
        let rest = sweep_absent now n ns k (ground (arith, h)) in
        if_elim (λ (r : List (K × Entry V) × ℕ). map_get dec r.0 k ≡ none) (is_expired now e)
          {x = ((sweep_first now n ns).0, e.sz + (sweep_first now n ns).1)}
          {y = ((j, e) ∷ (sweep_first now n ns).0, (sweep_first now n ns).1)} (λ b. rest)
          (λ b. ground (arith, rest))
  ]

  -- A list of nodes with the sizes that were taken off: what a pass over `ns` leaves.
  abbrev pub Passed : List (K × Entry V) → List (K × Entry V) × ℕ → Type 0
  Passed ns r =
      NoDup dec r.0 × (sum_by size_of ns ≡ r.1 + sum_by size_of r.0) × (length r.0 ≤ length ns)

  sweep_Passed :
      (now n : ℕ) (ns : List (K × Entry V)) → NoDup dec ns → Passed ns (sweep_first now n ns)
  unfolding sweep_first
  sweep_Passed now zero ns h = (h, omega arith, omega arith)
  sweep_Passed now (suc n) [] h = (tt, omega arith, omega arith)
  sweep_Passed now (suc n) ((j, e) ∷ ns) h =
      let (keys, sizes, fewer) = sweep_Passed now n ns h.1 in
      if_elim (Passed ((j, e) ∷ ns)) (is_expired now e)
        {x = ((sweep_first now n ns).0, e.sz + (sweep_first now n ns).1)}
        {y = ((j, e) ∷ (sweep_first now n ns).0, (sweep_first now n ns).1)}
        (λ b. (keys, omega (arith, sizes), omega (arith, fewer)))
        (λ b. ((sweep_absent now n ns j h.0, keys), omega (arith, sizes), omega (arith, fewer)))

  pub swept-Passed : (c : Cache K V) (now : ℕ) → NoDup dec c.nodes → Passed c.nodes (swept c now)
  unfolding swept sweep
  swept-Passed c now h =
      if_elim (Passed c.nodes) c.lazy_expiration
        (λ b.
          if_elim (Passed c.nodes)
            (over c.max_size c.total_size || ltb c.max_entries (length c.nodes))
            (λ d. sweep_Passed now 10 c.nodes h) (λ d. (h, omega arith, omega arith)))
        (λ b. sweep_Passed now (length c.nodes) c.nodes h)

  -- What an eviction leaves of nodes with the total `n`.
  abbrev pub Evicted : List (K × Entry V) × ℕ → Type 0
  Evicted r = NoDup dec r.0 × (r.1 ≡ sum_by size_of r.0)

  pub evict_size-Evicted :
      (bound : Option ℕ) (ns : List (K × Entry V)) (n : ℕ)
      → NoDup dec ns
      → n ≡ sum_by size_of ns
      → Evicted (evict_size bound ns n) × (over bound (evict_size bound ns n).1 ≡ false)
  unfolding evict_size
  evict_size-Evicted bound [] n h s = ((tt, s), ap (over bound) s ∙ over_zero bound)
  evict_size-Evicted bound (x ∷ ns) n h s = elim (Bool-cases (over bound n)) [
    | inl b ↦ rw b (evict_size-Evicted bound ns (n - x.1.sz) h.1 (omega (arith, s)))
    | inr b ↦ rw b ((h, s), b)
  ]

  evict_count-Evicted :
      (bound : ℕ) (ns : List (K × Entry V)) (n : ℕ)
      → NoDup dec ns
      → n ≡ sum_by size_of ns
      → Evicted (evict_count bound ns n)
        × (length (evict_count bound ns n).0 ≤ bound)
        × ((evict_count bound ns n).1 ≤ n)
  unfolding evict_count
  evict_count-Evicted bound [] n h s = ((tt, s), omega arith, omega arith)
  evict_count-Evicted bound (x ∷ ns) n h s = elim (Bool-cases (ltb bound (length (x ∷ ns)))) [
    | inl b ↦
        let (ev, few, le) = evict_count-Evicted bound ns (n - x.1.sz) h.1 (omega (arith, s)) in
        rw b (ev, few, omega (arith, le))
    | inr b ↦ rw b ((h, s), ground (arith, b), omega arith)
  ]

  pub evict-Sound :
      (c : Cache K V) (now : ℕ) → Sound dec c → Sound dec (evict c now) × Bounded dec (evict c now)
  unfolding evict
  evict-Sound c now h =
      let (keys, sizes, fewer) = swept-Passed c now h.keys in
      let (ns, freed) = swept c now in
      let ((keys', sizes'), small) =
        evict_size-Evicted c.max_size ns (c.total_size - freed) keys
          (omega (arith, h.sizes, sizes)) in
      let (ns', n') = evict_size c.max_size ns (c.total_size - freed) in
      let ((keys'', sizes''), few, le) = evict_count-Evicted c.max_entries ns' n' keys' sizes' in
      (
        record { sizes = sizes''; keys = keys'' },
        record { by_size = over_less c.max_size _ _ le small; by_count = few },
      )

  pub put_Sound :
      (c : Cache K V) (k : K) (e : Entry V) (old : Option (Entry V))
      → Sound dec c
      → map_get dec c.nodes k ≡ old
      → Sound dec (put_found dec c k e old)
  put_Sound c k e none h g = record {
    sizes = omega (arith, h.sizes, sum_by-append size_of c.nodes ((k, e) ∷ []));
    keys = NoDup-append dec c.nodes k e h.keys g;
  }
  put_Sound c k e (some old) h g =
      let (keys, sizes, same) = moved dec c.nodes k old e h.keys g in
      let (s, l) = delete_found dec c.nodes k old h.keys g in
      record { sizes = omega (arith, h.sizes, sizes, s); keys = keys }

  -- Whatever a sound cache held before: `set` leaves the total the sum of the sizes, one node for each
  -- key, and both bounds kept.
  pub set-Bounded :
      (c : Cache K V) (k : K) (v : V) (ttl sliding : Option ℕ) (sz now : ℕ)
      → Sound dec c
      → Sound dec (set dec c k v ttl sliding sz now)
        × Bounded dec (set dec c k v ttl sliding sz now)
  unfolding set put
  set-Bounded c k v ttl sliding sz now h =
      evict-Sound (put_found dec c k (new_entry v ttl sliding sz now) (map_get dec c.nodes k)) now
        (put_Sound c k (new_entry v ttl sliding sz now) _ h refl)

  -- What keeps the cache sound and bounded.
  abbrev Fine : Cache K V → Type 0
  Fine c = Sound dec c × Bounded dec c

  remove_Fine :
      (c : Cache K V) (k : K) (e : Entry V)
      → Fine c
      → map_get dec c.nodes k ≡ some e
      → Fine (remove_node dec c k e)
  unfolding remove_node
  remove_Fine c k e (h, b) g =
      let (s, l) = delete_found dec c.nodes k e h.keys g in
      (
        record { sizes = omega (arith, h.sizes, s); keys = NoDup-delete dec c.nodes k h.keys },
        record {
          by_size = over_less c.max_size (c.total_size - e.sz) c.total_size (omega arith) b.by_size;
          by_count = omega (arith, l, b.by_count);
        },
      )

  pub get_Fine :
      (c : Cache K V) (k : K) (now : ℕ) (e : Option (Entry V))
      → Fine c
      → map_get dec c.nodes k ≡ e
      → Fine (get_found dec c k now e).0
  get_Fine c k now none f g = f
  get_Fine c k now (some e) f g = elim (Bool-cases (is_expired now e)) [
    | inl x ↦ rw x (remove_Fine c k e f g)
    | inr x ↦
        let (keys, sizes, same) =
          moved dec c.nodes k e (record e { exp = slide now e.sl e.exp; t = now }) f.0.keys g in
        rw x (
          record { sizes = omega (arith, f.0.sizes, sizes); keys = keys },
          record { by_size = f.1.by_size; by_count = omega (arith, same, f.1.by_count) },
        )
  ]

  pub del_Fine :
      (c : Cache K V) (k : K) (e : Option (Entry V))
      → Fine c
      → map_get dec c.nodes k ≡ e
      → Fine (del_found dec c k e)
  del_Fine c k none f g = f
  del_Fine c k (some e) f g = remove_Fine c k e f g
