-- ===== src/Cache/FlatCache/Refines/Evicts.antt =====
-- Eviction and storing, against the plain cache.
use nope.Prelude.{
  ℕ, zero, suc, ◌+◌, ◌<◌, ◌≤◌, ◌≡◌, refl, sym, ap, ◌∙◌, subst, Bool, true, false, ◌||◌, List, [],
  ◌∷◌, ◌++◌, Option, none, some, leb, length, map_get, map_delete, arith, inl, inr, map-append,
  sum_by-append, length-append, Bool-cases, List-cases, if_pos,
}
use nope.Prelude.Keys.{NoDup, delete_absent, NoDup-append}
use nope.Cache.Lru.{over}
use nope.Cache.FlatStorage as Flat
use nope.Cache.FlatStorage.Slots.{Entry, Sound, count, allocated, write_self}
use nope.Cache.FlatCache.{
  FlatCache, remove_node, evict_first, evict_lru, evict_size, evict_count, make_room, store_new,
}
use nope.Cache.FlatCache.Plain as Plain
use nope.Cache.FlatCache.Slots.{slots, view, view-write, count_concat, length-map, Sound-same}
use nope.Cache.FlatCache.Refines.{client, Shows, Answers, remove-Shows}

module _ {K V : Type 0} (dec : Discrete K) (most : ℕ) (bound : Option ℕ) where
  -- With the same entries in the slots.
  abbrev pub Leaves : (ℕ → Entry V) → FlatCache K V → List (K × Entry V) → Type 0
  Leaves g c ps = Shows dec most bound c g × (view g c.nodes ≡ ps)

  pub length_of :
      (g : ℕ → Entry V) (c : FlatCache K V) (ps : List (K × Entry V))
      → view g c.nodes ≡ ps
      → length c.nodes ≡ length ps
  length_of g c ps e = sym (length-map (λ (x : K × ℕ). (x.0, g x.1)) c.nodes) ∙ ap length e

  evict_first-Leaves :
      (c : FlatCache K V) (g : ℕ → Entry V) (ns : List (K × ℕ))
      → c.nodes ≡ ns
      → Shows dec most bound c g
      → Leaves g (evict_first dec ns c) (Plain.tail (view g ns))
  unfolding evict_first remove_node
  evict_first-Leaves c g [] e h = (h, ap (view g) e)
  evict_first-Leaves c g ((k, i) ∷ ns) e h =
      let here : map_get dec ((k, i) ∷ ns) k ≡ some i =
        if_pos (dec k k) refl (some i) (map_get dec ns k) in
      let keys : NoDup dec ((k, i) ∷ ns) = subst (NoDup dec) e h.keys in
      let rest : map_delete dec c.nodes k ≡ ns =
        ap (λ l. map_delete dec l k) e
        ∙ if_pos (dec k k) refl (map_delete dec ns k) ((k, i) ∷ map_delete dec ns k)
        ∙ delete_absent dec ns k keys.0 in
      (remove-Shows dec most bound c g h k i (ap (λ l. map_get dec l k) e ∙ here), ap (view g) rest)

  evict_lru-Leaves :
      (c : FlatCache K V) (g : ℕ → Entry V)
      → Shows dec most bound c g
      → Leaves g (evict_lru dec c) (Plain.tail (view g c.nodes))
  unfolding evict_lru
  evict_lru-Leaves c g h = evict_first-Leaves c g c.nodes refl h

  evict_size-Leaves :
      (n sz : ℕ) (c : FlatCache K V) (g : ℕ → Entry V)
      → Shows dec most bound c g
      → length c.nodes ≤ n
      → Leaves g (evict_size dec n sz c) (Plain.trim bound sz (view g c.nodes))
  unfolding evict_size
  evict_size-Leaves zero sz c g h l = elim (List-cases c.nodes) [
    | inl e ↦ (h, ap (view g) e ∙ ap (λ ns. Plain.trim bound sz (view g ns)) (sym e))
    | inr (x, r, e) ↦ let f = ap length e in absurd (ground arith)
  ]
  evict_size-Leaves (suc n) sz c g h l = elim (Bool-cases (over c.max_size (c.total_size + sz))) [
    | inl b ↦
        let (h', e) = evict_lru-Leaves c g h in
        let b' : over bound (Plain.total (view g c.nodes) + sz) ≡ true =
          rw (h.bounded, h.sizes) at b in
        let fewer : length (evict_lru dec c).nodes ≤ n = omega (
          arith,
          length_of g (evict_lru dec c) (Plain.tail (view g c.nodes)) e,
          Plain.length-tail (view g c.nodes),
          length_of g c (view g c.nodes) refl,
        ) in
        let (h'', e') = evict_size-Leaves n sz (evict_lru dec c) g h' fewer in
        rw b (
          h'',
          e' ∙ ap (Plain.trim bound sz) e ∙ sym (Plain.trim-over bound sz (view g c.nodes) b'),
        )
    | inr b ↦
        let b' : over bound (Plain.total (view g c.nodes) + sz) ≡ false =
          rw (h.bounded, h.sizes) at b in
        rw b (h, sym (Plain.trim-kept bound sz (view g c.nodes) b'))
  ]

  evict_count-Leaves :
      (c : FlatCache K V) (g : ℕ → Entry V)
      → Shows dec most bound c g
      → Leaves g (evict_count dec c) (Plain.shorten most (view g c.nodes))
  unfolding evict_count
  evict_count-Leaves c g h =
      let l : length (view g c.nodes) ≡ length c.nodes =
        length-map (λ (x : K × ℕ). (x.0, g x.1)) c.nodes in
      let same : leb most (length (view g c.nodes)) ≡ leb c.max_entries (length c.nodes) =
        let m = h.entries in cc in
      elim (Bool-cases (leb c.max_entries (length c.nodes))) [
        | inl b ↦ let b' = same ∙ b in rw (b, b') (evict_lru-Leaves c g h)
        | inr b ↦ let b' = same ∙ b in rw (b, b') (h, refl)
      ]

  -- What is dropped to make room for a new entry.
  pub make_room-Leaves :
      (sz : ℕ) (c : FlatCache K V) (g : ℕ → Entry V)
      → Shows dec most bound c g
      → Leaves g (make_room dec sz c) (Plain.room most bound sz (view g c.nodes))
  unfolding make_room
  make_room-Leaves sz c g h =
      elim (Bool-cases
        (leb c.max_entries (length c.nodes) || over c.max_size (c.total_size + sz))) [
          | inl b ↦
              let (h', e) = evict_count-Leaves c g h in
              let (h'', e') =
                evict_size-Leaves (length (evict_count dec c).nodes) sz (evict_count dec c) g h'
                  (omega arith) in
              rw b (h'', e' ∙ ap (Plain.trim bound sz) e)
          | inr b ↦
              let l : length (view g c.nodes) ≡ length c.nodes =
                length-map (λ (x : K × ℕ). (x.0, g x.1)) c.nodes in
              let (b1, b2) =
                neither (leb c.max_entries (length c.nodes)) (over c.max_size (c.total_size + sz))
                  b in
              let c1 : leb most (length c.nodes) ≡ false = rw h.entries at b1 in
              let c2 : over bound (Plain.total (view g c.nodes) + sz) ≡ false =
                rw (h.bounded, h.sizes) at b2 in
              rw (b, l, c1) (h, sym (Plain.trim-kept bound sz (view g c.nodes) c2))
        ]
    where
      neither : (a b : Bool) → (a || b) ≡ false → (a ≡ false) × (b ≡ false)
      neither false false e = (refl, refl)
      neither true b e = absurd (cc)
      neither false true e = absurd (cc)

  pub store_new-Answers :
      (c : FlatCache K V) (g : ℕ → Entry V) (k : K) (e : Entry V) (r : Flat.Storage V × Option ℕ)
      → Shows dec most bound c g
      → map_get dec c.nodes k ≡ none
      → length c.nodes < most
      → Sound (allocated (client dec most bound c g) e r)
      → r.0.capacity ≡ most
      → (r.1 ≡ none → ⊥)
      → ((i : ℕ) → r.1 ≡ some i → count i (slots c.nodes) ≡ 0)
      → Answers dec most bound (store_new k e.size c r) (true, view g c.nodes ++ (k, e) ∷ [])
  unfolding store_new
  store_new-Answers c g k e (s, none) h a l so ca no_throw new = absurd (no_throw refl)
  store_new-Answers c g k e (s, some i) h a l so ca no_throw new =
      let g' = Flat.write g i e in
      let ns = c.nodes ++ (k, i) ∷ [] in
      let shown : view g' ns ≡ view g c.nodes ++ (k, e) ∷ [] =
        map-append (λ (y : K × ℕ). (y.0, g' y.1)) c.nodes ((k, i) ∷ [])
        ∙ ap (λ ys. ys ++ (k, g' i) ∷ []) (view-write dec g c.nodes i e (new i refl))
        ∙ ap (λ y. view g c.nodes ++ (k, y) ∷ []) (write_self g i e) in
      let sum = ap Plain.total shown ∙ sum_by-append Plain.size_of (view g c.nodes) ((k, e) ∷ []) in
      (
        refl,
        (
          g',
          record {
            sound =
                Sound-same (record { storage = s; held = i ∷ slots c.nodes; given = g' }) (slots ns)
                  (λ j. let q = count_concat dec c.nodes k i j in ground arith)
                  (omega (
                    arith,
                    length-map (λ (x : K × ℕ). x.1) ns,
                    length-append c.nodes ((k, i) ∷ []),
                    length-map (λ (x : K × ℕ). x.1) c.nodes,
                  ))
                  so;
            keys = NoDup-append dec c.nodes k i h.keys a;
            capacity = ca;
            entries = h.entries;
            bounded = h.bounded;
            sizes = omega (arith, sum, h.sizes);
            few = omega (arith, length-append c.nodes ((k, i) ∷ []));
          },
          shown,
        ),
      )
