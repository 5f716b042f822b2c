-- ===== src/Cache/FlatCache/Refines.antt =====
-- Each operation of the flat cache does what the plain one does.
pub mod Evicts
pub mod Sets
use nope.Prelude.{
  ℕ, suc, ◌+◌, ◌-◌, ◌<◌, ◌≤◌, ◌≡◌, ◌≢◌, refl, sym, ap, ◌∙◌, subst, Bool, true, false, List, [], ◌∷◌,
  ◌++◌, Option, none, some, ltb, ◌==◌, if◌then◌else◌, length, sum_by, map, map_get, map_delete,
  arith, inl, inr, ℕ_discrete, lt→ltb, map_get-delete_self, map-append, sum_by-append,
  length-append, length-set, Bool-cases,
}
use nope.Prelude.Keys.{NoDup, NoDup-delete, NoDup-append}
use nope.Cache.FlatStorage as Flat
use nope.Cache.FlatStorage.Slots.{
  Entry, Client, Sound, count, remove_one, count-remove, count-remove_ne, length-remove, holds,
  step, change, write_self, entry, entry-stored, entry-stored_ne, Sound-change, op_free,
  op_set_last_access, held-bound,
}
use nope.Cache.FlatStorage.Runs.{Sound-free, Sound-set_last_access}
use nope.Cache.FlatCache.{FlatCache, remove_node, move_to_head, get_found, written, has_found}
use nope.Cache.FlatCache.Plain as Plain
use nope.Cache.FlatCache.Slots.{
  slots, view, get_view, get_view-none, delete_view, view-write, delete_slot, count_concat,
  sum_view, length-map, Sound-same, held_expired,
}
use nope.Cache.FlatCache.Held.{free_held, touch_held, write_held}

module _ {K V : Type 0} (dec : Discrete K) (most : ℕ) (bound : Option ℕ) where
  abbrev pub client : FlatCache K V → (ℕ → Entry V) → Client V
  client c g = record { storage = c.storage; held = slots c.nodes; given = g }

  -- The nodes hold the slots of the storage, in which `g` stands.
  pub record Shows (c : FlatCache K V) (g : ℕ → Entry V) : Type 0 where
    pub sound : Sound (client c g)
    pub keys : NoDup dec c.nodes
    pub capacity : c.storage.capacity ≡ most
    pub entries : c.max_entries ≡ most
    pub bounded : c.max_size ≡ bound
    pub sizes : c.total_size ≡ Plain.total (view g c.nodes)
    pub few : length c.nodes ≤ most

  -- The cache is the plain one, spread over slots.
  abbrev pub Becomes : FlatCache K V → List (K × Entry V) → Type 0
  Becomes c ps = (g : ℕ → Entry V) × Shows c g × (view g c.nodes ≡ ps)

  abbrev pub Answers : {R : Type 0} → R × FlatCache K V → R × List (K × Entry V) → Type 0
  Answers r q = (r.0 ≡ q.0) × Becomes r.1 q.1

  module _ (c : FlatCache K V) (g : ℕ → Entry V) (h : Shows c g) (k : K) (i : ℕ)
      (e : map_get dec c.nodes k ≡ some i) where
    held : 0 < count i (slots c.nodes)
    held = let r = (delete_slot dec c.nodes k i h.keys e).1 i in ground arith

    size_at : Flat.get_size c.storage i ≡ (g i).size
    size_at = ap (λ x. x.size) (h.sound.kept i held)

    taken :
        (j : ℕ)
        → count j (slots (map_delete dec c.nodes k)) ≡ count j (remove_one i (slots c.nodes))
    taken j =
        let r = (delete_slot dec c.nodes k i h.keys e).1 j in
        elim (ℕ_discrete i j) [
          | yes p ↦
              let q =
                subst (λ a. suc (count a (remove_one i (slots c.nodes))) ≡ count a (slots c.nodes))
                  p (count-remove i (slots c.nodes) held) in
              ground arith
          | no n ↦ let q = count-remove_ne i j (slots c.nodes) n in ground arith
        ]

    pub remove-Shows : Shows (remove_node dec k i c) g
    unfolding remove_node Flat.free
    remove-Shows =
        let l = (delete_slot dec c.nodes k i h.keys e).0 in
        let ns = map_delete dec c.nodes k in
        record {
          sound =
              Sound-same
                (record (client c g) {
                  storage = Flat.free c.storage i;
                  held = remove_one i (slots c.nodes);
                })
                (slots ns) taken
                (omega (
                  arith,
                  l,
                  length-map (λ (x : K × ℕ). x.1) ns,
                  length-map (λ (x : K × ℕ). x.1) c.nodes,
                  length-remove i (slots c.nodes) held,
                ))
                (free_held (client c g) i h.sound held);
          keys = NoDup-delete dec c.nodes k h.keys;
          capacity = h.capacity;
          entries = h.entries;
          bounded = h.bounded;
          sizes =
              omega (arith, h.sizes, size_at, sum_view dec (λ x. x.size) g c.nodes k i h.keys e);
          few = omega (arith, h.few, l);
        }

    pub removed : view g (remove_node dec k i c).nodes ≡ map_delete dec (view g c.nodes) k
    unfolding remove_node
    removed = sym (delete_view dec g c.nodes k)

    alone : count i (slots (map_delete dec c.nodes k)) ≡ 0
    alone =
        let r = (delete_slot dec c.nodes k i h.keys e).1 i in
        let q = h.sound.split i in ground arith

    pub renew-Becomes :
        (s : Flat.Storage V) (x : Entry V) (n : ℕ)
        → Sound (record (client c g) { storage = s; given = Flat.write g i x })
        → s.capacity ≡ most
        → n ≡ c.total_size - (g i).size + x.size
        → Becomes
            (move_to_head dec k i (record c { storage = s; total_size = n }))
            (Plain.renew dec k x (view g c.nodes))
    renew-Becomes s x n so cap tot =
        let ns = map_delete dec c.nodes k in
        let g' = Flat.write g i x in
        let (l, cs) = delete_slot dec c.nodes k i h.keys e in
        let shown : view g' (ns ++ (k, i) ∷ []) ≡ Plain.renew dec k x (view g c.nodes) =
          map-append (λ (y : K × ℕ). (y.0, g' y.1)) ns ((k, i) ∷ [])
          ∙ ap (λ ys. ys ++ (k, g' i) ∷ [])
              (view-write dec g ns i x alone ∙ sym (delete_view dec g c.nodes k))
          ∙ ap (λ y. map_delete dec (view g c.nodes) k ++ (k, y) ∷ []) (write_self g i x) in
        let sum =
          ap Plain.total shown
          ∙ sum_by-append Plain.size_of (map_delete dec (view g c.nodes) k) ((k, x) ∷ [])
          ∙ ap (λ ys. Plain.total ys + (x.size + 0)) (delete_view dec g c.nodes k) in
        (
          g',
          record {
            sound =
                Sound-same (record (client c g) { storage = s; given = g' })
                  (slots (ns ++ (k, i) ∷ [])) (λ j. count_concat dec ns k i j ∙ sym (cs j))
                  (omega (
                    arith,
                    l,
                    length-map (λ (x : K × ℕ). x.1) (ns ++ (k, i) ∷ []),
                    length-append ns ((k, i) ∷ []),
                    length-map (λ (x : K × ℕ). x.1) c.nodes,
                  ))
                  so;
            keys =
                NoDup-append dec ns k i (NoDup-delete dec c.nodes k h.keys)
                  (map_get-delete_self dec c.nodes k);
            capacity = cap;
            entries = h.entries;
            bounded = h.bounded;
            sizes =
                omega (arith, sum, tot, h.sizes, sum_view dec (λ x. x.size) g c.nodes k i h.keys e);
            few = omega (arith, h.few, l, length-append ns ((k, i) ∷ []));
          },
          shown,
        )

    pub get_found-Answers :
        (now : ℕ)
        → Answers
            (get_found dec now k (some i) c)
            (Plain.get_found dec now k (some (g i)) (view g c.nodes))
    unfolding get_found
    get_found-Answers now = elim (Bool-cases (Plain.expired now (g i))) [
      | inl b ↦
          rw (held_expired (client c g) i now h.sound held ∙ b, b)
            (refl, (g, remove-Shows, removed))
      | inr b ↦
          rw (held_expired (client c g) i now h.sound held ∙ b, b)
            (
              ap (λ x. x.value) (h.sound.kept i held),
              renew-Becomes (Flat.set_last_access c.storage i now)
                  (record (g i) { last_access = now }) c.total_size
                  (touch_held (client c g) i now h.sound held) h.capacity
                  (omega (arith, h.sizes, sum_view dec (λ x. x.size) g c.nodes k i h.keys e)),
            )
    ]

    pub has_found-Answers :
        (now : ℕ)
        → Answers
            (has_found dec now k (some i) c)
            (Plain.has_found dec now k (some (g i)) (view g c.nodes))
    unfolding has_found
    has_found-Answers now = elim (Bool-cases (Plain.expired now (g i))) [
      | inl b ↦
          rw (held_expired (client c g) i now h.sound held ∙ b, b)
            (refl, (g, remove-Shows, removed))
      | inr b ↦ rw (held_expired (client c g) i now h.sound held ∙ b, b) (refl, (g, h, refl))
    ]

    pub update-Becomes :
        (v : V) (sz now : ℕ) (exp sl : Option ℕ)
        → Becomes
            (move_to_head dec k i (record c {
              storage = written c.storage i v sz now exp sl;
              total_size = c.total_size - Flat.get_size c.storage i + sz;
            }))
            (Plain.renew dec k (Plain.new_entry v sz now exp sl) (view g c.nodes))
    update-Becomes v sz now exp sl =
        renew-Becomes (written c.storage i v sz now exp sl) (Plain.new_entry v sz now exp sl)
          (c.total_size - Flat.get_size c.storage i + sz)
          (write_held (client c g) i v sz now exp sl h.sound held) h.capacity
          (ap (λ n. c.total_size - n + sz) size_at)
