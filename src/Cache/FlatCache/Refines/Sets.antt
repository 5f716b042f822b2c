-- ===== src/Cache/FlatCache/Refines/Sets.antt =====
-- `set`, against the plain cache.
use nope.Prelude.{
  ℕ, ◌<◌, ◌≤◌, ◌≡◌, refl, sym, ap, ◌∙◌, subst, true, [], ◌∷◌, ◌++◌, Option, none, some, length, leb,
  map_get, arith, inl, inr, Bool-cases, List-cases, Option-cases,
}
use nope.Cache.FlatStorage as Flat
use nope.Cache.FlatStorage.Slots.{Entry, Sound, count, op_allocate, allocated}
use nope.Cache.FlatStorage.Slots as Slot
use nope.Cache.FlatStorage.Runs.{Sound-allocate, allocate-throws, allocate-fresh}
use nope.Cache.FlatCache.{FlatCache, set, set_found, expiry, make_room}
use nope.Cache.FlatCache.Plain as Plain
use nope.Cache.FlatCache.Plain.{Op, Answer, gets, sets, asks, deletes, clears, got, took, had, done}
use nope.Cache.FlatCache.Slots.{view, get_view, get_view-none, length-map}
use nope.Cache.FlatCache.Refines.{client, Shows, Answers, update-Becomes}
use nope.Cache.FlatCache.Refines.Evicts.{make_room-Leaves, store_new-Answers, length_of}

capacity-allocate :
    {V : Type 0} (s : Flat.Storage V) (v : V) (sz t : ℕ) (exp sl : Option ℕ)
    → (Flat.allocate s v sz t exp sl).0.capacity ≡ s.capacity
unfolding Flat.allocate
capacity-allocate s v sz t exp sl = elim (List-cases s.free_slots) [
  | inl e ↦ elim (Bool-cases (leb s.capacity s.next_index)) [
    | inl b ↦ rw (e, b) refl
    | inr b ↦ rw (e, b) refl
  ]
  | inr (i, fs, e) ↦ elim (Bool-cases (leb s.capacity i)) [
    | inl b ↦ rw (e, b) refl
    | inr b ↦ rw (e, b) refl
  ]
]

module _ {K V : Type 0} (dec : Discrete K) (most : ℕ) (bound : Option ℕ) where
  get_absent :
      (c : FlatCache K V) (g : ℕ → Entry V) (k : K)
      → map_get dec (view g c.nodes) k ≡ none
      → map_get dec c.nodes k ≡ none
  get_absent c g k e = elim (Option-cases (map_get dec c.nodes k)) [
    | inl f ↦ f
    | inr (i, f) ↦ let q = get_view dec g c.nodes k i f in absurd (cc)
  ]

  module _ (c : FlatCache K V) (g : ℕ → Entry V) (h : Shows dec most bound c g) where
    set_new-Answers :
        (now : ℕ) (k : K) (v : V) (sz : ℕ) (exp sl : Option ℕ)
        → 0 < most
        → map_get dec c.nodes k ≡ none
        → Answers dec most bound (set_found dec now k v sz exp sl none c) (
          true,
          Plain.room most bound sz (view g c.nodes) ++ (k, Plain.new_entry v sz now exp sl) ∷ [],
        )
    unfolding set_found Slot.step
    set_new-Answers now k v sz exp sl pos a =
        let c' = make_room dec sz c in
        let (h', e) = make_room-Leaves dec most bound sz c g h in
        let less : length c'.nodes < most =
          subst (λ n. n < most)
            (sym (length_of dec most bound g c' (Plain.room most bound sz (view g c.nodes)) e))
            (Plain.length-room-lt most bound sz (view g c.nodes) pos (
              subst (λ n. n ≤ most) (sym (length-map (λ (x : K × ℕ). (x.0, g x.1)) c.nodes))
                h.few)) in
        let d = client dec most bound c' g in
        let absent : map_get dec (view g c'.nodes) k ≡ none =
          ap (λ ps. map_get dec ps k) e
          ∙ Plain.get_none-room dec most bound sz (view g c.nodes) k
              (get_view-none dec g c.nodes k a) in
        subst
          (λ ps.
            Answers dec most bound (set_found dec now k v sz exp sl none c)
              (true, ps ++ (k, Plain.new_entry v sz now exp sl) ∷ []))
          e
          (store_new-Answers dec most bound c' g k (Plain.new_entry v sz now exp sl)
            (Flat.allocate c'.storage v sz now exp sl) h' (get_absent c' g k absent) less
            (Sound-allocate d v sz now exp sl h'.sound)
            (capacity-allocate c'.storage v sz now exp sl ∙ h'.capacity)
            (λ t.
              let full = (allocate-throws d v sz now exp sl h'.sound).0 t in
              omega (arith, full, less, h'.capacity, length-map (λ (x : K × ℕ). x.1) c'.nodes))
            (λ i f. allocate-fresh d v sz now i exp sl h'.sound f))

    set_old :
        (now : ℕ) (k : K) (v : V) (sz : ℕ) (exp sl : Option ℕ) (i : ℕ)
        → map_get dec c.nodes k ≡ some i
        → Answers dec most bound
            (set_found dec now k v sz exp sl (some i) c)
            (true, Plain.renew dec k (Plain.new_entry v sz now exp sl) (view g c.nodes))
    unfolding set_found
    set_old now k v sz exp sl i e =
        (refl, update-Becomes dec most bound c g h k i e v sz now exp sl)

    pub set-Answers :
        (now : ℕ) (k : K) (v : V) (sz : ℕ) (ttl sl : Option ℕ)
        → 0 < most
        → Answers dec most bound (set dec now k v sz ttl sl c) (
          true,
          Plain.set_found dec most bound sz k
              (Plain.new_entry v sz now (expiry now ttl) sl)
              (map_get dec (view g c.nodes) k)
              (view g c.nodes),
        )
    unfolding set
    set-Answers now k v sz ttl sl pos = elim (Option-cases (map_get dec c.nodes k)) [
      | inl e ↦
          rw (e, get_view-none dec g c.nodes k e)
            (set_new-Answers now k v sz (expiry now ttl) sl pos e)
      | inr (i, e) ↦
          rw (e, get_view dec g c.nodes k i e) (set_old now k v sz (expiry now ttl) sl i e)
    ]
