-- ===== src/Cache/Lru/Recency.antt =====
-- What is evicted, and that a value can be read after it is set.
use nope.Prelude.{
  ℕ, zero, suc, ◌-◌, ◌≤◌, ◌≡◌, refl, sym, ap, ◌∙◌, subst, false, ◌||◌, List, [], ◌∷◌, ◌++◌, Option,
  none, some, ltb, if_pos, if_neg, length, sum_by, map_get, map_delete, append_assoc, arith,
  Bool-cases, inl, inr, if_elim,
}
use nope.Cache.Lru.{
  Entry, Cache, is_expired, past, over, sweep_first, sweep, evict_size, evict_count, swept, evict,
  get, new_entry, put_found, put, set,
}
use nope.Prelude.Keys.{NoDup}
use nope.Cache.Lru.Sizes.{size_of, Sound}
use nope.Cache.Lru.Bounds.{swept-Passed, put_Sound, evict-Sound}

-- The list is the end of the other.
abbrev pub IsEnd : {A : Type 0} → List A → List A → Type 0
IsEnd {A} ns ms = (before : List A) × (before ++ ns ≡ ms)

IsEnd-cons : {A : Type 0} (x : A) (ns ms : List A) → IsEnd ns ms → IsEnd ns (x ∷ ms)
IsEnd-cons x ns ms (before, e) = (x ∷ before, ap (◌∷◌ x) e)

-- The list ends in the element.
abbrev Ends : {A : Type 0} → A → List A → Type 0
Ends {A} x ns = (rest : List A) × (ns ≡ rest ++ x ∷ [])

Ends-cons : {A : Type 0} (x y : A) (ns : List A) → Ends x ns → Ends x (y ∷ ns)
Ends-cons x y ns (rest, e) = (y ∷ rest, ap (◌∷◌ y) e)

module _ {K V : Type 0} where
  evict_size-IsEnd :
      (bound : Option ℕ) (ns : List (K × Entry V)) (n : ℕ) → IsEnd (evict_size bound ns n).0 ns
  unfolding evict_size
  evict_size-IsEnd bound [] n = ([], refl)
  evict_size-IsEnd bound (x ∷ ns) n = elim (Bool-cases (over bound n)) [
    | inl b ↦ rw b (IsEnd-cons x _ ns (evict_size-IsEnd bound ns (n - x.1.sz)))
    | inr b ↦ rw b ([], refl)
  ]

  evict_count-IsEnd :
      (bound : ℕ) (ns : List (K × Entry V)) (n : ℕ) → IsEnd (evict_count bound ns n).0 ns
  unfolding evict_count
  evict_count-IsEnd bound [] n = ([], refl)
  evict_count-IsEnd bound (x ∷ ns) n = elim (Bool-cases (ltb bound (length (x ∷ ns)))) [
    | inl b ↦ rw b (IsEnd-cons x _ ns (evict_count-IsEnd bound ns (n - x.1.sz)))
    | inr b ↦ rw b ([], refl)
  ]

  sweep_last :
      (now n : ℕ) (rest : List (K × Entry V)) (x : K × Entry V)
      → is_expired now x.1 ≡ false
      → Ends x (sweep_first now n (rest ++ x ∷ [])).0
  unfolding sweep_first
  sweep_last now zero rest x h = (rest, refl)
  sweep_last now (suc zero) [] x h = rw h ([], refl)
  sweep_last now (suc (suc n)) [] x h = rw h ([], refl)
  sweep_last now (suc n) (y ∷ rest) x h = elim (Bool-cases (is_expired now y.1)) [
    | inl b ↦ rw b (sweep_last now n rest x h)
    | inr b ↦ rw b (Ends-cons x y _ (sweep_last now n rest x h))
  ]

  evict_size_last :
      (bound : Option ℕ) (rest : List (K × Entry V)) (x : K × Entry V) (n : ℕ)
      → over bound x.1.sz ≡ false
      → n ≡ sum_by size_of (rest ++ x ∷ [])
      → Ends x (evict_size bound (rest ++ x ∷ []) n).0
  unfolding evict_size
  evict_size_last bound [] x n h s =
      let eq : n ≡ x.1.sz = omega (arith, s) in
      let small : over bound n ≡ false = ap (over bound) eq ∙ h in rw small ([], refl)
  evict_size_last bound (y ∷ rest) x n h s = elim (Bool-cases (over bound n)) [
    | inl b ↦ rw b (evict_size_last bound rest x (n - y.1.sz) h (omega (arith, s)))
    | inr b ↦ rw b (y ∷ rest, refl)
  ]

  evict_count_last :
      (bound : ℕ) (rest : List (K × Entry V)) (x : K × Entry V) (n : ℕ)
      → 1 ≤ bound
      → Ends x (evict_count bound (rest ++ x ∷ []) n).0
  unfolding evict_count
  evict_count_last bound [] x n h =
      let small : ltb bound 1 ≡ false = ground arith in rw small ([], refl)
  evict_count_last bound (y ∷ rest) x n h =
      elim (Bool-cases (ltb bound (length (y ∷ rest ++ x ∷ [])))) [
        | inl b ↦ rw b (evict_count_last bound rest x (n - y.1.sz) h)
        | inr b ↦ rw b (y ∷ rest, refl)
      ]

  swept_last :
      (c : Cache K V) (now : ℕ) (rest : List (K × Entry V)) (x : K × Entry V)
      → is_expired now x.1 ≡ false
      → c.nodes ≡ rest ++ x ∷ []
      → Ends x (swept c now).0
  unfolding swept sweep
  swept_last c now rest x h e =
      if_elim (λ (r : List (K × Entry V) × ℕ). Ends x r.0) c.lazy_expiration
        (λ b.
          if_elim (λ (r : List (K × Entry V) × ℕ). Ends x r.0)
            (over c.max_size c.total_size || ltb c.max_entries (length c.nodes))
            {x = sweep_first now 10 c.nodes} {y = (c.nodes, 0)}
            (λ d. rw e (sweep_last now 10 rest x h)) (λ d. (rest, e)))
        (λ b. rw e (sweep_last now (length (rest ++ x ∷ [])) rest x h))

  -- The end of the nodes that the sweep leaves is left by an eviction: those that go are the least
  -- recently used, and none goes that was used after one that stays.
  pub evict-IsEnd : (c : Cache K V) (now : ℕ) → IsEnd (evict c now).nodes (swept c now).0
  unfolding evict
  evict-IsEnd c now =
      let (ns, freed) = swept c now in
      let (b1, e1) = evict_size-IsEnd c.max_size ns (c.total_size - freed) in
      let (ns', n') = evict_size c.max_size ns (c.total_size - freed) in
      let (b2, e2) = evict_count-IsEnd c.max_entries ns' n' in
      (b1 ++ b2, append_assoc b1 b2 _ ∙ ap (◌++◌ b1) e2 ∙ e1)

past_less :
    (at : Option ℕ) (now later : ℕ) → now ≤ later → past later at ≡ false → past now at ≡ false
past_less none now later l h = refl
past_less (some t) now later l h = ground (arith, l, h)

module _ {K V : Type 0} (dec : Discrete K) where
  map_get_last :
      (rest : List (K × Entry V)) (k : K) (e : Entry V)
      → NoDup dec (rest ++ (k, e) ∷ [])
      → map_get dec (rest ++ (k, e) ∷ []) k ≡ some e
  map_get_last [] k e h = if_pos (dec k k) refl (some e) none
  map_get_last ((j, x) ∷ rest) k e h = elim (dec j k) [
    | yes p ↦
        let found = map_get_last rest k e h.1 in
        let gone = subst (λ q. map_get dec (rest ++ (k, e) ∷ []) q ≡ none) p h.0 in
        absurd (ground (arith, found, gone))
    | no n ↦ rw (if_neg (dec j k) n) (map_get_last rest k e h.1)
  ]

  evict_last :
      (c : Cache K V) (now : ℕ) (rest : List (K × Entry V)) (x : K × Entry V)
      → Sound dec c
      → 1 ≤ c.max_entries
      → over c.max_size x.1.sz ≡ false
      → is_expired now x.1 ≡ false
      → c.nodes ≡ rest ++ x ∷ []
      → Ends x (evict c now).nodes
  unfolding evict
  evict_last c now rest x s one small fresh e =
      let (r1, e1) = swept_last c now rest x fresh e in
      let (keys, sizes, fewer) = swept-Passed dec c now s.keys in
      let (ns, freed) = swept c now in
      let total : c.total_size - freed ≡ sum_by size_of (r1 ++ x ∷ []) =
        omega (arith, s.sizes, sizes, ap (sum_by size_of) e1) in
      let (r2, e2) : Ends x (evict_size c.max_size ns (c.total_size - freed)).0 =
        subst (λ q. Ends x (evict_size c.max_size q (c.total_size - freed)).0) (sym e1)
          (evict_size_last c.max_size r1 x _ small total) in
      let (ns', n') = evict_size c.max_size ns (c.total_size - freed) in
      subst (λ q. Ends x (evict_count c.max_entries q n').0) (sym e2)
        (evict_count_last c.max_entries r2 x n' one)

  get_ended :
      (c : Cache K V) (k : K) (e : Entry V) (later : ℕ)
      → NoDup dec c.nodes
      → Ends (k, e) c.nodes
      → is_expired later e ≡ false
      → (get dec c k later).1 ≡ some e.v
  unfolding get
  get_ended c k e later keys (rest, eq) fresh =
      let found : map_get dec c.nodes k ≡ some e =
        ap (λ ns. map_get dec ns k) eq ∙ map_get_last rest k e (subst (NoDup dec) eq keys) in
      rw found (rw fresh refl)

  put-Ends :
      (c : Cache K V) (k : K) (e : Entry V) (old : Option (Entry V))
      → Ends (k, e) (put_found dec c k e old).nodes
  put-Ends c k e none = (c.nodes, refl)
  put-Ends c k e (some old) = (map_delete dec c.nodes k, refl)

  put-max :
      (c : Cache K V) (k : K) (e : Entry V) (old : Option (Entry V))
      → ((put_found dec c k e old).max_entries ≡ c.max_entries)
        × ((put_found dec c k e old).max_size ≡ c.max_size)
  put-max c k e none = (refl, refl)
  put-max c k e (some old) = (refl, refl)

  -- In a cache whose total is the sum of the sizes of its entries, with one node for each key, that
  -- may hold an entry: a value that is not over the maximal size alone is what `get` of its key
  -- returns right after `set`, as long as its time to live lasts.
  pub get-set :
      (c : Cache K V) (k : K) (v : V) (ttl sliding : Option ℕ) (sz now later : ℕ)
      → Sound dec c
      → 1 ≤ c.max_entries
      → over c.max_size sz ≡ false
      → now ≤ later
      → is_expired later (new_entry v ttl sliding sz now) ≡ false
      → (get dec (set dec c k v ttl sliding sz now) k later).1 ≡ some v
  unfolding set put
  get-set c k v ttl sliding sz now later s one small l fresh =
      let e = new_entry v ttl sliding sz now in
      let c' = put_found dec c k e (map_get dec c.nodes k) in
      let (rest, eq) = put-Ends c k e (map_get dec c.nodes k) in
      let (m, b) = put-max c k e (map_get dec c.nodes k) in
      let sound = put_Sound dec c k e _ s refl in
      let last =
        evict_last c' now rest (k, e) sound (subst (λ q. 1 ≤ q) (sym m) one)
          (subst (λ q. over q sz ≡ false) (sym b) small) (past_less e.exp now later l fresh) eq in
      get_ended (evict c' now) k e later (evict-Sound dec c' now sound).0.keys last fresh
