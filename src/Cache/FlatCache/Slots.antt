-- ===== src/Cache/FlatCache/Slots.antt =====
-- The nodes of a flat cache, with the slots that they hold and the entries that stand there.
use nope.Prelude.{
  ℕ, suc, ◌+◌, ◌<◌, ◌≡◌, ◌≢◌, refl, ap, ◌∙◌, subst, List, [], ◌∷◌, ◌++◌, none, some, ◌==◌,
  if◌then◌else◌, length, sum_by, map, map_get, map_delete, if_pos, if_neg, arith, get_elem?-some,
}
use nope.Prelude.Keys.{NoDup, delete_absent}
use nope.Cache.FlatStorage.{is_expired, write}
use nope.Cache.FlatStorage.Slots.{Entry, Client, Sound, count, entry, write_ne, held-bound}
use nope.Cache.FlatCache.Plain.{expired}

abbrev pub slots : {K : Type 0} → List (K × ℕ) → List ℕ
slots ns = map (λ x. x.1) ns

abbrev pub view : {K V : Type 0} → (ℕ → Entry V) → List (K × ℕ) → List (K × Entry V)
view g ns = map (λ x. (x.0, g x.1)) ns

module _ {K V : Type 0} (dec : Discrete K) where
  pub get_view-none :
      (g : ℕ → Entry V) (ns : List (K × ℕ)) (k : K)
      → map_get dec ns k ≡ none
      → map_get dec (view g ns) k ≡ none
  get_view-none g [] k h = refl
  get_view-none g ((j, i) ∷ ns) k h = elim (dec j k) [
    | yes e ↦ absurd (ground (arith, h))
    | no n ↦ rw (if_neg (dec j k) n) (get_view-none g ns k (rw (if_neg (dec j k) n) at h))
  ]

  pub get_view :
      (g : ℕ → Entry V) (ns : List (K × ℕ)) (k : K) (i : ℕ)
      → map_get dec ns k ≡ some i
      → map_get dec (view g ns) k ≡ some (g i)
  get_view g [] k i h = absurd (cc)
  get_view g ((j, q) ∷ ns) k i h = elim (dec j k) [
    | yes e ↦
        let f : some q ≡ some i = rw (if_pos (dec j k) e) at h in
        rw (if_pos (dec j k) e) (ground (arith, f))
    | no n ↦ rw (if_neg (dec j k) n) (get_view g ns k i (rw (if_neg (dec j k) n) at h))
  ]

  pub delete_view :
      (g : ℕ → Entry V) (ns : List (K × ℕ)) (k : K)
      → map_delete dec (view g ns) k ≡ view g (map_delete dec ns k)
  delete_view g [] k = refl
  delete_view g ((j, q) ∷ ns) k = elim (dec j k) [
    | yes e ↦ rw (if_pos (dec j k) e, if_pos (dec j k) e) (delete_view g ns k)
    | no n ↦ rw (if_neg (dec j k) n, if_neg (dec j k) n) (ap (◌∷◌ (j, g q)) (delete_view g ns k))
  ]

  -- A write to a slot that no node has is not seen.
  pub view-write :
      (g : ℕ → Entry V) (ns : List (K × ℕ)) (i : ℕ) (e : Entry V)
      → count i (slots ns) ≡ 0
      → view (write g i e) ns ≡ view g ns
  view-write g [] i e h = refl
  view-write g ((j, q) ∷ ns) i e h =
      let n : i ≢ q = λ p. ground arith in
      let r = view-write g ns i e (ground arith) in let s = write_ne g i q e n in cc

module _ {K : Type 0} (dec : Discrete K) where
  -- The node of a key is one node.
  pub delete_slot :
      (ns : List (K × ℕ)) (k : K) (i : ℕ)
      → NoDup dec ns
      → map_get dec ns k ≡ some i
      → (length ns ≡ suc (length (map_delete dec ns k)))
        × ((j : ℕ)
            → count j (slots ns)
              ≡ (if i == j then 1 else 0) + count j (slots (map_delete dec ns k)))
  delete_slot [] k i h e = absurd (cc)
  delete_slot ((j, q) ∷ ns) k i h e = elim (dec j k) [
    | yes p ↦
        let same : some q ≡ some i = rw (if_pos (dec j k) p) at e in
        let gone = delete_absent dec ns k (subst (λ a. map_get dec ns a ≡ none) p h.0) in
        rw (if_pos (dec j k) p, gone) (refl, λ b. ground (arith, same))
    | no n ↦
        let (l, c) = delete_slot ns k i h.1 (rw (if_neg (dec j k) n) at e) in
        rw (if_neg (dec j k) n) (ap suc l, λ j. let r = c j in ground arith)
  ]

  pub count_concat :
      (ns : List (K × ℕ)) (k : K) (i j : ℕ)
      → count j (slots (ns ++ (k, i) ∷ [])) ≡ (if i == j then 1 else 0) + count j (slots ns)
  count_concat [] k i j = ground arith
  count_concat ((a, q) ∷ ns) k i j = let r = count_concat ns k i j in ground arith

module _ {K V : Type 0} (dec : Discrete K) where
  pub sum_view :
      (f : Entry V → ℕ) (g : ℕ → Entry V) (ns : List (K × ℕ)) (k : K) (i : ℕ)
      → NoDup dec ns
      → map_get dec ns k ≡ some i
      → sum_by (λ (x : K × Entry V). f x.1) (view g ns)
        ≡ f (g i) + sum_by (λ (x : K × Entry V). f x.1) (view g (map_delete dec ns k))
  sum_view f g [] k i h e = absurd (cc)
  sum_view f g ((j, q) ∷ ns) k i h e = elim (dec j k) [
    | yes p ↦
        let same : some q ≡ some i = rw (if_pos (dec j k) p) at e in
        let gone = delete_absent dec ns k (subst (λ a. map_get dec ns a ≡ none) p h.0) in
        rw (if_pos (dec j k) p, gone) (ground (arith, same))
    | no n ↦
        let r = sum_view f g ns k i h.1 (rw (if_neg (dec j k) n) at e) in
        rw (if_neg (dec j k) n) (omega (arith, r))
  ]

pub length-map : {A B : Type 0} (f : A → B) (xs : List A) → length (map f xs) ≡ length xs
length-map f [] = refl
length-map f (x ∷ xs) = ap suc (length-map f xs)

module _ {V : Type 0} where
  -- Only the counts of the slots that are held matter.
  pub Sound-same :
      (d : Client V) (held' : List ℕ)
      → ((k : ℕ) → count k held' ≡ count k d.held)
      → length held' ≡ length d.held
      → Sound d
      → Sound (record d { held = held' })
  Sound-same d held' e l h = record {
    split = λ k. rw (e k) (h.split k);
    total = rw l h.total;
    kept = λ k p. h.kept k (subst (λ n. 0 < n) (e k) p);
    sizes_len = h.sizes_len;
    last_len = h.last_len;
  }

  -- A held slot is expired where its entry is.
  pub held_expired :
      (d : Client V) (i now : ℕ)
      → Sound d
      → 0 < count i d.held
      → is_expired d.storage i now ≡ expired now (d.given i)
  held_expired d i now h p =
      let (a, e) =
        get_elem?-some d.storage.last_access i (omega (arith, held-bound d i h p, h.last_len)) in
      let here : is_expired d.storage i now ≡ expired now (entry d.storage i) = rw e refl in
      here ∙ ap (expired now) (h.kept i p)
