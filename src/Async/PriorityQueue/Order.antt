-- ===== src/Async/PriorityQueue/Order.antt =====
-- The loops and the operations keep the array a heap.
use nope.Prelude.{
  ℕ, zero, suc, ◌+◌, ◌-◌, ◌≤◌, ◌<◌, ◌≡◌, ◌≢◌, refl, sym, ◌∙◌, subst, Bool, true, false, ◌&&◌, List,
  [], ◌∷◌, ◌++◌, Option, none, some, ltb, ◌==◌, length, get_elem?, set, length-set,
  get_elem?-set_self, get_elem?-set_ne, get_elem?-some, arith, Bool-cases, inl, inr, ℕ_discrete,
}
use nope.Async.PriorityQueue.{
  parent, left, right, write, swap, drop_last, less, smallest, heapify_up, heapify_down,
}
use nope.Async.PriorityQueue.Sifts.{
  IsOrder, Le, Heap, UpHeap, DownHeap, Swapped, Finds, up_step, down_step, smallest-Finds,
}

module _ {T : Type 0} where
  pub get_beyond : (a : List T) (k : ℕ) → length a ≤ k → get_elem? a k ≡ none
  get_beyond [] k h = refl
  get_beyond (x ∷ a) zero h = absurd (omega (arith, h))
  get_beyond (x ∷ a) (suc k) h = get_beyond a k (omega (arith, h))

  pub get-append_left : (a b : List T) (k : ℕ) → k < length a → get_elem? (a ++ b) k ≡ get_elem? a k
  get-append_left [] b k h = absurd (omega (arith, h))
  get-append_left (x ∷ a) b zero h = refl
  get-append_left (x ∷ a) b (suc k) h = get-append_left a b k (omega (arith, h))

  pub length-write : (a : List T) (i : ℕ) (o : Option T) → length (write a i o) ≡ length a
  length-write a i none = refl
  length-write a i (some v) = length-set a i v

  length-swap : (a : List T) (i j : ℕ) → length (swap a i j) ≡ length a
  length-swap a i j =
      length-write (write a i (get_elem? a j)) j (get_elem? a i) ∙ length-write a i (get_elem? a j)

  pub length-drop_last : (a : List T) → length (drop_last a) ≡ length a - 1
  length-drop_last [] = refl
  length-drop_last (x ∷ []) = refl
  length-drop_last (x ∷ y ∷ a) = omega (arith, length-drop_last (y ∷ a))

  pub get-drop_last :
      (a : List T) (k : ℕ) → k < length a - 1 → get_elem? (drop_last a) k ≡ get_elem? a k
  get-drop_last [] k h = absurd (omega (arith, h))
  get-drop_last (x ∷ []) k h = absurd (omega (arith, h))
  get-drop_last (x ∷ y ∷ a) zero h = refl
  get-drop_last (x ∷ y ∷ a) (suc k) h = get-drop_last (y ∷ a) k (omega (arith, h))

  pub get-write_ne :
      (a : List T) (i k : ℕ) (o : Option T) → i ≢ k → get_elem? (write a i o) k ≡ get_elem? a k
  get-write_ne a i k none n = refl
  get-write_ne a i k (some v) n = get_elem?-set_ne a v n

module _ {T : Type 0} (lt : T → T → Bool) where
  set-Swapped :
      (a : List T) (i j : ℕ) (x y : T)
      → i ≢ j
      → i < length a
      → j < length a
      → get_elem? a i ≡ some x
      → get_elem? a j ≡ some y
      → Swapped lt (get_elem? a) (get_elem? (set (set a i y) j x)) i j
  set-Swapped a i j x y n p q e d = record {
    first = get_elem?-set_ne (set a i y) x (λ k. n (sym k)) ∙ get_elem?-set_self a i y p ∙ sym d;
    second = get_elem?-set_self (set a i y) j x (omega (arith, q, length-set a i y)) ∙ sym e;
    rest = λ k m c.
        get_elem?-set_ne (set a i y) x (λ z. c (sym z)) ∙ get_elem?-set_ne a y (λ z. m (sym z));
  }

  swap-Swapped :
      (a : List T) (i j : ℕ)
      → i ≢ j
      → i < length a
      → j < length a
      → Swapped lt (get_elem? a) (get_elem? (swap a i j)) i j
  swap-Swapped a i j n p q =
      let (x, e) = get_elem?-some a i p in
      let (y, d) = get_elem?-some a j q in
      let eq : swap a i j ≡ set (set a i y) j x = rw e (rw d refl) in
      subst (λ b. Swapped lt (get_elem? a) (get_elem? b) i j) (sym eq)
        (set-Swapped a i j x y n p q e d)

  less_bound : (a : List T) (k : ℕ) (o : Option T) → less lt (get_elem? a k) o ≡ true → k < length a
  less_bound a k o h = elim (Bool-cases (ltb k (length a))) [
    | inl b ↦ ground (arith, b)
    | inr b ↦ let gone = get_beyond a k (ground (arith, b)) in absurd (ground (arith, h, gone))
  ]

  module _ (order : IsOrder lt) where
    pub heapify_up-Heap :
        (n : ℕ) (a : List T) (i : ℕ)
        → i ≤ n
        → i < length a
        → UpHeap lt (get_elem? a) i
        → Heap lt (get_elem? (heapify_up lt n a i))
    unfolding heapify_up
    heapify_up-Heap zero a i l m h = λ j p. h.others j p (omega (arith, l, p))
    heapify_up-Heap (suc n) a i l m h =
        elim (Bool-cases (ltb 0 i && less lt (get_elem? a i) (get_elem? a (parent i)))) [
          | inl b ↦
              let p : 0 < i = ground (arith, b) in
              let d : less lt (get_elem? a i) (get_elem? a (parent i)) ≡ true = ground (arith, b) in
              let w = swap-Swapped a i (parent i) (omega (arith, p)) m (omega (arith, m)) in
              rw b (
                heapify_up-Heap n (swap a i (parent i)) (parent i) (omega (arith, l, p))
                  (omega (arith, m, length-swap a i (parent i)))
                  (up_step lt order (get_elem? a) _ i p d w h))
          | inr b ↦ rw b (λ j p. elim (ℕ_discrete j i) [
            | yes e ↦
                let q : 0 < i = omega (arith, e, p) in
                let d : less lt (get_elem? a i) (get_elem? a (parent i)) ≡ false =
                  ground (arith, b, q) in
                subst (λ k. Le lt (get_elem? a (parent k)) (get_elem? a k)) (sym e) d
            | no c ↦ h.others j p c
          ])
        ]

    Finds-child :
        (r : ℕ → Option T) (i c j : ℕ) → Finds lt r i c → 0 < j → parent j ≡ i → Le lt (r c) (r j)
    Finds-child r i c j f p e = elim (ℕ_discrete j (left i)) [
      | yes d ↦ subst (λ k. Le lt (r c) (r k)) (sym d) f.under_left
      | no d ↦
          let q : j ≡ right i = omega (arith, e, p, d) in
          subst (λ k. Le lt (r c) (r k)) (sym q) f.under_right
    ]

    pub heapify_down-Heap :
        (n : ℕ) (a : List T) (i : ℕ)
        → length a ≤ i + n
        → DownHeap lt (get_elem? a) i
        → Heap lt (get_elem? (heapify_down lt n a i))
    unfolding heapify_down
    heapify_down-Heap zero a i l h = λ j p. elim (ℕ_discrete (parent j) i) [
      | yes e ↦ rw (get_beyond a j (omega (arith, e, p, l))) refl
      | no c ↦ h.others j p c
    ]
    heapify_down-Heap (suc n) a i l h =
        let s = smallest lt (get_elem? a) i in
        let f = smallest-Finds lt order (get_elem? a) i in
        elim (Bool-cases (s == i)) [
          | inl b ↦ rw b (λ j p. elim (ℕ_discrete (parent j) i) [
            | yes e ↦
                let q : s ≡ i = ground (arith, b) in
                subst (λ k. Le lt (get_elem? a k) (get_elem? a j)) (q ∙ sym e)
                  (Finds-child (get_elem? a) i s j f p e)
            | no c ↦ h.others j p c
          ])
          | inr b ↦
              let n' : s ≢ i = ground (arith, b) in
              let (p, e, d) = f.is_child n' in
              let m = less_bound a s (get_elem? a i) d in
              let w = swap-Swapped a i s (omega (arith, e, p)) (omega (arith, e, p, m)) m in
              rw b (
                heapify_down-Heap n (swap a i s) s (omega (arith, l, e, p, length-swap a i s)) (
                  down_step lt order (get_elem? a) _ i s p e d
                    (λ j q g. Finds-child (get_elem? a) i s j f q g) w h))
        ]
