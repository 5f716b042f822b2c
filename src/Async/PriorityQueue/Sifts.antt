-- ===== src/Async/PriorityQueue/Sifts.antt =====
-- One step of each loop, on the reads of an array.
use nope.Prelude.{
  ℕ, ◌<◌, ◌≡◌, ◌≢◌, refl, sym, ap, ◌∙◌, subst, Bool, true, false, Option, none, some, arith,
  Bool-cases, inl, inr, ℕ_discrete,
}
use nope.Async.PriorityQueue.{parent, left, right, less, smallest}

-- What the heap asks of its order.
pub record IsOrder {T : Type 0} (lt : T → T → Bool) : Type 0 where
  pub asym : (x y : T) → lt x y ≡ true → lt y x ≡ false
  pub trans : (x y z : T) → lt y x ≡ false → lt z y ≡ false → lt z x ≡ false

module _ {T : Type 0} (lt : T → T → Bool) where
  abbrev pub Le : Option T → Option T → Type 0
  Le o p = less lt p o ≡ false

  -- No element is less than its parent.
  abbrev pub Heap : (ℕ → Option T) → Type 0
  Heap r = (j : ℕ) → 0 < j → Le (r (parent j)) (r j)

  -- A heap but for the element `i` and its parent.
  pub record UpHeap (r : ℕ → Option T) (i : ℕ) : Type 0 where
    pub others : (j : ℕ) → 0 < j → j ≢ i → Le (r (parent j)) (r j)
    pub across : (j : ℕ) → 0 < j → parent j ≡ i → 0 < i → Le (r (parent i)) (r j)

  -- A heap but for the element `i` and its children.
  pub record DownHeap (r : ℕ → Option T) (i : ℕ) : Type 0 where
    pub others : (j : ℕ) → 0 < j → parent j ≢ i → Le (r (parent j)) (r j)
    pub across : (j : ℕ) → 0 < j → parent j ≡ i → 0 < i → Le (r (parent i)) (r j)

  pub record Swapped (r s : ℕ → Option T) (i j : ℕ) : Type 0 where
    pub first : s i ≡ r j
    pub second : s j ≡ r i
    pub rest : (k : ℕ) → k ≢ i → k ≢ j → s k ≡ r k

  module _ (order : IsOrder lt) where
    pub Le-trans : (o p q : Option T) → Le o p → Le p q → Le o q
    Le-trans o p none h g = refl
    Le-trans o none (some z) h g = cc
    Le-trans none (some y) (some z) h g = cc
    Le-trans (some x) (some y) (some z) h g = order.trans x y z h g

    pub less-Le : (o p : Option T) → less lt o p ≡ true → Le o p
    less-Le none p h = cc
    less-Le (some x) none h = refl
    less-Le (some x) (some y) h = order.asym x y h

    pub Le-refl : (o : Option T) → Le o o
    Le-refl o = elim (Bool-cases (less lt o o)) [ inl b ↦ less-Le o o b | inr b ↦ b ]

  pub Le-both : {o o' p p' : Option T} → o' ≡ o → p' ≡ p → Le o p → Le o' p'
  Le-both {o} {o'} {p} {p'} e d h = subst (λ x. Le x p') (sym e) (subst (λ x. Le o x) (sym d) h)

  module _ (order : IsOrder lt) (r s : ℕ → Option T) where
    -- An element less than its parent is swapped with it.
    pub up_step :
        (i : ℕ)
        → 0 < i
        → less lt (r i) (r (parent i)) ≡ true
        → Swapped r s i (parent i)
        → UpHeap r i
        → UpHeap s (parent i)
    up_step i p b w h = record {
      others = λ j q n. elim (ℕ_discrete j i) [
        | yes e ↦
            Le-both (ap (λ k. s (parent k)) e ∙ w.second) (ap s e ∙ w.first)
              (less-Le order (r i) (r (parent i)) b)
        | no m ↦ elim (ℕ_discrete (parent j) i) [
          | yes e ↦ Le-both (ap s e ∙ w.first) (w.rest j m n) (h.across j q e p)
          | no c ↦ elim (ℕ_discrete (parent j) (parent i)) [
            | yes e ↦ Le-both (ap s e ∙ w.second) (w.rest j m n) (
                Le-trans order (r i) (r (parent i)) (r j) (less-Le order (r i) (r (parent i)) b)
                  (subst (λ k. Le (r k) (r j)) e (h.others j q m)))
            | no d ↦ Le-both (w.rest (parent j) c d) (w.rest j m n) (h.others j q m)
          ]
        ]
      ];
      across = λ j q e p'.
          let up = w.rest (parent (parent i)) (omega arith) (omega arith) in
          let above = h.others (parent i) p' (omega arith) in
          elim (ℕ_discrete j i) [
            | yes d ↦ Le-both up (ap s d ∙ w.first) above
            | no m ↦ Le-both up (w.rest j m (omega (arith, e))) (
                Le-trans order (r (parent (parent i))) (r (parent i)) (r j) above
                  (subst (λ k. Le (r k) (r j)) e (h.others j q m)))
          ];
    }

    -- A child that no child is less than, and that is less than its parent, is swapped with it.
    pub down_step :
        (i c : ℕ)
        → 0 < c
        → parent c ≡ i
        → less lt (r c) (r i) ≡ true
        → ((j : ℕ) → 0 < j → parent j ≡ i → Le (r c) (r j))
        → Swapped r s i c
        → DownHeap r i
        → DownHeap s c
    down_step i c p e b least w h = record {
      others = λ j q n. elim (ℕ_discrete (parent j) i) [
        | yes d ↦ elim (ℕ_discrete j c) [
          | yes m ↦ Le-both (ap s d ∙ w.first) (ap s m ∙ w.second) (less-Le order (r c) (r i) b)
          | no m ↦ Le-both (ap s d ∙ w.first) (w.rest j (omega (arith, d, q)) m) (least j q d)
        ]
        | no d ↦ elim (ℕ_discrete j i) [
          | yes m ↦ Le-both (w.rest (parent j) d n) (ap s m ∙ w.first) (
              subst (λ k. Le (r (parent k)) (r c)) (sym m)
                (h.across c p e (subst (λ k. 0 < k) m q)))
          | no m ↦
              Le-both (w.rest (parent j) d n) (w.rest j m (λ k. d (ap parent k ∙ e)))
                (h.others j q d)
        ]
      ];
      across = λ j q d p'.
          Le-both (ap s e ∙ w.first) (w.rest j (omega (arith, d, e)) (omega (arith, d)))
            (subst (λ k. Le (r k) (r j)) d (h.others j q (omega (arith, d, e))));
    }

  -- What `heapifyDown` finds at an index: a child less than the element and not more than either
  -- child, or that the element is not more than them.
  pub record Finds (r : ℕ → Option T) (i c : ℕ) : Type 0 where
    pub under_left : Le (r c) (r (left i))
    pub under_right : Le (r c) (r (right i))
    pub is_child : c ≢ i → (0 < c) × (parent c ≡ i) × (less lt (r c) (r i) ≡ true)

  less_trans :
      IsOrder lt → (o p q : Option T) → less lt o p ≡ true → less lt p q ≡ true → less lt o q ≡ true
  less_trans order o p q h g = elim (Bool-cases (less lt o q)) [
    | inl e ↦ e
    | inr e ↦ let no = Le-trans order q o p e (less-Le order o p h) in absurd (cc)
  ]

  pub smallest-Finds : IsOrder lt → (r : ℕ → Option T) (i : ℕ) → Finds r i (smallest lt r i)
  smallest-Finds order r i = elim (Bool-cases (less lt (r (left i)) (r i))) [
    | inl b ↦ elim (Bool-cases (less lt (r (right i)) (r (left i)))) [
      | inl d ↦ rw b (
          rw d (record {
            under_left = less-Le order _ _ d;
            under_right = Le-refl order _;
            is_child = λ n. (omega arith, omega arith, less_trans order _ _ _ d b);
          }))
      | inr d ↦ rw b (
          rw d (record {
            under_left = Le-refl order _;
            under_right = d;
            is_child = λ n. (omega arith, omega arith, b);
          }))
    ]
    | inr b ↦ elim (Bool-cases (less lt (r (right i)) (r i))) [
      | inl d ↦ rw b (
          rw d (record {
            under_left = Le-trans order _ _ _ (less-Le order _ _ d) b;
            under_right = Le-refl order _;
            is_child = λ n. (omega arith, omega arith, d);
          }))
      | inr d ↦
          rw b (rw d (record { under_left = b; under_right = d; is_child = λ n. absurd (n refl) }))
    ]
  ]
