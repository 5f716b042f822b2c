-- ===== src/Async/PriorityQueue/Runs.antt =====
-- Histories of a queue without a capacity.
use nope.Prelude.{
  ℕ, zero, suc, ◌-◌, ◌≤◌, ◌<◌, ◌≡◌, ◌≢◌, refl, sym, ◌∙◌, Bool, false, List, [], ◌∷◌, ◌++◌, Option,
  none, ltb, length, get_elem?, length-append, arith, Bool-cases, inl, inr, if_elim,
}
use nope.Async.PriorityQueue.{
  PriorityQueue, parent, full, create, write, drop_last, last_of, push, pop,
}
use nope.Async.PriorityQueue.Sifts.{IsOrder, Le, Heap, UpHeap, DownHeap, Le-trans, Le-refl, Le-both}
use nope.Async.PriorityQueue.Order.{
  get_beyond, get-append_left, length-write, length-drop_last, get-drop_last, get-write_ne,
  heapify_up-Heap, heapify_down-Heap,
}

pub data Call (T : Type 0) : Type 0 where
  pushes : T → Call T
  pops : Call T

module _ {T : Type 0} (lt : T → T → Bool) where
  pub step : PriorityQueue T → Call T → PriorityQueue T
  step q (pushes x) = (push lt q x).0
  step q pops = (pop lt q).0

  pub run : PriorityQueue T → List (Call T) → PriorityQueue T
  unfolding step
  run q [] = q
  run q (x ∷ xs) = run (step q x) xs

  abbrev pub IsHeap : PriorityQueue T → Type 0
  IsHeap q = Heap lt (get_elem? q.a)

  beyond_Le : (a : List T) (o : Option T) (k : ℕ) → length a ≤ k → Le lt o (get_elem? a k)
  beyond_Le a o k h = rw (get_beyond a k h) refl

  append-UpHeap :
      (a : List T) (x : T) → Heap lt (get_elem? a) → UpHeap lt (get_elem? (a ++ x ∷ [])) (length a)
  append-UpHeap a x h = record {
    others = λ j p n. elim (Bool-cases (ltb j (length a))) [
      | inl b ↦
          Le-both lt (get-append_left a (x ∷ []) (parent j) (ground (arith, b)))
            (get-append_left a (x ∷ []) j (ground (arith, b))) (h j p)
      | inr b ↦
          let l : length (a ++ x ∷ []) ≤ j = ground (arith, b, n, length-append a (x ∷ [])) in
          beyond_Le (a ++ x ∷ []) _ j l
    ];
    across = λ j p e q. beyond_Le (a ++ x ∷ []) _ j (omega (arith, e, q, length-append a (x ∷ [])));
  }

  module _ (order : IsOrder lt) where
    -- A push to a queue that is not full.
    push-IsHeap :
        (q : PriorityQueue T) (x : T)
        → full q.capacity (length q.a) ≡ false
        → IsHeap q
        → IsHeap (push lt q x).0
    unfolding push
    push-IsHeap q x b h = rw b (
        heapify_up-Heap lt order (length q.a) (q.a ++ x ∷ []) (length q.a) (omega arith)
          (omega (arith, length-append q.a (x ∷ []))) (append-UpHeap q.a x h))

    top-DownHeap :
        (a : List T)
        → Heap lt (get_elem? a)
        → DownHeap lt (get_elem? (write (drop_last a) 0 (last_of a))) 0
    top-DownHeap a h = record {
      others = λ j p n. elim (Bool-cases (ltb j (length a - 1))) [
        | inl b ↦
            let l : j < length a - 1 = ground (arith, b) in
            let read = λ (k : ℕ) (m : 0 ≢ k) (c : k < length a - 1).
              get-write_ne (drop_last a) 0 k (last_of a) m ∙ get-drop_last a k c in
            Le-both lt (read (parent j) (λ e. n (sym e)) (omega (arith, l)))
              (read j (omega (arith, p)) l) (h j p)
        | inr b ↦
            beyond_Le (write (drop_last a) 0 (last_of a)) _ j
              (ground (arith, b, length-write (drop_last a) 0 (last_of a), length-drop_last a))
      ];
      across = λ j p e q. absurd (omega (arith, q));
    }

    pop-IsHeap : (q : PriorityQueue T) → IsHeap q → IsHeap (pop lt q).0
    unfolding pop
    pop-IsHeap q h =
        if_elim (λ (a : List T). Heap lt (get_elem? a)) (ltb 1 (length q.a))
          (λ b.
            heapify_down-Heap lt order (length q.a) (write (drop_last q.a) 0 (last_of q.a)) 0
              (omega (arith, length-write (drop_last q.a) 0 (last_of q.a), length-drop_last q.a))
              (top-DownHeap q.a h))
          (λ b j p. beyond_Le (drop_last q.a) _ j (ground (arith, b, p, length-drop_last q.a)))

    -- Nothing in a heap is less than its first element.
    first_least : (r : ℕ → Option T) (n k : ℕ) → Heap lt r → k ≤ n → Le lt (r 0) (r k)
    first_least r n zero h l = Le-refl lt order (r 0)
    first_least r zero (suc k) h l = absurd (omega (arith, l))
    first_least r (suc n) (suc k) h l =
        Le-trans lt order (r 0) (r (parent (suc k))) (r (suc k))
          (first_least r n (parent (suc k)) h (omega (arith, l))) (h (suc k) (omega arith))

    push-capacity :
        (q : PriorityQueue T) (x : T)
        → full q.capacity (length q.a) ≡ false
        → (push lt q x).0.capacity ≡ q.capacity
    unfolding push
    push-capacity q x b = rw b refl

    step-IsHeap :
        (q : PriorityQueue T) (x : Call T)
        → (q.capacity ≡ none) × IsHeap q
        → ((step q x).capacity ≡ none) × IsHeap (step q x)
    unfolding step pop
    step-IsHeap q (pushes x) (e, h) =
        let b : full q.capacity (length q.a) ≡ false = rw e refl in
        (push-capacity q x b ∙ e, push-IsHeap q x b h)
    step-IsHeap q pops (e, h) = (e, pop-IsHeap q h)

    run-IsHeap :
        (q : PriorityQueue T) (xs : List (Call T))
        → (q.capacity ≡ none) × IsHeap q
        → IsHeap (run q xs)
    unfolding run
    run-IsHeap q [] h = h.1
    run-IsHeap q (x ∷ xs) h = run-IsHeap (step q x) xs (step-IsHeap q x h)

    -- With an order that is asymmetric and negatively transitive: after any pushes to and pops from a
    -- new queue without a capacity, no element is less than its parent in the array, and none is less
    -- than the one that pop returns.
    pub run-create-IsHeap :
        (xs : List (Call T))
        → IsHeap (run (create none) xs)
          × ((k : ℕ)
              → Le lt (pop lt (run (create none) xs)).1 (get_elem? (run (create none) xs).a k))
    unfolding create pop
    run-create-IsHeap xs =
        let h = run-IsHeap (create none) xs (refl, λ j p. refl) in
        (h, λ k. first_least (get_elem? (run (create none) xs).a) k k h (omega arith))
