-- ===== src/Tests/Heaps.antt =====
-- Runs of the priority queue of shareds/async, with the order of the numbers.
use nope.Prelude.{ℕ, ◌≡◌, refl, List, [], ◌∷◌, none, some, ltb, arith, get_elem?}
use nope.Async.PriorityQueue.{create, push, pop, heapify_down, max_index}
use nope.Async.PriorityQueue.Sifts.{IsOrder, Le}
use nope.Async.PriorityQueue.Runs.{Call, run, IsHeap, run-create-IsHeap}

numbers : IsOrder ltb
numbers = record { asym = λ x y h. ground (arith, h); trans = λ x y z h g. ground (arith, h, g) }

abbrev calls : List (Call ℕ)
calls = Call.pushes 5 ∷ Call.pushes 3 ∷ Call.pushes 8 ∷ Call.pops ∷ Call.pushes 1 ∷ []

-- The element that takes the worst one's place at a full queue is not moved up: 0 stands under 1.
stays_low : (push ltb (record { a = 1 ∷ 5 ∷ 9 ∷ []; capacity = some 3 }) 0).0.a ≡ 1 ∷ 5 ∷ 0 ∷ []
unfolding push max_index heapify_down
stays_low = refl

run-create-IsHeap_example :
    IsHeap ltb (run ltb (create none) calls)
    × ((k : ℕ)
        → Le ltb
            (pop ltb (run ltb (create none) calls)).1
            (get_elem? (run ltb (create none) calls).a k))
run-create-IsHeap_example = run-create-IsHeap ltb numbers calls
