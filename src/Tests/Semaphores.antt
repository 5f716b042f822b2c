-- ===== src/Tests/Semaphores.antt =====
-- Runs of shareds/async/src/concurrency/semaphore.ts.
use nope.Prelude.{◌+◌, ◌≤◌, ◌≡◌, refl, List, [], ◌∷◌}
use nope.Async.Semaphore.{Semaphore, create, Op, acquires, releases, step, run}
use nope.Async.Semaphore.Conservation.{in_use, run-total}
use nope.Async.Semaphore.Order.{IsSettled, step-IsSettled}

abbrev three : Semaphore
three = record { permits = 3; queue = []; leases = [] }

abbrev history : List Op
history =
    acquires (record { id = 1; need = 2 })
    ∷ acquires (record { id = 2; need = 3 })
    ∷ acquires (record { id = 3; need = 1 })
    ∷ releases 0
    ∷ releases 0
    ∷ []

run-total_example :
    ((run three history).permits + in_use (run three history) ≡ 3)
    × (in_use (run three history) ≤ 3)
unfolding create
run-total_example = run-total 3 history refl

step-IsSettled_example : IsSettled (step three (acquires (record { id = 7; need = 2 })))
step-IsSettled_example = step-IsSettled three (acquires (record { id = 7; need = 2 })) tt
