-- ===== src/Tests/Slots.antt =====
-- Runs of shareds/cache/src/flat-storage.ts and of the results of shareds/error/src/result.ts.
use nope.Prelude.{ℕ, zero, suc, List, [], ◌∷◌, none, some}
use nope.Cache.FlatStorage.Slots.{
  Op, op_allocate, op_free, op_set_size, op_set_last_access, Client, run, Sound,
}
use nope.Cache.FlatStorage.Runs.{start, run-start-Sound}
use nope.Results.{Result, ok, err}

abbrev slot_ops : List (Op ℕ)
slot_ops =
    op_allocate 7 1 10 none (some 5)
    ∷ op_allocate 8 2 11 (some 50) none
    ∷ op_set_last_access 1 20
    ∷ op_free 0
    ∷ op_allocate 9 3 30 none none
    ∷ op_set_size 0 4
    ∷ []

abbrev two_slots : Client ℕ
two_slots = run (start 2) slot_ops

run-start-Sound_example : Sound (run (start 2) slot_ops)
run-start-Sound_example = run-start-Sound 2 slot_ops

abbrev one_slot : Client ℕ
one_slot = run (start 1) (op_allocate 7 1 10 none none ∷ [])

abbrev three : Result ℕ ℕ
three = ok 3

abbrev halve : ℕ → Result ℕ ℕ
halve zero = err 1
halve (suc m) = ok m
