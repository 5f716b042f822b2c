-- ===== src/Tests/Sources.antt =====
-- Runs of the emitter, the generators and the collections of shareds/async.
use nope.Prelude.{ℕ, ◌%◌, Bool, List, [], ◌∷◌, ltb}
use nope.Async.Emitter.{Op, ons, offs, clears}
use nope.Async.Outcomes.{Result, ok, err}

abbrev registrations : List (Op ℕ)
registrations = ons 1 10 ∷ ons 2 20 ∷ ons 1 11 ∷ ons 1 10 ∷ offs 1 10 ∷ clears 2 ∷ []

abbrev five : List ℕ
five = 3 ∷ 1 ∷ 4 ∷ 1 ∷ 5 ∷ []

abbrev small : ℕ → ℕ → Bool
small x i = ltb x 4

abbrev by_three : ℕ → ℕ
by_three n = n % 3

abbrev tried : List (Result ℕ ℕ)
tried = ok 1 ∷ err 7 ∷ ok 2 ∷ err 8 ∷ []
