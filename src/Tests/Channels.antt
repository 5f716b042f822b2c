-- ===== src/Tests/Channels.antt =====
-- Runs of shareds/async/src/concurrency/channel.ts.
use nope.Prelude.{ℕ, refl, List, [], ◌∷◌, inl, inr, arith, false}
use nope.Async.Channel.{Channel}
use nope.Async.Channel.Fifo.{
  Op, closes, sends, receives, IsValid, Keeps, all_accepted, run, run-Keeps,
}

abbrev one_slot : Channel ℕ
one_slot = record {
  capacity = 1;
  buf = 5 ∷ [];
  takers = [];
  putters = record { id = 0; v = 6 } ∷ [];
  closed = false;
}

one_slot-IsValid : IsValid one_slot
one_slot-IsValid = record { waits = inl refl; full = inr refl; bounded = omega arith }

abbrev talk : List (Op ℕ)
talk =
    sends 1 7
    ∷ receives 2
    ∷ receives 3
    ∷ receives 4
    ∷ receives 5
    ∷ sends 6 8
    ∷ closes
    ∷ sends 7 9
    ∷ []

run-Keeps_example : Keeps one_slot (all_accepted one_slot talk) (run one_slot talk)
run-Keeps_example = run-Keeps one_slot talk one_slot-IsValid
