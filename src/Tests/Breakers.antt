-- ===== src/Tests/Breakers.antt =====
-- Runs of shareds/async/src/try/circuit-breaker.ts.
use nope.Prelude.{ℕ, ◌≡◌, refl, List, [], ◌∷◌, ◌++◌, arith, false, All}
use nope.Async.Breaker.{Breaker, State, closed, opened}
use nope.Async.Breaker.Window.{Op, asks, succeeds, fails, run, Blocked, run-Blocked, run_opens}

abbrev in_state : State → Breaker
in_state s = record {
  cfg = record { failure_threshold = 2; success_threshold = 2; cooldown_ms = 100 };
  state = s;
  consecutive_fail = 0;
  half_open_success = 0;
  next_attempt_at = 150;
  changes = [];
}

abbrev late : List (ℕ × Op)
late = (60, asks) ∷ (70, fails) ∷ (80, succeeds) ∷ (140, asks) ∷ []

run-Blocked_example :
    Blocked (run (in_state opened) late).0 50 150
    × All (λ x. x ≡ false) (run (in_state opened) late).1
run-Blocked_example =
    run-Blocked (in_state opened) 50 150 late
      (record { is_open = refl; later = omega arith; window = omega arith })
      (
        (omega arith, omega arith),
        (
          (omega arith, omega arith),
          ((omega arith, omega arith), ((omega arith, omega arith), tt)),
        ),
      )

abbrev mixed : List (ℕ × Op)
mixed = (1, asks) ∷ (2, fails) ∷ (3, succeeds) ∷ (4, fails) ∷ (5, asks) ∷ []

abbrev bad : List (ℕ × Op)
bad = (1, succeeds) ∷ (2, fails) ∷ (3, fails) ∷ (4, asks) ∷ []

run_opens_example :
    (pre post : List (ℕ × Op)) × (bad ≡ pre ++ post)
    × ((run (in_state closed) pre).0.state ≡ opened)
run_opens_example = run_opens (in_state closed) bad refl (omega arith) (omega arith)
