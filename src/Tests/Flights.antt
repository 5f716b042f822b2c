-- ===== src/Tests/Flights.antt =====
-- Runs of shareds/cache/src/cache-flat-array.ts and of the single flights of shareds/cache/src.
use nope.Prelude.{
  ℕ, ◌≡◌, ◌↔◌, refl, false, true, List, [], ◌∷◌, none, some, arith, map_get, ℕ_discrete,
}
use nope.Cache.Singleflight.{create, share}
use nope.Cache.Singleflight.Shares.{run, share_shared}
use nope.Cache.Singleflight.Shares as Shares
use nope.Cache.Singleflight.Timers.{run-timers}
use nope.Cache.Singleflight.Timers as Timers
use nope.Cache.Singleflight.Variants.{run_fast, run_fast-started, asked}
use nope.Cache.Singleflight.Variants as Variants
use nope.Cache.FlatCache as FlatCache
use nope.Cache.FlatCache.Plain as Plain
use nope.Cache.FlatCache.Plain.{Op, gets, sets, asks, deletes, clears, got, took, had}
use nope.Cache.FlatCache.Refines.{Answers}
use nope.Cache.FlatCache.Runs as Runs
use nope.Cache.FlatCache.Runs.{run-create-Answers}

-- Key 7 is asked for twice before its call settles.
abbrev flights : List (Shares.Op ℕ)
flights = Shares.asks 7 ∷ Shares.asks 8 ∷ Shares.asks 7 ∷ Shares.settles 1 ∷ []

share_shared_example :
    share ℕ_discrete 7 (run ℕ_discrete create flights) ≡ (0, run ℕ_discrete create flights)
unfolding create run Shares.step share ℕ_discrete
share_shared_example = share_shared ℕ_discrete flights 7 0 refl refl

-- The first call times out, and settles after the second has begun.
abbrev timed_flights : List (Timers.Op ℕ)
timed_flights =
    Timers.asks 7 ∷ Timers.fires 0 ∷ Timers.asks 7 ∷ Timers.settles 0 ∷ Timers.asks 8 ∷ []

run-timers_example :
    (map_get ℕ_discrete (Timers.run ℕ_discrete create timed_flights).timers 1 ≡ some 7)
    ↔ (map_get ℕ_discrete (Timers.run ℕ_discrete create timed_flights).inflight 7 ≡ some 1)
run-timers_example = run-timers ℕ_discrete timed_flights 7 1

second_stays : (Timers.run ℕ_discrete create timed_flights).inflight ≡ (7, 1) ∷ (8, 2) ∷ []
unfolding create Timers.run Timers.step ℕ_discrete
second_stays = refl

abbrev fast_flights : List (Variants.Op ℕ)
fast_flights = Variants.asks 7 ∷ Variants.asks 7 ∷ Variants.settles 0 ∷ Variants.asks 7 ∷ []

run_fast-started_example :
    ((run_fast ℕ_discrete true create fast_flights).started ≡ 3)
    × ((run_fast ℕ_discrete true create fast_flights).inflight ≡ [])
run_fast-started_example = run_fast-started ℕ_discrete true fast_flights

-- Two entries of at most ten units together.
abbrev flat_ops : List (Op ℕ ℕ)
flat_ops =
    sets 100 1 10 4 none none
    ∷ sets 101 2 20 5 (some 50) none
    ∷ gets 102 1
    ∷ sets 103 3 30 6 none (some 20)
    ∷ asks 104 2
    ∷ gets 105 1
    ∷ sets 106 1 11 4 none none
    ∷ gets 150 3
    ∷ deletes 1
    ∷ clears
    ∷ []

flat_answers :
    (Runs.run ℕ_discrete (FlatCache.create 2 (some 10)) flat_ops).0
    ≡ took true
      ∷ took true
      ∷ got (some 10)
      ∷ took true
      ∷ had false
      ∷ got (some 10)
      ∷ took true
      ∷ got none
      ∷ Plain.done
      ∷ Plain.done
      ∷ []
unfolding Runs.run Runs.step FlatCache.create ℕ_discrete
flat_answers = refl

run-create-Answers_example :
    Answers ℕ_discrete 2
      (some 10)
      (Runs.run ℕ_discrete (FlatCache.create 2 (some 10)) flat_ops)
      (Plain.run ℕ_discrete 2 (some 10) [] flat_ops)
run-create-Answers_example = run-create-Answers ℕ_discrete 2 (some 10) flat_ops (omega arith)
