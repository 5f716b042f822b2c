-- ===== src/Tests/Caches.antt =====
-- Runs of the caches of shareds/cache.
use nope.Prelude.{ℕ, ◌≡◌, refl, List, [], ◌∷◌, none, some, true, arith, ℕ_discrete}
use nope.Cache.Lru.{Cache, create, get, set, evict, swept, put, new_entry}
use nope.Cache.Lru.Sizes.{Sound, Bounded}
use nope.Cache.Lru.Runs.{Call, run, run-create-Bounded}
use nope.Cache.Lru.Recency.{IsEnd, evict-IsEnd, get-set}

-- Two entries of at most ten units together.
abbrev calls : List (Call ℕ ℕ)
calls =
    Call.sets 1 10 none none 4 100
    ∷ Call.sets 2 20 (some 50) none 5 101
    ∷ Call.gets 1 102
    ∷ Call.sets 3 30 none none 6 103
    ∷ Call.dels 2
    ∷ []

run-create-Bounded_example :
    Sound ℕ_discrete (run ℕ_discrete (create 2 (some 10) true) calls)
    × Bounded ℕ_discrete (run ℕ_discrete (create 2 (some 10) true) calls)
run-create-Bounded_example = run-create-Bounded ℕ_discrete 2 (some 10) true calls

abbrev full : Cache ℕ ℕ
full = record {
  nodes = (1, new_entry 10 none none 4 100) ∷ (2, new_entry 20 (some 50) none 5 101) ∷ [];
  total_size = 9;
  max_entries = 2;
  max_size = some 10;
  lazy_expiration = true;
}

-- The least recently used entry is the one that goes.
oldest_goes : (evict (put ℕ_discrete full 3 (new_entry 30 none none 5 103)) 103).total_size ≡ 10
unfolding evict swept put ℕ_discrete
oldest_goes = refl

evict-IsEnd_example : IsEnd (evict full 200).nodes (swept full 200).0
evict-IsEnd_example = evict-IsEnd full 200

get-set_example : (get ℕ_discrete (set ℕ_discrete full 1 11 (some 50) none 6 110) 1 120).1 ≡ some 11
unfolding ℕ_discrete
get-set_example =
    get-set ℕ_discrete full 1 11 (some 50) none 6 110 120
      (record { sizes = refl; keys = (refl, (refl, tt)) }) (omega arith) refl (omega arith) refl
