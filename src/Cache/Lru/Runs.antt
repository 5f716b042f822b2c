-- ===== src/Cache/Lru/Runs.antt =====
-- Histories of a cache.
use nope.Prelude.{ℕ, refl, List, [], ◌∷◌, Option, Bool, arith}
use nope.Cache.Lru.{Cache, create, clear, get, set, del}
use nope.Cache.Lru.Sizes.{Sound, Bounded}
use nope.Cache.Lru.Bounds.{over_zero, get_Fine, del_Fine, set-Bounded}

-- The calls of a client.
pub data Call (K V : Type 0) : Type 0 where
  gets : K → ℕ → Call K V
  -- key, value, ttlMs, slidingTtlMs, size, time
  sets : K → V → Option ℕ → Option ℕ → ℕ → ℕ → Call K V
  dels : K → Call K V
  clears : Call K V

module _ {K V : Type 0} (dec : Discrete K) where
  pub step : Cache K V → Call K V → Cache K V
  step c (gets k now) = (get dec c k now).0
  step c (sets k v ttl sliding sz now) = set dec c k v ttl sliding sz now
  step c (dels k) = del dec c k
  step c clears = clear c

  pub run : Cache K V → List (Call K V) → Cache K V
  unfolding step
  run c [] = c
  run c (x ∷ xs) = run (step c x) xs

  step_Fine :
      (c : Cache K V) (x : Call K V)
      → Sound dec c × Bounded dec c
      → Sound dec (step c x) × Bounded dec (step c x)
  unfolding step get del clear
  step_Fine c (gets k now) f = get_Fine dec c k now _ f refl
  step_Fine c (sets k v ttl sliding sz now) f = set-Bounded dec c k v ttl sliding sz now f.0
  step_Fine c (dels k) f = del_Fine dec c k _ f refl
  step_Fine c clears f = (
    record { sizes = refl; keys = tt },
    record { by_size = over_zero c.max_size; by_count = omega arith },
  )

  run_Fine :
      (c : Cache K V) (xs : List (Call K V))
      → Sound dec c × Bounded dec c
      → Sound dec (run c xs) × Bounded dec (run c xs)
  unfolding run
  run_Fine c [] f = f
  run_Fine c (x ∷ xs) f = run_Fine (step c x) xs (step_Fine c x f)

  -- From a new cache, whatever is got, set, deleted and cleared, at whatever times and with whatever
  -- sizes: the total is the sum of the sizes of the entries, every key has one node, the total is not
  -- over the maximal size and there are at most the maximal number of entries.
  pub run-create-Bounded :
      (max_entries : ℕ) (max_size : Option ℕ) (lazy : Bool) (xs : List (Call K V))
      → Sound dec (run (create max_entries max_size lazy) xs)
        × Bounded dec (run (create max_entries max_size lazy) xs)
  unfolding create
  run-create-Bounded max_entries max_size lazy xs = run_Fine (create max_entries max_size lazy) xs (
    record { sizes = refl; keys = tt },
    record { by_size = over_zero max_size; by_count = omega arith },
  )
