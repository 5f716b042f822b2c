-- ===== src/Cache/Singleflight.antt =====
-- shareds/cache/src/cache.ts: `Singleflight`, and shareds/cache/src/singleflight-optimized.ts. A call of
-- `fn` is a number, counted by `started`; its promise is that number. `open_calls` are the promises
-- that have a cleanup (`finally`) and have not settled, each with its key; `timers` the timers that run,
-- under the number of the call that set them. `fn` does not call `do` of the same object before it
-- returns its promise. `do` is called `share` here.
pub mod Entries
pub mod Shares
pub mod Timers
pub mod Variants
use nope.Prelude.{
  ℕ, suc, ◌+◌, Bool, true, false, List, [], ◌∷◌, Option, none, some, ◌==◌, if◌then◌else◌, length,
  map_get, map_set, map_delete, ℕ_discrete,
}
use nope.Prelude.Sets.{add, remove}

pub record Flights (K : Type 0) : Type 0 where
  pub inflight : List (K × ℕ)
  pub open_calls : List (ℕ × K)
  pub timers : List (ℕ × K)
  pub started : ℕ

unfoldable pub create : {K : Type 0} → Flights K
create = record { inflight = []; open_calls = []; timers = []; started = 0 }

-- `get(key) === promise`
unfoldable pub is_call : Option ℕ → ℕ → Bool
is_call none p = false
is_call (some q) p = q == p

module _ {K : Type 0} (dec : Discrete K) where
  -- The way through the map: a call of `fn` whose promise has the cleanup.
  unfoldable pub register : K → Flights K → Flights K
  register k s = record s {
    inflight = map_set dec s.inflight k s.started;
    open_calls = map_set ℕ_discrete s.open_calls s.started k;
    started = suc s.started;
  }

  unfoldable pub share_found : K → Option ℕ → Flights K → ℕ × Flights K
  unfolding register
  share_found k (some p) s = (p, s)
  share_found k none s = (s.started, register k s)

  -- `Singleflight.do` and `SingleflightOptimized.do`
  unfoldable pub share : K → Flights K → ℕ × Flights K
  unfolding share_found
  share k s = share_found k (map_get dec s.inflight k) s

  unfoldable pub cleanup : K → ℕ → Flights K → Flights K
  unfolding is_call
  cleanup k p s =
      if is_call (map_get dec s.inflight k) p
      then record s { inflight = map_delete dec s.inflight k }
      else s

  unfoldable pub settle_open : ℕ → Option K → Flights K → Flights K
  unfolding cleanup
  settle_open p none s = s
  settle_open p (some k) s =
      cleanup k p (record s { open_calls = map_delete ℕ_discrete s.open_calls p })

  -- A promise settles; a second time nothing happens.
  unfoldable pub settle : ℕ → Flights K → Flights K
  unfolding settle_open
  settle p s = settle_open p (map_get ℕ_discrete s.open_calls p) s

  pub has : K → Flights K → Bool
  has k s = elim (map_get dec s.inflight k) [ none ↦ false | some p ↦ true ]

  unfoldable pub size : Flights K → ℕ
  size s = length s.inflight

  unfoldable pub clear : Flights K → Flights K
  clear s = record s { inflight = [] }

  -- `SingleflightFastPath.do`: with an empty map the call passes it, without a cleanup.
  unfoldable pub share_fast_found : K → Option ℕ → Flights K → ℕ × Flights K
  unfolding register size
  share_fast_found k (some p) s = (p, s)
  share_fast_found k none s =
      if size s == 0
      then (s.started, record s { started = suc s.started })
      else (s.started, register k s)

  unfoldable pub share_fast : K → Flights K → ℕ × Flights K
  unfolding share_fast_found
  share_fast k s = share_fast_found k (map_get dec s.inflight k) s

  -- `SingleflightHybrid.do`
  unfoldable pub share_hybrid : K → Flights K → ℕ × Flights K
  unfolding share_fast_found
  share_hybrid k s = share_fast_found k (map_get dec s.inflight k) s

  -- `SingleflightWithTimeout.do`
  unfoldable pub share_timed_found : K → Option ℕ → Flights K → ℕ × Flights K
  unfolding register
  share_timed_found k (some p) s = (p, s)
  share_timed_found k none s =
      (s.started, register k (record s { timers = map_set ℕ_discrete s.timers s.started k }))

  unfoldable pub share_timed : K → Flights K → ℕ × Flights K
  unfolding share_timed_found
  share_timed k s = share_timed_found k (map_get dec s.inflight k) s

  unfoldable pub cleanup_timed : K → ℕ → Flights K → Flights K
  unfolding is_call
  cleanup_timed k p s =
      if is_call (map_get dec s.inflight k) p
      then record s {
        inflight = map_delete dec s.inflight k;
        timers = map_delete ℕ_discrete s.timers p;
      }
      else s

  unfoldable pub settle_timed_open : ℕ → Option K → Flights K → Flights K
  unfolding cleanup_timed
  settle_timed_open p none s = s
  settle_timed_open p (some k) s =
      cleanup_timed k p (record s { open_calls = map_delete ℕ_discrete s.open_calls p })

  unfoldable pub settle_timed : ℕ → Flights K → Flights K
  unfolding settle_timed_open
  settle_timed p s = settle_timed_open p (map_get ℕ_discrete s.open_calls p) s

  -- The callback of the timer of call `p`.
  unfoldable pub fire_running : ℕ → Option K → Flights K → Flights K
  unfolding cleanup
  fire_running p none s = s
  fire_running p (some k) s = cleanup k p (record s { timers = map_delete ℕ_discrete s.timers p })

  unfoldable pub fire : ℕ → Flights K → Flights K
  unfolding fire_running
  fire p s = fire_running p (map_get ℕ_discrete s.timers p) s

  unfoldable pub stop_timers : List (K × ℕ) → List (ℕ × K) → List (ℕ × K)
  stop_timers [] ts = ts
  stop_timers ((k, p) ∷ es) ts = stop_timers es (map_delete ℕ_discrete ts p)

  unfoldable pub clear_timed : Flights K → Flights K
  unfolding stop_timers
  clear_timed s = record s { inflight = []; timers = stop_timers s.inflight s.timers }

-- `SingleflightWeakMap`: the cleanup leaves the entry in the map.
pub record WeakFlights (K : Type 0) : Type 0 where
  pub inflight : List (K × ℕ)
  pub keys : List K
  pub open_calls : List (ℕ × K)
  pub started : ℕ

module _ {K : Type 0} (dec : Discrete K) where
  unfoldable pub share_weak_found : K → Option ℕ → WeakFlights K → ℕ × WeakFlights K
  share_weak_found k (some p) s = (p, s)
  share_weak_found k none s = (
    s.started,
    record {
      inflight = map_set dec s.inflight k s.started;
      keys = add dec s.keys k;
      open_calls = map_set ℕ_discrete s.open_calls s.started k;
      started = suc s.started;
    },
  )

  unfoldable pub share_weak : K → WeakFlights K → ℕ × WeakFlights K
  unfolding share_weak_found
  share_weak k s = share_weak_found k (map_get dec s.inflight k) s

  unfoldable pub settle_weak_open : ℕ → Option K → WeakFlights K → WeakFlights K
  settle_weak_open p none s = s
  settle_weak_open p (some k) s = record s {
    keys = remove dec s.keys k;
    open_calls = map_delete ℕ_discrete s.open_calls p;
  }

  unfoldable pub settle_weak : ℕ → WeakFlights K → WeakFlights K
  unfolding settle_weak_open
  settle_weak p s = settle_weak_open p (map_get ℕ_discrete s.open_calls p) s
