-- ===== src/Cron/Store.antt =====
-- packages/cron/src/store/memory.ts: `InMemoryStore`, with the records of store/interfaces.ts.
-- Dates are milliseconds; `clock.now()` is the argument `now`. The methods hand out and keep copies,
-- so no record is shared. Owners are texts, priorities integers. Fields that are only carried along (`definition`, `result`, `error`, the
-- rest of `metadata`) are left out.
pub mod Leases
pub mod Order
pub mod Due
pub mod Agrees
pub mod Runs
use nope.Prelude.{
  ℕ, suc, ◌+◌, ◌-◌, ◌<◌, Bool, true, false, not, ◌&&◌, ◌||◌, List, [], ◌∷◌, map, Option, none, some,
  ltb, leb, ◌==◌, if◌then◌else◌, ite, map_get, map_set, map_delete, keep, take, Text, text_eq,
}
use nope.Prelude.Sort.{sort}
use nope.Prelude.Integers.{ℤ, pos, ◌==ℤ◌, ◌<ℤ◌}

-- `RunStatus`
pub data RunStatus : Type 0 where
  pending running completed failed canceled stalled : RunStatus

-- `MisfirePolicy`
pub data MisfirePolicy : Type 0 where
  fire_now skip catch_up : MisfirePolicy

-- `PersistedJob`
pub record Job (K : Type 0) : Type 0 where
  pub name : K
  pub created_at : ℕ
  pub updated_at : ℕ
  pub paused : Bool

-- `PersistedTrigger`; `next_run_id` is the entry `nextRunId` of its metadata.
pub record Trigger (K P : Type 0) : Type 0 where
  pub id : K
  pub job : K
  pub options : P
  pub next_run_at : Option ℕ
  pub last_run_at : Option ℕ
  pub failure_count : ℕ
  pub misfire_policy : Option MisfirePolicy
  pub priority : ℤ
  pub paused : Bool
  pub revision : ℕ
  pub next_run_id : Option K
  pub leased_until : Option ℕ
  pub lease_owner : Option Text

-- `RunRecord`
pub record Run (K : Type 0) : Type 0 where
  pub run_id : K
  pub trigger_id : K
  pub job : K
  pub scheduled_at : ℕ
  pub started_at : Option ℕ
  pub ended_at : Option ℕ
  pub attempt : ℕ
  pub status : RunStatus
  pub progress : Option ℕ
  pub heartbeat_at : Option ℕ

-- `RunResultRecord`
pub record RunResult : Type 0 where
  pub status : RunStatus
  pub ended_at : ℕ

pub record Store (K P : Type 0) : Type 0 where
  pub jobs : List (K × Job K)
  pub triggers : List (K × Trigger K P)
  pub runs : List (K × Run K)

-- `x?.getTime() ?? 0`
abbrev pub time_or_zero : Option ℕ → ℕ
time_or_zero none = 0
time_or_zero (some t) = t

-- Whether `leaseOwner` is truthy: the empty text is not.
abbrev pub truthy : Option Text → Bool
truthy none = false
truthy (some []) = false
truthy (some (c ∷ cs)) = true

abbrev pub map_values : {K V : Type 0} → List (K × V) → List V
map_values = map λ e. e.1

abbrev is_running : RunStatus → Bool
is_running running = true
is_running _ = false

-- The filter of `findStalledRuns`.
pub is_stalled : {K : Type 0} → ℕ → ℕ → Run K → Bool
is_stalled timeout now r = is_running r.status && ltb (time_or_zero r.heartbeat_at) (now - timeout)

-- That comparison, by priority, time and id.
unfoldable pub behind : {K : Type 0} → (K → K → Bool) → ℤ → ℕ → K → ℤ → ℕ → K → Bool
behind locale_gt p t k q u j =
    if not (p ==ℤ q) then q <ℤ p else if not (t == u) then ltb u t else locale_gt k j

module _ {K P : Type 0} where
  -- `dispose()` leaves the empty store that the constructor makes.
  pub empty : Store K P
  empty = record { jobs = []; triggers = []; runs = [] }

  pub dispose : Store K P → Store K P
  unfolding empty
  dispose s = empty

  pub list_jobs : Store K P → List (Job K)
  list_jobs s = map_values s.jobs

  unfoldable pub list_triggers : Store K P → List (Trigger K P)
  list_triggers s = map_values s.triggers

  -- The test that `listDueTriggers` filters by.
  pub is_due : ℕ → Trigger K P → Bool
  is_due now t = if t.paused then false else elim t.next_run_at [
    | none ↦ false
    | some next ↦
        if truthy t.lease_owner && ltb now (time_or_zero t.leased_until)
        then false
        else leb next now
  ]

  -- The comparison that it sorts by: `a` comes behind `b`. `locale_gt` is `localeCompare(…) > 0`.
  pub comes_behind : (K → K → Bool) → Trigger K P → Trigger K P → Bool
  unfolding behind
  comes_behind locale_gt a b =
      behind locale_gt a.priority (time_or_zero a.next_run_at) a.id b.priority
        (time_or_zero b.next_run_at) b.id

  unfoldable pub list_due_triggers : (K → K → Bool) → Store K P → ℕ → ℕ → List (Trigger K P)
  unfolding is_due comes_behind
  list_due_triggers locale_gt s until limit =
      take limit (sort (comes_behind locale_gt) (keep (is_due until) (map_values s.triggers)))

  unfoldable pub find_stalled_runs : Store K P → ℕ → ℕ → List (Run K)
  unfolding is_stalled
  find_stalled_runs s timeout now = keep (is_stalled timeout now) (map_values s.runs)

module _ {K P : Type 0} (dec : Discrete K) where
  unfoldable pub upsert_job : Store K P → Job K → Store K P
  upsert_job s j = record s { jobs = map_set dec s.jobs j.name j }

  unfoldable pub get_job : Store K P → K → Option (Job K)
  get_job s k = map_get dec s.jobs k

  unfoldable pub set_job_paused : Store K P → K → Bool → ℕ → Store K P
  set_job_paused s k p now = elim (map_get dec s.jobs k) [
    | none ↦ s
    | some j ↦ record s { jobs = map_set dec s.jobs k (record j { paused = p; updated_at = now }) }
  ]

  unfoldable pub remove_job : Store K P → K → Store K P
  remove_job s k = record s { jobs = map_delete dec s.jobs k }

  unfoldable pub upsert_trigger : Store K P → Trigger K P → Store K P
  upsert_trigger s t = record s { triggers = map_set dec s.triggers t.id t }

  unfoldable pub get_trigger : Store K P → K → Option (Trigger K P)
  get_trigger s k = map_get dec s.triggers k

  unfoldable pub delete_trigger : Store K P → K → Store K P
  delete_trigger s k = record s { triggers = map_delete dec s.triggers k }

  unfoldable pub record_run_start : Store K P → Run K → ℕ → Store K P
  record_run_start s r now = record s {
    runs = map_set dec s.runs r.run_id (record r {
      status = running;
      started_at = some (elim r.started_at [ none ↦ now | some t ↦ t ]);
      heartbeat_at = some now;
    });
  }

  unfoldable pub record_run_end : Store K P → K → RunResult → Store K P
  record_run_end s k res = elim (map_get dec s.runs k) [
    | none ↦ s
    | some r ↦ record s {
      runs = map_set dec s.runs k (record r { status = res.status; ended_at = some res.ended_at });
    }
  ]

  -- A heartbeat, with a progress report or without.
  unfoldable pub touch_run : Store K P → K → Option ℕ → ℕ → Store K P
  touch_run s k progress now = elim (map_get dec s.runs k) [
    | none ↦ s
    | some r ↦ record s {
      runs = map_set dec s.runs k (record r {
        heartbeat_at = some now;
        progress = elim progress [ none ↦ r.progress | some p ↦ some p ];
      });
    }
  ]

  unfoldable pub get_run : Store K P → K → Option (Run K)
  get_run s k = map_get dec s.runs k

abbrev pub owns : Option Text → Text → Bool
owns none o = false
owns (some p) o = text_eq p o

module _ {K P : Type 0} (dec : Discrete K) where
  -- `claimTrigger`, by what `triggers.get` finds.
  unfoldable pub claim_found :
      Store K P → K → Text → ℕ → ℕ → Option (Trigger K P) → Store K P × Bool
  claim_found s k o lease now none = (s, false)
  claim_found s k o lease now (some t) =
      if t.paused
      then (s, false)
      else if truthy t.lease_owner
          && ltb now (time_or_zero t.leased_until)
          && not (owns t.lease_owner o)
      then (s, false)
      else (
        record s {
          triggers = map_set dec s.triggers k (record t {
            lease_owner = some o;
            leased_until = some (now + lease);
            revision = t.revision + 1;
          });
        },
        true,
      )

  unfoldable pub claim_trigger : Store K P → K → Text → ℕ → ℕ → Store K P × Bool
  unfolding claim_found
  claim_trigger s k o lease now = claim_found s k o lease now (map_get dec s.triggers k)

  -- `releaseTrigger`, by what `triggers.get` finds.
  unfoldable pub release_found : Store K P → K → Text → Option (Trigger K P) → Store K P
  release_found s k o none = s
  release_found s k o (some t) =
      if owns t.lease_owner o
      then record s {
        triggers = map_set dec s.triggers k (record t { lease_owner = none; leased_until = none });
      }
      else s

  unfoldable pub release_trigger : Store K P → K → Text → Store K P
  unfolding release_found
  release_trigger s k o = release_found s k o (map_get dec s.triggers k)
