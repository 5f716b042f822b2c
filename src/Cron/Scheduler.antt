-- ===== src/Cron/Scheduler.antt =====
-- packages/cron/src/scheduler.ts: `SchedulerEngine` over the in-memory store. Each part of an async
-- method up to its next wait for a job or for capacity is one function; `clock.now()` is its argument
-- `now`. A run in flight is an `ActiveRun`: `begin_run` stands for the call of `executeRun`,
-- `start_run` for its part after the capacity is acquired, `finish_run` for its part after the job.
-- A plan is shared between the map and the runs, so it lies on a heap. Random ids are given by `Ids`.
pub mod Dispatch
pub mod Finish
pub mod Ends
pub mod Stalls
pub mod Repeats
pub mod Starts
pub mod Claims
use nope.Prelude.{
  ℕ, zero, suc, ◌+◌, ◌-◌, Bool, true, false, not, ◌&&◌, ◌||◌, List, [], ◌∷◌, ◌++◌, map, Option,
  none, some, ltb, leb, ◌==◌, if◌then◌else◌, ite, map_get, map_set, map_delete, max,
}
use nope.Prelude.{Text}
use nope.Prelude.Integers.{ℤ}
use nope.Cron.Store.{
  Store, Trigger, Run, RunResult, RunStatus, running, completed, failed, stalled, MisfirePolicy,
  fire_now, skip, catch_up, list_due_triggers, find_stalled_runs, upsert_job, remove_job,
  upsert_trigger, delete_trigger, get_trigger, claim_trigger, release_trigger, record_run_start,
  record_run_end, touch_run, Job,
}

-- `RetryPolicy`; `strategy` gives the delay before an attempt.
pub record RetryPolicy : Type 0 where
  pub max_attempts : ℕ
  pub strategy : ℕ → ℕ

-- `JobDefinition`, the part that the scheduler itself reads.
pub record JobDefinition (K : Type 0) : Type 0 where
  pub name : K
  pub retries : Option RetryPolicy

-- `TriggerPlan` and `createPlan`.
pub record Planner (P Plan : Type 0) : Type 0 where
  pub create_plan : P → Plan
  pub next : Plan → ℕ → Plan × Option ℕ

-- `generateTriggerId` and `generateRunId`, by a number that each call increases.
pub record Ids (K : Type 0) : Type 0 where
  pub trigger_id : K → ℕ → K
  pub run_id : K → ℕ → K

-- What the engine takes from outside: equality of keys, `localeCompare(…) > 0`, plans, ids.
pub record Host (K P Plan : Type 0) : Type 0 where
  pub dec : Discrete K
  pub locale_gt : K → K → Bool
  pub planner : Planner P Plan
  pub ids : Ids K

-- What `TriggerOptions` say besides the plan.
pub record TriggerOptions (K P : Type 0) : Type 0 where
  pub plan : P
  pub idempotency_key : Option K
  pub misfire_policy : Option MisfirePolicy
  pub priority : Option ℤ

pub data Event (K : Type 0) : Type 0 where
  -- trigger, run, time
  scheduled : K → K → ℕ → Event K
  -- run, attempt, scheduled time
  run : K → ℕ → ℕ → Event K
  progress : K → ℕ → Event K
  -- run, attempt
  run_completed : K → ℕ → Event K
  run_failed : K → ℕ → Event K
  run_stalled : K → Event K
  -- next run, next attempt, delay
  retry : K → ℕ → ℕ → Event K
  canceled : K → Event K
  trigger_paused : K → Event K
  trigger_resumed : K → Event K
  job_paused : K → Event K
  job_resumed : K → Event K
  paused_all : Event K
  resumed_all : Event K
  drain : Event K
  shut_down : Event K

-- The variables of a call of `executeRun`.
pub record ActiveRun (K P : Type 0) : Type 0 where
  pub trigger : Trigger K P
  pub job : JobDefinition K
  pub plan : ℕ
  pub run_id : K
  pub scheduled_at : ℕ
  pub attempt : ℕ

pub record Scheduler (K P Plan : Type 0) : Type 0 where
  pub owner_id : Text
  pub misfire_tolerance_ms : ℕ
  pub stalled_after_ms : ℕ
  pub store : Store K P
  pub jobs : List (K × JobDefinition K)
  pub plans : List (K × ℕ)
  pub heap : ℕ → Option Plan
  pub heap_size : ℕ
  pub active : List (ActiveRun K P)
  pub handled_runs : List K
  pub run_progress : List (K × Option ℕ)
  pub events : List (Event K)
  pub serial : ℕ
  pub stopped : Bool
  pub paused : Bool
  pub loop_scheduled : Bool

-- `MAX_MISFIRE_SKIP`
pub max_misfire_skip : ℕ
max_misfire_skip = 1_000

-- `leaseMs`
abbrev pub lease_ms : ℕ
lease_ms = 30_000

abbrev pub or_default : {A : Type 0} → Option A → A → A
or_default none d = d
or_default (some a) d = a

-- `evaluateRetry`: the delay and the next attempt, if there is one.
unfoldable pub evaluate_retry : {K : Type 0} → JobDefinition K → ℕ → Option (ℕ × ℕ)
evaluate_retry job attempt = elim job.retries [
  | none ↦ none
  | some policy ↦
      if leb (max 1 policy.max_attempts) attempt
      then none
      else some (policy.strategy (attempt + 1), attempt + 1)
]

module _ {K P Plan : Type 0} where
  abbrev pub emit : Scheduler K P Plan → Event K → Scheduler K P Plan
  emit s e = record s { events = s.events ++ e ∷ [] }

  abbrev pub with_store : Scheduler K P Plan → Store K P → Scheduler K P Plan
  with_store s st = record s { store = st }

  unfoldable pub arm_timer : Scheduler K P Plan → Scheduler K P Plan
  arm_timer s =
      if s.stopped || s.paused
      then s
      else if s.loop_scheduled
      then s
      else record s { loop_scheduled = true }

  pub pause_all : Scheduler K P Plan → Scheduler K P Plan
  pause_all s = emit (record s { paused = true }) paused_all

  pub resume_all : Scheduler K P Plan → Scheduler K P Plan
  unfolding arm_timer
  resume_all s = arm_timer (emit (record s { paused = false }) resumed_all)

  pub shutdown : Scheduler K P Plan → Scheduler K P Plan
  shutdown s = emit (record s { stopped = true }) shut_down

-- A write to the heap of plans.
abbrev pub put_plan : {Plan : Type 0} → (ℕ → Option Plan) → ℕ → Plan → ℕ → Option Plan
put_plan heap i p j = if i == j then some p else heap j

module _ {K P Plan : Type 0} (planner : Planner P Plan) where
  abbrev pub next_of : Scheduler K P Plan → ℕ → ℕ → Option Plan → Scheduler K P Plan × Option ℕ
  next_of s i after none = (s, none)
  next_of s i after (some p) =
      (record s { heap = put_plan s.heap i (planner.next p after).0 }, (planner.next p after).1)

  -- `plan.next(after)` of the plan at `i`.
  unfoldable pub plan_next : Scheduler K P Plan → ℕ → ℕ → Scheduler K P Plan × Option ℕ
  plan_next s i after = next_of s i after (s.heap i)

  -- `createPlan(options)`
  unfoldable pub new_plan : Scheduler K P Plan → P → Scheduler K P Plan × ℕ
  new_plan s options = (
    record s {
      heap = put_plan s.heap s.heap_size (planner.create_plan options);
      heap_size = s.heap_size + 1;
    },
    s.heap_size,
  )
