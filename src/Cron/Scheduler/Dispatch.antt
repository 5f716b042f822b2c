-- ===== src/Cron/Scheduler/Dispatch.antt =====
-- packages/cron/src/scheduler.ts: how triggers come to be, and how a due trigger becomes a run.
use nope.Prelude.{
  ℕ, zero, suc, ◌+◌, ◌-◌, Bool, true, false, ◌&&◌, ◌||◌, List, [], ◌∷◌, ◌++◌, Option, none, some,
  ltb, if◌then◌else◌, map_get, map_set, map_delete,
}
use nope.Prelude.Integers.{pos}
use nope.Cron.Store.{
  Trigger, MisfirePolicy, fire_now, skip, catch_up, list_due_triggers, upsert_job, remove_job,
  upsert_trigger, delete_trigger, get_trigger, claim_trigger, release_trigger,
}
use nope.Cron.Scheduler.{
  JobDefinition, Host, TriggerOptions, Event, Scheduler, max_misfire_skip, lease_ms, or_default,
  emit, with_store, arm_timer, plan_next, new_plan,
}

-- The case "skip" of the switch in `handleMisfire`.
abbrev is_skip : MisfirePolicy → Bool
is_skip skip = true
is_skip fire_now = false
is_skip catch_up = false

module _ {K P Plan : Type 0} (h : Host K P Plan) where
  -- `registerJob`; a definition without handler and worker is refused before.
  unfoldable pub register_job : Scheduler K P Plan → JobDefinition K → ℕ → Scheduler K P Plan
  register_job s job now = record s {
    jobs = map_set h.dec s.jobs job.name job;
    store =
        upsert_job h.dec s.store
          (record { name = job.name; created_at = now; updated_at = now; paused = false });
  }

  unfoldable pub unregister_job : Scheduler K P Plan → K → Scheduler K P Plan
  unregister_job s name = record s {
    jobs = map_delete h.dec s.jobs name;
    store = remove_job h.dec s.store name;
  }

  -- `generateRunId`
  abbrev pub fresh_run : Scheduler K P Plan → K → Scheduler K P Plan × K
  fresh_run s trigger = (record s { serial = s.serial + 1 }, h.ids.run_id trigger s.serial)

  abbrev pub fresh_trigger : Scheduler K P Plan → K → Option K → Scheduler K P Plan × K
  fresh_trigger s job (some key) = (s, key)
  fresh_trigger s job none = (record s { serial = s.serial + 1 }, h.ids.trigger_id job s.serial)

  -- The record that `schedule` and `executeNow` make.
  abbrev pub new_trigger : K → K → TriggerOptions K P → ℕ → K → Trigger K P
  new_trigger id job o at run = record {
    id = id;
    job = job;
    options = o.plan;
    next_run_at = some at;
    last_run_at = none;
    failure_count = 0;
    misfire_policy = some (or_default o.misfire_policy skip);
    priority = or_default o.priority (pos 0);
    paused = false;
    revision = 0;
    next_run_id = some run;
    leased_until = none;
    lease_owner = none;
  }

  -- The part of `schedule` and `executeNow` that follows `plan.next(now)`.
  abbrev pub schedule_at :
      Scheduler K P Plan
      → K
      → TriggerOptions K P
      → ℕ
      → Option ℕ
      → Scheduler K P Plan × Option (Trigger K P)
  schedule_at s job o plan none = (s, none)
  schedule_at s job o plan (some at) =
      let (s1, id) = fresh_trigger s job o.idempotency_key in
      let (s2, run) = fresh_run s1 id in
      let t = new_trigger id job o at run in
      (
        emit
            (record s2 {
              store = upsert_trigger h.dec s2.store t;
              plans = map_set h.dec s2.plans id plan;
            })
            (Event.scheduled id run at),
        some t,
      )

  abbrev pub schedule_job :
      Scheduler K P Plan
      → K
      → TriggerOptions K P
      → ℕ
      → Option (JobDefinition K)
      → Scheduler K P Plan × Option (Trigger K P)
  schedule_job s name o now none = (s, none)
  schedule_job s name o now (some job) =
      let (s1, plan) = new_plan h.planner s o.plan in
      let (s2, at) = plan_next h.planner s1 plan now in schedule_at s2 name o plan at

  -- `schedule`: `none` where it throws, for want of the job or of a first time.
  unfoldable pub schedule :
      Scheduler K P Plan → K → TriggerOptions K P → ℕ → Scheduler K P Plan × Option (Trigger K P)
  schedule s name o now =
      let (s', t) = schedule_job s name o now (map_get h.dec s.jobs name) in
      (elim t [ none ↦ s' | some _ ↦ arm_timer s' ], t)

  -- `updateTriggerPaused`
  abbrev pub paused_found :
      Scheduler K P Plan → K → Bool → Option (Trigger K P) → Scheduler K P Plan
  paused_found s id p none = s
  paused_found s id p (some t) =
      emit (with_store s (upsert_trigger h.dec s.store (record t { paused = p })))
        (if p then Event.trigger_paused id else Event.trigger_resumed id)

  unfoldable pub update_trigger_paused : Scheduler K P Plan → K → Bool → Scheduler K P Plan
  update_trigger_paused s id p = paused_found s id p (get_trigger h.dec s.store id)

  -- `cancelTrigger`
  abbrev pub cancel_found : Scheduler K P Plan → K → Option (Trigger K P) → Scheduler K P Plan
  cancel_found s id none = s
  cancel_found s id (some t) =
      emit
        (record s { store = delete_trigger h.dec s.store id; plans = map_delete h.dec s.plans id })
        (Event.canceled id)

  unfoldable pub cancel_trigger : Scheduler K P Plan → K → Scheduler K P Plan
  cancel_trigger s id = cancel_found s id (get_trigger h.dec s.store id)

  abbrev pub plan_found : Scheduler K P Plan → Trigger K P → Option ℕ → Scheduler K P Plan × ℕ
  plan_found s t (some i) = (s, i)
  plan_found s t none =
      let (s', i) = new_plan h.planner s t.options in
      (record s' { plans = map_set h.dec s'.plans t.id i }, i)

  unfoldable pub ensure_plan : Scheduler K P Plan → Trigger K P → Scheduler K P Plan × ℕ
  ensure_plan s t = plan_found s t (map_get h.dec s.plans t.id)

  -- The loop of `hydrateTriggers`, over the triggers of the store.
  pub hydrate : Scheduler K P Plan → List (Trigger K P) → Scheduler K P Plan
  hydrate s [] = s
  hydrate s (t ∷ ts) = hydrate (ensure_plan s t).0 ts

  -- `nowMs - at > misfireToleranceMs`
  abbrev pub late : Scheduler K P Plan → ℕ → ℕ → Bool
  late s at now = ltb (at + s.misfire_tolerance_ms) now

  -- The loop of `skipOverdueRuns`, with `n` rounds left after this one.
  unfoldable pub skip_loop : ℕ → Scheduler K P Plan → ℕ → ℕ → ℕ → Scheduler K P Plan × Option ℕ
  skip_loop zero s plan reference now = plan_next h.planner s plan reference
  skip_loop (suc n) s plan reference now =
      let (s', next) = plan_next h.planner s plan reference in
      elim next [
        | none ↦ (s', none)
        | some t ↦ if late s' t now then skip_loop n s' plan t now else (s', some t)
      ]

  -- What `skipOverdueRuns` does with the time that the loop leaves.
  unfoldable pub skip_found : Scheduler K P Plan → Trigger K P → ℕ → Option ℕ → Scheduler K P Plan
  skip_found s t scheduled_at none =
      emit
        (record s {
          store = delete_trigger h.dec s.store t.id;
          plans = map_delete h.dec s.plans t.id;
        })
        Event.drain
  skip_found s t scheduled_at (some at) =
      let (s', run) = fresh_run s t.id in
      emit
        (with_store s' (
          upsert_trigger h.dec s'.store (record t {
            failure_count = 0;
            last_run_at = some scheduled_at;
            next_run_at = some at;
            next_run_id = some run;
          })))
        (Event.scheduled t.id run at)

  unfoldable pub skip_overdue_runs :
      Scheduler K P Plan → Trigger K P → ℕ → ℕ → ℕ → Scheduler K P Plan
  unfolding skip_loop skip_found
  skip_overdue_runs s t plan scheduled_at now =
      let (s', next) = skip_loop (max_misfire_skip - 1) s plan scheduled_at now in
      skip_found s' t scheduled_at next

  -- `handleMisfire` where the trigger has a time: whether its run is skipped.
  abbrev pub misfires : Scheduler K P Plan → Trigger K P → ℕ → ℕ → Bool
  misfires s t scheduled_at now =
      late s scheduled_at now && is_skip (or_default t.misfire_policy skip)

  -- The call of `executeRun`.
  abbrev pub begin_run :
      Scheduler K P Plan → Trigger K P → JobDefinition K → ℕ → ℕ → Option K → Scheduler K P Plan
  begin_run s t job plan scheduled_at (some run) = record s {
    active =
        s.active
        ++ record {
          trigger = t;
          job = job;
          plan = plan;
          run_id = run;
          scheduled_at = scheduled_at;
          attempt = t.failure_count + 1;
        }
          ∷ [];
  }
  begin_run s t job plan scheduled_at none =
      let (s', run) = fresh_run s t.id in
      record s' {
        active =
            s'.active
            ++ record {
              trigger = t;
              job = job;
              plan = plan;
              run_id = run;
              scheduled_at = scheduled_at;
              attempt = t.failure_count + 1;
            }
              ∷ [];
      }

  abbrev pub release : Scheduler K P Plan → K → Scheduler K P Plan
  release s id = with_store s (release_trigger h.dec s.store id s.owner_id)

  -- The rest of `processTrigger`, for the time that the trigger has.
  abbrev pub dispatch_at :
      Scheduler K P Plan → Trigger K P → JobDefinition K → ℕ → ℕ → Option ℕ → Scheduler K P Plan
  dispatch_at s t job plan now none = begin_run s t job plan now t.next_run_id
  dispatch_at s t job plan now (some at) =
      if misfires s t at now
      then release (skip_overdue_runs s t plan at now) t.id
      else begin_run s t job plan at t.next_run_id

  abbrev pub dispatch_job :
      Scheduler K P Plan → Trigger K P → ℕ → ℕ → Option (JobDefinition K) → Scheduler K P Plan
  dispatch_job s t plan now none = release s t.id
  dispatch_job s t plan now (some job) = dispatch_at s t job plan now t.next_run_at

  -- `processTrigger` once the claim is granted.
  unfoldable pub dispatch : Scheduler K P Plan → Trigger K P → ℕ → Scheduler K P Plan
  unfolding ensure_plan
  dispatch s t now =
      let (s', plan) = ensure_plan s t in dispatch_job s' t plan now (map_get h.dec s'.jobs t.job)

  unfoldable pub process_trigger : Scheduler K P Plan → Trigger K P → ℕ → Scheduler K P Plan
  process_trigger s t now =
      let (store, granted) = claim_trigger h.dec s.store t.id s.owner_id lease_ms now in
      if granted then dispatch (with_store s store) t now else with_store s store

  -- The loop of `drainDueTriggers`.
  unfoldable pub drain_list : Scheduler K P Plan → List (Trigger K P) → ℕ → Scheduler K P Plan
  unfolding process_trigger
  drain_list s [] now = s
  drain_list s (t ∷ ts) now = if s.stopped then s else drain_list (process_trigger s t now) ts now

  unfoldable pub drain_due_triggers : Scheduler K P Plan → ℕ → Scheduler K P Plan
  unfolding drain_list
  drain_due_triggers s now = drain_list s (list_due_triggers h.locale_gt s.store now 100) now

  unfoldable pub tick : Scheduler K P Plan → ℕ → Scheduler K P Plan
  unfolding drain_due_triggers
  tick s now =
      let s' = record s { loop_scheduled = false } in
      if s'.stopped || s'.paused then s' else arm_timer (drain_due_triggers s' now)

  -- `executeNow`, with the options of the `at` trigger that it makes.
  unfoldable pub execute_now :
      Scheduler K P Plan → K → TriggerOptions K P → ℕ → Scheduler K P Plan × Option (Trigger K P)
  unfolding process_trigger
  execute_now s name o now =
      let (s', t) = schedule_job s name o now (map_get h.dec s.jobs name) in
      (elim t [ none ↦ s' | some t' ↦ process_trigger s' t' now ], t)
