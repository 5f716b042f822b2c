-- ===== src/Cron/Scheduler/Finish.antt =====
-- packages/cron/src/scheduler.ts: the course and the end of a run, and the stalled runs.
use nope.Prelude.{
  ℕ, ◌+◌, Bool, true, false, not, ◌||◌, List, [], ◌∷◌, ◌++◌, Option, none, some, ltb, if◌then◌else◌,
  ite, map_get, map_set, map_delete, keep,
}
use nope.Cron.Store.{
  Trigger, Run, running, completed, failed, stalled, find_stalled_runs, upsert_trigger,
  delete_trigger, get_trigger, record_run_start, record_run_end, touch_run, set_job_paused,
}
use nope.Cron.Scheduler.{
  JobDefinition, Host, Event, ActiveRun, Scheduler, evaluate_retry, emit, with_store, plan_next,
}
use nope.Cron.Scheduler.Dispatch.{ensure_plan, fresh_run, release}

abbrev pub same : {K : Type 0} → Discrete K → K → K → Bool
same dec a b = ite (dec a b) true false

-- `Set.has`, on the list of the members.
abbrev pub contains : {K : Type 0} → Discrete K → List K → K → Bool
contains dec [] k = false
contains dec (j ∷ js) k = same dec j k || contains dec js k

-- `lastProgress !== undefined && progress < lastProgress`; the value -1 of a run without progress is
-- the inner `none`.
abbrev below : ℕ → Option (Option ℕ) → Bool
below p (some (some last)) = ltb p last
below p (some none) = false
below p none = false

module _ {K P Plan : Type 0} (h : Host K P Plan) where
  -- The part of `executeRun` between the capacity and the job.
  pub start_run : Scheduler K P Plan → ActiveRun K P → ℕ → Scheduler K P Plan
  start_run s a now =
      emit
        (record s {
          run_progress = map_set h.dec s.run_progress a.run_id none;
          store =
              record_run_start h.dec s.store
                (record {
                  run_id = a.run_id;
                  trigger_id = a.trigger.id;
                  job = a.trigger.job;
                  scheduled_at = a.scheduled_at;
                  started_at = none;
                  ended_at = none;
                  attempt = a.attempt;
                  status = running;
                  progress = none;
                  heartbeat_at = none;
                })
                now;
        })
        (Event.run a.run_id a.attempt a.scheduled_at)

  -- `touch`: whether it returns rather than throws, and the state it leaves. A progress below the
  -- last one is written to the store before it is refused.
  unfoldable pub touch : Scheduler K P Plan → K → Option ℕ → ℕ → Scheduler K P Plan × Bool
  touch s id none now = (with_store s (touch_run h.dec s.store id none now), true)
  touch s id (some p) now =
      if ltb 100 p
      then (s, false)
      else let s' = with_store s (touch_run h.dec s.store id (some p) now) in
        if below p (map_get h.dec s'.run_progress id) then (s', false) else (
          emit (record s' { run_progress = map_set h.dec s'.run_progress id (some p) })
              (Event.progress id p),
          true,
        )

  -- The branch of a retry that `executeRun` and `handleStalledRun` share.
  unfoldable pub retry_at : Scheduler K P Plan → Trigger K P → ℕ → ℕ → ℕ → Scheduler K P Plan
  retry_at s t delay next_attempt now =
      let (s1, run) = fresh_run h s t.id in
      let s2 =
        emit (emit s1 (Event.retry run next_attempt delay))
          (Event.scheduled t.id run (now + delay)) in
      release h
        (with_store s2 (
          upsert_trigger h.dec s2.store
            (record t { next_run_at = some (now + delay); next_run_id = some run })))
        t.id

  -- What both do with the time that the plan gives.
  unfoldable pub advance_to : Scheduler K P Plan → Trigger K P → Option ℕ → Scheduler K P Plan
  advance_to s t none =
      release h
        (emit
          (record s {
            store = delete_trigger h.dec s.store t.id;
            plans = map_delete h.dec s.plans t.id;
          })
          Event.drain)
        t.id
  advance_to s t (some at) =
      let (s1, run) = fresh_run h s t.id in
      let s2 = emit s1 (Event.scheduled t.id run at) in
      release h
        (with_store s2 (
          upsert_trigger h.dec s2.store
            (record t { next_run_at = some at; next_run_id = some run })))
        t.id

  -- `evaluateRetry` has decided.
  unfoldable pub follow :
      Scheduler K P Plan → Trigger K P → ℕ → ℕ → Option (ℕ × ℕ) → ℕ → Scheduler K P Plan
  unfolding retry_at advance_to
  follow s t plan scheduled_at (some d) now = retry_at s t d.0 d.1 now
  follow s t plan scheduled_at none now =
      let (s', at) = plan_next h.planner s plan scheduled_at in
      advance_to s' (record t { failure_count = 0 }) at

  -- The rest of `executeRun` after the result is recorded and the capacity released.
  unfoldable pub settle_run :
      Scheduler K P Plan → ActiveRun K P → Trigger K P → Option (ℕ × ℕ) → ℕ → Scheduler K P Plan
  unfolding follow
  settle_run s a t retry now =
      if contains h.dec s.handled_runs a.run_id
      then release h
          (record s { handled_runs = keep (λ k. not (same h.dec k a.run_id)) s.handled_runs }) t.id
      else follow s (record t { last_run_at = some a.scheduled_at }) a.plan a.scheduled_at retry now

  -- `releaseRunCapacity`, the part that the state keeps, and the end of `activeRuns`.
  abbrev pub leave : Scheduler K P Plan → ActiveRun K P → Scheduler K P Plan
  leave s a = record s {
    run_progress = map_delete h.dec s.run_progress a.run_id;
    active = keep (λ b. not (same h.dec b.run_id a.run_id)) s.active;
  }

  -- The part of `executeRun` after the job; `ok` is whether it returned.
  unfoldable pub finish_run : Scheduler K P Plan → ActiveRun K P → Bool → ℕ → Scheduler K P Plan
  unfolding settle_run
  finish_run s a true now =
      let st =
        record_run_end h.dec s.store a.run_id (record { status = completed; ended_at = now }) in
      let s1 = emit (with_store s st) (Event.run_completed a.run_id a.attempt) in
      settle_run (leave s1 a) a (record a.trigger { failure_count = 0 }) none now
  finish_run s a false now =
      let st = record_run_end h.dec s.store a.run_id (record { status = failed; ended_at = now }) in
      let s1 = emit (with_store s st) (Event.run_failed a.run_id a.attempt) in
      let retry = evaluate_retry a.job a.attempt in
      let t = record a.trigger {
        failure_count = elim retry [ none ↦ 0 | some _ ↦ a.trigger.failure_count + 1 ];
      } in
      settle_run (leave s1 a) a t retry now

  abbrev pub note_handled : Scheduler K P Plan → K → Scheduler K P Plan
  note_handled s id = record s {
    handled_runs =
        if contains h.dec s.handled_runs id then s.handled_runs else s.handled_runs ++ id ∷ [];
    run_progress = map_delete h.dec s.run_progress id;
  }

  abbrev pub stalled_job :
      Scheduler K P Plan → Run K → Trigger K P → ℕ → Option (JobDefinition K) → Scheduler K P Plan
  stalled_job s r t now none = release h (note_handled s r.run_id) t.id
  stalled_job s r t now (some job) =
      let (s1, plan) = ensure_plan h s t in
      let st =
        record_run_end h.dec s1.store r.run_id (record { status = stalled; ended_at = now }) in
      let s2 = note_handled (emit (with_store s1 st) (Event.run_stalled r.run_id)) r.run_id in
      let t' = record t {
        failure_count = t.failure_count + 1;
        last_run_at = some r.scheduled_at;
      } in
      follow s2 t' plan r.scheduled_at (evaluate_retry job r.attempt) now

  abbrev pub stalled_trigger :
      Scheduler K P Plan → Run K → ℕ → Option (Trigger K P) → Scheduler K P Plan
  stalled_trigger s r now none = note_handled s r.run_id
  stalled_trigger s r now (some t) = stalled_job s r t now (map_get h.dec s.jobs r.job)

  unfoldable pub handle_stalled_run : Scheduler K P Plan → Run K → ℕ → Scheduler K P Plan
  unfolding follow
  handle_stalled_run s r now =
      if contains h.dec s.handled_runs r.run_id
      then s
      else stalled_trigger s r now (get_trigger h.dec s.store r.trigger_id)

  -- The loop of `checkStalledRuns`.
  unfoldable pub handle_all : Scheduler K P Plan → List (Run K) → ℕ → Scheduler K P Plan
  handle_all s [] now = s
  handle_all s (r ∷ rs) now = handle_all (handle_stalled_run s r now) rs now

  unfoldable pub check_stalled_runs : Scheduler K P Plan → ℕ → Scheduler K P Plan
  unfolding handle_all
  check_stalled_runs s now =
      if s.stopped then s else handle_all s (find_stalled_runs s.store s.stalled_after_ms now) now

  -- `setJobPaused`
  pub pause_job : Scheduler K P Plan → K → Bool → ℕ → Scheduler K P Plan
  pause_job s name p now =
      emit (with_store s (set_job_paused h.dec s.store name p now))
        (if p then Event.job_paused name else Event.job_resumed name)
