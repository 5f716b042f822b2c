-- ===== src/Tests/Schedulers.antt =====
-- Runs of packages/cron/src/scheduler.ts, with numbers for names and plans: a plan `p` gives
-- the time `p + 1` after the one asked for.
use nope.Prelude.{ℕ, suc, ◌+◌, ◌≡◌, refl, [], ◌∷◌, none, some, arith, true, false, ltb, ℕ_discrete}
use nope.Prelude.{Text, text, text_ne}
use nope.Prelude.Integers.{pos}
use nope.Cron.Store.{Trigger, Run, running, claim_trigger, claim_found}
use nope.Cron.Scheduler.{Scheduler, Host, Planner, ActiveRun, JobDefinition}
use nope.Cron.Scheduler.Dispatch.{dispatch, ensure_plan, process_trigger}
use nope.Cron.Scheduler.Finish.{finish_run, handle_stalled_run}
use nope.Cron.Scheduler.Ends.{timing_at, ended, time_after, finish_run-timing}
use nope.Cron.Scheduler.Stalls.{finish_run-handle_stalled_run}
use nope.Cron.Every as Every
use nope.Cron.Scheduler.Dispatch.{skip_overdue_runs}
use nope.Cron.Store.{skip}
use nope.Prelude.{map_get}
use nope.Cron.Scheduler.Repeats.{every_planner, every_host, stored_time, skip_overdue_runs-tick}
use nope.Cron.Scheduler.Claims.{process_trigger-exclusive}

abbrev intervals : Planner ℕ ℕ
intervals = record { create_plan = λ p. p; next = λ p t. (p, some (t + suc p)) }

abbrev host : Host ℕ ℕ ℕ
host = record {
  dec = ℕ_discrete;
  locale_gt = λ a b. ltb b a;
  planner = intervals;
  ids = record { trigger_id = λ job n. job + n; run_id = λ trigger n. trigger + n };
}

abbrev due : Trigger ℕ ℕ
due = record {
  id = 1;
  job = 7;
  options = 9;
  next_run_at = some 100;
  last_run_at = none;
  failure_count = 0;
  misfire_policy = none;
  priority = pos 0;
  paused = false;
  revision = 0;
  next_run_id = some 50;
  leased_until = none;
  lease_owner = none;
}

abbrev job : JobDefinition ℕ
job = record { name = 7; retries = some (record { max_attempts = 3; strategy = λ n. n + 10 }) }

abbrev stalled_run : Run ℕ
stalled_run = record {
  run_id = 50;
  trigger_id = 1;
  job = 7;
  scheduled_at = 100;
  started_at = some 100;
  ended_at = none;
  attempt = 1;
  status = running;
  progress = none;
  heartbeat_at = some 100;
}

abbrev engine : Text → Scheduler ℕ ℕ ℕ
engine owner = record {
  owner_id = owner;
  misfire_tolerance_ms = 20;
  stalled_after_ms = 30;
  store = record { jobs = []; triggers = (1, due) ∷ []; runs = (50, stalled_run) ∷ [] };
  jobs = (7, job) ∷ [];
  plans = (1, 0) ∷ [];
  heap = λ i. some 9;
  heap_size = 1;
  active = [];
  handled_runs = [];
  run_progress = [];
  events = [];
  serial = 60;
  stopped = false;
  paused = false;
  loop_scheduled = false;
}

abbrev in_flight : ActiveRun ℕ ℕ
in_flight = record {
  trigger = due;
  job = job;
  plan = 0;
  run_id = 50;
  scheduled_at = 100;
  attempt = 1;
}

-- Of two engines on one store, the second finds the trigger leased.
process_trigger-exclusive_example :
    process_trigger host
      (record (engine (text "b")) {
        store = (process_trigger host (engine (text "a")) due 110).store;
      })
      due
      120
    ≡ record (engine (text "b")) {
      store = (process_trigger host (engine (text "a")) due 110).store;
    }
unfolding process_trigger dispatch ensure_plan claim_trigger claim_found ℕ_discrete
process_trigger-exclusive_example =
    process_trigger-exclusive host (engine (text "a"))
      (record (engine (text "b")) {
        store = (process_trigger host (engine (text "a")) due 110).store;
      })
      due due 110 120 (text_ne (text "a") [] refl) (omega arith) refl
      (text_ne (text "a") (text "b") refl) refl (omega arith)

-- A failed first attempt of three is retried.
finish_run-timing_example :
    timing_at host (finish_run host (engine (text "a")) in_flight false 130) 1
    ≡ ended host in_flight false (time_after intervals (some 9) 100) 130
finish_run-timing_example = finish_run-timing host (engine (text "a")) in_flight false 130 refl

finish_run-handle_stalled_run_example :
    (handle_stalled_run host
        (handle_stalled_run host (engine (text "a")) stalled_run 200)
        stalled_run
        300
      ≡ handle_stalled_run host (engine (text "a")) stalled_run 200)
    × (timing_at host
          (finish_run host
            (handle_stalled_run host (engine (text "a")) stalled_run 200)
            in_flight
            true
            400)
          1
        ≡ timing_at host (handle_stalled_run host (engine (text "a")) stalled_run 200) 1)
finish_run-handle_stalled_run_example =
    finish_run-handle_stalled_run host (engine (text "a")) stalled_run in_flight true 200 300 400 1
      refl

abbrev daily : Every.Plan
daily = record { interval_ms = 24; anchor_ms = 100; end_at = none; max_runs = none; emitted = 1 }

abbrev every_day : Trigger ℕ Every.Options
every_day = record {
  id = 1;
  job = 7;
  options = record {
    every = 24;
    start_at = some 100;
    offset = none;
    end_at = none;
    max_runs = none;
  };
  next_run_at = some 124;
  last_run_at = some 100;
  failure_count = 0;
  misfire_policy = some skip;
  priority = pos 0;
  paused = false;
  revision = 0;
  next_run_id = some 50;
  leased_until = none;
  lease_owner = none;
}

abbrev day_host : Host ℕ Every.Options Every.Plan
day_host = record {
  dec = ℕ_discrete;
  locale_gt = λ a b. ltb b a;
  planner = every_planner 0;
  ids = record { trigger_id = λ job n. job + n; run_id = λ trigger n. trigger + n };
}

abbrev day_engine : Scheduler ℕ Every.Options Every.Plan
day_engine = record {
  owner_id = text "a";
  misfire_tolerance_ms = 20;
  stalled_after_ms = 30;
  store = record { jobs = []; triggers = (1, every_day) ∷ []; runs = [] };
  jobs = [];
  plans = (1, 0) ∷ [];
  heap = λ i. some daily;
  heap_size = 1;
  active = [];
  handled_runs = [];
  run_progress = [];
  events = [];
  serial = 60;
  stopped = false;
  paused = false;
  loop_scheduled = false;
}

-- The run of 124 is skipped at 1000, and the next is planned for 124.
skip_overdue_runs-tick_example :
    stored_time day_host 0 (
      map_get ℕ_discrete
        (skip_overdue_runs (every_host day_host 0) day_engine every_day 0 124 1000).store.triggers
        1)
    ≡ some 124
skip_overdue_runs-tick_example =
    skip_overdue_runs-tick day_host 0 day_engine every_day 0 1 1000 daily refl (omega arith) refl
      refl
