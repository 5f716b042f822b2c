-- ===== src/Cron/Scheduler/Ends.antt =====
-- What the end of a run leaves of its trigger: the next time, the failure count, or nothing.
use nope.Prelude.{
  Text, ℕ, ◌+◌, ◌≤◌, ◌≡◌, refl, Bool, true, false, List, Option, none, some, map_get, map_set,
  map_get-set_self, map_get-set_ne, map_get-delete_self, arith, ◌∙◌, ap, Option-cases, inl, inr,
  if◌then◌else◌, max,
}
use nope.Cron.Store.{
  Store, Trigger, get_trigger, upsert_trigger, delete_trigger, release_trigger, release_found,
}
use nope.Cron.Scheduler.{
  Scheduler, Host, ActiveRun, JobDefinition, RetryPolicy, Planner, plan_next, evaluate_retry,
}
use nope.Cron.Scheduler.Finish.{contains, retry_at, advance_to, follow, settle_run, finish_run}

-- What of a trigger decides when its next run is.
pub record Timing : Type 0 where
  pub next_run_at : Option ℕ
  pub last_run_at : Option ℕ
  pub failure_count : ℕ
  pub paused : Bool

abbrev pub timing : {K P : Type 0} → Option (Trigger K P) → Option Timing
timing none = none
timing (some t) = some (record {
  next_run_at = t.next_run_at;
  last_run_at = t.last_run_at;
  failure_count = t.failure_count;
  paused = t.paused;
})

-- The time that a plan on the heap gives next.
abbrev pub time_after : {P Plan : Type 0} → Planner P Plan → Option Plan → ℕ → Option ℕ
time_after planner none after = none
time_after planner (some p) after = (planner.next p after).1

module _ {K P Plan : Type 0} (h : Host K P Plan) where
  abbrev pub timing_at : Scheduler K P Plan → K → Option Timing
  timing_at s k = timing (get_trigger h.dec s.store k)

  pub plan_next_time :
      (s : Scheduler K P Plan) (i after : ℕ)
      → ((plan_next h.planner s i after).1 ≡ time_after h.planner (s.heap i) after)
        × ((plan_next h.planner s i after).0.store ≡ s.store)
  unfolding plan_next
  plan_next_time s i after = elim (Option-cases (s.heap i)) [
    | inl e ↦ rw e (refl, refl)
    | inr (p, e) ↦ rw e (refl, refl)
  ]

  set_timing :
      (m : List (K × Trigger K P)) (k q : K) (t u : Trigger K P)
      → map_get h.dec m k ≡ some t
      → timing (some u) ≡ timing (some t)
      → timing (map_get h.dec (map_set h.dec m k u) q) ≡ timing (map_get h.dec m q)
  set_timing m k q t u e same = elim (h.dec k q) [
    | yes p ↦ rw (← p, map_get-set_self h.dec m k u, e) same
    | no n ↦ ap timing (map_get-set_ne h.dec m k q u n)
  ]

  either_timing :
      (b : Bool) (q : K) (x y : Store K P) (r : Option Timing)
      → timing (map_get h.dec x.triggers q) ≡ r
      → timing (map_get h.dec y.triggers q) ≡ r
      → timing (map_get h.dec (if b then x else y).triggers q) ≡ r
  either_timing true q x y r f g = f
  either_timing false q x y r f g = g

  released_timing :
      (s : Store K P) (k : K) (o : Text) (m : Option (Trigger K P)) (q : K)
      → map_get h.dec s.triggers k ≡ m
      → timing (map_get h.dec (release_found h.dec s k o m).triggers q)
        ≡ timing (map_get h.dec s.triggers q)
  unfolding release_found
  released_timing s k o none q e = refl
  released_timing s k o (some t) q e =
      either_timing _ q _ s _ (set_timing s.triggers k q t _ e refl) refl

  -- A release changes no trigger's times.
  pub release-timing :
      (s : Store K P) (k : K) (o : Text) (q : K)
      → timing (get_trigger h.dec (release_trigger h.dec s k o) q) ≡ timing (get_trigger h.dec s q)
  unfolding get_trigger release_trigger
  release-timing s k o q = released_timing s k o (map_get h.dec s.triggers k) q refl

  -- The times of a trigger after a run at `at`, by the retry that is granted and by its plan.
  abbrev pub planned : Trigger K P → Option ℕ → Option Timing
  planned t none = none
  planned t (some next) = some (record {
    next_run_at = some next;
    last_run_at = t.last_run_at;
    failure_count = t.failure_count;
    paused = t.paused;
  })

  retry_at-timing :
      (s : Scheduler K P Plan) (t : Trigger K P) (delay next now : ℕ)
      → timing_at (retry_at h s t delay next now) t.id ≡ planned t (some (now + delay))
  unfolding retry_at get_trigger upsert_trigger
  retry_at-timing s t delay next now =
      release-timing _ t.id s.owner_id t.id
      ∙ ap timing (map_get-set_self h.dec s.store.triggers t.id _)

  advance_to-timing :
      (s : Scheduler K P Plan) (t : Trigger K P) (at : Option ℕ)
      → timing_at (advance_to h s t at) t.id ≡ planned t at
  unfolding advance_to get_trigger upsert_trigger delete_trigger
  advance_to-timing s t none =
      release-timing _ t.id s.owner_id t.id
      ∙ ap timing (map_get-delete_self h.dec s.store.triggers t.id)
  advance_to-timing s t (some at) =
      release-timing _ t.id s.owner_id t.id
      ∙ ap timing (map_get-set_self h.dec s.store.triggers t.id _)

  -- The times that a trigger has after a run at `at` that left it as `t`.
  abbrev pub settled : Trigger K P → Option (ℕ × ℕ) → Option ℕ → ℕ → Option Timing
  settled t (some d) next now = planned t (some (now + d.0))
  settled t none next now = planned (record t { failure_count = 0 }) next

  pub follow-timing :
      (s : Scheduler K P Plan) (t : Trigger K P) (plan at : ℕ) (retry : Option (ℕ × ℕ)) (now : ℕ)
      → timing_at (follow h s t plan at retry now) t.id
        ≡ settled t retry (time_after h.planner (s.heap plan) at) now
  unfolding follow
  follow-timing s t plan at (some d) now = retry_at-timing s t d.0 d.1 now
  follow-timing s t plan at none now =
      advance_to-timing (plan_next h.planner s plan at).0 (record t { failure_count = 0 }) _
      ∙ ap (planned (record t { failure_count = 0 })) (plan_next_time s plan at).0

  -- The retry that a run's end asks for, and the failures that it leaves counted.
  abbrev pub retry_after : ActiveRun K P → Bool → Option (ℕ × ℕ)
  retry_after a true = none
  retry_after a false = evaluate_retry a.job a.attempt

  abbrev pub failures_after : ActiveRun K P → Option (ℕ × ℕ) → ℕ
  failures_after a none = 0
  failures_after a (some d) = a.trigger.failure_count + 1

  abbrev pub ended : ActiveRun K P → Bool → Option ℕ → ℕ → Option Timing
  ended a ok next now =
      settled
        (record a.trigger {
          last_run_at = some a.scheduled_at;
          failure_count = failures_after a (retry_after a ok);
        })
        (retry_after a ok) next now

  -- The end of a run that was not taken for stalled, whatever the store holds by then: its trigger is
  -- due again after the delay where a retry is granted, with one more failure counted; else at the
  -- time that its plan gives after this run's time, with no failure counted; and it is not in the
  -- store where the plan gives none. Its pause is that which it had when the run was begun.
  pub finish_run-timing :
      (s : Scheduler K P Plan) (a : ActiveRun K P) (ok : Bool) (now : ℕ)
      → contains h.dec s.handled_runs a.run_id ≡ false
      → timing_at (finish_run h s a ok now) a.trigger.id
        ≡ ended a ok (time_after h.planner (s.heap a.plan) a.scheduled_at) now
  unfolding finish_run settle_run
  finish_run-timing s a true now e = rw e (
      follow-timing _
        (record a.trigger {
          last_run_at = some a.scheduled_at;
          failure_count = failures_after a none;
        })
        a.plan a.scheduled_at none now)
  finish_run-timing s a false now e = rw e (
      follow-timing _
        (record a.trigger {
          last_run_at = some a.scheduled_at;
          failure_count = failures_after a (evaluate_retry a.job a.attempt);
        })
        a.plan a.scheduled_at (evaluate_retry a.job a.attempt) now)

-- A retry is granted only before the last attempt of at least one, and it is the next attempt.
pub evaluate_retry-some :
    {K : Type 0} (job : JobDefinition K) (attempt delay next : ℕ) (policy : RetryPolicy)
    → job.retries ≡ some policy
    → evaluate_retry job attempt ≡ some (delay, next)
    → (next ≡ attempt + 1) × (next ≤ max 1 policy.max_attempts) × (delay ≡ policy.strategy next)
unfolding evaluate_retry
evaluate_retry-some job attempt delay next policy r e = ground arith
