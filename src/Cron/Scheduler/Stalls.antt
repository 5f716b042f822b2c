-- ===== src/Cron/Scheduler/Stalls.antt =====
-- A run that is taken for stalled is taken so once, and its own end then decides nothing.
use nope.Prelude.{
  ℕ, ◌≡◌, refl, Bool, true, false, not, List, [], ◌∷◌, ◌++◌, Option, none, some, map_get, arith,
  ◌∙◌, ap, Option-cases, Bool-cases, inl, inr, if◌then◌else◌, keep,
}
use nope.Cron.Store.{Store, Trigger, Run, RunResult, get_trigger, record_run_end}
use nope.Cron.Scheduler.{Scheduler, Host, ActiveRun, JobDefinition, plan_next}
use nope.Cron.Scheduler.Finish.{
  contains, same, retry_at, advance_to, follow, settle_run, finish_run, stalled_job,
  stalled_trigger, handle_stalled_run,
}
use nope.Cron.Scheduler.Ends.{timing, timing_at, release-timing}

module _ {K : Type 0} (dec : Discrete K) where
  contains-append : (l : List K) (k : K) → contains dec (l ++ k ∷ []) k ≡ true
  contains-append [] k = ground arith
  contains-append (j ∷ l) k = ground (arith, contains-append l k)

  contains-keep : (l : List K) (k : K) → contains dec (keep (λ j. not (same dec j k)) l) k ≡ false
  contains-keep [] k = refl
  contains-keep (j ∷ l) k = ground (arith, contains-keep l k)

module _ {K P Plan : Type 0} (h : Host K P Plan) where
  noted :
      (l : List K) (k : K) → contains h.dec (if contains h.dec l k then l else l ++ k ∷ []) k ≡ true
  noted l k = elim (Bool-cases (contains h.dec l k)) [
    | inl e ↦ rw e e
    | inr e ↦ rw e (contains-append h.dec l k)
  ]

  plan_next_handled :
      (s : Scheduler K P Plan) (i after : ℕ)
      → (plan_next h.planner s i after).0.handled_runs ≡ s.handled_runs
  unfolding plan_next
  plan_next_handled s i after = elim (Option-cases (s.heap i)) [
    | inl e ↦ rw e refl
    | inr (p, e) ↦ rw e refl
  ]

  advance_to_handled :
      (s : Scheduler K P Plan) (t : Trigger K P) (at : Option ℕ)
      → (advance_to h s t at).handled_runs ≡ s.handled_runs
  unfolding advance_to
  advance_to_handled s t none = refl
  advance_to_handled s t (some at) = refl

  follow_handled :
      (s : Scheduler K P Plan) (t : Trigger K P) (plan at : ℕ) (retry : Option (ℕ × ℕ)) (now : ℕ)
      → (follow h s t plan at retry now).handled_runs ≡ s.handled_runs
  unfolding follow retry_at
  follow_handled s t plan at (some d) now = refl
  follow_handled s t plan at none now =
      advance_to_handled _ (record t { failure_count = 0 }) _ ∙ plan_next_handled s plan at

  stalled_job_handled :
      (s : Scheduler K P Plan) (r : Run K) (t : Trigger K P) (now : ℕ)
      (job : Option (JobDefinition K))
      → contains h.dec (stalled_job h s r t now job).handled_runs r.run_id ≡ true
  stalled_job_handled s r t now none = noted s.handled_runs r.run_id
  stalled_job_handled s r t now (some job) =
      ap (λ l. contains h.dec l r.run_id) (follow_handled _ _ _ _ _ now) ∙ noted _ r.run_id

  stalled_trigger_handled :
      (s : Scheduler K P Plan) (r : Run K) (now : ℕ) (t : Option (Trigger K P))
      → contains h.dec (stalled_trigger h s r now t).handled_runs r.run_id ≡ true
  stalled_trigger_handled s r now none = noted s.handled_runs r.run_id
  stalled_trigger_handled s r now (some t) = stalled_job_handled s r t now _

  handle_stalled_run_handled :
      (s : Scheduler K P Plan) (r : Run K) (now : ℕ)
      → contains h.dec (handle_stalled_run h s r now).handled_runs r.run_id ≡ true
  unfolding handle_stalled_run
  handle_stalled_run_handled s r now = elim (Bool-cases (contains h.dec s.handled_runs r.run_id)) [
    | inl e ↦ rw e e
    | inr e ↦ rw e (stalled_trigger_handled s r now _)
  ]

  record_run_end_triggers :
      (s : Store K P) (k : K) (r : RunResult) → (record_run_end h.dec s k r).triggers ≡ s.triggers
  unfolding record_run_end
  record_run_end_triggers s k r = elim (Option-cases (map_get h.dec s.runs k)) [
    | inl e ↦ rw (record_run_end, e) refl
    | inr (x, e) ↦ rw (record_run_end, e) refl
  ]

  -- The end of a run that has been taken for stalled changes the times of no trigger, and takes the mark away.
  finish_run_marked :
      (s : Scheduler K P Plan) (a : ActiveRun K P) (ok : Bool) (now : ℕ) (q : K)
      → contains h.dec s.handled_runs a.run_id ≡ true
      → (timing_at h (finish_run h s a ok now) q ≡ timing_at h s q)
        × (contains h.dec (finish_run h s a ok now).handled_runs a.run_id ≡ false)
  unfolding finish_run settle_run get_trigger
  finish_run_marked s a true now q e = rw e (
    release-timing h _ a.trigger.id s.owner_id q
        ∙ ap (λ m. timing (map_get h.dec m q)) (record_run_end_triggers s.store a.run_id _),
    contains-keep h.dec s.handled_runs a.run_id,
  )
  finish_run_marked s a false now q e = rw e (
    release-timing h _ a.trigger.id s.owner_id q
        ∙ ap (λ m. timing (map_get h.dec m q)) (record_run_end_triggers s.store a.run_id _),
    contains-keep h.dec s.handled_runs a.run_id,
  )

  handled_again :
      (s : Scheduler K P Plan) (r : Run K) (now : ℕ)
      → contains h.dec s.handled_runs r.run_id ≡ true
      → handle_stalled_run h s r now ≡ s
  unfolding handle_stalled_run
  handled_again s r now e = rw e refl

  -- However often and whenever the monitor finds the same run again, it handles it once; and when the
  -- run ends after all, well or badly, that leaves every trigger the times it has after the handling.
  pub finish_run-handle_stalled_run :
      (s : Scheduler K P Plan) (r : Run K) (a : ActiveRun K P) (ok : Bool) (now later last : ℕ)
      (q : K)
      → a.run_id ≡ r.run_id
      → (handle_stalled_run h (handle_stalled_run h s r now) r later ≡ handle_stalled_run h s r now)
        × (timing_at h (finish_run h (handle_stalled_run h s r now) a ok last) q
            ≡ timing_at h (handle_stalled_run h s r now) q)
  finish_run-handle_stalled_run s r a ok now later last q e = (
    handled_again (handle_stalled_run h s r now) r later (handle_stalled_run_handled s r now),
    (finish_run_marked (handle_stalled_run h s r now) a ok last q
        (ap (contains h.dec _) e ∙ handle_stalled_run_handled s r now)).0,
  )
