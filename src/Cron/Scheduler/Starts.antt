-- ===== src/Cron/Scheduler/Starts.antt =====
-- How due triggers become runs.
use nope.Prelude.{
  ℕ, zero, suc, ◌≡◌, refl, [], ◌∷◌, ◌++◌, Option, none, some, map_get, ◌∙◌, ap, Option-cases,
  Bool-cases, inl, inr, if_elim,
}
use nope.Cron.Store.{Trigger}
use nope.Cron.Scheduler.{Scheduler, Host, ActiveRun, JobDefinition, plan_next, new_plan}
use nope.Cron.Scheduler.Dispatch.{
  ensure_plan, skip_loop, skip_found, skip_overdue_runs, begin_run, late, misfires, dispatch_at,
  dispatch_job, dispatch,
}

module _ {K P Plan : Type 0} (h : Host K P Plan) where
  -- What of the state the choice of a run's time leaves alone.
  abbrev Same : Scheduler K P Plan → Scheduler K P Plan → Type 0
  Same s s' = (s'.active ≡ s.active) × (s'.store ≡ s.store)

  plan_next-Same : (s : Scheduler K P Plan) (i after : ℕ) → Same s (plan_next h.planner s i after).0
  unfolding plan_next
  plan_next-Same s i after = elim (Option-cases (s.heap i)) [
    | inl e ↦ rw e (refl, refl)
    | inr (p, e) ↦ rw e (refl, refl)
  ]

  ensure_plan-Same : (s : Scheduler K P Plan) (t : Trigger K P) → Same s (ensure_plan h s t).0
  unfolding ensure_plan new_plan
  ensure_plan-Same s t = elim (Option-cases (map_get h.dec s.plans t.id)) [
    | inl e ↦ rw e (refl, refl)
    | inr (i, e) ↦ rw e (refl, refl)
  ]

  skip_loop_active :
      (n : ℕ) (s : Scheduler K P Plan) (plan reference now : ℕ)
      → (skip_loop h n s plan reference now).0.active ≡ s.active
  unfolding skip_loop
  skip_loop_active zero s plan reference now = (plan_next-Same s plan reference).0
  skip_loop_active (suc n) s plan reference now =
      let s' : Scheduler K P Plan = (plan_next h.planner s plan reference).0 in
      let same = (plan_next-Same s plan reference).0 in
      elim (Option-cases (plan_next h.planner s plan reference).1) [
        | inl q ↦ rw (skip_loop, q) same
        | inr (u, q) ↦
            rw (skip_loop, q)
              (elim (Bool-cases (late h s' u now)) [
                | inl b ↦ rw b (skip_loop_active n s' plan u now ∙ same)
                | inr b ↦ rw b same
              ])
      ]

  skip_found_active :
      (s : Scheduler K P Plan) (t : Trigger K P) (at : ℕ) (next : Option ℕ)
      → (skip_found h s t at next).active ≡ s.active
  unfolding skip_found
  skip_found_active s t at none = refl
  skip_found_active s t at (some u) = refl

  skip_overdue_runs_active :
      (s : Scheduler K P Plan) (t : Trigger K P) (plan at now : ℕ)
      → (skip_overdue_runs h s t plan at now).active ≡ s.active
  unfolding skip_overdue_runs
  skip_overdue_runs_active s t plan at now =
      skip_found_active _ t at _ ∙ skip_loop_active _ s plan at now

  -- A step either begins a run and leaves the store alone, or begins none.
  pub data Begins (s s' : Scheduler K P Plan) : Type 0 where
    begun : (a : ActiveRun K P) → s'.active ≡ s.active ++ a ∷ [] → s'.store ≡ s.store → Begins s s'
    idle : s'.active ≡ s.active → Begins s s'

  begin_run-Begins :
      (s : Scheduler K P Plan) (t : Trigger K P) (job : JobDefinition K) (plan at : ℕ)
      (run : Option K)
      → Begins s (begin_run h s t job plan at run)
  begin_run-Begins s t job plan at none = begun _ refl refl
  begin_run-Begins s t job plan at (some run) = begun _ refl refl

  dispatch_at-Begins :
      (s : Scheduler K P Plan) (t : Trigger K P) (job : JobDefinition K) (plan now : ℕ)
      (at : Option ℕ)
      → Begins s (dispatch_at h s t job plan now at)
  dispatch_at-Begins s t job plan now none = begin_run-Begins s t job plan now t.next_run_id
  dispatch_at-Begins s t job plan now (some at) =
      if_elim (Begins s) (misfires h s t at now)
        (λ _. idle (skip_overdue_runs_active s t plan at now))
        (λ _. begin_run-Begins s t job plan at t.next_run_id)

  dispatch_job-Begins :
      (s : Scheduler K P Plan) (t : Trigger K P) (plan now : ℕ) (job : Option (JobDefinition K))
      → Begins s (dispatch_job h s t plan now job)
  dispatch_job-Begins s t plan now none = idle refl
  dispatch_job-Begins s t plan now (some job) = dispatch_at-Begins s t job plan now t.next_run_at

  Begins-of_Same : (s s1 s2 : Scheduler K P Plan) → Same s s1 → Begins s1 s2 → Begins s s2
  Begins-of_Same s s1 s2 (a, st) (begun r e f) = begun r (e ∙ ap (λ l. l ++ r ∷ []) a) (f ∙ st)
  Begins-of_Same s s1 s2 (a, st) (idle e) = idle (e ∙ a)

  pub dispatch-Begins :
      (s : Scheduler K P Plan) (t : Trigger K P) (now : ℕ) → Begins s (dispatch h s t now)
  unfolding dispatch
  dispatch-Begins s t now =
      Begins-of_Same s (ensure_plan h s t).0 _ (ensure_plan-Same s t)
        (dispatch_job-Begins _ t _ now _)
