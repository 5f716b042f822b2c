-- ===== src/Cron/Scheduler/Repeats.antt =====
-- The misfire skip of packages/cron/src/scheduler.ts over the plans of planner/every.ts.
use nope.Prelude.{
  ℕ, zero, suc, ◌<◌, ◌≡◌, ◌+◌, ◌-◌, ◌*◌, subst, refl, sym, ap, ◌∙◌, Option, none, some, arith,
  Bool-cases, inl, inr, map_get, map_get-set_self,
}
use nope.Cron.Store.{Trigger, upsert_trigger}
use nope.Cron.Every as Every
use nope.Cron.Every.{create_every_plan, tick, next-tick}
use nope.Cron.Scheduler.{Scheduler, Host, Planner, plan_next, put_plan, max_misfire_skip}
use nope.Cron.Scheduler.Dispatch.{skip_loop, skip_overdue_runs, skip_found, late}

-- `createPlan` for every-triggers that are added at the time `now`.
abbrev pub every_planner : ℕ → Planner Every.Options Every.Plan
every_planner now = record { create_plan = λ o. create_every_plan o now; next = Every.next }

put_self :
    {Plan : Type 0} (heap : ℕ → Option Plan) (i : ℕ) (p : Plan) → put_plan heap i p i ≡ some p
put_self heap i p = ground arith

module _ {K : Type 0} (h : Host K Every.Options Every.Plan) (added : ℕ) where
  abbrev pub every_host : Host K Every.Options Every.Plan
  every_host = record h { planner = every_planner added }

  -- The plan at `i` is this one, asked so and so often.
  record Asked (s : Scheduler K Every.Options Every.Plan) (i : ℕ) (p : Every.Plan) : Type 0 where
    plan : Every.Plan
    held : s.heap i ≡ some plan
    interval : plan.interval_ms ≡ p.interval_ms
    anchor : plan.anchor_ms ≡ p.anchor_ms
    no_max : plan.max_runs ≡ none
    no_end : plan.end_at ≡ none

  ask_twice :
      (s : Scheduler K Every.Options Every.Plan) (i j : ℕ) (p : Every.Plan)
      → 0 < p.interval_ms
      → Asked s i p
      → Asked (plan_next every_host.planner s i (tick p j)).0 i p
        × ((plan_next every_host.planner s i (tick p j)).1 ≡ some (tick p j))
  unfolding plan_next
  ask_twice s i j p l a =
      let here : tick a.plan j ≡ tick p j =
        ap (λ n. n + j * a.plan.interval_ms) a.anchor ∙ ap (λ n. p.anchor_ms + j * n) a.interval in
      let q : Every.Plan = record a.plan { emitted = a.plan.emitted + 1 } in
      let given : Every.next a.plan (tick p j) ≡ (q, some (tick p j)) =
        subst (λ n. Every.next a.plan n ≡ (q, some n)) here
          (next-tick a.plan j (subst (λ n. 0 < n) (sym a.interval) l) a.no_max a.no_end) in
      rw (a.held, given)
        (
          record {
            plan = q;
            held = put_self s.heap i q;
            interval = a.interval;
            anchor = a.anchor;
            no_max = a.no_max;
            no_end = a.no_end;
          },
          refl,
        )

  skip_loop_again :
      (n : ℕ) (s : Scheduler K Every.Options Every.Plan) (i j now : ℕ) (p : Every.Plan)
      → 0 < p.interval_ms
      → Asked s i p
      → (skip_loop every_host n s i (tick p j) now).1 ≡ some (tick p j)
  unfolding skip_loop
  skip_loop_again zero s i j now p l a = (ask_twice s i j p l a).1
  skip_loop_again (suc n) s i j now p l a =
      let s' : Scheduler K Every.Options Every.Plan =
        (plan_next every_host.planner s i (tick p j)).0 in
      let (a', e) = ask_twice s i j p l a in
      rw (skip_loop, e)
        (elim (Bool-cases (late every_host s' (tick p j) now)) [
          | inl b ↦ rw b (skip_loop_again n s' i j now p l a')
          | inr b ↦ rw b refl
        ])

  -- What is stored of a trigger's next time.
  abbrev pub stored_time : Option (Trigger K Every.Options) → Option ℕ
  stored_time none = none
  stored_time (some t) = t.next_run_at

  stored_found :
      (s : Scheduler K Every.Options Every.Plan) (t : Trigger K Every.Options) (at u : ℕ)
      (o : Option ℕ)
      → o ≡ some u
      → stored_time (map_get h.dec (skip_found every_host s t at o).store.triggers t.id) ≡ some u
  unfolding skip_found upsert_trigger
  stored_found s t at u none e = absurd (cc)
  stored_found s t at u (some v) e =
      ap stored_time (map_get-set_self h.dec s.store.triggers t.id _) ∙ e

  -- An every-trigger without a maximum of runs and without an end, whose run at one of the plan's own
  -- instants is skipped for being overdue, is stored with that same instant as its next time: the skip
  -- does not advance it, however late it is.
  pub skip_overdue_runs-tick :
      (s : Scheduler K Every.Options Every.Plan) (t : Trigger K Every.Options) (i j now : ℕ)
      (p : Every.Plan)
      → s.heap i ≡ some p
      → 0 < p.interval_ms
      → p.max_runs ≡ none
      → p.end_at ≡ none
      → stored_time
          (map_get h.dec (skip_overdue_runs every_host s t i (tick p j) now).store.triggers t.id)
        ≡ some (tick p j)
  unfolding skip_overdue_runs
  skip_overdue_runs-tick s t i j now p e l m d = stored_found _ t (tick p j) (tick p j) _ (
      skip_loop_again (max_misfire_skip - 1) s i j now p l
        (record { plan = p; held = e; interval = refl; anchor = refl; no_max = m; no_end = d }))
