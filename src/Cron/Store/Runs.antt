-- ===== src/Cron/Store/Runs.antt =====
-- Which runs `findStalledRuns` gives, after a heartbeat and after the end of a run.
use nope.Prelude.{
  ℕ, ◌+◌, ◌≤◌, ◌≡◌, refl, ◌∙◌, ap, ◌≢◌, true, false, List, [], ◌∷◌, Option, none, some, keep, All,
  All-keep, All-keep_of, arith, map_get, map_set, map_get-set_self, Keyed, Keyed-set, Keyed-get,
  Keyed-All,
}
use nope.Cron.Store.{
  Store, Run, RunResult, running, is_stalled, find_stalled_runs, touch_run, record_run_end,
  map_values,
}

module _ {K : Type 0} where
  abbrev touched : Run K → Option ℕ → ℕ → Run K
  touched r progress t = record r {
    heartbeat_at = some t;
    progress = elim progress [ none ↦ r.progress | some p ↦ some p ];
  }

  abbrev ended : Run K → RunResult → Run K
  ended r res = record r { status = res.status; ended_at = some res.ended_at }

  is_stalled-touched :
      (r : Run K) (progress : Option ℕ) (t timeout now : ℕ)
      → now ≤ t + timeout
      → is_stalled timeout now (touched r progress t) ≡ false
  unfolding is_stalled
  is_stalled-touched r progress t timeout now l = ground arith

  is_stalled-ended :
      (r : Run K) (res : RunResult) (timeout now : ℕ)
      → res.status ≢ running
      → is_stalled timeout now (ended r res) ≡ false
  unfolding is_stalled
  is_stalled-ended r res timeout now n = ground arith

module _ {K : Type 0} (dec : Discrete K) where
  -- If what is stored for `k` is not stalled, no stalled run has the id `k`.
  absent :
      (m : List (K × Run K)) (timeout now : ℕ) (k : K) (r : Run K) (l : List (Run K))
      → map_get dec m k ≡ some r
      → is_stalled timeout now r ≡ false
      → All (λ x. map_get dec m x.run_id ≡ some x) l
      → All (λ x. is_stalled timeout now x ≡ true) l
      → All (λ x. x.run_id ≢ k) l
  absent m timeout now k r [] e f g h = tt
  absent m timeout now k r (x ∷ l) e f g h =
      (λ same. cc (ap (map_get dec m) same), absent m timeout now k r l e f g.1 h.1)

module _ {K P : Type 0} (dec : Discrete K) where
  -- Every run stands once, under its own id.
  abbrev pub RunsKeyed : Store K P → Type 0
  RunsKeyed s = Keyed dec (λ (r : Run K). r.run_id) s.runs

  find_stalled_absent :
      (s : Store K P) (timeout now : ℕ) (k : K) (r : Run K)
      → RunsKeyed s
      → map_get dec s.runs k ≡ some r
      → is_stalled timeout now r ≡ false
      → All (λ x. x.run_id ≢ k) (find_stalled_runs s timeout now)
  unfolding find_stalled_runs
  find_stalled_absent s timeout now k r h e f =
      absent dec s.runs timeout now k r (keep (is_stalled timeout now) (map_values s.runs)) e f
        (All-keep_of (λ x. map_get dec s.runs x.run_id ≡ some x) (is_stalled timeout now)
          (map_values s.runs) (Keyed-All dec (λ x. x.run_id) s.runs h))
        (All-keep (is_stalled timeout now) (map_values s.runs))

  touch_run_stored :
      (s : Store K P) (k : K) (r : Run K) (progress : Option ℕ) (t : ℕ)
      → map_get dec s.runs k ≡ some r
      → touch_run dec s k progress t
        ≡ record s { runs = map_set dec s.runs k (touched r progress t) }
  unfolding touch_run
  touch_run_stored s k r progress t e = rw (e, touch_run) refl

  record_run_end_stored :
      (s : Store K P) (k : K) (r : Run K) (res : RunResult)
      → map_get dec s.runs k ≡ some r
      → record_run_end dec s k res ≡ record s { runs = map_set dec s.runs k (ended r res) }
  unfolding record_run_end
  record_run_end_stored s k r res e = rw (e, record_run_end) refl

  -- A store in which the run `k` was replaced by one that is not stalled.
  replaced_absent :
      (s : Store K P) (timeout now : ℕ) (k : K) (r r' : Run K)
      → RunsKeyed s
      → map_get dec s.runs k ≡ some r
      → r'.run_id ≡ r.run_id
      → is_stalled timeout now r' ≡ false
      → All
          (λ x. x.run_id ≢ k)
          (find_stalled_runs (record s { runs = map_set dec s.runs k r' }) timeout now)
  replaced_absent s timeout now k r r' h e same f =
      find_stalled_absent (record s { runs = map_set dec s.runs k r' }) timeout now k r'
        (Keyed-set dec (λ x. x.run_id) s.runs k r'
          (same ∙ Keyed-get dec (λ x. x.run_id) s.runs k r h e) h)
        (map_get-set_self dec s.runs k r') f

  -- A run that gave a heartbeat at `t` is not among the stalled ones before more than `timeout` has
  -- passed since.
  pub touch_run_not_stalled :
      (s : Store K P) (k : K) (r : Run K) (progress : Option ℕ) (t timeout now : ℕ)
      → RunsKeyed s
      → map_get dec s.runs k ≡ some r
      → now ≤ t + timeout
      → All (λ x. x.run_id ≢ k) (find_stalled_runs (touch_run dec s k progress t) timeout now)
  touch_run_not_stalled s k r progress t timeout now h e l =
      rw (touch_run_stored s k r progress t e) (
        replaced_absent s timeout now k r (touched r progress t) h e refl
          (is_stalled-touched r progress t timeout now l))

  -- A run that has ended is never among the stalled ones.
  pub record_run_end_not_stalled :
      (s : Store K P) (k : K) (r : Run K) (res : RunResult) (timeout now : ℕ)
      → RunsKeyed s
      → map_get dec s.runs k ≡ some r
      → res.status ≢ running
      → All (λ x. x.run_id ≢ k) (find_stalled_runs (record_run_end dec s k res) timeout now)
  record_run_end_not_stalled s k r res timeout now h e n = rw (record_run_end_stored s k r res e) (
      replaced_absent s timeout now k r (ended r res) h e refl
        (is_stalled-ended r res timeout now n))
