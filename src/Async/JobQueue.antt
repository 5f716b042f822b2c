-- ===== src/Async/JobQueue.antt =====
-- shareds/async/src/concurrency/job-queue.ts: `JobQueue`. A job is a number; to run it is to append
-- it to `started`. A job ends in a later turn, by `finish`, whether its task succeeded or threw.
use nope.Prelude.{
  ℕ, ◌+◌, ◌-◌, ◌≤◌, ◌≡◌, refl, sym, ap, ◌∙◌, List, [], ◌∷◌, ◌++◌, append_assoc, append-nil, ltb,
  if◌then◌else◌, if_elim, arith, length, ◌⊎◌, inl, inr, ltb→lt, subst,
}

pub record JobQueue : Type 0 where
  pub concurrency : ℕ
  pub q : List ℕ
  pub active : ℕ
  pub started : List ℕ

pub create : ℕ → JobQueue
create n = record { concurrency = n; q = []; active = 0; started = [] }

-- The loop of `drain`.
pub drain_from : ℕ → List ℕ → ℕ → List ℕ → JobQueue
drain_from n [] a st = record { concurrency = n; q = []; active = a; started = st }
drain_from n (j ∷ q) a st =
    let rest = drain_from n q (a + 1) (st ++ j ∷ []) in
    if ltb a n then rest else record { concurrency = n; q = j ∷ q; active = a; started = st }

pub drain : JobQueue → JobQueue
unfolding drain_from
drain s = drain_from s.concurrency s.q s.active s.started

pub add : JobQueue → ℕ → JobQueue
unfolding drain
add s j = drain (record s { q = s.q ++ j ∷ [] })

-- The `finally` of a job that ran.
pub finish : JobQueue → JobQueue
unfolding drain
finish s = drain (record s { active = s.active - 1 })

pub size : JobQueue → ℕ
size s = length s.q

pub data Op : Type 0 where
  adds : ℕ → Op
  finishes : Op

-- Where no job runs, none ends.
pub step : JobQueue → Op → JobQueue
unfolding add finish
step s (adds j) = add s j
step s finishes = if ltb 0 s.active then finish s else s

pub run : JobQueue → List Op → JobQueue
run s [] = s
run s (o ∷ os) = run (step s o) os

abbrev added : List Op → List ℕ
added [] = []
added (adds j ∷ os) = j ∷ added os
added (finishes ∷ os) = added os

-- The bound is kept, no job waits while there is room, and the jobs started followed by those that
-- wait are `jobs`.
pub record Serves (n : ℕ) (jobs : List ℕ) (s : JobQueue) : Type 0 where
  pub limit : s.concurrency ≡ n
  pub bounded : s.active ≤ n
  pub busy : (s.q ≡ []) ⊎ (s.active ≡ n)
  pub order : s.started ++ s.q ≡ jobs

drain_from-Serves :
    (n : ℕ) (q : List ℕ) (a : ℕ) (st : List ℕ) → a ≤ n → Serves n (st ++ q) (drain_from n q a st)
unfolding drain_from
drain_from-Serves n [] a st h = record { limit = refl; bounded = h; busy = inl refl; order = refl }
drain_from-Serves n (j ∷ q) a st h =
    if_elim (Serves n (st ++ j ∷ q)) (ltb a n)
      (λ room.
        rw (← append_assoc st (j ∷ []) q)
          (drain_from-Serves n q (a + 1) (st ++ j ∷ []) (let l = ltb→lt a n room in omega arith)))
      (λ full. record { limit = refl; bounded = h; busy = inr (ground arith); order = refl })

drain-Serves :
    (n : ℕ) (jobs : List ℕ) (s : JobQueue)
    → s.concurrency ≡ n
    → s.active ≤ n
    → s.started ++ s.q ≡ jobs
    → Serves n jobs (drain s)
unfolding drain
drain-Serves n jobs s l b o =
    subst (λ js. Serves n js (drain s)) o
      (subst (λ k. Serves n (s.started ++ s.q) (drain_from k s.q s.active s.started)) (sym l)
        (drain_from-Serves n s.q s.active s.started b))

step-Serves :
    (n : ℕ) (jobs : List ℕ) (s : JobQueue) (o : Op)
    → Serves n jobs s
    → Serves n (jobs ++ added (o ∷ [])) (step s o)
unfolding step
step-Serves n jobs s (adds j) h =
    drain-Serves n (jobs ++ j ∷ []) (record s { q = s.q ++ j ∷ [] }) h.limit h.bounded
      (sym (append_assoc s.started s.q (j ∷ [])) ∙ ap (λ l. l ++ j ∷ []) h.order)
step-Serves n jobs s finishes h = rw append-nil (
    if_elim (Serves n jobs) (ltb 0 s.active)
      (λ some_run.
        drain-Serves n jobs (record s { active = s.active - 1 }) h.limit (omega arith) h.order)
      (λ none_run. h))

added-cons : (o : Op) (os : List Op) → added (o ∷ os) ≡ added (o ∷ []) ++ added os
added-cons (adds j) os = refl
added-cons finishes os = refl

run-Serves :
    (n : ℕ) (jobs : List ℕ) (s : JobQueue) (os : List Op)
    → Serves n jobs s
    → Serves n (jobs ++ added os) (run s os)
unfolding run
run-Serves n jobs s [] h = rw append-nil h
run-Serves n jobs s (o ∷ os) h =
    rw (added-cons o os, ← append_assoc)
      (run-Serves n (jobs ++ added (o ∷ [])) (step s o) os (step-Serves n jobs s o h))

-- Whatever is added and whenever jobs finish: never more than `n` jobs run, none waits while fewer
-- do, and the jobs started followed by those that wait are the jobs added, in order.
pub jobs-Serves : (n : ℕ) (os : List Op) → Serves n (added os) (run (create n) os)
unfolding create
jobs-Serves n os =
    run-Serves n [] _ os
      (record { limit = refl; bounded = omega arith; busy = inl refl; order = refl })
