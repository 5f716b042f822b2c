-- ===== src/Cron/Semaphore.antt =====
-- packages/cron/src/queue/semaphore.ts: `Semaphore`. A caller is a number. `acquire` of a caller that
-- must wait ends at its `await`; `release` resolves the promise of the first of them, and the rest of
-- that caller's `acquire`, `this.current += 1`, runs in a later microtask, `resume`. `woken` lists the
-- callers between the two, and `holders` those whose `acquire` has returned and who have not released.
use nope.Prelude.{
  ℕ, ◌+◌, ◌-◌, ◌≤◌, ◌<◌, ◌≡◌, refl, List, [], ◌∷◌, ◌++◌, ltb, ◌==◌, if◌then◌else◌, ◌⊎◌, inl, arith,
}

pub record Semaphore : Type 0 where
  pub limit : ℕ
  pub current : ℕ
  pub queue : List ℕ
  pub woken : List ℕ
  pub holders : ℕ

pub create : ℕ → Semaphore
create n = record { limit = n; current = 0; queue = []; woken = []; holders = 0 }

-- The part of `acquire` before its `await`. A limit of zero means none.
pub acquire : Semaphore → ℕ → Semaphore
acquire s i =
    if s.limit == 0
    then record s { holders = s.holders + 1 }
    else if ltb s.current s.limit
    then record s { current = s.current + 1; holders = s.holders + 1 }
    else record s { queue = s.queue ++ i ∷ [] }

-- The part of `acquire` after its `await`, in the first of the woken callers.
pub resume_first : Semaphore → List ℕ → Semaphore
resume_first s [] = s
resume_first s (i ∷ ws) = record s { woken = ws; current = s.current + 1; holders = s.holders + 1 }

pub resume : Semaphore → Semaphore
unfolding resume_first
resume s = resume_first s s.woken

-- `this.queue.shift()`, and the call of what it gave.
pub wake : Semaphore → List ℕ → Semaphore
wake s [] = s
wake s (i ∷ q) = record s { queue = q; woken = s.woken ++ i ∷ [] }

-- `release()` by a holder.
pub release : Semaphore → Semaphore
unfolding wake
release s =
    let s' = record s { holders = s.holders - 1 } in
    if s'.limit == 0 then s' else wake (record s' { current = s'.current - 1 }) s'.queue

pub data Op : Type 0 where
  acquires : ℕ → Op
  releases resumes : Op

pub step : Semaphore → Op → Semaphore
unfolding acquire release resume
step s (acquires i) = acquire s i
step s releases = if ltb 0 s.holders then release s else s
step s resumes = resume s

pub run : Semaphore → List Op → Semaphore
run s [] = s
run s (o ∷ os) = run (step s o) os

-- The counter counts the holders, on any history with a limit.
pub record Counts (n : ℕ) (s : Semaphore) : Type 0 where
  pub limit_is : s.limit ≡ n
  pub counted : s.current ≡ s.holders

step-Counts : (n : ℕ) (s : Semaphore) (o : Op) → 0 < n → Counts n s → Counts n (step s o)
unfolding step
step-Counts n s (acquires i) p h = ground arith
step-Counts n s releases p h = ground arith
step-Counts n s resumes p h = ground arith

-- A history in which no call of `acquire` comes between a release and the microtask that it starts:
-- every release is followed at once by the resumption.
abbrev pub settled : List Op → List Op
settled [] = []
settled (acquires i ∷ os) = acquires i ∷ settled os
settled (releases ∷ os) = releases ∷ resumes ∷ settled os
settled (resumes ∷ os) = settled os

-- At rest: nobody is woken and not yet resumed, at most `n` hold, and somebody waits only if `n` do.
pub record AtRest (n : ℕ) (s : Semaphore) : Type 0 where
  pub counts : Counts n s
  pub idle : s.woken ≡ []
  pub bound : s.holders ≤ n
  pub busy : (s.queue ≡ []) ⊎ (s.holders ≡ n)

acquire-AtRest :
    (n : ℕ) (s : Semaphore) (i : ℕ) → 0 < n → AtRest n s → AtRest n (step s (acquires i))
unfolding step
acquire-AtRest n s i p h = record {
  counts = step-Counts n s (acquires i) p h.counts;
  idle = ground arith;
  bound = ground arith;
  busy = ground arith;
}

release-AtRest :
    (n : ℕ) (s : Semaphore) → 0 < n → AtRest n s → AtRest n (step (step s releases) resumes)
unfolding step
release-AtRest n s p h = record {
  counts = step-Counts n _ resumes p (step-Counts n s releases p h.counts);
  idle = ground arith;
  bound = ground arith;
  busy = ground arith;
}

resume-AtRest : (n : ℕ) (s : Semaphore) → AtRest n s → step s resumes ≡ s
unfolding step
resume-AtRest n s h = ground arith

settled-AtRest :
    (n : ℕ) (s : Semaphore) (os : List Op) → 0 < n → AtRest n s → AtRest n (run s (settled os))
unfolding run
settled-AtRest n s [] p h = h
settled-AtRest n s (acquires i ∷ os) p h =
    settled-AtRest n (step s (acquires i)) os p (acquire-AtRest n s i p h)
settled-AtRest n s (releases ∷ os) p h =
    settled-AtRest n (step (step s releases) resumes) os p (release-AtRest n s p h)
settled-AtRest n s (resumes ∷ os) p h = settled-AtRest n s os p h

-- With a limit `n`, as long as each release is followed by the microtask that it starts before anyone
-- else acquires: at most `n` callers hold the semaphore, and somebody waits only while `n` do.
pub settled-create-AtRest : (n : ℕ) (os : List Op) → 0 < n → AtRest n (run (create n) (settled os))
unfolding create
settled-create-AtRest n os p = settled-AtRest n _ os p (record {
  counts = record { limit_is = refl; counted = refl };
  idle = refl;
  bound = omega arith;
  busy = inl refl;
})

-- The overrun: a full semaphore with somebody waiting, a release, an `acquire` before the microtask of
-- the one woken has run, and then that microtask. More callers hold it than the limit allows.
pub overrun :
    (s : Semaphore) (i j : ℕ) (q : List ℕ)
    → 0 < s.limit
    → Counts s.limit s
    → s.holders ≡ s.limit
    → s.woken ≡ []
    → s.queue ≡ i ∷ q
    → (run s (releases ∷ acquires j ∷ resumes ∷ [])).holders ≡ s.limit + 1
unfolding run step
overrun s i j q p c h w e = ground arith
