-- ===== src/Async/Breaker/Window.antt =====
-- When the breaker opens, how long it stays open, and how it closes.
use nope.Prelude.{
  ℕ, zero, suc, ◌+◌, ◌≤◌, ◌<◌, ◌≡◌, refl, Bool, true, false, List, [], ◌∷◌, ◌++◌, ap, max, dec_lt,
  arith, All,
}
use nope.Async.Breaker.{closed, opened, half_open, Breaker, allow, success, fail}

-- What a client does with a breaker, each at a time.
pub data Op : Type 0 where
  asks : Op
  succeeds : Op
  fails : Op

pub step : Breaker → ℕ × Op → Breaker × List Bool
unfolding allow success fail
step b (t, asks) = let (b', answer) = allow b t in (b', answer ∷ [])
step b (t, succeeds) = (success b, [])
step b (t, fails) = (fail b t, [])

pub run : Breaker → List (ℕ × Op) → Breaker × List Bool
run b [] = (b, [])
run b (o ∷ os) = let (b', xs) = step b o in let (b'', ys) = run b' os in (b'', xs ++ ys)

-- Open, and not to be tried before `until`, with the cooldown that leads there from `start`.
pub record Blocked (b : Breaker) (start : ℕ) (until : ℕ) : Type 0 where
  pub is_open : b.state ≡ opened
  pub later : until ≤ b.next_attempt_at
  pub window : until ≤ start + b.cfg.cooldown_ms

abbrev pub Within : ℕ → ℕ → ℕ × Op → Type 0
Within start until (t, o) = (start ≤ t) × (t < until)

step-Blocked :
    (b : Breaker) (start until : ℕ) (o : ℕ × Op)
    → Blocked b start until
    → Within start until o
    → Blocked (step b o).0 start until × All (λ x. x ≡ false) (step b o).1
unfolding step
step-Blocked b start until (t, asks) h w = ground arith
step-Blocked b start until (t, succeeds) h w = ground arith
step-Blocked b start until (t, fails) h w = ground arith

All-append :
    (xs ys : List Bool)
    → All (λ x. x ≡ false) xs
    → All (λ x. x ≡ false) ys
    → All (λ x. x ≡ false) (xs ++ ys)
All-append [] ys h k = k
All-append (x ∷ xs) ys h k = (h.0, All-append xs ys h.1 k)

-- While the cooldown of an open breaker lasts, no call is let through and it stays open, whatever is
-- asked and whatever calls started before still succeed or fail: `until` bounds the times of the
-- history, and lies within one cooldown of its `start`.
pub run-Blocked :
    (b : Breaker) (start until : ℕ) (os : List (ℕ × Op))
    → Blocked b start until
    → All (Within start until) os
    → Blocked (run b os).0 start until × All (λ x. x ≡ false) (run b os).1
unfolding run
run-Blocked b start until [] h w = (h, tt)
run-Blocked b start until (o ∷ os) h w =
    let (h', n) = step-Blocked b start until o h w.0 in
    let (h'', m) = run-Blocked (step b o).0 start until os h' w.1 in
    (h'', All-append (step b o).1 (run (step b o).0 os).1 n m)

-- The longest run of failures without a success between, the first continuing a run of `c`.
abbrev pub worst : ℕ → List (ℕ × Op) → ℕ
worst c [] = c
worst c ((t, asks) ∷ os) = worst c os
worst c ((t, succeeds) ∷ os) = max c (worst 0 os)
worst c ((t, fails) ∷ os) = worst (c + 1) os

worst-le : (c : ℕ) (os : List (ℕ × Op)) → c ≤ worst c os
worst-le c [] = omega arith
worst-le c ((t, asks) ∷ os) = worst-le c os
worst-le c ((t, succeeds) ∷ os) = omega arith
worst-le c ((t, fails) ∷ os) = omega (arith, worst-le (c + 1) os)

module _ (b : Breaker) (t : ℕ) (c : b.state ≡ closed) where
  allow_closed : allow b t ≡ (b, true)
  unfolding allow
  allow_closed = ground arith

  success_closed : success b ≡ record b { consecutive_fail = 0 }
  unfolding success
  success_closed = ground arith

  fail_closed_below :
      b.consecutive_fail + 1 < b.cfg.failure_threshold
      → fail b t ≡ record b { consecutive_fail = b.consecutive_fail + 1 }
  unfolding fail
  fail_closed_below h = ground arith

  fail_closed_at : b.cfg.failure_threshold ≤ b.consecutive_fail + 1 → (fail b t).state ≡ opened
  unfolding fail
  fail_closed_at h = ground arith

-- A closed breaker stays closed, and lets every call through, as long as no run of consecutive
-- failures reaches the threshold.
pub run_stays_closed :
    (b : Breaker) (os : List (ℕ × Op))
    → b.state ≡ closed
    → worst b.consecutive_fail os < b.cfg.failure_threshold
    → ((run b os).0.state ≡ closed) × All (λ x. x ≡ true) (run b os).1
unfolding run step
run_stays_closed b [] c h = (c, tt)
run_stays_closed b ((t, asks) ∷ os) c h =
    rw (allow_closed b t c) (let (c', ok) = run_stays_closed b os c h in (c', (refl, ok)))
run_stays_closed b ((t, succeeds) ∷ os) c h =
    rw (success_closed b t c)
      (run_stays_closed (record b { consecutive_fail = 0 }) os c (omega arith))
run_stays_closed b ((t, fails) ∷ os) c h =
    rw (fail_closed_below b t c (omega (arith, worst-le (b.consecutive_fail + 1) os)))
      (run_stays_closed (record b { consecutive_fail = b.consecutive_fail + 1 }) os c h)

-- A closed breaker opens at the end of the first run of consecutive failures that reaches the
-- threshold: if one does, some first part of the history leaves the breaker open.
pub run_opens :
    (b : Breaker) (os : List (ℕ × Op))
    → b.state ≡ closed
    → b.consecutive_fail < b.cfg.failure_threshold
    → b.cfg.failure_threshold ≤ worst b.consecutive_fail os
    → (pre post : List (ℕ × Op)) × (os ≡ pre ++ post) × ((run b pre).0.state ≡ opened)
unfolding run step
run_opens b [] c l h = absurd (omega arith)
run_opens b ((t, asks) ∷ os) c l h =
    let (pre, post, e, o) = run_opens b os c l h in
    ((t, asks) ∷ pre, post, ap (◌∷◌ (t, asks)) e, rw (allow_closed b t c) o)
run_opens b ((t, succeeds) ∷ os) c l h =
    let (pre, post, e, o) =
      run_opens (record b { consecutive_fail = 0 }) os c (omega arith) (omega arith) in
    ((t, succeeds) ∷ pre, post, ap (◌∷◌ (t, succeeds)) e, rw (success_closed b t c) o)
run_opens b ((t, fails) ∷ os) c l h =
    elim (dec_lt (b.consecutive_fail + 1) b.cfg.failure_threshold) [
      | yes below ↦
          let (pre, post, e, o) =
            run_opens (record b { consecutive_fail = b.consecutive_fail + 1 }) os c below h in
          ((t, fails) ∷ pre, post, ap (◌∷◌ (t, fails)) e, rw (fail_closed_below b t c below) o)
      | no reached ↦ ((t, fails) ∷ [], os, refl, fail_closed_at b t c (omega arith))
    ]

-- How a half-open breaker closes: `n` successes in a row, with none before.
pub run_successes : ℕ → Breaker → Breaker
run_successes zero b = b
run_successes (suc n) b = run_successes n (success b)

success_half_open :
    (b : Breaker)
    → b.state ≡ half_open
    → b.half_open_success + 1 < b.cfg.success_threshold
    → success b ≡ record b { consecutive_fail = 0; half_open_success = b.half_open_success + 1 }
unfolding success
success_half_open b h l = ground arith

success_half_open_last :
    (b : Breaker)
    → b.state ≡ half_open
    → b.cfg.success_threshold ≤ b.half_open_success + 1
    → ((success b).state ≡ closed) × ((success b).consecutive_fail ≡ 0)
unfolding success
success_half_open_last b h l = ground arith

run_successes_below :
    (n : ℕ) (b : Breaker)
    → b.state ≡ half_open
    → b.half_open_success + n < b.cfg.success_threshold
    → (run_successes n b).state ≡ half_open
unfolding run_successes
run_successes_below zero b h l = h
run_successes_below (suc n) b h l =
    rw (run_successes, success_half_open b h (omega arith))
      (run_successes_below n
        (record b { consecutive_fail = 0; half_open_success = b.half_open_success + 1 }) h
        (omega arith))

run_successes_at :
    (n : ℕ) (b : Breaker)
    → b.state ≡ half_open
    → 0 < n
    → b.half_open_success + n ≡ b.cfg.success_threshold
    → ((run_successes n b).state ≡ closed) × ((run_successes n b).consecutive_fail ≡ 0)
unfolding run_successes
run_successes_at zero b h p e = absurd (omega arith)
run_successes_at (suc zero) b h p e = success_half_open_last b h (omega arith)
run_successes_at (suc (suc n)) b h p e =
    rw (run_successes, success_half_open b h (omega arith))
      (run_successes_at (suc n)
        (record b { consecutive_fail = 0; half_open_success = b.half_open_success + 1 }) h
        (omega arith) (omega arith))

-- A half-open breaker closes, with no failure counted, on the last of the successes that the
-- threshold still asks for, and is half-open at any number `m` of successes below that.
pub run_successes_closes :
    (m n : ℕ) (b : Breaker)
    → b.state ≡ half_open
    → m < n
    → b.half_open_success + n ≡ b.cfg.success_threshold
    → ((run_successes m b).state ≡ half_open)
      × ((run_successes n b).state ≡ closed)
      × ((run_successes n b).consecutive_fail ≡ 0)
run_successes_closes m n b h l e =
    let (done, cleared) = run_successes_at n b h (omega arith) e in
    (run_successes_below m b h (omega arith), done, cleared)
