-- ===== src/Cron/Every.antt =====
-- packages/cron/src/planner/every.ts: `createEveryPlan`. Instants are milliseconds and `Date.now()`,
-- which stands for a missing `startAt`, is the argument `now`; `every` is a number of milliseconds,
-- what `parseHumanDuration` gives for it; the offset is not negative.
use native.Mathlib.Nat.{div-mul-le_self, lt-div-mul-add, mul-le-mul_right}
use nope.Prelude.{
  ℕ, ◌+◌, ◌-◌, ◌*◌, ◌/◌, ◌≤◌, ◌<◌, ◌≡◌, refl, Bool, false, Option, none, some, ltb, leb, ◌==◌,
  if◌then◌else◌, if_elim, ap, List, [], ◌∷◌, max, arith, dec_lt, subst,
}

-- `EveryTriggerOptions`
pub record Options : Type 0 where
  pub every : ℕ
  pub start_at : Option ℕ
  pub offset : Option ℕ
  pub end_at : Option ℕ
  pub max_runs : Option ℕ

-- The variables that the plan's closure holds.
pub record Plan : Type 0 where
  pub interval_ms : ℕ
  pub anchor_ms : ℕ
  pub end_at : Option ℕ
  pub max_runs : Option ℕ
  pub emitted : ℕ

abbrev or_else : Option ℕ → ℕ → ℕ
or_else none d = d
or_else (some n) d = n

pub create_every_plan : Options → ℕ → Plan
create_every_plan o now = record {
  interval_ms = max 1 o.every;
  anchor_ms = or_else o.start_at now + or_else o.offset 0;
  end_at = o.end_at;
  max_runs = o.max_runs;
  emitted = 0;
}

abbrev reached : Option ℕ → ℕ → Bool
reached none n = false
reached (some m) n = leb m n

abbrev past : Option ℕ → ℕ → Bool
past none c = false
past (some e) c = ltb e c

-- `Math.ceil(a / b)`
abbrev ceil_div : ℕ → ℕ → ℕ
ceil_div a b = (a + (b - 1)) / b

-- The number of intervals to add.
pub steps : ℕ → ℕ → ℕ
steps delta interval = if delta == 0 then 0 else ceil_div delta interval

pub next_at : Plan → ℕ → ℕ
next_at p after =
    let after_ms = max after p.anchor_ms in
    let delta = after_ms - p.anchor_ms in p.anchor_ms + steps delta p.interval_ms * p.interval_ms

pub next : Plan → ℕ → Plan × Option ℕ
unfolding next_at
next p after =
    if reached p.max_runs p.emitted
    then (p, none)
    else if past p.end_at (next_at p after)
    then (p, none)
    else (record p { emitted = p.emitted + 1 }, some (next_at p after))

ceil_div_bounds : (a b : ℕ) → 0 < b → (a ≤ ceil_div a b * b) × (ceil_div a b * b < a + b)
ceil_div_bounds a b h =
    let low = div-mul-le_self (a + (b - 1)) b in
    let high = lt-div-mul-add {a = a + (b - 1)} h in (omega arith, omega arith)

-- The plan's instants: the anchor, and every interval from it on.
abbrev pub tick : Plan → ℕ → ℕ
tick p k = p.anchor_ms + k * p.interval_ms

-- Where `x` lies at or past the anchor: `c` intervals reach it first.
ceil_first : (d b k : ℕ) → 0 < b → d ≤ k * b → ceil_div d b ≤ k
ceil_first d b k h l =
    let (lo, hi) = ceil_div_bounds d b h in
    elim (dec_lt k (ceil_div d b)) [
      | yes more ↦ absurd (omega (arith, mul-le-mul_right b more))
      | no less ↦ omega arith
    ]

steps_lem : (d b k : ℕ) → 0 < b → d ≤ k * b → (d ≤ steps d b * b) × (steps d b * b ≤ k * b)
unfolding steps
steps_lem d b k h l =
    if_elim (λ n. (d ≤ n * b) × (n * b ≤ k * b)) (d == 0) (λ e. (ground arith, omega arith))
      (λ e. ((ceil_div_bounds d b h).0, mul-le-mul_right b (ceil_first d b k h l)))

-- The instant that `next` computes is a tick of the plan, not before `after`, and no tick that is not
-- before `after` comes earlier.
pub next_at-first :
    (p : Plan) (after j : ℕ)
    → 0 < p.interval_ms
    → after ≤ tick p j
    → (k : ℕ) × (next_at p after ≡ tick p k)
      × (after ≤ next_at p after)
      × (next_at p after ≤ tick p j)
unfolding next_at
next_at-first p after j h l =
    let d = max after p.anchor_ms - p.anchor_ms in
    let (lo, hi) = steps_lem d p.interval_ms j h (omega arith) in
    (steps d p.interval_ms, refl, omega arith, omega arith)

-- So at a tick it computes that tick again.
next_at-tick : (p : Plan) (j : ℕ) → 0 < p.interval_ms → next_at p (tick p j) ≡ tick p j
next_at-tick p j h =
    let (k, e, lo, hi) = next_at-first p (tick p j) j h (omega arith) in omega arith

-- A plan with runs left, asked for what comes after one of its own instants, gives that instant
-- again, unless it lies past the end: the run that comes after a run is planned for the same time.
pub every_repeats :
    (p : Plan) (j : ℕ)
    → 0 < p.interval_ms
    → reached p.max_runs p.emitted ≡ false
    → past p.end_at (tick p j) ≡ false
    → (next p (tick p j)).1 ≡ some (tick p j)
unfolding next
every_repeats p j h r e = rw (r, next_at-tick p j h, e) refl

-- Without a maximum of runs and an end, the plan counts that instant once more.
pub next-tick :
    (q : Plan) (j : ℕ)
    → 0 < q.interval_ms
    → q.max_runs ≡ none
    → q.end_at ≡ none
    → next q (tick q j) ≡ (record q { emitted = q.emitted + 1 }, some (tick q j))
unfolding next
next-tick q j h m e =
    let r : reached q.max_runs q.emitted ≡ false = ap (λ o. reached o q.emitted) m in
    let l : past q.end_at (next_at q (tick q j)) ≡ false =
      ap (λ o. past o (next_at q (tick q j))) e in
    rw (r, l, next_at-tick q j h) refl

-- How often a plan gives an instant, asked any number of times.
pub asks : Plan → List ℕ → Plan
asks p [] = p
asks p (t ∷ ts) = asks (next p t).0 ts

next_kept : (q : Plan) (t m : ℕ) → q.max_runs ≡ some m → (next q t).0.max_runs ≡ some m
unfolding next
next_kept q t m e = ground arith

next_bounded : (q : Plan) (t m : ℕ) → q.max_runs ≡ some m → q.emitted ≤ m → (next q t).0.emitted ≤ m
unfolding next
next_bounded q t m e l =
    if_elim (λ (r : Plan × Option ℕ). r.0.emitted ≤ m) (reached q.max_runs q.emitted) (λ c. l)
      (λ c.
        if_elim (λ (r : Plan × Option ℕ). r.0.emitted ≤ m) (past q.end_at (next_at q t)) (λ _. l)
          (λ _. not_reached m q.emitted (subst (λ o. reached o q.emitted ≡ false) e c)))
  where
    not_reached : (m n : ℕ) → leb m n ≡ false → n + 1 ≤ m
    not_reached m n e = ground arith

-- A plan with a maximum of runs never gives more instants than that, whatever it is asked.
pub asks-le_max :
    (p : Plan) (m : ℕ) (ts : List ℕ) → p.max_runs ≡ some m → p.emitted ≤ m → (asks p ts).emitted ≤ m
unfolding asks
asks-le_max p m [] e l = l
asks-le_max p m (t ∷ ts) e l =
    asks-le_max (next p t).0 m ts (next_kept p t m e) (next_bounded p t m e l)
