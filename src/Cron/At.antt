-- ===== src/Cron/At.antt =====
-- packages/cron/src/planner/at.ts: `createAtPlan`. Instants are milliseconds, already coerced.
use nope.Prelude.{
  ℕ, ◌<◌, ◌≡◌, Bool, true, false, Option, none, some, ltb, leb, if◌then◌else◌, arith,
}

-- `AtTriggerOptions`
pub record Plan : Type 0 where
  pub run_at : ℕ
  pub start_at : Option ℕ
  pub end_at : Option ℕ

abbrev before : ℕ → Option ℕ → Bool
before t none = false
before t (some s) = ltb t s

abbrev past : Option ℕ → ℕ → Bool
past none c = false
past (some e) c = ltb e c

abbrev not_after : Option ℕ → ℕ → Bool
not_after none t = true
not_after (some s) t = leb s t

pub next : Plan → ℕ → Option ℕ
next p after =
    if before after p.start_at
    then (if not_after p.start_at p.run_at then some p.run_at else none)
    else if past p.end_at p.run_at
    then none
    else if leb after p.run_at
    then some p.run_at
    else none

-- A plan without an end before its instant gives that instant for its own instant again: asked for
-- what comes after the run that it planned, it plans the same run.
pub at_repeats :
    (p : Plan)
    → past p.end_at p.run_at ≡ false
    → not_after p.start_at p.run_at ≡ true
    → next p p.run_at ≡ some p.run_at
unfolding next
at_repeats p e s = ground arith

-- Past its instant, and past its start, a plan gives nothing.
pub at_done :
    (p : Plan) (after : ℕ)
    → p.run_at < after
    → before after p.start_at ≡ false
    → next p after ≡ none
unfolding next
at_done p after l s = ground arith
