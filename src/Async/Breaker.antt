-- ===== src/Async/Breaker.antt =====
-- shareds/async/src/try/circuit-breaker.ts. `clock()` is the argument `t` of each method, which reads
-- it once; `onStateChange` calls are appended to `changes`.
pub mod Window
pub mod Transitions
use nope.Prelude.{
  ℕ, suc, ◌+◌, Bool, true, false, List, [], ◌∷◌, ◌++◌, Option, none, some, leb, if◌then◌else◌,
}

-- `CBState`
pub data State : Type 0 where
  closed opened half_open : State

-- `CircuitBreakerOpts`, with the constructor's defaults filled in.
pub record Config : Type 0 where
  pub failure_threshold : ℕ
  pub success_threshold : ℕ
  pub cooldown_ms : ℕ

pub record Options : Type 0 where
  pub failure_threshold : Option ℕ
  pub success_threshold : Option ℕ
  pub cooldown_ms : Option ℕ

pub record Breaker : Type 0 where
  pub cfg : Config
  pub state : State
  pub consecutive_fail : ℕ
  pub half_open_success : ℕ
  pub next_attempt_at : ℕ
  pub changes : List (State × State)

abbrev or_default : Option ℕ → ℕ → ℕ
or_default none d = d
or_default (some n) d = n

pub create : Options → Breaker
create o = record {
  cfg = record {
    failure_threshold = or_default o.failure_threshold 5;
    success_threshold = or_default o.success_threshold 2;
    cooldown_ms = or_default o.cooldown_ms 10_000;
  };
  state = closed;
  consecutive_fail = 0;
  half_open_success = 0;
  next_attempt_at = 0;
  changes = [];
}

abbrev same : State → State → Bool
same closed closed = true
same opened opened = true
same half_open half_open = true
same _ _ = false

pub set_state : Breaker → State → Breaker
set_state b s =
    if same s b.state then b else record b { state = s; changes = b.changes ++ (b.state, s) ∷ [] }

-- `allow()`, by the state that it finds.
pub allow_in : State → Breaker → ℕ → Breaker × Bool
unfolding set_state
allow_in opened b t =
    if leb b.next_attempt_at t
    then (record (set_state b half_open) { half_open_success = 0 }, true)
    else (b, false)
allow_in closed b t = (b, true)
allow_in half_open b t = (b, true)

pub allow : Breaker → ℕ → Breaker × Bool
unfolding allow_in
allow b t = allow_in b.state b t

pub success_in : State → Breaker → Breaker
unfolding set_state
success_in half_open b =
    let b' = record b { half_open_success = b.half_open_success + 1 } in
    if leb b.cfg.success_threshold b'.half_open_success then set_state b' closed else b'
success_in closed b = b
success_in opened b = b

pub success : Breaker → Breaker
unfolding success_in
success b = success_in b.state (record b { consecutive_fail = 0 })

pub trip_open : Breaker → ℕ → Breaker
unfolding set_state
trip_open b t = record (set_state b opened) {
  next_attempt_at = t + b.cfg.cooldown_ms;
  half_open_success = 0;
}

pub fail_in : State → Breaker → ℕ → Breaker
unfolding trip_open
fail_in half_open b t = trip_open b t
fail_in closed b t = if leb b.cfg.failure_threshold b.consecutive_fail then trip_open b t else b
fail_in opened b t = if leb b.cfg.failure_threshold b.consecutive_fail then trip_open b t else b

pub fail : Breaker → ℕ → Breaker
unfolding fail_in
fail b t = fail_in b.state (record b { consecutive_fail = b.consecutive_fail + 1 }) t

pub force_open : Breaker → ℕ → Option ℕ → Breaker
unfolding set_state
force_open b t ms = record (set_state b opened) {
  next_attempt_at = t + or_default ms b.cfg.cooldown_ms;
}

pub force_close : Breaker → Breaker
unfolding set_state
force_close b = record (set_state b closed) { consecutive_fail = 0; half_open_success = 0 }

-- What `withCircuitBreaker` returns: the error of an open circuit, or what the call gave.
pub data Outcome {ℓ} (A : Type ℓ) : Type ℓ where
  circuit_open : Outcome A
  success_of : A → Outcome A
  failure_of : Outcome A

-- `withCircuitBreaker`: `result` is what `fn` gives if it is called, `none` for a failure, and
-- `t'` the time at which it ends.
pub guarded {ℓ} : {A : Type ℓ} → Breaker → ℕ → ℕ → Option A → Breaker × Outcome A
unfolding allow success fail
guarded b t t' result =
    let (b', allowed) = allow b t in
    if allowed
    then elim result [ some a ↦ (success b', success_of a) | none ↦ (fail b' t', failure_of) ]
    else (b', circuit_open)
