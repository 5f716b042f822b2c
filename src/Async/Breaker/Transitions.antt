-- ===== src/Async/Breaker/Transitions.antt =====
-- The changes of state that a breaker reports.
use nope.Prelude.{ℕ, ◌+◌, ◌≡◌, refl, ◌≢◌, false, List, [], ◌∷◌, ◌++◌, Option, arith, All, if_elim}
use nope.Async.Breaker.{
  State, closed, opened, half_open, Breaker, Options, create, allow, success, fail, force_open,
  force_close, set_state, same,
}

pub data Call : Type 0 where
  asks succeeds fails forces_close : Call
  forces_open : Option ℕ → Call

pub perform : Breaker → ℕ × Call → Breaker
unfolding allow success fail force_open force_close
perform b (t, asks) = (allow b t).0
perform b (t, succeeds) = success b
perform b (t, fails) = fail b t
perform b (t, forces_open ms) = force_open b t ms
perform b (t, forces_close) = force_close b

pub run : Breaker → List (ℕ × Call) → Breaker
run b [] = b
run b (o ∷ os) = run (perform b o) os

-- Reports that lead from one state to another without a gap, each a real change.
abbrev pub Chain : State → List (State × State) → State → Type 0
Chain s [] e = s ≡ e
Chain s ((a, b) ∷ l) e = (s ≡ a) × (a ≢ b) × Chain b l e

same-ne : (a s : State) → same s a ≡ false → a ≢ s
same-ne closed closed e = cc
same-ne opened opened e = cc
same-ne half_open half_open e = cc
same-ne a s e = λ q. ground arith

Chain-append :
    (s : State) (l : List (State × State)) (a b : State)
    → Chain s l a
    → a ≢ b
    → Chain s (l ++ (a, b) ∷ []) b
Chain-append s [] a b h n = (h, n, refl)
Chain-append s (x ∷ l) a b h n = (h.0, h.1, Chain-append x.1 l a b h.2 n)

set_state-Chain :
    (b : Breaker) (s : State)
    → Chain closed b.changes b.state
    → Chain closed (set_state b s).changes (set_state b s).state
unfolding set_state
set_state-Chain b s h =
    if_elim (λ (d : Breaker). Chain closed d.changes d.state) (same s b.state) (λ e. h)
      (λ e. Chain-append closed b.changes b.state s h (same-ne b.state s e))

-- What the breaker does unless it is forced.
abbrev pub Legal : State × State → Type 0
Legal (closed, opened) = Unit
Legal (opened, half_open) = Unit
Legal (half_open, opened) = Unit
Legal (half_open, closed) = Unit
Legal (_, _) = ⊥

abbrev pub Unforced : ℕ × Call → Type 0
Unforced (t, asks) = Unit
Unforced (t, succeeds) = Unit
Unforced (t, fails) = Unit
Unforced (t, forces_open ms) = ⊥
Unforced (t, forces_close) = ⊥

abbrev IsChained : Breaker → Type 0
IsChained b = Chain closed b.changes b.state

perform-Chain : (b : Breaker) (o : ℕ × Call) → IsChained b → IsChained (perform b o)
unfolding perform allow success fail force_open force_close
perform-Chain b (t, asks) h = ground (arith, set_state-Chain b half_open h)
perform-Chain b (t, succeeds) h = ground (
  arith,
  set_state-Chain (record b { consecutive_fail = 0; half_open_success = b.half_open_success + 1 })
      closed h,
)
perform-Chain b (t, fails) h =
    ground
      (arith, set_state-Chain (record b { consecutive_fail = b.consecutive_fail + 1 }) opened h)
perform-Chain b (t, forces_open ms) h = set_state-Chain b opened h
perform-Chain b (t, forces_close) h = set_state-Chain b closed h

run-IsChained : (b : Breaker) (os : List (ℕ × Call)) → IsChained b → IsChained (run b os)
unfolding run
run-IsChained b [] h = h
run-IsChained b (o ∷ os) h = run-IsChained (perform b o) os (perform-Chain b o h)

-- From a new breaker, whatever is called and forced: the reported changes lead from closed to the
-- present state without a gap, and each is a real change.
pub run-create-Chain :
    (o : Options) (os : List (ℕ × Call))
    → Chain closed (run (create o) os).changes (run (create o) os).state
unfolding create
run-create-Chain o os = run-IsChained _ os refl

AllLegal-append :
    (l : List (State × State)) (c : State × State) → All Legal l → Legal c → All Legal (l ++ c ∷ [])
AllLegal-append [] c h k = (k, tt)
AllLegal-append (x ∷ l) c h k = (h.0, AllLegal-append l c h.1 k)

perform-Legal :
    (b : Breaker) (o : ℕ × Call)
    → Unforced o
    → All Legal b.changes
    → All Legal (perform b o).changes
unfolding perform allow success fail
perform-Legal b (t, asks) u h = ground (arith, AllLegal-append b.changes (opened, half_open) h tt)
perform-Legal b (t, succeeds) u h =
    ground (arith, AllLegal-append b.changes (half_open, closed) h tt)
perform-Legal b (t, fails) u h = ground (
  arith,
  AllLegal-append b.changes (half_open, opened) h tt,
  AllLegal-append b.changes (closed, opened) h tt,
)
perform-Legal b (t, forces_open ms) u h = absurd u
perform-Legal b (t, forces_close) u h = absurd u

run-AllLegal :
    (b : Breaker) (os : List (ℕ × Call))
    → All Unforced os
    → All Legal b.changes
    → All Legal (run b os).changes
unfolding run
run-AllLegal b [] u h = h
run-AllLegal b (o ∷ os) u h = run-AllLegal (perform b o) os u.1 (perform-Legal b o u.0 h)

-- A new breaker that is never forced changes only from closed to open, from open to half-open, and
-- from half-open to open or closed.
pub run-create-Legal :
    (o : Options) (os : List (ℕ × Call)) → All Unforced os → All Legal (run (create o) os).changes
unfolding create
run-create-Legal o os u = run-AllLegal _ os u tt
