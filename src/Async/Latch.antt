-- ===== src/Async/Latch.antt =====
-- shareds/async/src/concurrency/latch.ts: `CountdownLatch`. A waiter is a number; `woken` lists those
-- whose promise has resolved, in order.
use nope.Prelude.{
  ℕ, ◌+◌, ◌-◌, ◌<◌, ◌≡◌, refl, List, [], ◌∷◌, ◌++◌, if◌then◌else◌, ◌==◌, arith, append_assoc,
  append-nil, ◌⊎◌, inl, inr, ap, sym, ◌∙◌, if_elim, append_idle,
}

pub record Latch : Type 0 where
  pub count : ℕ
  pub resolvers : List ℕ
  pub woken : List ℕ

pub create : ℕ → Latch
create n = record { count = n; resolvers = []; woken = [] }

pub add : Latch → ℕ → Latch
add l n = record l { count = l.count + n }

pub count_down : Latch → ℕ → Latch
count_down l n =
    let l' = record l { count = l.count - n } in
    if l'.count == 0 then record l' { resolvers = []; woken = l.woken ++ l.resolvers } else l'

pub wait : Latch → ℕ → Latch
wait l i =
    if l.count == 0
    then record l { woken = l.woken ++ i ∷ [] }
    else record l { resolvers = l.resolvers ++ i ∷ [] }

pub data Op : Type 0 where
  adds counts_down waits : ℕ → Op

pub step : Latch → Op → Latch
unfolding add count_down wait
step l (adds n) = add l n
step l (counts_down n) = count_down l n
step l (waits i) = wait l i

pub run : Latch → List Op → Latch
run l [] = l
run l (o ∷ os) = run (step l o) os

abbrev waiters : List Op → List ℕ
waiters [] = []
waiters (adds n ∷ os) = waiters os
waiters (counts_down n ∷ os) = waiters os
waiters (waits i ∷ os) = i ∷ waiters os

-- A latch at zero holds nobody, and everyone who ever came is woken or waits, in order.
pub record Holds (came : List ℕ) (l : Latch) : Type 0 where
  pub open_at_zero : (l.resolvers ≡ []) ⊎ (0 < l.count)
  pub everyone : l.woken ++ l.resolvers ≡ came

step-Holds :
    (came : List ℕ) (l : Latch) (o : Op)
    → Holds came l
    → Holds (came ++ waiters (o ∷ [])) (step l o)
unfolding step
step-Holds came l (adds n) h =
    rw append-nil (record { open_at_zero = ground arith; everyone = h.everyone })
step-Holds came l (counts_down n) h = rw append-nil (
    if_elim (Holds came) (l.count - n == 0)
      (λ e. record {
        open_at_zero = inl refl;
        everyone = append-nil (l.woken ++ l.resolvers) ∙ h.everyone;
      })
      (λ e. record { open_at_zero = inr (ground arith); everyone = h.everyone }))
step-Holds came l (waits i) h =
    if_elim (Holds (came ++ i ∷ [])) (l.count == 0)
      (λ e.
        let idle : l.resolvers ≡ [] = ground arith in
        record {
          open_at_zero = inl idle;
          everyone = append_idle l.woken l.resolvers came i idle h.everyone;
        })
      (λ e. record {
        open_at_zero = inr (ground arith);
        everyone =
            sym (append_assoc l.woken l.resolvers (i ∷ [])) ∙ ap (λ r. r ++ i ∷ []) h.everyone;
      })

waiters-cons : (o : Op) (os : List Op) → waiters (o ∷ os) ≡ waiters (o ∷ []) ++ waiters os
waiters-cons (adds n) os = refl
waiters-cons (counts_down n) os = refl
waiters-cons (waits i) os = refl

run-Holds :
    (came : List ℕ) (l : Latch) (os : List Op)
    → Holds came l
    → Holds (came ++ waiters os) (run l os)
unfolding run
run-Holds came l [] h = rw append-nil h
run-Holds came l (o ∷ os) h =
    rw (waiters-cons o os, ← append_assoc)
      (run-Holds (came ++ waiters (o ∷ [])) (step l o) os (step-Holds came l o h))

-- Whatever is added, counted down and awaited: everyone who came has been woken or waits, in the
-- order of coming, and a latch at zero has woken them all.
pub latch-Holds : (n : ℕ) (os : List Op) → Holds (waiters os) (run (create n) os)
unfolding create
latch-Holds n os = run-Holds [] _ os (record { open_at_zero = inl refl; everyone = refl })
