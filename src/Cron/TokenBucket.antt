-- ===== src/Cron/TokenBucket.antt =====
-- packages/cron/src/queue/rateLimiter.ts: `TokenBucket`. `Date.now()` is the argument `now` of the
-- methods, a waiter is a number, `served` lists those whose promise has resolved, and `timer` says
-- whether a timeout is pending. Tokens are whole: capacity, burst and refill rate are whole numbers,
-- and the refill interval is at least a millisecond.
use nope.Prelude.{
  ℕ, zero, suc, ◌+◌, ◌-◌, ◌*◌, ◌/◌, ◌≤◌, ◌≡◌, refl, sym, ap, ◌∙◌, Bool, true, false, List, [], ◌∷◌,
  ◌++◌, append_assoc, append-nil, Option, none, some, leb, ◌==◌, if◌then◌else◌, if_elim,
  append_idle, ◌≢◌, min, arith, ◌⊎◌, inl, inr, subst, List-cases,
}

-- `RateLimitOptions`
pub record Options : Type 0 where
  pub capacity : ℕ
  pub refill_rate : ℕ
  pub refill_interval_ms : ℕ
  pub burst : Option ℕ

pub record Bucket : Type 0 where
  pub options : Options
  pub tokens : ℕ
  pub last_refill : ℕ
  pub waiters : List ℕ
  pub served : List ℕ
  pub timer : Bool

abbrev initial : Options → ℕ
initial o = elim o.burst [ none ↦ o.capacity | some b ↦ b ]

-- `none` is the `Error` that the constructor throws.
unfoldable pub create : Options → ℕ → Option Bucket
create o now =
    if o.capacity == 0
    then none
    else some (record {
      options = o;
      tokens = min (initial o) o.capacity;
      last_refill = now;
      waiters = [];
      served = [];
      timer = false;
    })

-- The loop of `flush`, over the tokens, the waiters and those served.
pub serve : ℕ → List ℕ → List ℕ → ℕ × List ℕ × List ℕ
serve zero ws sv = (zero, ws, sv)
serve (suc n) [] sv = (suc n, [], sv)
serve (suc n) (w ∷ ws) sv = serve n ws (sv ++ w ∷ [])

abbrev is_empty : List ℕ → Bool
is_empty [] = true
is_empty (w ∷ ws) = false

pub flush : Bucket → Bucket
unfolding serve
flush b =
    let (n, ws, sv) = serve b.tokens b.waiters b.served in
    record b {
      tokens = n;
      waiters = ws;
      served = sv;
      timer = if is_empty ws then false else b.timer;
    }

pub refill : Bucket → ℕ → Bucket
unfolding flush
refill b now =
    if leb now b.last_refill
    then b
    else let increments = (now - b.last_refill) / b.options.refill_interval_ms in
      if increments == 0
      then b
      else flush (record b {
        tokens = min b.options.capacity (b.tokens + increments * b.options.refill_rate);
        last_refill = now;
      })

pub ensure_timer : Bucket → Bucket
ensure_timer b = if b.timer then b else record b { timer = true }

-- `take()` after its refill.
pub take_refilled : Bucket → ℕ → Bucket
unfolding ensure_timer
take_refilled b i =
    if leb 1 b.tokens
    then record b { tokens = b.tokens - 1; served = b.served ++ i ∷ [] }
    else ensure_timer (record b { waiters = b.waiters ++ i ∷ [] })

pub take : Bucket → ℕ → ℕ → Bucket
take b i now = take_refilled (refill b now) i

-- The callback of the timeout, and what it does after its refill.
pub rearm : Bucket → Bucket
unfolding ensure_timer
rearm b = if is_empty b.waiters then b else ensure_timer b

pub on_timer : Bucket → ℕ → Bucket
on_timer b now = rearm (refill (record b { timer = false }) now)

pub data Op : Type 0 where
  takes : ℕ → Op
  fires : Op

-- A timeout fires only where one is pending.
pub step : Bucket → ℕ × Op → Bucket
step b (now, takes i) = take b i now
step b (now, fires) = if b.timer then on_timer b now else b

pub run : Bucket → List (ℕ × Op) → Bucket
run b [] = b
run b (o ∷ os) = run (step b o) os

abbrev asked : List (ℕ × Op) → List ℕ
asked [] = []
asked ((now, takes i) ∷ os) = i ∷ asked os
asked ((now, fires) ∷ os) = asked os

-- The tokens stay within the capacity, somebody waits only if there is no token and a timeout is
-- pending, and those served followed by those that wait are `came`, in order.
pub record Limits (o : Options) (came : List ℕ) (b : Bucket) : Type 0 where
  pub unchanged : b.options ≡ o
  pub bounded : b.tokens ≤ o.capacity
  pub waits : (b.waiters ≡ []) ⊎ (b.tokens ≡ 0) × (b.timer ≡ true)
  pub order : b.served ++ b.waiters ≡ came

serve_lem :
    (n : ℕ) (ws sv : List ℕ)
    → let (n', ws', sv') = serve n ws sv in
      (n' ≤ n) × ((ws' ≡ []) ⊎ (n' ≡ 0)) × (sv' ++ ws' ≡ sv ++ ws)
unfolding serve
serve_lem zero ws sv = (omega arith, inr refl, refl)
serve_lem (suc n) [] sv = (omega arith, inl refl, refl)
serve_lem (suc n) (w ∷ ws) sv =
    let (le, done, order) = serve_lem n ws (sv ++ w ∷ []) in
    (omega arith, done, order ∙ append_assoc sv (w ∷ []) ws)

-- The same without the timeout, which is off while its own callback runs.
record Core (o : Options) (came : List ℕ) (b : Bucket) : Type 0 where
  unchanged : b.options ≡ o
  bounded : b.tokens ≤ o.capacity
  waits : (b.waiters ≡ []) ⊎ (b.tokens ≡ 0)
  order : b.served ++ b.waiters ≡ came

-- Nobody waits in `b'`, or somebody waits in `b` and `b'` has its timeout.
abbrev Keeps : Bucket → Bucket → Type 0
Keeps b b' = (b'.waiters ≡ []) ⊎ (b'.timer ≡ b.timer) × (b.waiters ≢ [])

Keeps-refl : (b : Bucket) → Keeps b b
Keeps-refl b = elim (List-cases b.waiters) [
  | inl e ↦ inl e
  | inr (w, rest, e) ↦ inr (refl, λ none_wait. cc)
]

serve-nil : (n : ℕ) (sv : List ℕ) → (serve n [] sv).1 ≡ []
unfolding serve
serve-nil zero sv = refl
serve-nil (suc n) sv = refl

flush-Core :
    (o : Options) (came : List ℕ) (b : Bucket)
    → b.options ≡ o
    → b.tokens ≤ o.capacity
    → b.served ++ b.waiters ≡ came
    → Core o came (flush b) × Keeps b (flush b)
unfolding flush
flush-Core o came b u l r =
    let (le, done, order) = serve_lem b.tokens b.waiters b.served in
    (
      record { unchanged = u; bounded = omega arith; waits = done; order = order ∙ r },
      elim (List-cases (serve b.tokens b.waiters b.served).1) [
        | inl e ↦ inl e
        | inr (w, rest, e) ↦ inr (
          rw e refl,
          λ none_wait.
              cc (
                e,
                ap (λ ws. (serve b.tokens ws b.served).1) none_wait,
                serve-nil b.tokens b.served,
              ),
        )
      ],
    )

refill-Core :
    (o : Options) (came : List ℕ) (b : Bucket) (now : ℕ)
    → Core o came b
    → Core o came (refill b now) × Keeps b (refill b now)
unfolding refill
refill-Core o came b now h =
    let P : Bucket → Type 0 = λ b'. Core o came b' × Keeps b b' in
    let increments = (now - b.last_refill) / b.options.refill_interval_ms in
    let filled : Bucket = record b {
      tokens = min b.options.capacity (b.tokens + increments * b.options.refill_rate);
      last_refill = now;
    } in
    let small : filled.tokens ≤ o.capacity =
      subst (λ (p : Options). filled.tokens ≤ p.capacity) h.unchanged (omega arith) in
    if_elim P (leb now b.last_refill) (λ _. (h, Keeps-refl b))
      (λ _.
        if_elim P (increments == 0) (λ _. (h, Keeps-refl b))
          (λ _. flush-Core o came filled h.unchanged small h.order))

take_refilled-Limits :
    (o : Options) (came : List ℕ) (b : Bucket) (i : ℕ)
    → Core o came b
    → (b.waiters ≡ []) ⊎ (b.timer ≡ true)
    → Limits o (came ++ i ∷ []) (take_refilled b i)
unfolding take_refilled
take_refilled-Limits o came b i h t =
    if_elim (Limits o (came ++ i ∷ [])) (leb 1 b.tokens)
      (λ some_left.
        let idle : b.waiters ≡ [] = ground arith in
        record {
          unchanged = h.unchanged;
          bounded = omega (arith, h.bounded);
          waits = inl idle;
          order = append_idle b.served b.waiters came i idle h.order;
        })
      (λ none_left.
        let order =
          sym (append_assoc b.served b.waiters (i ∷ [])) ∙ ap (λ l. l ++ i ∷ []) h.order in
        if_elim (Limits o (came ++ i ∷ [])) b.timer
          (λ on. record {
            unchanged = h.unchanged;
            bounded = h.bounded;
            waits = inr (ground arith, on);
            order = order;
          })
          (λ off. record {
            unchanged = h.unchanged;
            bounded = h.bounded;
            waits = inr (ground arith, refl);
            order = order;
          }))

take-Limits :
    (o : Options) (came : List ℕ) (b : Bucket) (i now : ℕ)
    → Limits o came b
    → Limits o (came ++ i ∷ []) (take b i now)
unfolding take
take-Limits o came b i now h =
    let (core, kept) = refill-Core o came b now (record {
      unchanged = h.unchanged;
      bounded = h.bounded;
      waits = ground arith;
      order = h.order;
    }) in
    take_refilled-Limits o came (refill b now) i core (ground arith)

rearm-Limits : (o : Options) (came : List ℕ) (b : Bucket) → Core o came b → Limits o came (rearm b)
unfolding rearm
rearm-Limits o came b h =
    if_elim (Limits o came) (is_empty b.waiters)
      (λ e. record {
        unchanged = h.unchanged;
        bounded = h.bounded;
        waits = inl (ground arith);
        order = h.order;
      })
      (λ e.
        if_elim (Limits o came) b.timer
          (λ on. record {
            unchanged = h.unchanged;
            bounded = h.bounded;
            waits = inr (ground arith, on);
            order = h.order;
          })
          (λ off. record {
            unchanged = h.unchanged;
            bounded = h.bounded;
            waits = inr (ground arith, refl);
            order = h.order;
          }))

step-Limits :
    (o : Options) (came : List ℕ) (b : Bucket) (e : ℕ × Op)
    → Limits o came b
    → Limits o (came ++ asked (e ∷ [])) (step b e)
unfolding step on_timer
step-Limits o came b (now, takes i) h = take-Limits o came b i now h
step-Limits o came b (now, fires) h = rw append-nil (
    if_elim (Limits o came) b.timer
      (λ on.
        rearm-Limits o came _
          (refill-Core o came (record b { timer = false }) now
            (record {
              unchanged = h.unchanged;
              bounded = h.bounded;
              waits = ground arith;
              order = h.order;
            })).0)
      (λ off. h))

asked-cons : (e : ℕ × Op) (os : List (ℕ × Op)) → asked (e ∷ os) ≡ asked (e ∷ []) ++ asked os
asked-cons (now, takes i) os = refl
asked-cons (now, fires) os = refl

run-Limits :
    (o : Options) (came : List ℕ) (b : Bucket) (os : List (ℕ × Op))
    → Limits o came b
    → Limits o (came ++ asked os) (run b os)
unfolding run
run-Limits o came b [] h = rw append-nil h
run-Limits o came b (e ∷ os) h =
    rw (asked-cons e os, ← append_assoc)
      (run-Limits o (came ++ asked (e ∷ [])) (step b e) os (step-Limits o came b e h))

-- From a new bucket, whatever is taken and whenever the timeout fires: the tokens never exceed the
-- capacity, callers are served in the order in which they asked, and one waits only while there is
-- no token, with a timeout pending to serve it later.
pub bucket-Limits :
    (o : Options) (now : ℕ) {b : Bucket} (os : List (ℕ × Op))
    → create o now ≡ some b
    → Limits o (asked os) (run b os)
unfolding create
bucket-Limits o now {b} os e = run-Limits o [] b os (ground arith)
