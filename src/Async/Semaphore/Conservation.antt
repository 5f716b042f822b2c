-- ===== src/Async/Semaphore/Conservation.antt =====
-- Permits are neither lost nor made up.
use nope.Prelude.{
  ℕ, zero, suc, ◌+◌, ◌-◌, ◌≤◌, ◌≡◌, refl, true, false, List, [], ◌∷◌, ◌++◌, some, arith,
  if◌then◌else◌, get_elem?, set, sum_by, sum_by-append, inl, inr, Bool-cases, Option-cases, ◌∙◌,
}
use nope.Async.Semaphore.{
  Request, Lease, Semaphore, Op, acquires, releases, step, run, create, make_release, process_from,
  process_queue, acquire, finish, call_release,
}

-- What a lease still holds.
abbrev pub held : Lease → ℕ
held l = if l.done then 0 else l.amount

abbrev pub in_use : Semaphore → ℕ
in_use s = sum_by held s.leases

process_from-total :
    (p : ℕ) (q : List Request) (ls : List Lease)
    → (process_from p q ls).permits + in_use (process_from p q ls) ≡ p + sum_by held ls
unfolding process_from
process_from-total p [] ls = refl
process_from-total p (r ∷ q) ls = ground (
  arith,
  process_from-total (p - r.need) q (ls ++ make_release r ∷ []),
  sum_by-append held ls (make_release r ∷ []),
)

pub process_queue-total :
    (s : Semaphore) → (process_queue s).permits + in_use (process_queue s) ≡ s.permits + in_use s
unfolding process_queue
process_queue-total s = process_from-total s.permits s.queue s.leases

-- Taking permits only moves them from the pool into leases.
pub acquire-total :
    (s : Semaphore) (r : Request) {t : Semaphore}
    → acquire s r ≡ some t
    → t.permits + in_use t ≡ s.permits + in_use s
unfolding acquire
acquire-total s r h = ground (
  arith,
  process_queue-total (record s { queue = s.queue ++ r ∷ [] }),
  sum_by-append held s.leases (make_release r ∷ []),
)

sum_by-close :
    (ls : List Lease) (i : ℕ) (l : Lease)
    → get_elem? ls i ≡ some l
    → l.done ≡ false
    → sum_by held (set ls i (record l { done = true })) + l.amount ≡ sum_by held ls
sum_by-close [] i l e d = absurd (ground arith)
sum_by-close (x ∷ ls) zero l e d = ground arith
sum_by-close (x ∷ ls) (suc i) l e d = omega (arith, sum_by-close ls i l e d)

finish-total :
    (s : Semaphore) (i : ℕ) (l : Lease)
    → get_elem? s.leases i ≡ some l
    → (finish s i (some l)).permits + in_use (finish s i (some l)) ≡ s.permits + in_use s
unfolding finish
finish-total s i l e = elim (Bool-cases l.done) [
  | inl d ↦ rw d refl
  | inr d ↦ rw d (
      omega (
        arith,
        process_queue-total (record s {
          permits = s.permits + l.amount;
          leases = set s.leases i (record l { done = true });
        }),
        sum_by-close s.leases i l e d,
      ))
]

call_release-total :
    (s : Semaphore) (i : ℕ)
    → (call_release s i).permits + in_use (call_release s i) ≡ s.permits + in_use s
unfolding call_release
call_release-total s i = elim (Option-cases (get_elem? s.leases i)) [
  | inl e ↦ rw e refl
  | inr (l, e) ↦ rw e (finish-total s i l e)
]

step-total :
    (s : Semaphore) (o : Op) → (step s o).permits + in_use (step s o) ≡ s.permits + in_use s
unfolding step
step-total s (acquires r) = elim (Option-cases (acquire s r)) [
  | inl e ↦ rw e refl
  | inr (t, e) ↦ rw e (acquire-total s r e)
]
step-total s (releases i) = call_release-total s i

run_total :
    (s : Semaphore) (os : List Op) → (run s os).permits + in_use (run s os) ≡ s.permits + in_use s
unfolding run
run_total s [] = refl
run_total s (o ∷ os) = run_total (step s o) os ∙ step-total s o

-- From a semaphore created with `n` permits, any sequence of acquisitions and of calls of release
-- closures, a closure called twice included, leaves the free permits and those that unfinished
-- leases hold at `n` together; so the leases never hold more than `n`.
pub run-total :
    (n : ℕ) {s : Semaphore} (os : List Op)
    → create n ≡ some s
    → ((run s os).permits + in_use (run s os) ≡ n) × (in_use (run s os) ≤ n)
unfolding create
run-total zero os e = absurd (ground arith)
run-total (suc n) {s} os e =
    let fresh : s.permits + in_use s ≡ suc n = ground arith in
    (omega (arith, run_total s os), omega (arith, run_total s os))
