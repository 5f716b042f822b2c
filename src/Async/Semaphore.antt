-- ===== src/Async/Semaphore.antt =====
-- shareds/async/src/concurrency/semaphore.ts: `Semaphore` and `FairSemaphore`.
-- A pending `Promise` is a request in the queue, known by a number that the caller chooses; to
-- resolve it is to append a lease to `leases`, which stands for the release closure handed out. The
-- closure's own `done` flag is the lease's. A resolved promise runs its continuation only after the
-- method has returned, so no call is made in the middle of another.
pub mod Conservation
pub mod Order
use nope.Prelude.{
  ℕ, zero, suc, ◌+◌, ◌-◌, Bool, true, false, ◌&&◌, List, [], ◌∷◌, ◌++◌, Option, none, some, leb,
  ◌==◌, if◌then◌else◌, get_elem?, set, length,
}

-- `type Request`; `id` stands for the `resolve` callback.
pub record Request : Type 0 where
  pub id : ℕ
  pub need : ℕ

-- The variables that the closure made by `makeRelease` holds.
pub record Lease : Type 0 where
  pub id : ℕ
  pub amount : ℕ
  pub done : Bool

pub record Semaphore : Type 0 where
  pub permits : ℕ
  pub queue : List Request
  pub leases : List Lease

-- `null` is the `Error` that the constructor throws.
unfoldable pub create : ℕ → Option Semaphore
create zero = none
create (suc n) = some (record { permits = suc n; queue = []; leases = [] })

-- `makeRelease(n)`, handed to the `resolve` of a request.
abbrev pub make_release : Request → Lease
make_release r = record { id = r.id; amount = r.need; done = false }

-- The loop of `processQueue`, over the permits, the queue and the leases handed out.
pub process_from : ℕ → List Request → List Lease → Semaphore
process_from p [] ls = record { permits = p; queue = []; leases = ls }
process_from p (r ∷ q) ls =
    let rest = process_from (p - r.need) q (ls ++ make_release r ∷ []) in
    if leb r.need p then rest else record { permits = p; queue = r ∷ q; leases = ls }

pub process_queue : Semaphore → Semaphore
process_queue s = process_from s.permits s.queue s.leases

abbrev is_empty : List Request → Bool
is_empty [] = true
is_empty (r ∷ q) = false

-- `acquire(n)` of `Semaphore`; `none` is the rejected promise of `n <= 0`.
pub acquire : Semaphore → Request → Option Semaphore
acquire s r =
    if r.need == 0
    then none
    else if is_empty s.queue && leb r.need s.permits
    then some (record s { permits = s.permits - r.need; leases = s.leases ++ make_release r ∷ [] })
    else some (process_queue (record s { queue = s.queue ++ r ∷ [] }))

-- The public `release(n)`.
pub release : Semaphore → ℕ → Option Semaphore
release s n = if n == 0 then none else some (process_queue (record s { permits = s.permits + n }))

abbrev close_lease : Lease → Lease
close_lease l = record l { done = true }

-- What a call of a release closure does, by the lease that it finds: nothing if `done` is set.
pub finish : Semaphore → ℕ → Option Lease → Semaphore
finish s i none = s
finish s i (some l) =
    if l.done
    then s
    else process_queue
        (record s { permits = s.permits + l.amount; leases = set s.leases i (close_lease l) })

-- A call of the closure that the lease at position `i` stands for.
pub call_release : Semaphore → ℕ → Semaphore
unfolding finish
call_release s i = finish s i (get_elem? s.leases i)

-- `acquire(n)` of `FairSemaphore`: always through the queue.
pub fair_acquire : Semaphore → Request → Option Semaphore
fair_acquire s r =
    if r.need == 0 then none else some (process_queue (record s { queue = s.queue ++ r ∷ [] }))

-- `available()` and `pending()`.
pub available : Semaphore → ℕ
available s = s.permits

pub pending : Semaphore → ℕ
pending s = length s.queue

-- What a client can do while it keeps to the closures: ask, and call a closure.
pub data Op : Type 0 where
  acquires : Request → Op
  releases : ℕ → Op

abbrev after : Semaphore → Option Semaphore → Semaphore
after s none = s
after s (some t) = t

pub step : Semaphore → Op → Semaphore
step s (acquires r) = after s (acquire s r)
step s (releases i) = call_release s i

pub run : Semaphore → List Op → Semaphore
run s [] = s
run s (o ∷ os) = run (step s o) os
