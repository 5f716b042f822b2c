-- ===== src/Async/Semaphore/Order.antt =====
-- The order of service, and that no request waits while it could be served.
use nope.Prelude.{
  ℕ, ◌-◌, ◌<◌, ◌≡◌, refl, false, List, [], ◌∷◌, ◌++◌, Option, none, some, arith, leb, map,
  if◌then◌else◌, inl, inr, Bool-cases, ◌&&◌, get_elem?, ◌==◌,
}
use nope.Async.Semaphore.{
  Request, Lease, Semaphore, Op, acquires, releases, step, make_release, process_from,
  process_queue, acquire, finish, call_release, fair_acquire, is_empty, after,
}

abbrev lease_ids : List Lease → List ℕ
lease_ids = map λ l. l.id

abbrev request_ids : List Request → List ℕ
request_ids = map λ r. r.id

-- Everyone who ever asked, in the order of service: those served, then those who wait.
abbrev pub service : Semaphore → List ℕ
service s = lease_ids s.leases ++ request_ids s.queue

-- The request that an operation brings, if it is accepted.
abbrev pub asked : Op → List ℕ
asked (acquires r) = if r.need == 0 then [] else r.id ∷ []
asked (releases i) = []

abbrev pub all_asked : List Op → List ℕ
all_asked [] = []
all_asked (o ∷ os) = asked o ++ all_asked os

fast_path :
    (p : ℕ) (q : List Request) (ls : List Lease) (r : Request)
    → (if is_empty q && leb r.need p
        then some (record { permits = p - r.need; queue = q; leases = ls ++ make_release r ∷ [] })
        else some (process_from p (q ++ r ∷ []) ls))
      ≡ some (process_from p (q ++ r ∷ []) ls)
unfolding process_from
fast_path p [] ls r = elim (Bool-cases (leb r.need p)) [ inl e ↦ rw e refl | inr e ↦ rw e refl ]
fast_path p (x ∷ q) ls r = refl

-- `Semaphore` and `FairSemaphore` answer every acquisition alike, in every state: the fast path of
-- the first does what the queue of the second would.
pub acquire-eq-fair_acquire : (s : Semaphore) (r : Request) → acquire s r ≡ fair_acquire s r
unfolding acquire fair_acquire process_queue
acquire-eq-fair_acquire s r = elim (Bool-cases (r.need == 0)) [
  | inl e ↦ rw e refl
  | inr e ↦ rw e (fast_path s.permits s.queue s.leases r)
]

-- Nobody waits whom the free permits would serve: the queue is empty, or its head needs more.
abbrev Short : ℕ → List Request → Type 0
Short p [] = Unit
Short p (r ∷ q) = p < r.need

abbrev pub IsSettled : Semaphore → Type 0
IsSettled s = Short s.permits s.queue

leb-short : {a b : ℕ} → leb a b ≡ false → b < a
leb-short e = ground arith

process_from-IsSettled :
    (p : ℕ) (q : List Request) (ls : List Lease) → IsSettled (process_from p q ls)
unfolding process_from
process_from-IsSettled p [] ls = tt
process_from-IsSettled p (x ∷ q) ls = elim (Bool-cases (leb x.need p)) [
  | inl e ↦ rw e (process_from-IsSettled (p - x.need) q (ls ++ make_release x ∷ []))
  | inr e ↦ rw e (leb-short e)
]

finish-IsSettled :
    (s : Semaphore) (i : ℕ) (o : Option Lease) → IsSettled s → IsSettled (finish s i o)
unfolding finish process_queue
finish-IsSettled s i none h = h
finish-IsSettled s i (some l) h = elim (Bool-cases l.done) [
  | inl d ↦ rw d h
  | inr d ↦ rw d (process_from-IsSettled _ s.queue _)
]

fair_acquire-IsSettled :
    (s : Semaphore) (r : Request) → IsSettled s → IsSettled (after s (fair_acquire s r))
unfolding fair_acquire process_queue
fair_acquire-IsSettled s r h = elim (Bool-cases (r.need == 0)) [
  | inl e ↦ rw e h
  | inr e ↦ rw e (process_from-IsSettled s.permits (s.queue ++ r ∷ []) s.leases)
]

-- Every acquisition and every call of a release closure leaves no request waiting that the free
-- permits would serve, if none was waiting so before.
pub step-IsSettled : (s : Semaphore) (o : Op) → IsSettled s → IsSettled (step s o)
unfolding step call_release
step-IsSettled s (acquires r) h = rw (acquire-eq-fair_acquire s r) (fair_acquire-IsSettled s r h)
step-IsSettled s (releases i) h = finish-IsSettled s i (get_elem? s.leases i) h
