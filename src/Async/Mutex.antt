-- ===== src/Async/Mutex.antt =====
-- shareds/async/src/concurrency/mutex.ts: `Mutex`. A pending `acquire` is a number in the queue;
-- `granted` lists those whose promise has resolved, in order. The release closure keeps no record of
-- its caller and none of having been called.
use nope.Prelude.{
  ℕ, suc, ◌+◌, ◌≤◌, ◌≡◌, refl, Bool, true, false, List, [], ◌∷◌, ◌++◌, if◌then◌else◌, arith, length,
  length-append, append_assoc, append-nil, ◌⊎◌, inl, inr, sym, ap, ◌∙◌, if_elim, append_idle,
  add-zero, subst,
}

pub record Mutex : Type 0 where
  pub q : List ℕ
  pub locked : Bool
  pub granted : List ℕ

pub create : Mutex
create = record { q = []; locked = false; granted = [] }

pub acquire : Mutex → ℕ → Mutex
acquire m i =
    if m.locked
    then record m { q = m.q ++ i ∷ [] }
    else record m { locked = true; granted = m.granted ++ i ∷ [] }

-- A call of the release closure, by the queue that it finds.
pub release_to : Mutex → List ℕ → Mutex
release_to m [] = record m { locked = false }
release_to m (i ∷ q) = record m { q = q; granted = m.granted ++ i ∷ [] }

pub release : Mutex → Mutex
unfolding release_to
release m = release_to m m.q

pub data Op : Type 0 where
  acquires : ℕ → Op
  releases : Op

pub step : Mutex → Op → Mutex
unfolding acquire release
step m (acquires i) = acquire m i
step m releases = release m

pub run : Mutex → List Op → Mutex
run m [] = m
run m (o ∷ os) = run (step m o) os

abbrev released : List Op → ℕ
released [] = 0
released (acquires i ∷ os) = released os
released (releases ∷ os) = suc (released os)

abbrev asked : List Op → List ℕ
asked [] = []
asked (acquires i ∷ os) = i ∷ asked os
asked (releases ∷ os) = asked os

-- The lock is free only when nobody waits; those granted, then those waiting, are `came`, in order;
-- and beyond the first, every grant took a call of a release closure.
pub record Guards (came : List ℕ) (calls : ℕ) (m : Mutex) : Type 0 where
  pub free_if_idle : (m.locked ≡ true) ⊎ (m.q ≡ [])
  pub order : m.granted ++ m.q ≡ came
  pub exclusive : length m.granted ≤ calls + (if m.locked then 1 else 0)

acquire-Guards :
    (came : List ℕ) (n : ℕ) (m : Mutex) (i : ℕ)
    → Guards came n m
    → Guards (came ++ i ∷ []) n (acquire m i)
unfolding acquire
acquire-Guards came n m i h =
    if_elim (Guards (came ++ i ∷ []) n) m.locked
      (λ e. record {
        free_if_idle = inl e;
        order = sym (append_assoc m.granted m.q (i ∷ [])) ∙ ap (λ l. l ++ i ∷ []) h.order;
        exclusive = h.exclusive;
      })
      (λ e.
        let idle : m.q ≡ [] = ground arith in
        record {
          free_if_idle = inl refl;
          order = append_idle m.granted m.q came i idle h.order;
          exclusive = ground (arith, length-append {0} m.granted (i ∷ []));
        })

release_to-Guards :
    (came : List ℕ) (n : ℕ) (m : Mutex) (q : List ℕ)
    → m.q ≡ q
    → Guards came n m
    → Guards came (n + 1) (release_to m q)
unfolding release_to
release_to-Guards came n m [] e h = record {
  free_if_idle = inr e;
  order = h.order;
  exclusive = ground arith;
}
release_to-Guards came n m (i ∷ q) e h = record {
  free_if_idle = ground arith;
  order = append_assoc m.granted (i ∷ []) q ∙ ap (◌++◌ m.granted) (sym e) ∙ h.order;
  exclusive = ground (arith, length-append {0} m.granted (i ∷ []));
}

run-Guards :
    (came : List ℕ) (n : ℕ) (m : Mutex) (os : List Op)
    → Guards came n m
    → Guards (came ++ asked os) (n + released os) (run m os)
unfolding run step release
run-Guards came n m [] h = rw (append-nil, add-zero) h
run-Guards came n m (acquires i ∷ os) h =
    rw (← append_assoc came (i ∷ []) (asked os))
      (run-Guards (came ++ i ∷ []) n (acquire m i) os (acquire-Guards came n m i h))
run-Guards came n m (releases ∷ os) h =
    let e : n + suc (released os) ≡ n + 1 + released os = omega arith in
    rw e (run-Guards came (n + 1) (release_to m m.q) os (release_to-Guards came n m m.q refl h))

-- Whatever is acquired and released: the lock is granted in the order of the requests and never lies
-- free while someone waits, and there is at most one grant more than there were calls of release
-- closures. So if each holder calls its closure at most once, at most one holds the lock.
pub mutex-Guards : (os : List Op) → Guards (asked os) (released os) (run create os)
unfolding create
mutex-Guards os =
    let e : 0 + released os ≡ released os = omega arith in
    subst (λ n. Guards (asked os) n (run create os)) e
      (run-Guards [] 0 create os
        (record { free_if_idle = inr refl; order = refl; exclusive = omega arith }))

-- The closure does not remember that it was called: a holder that calls it twice lets in two of the
-- waiters at once.
pub release_twice :
    (m : Mutex) (a b : ℕ) (q : List ℕ)
    → m.locked ≡ true
    → m.q ≡ a ∷ b ∷ q
    → ((release (release m)).granted ≡ (m.granted ++ a ∷ []) ++ b ∷ [])
      × ((release (release m)).locked ≡ true)
      × ((release (release m)).q ≡ q)
unfolding release
release_twice m a b q l e = (ground arith, ground arith, ground arith)
