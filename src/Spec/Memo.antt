-- ===== src/Spec/Memo.antt =====
-- packages/specification/src/core/memo.ts, and `isSatisfiedBy` and
-- `isSatisfiedByAsync` of core/base-spec.ts with a memoizer.
-- The hash of a value is a parameter.
use nope.Prelude.{
  ◌≡◌, sym, ℕ, zero, suc, All, ◌⊎◌, ◌++◌, refl, ◌∙◌, Bool, List, [], ◌∷◌, Option, none, some, ite,
  Option-cases, inl, inr, arith,
}
use nope.Spec.Tree.{Outcome, returned, thrown, promised, at_once, settle}

-- `CacheEntry`
pub record CacheEntry (H : Type 0) : Type 0 where
  pub hash : H
  pub verdict : Bool

module _ {H V : Type 0} (dec : Discrete H) (hasher : V → H) where
  abbrev pub get_entry : Option (CacheEntry H) → V → Option Bool
  get_entry none v = none
  get_entry (some e) v = ite (dec (hasher v) e.hash) (some e.verdict) none

  abbrev pub set_entry : V → Bool → CacheEntry H
  set_entry v b = record { hash = hasher v; verdict = b }

  abbrev pub keep_verdict : V → Outcome → Option (CacheEntry H) → Option (CacheEntry H)
  keep_verdict v (returned b) memo = some (set_entry v b)
  keep_verdict v thrown memo = memo
  keep_verdict v (promised r) memo = memo

-- The memoizer, and the calls of `isSatisfiedByAsync` that are not settled: their values, and what the
-- result of `run` settles to.
pub record Memo (H V : Type 0) : Type 0 where
  pub entry : Option (CacheEntry H)
  pub waiting : List (V × Option Bool)

module _ {H V : Type 0} (dec : Discrete H) (hasher : V → H) where
  abbrev pub settled_entry : V × Option Bool → Option (CacheEntry H) → Option (CacheEntry H)
  settled_entry (v, none) memo = memo
  settled_entry (v, some b) memo = some (set_entry dec hasher v b)

  -- The `then` of the waiting call at a position: what it leaves in the memoizer.
  unfoldable pub resolve_entry :
      ℕ → List (V × Option Bool) → Option (CacheEntry H) → Option (CacheEntry H)
  resolve_entry i [] memo = memo
  resolve_entry zero (x ∷ rest) memo = settled_entry x memo
  resolve_entry (suc i) (x ∷ rest) memo = resolve_entry i rest memo

  abbrev pub without : ℕ → List (V × Option Bool) → List (V × Option Bool)
  without i [] = []
  without zero (x ∷ rest) = rest
  without (suc i) (x ∷ rest) = x ∷ without i rest

  unfoldable pub resolve : ℕ → Memo H V → Memo H V
  unfolding resolve_entry
  resolve i m = record { entry = resolve_entry i m.waiting m.entry; waiting = without i m.waiting }

  abbrev pub started : Memo H V → V → Outcome → Option Bool × Memo H V
  started m v (returned b) = (some b, record m { waiting = m.waiting ++ (v, some b) ∷ [] })
  started m v thrown = (none, m)
  started m v (promised r) = (r, record m { waiting = m.waiting ++ (v, r) ∷ [] })

-- What happens: a call of `isSatisfiedBy`, one of `isSatisfiedByAsync`, or the settling of a waiting one.
pub data Event (V C : Type 0) : Type 0 where
  asks : V → C → Event V C
  asks_async : V → C → Event V C
  settles : ℕ → Event V C

-- What a specification without a memoizer does, and, of `isSatisfiedBy` where that throws because
-- of a promise, what the promise settles to.
abbrev pub Allowed : Outcome → Option Bool → Type 0
Allowed (returned b) a = a ≡ some b
Allowed thrown a = a ≡ none
Allowed (promised r) a = (a ≡ none) ⊎ (a ≡ r)

hit : (o : Outcome) (b : Bool) → settle o ≡ some b → Allowed o (some b)
hit (returned x) b e = sym e
hit thrown b e = absurd (ground arith)
hit (promised r) b e = inr (sym e)

at_once-Allowed : (o : Outcome) → Allowed o (at_once o)
at_once-Allowed (returned b) = refl
at_once-Allowed thrown = refl
at_once-Allowed (promised r) = inl refl

module _ {H V C : Type 0} (dec : Discrete H) (hasher : V → H) where
  -- `isSatisfiedBy` with a memoizer: the answer, and the entry that it leaves.
  abbrev pub memoized :
      (V → C → Outcome)
      → Option (CacheEntry H)
      → V
      → C
      → Option Bool
      → Option Bool × Option (CacheEntry H)
  memoized run memo v c (some b) = (some b, memo)
  memoized run memo v c none = (at_once (run v c), keep_verdict dec hasher v (run v c) memo)

  unfoldable pub is_satisfied_by :
      (V → C → Outcome) → Option (CacheEntry H) → V → C → Option Bool × Option (CacheEntry H)
  is_satisfied_by run memo v c = memoized run memo v c (get_entry dec hasher memo v)

  abbrev pub memoized_async :
      (V → C → Outcome) → Memo H V → V → C → Option Bool → Option Bool × Memo H V
  memoized_async run m v c (some b) = (some b, m)
  memoized_async run m v c none = started dec hasher m v (run v c)

  -- `isSatisfiedByAsync` with a memoizer: what its promise settles to, `none` for an error.
  unfoldable pub is_satisfied_by_async :
      (V → C → Outcome) → Memo H V → V → C → Option Bool × Memo H V
  is_satisfied_by_async run m v c = memoized_async run m v c (get_entry dec hasher m.entry v)

  abbrev pub step : (V → C → Outcome) → Memo H V → Event V C → Option (Option Bool) × Memo H V
  step run m (asks v c) =
      let (a, entry) = is_satisfied_by run m.entry v c in (some a, record m { entry = entry })
  step run m (asks_async v c) = let (a, m') = is_satisfied_by_async run m v c in (some a, m')
  step run m (settles i) = (none, resolve dec hasher i m)

  abbrev pub Answered : (V → C → Outcome) → Event V C → Option (Option Bool) → Type 0
  Answered run (asks v c) none = ⊥
  Answered run (asks v c) (some a) = Allowed (run v c) a
  Answered run (asks_async v c) none = ⊥
  Answered run (asks_async v c) (some a) = a ≡ settle (run v c)
  Answered run (settles i) a = a ≡ none

  -- Every event of a sequence is answered so.
  abbrev pub AllAnswered : (V → C → Outcome) → Memo H V → List (Event V C) → Type 0
  AllAnswered run m [] = Unit
  AllAnswered run m (e ∷ es) = Answered run e (step run m e).0 × AllAnswered run (step run m e).1 es

  -- The verdict is that of every value of the hash, in every context.
  abbrev Verdict : (V → C → Outcome) → H → Option Bool → Type 0
  Verdict run h r = (v : V) (c : C) → hasher v ≡ h → settle (run v c) ≡ r

  abbrev Fits : (V → C → Outcome) → Option (CacheEntry H) → Type 0
  Fits run none = Unit
  Fits run (some e) = Verdict run e.hash (some e.verdict)

  abbrev Due : (V → C → Outcome) → V × Option Bool → Type 0
  Due run (v, r) = Verdict run (hasher v) r

  record Right (run : V → C → Outcome) (m : Memo H V) : Type 0 where
    entry : Fits run m.entry
    waiting : All (Due run) m.waiting

  keep_verdict-Fits :
      (run : V → C → Outcome) (v : V) (o : Outcome) (memo : Option (CacheEntry H))
      → Verdict run (hasher v) (settle o)
      → Fits run memo
      → Fits run (keep_verdict dec hasher v o memo)
  keep_verdict-Fits run v (returned b) memo same f = same
  keep_verdict-Fits run v thrown memo same f = f
  keep_verdict-Fits run v (promised r) memo same f = f

  get_entry-Fits :
      (run : V → C → Outcome) (memo : Option (CacheEntry H)) (v : V) (c : C) (b : Bool)
      → Fits run memo
      → get_entry dec hasher memo v ≡ some b
      → settle (run v c) ≡ some b
  get_entry-Fits run none v c b f e = cc
  get_entry-Fits run (some x) v c b f e = elim (dec (hasher v) x.hash) [
    | yes p ↦ f v c p ∙ ground arith
    | no n ↦ absurd (ground arith)
  ]

  resolve_entry-Fits :
      (run : V → C → Outcome) (i : ℕ) (ws : List (V × Option Bool)) (memo : Option (CacheEntry H))
      → Fits run memo
      → All (Due run) ws
      → Fits run (resolve_entry dec hasher i ws memo)
  unfolding resolve_entry
  resolve_entry-Fits run i [] memo f d = f
  resolve_entry-Fits run zero ((v, none) ∷ ws) memo f d = f
  resolve_entry-Fits run zero ((v, some b) ∷ ws) memo f d = d.0
  resolve_entry-Fits run (suc i) (x ∷ ws) memo f d = resolve_entry-Fits run i ws memo f d.1

  without-Due :
      (run : V → C → Outcome) (i : ℕ) (ws : List (V × Option Bool))
      → All (Due run) ws
      → All (Due run) (without dec hasher i ws)
  without-Due run i [] d = tt
  without-Due run zero (x ∷ ws) d = d.1
  without-Due run (suc i) (x ∷ ws) d = (d.0, without-Due run i ws d.1)

  add_last :
      (run : V → C → Outcome) (ws : List (V × Option Bool)) (x : V × Option Bool)
      → All (Due run) ws
      → Due run x
      → All (Due run) (ws ++ x ∷ [])
  add_last run [] x d y = (y, tt)
  add_last run (w ∷ ws) x d y = (d.0, add_last run ws x d.1 y)

  started-Right :
      (run : V → C → Outcome) (m : Memo H V) (v : V) (o : Outcome)
      → Verdict run (hasher v) (settle o)
      → Right run m
      → ((started dec hasher m v o).0 ≡ settle o) × Right run (started dec hasher m v o).1
  started-Right run m v (returned b) same h = (
    refl,
    record { entry = h.entry; waiting = add_last run m.waiting (v, some b) h.waiting same },
  )
  started-Right run m v thrown same h = (refl, h)
  started-Right run m v (promised r) same h =
      (refl, record { entry = h.entry; waiting = add_last run m.waiting (v, r) h.waiting same })

  memoized-Right :
      (run : V → C → Outcome) (m : Memo H V) (v : V) (c : C)
      → Verdict run (hasher v) (settle (run v c))
      → Right run m
      → Answered run (asks v c) (step run m (asks v c)).0 × Right run (step run m (asks v c)).1
  unfolding is_satisfied_by
  memoized-Right run m v c same h = elim (Option-cases (get_entry dec hasher m.entry v)) [
    | inl e ↦ rw e (
      at_once-Allowed (run v c),
      record {
        entry = keep_verdict-Fits run v (run v c) m.entry same h.entry;
        waiting = h.waiting;
      },
    )
    | inr (b, e) ↦ rw e (hit (run v c) b (get_entry-Fits run m.entry v c b h.entry e), h)
  ]

  memoized_async-Right :
      (run : V → C → Outcome) (m : Memo H V) (v : V) (c : C)
      → Verdict run (hasher v) (settle (run v c))
      → Right run m
      → Answered run (asks_async v c) (step run m (asks_async v c)).0
        × Right run (step run m (asks_async v c)).1
  unfolding is_satisfied_by_async
  memoized_async-Right run m v c same h = elim (Option-cases (get_entry dec hasher m.entry v)) [
    | inl e ↦ rw e (started-Right run m v (run v c) same h)
    | inr (b, e) ↦ rw e (sym (get_entry-Fits run m.entry v c b h.entry e), h)
  ]

  step-Right :
      (run : V → C → Outcome) (m : Memo H V) (e : Event V C)
      → ((v w : V) (c d : C) → hasher v ≡ hasher w → settle (run v c) ≡ settle (run w d))
      → Right run m
      → Answered run e (step run m e).0 × Right run (step run m e).1
  unfolding resolve
  step-Right run m (asks v c) same h = memoized-Right run m v c (λ w d e. same w v d c e) h
  step-Right run m (asks_async v c) same h =
      memoized_async-Right run m v c (λ w d e. same w v d c e) h
  step-Right run m (settles i) same h = (
    refl,
    record {
      entry = resolve_entry-Fits run i m.waiting m.entry h.entry h.waiting;
      waiting = without-Due run i m.waiting h.waiting;
    },
  )

  answered :
      (run : V → C → Outcome) (m : Memo H V) (es : List (Event V C))
      → ((v w : V) (c d : C) → hasher v ≡ hasher w → settle (run v c) ≡ settle (run w d))
      → Right run m
      → AllAnswered run m es
  answered run m [] same h = tt
  answered run m (e ∷ es) same h =
      let (a, h') = step-Right run m e same h in (a, answered run (step run m e).1 es same h')

  -- From an empty memoizer, through any sequence of calls of `isSatisfiedBy` and `isSatisfiedByAsync`
  -- and of settling promises in any order, where values of one hash have one verdict in whatever
  -- context: every call of `isSatisfiedByAsync` answers what it would without a memoizer, and every
  -- call of `isSatisfiedBy` too, but that on a promise, where it would throw, it may answer the
  -- verdict of that promise.
  pub answers-AllAnswered :
      (run : V → C → Outcome) (es : List (Event V C))
      → ((v w : V) (c d : C) → hasher v ≡ hasher w → settle (run v c) ≡ settle (run w d))
      → AllAnswered run (record { entry = none; waiting = [] }) es
  answers-AllAnswered run es same =
      answered run (record { entry = none; waiting = [] }) es same
        (record { entry = tt; waiting = tt })
