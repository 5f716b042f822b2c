-- ===== src/Cron/CronPlan/Search.antt =====
-- The search of `next`: the first candidate that passes, or why there is none.
use nope.Prelude.{
  ℕ, zero, suc, ◌+◌, ◌*◌, ◌≤◌, ◌<◌, ◌≡◌, refl, Bool, true, false, Option, none, arith, if_elim,
  dec_lt,
}
use nope.Cron.CronPlan.{
  TimeFields, Plan, Answer, found, undefined, throws, search, accepts, next, note, limit, past,
  reached, note,
}

-- The `j`-th candidate from `c`.
abbrev pub candidate : ℕ → ℕ → ℕ
candidate c j = c + j * 1000

module _ (test : ℕ → Bool) (end_at : Option ℕ) where
  -- The first `k` candidates from `c` are in time and fail.
  pub Fails : ℕ → ℕ → Type 0
  Fails c k =
      (j : ℕ) → j < k → (past end_at (candidate c j) ≡ false) × (test (candidate c j) ≡ false)

  -- What an answer says of the `n` candidates from `c`.
  abbrev pub Means : ℕ → ℕ → Answer → Type 0
  Means n c (found t) =
      (k : ℕ) × (k < n)
      × (t ≡ candidate c k)
      × (past end_at t ≡ false)
      × (test t ≡ true)
      × Fails c k
  Means n c undefined = (k : ℕ) × (k < n) × (past end_at (candidate c k) ≡ true) × Fails c k
  Means n c throws = Fails c n

  Fails-suc :
      (c k : ℕ) → past end_at c ≡ false → test c ≡ false → Fails (c + 1000) k → Fails c (suc k)
  unfolding Fails
  Fails-suc c k p t h zero l = let e : c + 0 * 1000 ≡ c = omega arith in rw e (p, t)
  Fails-suc c k p t h (suc j) l =
      let e : c + suc j * 1000 ≡ c + 1000 + j * 1000 = omega arith in rw e (h j (omega arith))

  Means-suc :
      (n c : ℕ) (a : Answer)
      → past end_at c ≡ false
      → test c ≡ false
      → Means n (c + 1000) a
      → Means (suc n) c a
  Means-suc n c (found t) p q (k, l, e, pa, te, f) =
      (suc k, omega arith, omega arith, pa, te, Fails-suc c k p q f)
  Means-suc n c undefined p q (k, l, pa, f) = (
    suc k,
    omega arith,
    (let e : c + suc k * 1000 ≡ c + 1000 + k * 1000 = omega arith in rw e pa),
    Fails-suc c k p q f,
  )
  Means-suc n c throws p q f = Fails-suc c n p q f

  search-Means : (n c : ℕ) → Means n c (search test end_at n c)
  unfolding search Fails
  search-Means zero c = λ j l. absurd (omega arith)
  search-Means (suc n) c =
      let e : c + 0 * 1000 ≡ c = omega arith in
      if_elim (Means (suc n) c) (past end_at c)
        (λ p. (0, omega arith, rw e p, λ j l. absurd (omega arith)))
        (λ p.
          if_elim (Means (suc n) c) (test c)
            (λ q. (0, omega arith, omega arith, p, q, λ j l. absurd (omega arith)))
            (λ q. Means-suc n c (search test end_at n (c + 1000)) p q (search-Means n (c + 1000))))

  -- A candidate that passes, with all before it in time, is found or an earlier one is.
  search_finds :
      (n c k : ℕ)
      → k < n
      → test (candidate c k) ≡ true
      → ((j : ℕ) → j ≤ k → past end_at (candidate c j) ≡ false)
      → (t : ℕ) × (search test end_at n c ≡ found t) × (t ≤ candidate c k)
  unfolding Fails
  search_finds n c k l h early = go (search test end_at n c) refl (search-Means n c)
    where
      go :
          (a : Answer)
          → search test end_at n c ≡ a
          → Means n c a
          → (t : ℕ) × (search test end_at n c ≡ found t) × (t ≤ candidate c k)
      go (found t) e (k', l', e', pa, te, f) =
          (t, e, elim (dec_lt k k') [ yes w ↦ absurd (cc (h, (f k w).1)) | no w ↦ omega arith ])
      go undefined e (k', l', pa, f) = elim (dec_lt k k') [
        | yes w ↦ absurd (cc (h, (f k w).1))
        | no w ↦ absurd (cc (pa, early k' (omega arith)))
      ]
      go throws e m = absurd (cc (h, (m k l).1))

  search_throws :
      end_at ≡ none
      → (n c : ℕ) → ((j : ℕ) → j < n → test (candidate c j) ≡ false)
      → search test end_at n c ≡ throws
  unfolding search
  search_throws e zero c h = refl
  search_throws e (suc n) c h =
      let e0 : c + 0 * 1000 ≡ c = omega arith in
      let first : test c ≡ false = rw e0 at (h 0 (omega arith)) in
      rw (e, first)
        (search_throws e n (c + 1000) (λ j l.
          let ej : c + 1000 + j * 1000 ≡ c + suc j * 1000 = omega arith in
          rw ej (h (suc j) (omega arith))))

module _ (extract_fields : ℕ → TimeFields) (allow_date : ℕ → TimeFields → Bool) where
  note_answer : (p : Plan) (a : Answer) → (note extract_fields allow_date p a).1 ≡ a
  unfolding note
  note_answer p (found t) = refl
  note_answer p undefined = refl
  note_answer p throws = refl

  -- A plan with runs left answers by the first of the 500000 seconds after `after`, counted from a
  -- second later, that the expression and the calendars accept, if all before it are not past the
  -- end; `undefined` says that the end was met first, and a throw that none of them is accepted.
  pub next-Means :
      (p : Plan) (after : ℕ)
      → reached p.max_runs p.emitted ≡ false
      → Means
          (accepts extract_fields allow_date p.spec)
          p.end_at
          limit
          (after + 1000)
          (next extract_fields allow_date p after).1
  unfolding next
  next-Means p after r =
      let P : Plan × Answer → Type 0 =
        λ x. Means (accepts extract_fields allow_date p.spec) p.end_at limit (after + 1000) x.1 in
      let a = search (accepts extract_fields allow_date p.spec) p.end_at limit (after + 1000) in
      if_elim P (reached p.max_runs p.emitted) (λ e. absurd (cc))
        (λ e. rw (note_answer p a) (search-Means _ p.end_at limit (after + 1000)))

  -- If one of those seconds is accepted, and none up to it lies past the end, then `next` gives an
  -- instant, no later than that second.
  pub next_finds :
      (p : Plan) (after k : ℕ)
      → reached p.max_runs p.emitted ≡ false
      → k < limit
      → accepts extract_fields allow_date p.spec (candidate (after + 1000) k) ≡ true
      → ((j : ℕ) → j ≤ k → past p.end_at (candidate (after + 1000) j) ≡ false)
      → (t : ℕ) × ((next extract_fields allow_date p after).1 ≡ found t)
        × (t ≤ candidate (after + 1000) k)
  unfolding next
  next_finds p after k r l h early =
      let (t, e, le) =
        search_finds (accepts extract_fields allow_date p.spec) p.end_at limit (after + 1000) k l h
          early in
      (t, rw (r, e) refl, le)

  -- An expression that accepts none of those seconds makes `next` throw, whatever it accepts later: a
  -- plan without an end cannot wait for more than 500000 seconds, less than six days.
  pub next_throws :
      (p : Plan) (after : ℕ)
      → reached p.max_runs p.emitted ≡ false
      → p.end_at ≡ none
      → ((j : ℕ)
          → j < limit
          → accepts extract_fields allow_date p.spec (candidate (after + 1000) j) ≡ false)
      → next extract_fields allow_date p after ≡ (p, throws)
  unfolding next
  next_throws p after r e h =
      rw
        (
          r,
          search_throws (accepts extract_fields allow_date p.spec) p.end_at e limit (after + 1000)
              h,
        )
        refl
