-- ===== src/Async/Channel/Select.antt =====
-- `select` registers on every channel before it looks at an answer, and what a channel answers at
-- once is taken from it for good.
use nope.Prelude.{
  ℕ, ◌+◌, ◌≡◌, refl, List, [], ◌∷◌, ◌++◌, map, some, length, arith, append_assoc, sum_by, All,
  Bool-cases, inl, inr,
}
use nope.Async.Channel.{Putter, value, Channel, add_taker_once, cancel, select_ready}
use nope.Async.Channel.Fifo.{contents, IsValid}

module _ {A : Type 0} where
  -- What a registration answers and leaves, by what the channel holds.
  abbrev Takes : Channel A → ℕ → List A → Type 0
  Takes c i [] = contents (cancel i (add_taker_once c i)) ≡ []
  Takes c i (x ∷ rest) =
      ((add_taker_once c i).1 ≡ some (value x)) × (contents (cancel i (add_taker_once c i)) ≡ rest)

  take_once :
      (c : Channel A) (i : ℕ) (b : List A) (ps : List (Putter A))
      → c.buf ≡ b
      → c.putters ≡ ps
      → IsValid c
      → Takes c i (b ++ map (λ p. p.v) ps)
  unfolding add_taker_once cancel
  take_once c i (x ∷ rest) [] b p h = (ground arith, rw (b, p) refl)
  take_once c i (x ∷ rest) (q ∷ ps) b p h =
      let t : c.takers ≡ [] = ground arith in
      (ground arith, rw (b, p, t) (append_assoc rest (q.v ∷ []) (map (λ p. p.v) ps)))
  take_once c i [] [] b p h = elim (Bool-cases c.closed) [
    | inl e ↦ rw (b, p, e) refl
    | inr e ↦ rw (b, p, e) refl
  ]
  take_once c i [] (q ∷ ps) b p h = (ground arith, rw (b, p) refl)

  abbrev pub held : List (Channel A) → ℕ
  held = sum_by λ c. length (contents c)

  abbrev has_value : List A → ℕ
  has_value [] = 0
  has_value (x ∷ xs) = 1

  -- The channels that hold a value.
  abbrev pub ready : List (Channel A) → ℕ
  ready = sum_by λ c. has_value (contents c)

  take_once-length :
      (c : Channel A) (i : ℕ) (l : List A)
      → contents c ≡ l
      → Takes c i l
      → length (contents (cancel i (add_taker_once c i))) + has_value (contents c)
        ≡ length (contents c)
  take_once-length c i [] e t = rw (e, t) refl
  take_once-length c i (x ∷ xs) e t = rw (e, t.1) (omega arith)

  -- `select` hands one value to its caller and takes one from every channel that holds any: the
  -- channels lose as many values as there were ready channels. So with two ready channels one value
  -- at least is lost.
  pub select_ready-loses :
      (cs : List (Channel A)) (i : ℕ)
      → All IsValid cs
      → held (select_ready cs i).0 + ready cs ≡ held cs
  unfolding select_ready
  select_ready-loses [] i h = refl
  select_ready-loses (c ∷ cs) i h = omega (
    arith,
    select_ready-loses cs i h.1,
    take_once-length c i (contents c) refl (take_once c i c.buf c.putters refl refl h.0),
  )
