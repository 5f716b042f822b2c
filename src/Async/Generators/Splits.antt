-- ===== src/Async/Generators/Splits.antt =====
-- The generators of shareds/async/src/generator/basics.ts that take a source apart.
use nope.Prelude.{
  ℕ, zero, suc, ◌+◌, ◌-◌, ◌≤◌, ◌<◌, ◌≡◌, refl, ap, ◌∙◌, Bool, true, false, List, [], ◌∷◌, ◌++◌,
  some, leb, lt→ltb, ◌==◌, length, length-append, drop, append_assoc, All, arith, Bool-cases, inl,
  inr,
}
use nope.Async.Generators.{
  take_from, take_g, drop_from, drop_g, take_while_from, take_while, drop_while_from, drop_while,
  not_empty, chunk_from, chunk, flatten, window_from, has, unique_from, unique_by,
}

module _ {A : Type 0} where
  drop_past : (i n : ℕ) (xs : List A) → n ≤ i → drop_from i n xs ≡ xs
  drop_past i n [] h = refl
  drop_past i n (x ∷ xs) h = let rest = drop_past (i + 1) n xs (omega arith) in ground arith

  take_from-append : (i n : ℕ) (xs : List A) → i < n → take_from i n xs ++ drop_from i n xs ≡ xs
  take_from-append i n [] h = refl
  take_from-append i n (x ∷ xs) h = elim (Bool-cases (leb n (i + 1))) [
    | inl e ↦ let d = drop_past (i + 1) n xs (ground arith) in rw (e, lt→ltb i n h) (ap (◌∷◌ x) d)
    | inr e ↦ rw (e, lt→ltb i n h) (ap (◌∷◌ x) (take_from-append (i + 1) n xs (ground arith)))
  ]

  length-take_from : (i n : ℕ) (xs : List A) → i < n → length (take_from i n xs) + i ≤ n
  length-take_from i n [] h = omega arith
  length-take_from i n (x ∷ xs) h = elim (Bool-cases (leb n (i + 1))) [
    | inl e ↦ rw e (omega arith)
    | inr e ↦ let r = length-take_from (i + 1) n xs (ground arith) in rw e (omega arith)
  ]

  drop_all : (i : ℕ) (p : A → ℕ → Bool) (xs : List A) → drop_while_from true i p xs ≡ xs
  drop_all i p [] = refl
  drop_all i p (x ∷ xs) = ap (◌∷◌ x) (drop_all i p xs)

  take_while-append :
      (i : ℕ) (p : A → ℕ → Bool) (xs : List A)
      → take_while_from i p xs ++ drop_while_from false i p xs ≡ xs
  take_while-append i p [] = refl
  take_while-append i p (x ∷ xs) = elim (Bool-cases (p x i)) [
    | inl e ↦ rw e (ap (◌∷◌ x) (take_while-append (i + 1) p xs))
    | inr e ↦ rw e (ap (◌∷◌ x) (drop_all (i + 1) p xs))
  ]

  -- `take` and `drop` with the same number split the source, and so do `takeWhile` and `dropWhile` with
  -- the same test; and `take` yields at most `n` elements.
  pub take_g-split :
      (xs : List A) (n : ℕ) (p : A → ℕ → Bool)
      → (take_g xs n ++ drop_g xs n ≡ xs)
        × (take_while xs p ++ drop_while xs p ≡ xs)
        × (length (take_g xs n) ≤ n)
  take_g-split xs zero p = (drop_past 0 0 xs (omega arith), take_while-append 0 p xs, omega arith)
  take_g-split xs (suc n) p =
      let l = length-take_from 0 (suc n) xs (omega arith) in
      let e : (suc n == 0) ≡ false = ground arith in
      rw e (take_from-append 0 (suc n) xs (omega arith), take_while-append 0 p xs, omega arith)

  -- Every chunk but the last is full, and the last is not empty and not larger.
  abbrev pub Chunked : ℕ → List (List A) → Type 0
  Chunked size [] = Unit
  Chunked size (c ∷ []) = (0 < length c) × (length c ≤ size)
  Chunked size (c ∷ d ∷ cs) = (length c ≡ size) × Chunked size (d ∷ cs)

  Chunked-cons :
      (size : ℕ) (c : List A) (cs : List (List A))
      → 0 < size
      → length c ≡ size
      → Chunked size cs
      → Chunked size (c ∷ cs)
  Chunked-cons size c [] h e k = (omega arith, omega arith)
  Chunked-cons size c (d ∷ cs) h e k = (e, k)

  Chunked-not_empty : (size : ℕ) (buf : List A) → length buf < size → Chunked size (not_empty buf)
  Chunked-not_empty size [] h = tt
  Chunked-not_empty size (x ∷ xs) h = (omega arith, omega arith)

  flatten-not_empty : (buf : List A) → flatten (not_empty buf) ≡ buf ++ []
  flatten-not_empty [] = refl
  flatten-not_empty (x ∷ xs) = refl

  chunk_from-Chunked :
      (buf : List A) (size : ℕ) (xs : List A)
      → length buf < size
      → Chunked size (chunk_from buf size xs) × (flatten (chunk_from buf size xs) ≡ buf ++ xs)
  chunk_from-Chunked buf size [] h = (Chunked-not_empty size buf h, flatten-not_empty buf)
  chunk_from-Chunked buf size (x ∷ xs) h =
      let l = length-append buf (x ∷ []) in
      elim (Bool-cases (length (buf ++ x ∷ []) == size)) [
        | inl e ↦
            let (c, f) = chunk_from-Chunked [] size xs (omega arith) in
            rw e (
              Chunked-cons size (buf ++ x ∷ []) (chunk_from [] size xs) (omega arith) (ground arith)
                  c,
              ap (λ ys. (buf ++ x ∷ []) ++ ys) f ∙ append_assoc buf (x ∷ []) xs,
            )
        | inr e ↦
            let (c, f) = chunk_from-Chunked (buf ++ x ∷ []) size xs (ground arith) in
            rw e (c, f ∙ append_assoc buf (x ∷ []) xs)
      ]

  -- With a positive size, `chunk` does not throw: it yields chunks of that size, the last one perhaps
  -- smaller but not empty, and flattened they are the source.
  pub chunk-Chunked :
      (xs : List A) (size : ℕ)
      → 0 < size
      → (cs : List (List A)) × (chunk xs size ≡ some cs) × Chunked size cs × (flatten cs ≡ xs)
  unfolding chunk
  chunk-Chunked xs size h =
      let (c, f) = chunk_from-Chunked [] size xs h in
      let e : (size == 0) ≡ false = ground arith in (chunk_from [] size xs, rw e refl, c, f)

  length-drop : (n : ℕ) (xs : List A) → length (drop n xs) ≡ length xs - n
  length-drop zero xs = omega arith
  length-drop (suc n) [] = omega arith
  length-drop (suc n) (x ∷ xs) = omega (arith, length-drop n xs)

  window_from-sizes :
      (buf : List A) (size step : ℕ) (xs : List A)
      → length buf < size
      → 0 < step
      → All (λ w. length w ≡ size) (window_from buf size step xs)
  window_from-sizes buf size step [] h k = tt
  window_from-sizes buf size step (x ∷ xs) h k =
      let l = length-append buf (x ∷ []) in
      elim (Bool-cases (leb size (length (buf ++ x ∷ [])))) [
        | inl e ↦
            let n : length (buf ++ x ∷ []) ≡ size = ground arith in
            let d = length-drop (length (buf ++ x ∷ []) - size) (buf ++ x ∷ []) in
            let d' = length-drop step (buf ++ x ∷ []) in
            rw e (
              omega arith,
              window_from-sizes (drop step (buf ++ x ∷ [])) size step xs (omega arith) k,
            )
        | inr e ↦ rw e (window_from-sizes (buf ++ x ∷ []) size step xs (ground arith) k)
      ]

module _ {A K : Type 0} (dec : Discrete K) where
  -- No two elements with the same key, and none with a key of `seen`.
  abbrev pub Fresh : List K → List A → (A → K) → Type 0
  Fresh seen [] key = Unit
  Fresh seen (x ∷ xs) key = (has dec seen (key x) ≡ false) × Fresh (key x ∷ seen) xs key

  -- What `uniqueBy` yields has each key once, and a second pass yields the same.
  pub unique_by-Fresh :
      (xs : List A) (key : A → K)
      → Fresh [] (unique_by dec xs key) key
        × (unique_by dec (unique_by dec xs key) key ≡ unique_by dec xs key)
  unique_by-Fresh xs key = (fresh [] xs, again [] (unique_by dec xs key) (fresh [] xs))
    where
      fresh : (seen : List K) (ys : List A) → Fresh seen (unique_from dec seen ys key) key
      fresh seen [] = tt
      fresh seen (y ∷ ys) = elim (Bool-cases (has dec seen (key y))) [
        | inl e ↦ rw e (fresh seen ys)
        | inr e ↦ rw e (e, fresh (key y ∷ seen) ys)
      ]

      again : (seen : List K) (ys : List A) → Fresh seen ys key → unique_from dec seen ys key ≡ ys
      again seen [] h = refl
      again seen (y ∷ ys) h = rw h.0 (ap (◌∷◌ y) (again (key y ∷ seen) ys h.1))
