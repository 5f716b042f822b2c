-- ===== src/Async/Generators.antt =====
-- shareds/async/src/generator/basics.ts, collectors.ts and sort.ts on finite sources: an iterable is
-- the list of what it yields, and a generator that ends yields a list. A callback gets the index too.
pub mod Splits
use nope.Prelude.{
  ℕ, zero, suc, ◌+◌, ◌-◌, ◌*◌, ◌≤◌, ◌<◌, ◌≡◌, ◌≢◌, refl, sym, ap, ◌∙◌, Bool, true, false, not, ◌||◌,
  List, [], ◌∷◌, ◌++◌, map, Option, none, some, leb, ltb, lt→ltb, ◌==◌, if◌then◌else◌, if_elim,
  length, length-append, drop, append_assoc, append-nil, All, arith, Bool-cases, ◌⊎◌, inl, inr, ite,
  if_pos, if_neg,
}

module _ {A : Type 0} where
  abbrev pub map_from : {B : Type 0} → ℕ → (A → ℕ → B) → List A → List B
  map_from i f [] = []
  map_from i f (x ∷ xs) = f x i ∷ map_from (i + 1) f xs

  abbrev pub map_g : {B : Type 0} → List A → (A → ℕ → B) → List B
  map_g xs f = map_from 0 f xs

  abbrev pub filter_from : ℕ → (A → ℕ → Bool) → List A → List A
  filter_from i p [] = []
  filter_from i p (x ∷ xs) =
      if p x i then x ∷ filter_from (i + 1) p xs else filter_from (i + 1) p xs

  abbrev pub filter_g : List A → (A → ℕ → Bool) → List A
  filter_g xs p = filter_from 0 p xs

  -- The loop of `take`: yields, and stops when `++i >= n`.
  abbrev pub take_from : ℕ → ℕ → List A → List A
  take_from i n [] = []
  take_from i n (x ∷ xs) =
      let rest = take_from (i + 1) n xs in x ∷ (if leb n (i + 1) then [] else rest)

  abbrev pub take_g : List A → ℕ → List A
  take_g xs n = if n == 0 then [] else take_from 0 n xs

  abbrev pub drop_from : ℕ → ℕ → List A → List A
  drop_from i n [] = []
  drop_from i n (x ∷ xs) = if ltb i n then drop_from (i + 1) n xs else x ∷ drop_from (i + 1) n xs

  abbrev pub drop_g : List A → ℕ → List A
  drop_g xs n = drop_from 0 n xs

  abbrev pub take_while_from : ℕ → (A → ℕ → Bool) → List A → List A
  take_while_from i p [] = []
  take_while_from i p (x ∷ xs) = if not (p x i) then [] else x ∷ take_while_from (i + 1) p xs

  abbrev pub take_while : List A → (A → ℕ → Bool) → List A
  take_while xs p = take_while_from 0 p xs

  -- The loop of `dropWhile`; once `pass` is set the callback is not called again.
  abbrev pub drop_while_from : Bool → ℕ → (A → ℕ → Bool) → List A → List A
  drop_while_from pass i p [] = []
  drop_while_from true i p (x ∷ xs) = x ∷ drop_while_from true i p xs
  drop_while_from false i p (x ∷ xs) =
      if not (p x i)
      then x ∷ drop_while_from true (i + 1) p xs
      else drop_while_from false (i + 1) p xs

  abbrev pub drop_while : List A → (A → ℕ → Bool) → List A
  drop_while xs p = drop_while_from false 0 p xs

  abbrev pub enumerate : List A → ℕ → List (ℕ × A)
  enumerate [] start = []
  enumerate (x ∷ xs) start = (start, x) ∷ enumerate xs (start + 1)

  abbrev pub not_empty : List A → List (List A)
  not_empty [] = []
  not_empty (x ∷ xs) = (x ∷ xs) ∷ []

  -- The loop of `chunk`, with what is in `buf`.
  abbrev pub chunk_from : List A → ℕ → List A → List (List A)
  chunk_from buf size [] = not_empty buf
  chunk_from buf size (x ∷ xs) =
      let full = buf ++ x ∷ [] in
      if length full == size then full ∷ chunk_from [] size xs else chunk_from full size xs

  -- `none` is the `Error` that is thrown.
  unfoldable pub chunk : List A → ℕ → Option (List (List A))
  chunk xs size = if size == 0 then none else some (chunk_from [] size xs)

  abbrev pub flatten : List (List A) → List A
  flatten [] = []
  flatten (xs ∷ xss) = xs ++ flatten xss

  abbrev pub flat_map_from : {B : Type 0} → ℕ → List A → (A → ℕ → List B) → List B
  flat_map_from i [] f = []
  flat_map_from i (x ∷ xs) f = f x i ++ flat_map_from (i + 1) xs f

  abbrev pub reduce_from : {B : Type 0} → ℕ → List A → (B → A → ℕ → B) → B → B
  reduce_from i [] f acc = acc
  reduce_from i (x ∷ xs) f acc = reduce_from (i + 1) xs f (f acc x i)

  abbrev pub reduce_g : {B : Type 0} → List A → (B → A → ℕ → B) → B → B
  reduce_g xs f init = reduce_from 0 xs f init

  -- The loop of `slidingWindow`, with what is in `buf`; `splice(0, step)` drops `step` from its front.
  abbrev pub window_from : List A → ℕ → ℕ → List A → List (List A)
  window_from buf size step [] = []
  window_from buf size step (x ∷ xs) =
      let full = buf ++ x ∷ [] in
      if leb size (length full)
      then drop (length full - size) full ∷ window_from (drop step full) size step xs
      else window_from full size step xs

  unfoldable pub sliding_window : List A → ℕ → ℕ → Option (List (List A))
  sliding_window xs size step =
      if size == 0 || step == 0 then none else some (window_from [] size step xs)

abbrev pub flat_map : {A B : Type 0} → List A → (A → ℕ → List B) → List B
flat_map xs f = flat_map_from 0 xs f

module _ {K : Type 0} (dec : Discrete K) where
  -- `seen.has(k)`
  abbrev pub has : List K → K → Bool
  has [] k = false
  has (j ∷ js) k = ite (dec j k) true (has js k)

module _ {A K : Type 0} (dec : Discrete K) where
  abbrev pub unique_from : List K → List A → (A → K) → List A
  unique_from seen [] key = []
  unique_from seen (x ∷ xs) key =
      if not (has dec seen (key x))
      then x ∷ unique_from (key x ∷ seen) xs key
      else unique_from seen xs key

  abbrev pub unique_by : List A → (A → K) → List A
  unique_by xs key = unique_from [] xs key
