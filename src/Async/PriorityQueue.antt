-- ===== src/Async/PriorityQueue.antt =====
-- shareds/async/src/concurrency/priority-queue.ts. `lt x y` is `cmp(x, y) < 0`. A read out of the array
-- is `none`, which counts as the greatest element: the source tests the length there.
pub mod Sifts
pub mod Order
pub mod Runs
use nope.Prelude.{
  ℕ, zero, suc, ◌+◌, ◌-◌, ◌*◌, ◌/◌, Bool, true, false, ◌&&◌, List, [], ◌∷◌, ◌++◌, Option, none,
  some, ltb, leb, ◌==◌, if◌then◌else◌, length, get_elem?, set,
}

pub record PriorityQueue (T : Type 0) : Type 0 where
  pub a : List T
  pub capacity : Option ℕ

abbrev pub parent : ℕ → ℕ
parent i = (i - 1) / 2

abbrev pub left : ℕ → ℕ
left i = i * 2 + 1

abbrev pub right : ℕ → ℕ
right i = i * 2 + 2

-- `a.length >= capacity`
abbrev pub full : Option ℕ → ℕ → Bool
full none n = false
full (some c) n = leb c n

module _ {T : Type 0} where
  unfoldable pub create : Option ℕ → PriorityQueue T
  create capacity = record { a = []; capacity = capacity }

  pub size : PriorityQueue T → ℕ
  size q = length q.a

  pub is_empty : PriorityQueue T → Bool
  is_empty q = length q.a == 0

  pub peek : PriorityQueue T → Option T
  peek q = get_elem? q.a 0

  -- `array[i] = v`
  abbrev pub write : List T → ℕ → Option T → List T
  write a i none = a
  write a i (some v) = set a i v

  -- `[a[i], a[j]] = [a[j], a[i]]`
  abbrev pub swap : List T → ℕ → ℕ → List T
  swap a i j = write (write a i (get_elem? a j)) j (get_elem? a i)

  -- `array.pop()`: what it leaves, and what it returns.
  abbrev pub drop_last : List T → List T
  drop_last [] = []
  drop_last (x ∷ []) = []
  drop_last (x ∷ y ∷ a) = x ∷ drop_last (y ∷ a)

  abbrev pub last_of : List T → Option T
  last_of [] = none
  last_of (x ∷ []) = some x
  last_of (x ∷ y ∷ a) = last_of (y ∷ a)

module _ {T : Type 0} (lt : T → T → Bool) where
  abbrev pub less : Option T → Option T → Bool
  less none o = false
  less (some x) none = true
  less (some x) (some y) = lt x y

  -- The loop of `heapifyUp`, on fuel.
  unfoldable pub heapify_up : ℕ → List T → ℕ → List T
  heapify_up zero a i = a
  heapify_up (suc n) a i =
      let rest = heapify_up n (swap a i (parent i)) (parent i) in
      if ltb 0 i && less (get_elem? a i) (get_elem? a (parent i)) then rest else a

  -- `s` after the two tests of `heapifyDown`.
  abbrev pub better : (ℕ → Option T) → ℕ → ℕ → ℕ
  better r s c = if less (r c) (r s) then c else s

  abbrev pub smallest : (ℕ → Option T) → ℕ → ℕ
  smallest r i = better r (better r i (left i)) (right i)

  -- The loop of `heapifyDown`, on fuel.
  unfoldable pub heapify_down : ℕ → List T → ℕ → List T
  heapify_down zero a i = a
  heapify_down (suc n) a i =
      let s = smallest (get_elem? a) i in
      let rest = heapify_down n (swap a i s) s in if s == i then a else rest

  abbrev pub max_from : List T → ℕ → ℕ → List T → ℕ
  max_from a idx i [] = idx
  max_from a idx i (y ∷ ys) =
      max_from a (if less (get_elem? a idx) (some y) then i else idx) (suc i) ys

  unfoldable pub max_index : List T → Option ℕ
  max_index [] = none
  max_index (x ∷ xs) = some (max_from (x ∷ xs) 0 1 xs)

  -- `push` to a full queue, with the index of the worst element: the queue and what `onDrop` gets.
  abbrev pub push_full : PriorityQueue T → T → Option ℕ → PriorityQueue T × Option T
  push_full q x none = (q, none)
  push_full q x (some worst) =
      if less (some x) (get_elem? q.a worst)
      then (record q { a = heapify_down (length q.a) (set q.a worst x) worst }, get_elem? q.a worst)
      else (q, some x)

  unfoldable pub push : PriorityQueue T → T → PriorityQueue T × Option T
  unfolding heapify_up heapify_down max_index
  push q x =
      if full q.capacity (length q.a)
      then push_full q x (max_index q.a)
      else (record q { a = heapify_up (length q.a) (q.a ++ x ∷ []) (length q.a) }, none)

  unfoldable pub pop : PriorityQueue T → PriorityQueue T × Option T
  unfolding heapify_down
  pop q = (
    record q {
      a =
          if ltb 1 (length q.a)
          then heapify_down (length q.a) (write (drop_last q.a) 0 (last_of q.a)) 0
          else drop_last q.a;
    },
    get_elem? q.a 0,
  )
