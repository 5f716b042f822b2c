-- ===== src/Async/Channel.antt =====
-- shareds/async/src/concurrency/channel.ts: `Channel` and the taking of ready values by `select`.
-- A callback that the source keeps (a taker, the `resolve` of a putter) is a number that the caller
-- chooses; a call of it is an event. An operation gives the new channel and its events in order.
pub mod Fifo
pub mod Select
use nope.Prelude.{
  ℕ, Bool, true, false, List, [], ◌∷◌, ◌++◌, map, Option, none, some, ltb, ◌==◌, if◌then◌else◌,
  length,
}

pub data Event {ℓ} (A : Type ℓ) : Type ℓ where
  -- a receiver gets a value
  delivered : ℕ → A → Event A
  -- a receiver gets `done: true`
  ended : ℕ → Event A
  -- the promise of a `send` resolves
  sent : ℕ → Event A
  -- `send` throws
  refused : ℕ → Event A

-- `{ v, resolve }`
pub record Putter {ℓ} (A : Type ℓ) : Type ℓ where
  pub id : ℕ
  pub v : A

-- `IteratorResult<T>`
pub data IteratorResult {ℓ} (A : Type ℓ) : Type ℓ where
  value : A → IteratorResult A
  done : IteratorResult A

pub record Channel {ℓ} (A : Type ℓ) : Type ℓ where
  pub capacity : ℕ
  pub buf : List A
  pub takers : List ℕ
  pub putters : List (Putter A)
  pub closed : Bool

pub create {ℓ} : {A : Type ℓ} → ℕ → Channel A
create n = record { capacity = n; buf = []; takers = []; putters = []; closed = false }

module _ {ℓ} {A : Type ℓ} where
  pub close : Channel A → Channel A × List (Event A)
  close c =
      if c.closed then (c, []) else (record c { closed = true; takers = [] }, map ended c.takers)

  -- `send` past the test of `_closed`: hand off, buffer, or wait.
  pub send_to : Channel A → ℕ → A → List ℕ → Channel A × List (Event A)
  send_to c i x (t ∷ ts) = (record c { takers = ts }, delivered t x ∷ sent i ∷ [])
  send_to c i x [] =
      if ltb (length c.buf) c.capacity
      then (record c { buf = c.buf ++ x ∷ [] }, sent i ∷ [])
      else (record c { putters = c.putters ++ record { id = i; v = x } ∷ [] }, [])

  pub send : Channel A → ℕ → A → Channel A × List (Event A)
  unfolding send_to
  send c i x = if c.closed then (c, refused i ∷ []) else send_to c i x c.takers

  -- `takeImmediate` with a value in the buffer: `rest` is the buffer without it.
  pub refill : Channel A → List A → List (Putter A) → List ℕ → Channel A × List (Event A)
  refill c rest [] ts = (record c { buf = rest }, [])
  refill c rest (p ∷ ps) [] = (record c { buf = rest ++ p.v ∷ []; putters = ps }, sent p.id ∷ [])
  refill c rest (p ∷ ps) (t ∷ ts) =
      (record c { buf = rest; putters = ps; takers = ts }, delivered t p.v ∷ sent p.id ∷ [])

  -- `takeImmediate` with an empty buffer.
  pub take_pending :
      Channel A → List (Putter A) → Channel A × List (Event A) × Option (IteratorResult A)
  take_pending c (p ∷ ps) = (record c { putters = ps }, sent p.id ∷ [], some (value p.v))
  take_pending c [] = (c, [], if c.closed then some done else none)

  pub take_from : Channel A → List A → Channel A × List (Event A) × Option (IteratorResult A)
  unfolding refill take_pending
  take_from c (x ∷ rest) =
      let (c', es) = refill c rest c.putters c.takers in (c', es, some (value x))
  take_from c [] = take_pending c c.putters

  pub take_immediate : Channel A → Channel A × List (Event A) × Option (IteratorResult A)
  unfolding take_from
  take_immediate c = take_from c c.buf

  -- The promise of a receiver, settled at once or left to a taker.
  pub settle :
      ℕ → Channel A × List (Event A) × Option (IteratorResult A) → Channel A × List (Event A)
  settle i (c, es, some (value x)) = (c, es ++ delivered i x ∷ [])
  settle i (c, es, some done) = (c, es ++ ended i ∷ [])
  settle i (c, es, none) = (record c { takers = c.takers ++ i ∷ [] }, es)

  pub recv : Channel A → ℕ → Channel A × List (Event A)
  unfolding take_immediate settle
  recv c i = settle i (take_immediate c)

-- `indexOf` and `splice(idx, 1)`.
abbrev pub remove_taker : ℕ → List ℕ → List ℕ
remove_taker i [] = []
remove_taker i (t ∷ ts) = if t == i then ts else t ∷ remove_taker i ts

module _ {ℓ} {A : Type ℓ} where
  -- `addTakerOnce`: the answer at hand, or a taker that can be called off.
  pub add_once :
      ℕ
      → Channel A × List (Event A) × Option (IteratorResult A)
      → Channel A × Option (IteratorResult A)
  add_once i (c, es, some r) = (c, some r)
  add_once i (c, es, none) = (record c { takers = c.takers ++ i ∷ [] }, none)

  pub add_taker_once : Channel A → ℕ → Channel A × Option (IteratorResult A)
  unfolding take_immediate add_once
  add_taker_once c i = add_once i (take_immediate c)

  -- `cancel` of a registration: of one answered at once it does nothing.
  pub cancel : ℕ → Channel A × Option (IteratorResult A) → Channel A
  cancel i (c, some r) = c
  cancel i (c, none) = record c { takers = remove_taker i c.takers }

  -- The first registration that is answered at once wins the race.
  pub winner : List (Channel A × Option (IteratorResult A)) → Option (IteratorResult A)
  winner [] = none
  winner ((c, some r) ∷ regs) = some r
  winner ((c, none) ∷ regs) = winner regs

  -- `select` where some channel answers at once: register on all, take the winner, cancel the rest.
  pub select_ready : List (Channel A) → ℕ → List (Channel A) × Option (IteratorResult A)
  unfolding add_taker_once cancel winner
  select_ready cs i =
      let regs = map (λ c. add_taker_once c i) cs in (map (cancel i) regs, winner regs)
