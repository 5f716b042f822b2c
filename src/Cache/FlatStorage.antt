-- ===== src/Cache/FlatStorage.antt =====
-- shareds/cache/src/flat-storage.ts: `FlatEntryStorage`. The arrays of values, expiries and sliding
-- times are JavaScript arrays, which take a write at any index: functions of the index. The sizes and
-- access times are `Float64Array`s of the capacity's length, which drop a write out of range: lists.
-- The head of `free_slots` is the end of the array, where `push` and `pop` work.
pub mod Slots
pub mod Runs
use nope.Prelude.{
  ℕ, ◌+◌, ◌-◌, ◌<◌, ◌≡◌, Bool, true, false, Option, none, some, List, [], ◌∷◌, length, get_elem?,
  set, replicate, leb, ltb, ◌==◌, if◌then◌else◌, ◌||◌,
}

pub record Storage (V : Type 0) : Type 0 where
  pub values : ℕ → Option V
  pub expires : ℕ → Option ℕ
  pub sliding : ℕ → Option ℕ
  pub sizes : List ℕ
  pub last_access : List ℕ
  pub free_slots : List ℕ
  pub next_index : ℕ
  pub capacity : ℕ

pub record Stats : Type 0 where
  pub capacity : ℕ
  pub allocated : ℕ
  pub free : ℕ

-- A write to an array.
abbrev pub write : {A : Type 0} → (ℕ → A) → ℕ → A → ℕ → A
write f i a j = if i == j then a else f j

-- `x || 0`
abbrev pub or_zero : Option ℕ → ℕ
or_zero none = 0
or_zero (some n) = n

-- `currentTime >= exp`
abbrev pub past_expiry : Option ℕ → ℕ → Bool
past_expiry none now = false
past_expiry (some e) now = leb e now

-- `currentTime - lastAcc >= sl`, without the subtraction that could be negative
abbrev pub past_sliding : Option ℕ → Option ℕ → ℕ → Bool
past_sliding (some sl) (some last) now = leb (last + sl) now
past_sliding (some sl) none now = false
past_sliding none last now = false

abbrev pub fill : List ℕ → List ℕ
fill xs = replicate (length xs) 0

module _ {V : Type 0} where
  abbrev pub create : ℕ → Storage V
  create capacity = record {
    values = λ i. none;
    expires = λ i. none;
    sliding = λ i. none;
    sizes = replicate capacity 0;
    last_access = replicate capacity 0;
    free_slots = [];
    next_index = 0;
    capacity = capacity;
  }

  -- The index to store at, and the storage without it: `freeSlots.pop()` or `nextIndex++`.
  abbrev pub take_slot : List ℕ → Storage V → Storage V × ℕ
  take_slot (i ∷ is) s = (record s { free_slots = is }, i)
  take_slot [] s = (record s { next_index = s.next_index + 1 }, s.next_index)

  abbrev pub store_at : Storage V → ℕ → V → ℕ → ℕ → Option ℕ → Option ℕ → Storage V
  store_at s i v sz t exp sl = record s {
    values = write s.values i (some v);
    expires = write s.expires i exp;
    sliding = write s.sliding i sl;
    sizes = set s.sizes i sz;
    last_access = set s.last_access i t;
  }

  -- Past the capacity the call throws, which is `none`.
  abbrev pub store_slot : Storage V × ℕ → V → ℕ → ℕ → Option ℕ → Option ℕ → Storage V × Option ℕ
  store_slot (s, i) v sz t exp sl =
      if leb s.capacity i then (s, none) else (store_at s i v sz t exp sl, some i)

  unfoldable pub allocate : Storage V → V → ℕ → ℕ → Option ℕ → Option ℕ → Storage V × Option ℕ
  allocate s v sz t exp sl = store_slot (take_slot s.free_slots s) v sz t exp sl

  unfoldable pub free : Storage V → ℕ → Storage V
  free s i = record s {
    values = write s.values i none;
    expires = write s.expires i none;
    sliding = write s.sliding i none;
    sizes = set s.sizes i 0;
    last_access = set s.last_access i 0;
    free_slots = i ∷ s.free_slots;
  }

  abbrev pub get_value : Storage V → ℕ → Option V
  get_value s i = s.values i

  abbrev pub set_value : Storage V → ℕ → V → Storage V
  set_value s i v = record s { values = write s.values i (some v) }

  abbrev pub get_size : Storage V → ℕ → ℕ
  get_size s i = or_zero (get_elem? s.sizes i)

  abbrev pub set_size : Storage V → ℕ → ℕ → Storage V
  set_size s i sz = record s { sizes = set s.sizes i sz }

  abbrev pub get_last_access : Storage V → ℕ → ℕ
  get_last_access s i = or_zero (get_elem? s.last_access i)

  abbrev pub set_last_access : Storage V → ℕ → ℕ → Storage V
  set_last_access s i t = record s { last_access = set s.last_access i t }

  abbrev pub get_expires : Storage V → ℕ → Option ℕ
  get_expires s i = s.expires i

  abbrev pub set_expires : Storage V → ℕ → Option ℕ → Storage V
  set_expires s i exp = record s { expires = write s.expires i exp }

  abbrev pub get_sliding : Storage V → ℕ → Option ℕ
  get_sliding s i = s.sliding i

  abbrev pub set_sliding : Storage V → ℕ → Option ℕ → Storage V
  set_sliding s i sl = record s { sliding = write s.sliding i sl }

  abbrev pub is_expired : Storage V → ℕ → ℕ → Bool
  is_expired s i now =
      if past_expiry (s.expires i) now
      then true
      else past_sliding (s.sliding i) (get_elem? s.last_access i) now

  abbrev pub clear : Storage V → Storage V
  clear s = record s {
    values = λ i. none;
    expires = λ i. none;
    sliding = λ i. none;
    sizes = fill s.sizes;
    last_access = fill s.last_access;
    free_slots = [];
    next_index = 0;
  }

  -- The percentage of use, a fraction, is left out.
  abbrev pub get_stats : Storage V → Stats
  get_stats s = record {
    capacity = s.capacity;
    allocated = s.next_index - length s.free_slots;
    free = length s.free_slots;
  }
