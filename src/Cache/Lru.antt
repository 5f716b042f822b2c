-- ===== src/Cache/Lru.antt =====
-- shareds/cache/src/cache.ts: `LruTtlCache` without events and statistics. The doubly linked list and
-- the map hold the same nodes, which nothing outside shares: `nodes` are those, with their keys, from
-- the tail (the least recently used) to the head. `now()` is the argument `now`; `max_size` is `none`
-- for no bound; `sizer` has been applied.
pub mod Sizes
pub mod Bounds
pub mod Runs
pub mod Recency
pub mod Contents
use nope.Prelude.{
  ℕ, zero, suc, ◌+◌, ◌-◌, Bool, true, false, not, ◌&&◌, ◌||◌, List, [], ◌∷◌, ◌++◌, Option, none,
  some, ltb, leb, ◌==◌, if◌then◌else◌, ite, length, sum_by, keep, map_get, map_set, map_delete,
}

-- `Entry`
pub record Entry (V : Type 0) : Type 0 where
  pub v : V
  pub exp : Option ℕ
  pub sl : Option ℕ
  pub sz : ℕ
  pub t : ℕ

pub record Cache (K V : Type 0) : Type 0 where
  pub nodes : List (K × Entry V)
  pub total_size : ℕ
  pub max_entries : ℕ
  pub max_size : Option ℕ
  pub lazy_expiration : Bool

-- `isExpired`
abbrev pub past : ℕ → Option ℕ → Bool
past now none = false
past now (some at) = leb at now

abbrev pub is_expired : {V : Type 0} → ℕ → Entry V → Bool
is_expired now e = past now e.exp

-- `totalSize > maxSize`
abbrev pub over : Option ℕ → ℕ → Bool
over none total = false
over (some bound) total = ltb bound total

-- `if (node.entry.sl) node.entry.exp = now() + node.entry.sl`
abbrev pub slide : ℕ → Option ℕ → Option ℕ → Option ℕ
slide now none exp = exp
slide now (some zero) exp = exp
slide now (some (suc s)) exp = some (now + suc s)

module _ {K V : Type 0} where
  unfoldable pub create : ℕ → Option ℕ → Bool → Cache K V
  create max_entries max_size lazy = record {
    nodes = [];
    total_size = 0;
    max_entries = max_entries;
    max_size = max_size;
    lazy_expiration = lazy;
  }

  unfoldable pub clear : Cache K V → Cache K V
  clear c = record c { nodes = []; total_size = 0 }

  pub size : Cache K V → ℕ
  size c = length c.nodes

  pub total : Cache K V → ℕ
  total c = c.total_size

  -- The loop of `batchedSweep`, with `n` checks left: the nodes that it leaves, and the sizes of those
  -- that it removes.
  unfoldable pub sweep_first : ℕ → ℕ → List (K × Entry V) → List (K × Entry V) × ℕ
  sweep_first now zero ns = (ns, 0)
  sweep_first now (suc n) [] = ([], 0)
  sweep_first now (suc n) (x ∷ ns) =
      let (kept, freed) = sweep_first now n ns in
      if is_expired now x.1 then (kept, x.1.sz + freed) else (x ∷ kept, freed)

  -- That of `sweep` passes every node.
  unfoldable pub sweep : ℕ → List (K × Entry V) → List (K × Entry V) × ℕ
  unfolding sweep_first
  sweep now ns = sweep_first now (length ns) ns

  -- The loops of `evict`: by size, then by count.
  unfoldable pub evict_size : Option ℕ → List (K × Entry V) → ℕ → List (K × Entry V) × ℕ
  evict_size bound [] total = ([], total)
  evict_size bound (x ∷ ns) total =
      let rest = evict_size bound ns (total - x.1.sz) in
      if over bound total then rest else (x ∷ ns, total)

  unfoldable pub evict_count : ℕ → List (K × Entry V) → ℕ → List (K × Entry V) × ℕ
  evict_count bound [] total = ([], total)
  evict_count bound (x ∷ ns) total =
      let rest = evict_count bound ns (total - x.1.sz) in
      if ltb bound (length (x ∷ ns)) then rest else (x ∷ ns, total)

  -- The first part of `evict`: the expired entries.
  unfoldable pub swept : Cache K V → ℕ → List (K × Entry V) × ℕ
  unfolding sweep
  swept c now =
      if c.lazy_expiration
      then (if over c.max_size c.total_size || ltb c.max_entries (length c.nodes)
          then sweep_first now 10 c.nodes
          else (c.nodes, 0))
      else sweep now c.nodes

  unfoldable pub evict : Cache K V → ℕ → Cache K V
  unfolding swept evict_size evict_count
  evict c now =
      let (ns, freed) = swept c now in
      let (ns', n') = evict_size c.max_size ns (c.total_size - freed) in
      let (ns'', n'') = evict_count c.max_entries ns' n' in
      record c { nodes = ns''; total_size = n'' }

-- The entry that `set` makes.
abbrev pub new_entry : {V : Type 0} → V → Option ℕ → Option ℕ → ℕ → ℕ → Entry V
new_entry v ttl sliding sz now = record {
  v = v;
  exp = elim ttl [ none ↦ none | some ms ↦ some (now + ms) ];
  sl = sliding;
  sz = sz;
  t = now;
}

module _ {K V : Type 0} (dec : Discrete K) where
  -- `removeNode` of the node of a key.
  unfoldable pub remove_node : Cache K V → K → Entry V → Cache K V
  remove_node c k e = record c {
    nodes = map_delete dec c.nodes k;
    total_size = c.total_size - e.sz;
  }

  -- `moveToFront` of the node of a key, with its entry.
  abbrev pub move_to_front : List (K × Entry V) → K → Entry V → List (K × Entry V)
  move_to_front ns k e = map_delete dec ns k ++ (k, e) ∷ []

  abbrev pub get_found : Cache K V → K → ℕ → Option (Entry V) → Cache K V × Option V
  get_found c k now none = (c, none)
  get_found c k now (some e) = if is_expired now e then (remove_node c k e, none) else (
    record c { nodes = move_to_front c.nodes k (record e { exp = slide now e.sl e.exp; t = now }) },
    some e.v,
  )

  unfoldable pub get : Cache K V → K → ℕ → Cache K V × Option V
  unfolding remove_node
  get c k now = get_found c k now (map_get dec c.nodes k)

  abbrev pub put_found : Cache K V → K → Entry V → Option (Entry V) → Cache K V
  put_found c k e none = record c {
    nodes = c.nodes ++ (k, e) ∷ [];
    total_size = c.total_size + e.sz;
  }
  put_found c k e (some old) = record c {
    nodes = move_to_front c.nodes k e;
    total_size = c.total_size - old.sz + e.sz;
  }

  -- `set` before its call of `evict`.
  unfoldable pub put : Cache K V → K → Entry V → Cache K V
  put c k e = put_found c k e (map_get dec c.nodes k)

  unfoldable pub set : Cache K V → K → V → Option ℕ → Option ℕ → ℕ → ℕ → Cache K V
  unfolding put evict
  set c k v ttl sliding sz now = evict (put c k (new_entry v ttl sliding sz now)) now

  abbrev pub del_found : Cache K V → K → Option (Entry V) → Cache K V
  del_found c k none = c
  del_found c k (some e) = remove_node c k e

  unfoldable pub del : Cache K V → K → Cache K V
  unfolding remove_node
  del c k = del_found c k (map_get dec c.nodes k)

  pub has : Cache K V → K → ℕ → Cache K V × Bool
  unfolding get
  has c k now = let (c', v) = get c k now in (c', elim v [ none ↦ false | some _ ↦ true ])

  pub peek_entry : Cache K V → K → Option (Entry V)
  peek_entry c k = map_get dec c.nodes k

  -- The loops of `getMany` and `hasMany`, with the results so far.
  abbrev pub add_found : List (K × V) → K → Option V → List (K × V)
  add_found results k none = results
  add_found results k (some v) = map_set dec results k v

  pub get_from : Cache K V → List K → ℕ → List (K × V) → Cache K V × List (K × V)
  unfolding get
  get_from c [] now results = (c, results)
  get_from c (k ∷ ks) now results =
      let (c', v) = get c k now in get_from c' ks now (add_found results k v)

  pub get_many : Cache K V → List K → ℕ → Cache K V × List (K × V)
  unfolding get_from
  get_many c ks now = get_from c ks now []

  pub has_from : Cache K V → List K → ℕ → List (K × Bool) → Cache K V × List (K × Bool)
  unfolding has
  has_from c [] now results = (c, results)
  has_from c (k ∷ ks) now results =
      let (c', b) = has c k now in has_from c' ks now (map_set dec results k b)

  pub has_many : Cache K V → List K → ℕ → Cache K V × List (K × Bool)
  unfolding has_from
  has_many c ks now = has_from c ks now []

  pub set_many : Cache K V → List ((K × V) × ℕ) → Option ℕ → Option ℕ → ℕ → Cache K V
  unfolding set
  set_many c [] ttl sliding now = c
  set_many c (x ∷ xs) ttl sliding now =
      set_many (set c x.0.0 x.0.1 ttl sliding x.1 now) xs ttl sliding now

  pub delete_many : Cache K V → List K → Cache K V × ℕ
  unfolding del
  delete_many c [] = (c, 0)
  delete_many c (k ∷ ks) =
      let (c', n) = delete_many (del c k) ks in
      (c', elim (map_get dec c.nodes k) [ none ↦ n | some _ ↦ n + 1 ])
