-- ===== src/Cache/FlatCache.antt =====
-- shareds/cache/src/cache-flat-array.ts: `FlatArrayCache` without events, statistics and the timer. The
-- linked list and the map hold the same nodes: `nodes` are those, each a key with the index of its
-- entry in the storage, from the tail (the least recently used) to the head. Nodes that are taken out
-- come from the pool cleared, so the pool is left out. `now()` is the argument `now`; `max_size` is
-- `none` for no bound; the sizer has been applied.
pub mod Plain
pub mod Slots
pub mod Held
pub mod Refines
pub mod Runs
use nope.Prelude.{
  ℕ, zero, suc, ◌+◌, ◌-◌, Bool, true, false, ◌||◌, List, [], ◌∷◌, ◌++◌, Option, none, some, leb,
  if◌then◌else◌, length, map_get, map_set, map_delete,
}
use nope.Cache.Lru.{over}
use nope.Cache.FlatStorage as Flat

pub record FlatCache (K V : Type 0) : Type 0 where
  pub nodes : List (K × ℕ)
  pub total_size : ℕ
  pub max_entries : ℕ
  pub max_size : Option ℕ
  pub storage : Flat.Storage V

-- `opts?.ttlMs ? t + opts.ttlMs : undefined`
abbrev pub expiry : ℕ → Option ℕ → Option ℕ
expiry now none = none
expiry now (some zero) = none
expiry now (some (suc n)) = some (now + suc n)

module _ {K V : Type 0} where
  unfoldable pub create : ℕ → Option ℕ → FlatCache K V
  create max_entries max_size = record {
    nodes = [];
    total_size = 0;
    max_entries = max_entries;
    max_size = max_size;
    storage = Flat.create max_entries;
  }

  -- The answer is whether the storage took the entry, or threw.
  unfoldable pub store_new :
      K → ℕ → FlatCache K V → Flat.Storage V × Option ℕ → Bool × FlatCache K V
  store_new k sz c (s, none) = (false, record c { storage = s })
  store_new k sz c (s, some i) = (
    true,
    record c { nodes = c.nodes ++ (k, i) ∷ []; total_size = c.total_size + sz; storage = s },
  )

  pub size : FlatCache K V → ℕ
  size c = length c.nodes

  pub get_storage_stats : FlatCache K V → Flat.Stats
  get_storage_stats c = Flat.get_stats c.storage

module _ {V : Type 0} where
  -- The writes of an update.
  abbrev pub written : Flat.Storage V → ℕ → V → ℕ → ℕ → Option ℕ → Option ℕ → Flat.Storage V
  written s i v sz now exp sl =
      let s1 = Flat.set_value s i v in
      let s2 = Flat.set_size s1 i sz in
      let s3 = Flat.set_last_access s2 i now in
      let s4 = Flat.set_expires s3 i exp in Flat.set_sliding s4 i sl

module _ {K V : Type 0} (dec : Discrete K) where
  unfoldable pub remove_node : K → ℕ → FlatCache K V → FlatCache K V
  remove_node k i c = record c {
    nodes = map_delete dec c.nodes k;
    total_size = c.total_size - Flat.get_size c.storage i;
    storage = Flat.free c.storage i;
  }

  abbrev pub move_to_head : K → ℕ → FlatCache K V → FlatCache K V
  move_to_head k i c = record c { nodes = map_delete dec c.nodes k ++ (k, i) ∷ [] }

  unfoldable pub get_found : ℕ → K → Option ℕ → FlatCache K V → Option V × FlatCache K V
  unfolding remove_node
  get_found now k none c = (none, c)
  get_found now k (some i) c =
      let s = Flat.set_last_access c.storage i now in
      if Flat.is_expired c.storage i now
      then (none, remove_node k i c)
      else (Flat.get_value s i, move_to_head k i (record c { storage = s }))

  unfoldable pub get : ℕ → K → FlatCache K V → Option V × FlatCache K V
  unfolding get_found
  get now k c = get_found now k (map_get dec c.nodes k) c

  unfoldable pub evict_first : List (K × ℕ) → FlatCache K V → FlatCache K V
  unfolding remove_node
  evict_first [] c = c
  evict_first ((k, i) ∷ ns) c = remove_node k i c

  unfoldable pub evict_lru : FlatCache K V → FlatCache K V
  unfolding evict_first
  evict_lru c = evict_first c.nodes c

  -- The loop of `set`; every round removes a node, so that as many rounds as nodes are enough.
  unfoldable pub evict_size : ℕ → ℕ → FlatCache K V → FlatCache K V
  unfolding evict_lru
  evict_size zero sz c = c
  evict_size (suc n) sz c =
      let rest = evict_size n sz (evict_lru c) in
      if over c.max_size (c.total_size + sz) then rest else c

  unfoldable pub evict_count : FlatCache K V → FlatCache K V
  unfolding evict_lru
  evict_count c = if leb c.max_entries (length c.nodes) then evict_lru c else c

  unfoldable pub make_room : ℕ → FlatCache K V → FlatCache K V
  unfolding evict_count evict_size
  make_room sz c =
      let c' = evict_count c in
      if leb c.max_entries (length c.nodes) || over c.max_size (c.total_size + sz)
      then evict_size (length c'.nodes) sz c'
      else c

  unfoldable pub set_found :
      ℕ → K → V → ℕ → Option ℕ → Option ℕ → Option ℕ → FlatCache K V → Bool × FlatCache K V
  unfolding make_room store_new Flat.allocate
  set_found now k v sz exp sl (some i) c = (
    true,
    move_to_head k i (record c {
      storage = written c.storage i v sz now exp sl;
      total_size = c.total_size - Flat.get_size c.storage i + sz;
    }),
  )
  set_found now k v sz exp sl none c =
      let c' = make_room sz c in store_new k sz c' (Flat.allocate c'.storage v sz now exp sl)

  unfoldable pub set : ℕ → K → V → ℕ → Option ℕ → Option ℕ → FlatCache K V → Bool × FlatCache K V
  unfolding set_found
  set now k v sz ttl sl c = set_found now k v sz (expiry now ttl) sl (map_get dec c.nodes k) c

  unfoldable pub has_found : ℕ → K → Option ℕ → FlatCache K V → Bool × FlatCache K V
  unfolding remove_node
  has_found now k none c = (false, c)
  has_found now k (some i) c =
      if Flat.is_expired c.storage i now then (false, remove_node k i c) else (true, c)

  unfoldable pub has : ℕ → K → FlatCache K V → Bool × FlatCache K V
  unfolding has_found
  has now k c = has_found now k (map_get dec c.nodes k) c

  unfoldable pub del_found : K → Option ℕ → FlatCache K V → FlatCache K V
  unfolding remove_node
  del_found k none c = c
  del_found k (some i) c = remove_node k i c

  unfoldable pub del : K → FlatCache K V → FlatCache K V
  unfolding del_found
  del k c = del_found k (map_get dec c.nodes k) c

  -- The loop of `clear`, then the storage's own.
  unfoldable pub free_all : List (K × ℕ) → Flat.Storage V → Flat.Storage V
  unfolding Flat.free
  free_all [] s = s
  free_all ((k, i) ∷ ns) s = free_all ns (Flat.free s i)

  unfoldable pub clear : FlatCache K V → FlatCache K V
  unfolding free_all
  clear c = record c {
    nodes = [];
    total_size = 0;
    storage = Flat.clear (free_all c.nodes c.storage);
  }

  -- `getMany` and `hasMany`, whose loops do what `get` and `has` do; the results as a map.
  unfoldable pub get_many : ℕ → List K → FlatCache K V → List (K × V) × FlatCache K V
  unfolding get
  get_many now ks c = gather ks [] c
    where
      gather : List K → List (K × V) → FlatCache K V → List (K × V) × FlatCache K V
      gather [] r c = (r, c)
      gather (k ∷ ks) r c =
          let (o, c') = get now k c in
          gather ks (elim o [ none ↦ r | some v ↦ map_set dec r k v ]) c'

  unfoldable pub has_many : ℕ → List K → FlatCache K V → List (K × Bool) × FlatCache K V
  unfolding has
  has_many now ks c = gather ks [] c
    where
      gather : List K → List (K × Bool) → FlatCache K V → List (K × Bool) × FlatCache K V
      gather [] r c = (r, c)
      gather (k ∷ ks) r c = let (b, c') = has now k c in gather ks (map_set dec r k b) c'

  unfoldable pub delete_many : List K → FlatCache K V → ℕ × FlatCache K V
  unfolding remove_node
  delete_many [] c = (0, c)
  delete_many (k ∷ ks) c = elim (map_get dec c.nodes k) [
    | none ↦ delete_many ks c
    | some i ↦ let (n, c') = delete_many ks (remove_node k i c) in (suc n, c')
  ]
