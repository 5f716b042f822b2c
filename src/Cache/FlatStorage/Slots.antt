-- ===== src/Cache/FlatStorage/Slots.antt =====
-- Which slots the clients of shareds/cache/src/flat-storage.ts hold, and what stands in them.
use nope.Prelude.{
  ℕ, suc, ◌+◌, ◌<◌, ◌≡◌, ◌≢◌, refl, ap, sym, ◌∙◌, subst, Bool, Option, none, some, List, [], ◌∷◌,
  length, get_elem?, set, ltb, ◌==◌, if◌then◌else◌, if_elim, length-set, get_elem?-set_self,
  get_elem?-set_ne, arith, min, ℕ_discrete,
}
use nope.Cache.FlatStorage.{
  Storage, store_at, allocate, free, write, or_zero, get_value, get_size, get_last_access,
  get_expires, get_sliding, set_value, set_size, set_last_access, set_expires, set_sliding, clear,
}

-- What a slot holds.
pub record Entry (V : Type 0) : Type 0 where
  pub value : Option V
  pub size : ℕ
  pub last_access : ℕ
  pub expires : Option ℕ
  pub sliding : Option ℕ

-- The operations, with the arguments they are called on.
pub data Op (V : Type 0) : Type 0 where
  op_allocate : V → ℕ → ℕ → Option ℕ → Option ℕ → Op V
  op_free : ℕ → Op V
  op_set_value : ℕ → V → Op V
  op_set_size : ℕ → ℕ → Op V
  op_set_last_access : ℕ → ℕ → Op V
  op_set_expires : ℕ → Option ℕ → Op V
  op_set_sliding : ℕ → Option ℕ → Op V
  op_clear : Op V

-- How often a slot occurs in a list.
abbrev pub count : ℕ → List ℕ → ℕ
count k [] = 0
count k (i ∷ is) = if i == k then suc (count k is) else count k is

-- The list without the first occurrence of a slot.
abbrev pub remove_one : ℕ → List ℕ → List ℕ
remove_one k [] = []
remove_one k (i ∷ is) = if i == k then is else i ∷ remove_one k is

pub write_self : {A : Type 0} (f : ℕ → A) (i : ℕ) (a : A) → write f i a i ≡ a
write_self f i a = ground arith

pub write_ne : {A : Type 0} (f : ℕ → A) (i j : ℕ) (a : A) → i ≢ j → write f i a j ≡ f j
write_ne f i j a n = ground arith

pub set_self : (xs : List ℕ) (i x : ℕ) → i < length xs → or_zero (get_elem? (set xs i x) i) ≡ x
set_self xs i x h = ap or_zero (get_elem?-set_self xs i x h)

pub set_ne :
    (xs : List ℕ) (i k x : ℕ)
    → i ≢ k
    → or_zero (get_elem? (set xs i x) k) ≡ or_zero (get_elem? xs k)
set_ne xs i k x n = ap or_zero (get_elem?-set_ne xs x n)

pub count-remove :
    (i : ℕ) (is : List ℕ) → 0 < count i is → suc (count i (remove_one i is)) ≡ count i is
count-remove i [] h = elim h [ ]
count-remove i (j ∷ is) h = ground (arith, count-remove i is)

pub count-remove_ne : (i k : ℕ) (is : List ℕ) → i ≢ k → count k (remove_one i is) ≡ count k is
count-remove_ne i k [] n = refl
count-remove_ne i k (j ∷ is) n = ground (arith, count-remove_ne i k is n)

pub length-remove :
    (i : ℕ) (is : List ℕ) → 0 < count i is → suc (length (remove_one i is)) ≡ length is
length-remove i [] h = elim h [ ]
length-remove i (j ∷ is) h = ground (arith, length-remove i is)

-- The storage, the slots that clients hold, and the entries that they last gave: what `entry` is to
-- be at the slots that they hold.
pub record Client (V : Type 0) : Type 0 where
  pub storage : Storage V
  pub held : List ℕ
  pub given : ℕ → Entry V

module _ {V : Type 0} where
  abbrev pub entry : Storage V → ℕ → Entry V
  entry s i = record {
    value = get_value s i;
    size = get_size s i;
    last_access = get_last_access s i;
    expires = get_expires s i;
    sliding = get_sliding s i;
  }

  abbrev pub allocated : Client V → Entry V → Storage V × Option ℕ → Client V
  allocated c e (s, none) = record c { storage = s }
  allocated c e (s, some i) = record { storage = s; held = i ∷ c.held; given = write c.given i e }

  abbrev pub holds : Client V → ℕ → Bool
  holds c i = ltb 0 (count i c.held)

  -- A client frees and changes only slots that it holds.
  abbrev pub change : Client V → ℕ → Storage V → Entry V → Client V
  change c i s e = if holds c i then record c { storage = s; given = write c.given i e } else c

  unfoldable pub step : Client V → Op V → Client V
  step c (op_allocate v sz t exp sl) =
      allocated c
        (record { value = some v; size = sz; last_access = t; expires = exp; sliding = sl })
        (allocate c.storage v sz t exp sl)
  step c (op_free i) =
      if holds c i then record c { storage = free c.storage i; held = remove_one i c.held } else c
  step c (op_set_value i v) =
      change c i (set_value c.storage i v) (record (c.given i) { value = some v })
  step c (op_set_size i sz) =
      change c i (set_size c.storage i sz) (record (c.given i) { size = sz })
  step c (op_set_last_access i t) =
      change c i (set_last_access c.storage i t) (record (c.given i) { last_access = t })
  step c (op_set_expires i exp) =
      change c i (set_expires c.storage i exp) (record (c.given i) { expires = exp })
  step c (op_set_sliding i sl) =
      change c i (set_sliding c.storage i sl) (record (c.given i) { sliding = sl })
  step c op_clear = record c { storage = clear c.storage; held = [] }

  unfoldable pub run : Client V → List (Op V) → Client V
  run c [] = c
  run c (o ∷ os) = run (step c o) os

  -- The number of slots ever given out.
  abbrev pub used : Storage V → ℕ
  used s = min s.next_index s.capacity

  -- Every slot given out is free or held by one client, once; the slots that are held hold what their
  -- clients gave; and the arrays keep their length.
  pub record Sound (c : Client V) : Type 0 where
    pub split :
        (k : ℕ)
        → count k c.storage.free_slots + count k c.held ≡ (if ltb k (used c.storage) then 1 else 0)
    pub total : length c.storage.free_slots + length c.held ≡ used c.storage
    pub kept : (k : ℕ) → 0 < count k c.held → entry c.storage k ≡ c.given k
    pub sizes_len : length c.storage.sizes ≡ c.storage.capacity
    pub last_len : length c.storage.last_access ≡ c.storage.capacity

  pub Entry-≡ :
      {a b : Entry V}
      → a.value ≡ b.value
      → a.size ≡ b.size
      → a.last_access ≡ b.last_access
      → a.expires ≡ b.expires
      → a.sliding ≡ b.sliding
      → a ≡ b
  Entry-≡ e f g h k = cc

  pub entry-stored :
      (s : Storage V) (i : ℕ) (v : V) (sz t : ℕ) (exp sl : Option ℕ)
      → i < length s.sizes
      → i < length s.last_access
      → entry (store_at s i v sz t exp sl) i
        ≡ record { value = some v; size = sz; last_access = t; expires = exp; sliding = sl }
  entry-stored s i v sz t exp sl h l =
      Entry-≡ (write_self s.values i (some v)) (set_self s.sizes i sz h)
        (set_self s.last_access i t l) (write_self s.expires i exp) (write_self s.sliding i sl)

  pub entry-stored_ne :
      (s : Storage V) (i k : ℕ) (v : V) (sz t : ℕ) (exp sl : Option ℕ)
      → i ≢ k
      → entry (store_at s i v sz t exp sl) k ≡ entry s k
  entry-stored_ne s i k v sz t exp sl n =
      Entry-≡ (write_ne s.values i k (some v) n) (set_ne s.sizes i k sz n)
        (set_ne s.last_access i k t n) (write_ne s.expires i k exp n) (write_ne s.sliding i k sl n)

  -- The slot `i`, which nobody holds, is taken and filled.
  pub Sound-stored :
      (c : Client V) (v : V) (sz t : ℕ) (exp sl : Option ℕ) (fs : List ℕ) (n i : ℕ)
      → Sound c
      → ((k : ℕ)
          → count k fs + count k (i ∷ c.held) ≡ (if ltb k (min n c.storage.capacity) then 1 else 0))
      → length fs + suc (length c.held) ≡ min n c.storage.capacity
      → i < c.storage.capacity
      → Sound (
          allocated c
            (record { value = some v; size = sz; last_access = t; expires = exp; sliding = sl })
            (
              store_at (record c.storage { free_slots = fs; next_index = n }) i v sz t exp sl,
              some i,
            ))
  Sound-stored c v sz t exp sl fs n i h sp tot lt =
      let old : Storage V = record c.storage { free_slots = fs; next_index = n } in
      let e' : Entry V = record {
        value = some v;
        size = sz;
        last_access = t;
        expires = exp;
        sliding = sl;
      } in
      record {
        split = sp;
        total = tot;
        kept = λ k p. elim (ℕ_discrete i k) [
          | yes e ↦
              subst (λ j. entry (store_at old i v sz t exp sl) j ≡ write c.given i e' j) e
                (entry-stored old i v sz t exp sl (omega (arith, h.sizes_len))
                    (omega (arith, h.last_len))
                  ∙ sym (write_self c.given i e'))
          | no ne ↦
              entry-stored_ne old i k v sz t exp sl ne
              ∙ h.kept k (ground arith)
              ∙ sym (write_ne c.given i k e' ne)
        ];
        sizes_len = length-set c.storage.sizes i sz ∙ h.sizes_len;
        last_len = length-set c.storage.last_access i t ∙ h.last_len;
      }

  -- A slot that its client holds is changed, and no other.
  pub Sound-change :
      (c : Client V) (i : ℕ) (s : Storage V) (e : Entry V)
      → Sound c
      → s.free_slots ≡ c.storage.free_slots
      → used s ≡ used c.storage
      → length s.sizes ≡ s.capacity
      → length s.last_access ≡ s.capacity
      → (0 < count i c.held → entry s i ≡ e)
      → ((k : ℕ) → i ≢ k → entry s k ≡ entry c.storage k)
      → Sound (change c i s e)
  Sound-change c i s e h fr us sl ll at frame =
      if_elim (λ (d : Client V). Sound d) (holds c i)
        (λ p. record {
          split = λ k. rw (fr, us) (h.split k);
          total = rw (fr, us) h.total;
          kept = λ k q. elim (ℕ_discrete i k) [
            | yes eq ↦
                subst (λ j. entry s j ≡ write c.given i e j) eq
                  (at (ground arith) ∙ sym (write_self c.given i e))
            | no ne ↦ frame k ne ∙ h.kept k q ∙ sym (write_ne c.given i k e ne)
          ];
          sizes_len = sl;
          last_len = ll;
        })
        (λ _. h)

  -- A held slot lies within the capacity, and is not free.
  pub held-bound : (c : Client V) (i : ℕ) → Sound c → 0 < count i c.held → i < c.storage.capacity
  held-bound c i h p = let q = h.split i in ground (arith, q)
