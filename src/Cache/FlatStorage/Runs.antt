-- ===== src/Cache/FlatStorage/Runs.antt =====
-- Runs of the operations of shareds/cache/src/flat-storage.ts.
use nope.Prelude.{
  ℕ, suc, ◌+◌, ◌<◌, ◌≡◌, ◌↔◌, refl, ap, sym, ◌∙◌, subst, Bool, true, false, Option, none, some,
  List, [], ◌∷◌, inl, inr, length, leb, ltb, if◌then◌else◌, if_elim, length-set, arith, min,
  length-replicate, Bool-cases, List-cases, ℕ_discrete,
}
use nope.Cache.FlatStorage.{
  Storage, create, take_slot, store_slot, allocate, free, set_value, set_size, set_last_access,
  set_expires, set_sliding, get_stats,
}
use nope.Cache.FlatStorage.Slots.{
  Client, Op, op_allocate, op_free, op_set_value, op_set_size, op_set_last_access, op_set_expires,
  op_set_sliding, op_clear, count, remove_one, holds, step, run, used, Sound, set_self, set_ne,
  write_self, write_ne, count-remove, count-remove_ne, length-remove, Entry-≡, Sound-stored,
  Sound-change, held-bound,
}

-- What occurs at most once is gone when it is removed.
over : (a f r : ℕ) (b : Bool) → 0 < r → suc r ≡ a → f + a ≡ (if b then 1 else 0) → ⊥
over a f r true p q e = omega arith
over a f r false p q e = omega arith

-- One more at the slot `i`, and one less elsewhere.
shift :
    (i k n : ℕ) (fs held : List ℕ)
    → count k (i ∷ fs) + count k held ≡ (if ltb k n then 1 else 0)
    → count k fs + count k (i ∷ held) ≡ (if ltb k n then 1 else 0)
shift i k n fs held e = ground arith

first_bound :
    (i n : ℕ) (fs held : List ℕ)
    → count i (i ∷ fs) + count i held ≡ (if ltb i n then 1 else 0)
    → i < n
first_bound i n fs held e = ground arith

within : (i n m : ℕ) → i < min n m → leb m i ≡ false
within i n m b = ground arith

capped :
    (k n cap x : ℕ)
    → leb cap n ≡ true
    → x ≡ (if ltb k (min n cap) then 1 else 0)
    → x ≡ (if ltb k (min (n + 1) cap) then 1 else 0)
capped k n cap x l e = ground arith

grown :
    (k n cap : ℕ) (held : List ℕ)
    → leb cap n ≡ false
    → 0 + count k held ≡ (if ltb k (min n cap) then 1 else 0)
    → 0 + count k (n ∷ held) ≡ (if ltb k (min (n + 1) cap) then 1 else 0)
grown k n cap held l e = ground arith

-- A slot that is free, or was never given out, is not held.
free_unheld :
    (i n : ℕ) (fs held : List ℕ)
    → count i (i ∷ fs) + count i held ≡ (if ltb i n then 1 else 0)
    → count i held ≡ 0
free_unheld i n fs held e = ground arith

new_unheld :
    (n m : ℕ) (held : List ℕ)
    → 0 + count n held ≡ (if ltb n (min n m) then 1 else 0)
    → count n held ≡ 0
new_unheld n m held e = ground arith

pub none_split : (k n : ℕ) → 0 + 0 ≡ (if ltb k (min 0 n) then 1 else 0)
none_split k n = ground arith

module _ {V : Type 0} where
  split_at :
      (c : Client V) {fs : List ℕ}
      → Sound c
      → c.storage.free_slots ≡ fs
      → (k : ℕ) → count k fs + count k c.held ≡ (if ltb k (used c.storage) then 1 else 0)
  split_at c h e k =
      subst (λ l. count k l + count k c.held ≡ (if ltb k (used c.storage) then 1 else 0)) e
        (h.split k)

  total_at :
      (c : Client V) {fs : List ℕ}
      → Sound c
      → c.storage.free_slots ≡ fs
      → length fs + length c.held ≡ used c.storage
  total_at c h e = subst (λ l. length l + length c.held ≡ used c.storage) e h.total

  pub Sound-allocate :
      (c : Client V) (v : V) (sz t : ℕ) (exp sl : Option ℕ)
      → Sound c
      → Sound (step c (op_allocate v sz t exp sl))
  unfolding step allocate
  Sound-allocate c v sz t exp sl h = elim (List-cases c.storage.free_slots) [
    | inr (i, fs, e) ↦
        let sp = split_at c h e in
        let b = first_bound i (used c.storage) fs c.held (sp i) in
        let l = within i c.storage.next_index c.storage.capacity b in
        rw (e, l)
          (Sound-stored c v sz t exp sl fs c.storage.next_index i h
            (λ k. shift i k (used c.storage) fs c.held (sp k)) (omega (arith, total_at c h e))
            (omega arith))
    | inl e ↦ elim (Bool-cases (leb c.storage.capacity c.storage.next_index)) [
      | inl full ↦
          rw (e, full)
            record {
              split = λ k.
                  capped k c.storage.next_index c.storage.capacity (0 + count k c.held) full
                    (split_at c h e k);
              total = let q = total_at c h e in ground arith;
              kept = h.kept;
              sizes_len = h.sizes_len;
              last_len = h.last_len;
            }
      | inr room ↦
          rw (e, room)
            (Sound-stored c v sz t exp sl [] (c.storage.next_index + 1) c.storage.next_index h
              (λ k. grown k c.storage.next_index c.storage.capacity c.held room (split_at c h e k))
              (let q = total_at c h e in ground arith) (ground arith))
    ]
  ]

  pub Sound-free : (c : Client V) (i : ℕ) → Sound c → Sound (step c (op_free i))
  unfolding step free
  Sound-free c i h =
      if_elim (λ (d : Client V). Sound d) (holds c i)
        (λ p. record {
          split = λ k. elim (ℕ_discrete i k) [
            | yes eq ↦
                let q = h.split k in
                let r =
                  subst (λ j. suc (count j (remove_one i c.held)) ≡ count j c.held) eq
                    (count-remove i c.held (ground arith)) in
                ground arith
            | no ne ↦ let q = h.split k in let r = count-remove_ne i k c.held ne in ground arith
          ];
          total = let q = h.total in let r = length-remove i c.held (ground arith) in omega arith;
          kept = λ k q. elim (ℕ_discrete i k) [
            | yes eq ↦
                let u = h.split i in
                let r = count-remove i c.held (ground arith) in
                absurd (
                  over (count i c.held) (count i c.storage.free_slots)
                    (count i (remove_one i c.held)) (ltb i (used c.storage))
                    (subst (λ j. 0 < count j (remove_one i c.held)) (sym eq) q) r u)
            | no ne ↦
                Entry-≡ (write_ne c.storage.values i k none ne) (set_ne c.storage.sizes i k 0 ne)
                  (set_ne c.storage.last_access i k 0 ne) (write_ne c.storage.expires i k none ne)
                  (write_ne c.storage.sliding i k none ne)
                ∙ h.kept k (subst (λ n. 0 < n) (count-remove_ne i k c.held ne) q)
          ];
          sizes_len = length-set c.storage.sizes i 0 ∙ h.sizes_len;
          last_len = length-set c.storage.last_access i 0 ∙ h.last_len;
        })
        (λ _. h)

  Sound-set_value : (c : Client V) (i : ℕ) (v : V) → Sound c → Sound (step c (op_set_value i v))
  unfolding step
  Sound-set_value c i v h =
      Sound-change c i (set_value c.storage i v) (record (c.given i) { value = some v }) h refl refl
        h.sizes_len h.last_len
        (λ p.
          let g = h.kept i p in
          Entry-≡ (write_self c.storage.values i (some v)) (ap (λ e. e.size) g)
            (ap (λ e. e.last_access) g) (ap (λ e. e.expires) g) (ap (λ e. e.sliding) g))
        (λ k ne. Entry-≡ (write_ne c.storage.values i k (some v) ne) refl refl refl refl)

  Sound-set_size : (c : Client V) (i x : ℕ) → Sound c → Sound (step c (op_set_size i x))
  unfolding step
  Sound-set_size c i x h =
      Sound-change c i (set_size c.storage i x) (record (c.given i) { size = x }) h refl refl
        (length-set c.storage.sizes i x ∙ h.sizes_len) h.last_len
        (λ p.
          let g = h.kept i p in
          Entry-≡ (ap (λ e. e.value) g)
            (set_self c.storage.sizes i x (omega (arith, held-bound c i h p, h.sizes_len)))
            (ap (λ e. e.last_access) g) (ap (λ e. e.expires) g) (ap (λ e. e.sliding) g))
        (λ k ne. Entry-≡ refl (set_ne c.storage.sizes i k x ne) refl refl refl)

  pub Sound-set_last_access :
      (c : Client V) (i x : ℕ) → Sound c → Sound (step c (op_set_last_access i x))
  unfolding step
  Sound-set_last_access c i x h =
      Sound-change c i (set_last_access c.storage i x) (record (c.given i) { last_access = x }) h
        refl refl h.sizes_len (length-set c.storage.last_access i x ∙ h.last_len)
        (λ p.
          let g = h.kept i p in
          Entry-≡ (ap (λ e. e.value) g) (ap (λ e. e.size) g)
            (set_self c.storage.last_access i x (omega (arith, held-bound c i h p, h.last_len)))
            (ap (λ e. e.expires) g) (ap (λ e. e.sliding) g))
        (λ k ne. Entry-≡ refl refl (set_ne c.storage.last_access i k x ne) refl refl)

  Sound-set_expires :
      (c : Client V) (i : ℕ) (x : Option ℕ) → Sound c → Sound (step c (op_set_expires i x))
  unfolding step
  Sound-set_expires c i x h =
      Sound-change c i (set_expires c.storage i x) (record (c.given i) { expires = x }) h refl refl
        h.sizes_len h.last_len
        (λ p.
          let g = h.kept i p in
          Entry-≡ (ap (λ e. e.value) g) (ap (λ e. e.size) g) (ap (λ e. e.last_access) g)
            (write_self c.storage.expires i x) (ap (λ e. e.sliding) g))
        (λ k ne. Entry-≡ refl refl refl (write_ne c.storage.expires i k x ne) refl)

  Sound-set_sliding :
      (c : Client V) (i : ℕ) (x : Option ℕ) → Sound c → Sound (step c (op_set_sliding i x))
  unfolding step
  Sound-set_sliding c i x h =
      Sound-change c i (set_sliding c.storage i x) (record (c.given i) { sliding = x }) h refl refl
        h.sizes_len h.last_len
        (λ p.
          let g = h.kept i p in
          Entry-≡ (ap (λ e. e.value) g) (ap (λ e. e.size) g) (ap (λ e. e.last_access) g)
            (ap (λ e. e.expires) g) (write_self c.storage.sliding i x))
        (λ k ne. Entry-≡ refl refl refl refl (write_ne c.storage.sliding i k x ne))

  Sound-clear : (c : Client V) → Sound c → Sound (step c op_clear)
  unfolding step
  Sound-clear c h = record {
    split = λ k. none_split k c.storage.capacity;
    total = omega arith;
    kept = λ k p. elim p [ ];
    sizes_len = length-replicate (length c.storage.sizes) 0 ∙ h.sizes_len;
    last_len = length-replicate (length c.storage.last_access) 0 ∙ h.last_len;
  }

  -- A client of a new storage, which holds nothing.
  abbrev pub start : ℕ → Client V
  start capacity = record {
    storage = create capacity;
    held = [];
    given = λ i. record { value = none; size = 0; last_access = 0; expires = none; sliding = none };
  }

  pub Sound-start : (capacity : ℕ) → Sound (start capacity)
  Sound-start capacity = record {
    split = λ k. none_split k capacity;
    total = omega arith;
    kept = λ k p. elim p [ ];
    sizes_len = length-replicate capacity 0;
    last_len = length-replicate capacity 0;
  }

  Sound-step : (c : Client V) (o : Op V) → Sound c → Sound (step c o)
  Sound-step c (op_allocate v sz t exp sl) h = Sound-allocate c v sz t exp sl h
  Sound-step c (op_free i) h = Sound-free c i h
  Sound-step c (op_set_value i v) h = Sound-set_value c i v h
  Sound-step c (op_set_size i x) h = Sound-set_size c i x h
  Sound-step c (op_set_last_access i x) h = Sound-set_last_access c i x h
  Sound-step c (op_set_expires i x) h = Sound-set_expires c i x h
  Sound-step c (op_set_sliding i x) h = Sound-set_sliding c i x h
  Sound-step c op_clear h = Sound-clear c h

  Sound-run : (c : Client V) (os : List (Op V)) → Sound c → Sound (run c os)
  unfolding run
  Sound-run c [] h = h
  Sound-run c (o ∷ os) h = Sound-run (step c o) os (Sound-step c o h)

  -- After any operations on a new storage, by a client that frees and changes only the slots that it
  -- holds, every slot ever given out is free or held, and that once; what stands in a slot that is held
  -- is what its client last put there; and the typed arrays have the capacity's length.
  pub run-start-Sound : (capacity : ℕ) (os : List (Op V)) → Sound (run (start capacity) os)
  run-start-Sound capacity os = Sound-run (start capacity) os (Sound-start capacity)

  -- In a sound storage, `allocate` throws exactly where as many slots are held as the capacity is: no
  -- slot is ever lost.
  pub allocate-throws :
      (c : Client V) (v : V) (sz t : ℕ) (exp sl : Option ℕ)
      → Sound c
      → ((allocate c.storage v sz t exp sl).1 ≡ none) ↔ (length c.held ≡ c.storage.capacity)
  unfolding allocate
  allocate-throws c v sz t exp sl h = elim (List-cases c.storage.free_slots) [
    | inr (i, fs, e) ↦
        let q = total_at c h e in
        let l =
          within i c.storage.next_index c.storage.capacity
            (first_bound i (used c.storage) fs c.held (split_at c h e i)) in
        rw (e, l) (ground arith)
    | inl e ↦ let q = total_at c h e in rw e (ground arith)
  ]

  gives :
      (s : Storage V) (j i : ℕ) (v : V) (sz t : ℕ) (exp sl : Option ℕ)
      → (store_slot (s, j) v sz t exp sl).1 ≡ some i
      → j ≡ i
  gives s j i v sz t exp sl g = ground arith

  -- In a sound storage, the slot that `allocate` gives is one that no client holds.
  pub allocate-fresh :
      (c : Client V) (v : V) (sz t i : ℕ) (exp sl : Option ℕ)
      → Sound c
      → (allocate c.storage v sz t exp sl).1 ≡ some i
      → count i c.held ≡ 0
  unfolding allocate
  allocate-fresh c v sz t i exp sl h g = elim (List-cases c.storage.free_slots) [
    | inr (j, fs, e) ↦
        subst (λ k. count k c.held ≡ 0)
          (gives (record c.storage { free_slots = fs }) j i v sz t exp sl (at_slots e))
          (free_unheld j (used c.storage) fs c.held (split_at c h e j))
    | inl e ↦
        subst (λ k. count k c.held ≡ 0)
          (gives (record c.storage { next_index = c.storage.next_index + 1 }) c.storage.next_index i
            v sz t exp sl (at_slots e))
          (new_unheld c.storage.next_index c.storage.capacity c.held
            (split_at c h e c.storage.next_index))
  ]
    where
      at_slots :
          {fs : List ℕ}
          → c.storage.free_slots ≡ fs
          → (store_slot (take_slot fs c.storage) v sz t exp sl).1 ≡ some i
      at_slots e = subst (λ l. (store_slot (take_slot l c.storage) v sz t exp sl).1 ≡ some i) e g

  -- An `allocate` that throws for want of room still counts one slot more: `getStats` then reports more
  -- slots allocated than the capacity is.
  pub get_stats_overcounts :
      (c : Client V) (v : V) (sz t : ℕ) (exp sl : Option ℕ)
      → Sound c
      → length c.held ≡ c.storage.capacity
      → (get_stats c.storage).capacity < (get_stats (allocate c.storage v sz t exp sl).0).allocated
  unfolding allocate
  get_stats_overcounts c v sz t exp sl h full = elim (List-cases c.storage.free_slots) [
    | inr (i, fs, e) ↦ let q = total_at c h e in absurd (omega arith)
    | inl e ↦ let q = total_at c h e in rw e (ground arith)
  ]
