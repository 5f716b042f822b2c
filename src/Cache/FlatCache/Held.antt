-- ===== src/Cache/FlatCache/Held.antt =====
-- A slot that a client holds is freed, touched and written.
use nope.Prelude.{ℕ, ◌<◌, refl, ◌∙◌, Option, arith, lt→ltb, length-set}
use nope.Cache.FlatStorage as Flat
use nope.Cache.FlatStorage.Slots.{
  Entry, Client, Sound, count, remove_one, step, change, entry-stored, entry-stored_ne,
  Sound-change, op_free, held-bound,
}
use nope.Cache.FlatStorage.Runs.{Sound-free, Sound-set_last_access}
use nope.Cache.FlatCache.{written}
use nope.Cache.FlatCache.Plain as Plain

module _ {V : Type 0} where
  pub free_held :
      (d : Client V) (i : ℕ)
      → Sound d
      → 0 < count i d.held
      → Sound (record d { storage = Flat.free d.storage i; held = remove_one i d.held })
  unfolding step
  free_held d i h p =
      let f : Sound (step d (op_free i)) = Sound-free d i h in rw (lt→ltb 0 (count i d.held) p) at f

  change_held :
      (d : Client V) (i : ℕ) (s : Flat.Storage V) (e : Entry V)
      → 0 < count i d.held
      → Sound (change d i s e)
      → Sound (record d { storage = s; given = Flat.write d.given i e })
  change_held d i s e p h = rw (lt→ltb 0 (count i d.held) p) at h

  pub touch_held :
      (d : Client V) (i now : ℕ)
      → Sound d
      → 0 < count i d.held
      → Sound (record d {
        storage = Flat.set_last_access d.storage i now;
        given = Flat.write d.given i (record (d.given i) { last_access = now });
      })
  unfolding step
  touch_held d i now h p =
      change_held d i (Flat.set_last_access d.storage i now)
        (record (d.given i) { last_access = now }) p (Sound-set_last_access d i now h)

  pub write_held :
      (d : Client V) (i : ℕ) (v : V) (sz now : ℕ) (exp sl : Option ℕ)
      → Sound d
      → 0 < count i d.held
      → Sound (record d {
        storage = written d.storage i v sz now exp sl;
        given = Flat.write d.given i (Plain.new_entry v sz now exp sl);
      })
  write_held d i v sz now exp sl h p =
      let b = held-bound d i h p in
      change_held d i (written d.storage i v sz now exp sl) (Plain.new_entry v sz now exp sl) p (
        Sound-change d i (written d.storage i v sz now exp sl) (Plain.new_entry v sz now exp sl) h
          refl refl (length-set d.storage.sizes i sz ∙ h.sizes_len)
          (length-set d.storage.last_access i now ∙ h.last_len)
          (λ q.
            entry-stored d.storage i v sz now exp sl (omega (arith, h.sizes_len))
              (omega (arith, h.last_len)))
          (λ k ne. entry-stored_ne d.storage i k v sz now exp sl ne))
