-- ===== src/Cache/FlatCache/Runs.antt =====
-- Histories of the flat cache, against those of the plain one.
use nope.Prelude.{
  ℕ, ◌<◌, ◌≡◌, refl, sym, ap, ◌∙◌, subst, List, [], ◌∷◌, Option, length, map_get, map_delete,
  length-set, length-replicate, arith, inl, inr, Option-cases,
}
use nope.Prelude.Keys.{delete_absent}
use nope.Cache.FlatStorage as Flat
use nope.Cache.FlatStorage.Slots.{Entry}
use nope.Cache.FlatStorage.Runs.{Sound-start, none_split}
use nope.Cache.FlatCache.{
  FlatCache, create, get, get_found, set, has, has_found, del, del_found, clear, free_all,
}
use nope.Cache.FlatCache.Plain as Plain
use nope.Cache.FlatCache.Plain.{Op, Answer, gets, sets, asks, deletes, clears, got, took, had, done}
use nope.Cache.FlatCache.Slots.{view, get_view, get_view-none}
use nope.Cache.FlatCache.Refines.{
  Shows, Becomes, Answers, remove-Shows, removed, get_found-Answers, has_found-Answers,
}
use nope.Cache.FlatCache.Refines.Sets.{set-Answers}

free_all_frame :
    {K V : Type 0} (ns : List (K × ℕ)) (s : Flat.Storage V) (dec : Discrete K)
    → ((free_all dec ns s).capacity ≡ s.capacity)
      × (length (free_all dec ns s).sizes ≡ length s.sizes)
      × (length (free_all dec ns s).last_access ≡ length s.last_access)
unfolding free_all Flat.free
free_all_frame [] s dec = (refl, refl, refl)
free_all_frame ((k, i) ∷ ns) s dec =
    let (c, a, b) = free_all_frame ns (Flat.free s i) dec in
    (c, a ∙ length-set s.sizes i 0, b ∙ length-set s.last_access i 0)

module _ {K V : Type 0} (dec : Discrete K) where
  unfoldable pub step : FlatCache K V → Op K V → Answer V × FlatCache K V
  unfolding get set has del clear
  step c (gets now k) = let r = get dec now k c in (got r.0, r.1)
  step c (sets now k v sz ttl sl) = let r = set dec now k v sz ttl sl c in (took r.0, r.1)
  step c (asks now k) = let r = has dec now k c in (had r.0, r.1)
  step c (deletes k) = (done, del dec k c)
  step c clears = (done, clear dec c)

  unfoldable pub run : FlatCache K V → List (Op K V) → List (Answer V) × FlatCache K V
  unfolding step
  run c [] = ([], c)
  run c (o ∷ os) = let r = step c o in let rest = run r.1 os in (r.0 ∷ rest.0, rest.1)

module _ {K V : Type 0} (dec : Discrete K) (most : ℕ) (bound : Option ℕ) where
  module _ (c : FlatCache K V) (g : ℕ → Entry V) (h : Shows dec most bound c g) where
    get-Answers :
        (now : ℕ) (k : K)
        → Answers dec most bound
            (get dec now k c)
            (Plain.get_found dec now k (map_get dec (view g c.nodes) k) (view g c.nodes))
    unfolding get get_found
    get-Answers now k = elim (Option-cases (map_get dec c.nodes k)) [
      | inl e ↦ rw (e, get_view-none dec g c.nodes k e) (refl, (g, h, refl))
      | inr (i, e) ↦
          rw (e, get_view dec g c.nodes k i e) (get_found-Answers dec most bound c g h k i e now)
    ]

    has-Answers :
        (now : ℕ) (k : K)
        → Answers dec most bound
            (has dec now k c)
            (Plain.has_found dec now k (map_get dec (view g c.nodes) k) (view g c.nodes))
    unfolding has has_found
    has-Answers now k = elim (Option-cases (map_get dec c.nodes k)) [
      | inl e ↦ rw (e, get_view-none dec g c.nodes k e) (refl, (g, h, refl))
      | inr (i, e) ↦
          rw (e, get_view dec g c.nodes k i e) (has_found-Answers dec most bound c g h k i e now)
    ]

    del-Becomes : (k : K) → Becomes dec most bound (del dec k c) (map_delete dec (view g c.nodes) k)
    unfolding del del_found
    del-Becomes k = elim (Option-cases (map_get dec c.nodes k)) [
      | inl e ↦
          rw e (g, h, sym (delete_absent dec (view g c.nodes) k (get_view-none dec g c.nodes k e)))
      | inr (i, e) ↦
          rw e (g, remove-Shows dec most bound c g h k i e, removed dec most bound c g h k i e)
    ]

    clear-Becomes : Becomes dec most bound (clear dec c) []
    unfolding clear
    clear-Becomes =
        let (ca, a, b) = free_all_frame c.nodes c.storage dec in
        let s = free_all dec c.nodes c.storage in
        (
          g,
          record {
            sound = record {
              split = λ j. none_split j s.capacity;
              total = omega arith;
              kept = λ j p. elim p [ ];
              sizes_len = length-replicate (length s.sizes) 0 ∙ a ∙ h.sound.sizes_len ∙ sym ca;
              last_len = length-replicate (length s.last_access) 0 ∙ b ∙ h.sound.last_len ∙ sym ca;
            };
            keys = tt;
            capacity = ca ∙ h.capacity;
            entries = h.entries;
            bounded = h.bounded;
            sizes = refl;
            few = omega arith;
          },
          refl,
        )

    step-Answers :
        (o : Op K V)
        → 0 < most
        → Answers dec most bound (step dec c o) (Plain.step dec most bound (view g c.nodes) o)
    unfolding step Plain.step
    step-Answers (gets now k) pos = let r = get-Answers now k in (ap got r.0, r.1)
    step-Answers (sets now k v sz ttl sl) pos =
        let r = set-Answers dec most bound c g h now k v sz ttl sl pos in (ap took r.0, r.1)
    step-Answers (asks now k) pos = let r = has-Answers now k in (ap had r.0, r.1)
    step-Answers (deletes k) pos = (refl, del-Becomes k)
    step-Answers clears pos = (refl, clear-Becomes)

  run-Answers :
      (c : FlatCache K V) (ps : List (K × Entry V)) (os : List (Op K V))
      → 0 < most
      → Becomes dec most bound c ps
      → Answers dec most bound (run dec c os) (Plain.run dec most bound ps os)
  unfolding run Plain.run
  run-Answers c ps [] pos h = (refl, h)
  run-Answers c ps (o ∷ os) pos (g, h, e) =
      let r =
        subst (λ qs. Answers dec most bound (step dec c o) (Plain.step dec most bound qs o)) e
          (step-Answers c g h o pos) in
      let rest = run-Answers (step dec c o).1 (Plain.step dec most bound ps o).1 os pos r.1 in
      (let a = r.0 in let b = rest.0 in cc, rest.1)

  create-Becomes : Becomes {V = V} dec most bound (create most bound) []
  unfolding create
  create-Becomes = (
    _,
    record {
      sound = Sound-start most;
      keys = tt;
      capacity = refl;
      entries = refl;
      bounded = refl;
      sizes = refl;
      few = omega arith;
    },
    refl,
  )

  -- With room for at least one entry, whatever is got, set, asked for, deleted and cleared, at whatever
  -- times and with whatever sizes: FlatArrayCache gives the answers of the plain cache, so that set
  -- never throws; its slots hold the plain cache's entries, one slot for each; its total is the sum of
  -- their sizes; and they are not more than the maximum.
  pub run-create-Answers :
      (os : List (Op K V))
      → 0 < most
      → Answers dec most bound (run dec (create most bound) os) (Plain.run dec most bound [] os)
  run-create-Answers os pos = run-Answers (create most bound) [] os pos create-Becomes
