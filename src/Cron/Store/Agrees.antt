-- ===== src/Cron/Store/Agrees.antt =====
-- `listDueTriggers` and `claimTrigger` agree.
use nope.Prelude.{
  ℕ, ◌≡◌, refl, Bool, true, List, [], ◌∷◌, Option, none, some, keep, All, Text, All-take, arith,
  map_get, if_elim, Keyed, Keyed-get, All-keep_of, Keyed-set, Keyed-delete, Keyed-All,
}
use nope.Prelude.Sort.{sort, All-sort}
use nope.Cron.Store.Leases.{Op, claims, releases, step, granted}
use nope.Cron.Store.Order.{LocaleOrder}
use nope.Cron.Store.{
  Store, Trigger, is_due, comes_behind, list_due_triggers, map_values, owns, empty, dispose,
  claim_found, claim_trigger, release_found, release_trigger, upsert_trigger, delete_trigger,
}
use nope.Cron.Store.Due.{Due, list_due-Selects}

module _ {K P : Type 0} (dec : Discrete K) where
  -- Every trigger stands once, under its own id.
  abbrev pub WellKeyed : Store K P → Type 0
  WellKeyed s = Keyed dec (λ (t : Trigger K P). t.id) s.triggers

  due-claims :
      (s : Store K P) (t : Trigger K P) (o : Text) (lease now : ℕ)
      → map_get dec s.triggers t.id ≡ some t
      → Due now t
      → (claim_trigger dec s t.id o lease now).1 ≡ true
  unfolding claim_trigger claim_found
  due-claims s t o lease now e d =
      let a = d.active in let b = d.unleased in rw e (ground (arith, a, b))

  All-due-claims :
      (s : Store K P) (o : Text) (lease now : ℕ) (ts : List (Trigger K P))
      → All (λ t. map_get dec s.triggers t.id ≡ some t) ts
      → All (Due now) ts
      → All (λ t. (claim_trigger dec s t.id o lease now).1 ≡ true) ts
  All-due-claims s o lease now [] g d = tt
  All-due-claims s o lease now (t ∷ ts) g d =
      (due-claims s t o lease now g.0 d.0, All-due-claims s o lease now ts g.1 d.1)

  list_due-stored :
      (locale_gt : K → K → Bool) (s : Store K P) (now limit : ℕ)
      → WellKeyed s
      → All (λ t. map_get dec s.triggers t.id ≡ some t) (list_due_triggers locale_gt s now limit)
  unfolding list_due_triggers
  list_due-stored locale_gt s now limit h =
      let P : Trigger K P → Type 0 = λ t. map_get dec s.triggers t.id ≡ some t in
      All-take P limit (sort (comes_behind locale_gt) (keep (is_due now) (map_values s.triggers))) (
        All-sort (comes_behind locale_gt) P (keep (is_due now) (map_values s.triggers)) (
          All-keep_of P (is_due now) (map_values s.triggers)
            (Keyed-All dec (λ t. t.id) s.triggers h)))

  claim_found-WellKeyed :
      (s : Store K P) (k : K) (o : Text) (lease now : ℕ) (m : Option (Trigger K P))
      → map_get dec s.triggers k ≡ m
      → WellKeyed s
      → WellKeyed (claim_found dec s k o lease now m).0
  unfolding claim_found
  claim_found-WellKeyed s k o lease now none e h = h
  claim_found-WellKeyed s k o lease now (some t) e h =
      let own = Keyed-get dec (λ (t : Trigger K P). t.id) s.triggers k t h e in
      let set =
        Keyed-set dec (λ (t : Trigger K P). t.id) s.triggers k (granted dec o lease now t) own h in
      if_elim (λ (r : Store K P × Bool). WellKeyed r.0) t.paused (λ _. h)
        (λ _. if_elim (λ (r : Store K P × Bool). WellKeyed r.0) _ (λ _. h) (λ _. set))

  release_found-WellKeyed :
      (s : Store K P) (k : K) (o : Text) (m : Option (Trigger K P))
      → map_get dec s.triggers k ≡ m
      → WellKeyed s
      → WellKeyed (release_found dec s k o m)
  unfolding release_found
  release_found-WellKeyed s k o none e h = h
  release_found-WellKeyed s k o (some t) e h =
      let own = Keyed-get dec (λ (t : Trigger K P). t.id) s.triggers k t h e in
      if_elim WellKeyed (owns t.lease_owner o)
        (λ _.
          Keyed-set dec (λ (t : Trigger K P). t.id) s.triggers k
            (record t { lease_owner = none; leased_until = none }) own h)
        (λ _. h)

-- What changes the triggers of a store.
pub data Change (K P : Type 0) : Type 0 where
  upserts : Trigger K P → Change K P
  deletes : K → Change K P
  leases : Op K → Change K P
  disposes : Change K P

module _ {K P : Type 0} (dec : Discrete K) where
  pub change : Store K P → Change K P → Store K P
  change s (upserts t) = upsert_trigger dec s t
  change s (deletes k) = delete_trigger dec s k
  change s (leases o) = (step dec s o).0
  change s disposes = dispose s

  pub changes : Store K P → List (Change K P) → Store K P
  changes s [] = s
  changes s (c ∷ cs) = changes (change s c) cs

  change-WellKeyed : (s : Store K P) (c : Change K P) → WellKeyed dec s → WellKeyed dec (change s c)
  unfolding change upsert_trigger delete_trigger dispose step claim_trigger release_trigger
  change-WellKeyed s (upserts t) h = Keyed-set dec (λ t. t.id) s.triggers t.id t refl h
  change-WellKeyed s (deletes k) h = Keyed-delete dec (λ t. t.id) s.triggers k h
  change-WellKeyed s (leases (claims k o lease now)) h =
      claim_found-WellKeyed dec s k o lease now (map_get dec s.triggers k) refl h
  change-WellKeyed s (leases (releases k o)) h =
      release_found-WellKeyed dec s k o (map_get dec s.triggers k) refl h
  change-WellKeyed s disposes h = tt

  changes-WellKeyed :
      (s : Store K P) (cs : List (Change K P)) → WellKeyed dec s → WellKeyed dec (changes s cs)
  unfolding changes
  changes-WellKeyed s [] h = h
  changes-WellKeyed s (c ∷ cs) h = changes-WellKeyed (change s c) cs (change-WellKeyed s c h)

  -- `listDueTriggers` and `claimTrigger` agree: after any history of a new store, each trigger that
  -- the first gives can be claimed at that time, by any owner.
  pub list_due-claims :
      (locale : LocaleOrder K) (cs : List (Change K P)) (now limit : ℕ) (o : Text) (lease : ℕ)
      → let s = changes empty cs in
        All
          (λ t. (claim_trigger dec s t.id o lease now).1 ≡ true)
          (list_due_triggers locale.gt s now limit)
  unfolding empty
  list_due-claims locale cs now limit o lease =
      let s = changes (record { jobs = []; triggers = []; runs = [] }) cs in
      let (waiting, others, selects) = list_due-Selects locale s now limit in
      All-due-claims dec s o lease now (list_due_triggers locale.gt s now limit)
        (list_due-stored dec locale.gt s now limit (changes-WellKeyed _ cs tt)) selects.due
