-- ===== src/Cron/Scheduler/Claims.antt =====
-- At most one run for each due trigger, and none for a trigger that another scheduler has begun.
use nope.Prelude.{
  ℕ, ◌+◌, ◌<◌, ◌≤◌, ◌≡◌, refl, ◌≢◌, List, [], ◌∷◌, map_get, arith, sym, ap, subst, Bool-cases, inl,
  inr, if_elim, length, length-append, length-take-le,
}
use nope.Cron.Store.{Trigger, claim_trigger, claim_found, list_due_triggers}
use nope.Cron.Store.Leases.{Leased, claim_rival, claim_found-Leased}
use nope.Cron.Scheduler.{Scheduler, Host, with_store, lease_ms}
use nope.Cron.Scheduler.Dispatch.{process_trigger, drain_list, drain_due_triggers}
use nope.Cron.Scheduler.Starts.{Begins, begun, idle, dispatch-Begins}

module _ {K P Plan : Type 0} (h : Host K P Plan) where
  Begins-length :
      (s s' : Scheduler K P Plan) → Begins h s s' → length s'.active ≤ length s.active + 1
  Begins-length s s' (begun a e f) = rw e (omega (arith, length-append s.active (a ∷ [])))
  Begins-length s s' (idle e) = rw e (omega arith)

  length-process_trigger :
      (s : Scheduler K P Plan) (t : Trigger K P) (now : ℕ)
      → length (process_trigger h s t now).active ≤ length s.active + 1
  unfolding process_trigger
  length-process_trigger s t now =
      let (store, granted) = claim_trigger h.dec s.store t.id s.owner_id lease_ms now in
      elim (Bool-cases granted) [
        | inl e ↦
            rw e
              (Begins-length (with_store s store) _ (dispatch-Begins h (with_store s store) t now))
        | inr e ↦ rw e (omega arith)
      ]

  length-drain_list :
      (s : Scheduler K P Plan) (ts : List (Trigger K P)) (now : ℕ)
      → length (drain_list h s ts now).active ≤ length s.active + length ts
  unfolding drain_list
  length-drain_list s [] now = omega arith
  length-drain_list s (t ∷ ts) now =
      if_elim (λ (r : Scheduler K P Plan). length r.active ≤ length s.active + length (t ∷ ts))
        s.stopped (λ _. omega arith)
        (λ _. omega (
          arith,
          length-drain_list (process_trigger h s t now) ts now,
          length-process_trigger s t now,
        ))

  -- A tick of the loop begins at most 100 runs, whatever the store holds.
  pub length-drain_due_triggers :
      (s : Scheduler K P Plan) (now : ℕ)
      → length (drain_due_triggers h s now).active ≤ length s.active + 100
  unfolding drain_due_triggers list_due_triggers
  length-drain_due_triggers s now =
      let few : length (list_due_triggers h.locale_gt s.store now 100) ≤ 100 =
        length-take-le 100 _ in
      omega (arith, length-drain_list s (list_due_triggers h.locale_gt s.store now 100) now)

  begun_Leased :
      (s : Scheduler K P Plan) (t : Trigger K P) (now : ℕ)
      → s.owner_id ≢ []
      → length s.active < length (process_trigger h s t now).active
      → Leased h.dec t.id s.owner_id (now + lease_ms) (process_trigger h s t now).store
  unfolding process_trigger claim_trigger
  begun_Leased s t now n g =
      let (store, granted) =
        claim_found h.dec s.store t.id s.owner_id lease_ms now
          (map_get h.dec s.store.triggers t.id) in
      elim (Bool-cases granted) [
        | inl e ↦
            let g' = rw e at g in
            rw e (elim (dispatch-Begins h (with_store s store) t now) [
              | begun a q f ↦
                  subst (Leased h.dec t.id s.owner_id (now + lease_ms)) (sym f)
                    (claim_found-Leased h.dec s.store t.id s.owner_id lease_ms now _ n e)
              | idle q ↦ absurd (omega (arith, g', ap length q))
            ])
        | inr e ↦ let g' = rw e at g in absurd (omega (arith, g'))
      ]

  -- While the lease lasts under which a scheduler whose id is not empty has begun a trigger's run,
  -- another scheduler that works on the store that it left begins no run of the trigger, and is left
  -- as it is.
  pub process_trigger-exclusive :
      (s s2 : Scheduler K P Plan) (t t2 : Trigger K P) (now later : ℕ)
      → s.owner_id ≢ []
      → length s.active < length (process_trigger h s t now).active
      → s2.store ≡ (process_trigger h s t now).store
      → s.owner_id ≢ s2.owner_id
      → t2.id ≡ t.id
      → later < now + lease_ms
      → process_trigger h s2 t2 later ≡ s2
  unfolding process_trigger
  process_trigger-exclusive s s2 t t2 now later n g e d i l =
      let leased =
        subst (Leased h.dec t.id s.owner_id (now + lease_ms)) (sym e) (begun_Leased s t now n g) in
      rw
        (
          i,
          claim_rival h.dec t.id s.owner_id (now + lease_ms) s2.store s2.owner_id lease_ms later
              leased d l,
        )
        refl
