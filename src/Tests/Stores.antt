-- ===== src/Tests/Stores.antt =====
-- Runs of packages/cron/src/store/memory.ts, with numbers for ids.
use nope.Prelude.{
  ℕ, ◌≡◌, refl, List, [], ◌∷◌, Option, none, some, arith, true, false, ltb, All, ℕ_discrete,
}
use nope.Cron.Store.{
  Store, Trigger, Run, running, claim_trigger, claim_found, list_due_triggers, empty,
}
use nope.Cron.Store.Leases.{Op, claims, releases, run, claim-exclusive}
use nope.Cron.Store.Order.{LocaleOrder}
use nope.Cron.Store.Due.{Selects, list_due-Selects}
use nope.Cron.Store.Agrees.{Change, upserts, leases, changes, list_due-claims}
use nope.Prelude.{Text, text, text_ne}
use nope.Prelude.Integers.{ℤ, pos, negsuc}

gt_asym : (a b : ℕ) → ltb b a ≡ true → ltb a b ≡ false
gt_asym a b h = ground arith

gt_trans : (a b c : ℕ) → ltb b a ≡ false → ltb c b ≡ false → ltb c a ≡ false
gt_trans a b c h k = ground arith

abbrev by_number : LocaleOrder ℕ
by_number = record { gt = λ a b. ltb b a; asym = gt_asym; trans = gt_trans }

abbrev trigger_of : ℕ → ℕ → Option Text → Option ℕ → ℤ → Trigger ℕ ℕ
trigger_of k next owner until priority = record {
  id = k;
  job = 1;
  options = 0;
  next_run_at = some next;
  last_run_at = none;
  failure_count = 0;
  misfire_policy = none;
  priority = priority;
  paused = false;
  revision = 0;
  next_run_id = none;
  leased_until = until;
  lease_owner = owner;
}

abbrev run_of : ℕ → Run ℕ
run_of k = record {
  run_id = k;
  trigger_id = 1;
  job = 1;
  scheduled_at = 0;
  started_at = some 0;
  ended_at = none;
  attempt = 1;
  status = running;
  progress = none;
  heartbeat_at = some 0;
}

abbrev store : Store ℕ ℕ
store = record {
  jobs = [];
  triggers =
      (1, trigger_of 1 5 (some (text "a")) (some 100) (pos 0))
      ∷ (2, trigger_of 2 9 none none (negsuc 9))
      ∷ [];
  runs = (3, run_of 3) ∷ [];
}

abbrev rivals : List (Op ℕ)
rivals =
    claims 2 (text "h") 50 20
    ∷ releases 2 (text "h")
    ∷ claims 1 (text "h") 50 30
    ∷ claims 2 (text "g") 50 59
    ∷ []

claim-exclusive_example :
    All
      (λ b. b ≡ false)
      (run ℕ_discrete 2 (claim_trigger ℕ_discrete store 2 (text "i") 50 10).0 rivals).1
unfolding claim_trigger claim_found ℕ_discrete
claim-exclusive_example =
    let h = text_ne (text "i") (text "h") refl in
    claim-exclusive ℕ_discrete store 2 (text "i") 50 10 rivals (text_ne (text "i") [] refl) refl (
      (h, omega arith),
      (h, ((h, omega arith), ((text_ne (text "i") (text "g") refl, omega arith), tt))),
    )

list_due-Selects_example :
    (waiting : List (Trigger ℕ ℕ)) × (others : List (Trigger ℕ ℕ)) × Selects by_number store 200 1
      (list_due_triggers by_number.gt store 200 1)
      waiting
      others
list_due-Selects_example = list_due-Selects by_number store 200 1

abbrev made : List (Change ℕ ℕ)
made =
    upserts (trigger_of 2 9 none none (negsuc 9))
    ∷ upserts (trigger_of 1 5 none none (pos 0))
    ∷ leases (claims 1 (text "i") 50 10)
    ∷ []

list_due-claims_example :
    All
      (λ t.
        (claim_trigger ℕ_discrete (changes ℕ_discrete empty made) t.id (text "h") 50 20).1 ≡ true)
      (list_due_triggers by_number.gt (changes ℕ_discrete empty made) 20 10)
list_due-claims_example = list_due-claims ℕ_discrete by_number made 20 10 (text "h") 50
