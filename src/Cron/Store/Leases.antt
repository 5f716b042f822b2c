-- ===== src/Cron/Store/Leases.antt =====
-- A claimed trigger belongs to its claimer until the lease ends.
use nope.Prelude.{
  ℕ, ◌+◌, ◌<◌, ◌≡◌, refl, ◌≢◌, Bool, true, false, List, [], ◌∷◌, Option, none, some, ite, map_get,
  map_set, map_get-set_self, map_get-set_ne, All, arith, subst, sym, Text, text_eq, text_eq_iff,
  Bool-cases, inl, inr, if_pos, if_neg, ◌∙◌,
}
use nope.Cron.Store.{
  truthy, Store, Trigger, claim_found, claim_trigger, release_found, release_trigger,
}

truthy_named : (o : Text) → o ≢ [] → truthy (some o) ≡ true
truthy_named [] n = absurd (n refl)
truthy_named (c ∷ cs) n = refl

other : (p o : Text) → p ≢ o → text_eq p o ≡ false
other p o n = elim (Bool-cases (text_eq p o)) [
  | inl e ↦ absurd (n ((text_eq_iff p o).0 e))
  | inr e ↦ e
]

module _ {K P : Type 0} (dec : Discrete K) where
  -- The trigger `k` is in the store, leased to `o`, which is not empty, up to the time `until`.
  pub record Leased (k : K) (o : Text) (until : ℕ) (s : Store K P) : Type 0 where
    pub trigger : Trigger K P
    pub stored : map_get dec s.triggers k ≡ some trigger
    pub owner : trigger.lease_owner ≡ some o
    pub end_time : trigger.leased_until ≡ some until
    pub named : o ≢ []

  abbrev pub granted : Text → ℕ → ℕ → Trigger K P → Trigger K P
  granted o lease now t = record t {
    lease_owner = some o;
    leased_until = some (now + lease);
    revision = t.revision + 1;
  }

  module _ (s : Store K P) (k : K) (o : Text) (lease now : ℕ) where
    claim_found_granted :
        (t : Trigger K P)
        → (claim_found dec s k o lease now (some t)).1 ≡ true
        → (claim_found dec s k o lease now (some t)).0
          ≡ record s { triggers = map_set dec s.triggers k (granted o lease now t) }
    unfolding claim_found
    claim_found_granted t h = ground arith

    pub claim_found-Leased :
        (m : Option (Trigger K P))
        → o ≢ []
        → (claim_found dec s k o lease now m).1 ≡ true
        → Leased k o (now + lease) (claim_found dec s k o lease now m).0
    unfolding claim_found
    claim_found-Leased none n h = cc
    claim_found-Leased (some t) n h =
        subst (Leased k o (now + lease)) (sym (claim_found_granted t h)) (record {
          trigger = granted o lease now t;
          stored = map_get-set_self dec s.triggers k (granted o lease now t);
          owner = refl;
          end_time = refl;
          named = n;
        })

    -- A claim by another owner, made in time, is refused.
    claim_found_rival :
        (t : Trigger K P) (p : Text) (until : ℕ)
        → t.lease_owner ≡ some p
        → t.leased_until ≡ some until
        → now < until
        → p ≢ o
        → p ≢ []
        → claim_found dec s k o lease now (some t) ≡ (s, false)
    unfolding claim_found
    claim_found_rival t p until w l h n m =
        let a = truthy_named p m in let b = other p o n in rw (w, l) (ground (arith, a, b))

    claim_found_other :
        (m : Option (Trigger K P)) (q : K)
        → k ≢ q
        → map_get dec (claim_found dec s k o lease now m).0.triggers q ≡ map_get dec s.triggers q
    unfolding claim_found
    claim_found_other none q n = refl
    claim_found_other (some t) q n =
        ground (arith, map_get-set_ne dec s.triggers k q (granted o lease now t) n)

  release_found_rival :
      (s : Store K P) (k : K) (o : Text) (t : Trigger K P) (p : Text)
      → t.lease_owner ≡ some p
      → p ≢ o
      → release_found dec s k o (some t) ≡ s
  unfolding release_found
  release_found_rival s k o t p w n = let b = other p o n in rw w (ground (arith, b))

  release_found_other :
      (s : Store K P) (k : K) (o : Text) (m : Option (Trigger K P)) (q : K)
      → k ≢ q
      → map_get dec (release_found dec s k o m).triggers q ≡ map_get dec s.triggers q
  unfolding release_found
  release_found_other s k o none q n = refl
  release_found_other s k o (some t) q n = ground (
    arith,
    map_get-set_ne dec s.triggers k q (record t { lease_owner = none; leased_until = none }) n,
  )

pub data Op (K : Type 0) : Type 0 where
  claims : K → Text → ℕ → ℕ → Op K
  releases : K → Text → Op K

-- Another owner than `o` acts, and before `until`.
abbrev pub Rival : {K : Type 0} → Text → ℕ → Op K → Type 0
Rival o until (claims j p lease now) = (o ≢ p) × (now < until)
Rival o until (releases j p) = o ≢ p

module _ {K P : Type 0} (dec : Discrete K) where
  unfoldable pub step : Store K P → Op K → Store K P × Bool
  step s (claims j o lease now) = claim_trigger dec s j o lease now
  step s (releases j o) = (release_trigger dec s j o, false)

  -- The answers to the claims of `k` in a history, and the store that it leaves.
  pub run : K → Store K P → List (Op K) → Store K P × List Bool
  run k s [] = (s, [])
  run k s (releases j o ∷ os) = run k (step s (releases j o)).0 os
  run k s (claims j o lease now ∷ os) =
      let (s', answer) = step s (claims j o lease now) in
      let (s'', answers) = run k s' os in (s'', ite (dec j k) (answer ∷ answers) answers)

  Leased-of_get :
      (k : K) (o : Text) (until : ℕ) (s s' : Store K P)
      → map_get dec s'.triggers k ≡ map_get dec s.triggers k
      → Leased dec k o until s
      → Leased dec k o until s'
  Leased-of_get k o until s s' e h = record {
    trigger = h.trigger;
    stored = e ∙ h.stored;
    owner = h.owner;
    end_time = h.end_time;
    named = h.named;
  }

  pub claim_rival :
      (k : K) (o : Text) (until : ℕ) (s : Store K P) (p : Text) (lease now : ℕ)
      → Leased dec k o until s
      → o ≢ p
      → now < until
      → claim_trigger dec s k p lease now ≡ (s, false)
  unfolding claim_trigger
  claim_rival k o until s p lease now h n l =
      rw h.stored
        (claim_found_rival dec s k p lease now h.trigger o until h.owner h.end_time l n h.named)

  release_rival :
      (k : K) (o : Text) (until : ℕ) (s : Store K P) (p : Text)
      → Leased dec k o until s
      → o ≢ p
      → release_trigger dec s k p ≡ s
  unfolding release_trigger
  release_rival k o until s p h n =
      rw h.stored (release_found_rival dec s k p h.trigger o h.owner n)

  release-Leased :
      (k : K) (o : Text) (until : ℕ) (s : Store K P) (j : K) (p : Text)
      → Leased dec k o until s
      → o ≢ p
      → Leased dec k o until (release_trigger dec s j p)
  unfolding release_trigger
  release-Leased k o until s j p h n = elim (dec j k) [
    | yes e ↦ rw e (subst (Leased dec k o until) (sym (release_rival k o until s p h n)) h)
    | no d ↦ Leased-of_get k o until s _ (release_found_other dec s j p _ k d) h
  ]

  claim_other-Leased :
      (k : K) (o : Text) (until : ℕ) (s : Store K P) (j : K) (p : Text) (lease now : ℕ)
      → Leased dec k o until s
      → j ≢ k
      → Leased dec k o until (claim_trigger dec s j p lease now).0
  unfolding claim_trigger
  claim_other-Leased k o until s j p lease now h d =
      Leased-of_get k o until s _ (claim_found_other dec s j p lease now _ k d) h

  -- While a lease lasts, and whatever other owners claim and release in the meantime: every claim of
  -- the leased trigger by another owner is refused, and the lease stands.
  pub run-Leased :
      (k : K) (o : Text) (until : ℕ) (s : Store K P) (os : List (Op K))
      → Leased dec k o until s
      → All (Rival o until) os
      → Leased dec k o until (run k s os).0 × All (λ b. b ≡ false) (run k s os).1
  unfolding run step
  run-Leased k o until s [] h r = (h, tt)
  run-Leased k o until s (releases j p ∷ os) h r =
      run-Leased k o until (release_trigger dec s j p) os (release-Leased k o until s j p h r.0) r.1
  run-Leased k o until s (claims j p lease now ∷ os) h r = elim (dec j k) [
    | yes e ↦
        let (h', all) = run-Leased k o until s os h r.1 in
        rw (if_pos (dec j k) e, e, claim_rival k o until s p lease now h r.0.0 r.0.1)
          (h', (refl, all))
    | no d ↦ rw (if_neg (dec j k) d) (
        run-Leased k o until (claim_trigger dec s j p lease now).0 os
          (claim_other-Leased k o until s j p lease now h d) r.1)
  ]

  -- A claim that is granted to an owner with a name leases the trigger to it until the lease is over: no
  -- other owner's claim in that time is granted, whatever other owners do.
  pub claim-exclusive :
      (s : Store K P) (k : K) (o : Text) (lease now : ℕ) (os : List (Op K))
      → o ≢ []
      → (claim_trigger dec s k o lease now).1 ≡ true
      → All (Rival o (now + lease)) os
      → All (λ b. b ≡ false) (run k (claim_trigger dec s k o lease now).0 os).1
  unfolding claim_trigger
  claim-exclusive s k o lease now os m g r =
      (run-Leased k o (now + lease) _ os
        (claim_found-Leased dec s k o lease now (map_get dec s.triggers k) m g) r).1
