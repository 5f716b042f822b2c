-- ===== src/Cache/Singleflight/Shares.antt =====
-- Calls are shared while they have not settled.
use nope.Prelude.{
  ℕ, ◌≡◌, refl, Bool, Bool-cases, true, false, List, [], ◌∷◌, Option, none, some, map_get,
  map_get-set_self, ℕ_discrete, Option-cases, inl, inr,
}
use nope.Cache.Singleflight.{
  Flights, create, is_call, register, share_found, share, cleanup, settle_open, settle, clear,
}
use nope.Cache.Singleflight.Entries.{
  Backed, Shown, Below, Below-set, Below-delete, Backed-set, Shown-set, Backed-cleaned,
  Shown-cleaned,
}

pub data Op (K : Type 0) : Type 0 where
  asks : K → Op K
  settles : ℕ → Op K
  clears : Op K

abbrev pub no_clear : {K : Type 0} → List (Op K) → Bool
no_clear [] = true
no_clear (asks k ∷ os) = no_clear os
no_clear (settles p ∷ os) = no_clear os
no_clear (clears ∷ os) = false

module _ {K : Type 0} (dec : Discrete K) where
  unfoldable pub step : Flights K → Op K → Flights K
  unfolding share settle clear
  step s (asks k) = (share dec k s).1
  step s (settles p) = settle dec p s
  step s clears = clear dec s

  unfoldable pub run : Flights K → List (Op K) → Flights K
  unfolding step
  run s [] = s
  run s (o ∷ os) = run (step s o) os

  record Sound (s : Flights K) : Type 0 where
    backed : Backed dec s.inflight s.open_calls
    below : Below dec s.open_calls s.started

  share-Sound : (s : Flights K) (k : K) (o : Option ℕ) → Sound s → Sound (share_found dec k o s).1
  unfolding share_found register
  share-Sound s k (some p) h = h
  share-Sound s k none h = record {
    backed = Backed-set dec s.inflight s.open_calls k s.started h.below h.backed;
    below = Below-set dec s.open_calls s.started k h.below;
  }

  share-Shown :
      (s : Flights K) (k : K) (o : Option ℕ)
      → map_get dec s.inflight k ≡ o
      → Shown dec s.inflight s.open_calls
      → Shown dec (share_found dec k o s).1.inflight (share_found dec k o s).1.open_calls
  unfolding share_found register
  share-Shown s k (some p) e h = h
  share-Shown s k none e h = Shown-set dec s.inflight s.open_calls k s.started e h

  settle-Sound :
      (s : Flights K) (p : ℕ) (o : Option K)
      → map_get ℕ_discrete s.open_calls p ≡ o
      → Sound s
      → Sound (settle_open dec p o s)
  unfolding settle_open cleanup
  settle-Sound s p none e h = h
  settle-Sound s p (some k) e h =
      let b' = Backed-cleaned dec s.inflight s.open_calls k p e h.backed in
      let l' = Below-delete dec s.open_calls s.started p h.below in
      elim (Bool-cases (is_call (map_get dec s.inflight k) p)) [
        | inl b ↦ rw b (record { backed = rw b at b'; below = l' })
        | inr b ↦ rw b (record { backed = rw b at b'; below = l' })
      ]

  settle-Shown :
      (s : Flights K) (p : ℕ) (o : Option K)
      → Shown dec s.inflight s.open_calls
      → Shown dec (settle_open dec p o s).inflight (settle_open dec p o s).open_calls
  unfolding settle_open cleanup
  settle-Shown s p none h = h
  settle-Shown s p (some k) h =
      let s' = Shown-cleaned dec s.inflight s.open_calls k p h in
      elim (Bool-cases (is_call (map_get dec s.inflight k) p)) [
        | inl b ↦ rw b (rw b at s')
        | inr b ↦ rw b (rw b at s')
      ]

  run-Sound : (s : Flights K) (os : List (Op K)) → Sound s → Sound (run s os)
  unfolding run step share settle clear
  run-Sound s [] h = h
  run-Sound s (asks k ∷ os) h =
      run-Sound (share dec k s).1 os (share-Sound s k (map_get dec s.inflight k) h)
  run-Sound s (settles p ∷ os) h =
      run-Sound (settle dec p s) os (settle-Sound s p (map_get ℕ_discrete s.open_calls p) refl h)
  run-Sound s (clears ∷ os) h =
      run-Sound (clear dec s) os (record { backed = λ k p e. absurd (cc); below = h.below })

  run-Shown :
      (s : Flights K) (os : List (Op K))
      → no_clear os ≡ true
      → Shown dec s.inflight s.open_calls
      → Shown dec (run s os).inflight (run s os).open_calls
  unfolding run step share settle
  run-Shown s [] c h = h
  run-Shown s (asks k ∷ os) c h =
      run-Shown (share dec k s).1 os c (share-Shown s k (map_get dec s.inflight k) refl h)
  run-Shown s (settles p ∷ os) c h =
      run-Shown (settle dec p s) os c (settle-Shown s p (map_get ℕ_discrete s.open_calls p) h)
  run-Shown s (clears ∷ os) c h = absurd (cc)

  create-Sound : Sound create
  unfolding create
  create-Sound = record { backed = λ k p e. absurd (cc); below = λ k p e. absurd (cc) }

  -- Whatever was asked, settled and cleared: the promise that a key is answered with has not settled,
  -- and is that of a call for the same key.
  pub share_open :
      (os : List (Op K)) (k : K)
      → map_get ℕ_discrete
          (share dec k (run create os)).1.open_calls
          (share dec k (run create os)).0
        ≡ some k
  unfolding share share_found register
  share_open os k = elim (Option-cases (map_get dec (run create os).inflight k)) [
    | inl e ↦
        rw e (map_get-set_self ℕ_discrete (run create os).open_calls (run create os).started k)
    | inr (p, e) ↦ rw e ((run-Sound create os create-Sound).backed k p e)
  ]

  -- Without a call of clear, while the promise of a call for a key has not settled, the key is answered
  -- with that promise and no other call is started.
  pub share_shared :
      (os : List (Op K)) (k : K) (p : ℕ)
      → no_clear os ≡ true
      → map_get ℕ_discrete (run create os).open_calls p ≡ some k
      → share dec k (run create os) ≡ (p, run create os)
  unfolding share share_found create
  share_shared os k p c e = rw (run-Shown create os c (λ j q f. absurd (cc)) k p e) refl
