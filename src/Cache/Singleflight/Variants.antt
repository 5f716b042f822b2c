-- ===== src/Cache/Singleflight/Variants.antt =====
-- The variants that skip the map, and the one that never empties it.
use nope.Prelude.{
  ℕ, suc, ◌+◌, ◌≡◌, refl, ap, ◌∙◌, Bool, true, false, List, [], ◌∷◌, Option, none, some, inl, inr,
  arith, map_get, map_get-set_self, map_get-set_ne, ℕ_discrete, add-zero, Option-cases,
}
use nope.Cache.Singleflight.{
  Flights, create, share_fast_found, share_fast, share_hybrid, size, settle_open, settle,
  WeakFlights, share_weak_found, share_weak, settle_weak_open, settle_weak,
}

pub data Op (K : Type 0) : Type 0 where
  asks : K → Op K
  settles : ℕ → Op K

abbrev pub asked : {K : Type 0} → List (Op K) → ℕ
asked [] = 0
asked (asks k ∷ os) = suc (asked os)
asked (settles p ∷ os) = asked os

module _ {K : Type 0} (dec : Discrete K) where
  -- A history of `SingleflightFastPath`, or of `SingleflightHybrid`.
  unfoldable pub step_fast : Bool → Flights K → Op K → Flights K
  unfolding share_fast share_hybrid settle
  step_fast true s (asks k) = (share_hybrid dec k s).1
  step_fast false s (asks k) = (share_fast dec k s).1
  step_fast hybrid s (settles p) = settle dec p s

  unfoldable pub run_fast : Bool → Flights K → List (Op K) → Flights K
  unfolding step_fast
  run_fast hybrid s [] = s
  run_fast hybrid s (o ∷ os) = run_fast hybrid (step_fast hybrid s o) os

  bypassed : ℕ → Flights K
  bypassed n = record { inflight = []; open_calls = []; timers = []; started = n }

  bypass :
      (h : Bool) (n : ℕ) (os : List (Op K)) → run_fast h (bypassed n) os ≡ bypassed (n + asked os)
  unfolding run_fast step_fast share_fast share_hybrid share_fast_found size settle settle_open
      bypassed
  bypass h n [] = rw (add-zero) refl
  bypass true n (asks k ∷ os) = bypass true (suc n) os ∙ ap bypassed (omega arith)
  bypass false n (asks k ∷ os) = bypass false (suc n) os ∙ ap bypassed (omega arith)
  bypass true n (settles p ∷ os) = bypass true n os
  bypass false n (settles p ∷ os) = bypass false n os

  -- SingleflightFastPath and SingleflightHybrid share nothing: every call of do starts a call of fn,
  -- though one for the same key is still open, and the map stays empty.
  pub run_fast-started :
      (hybrid : Bool) (os : List (Op K))
      → ((run_fast hybrid create os).started ≡ asked os)
        × ((run_fast hybrid create os).inflight ≡ [])
  unfolding create bypassed
  run_fast-started hybrid os =
      let e = bypass hybrid 0 os in (ap (λ s. s.started) e ∙ omega arith, ap (λ s. s.inflight) e)

  unfoldable pub step_weak : WeakFlights K → Op K → WeakFlights K
  unfolding share_weak settle_weak
  step_weak s (asks k) = (share_weak dec k s).1
  step_weak s (settles p) = settle_weak dec p s

  unfoldable pub run_weak : WeakFlights K → List (Op K) → WeakFlights K
  unfolding step_weak
  run_weak s [] = s
  run_weak s (o ∷ os) = run_weak (step_weak s o) os

  share_weak_kept :
      (s : WeakFlights K) (j k : K) (p : ℕ) (o : Option ℕ)
      → map_get dec s.inflight j ≡ o
      → map_get dec s.inflight k ≡ some p
      → map_get dec (share_weak_found dec j o s).1.inflight k ≡ some p
  unfolding share_weak_found
  share_weak_kept s j k p (some q) e h = h
  share_weak_kept s j k p none e h =
      map_get-set_ne dec s.inflight j k s.started (λ i.
        let f : map_get dec s.inflight j ≡ some p = ap (map_get dec s.inflight) i ∙ h in
        absurd (cc))
      ∙ h

  settle_weak_kept :
      (s : WeakFlights K) (q : ℕ) (o : Option K)
      → (settle_weak_open dec q o s).inflight ≡ s.inflight
  unfolding settle_weak_open
  settle_weak_kept s q none = refl
  settle_weak_kept s q (some j) = refl

  run_weak_kept :
      (s : WeakFlights K) (os : List (Op K)) (k : K) (p : ℕ)
      → map_get dec s.inflight k ≡ some p
      → map_get dec (run_weak s os).inflight k ≡ some p
  unfolding run_weak step_weak share_weak settle_weak
  run_weak_kept s [] k p h = h
  run_weak_kept s (asks j ∷ os) k p h =
      run_weak_kept (share_weak dec j s).1 os k p
        (share_weak_kept s j k p (map_get dec s.inflight j) refl h)
  run_weak_kept s (settles q ∷ os) k p h =
      run_weak_kept (settle_weak dec q s) os k p
        (ap (λ m. map_get dec m k) (settle_weak_kept s q (map_get ℕ_discrete s.open_calls q)) ∙ h)

  asked_weak :
      (s : WeakFlights K) (k : K)
      → map_get dec (share_weak dec k s).1.inflight k ≡ some (share_weak dec k s).0
  unfolding share_weak share_weak_found
  asked_weak s k = elim (Option-cases (map_get dec s.inflight k)) [
    | inl e ↦ rw e (map_get-set_self dec s.inflight k s.started)
    | inr (p, e) ↦ rw e e
  ]

  -- SingleflightWeakMap answers a key, for as long as the object lives, with the promise that it was
  -- first answered with, whatever settles in between, and never starts another call for it.
  pub share_weak_stale :
      (s : WeakFlights K) (k : K) (os : List (Op K))
      → share_weak dec k (run_weak (share_weak dec k s).1 os)
        ≡ ((share_weak dec k s).0, run_weak (share_weak dec k s).1 os)
  unfolding share_weak share_weak_found
  share_weak_stale s k os =
      rw (run_weak_kept (share_weak dec k s).1 os k (share_weak dec k s).0 (asked_weak s k)) refl
