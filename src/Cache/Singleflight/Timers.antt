-- ===== src/Cache/Singleflight/Timers.antt =====
-- `SingleflightWithTimeout`: the timers that run are those of the entries.
use nope.Prelude.{
  ℕ, ◌≡◌, ◌↔◌, refl, Bool-cases, List, [], ◌∷◌, Option, none, some, map_get, map_delete, ℕ_discrete,
  inl, inr, if_pos, if_neg,
}
use nope.Cache.Singleflight.{
  Flights, create, is_call, register, share_timed_found, share_timed, cleanup, cleanup_timed,
  settle_timed_open, settle_timed, fire_running, fire, stop_timers, clear_timed,
}
use nope.Cache.Singleflight.Entries.{
  Backed, Shown, Below, Below-set, Below-delete, Backed-set, Shown-set, Backed-cleaned,
  Shown-cleaned, is_call→some, delete_cases, some_inj,
}

pub data Op (K : Type 0) : Type 0 where
  asks : K → Op K
  settles : ℕ → Op K
  fires : ℕ → Op K
  clears : Op K

module _ {K : Type 0} (dec : Discrete K) where
  unfoldable pub step : Flights K → Op K → Flights K
  unfolding share_timed settle_timed fire clear_timed
  step s (asks k) = (share_timed dec k s).1
  step s (settles p) = settle_timed dec p s
  step s (fires p) = fire dec p s
  step s clears = clear_timed dec s

  unfoldable pub run : Flights K → List (Op K) → Flights K
  unfolding step
  run s [] = s
  run s (o ∷ os) = run (step s o) os

  record Timed (s : Flights K) : Type 0 where
    backed : Backed dec s.inflight s.timers
    shown : Shown dec s.inflight s.timers
    below : Below dec s.timers s.started

  share-Timed :
      (s : Flights K) (k : K) (o : Option ℕ)
      → map_get dec s.inflight k ≡ o
      → Timed s
      → Timed (share_timed_found dec k o s).1
  unfolding share_timed_found register
  share-Timed s k (some p) e h = h
  share-Timed s k none e h = record {
    backed = Backed-set dec s.inflight s.timers k s.started h.below h.backed;
    shown = Shown-set dec s.inflight s.timers k s.started e h.shown;
    below = Below-set dec s.timers s.started k h.below;
  }

  fire-Timed :
      (s : Flights K) (p : ℕ) (o : Option K)
      → map_get ℕ_discrete s.timers p ≡ o
      → Timed s
      → Timed (fire_running dec p o s)
  unfolding fire_running cleanup
  fire-Timed s p none e h = h
  fire-Timed s p (some k) e h =
      let b' = Backed-cleaned dec s.inflight s.timers k p e h.backed in
      let s' = Shown-cleaned dec s.inflight s.timers k p h.shown in
      let l' = Below-delete dec s.timers s.started p h.below in
      elim (Bool-cases (is_call (map_get dec s.inflight k) p)) [
        | inl b ↦ rw b (record { backed = rw b at b'; shown = rw b at s'; below = l' })
        | inr b ↦ rw b (record { backed = rw b at b'; shown = rw b at s'; below = l' })
      ]

  settle-Timed :
      (s : Flights K) (p : ℕ) (o : Option K) → Timed s → Timed (settle_timed_open dec p o s)
  unfolding settle_timed_open cleanup_timed
  settle-Timed s p none h = h
  settle-Timed s p (some k) h = elim (Bool-cases (is_call (map_get dec s.inflight k) p)) [
    | inl b ↦
        let e = h.backed k p (is_call→some (map_get dec s.inflight k) p b) in
        let b' = Backed-cleaned dec s.inflight s.timers k p e h.backed in
        let s' = Shown-cleaned dec s.inflight s.timers k p h.shown in
        let l' = Below-delete dec s.timers s.started p h.below in
        rw b (record { backed = rw b at b'; shown = rw b at s'; below = l' })
    | inr b ↦ rw b (record { backed = h.backed; shown = h.shown; below = h.below })
  ]

  stop_old :
      (es : List (K × ℕ)) (m : List (ℕ × K)) (k : K) (p : ℕ)
      → map_get ℕ_discrete (stop_timers dec es m) p ≡ some k
      → map_get ℕ_discrete m p ≡ some k
  unfolding stop_timers
  stop_old [] m k p h = h
  stop_old ((j, q) ∷ es) m k p h =
      (delete_cases ℕ_discrete m q p k (stop_old es (map_delete ℕ_discrete m q) k p h)).1

  -- The timer of an entry is stopped.
  stopped :
      (es : List (K × ℕ)) (m : List (ℕ × K)) (j k : K) (p : ℕ)
      → map_get dec es j ≡ some p
      → map_get ℕ_discrete (stop_timers dec es m) p ≡ some k
      → ⊥
  unfolding stop_timers
  stopped [] m j k p e h = absurd (cc)
  stopped ((i, q) ∷ es) m j k p e h = elim (dec i j) [
    | yes f ↦
        let g : q ≡ p = some_inj (rw (if_pos (dec i j) f) at e) in
        (delete_cases ℕ_discrete m q p k (stop_old es (map_delete ℕ_discrete m q) k p h)).0 g
    | no n ↦ stopped es (map_delete ℕ_discrete m q) j k p (rw (if_neg (dec i j) n) at e) h
  ]

  clear-Timed : (s : Flights K) → Timed s → Timed (clear_timed dec s)
  unfolding clear_timed
  clear-Timed s h = record {
    backed = λ k p e. absurd (cc);
    shown = λ k p e.
        absurd
          (stopped s.inflight s.timers k k p (h.shown k p (stop_old s.inflight s.timers k p e)) e);
    below = λ k p e. h.below k p (stop_old s.inflight s.timers k p e);
  }

  run-Timed : (s : Flights K) (os : List (Op K)) → Timed s → Timed (run s os)
  unfolding run step share_timed settle_timed fire
  run-Timed s [] h = h
  run-Timed s (asks k ∷ os) h =
      run-Timed (share_timed dec k s).1 os (share-Timed s k (map_get dec s.inflight k) refl h)
  run-Timed s (settles p ∷ os) h =
      run-Timed (settle_timed dec p s) os (settle-Timed s p (map_get ℕ_discrete s.open_calls p) h)
  run-Timed s (fires p ∷ os) h =
      run-Timed (fire dec p s) os (fire-Timed s p (map_get ℕ_discrete s.timers p) refl h)
  run-Timed s (clears ∷ os) h = run-Timed (clear_timed dec s) os (clear-Timed s h)

  -- Whatever is asked, settles, is timed out and cleared, in whatever order: the timers that run are
  -- those of the entries, each set by the call that stands under its key. So no entry is left without
  -- a timer that removes it, and no timer is left behind.
  pub run-timers :
      (os : List (Op K)) (k : K) (p : ℕ)
      → (map_get ℕ_discrete (run create os).timers p ≡ some k)
        ↔ (map_get dec (run create os).inflight k ≡ some p)
  unfolding create
  run-timers os k p =
      let h = run-Timed create os (record {
        backed = λ j q e. absurd (cc);
        shown = λ j q e. absurd (cc);
        below = λ j q e. absurd (cc);
      }) in
      (h.shown k p, h.backed k p)
