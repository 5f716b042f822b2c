-- ===== src/Cache/FlatCache/Plain.antt =====
-- What a least recently used cache is to do, without slots: a list of keys with their entries, from the
-- least to the most recently used, whose total is counted when it is asked for.
use nope.Prelude.{
  ℕ, ◌+◌, ◌-◌, ◌<◌, ◌≤◌, ◌≡◌, refl, arith, Bool, true, false, List, [], ◌∷◌, ◌++◌, Option, none,
  some, leb, if◌then◌else◌, length, if_elim, if_neg, sum_by, map_get, map_delete,
}
use nope.Cache.Lru.{over}
use nope.Cache.FlatStorage.{past_expiry, past_sliding}
use nope.Cache.FlatStorage.Slots.{Entry}
use nope.Cache.FlatCache.{expiry}

abbrev pub expired : {V : Type 0} → ℕ → Entry V → Bool
expired now e =
    if past_expiry e.expires now then true else past_sliding e.sliding (some e.last_access) now

abbrev pub new_entry : {V : Type 0} → V → ℕ → ℕ → Option ℕ → Option ℕ → Entry V
new_entry v sz now exp sl = record {
  value = some v;
  size = sz;
  last_access = now;
  expires = exp;
  sliding = sl;
}

module _ {K V : Type 0} where
  abbrev pub size_of : K × Entry V → ℕ
  size_of x = x.1.size

  abbrev pub total : List (K × Entry V) → ℕ
  total ps = sum_by size_of ps

  abbrev pub tail : List (K × Entry V) → List (K × Entry V)
  tail [] = []
  tail (x ∷ ps) = ps

  pub length-tail : (ps : List (K × Entry V)) → length (tail ps) ≡ length ps - 1
  length-tail [] = refl
  length-tail (x ∷ ps) = omega arith

  -- The oldest entries are dropped until `sz` more fit, or none is left.
  abbrev pub trim : Option ℕ → ℕ → List (K × Entry V) → List (K × Entry V)
  trim bound sz [] = []
  trim bound sz (x ∷ ps) =
      let rest = trim bound sz ps in if over bound (total (x ∷ ps) + sz) then rest else x ∷ ps

  abbrev pub shorten : ℕ → List (K × Entry V) → List (K × Entry V)
  shorten most ps = if leb most (length ps) then tail ps else ps

  abbrev pub room : ℕ → Option ℕ → ℕ → List (K × Entry V) → List (K × Entry V)
  room most bound sz ps = trim bound sz (shorten most ps)

  pub trim-over :
      (bound : Option ℕ) (sz : ℕ) (ps : List (K × Entry V))
      → over bound (total ps + sz) ≡ true
      → trim bound sz ps ≡ trim bound sz (tail ps)
  trim-over bound sz [] h = refl
  trim-over bound sz (x ∷ ps) h = rw h refl

  pub trim-kept :
      (bound : Option ℕ) (sz : ℕ) (ps : List (K × Entry V))
      → over bound (total ps + sz) ≡ false
      → trim bound sz ps ≡ ps
  trim-kept bound sz [] h = refl
  trim-kept bound sz (x ∷ ps) h = rw h refl

  length-trim-le :
      (bound : Option ℕ) (sz : ℕ) (ps : List (K × Entry V)) → length (trim bound sz ps) ≤ length ps
  length-trim-le bound sz [] = omega arith
  length-trim-le bound sz (x ∷ ps) = ground (arith, length-trim-le bound sz ps)

  length-shorten-lt :
      (most : ℕ) (ps : List (K × Entry V))
      → 0 < most
      → length ps ≤ most
      → length (shorten most ps) < most
  length-shorten-lt most [] p h = ground arith
  length-shorten-lt most (x ∷ ps) p h = ground arith

  pub length-room-lt :
      (most : ℕ) (bound : Option ℕ) (sz : ℕ) (ps : List (K × Entry V))
      → 0 < most
      → length ps ≤ most
      → length (room most bound sz ps) < most
  length-room-lt most bound sz ps p h =
      omega (arith, length-trim-le bound sz (shorten most ps), length-shorten-lt most ps p h)

module _ {K V : Type 0} (dec : Discrete K) where
  abbrev pub renew : K → Entry V → List (K × Entry V) → List (K × Entry V)
  renew k e ps = map_delete dec ps k ++ (k, e) ∷ []

  abbrev pub get_found :
      ℕ → K → Option (Entry V) → List (K × Entry V) → Option V × List (K × Entry V)
  get_found now k none ps = (none, ps)
  get_found now k (some e) ps =
      if expired now e
      then (none, map_delete dec ps k)
      else (e.value, renew k (record e { last_access = now }) ps)

  abbrev pub set_found :
      ℕ → Option ℕ → ℕ → K → Entry V → Option (Entry V) → List (K × Entry V) → List (K × Entry V)
  set_found most bound sz k e (some old) ps = renew k e ps
  set_found most bound sz k e none ps = room most bound sz ps ++ (k, e) ∷ []

  abbrev pub has_found : ℕ → K → Option (Entry V) → List (K × Entry V) → Bool × List (K × Entry V)
  has_found now k none ps = (false, ps)
  has_found now k (some e) ps = if expired now e then (false, map_delete dec ps k) else (true, ps)

  pub get_none-room :
      (most : ℕ) (bound : Option ℕ) (sz : ℕ) (ps : List (K × Entry V)) (k : K)
      → map_get dec ps k ≡ none
      → map_get dec (room most bound sz ps) k ≡ none
  get_none-room most bound sz ps k h = get_none-trim (shorten most ps) (
      if_elim (λ qs. map_get dec qs k ≡ none) (leb most (length ps)) (λ b. get_none-tail ps h)
        (λ b. h))
    where
      get_none-tail :
          (ps : List (K × Entry V)) → map_get dec ps k ≡ none → map_get dec (tail ps) k ≡ none
      get_none-tail [] h = h
      get_none-tail ((j, e) ∷ ps) h = elim (dec j k) [
        | yes p ↦ absurd (ground (arith, h))
        | no n ↦ rw (if_neg (dec j k) n) at h
      ]

      get_none-trim :
          (ps : List (K × Entry V))
          → map_get dec ps k ≡ none
          → map_get dec (trim bound sz ps) k ≡ none
      get_none-trim [] h = h
      get_none-trim (x ∷ ps) h =
          if_elim (λ qs. map_get dec qs k ≡ none) (over bound (total (x ∷ ps) + sz))
            (λ b. get_none-trim ps (get_none-tail (x ∷ ps) h)) (λ b. h)

-- The operations that a client calls, and a history of them.
pub data Op (K V : Type 0) : Type 0 where
  gets : ℕ → K → Op K V
  sets : ℕ → K → V → ℕ → Option ℕ → Option ℕ → Op K V
  asks : ℕ → K → Op K V
  deletes : K → Op K V
  clears : Op K V

pub data Answer (V : Type 0) : Type 0 where
  got : Option V → Answer V
  took : Bool → Answer V
  had : Bool → Answer V
  done : Answer V

module _ {K V : Type 0} (dec : Discrete K) (most : ℕ) (bound : Option ℕ) where
  unfoldable pub step : List (K × Entry V) → Op K V → Answer V × List (K × Entry V)
  step ps (gets now k) = let q = get_found dec now k (map_get dec ps k) ps in (got q.0, q.1)
  step ps (sets now k v sz ttl sl) = (
    took true,
    set_found dec most bound sz k (new_entry v sz now (expiry now ttl) sl) (map_get dec ps k) ps,
  )
  step ps (asks now k) = let q = has_found dec now k (map_get dec ps k) ps in (had q.0, q.1)
  step ps (deletes k) = (done, map_delete dec ps k)
  step ps clears = (done, [])

  unfoldable pub run : List (K × Entry V) → List (Op K V) → List (Answer V) × List (K × Entry V)
  unfolding step
  run ps [] = ([], ps)
  run ps (o ∷ os) = let q = step ps o in let rest = run q.1 os in (q.0 ∷ rest.0, rest.1)
