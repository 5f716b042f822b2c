-- ===== src/Cron/Store/Order.antt =====
-- The order in which `listDueTriggers` puts triggers.
use nope.Prelude.{
  ℕ, ◌<◌, ◌≡◌, refl, ap, ◌⊎◌, inl, inr, Bool, Bool-cases, true, false, not, if◌then◌else◌, ltb,
  ◌==◌, ==_iff, arith,
}
use nope.Prelude.Integers.{ℤ, pos, negsuc, ◌<ℤ◌}
use nope.Cron.Store.{behind}

-- What is used of the order of `localeCompare`.
pub record LocaleOrder (K : Type 0) : Type 0 where
  pub gt : K → K → Bool
  pub asym : (a b : K) → gt a b ≡ true → gt b a ≡ false
  pub trans : (a b c : K) → gt a b ≡ false → gt b c ≡ false → gt a c ≡ false

module _ {K : Type 0} (locale : LocaleOrder K) where
  pub behind_asym :
      (p q : ℤ) (t u : ℕ) (k j : K)
      → behind locale.gt p t k q u j ≡ true
      → behind locale.gt q u j p t k ≡ false
  unfolding behind
  behind_asym (pos p) (pos q) t u k j h = ground (arith, locale.asym k j)
  behind_asym (pos p) (negsuc q) t u k j h = refl
  behind_asym (negsuc p) (pos q) t u k j h = absurd (cc)
  behind_asym (negsuc p) (negsuc q) t u k j h = ground (arith, locale.asym k j)

  pub behind_trans :
      (p q r : ℤ) (t u v : ℕ) (k j l : K)
      → behind locale.gt p t k q u j ≡ false
      → behind locale.gt q u j r v l ≡ false
      → behind locale.gt p t k r v l ≡ false
  unfolding behind
  behind_trans (pos p) (pos q) (pos r) t u v k j l h g = ground (arith, locale.trans k j l)
  behind_trans (pos p) (pos q) (negsuc r) t u v k j l h g = absurd (cc)
  behind_trans (pos p) (negsuc q) r t u v k j l h g = absurd (cc)
  behind_trans (negsuc p) (pos q) (pos r) t u v k j l h g = refl
  behind_trans (negsuc p) (pos q) (negsuc r) t u v k j l h g = absurd (cc)
  behind_trans (negsuc p) (negsuc q) (pos r) t u v k j l h g = refl
  behind_trans (negsuc p) (negsuc q) (negsuc r) t u v k j l h g = ground (arith, locale.trans k j l)

  -- The smaller priority comes first, then the earlier time, then the id that is not greater.
  abbrev pub First : ℤ → ℕ → K → ℤ → ℕ → K → Type 0
  First p t k q u j =
      ((p <ℤ q) ≡ true) ⊎ ((p ≡ q) × ((t < u) ⊎ ((t ≡ u) × (locale.gt k j ≡ false))))

  not_later :
      (t u : ℕ) (k j : K)
      → (if not (t == u) then ltb u t else locale.gt k j) ≡ false
      → (t < u) ⊎ ((t ≡ u) × (locale.gt k j ≡ false))
  not_later t u k j h = elim (Bool-cases (t == u)) [
    | inl e ↦ inr ((==_iff t u).0 e, rw e at h)
    | inr e ↦ inl (ground (arith, e, h))
  ]

  pub not_behind :
      (p q : ℤ) (t u : ℕ) (k j : K) → behind locale.gt p t k q u j ≡ false → First p t k q u j
  unfolding behind
  not_behind (pos p) (pos q) t u k j h = elim (Bool-cases (p == q)) [
    | inl e ↦ inr (ap pos ((==_iff p q).0 e), not_later t u k j (rw e at h))
    | inr e ↦ inl (ground (arith, e, h))
  ]
  not_behind (pos p) (negsuc q) t u k j h = absurd (cc)
  not_behind (negsuc p) (pos q) t u k j h = inl refl
  not_behind (negsuc p) (negsuc q) t u k j h = elim (Bool-cases (p == q)) [
    | inl e ↦ inr (ap negsuc ((==_iff p q).0 e), not_later t u k j (rw e at h))
    | inr e ↦ inl (ground (arith, e, h))
  ]
