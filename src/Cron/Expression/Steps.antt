-- ===== src/Cron/Expression/Steps.antt =====
-- The values of a range with a step.
use nope.Prelude.{
  ℕ, zero, suc, ◌+◌, ◌-◌, ◌*◌, ◌≤◌, ◌<◌, ◌≡◌, refl, ap, sym, ◌∙◌, subst, true, false, ◌||◌, List,
  [], ◌∷◌, Option, none, some, ltb, ◌==◌, arith, Bool-cases, inl, inr, ◌↔◌,
}
use nope.Cron.Expression.{
  CronField, is_weekday_field, normalize_field_value, range, between, cons_value, member,
}

-- The number is one of `start`, `start + step`, and so on, not beyond the end.
abbrev pub IsStep : ℕ → ℕ → ℕ → ℕ → Type 0
IsStep start last step v = (k : ℕ) × (v ≡ start + k * step) × (v ≤ last)

some_eq : {A : Type 0} {a b : A} → some a ≡ some b → a ≡ b
some_eq e = cc

normalize_same :
    (v w : ℕ) (f : CronField)
    → is_weekday_field f.name ≡ false
    → normalize_field_value v f ≡ some w
    → v ≡ w
unfolding normalize_field_value
normalize_same v w f d e = ground arith

cons_some :
    (o : Option ℕ) (rest : Option (List ℕ)) (vs : List ℕ)
    → cons_value o rest ≡ some vs
    → (w : ℕ) × (ws : List ℕ) × (o ≡ some w) × (rest ≡ some ws) × (w ∷ ws ≡ vs)
cons_some none rest vs e = cc
cons_some (some w) none vs e = cc
cons_some (some w) (some ws) vs e = (w, ws, refl, refl, some_eq e)

IsStep-none : (i last step v : ℕ) → last < i → (member v [] ≡ true) ↔ IsStep i last step v
IsStep-none i last step v h = (λ e. cc, λ (k, e, l). absurd (omega arith))

step_suc : (i k step : ℕ) → i + suc k * step ≡ i + step + k * step
step_suc i k step = omega arith

step_back :
    (i last step v k : ℕ) (ws : List ℕ)
    → (IsStep (i + step) last step v → member v ws ≡ true)
    → v ≡ i + k * step
    → v ≤ last
    → ((i == v) || member v ws) ≡ true
step_back i last step v zero ws h e l = ground (arith)
step_back i last step v (suc k) ws h e l = ground (arith, h (k, e ∙ step_suc i k step, l))

cons-IsStep :
    (i last step v : ℕ) (ws : List ℕ)
    → i ≤ last
    → (member v ws ≡ true) ↔ IsStep (i + step) last step v
    → (member v (i ∷ ws) ≡ true) ↔ IsStep i last step v
cons-IsStep i last step v ws le rest = (
  λ m. elim (Bool-cases (i == v)) [
    | inl b ↦ (zero, ground arith, ground arith)
    | inr b ↦ let (k, e, l) = rest.0 (rw b at m) in (suc k, e ∙ sym (step_suc i k step), l)
  ],
  λ (k, e, l). step_back i last step v k ws rest.1 e l,
)

range-member :
    (n i last step : ℕ) (f : CronField) (vs : List ℕ) (v : ℕ)
    → is_weekday_field f.name ≡ false
    → 1 ≤ step
    → last < i + n
    → range n i last step f ≡ some vs
    → (member v vs ≡ true) ↔ IsStep i last step v
unfolding range
range-member zero i last step f vs v d p fuel e =
    subst (λ us. (member v us ≡ true) ↔ IsStep i last step v) (some_eq e)
      (IsStep-none i last step v (omega arith))
range-member (suc n) i last step f vs v d p fuel e = elim (Bool-cases (ltb last i)) [
  | inl b ↦
      subst (λ us. (member v us ≡ true) ↔ IsStep i last step v) (some_eq (rw b at e))
        (IsStep-none i last step v (ground arith))
  | inr b ↦
      let (w, ws, q, r, s) =
        cons_some (normalize_field_value i f) (range n (i + step) last step f) vs (rw b at e) in
      let rest = range-member n (i + step) last step f ws v d p (omega arith) r in
      subst (λ us. (member v us ≡ true) ↔ IsStep i last step v)
        (ap (λ u. u ∷ ws) (normalize_same i w f d q) ∙ s)
        (cons-IsStep i last step v ws (ground arith) rest)
]

between-values :
    (start last step : ℕ) (f : CronField) (vs : List ℕ) (v : ℕ)
    → is_weekday_field f.name ≡ false
    → 1 ≤ step
    → between start last step f ≡ some vs
    → (member v vs ≡ true) ↔ IsStep start last step v
between-values start last step f vs v d p e = elim (Bool-cases (ltb last start)) [
  | inl b ↦ absurd (ground (arith, rw b at e))
  | inr b ↦ range-member (suc (last - start)) start last step f vs v d p (ground arith) (rw b at e)
]

normalize_within :
    (v : ℕ) (f : CronField)
    → is_weekday_field f.name ≡ false
    → f.min ≤ v
    → v ≤ f.max
    → normalize_field_value v f ≡ some v
unfolding normalize_field_value
normalize_within v f d l u = ground arith

range_returns :
    (n i last step : ℕ) (f : CronField)
    → is_weekday_field f.name ≡ false
    → f.min ≤ i
    → last ≤ f.max
    → (vs : List ℕ) × (range n i last step f ≡ some vs)
unfolding range
range_returns zero i last step f d l u = ([], refl)
range_returns (suc n) i last step f d l u = elim (Bool-cases (ltb last i)) [
  | inl b ↦ ([], rw b refl)
  | inr b ↦
      let (ws, r) = range_returns n (i + step) last step f d (omega arith) u in
      let q = normalize_within i f d l (ground arith) in (i ∷ ws, rw b (rw q (rw r refl)))
]

-- A range within the bounds of a field other than the day of the week, with a step of at least 1, is
-- not refused: its values are the start and every step from it on up to the end, and no other.
pub between-IsStep :
    (start last step : ℕ) (f : CronField)
    → is_weekday_field f.name ≡ false
    → 1 ≤ step
    → f.min ≤ start
    → start ≤ last
    → last ≤ f.max
    → (vs : List ℕ) × (between start last step f ≡ some vs)
      × ((v : ℕ) → (member v vs ≡ true) ↔ IsStep start last step v)
between-IsStep start last step f d p l m u =
    let (vs, r) = range_returns (suc (last - start)) start last step f d l u in
    let order : ltb last start ≡ false = ground arith in
    let e : between start last step f ≡ some vs = rw order r in
    (vs, e, λ v. between-values start last step f vs v d p e)
