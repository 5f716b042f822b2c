-- ===== src/Cron/Expression/Bounds.antt =====
-- The numbers of a parsed expression lie within the bounds of their fields.
use nope.Prelude.{
  ℕ, zero, suc, ◌+◌, ◌-◌, ◌≤◌, ◌≡◌, refl, Bool, true, false, List, [], ◌∷◌, ◌++◌, Option, none,
  some, ltb, if◌then◌else◌, All, arith, Bool-cases, inl, inr, Text, text, text_eq,
}
use nope.Prelude.Sort.{All-sort}
use nope.Cron.CronPlan.{StandardField}
use nope.Cron.Expression.{
  FieldName, field_of, seconds, minutes, hours, day_of_month, month, day_of_week, year, and_then,
  cons_value, single, map_matcher, member, add_all, range_part, expand_range, normalize_field_value,
  range, expand_token, expand_all, parse_standard_field, sorted_values, is_day_field,
}
use nope.Prelude.{split_on, has_char}

-- The values that a field may have: its bounds, and 0 in place of 7 for a day of the week.
abbrev pub Allowed : FieldName → ℕ → Type 0
Allowed day_of_week v = v ≤ 6
Allowed seconds v = v ≤ 59
Allowed minutes v = v ≤ 59
Allowed hours v = v ≤ 23
Allowed day_of_month v = (1 ≤ v) × (v ≤ 31)
Allowed month v = (1 ≤ v) × (v ≤ 12)
Allowed year v = (1970 ≤ v) × (v ≤ 2099)

abbrev pub AllAllowed : FieldName → List ℕ → Type 0
AllAllowed n = All (Allowed n)

-- A property of a result, where there is one.
abbrev pub Every : {A : Type 0} → (A → Type 0) → Option A → Type 0
Every P none = Unit
Every P (some a) = P a

pub and_then-Every :
    {A B : Type 0} (P : A → Type 0) (Q : B → Type 0) (o : Option A) (f : A → Option B)
    → Every P o
    → ((a : A) → P a → Every Q (f a))
    → Every Q (and_then o f)
unfolding and_then
and_then-Every P Q none f h k = tt
and_then-Every P Q (some a) f h k = k a h

pub map_matcher-Every :
    {A B : Type 0} (P : A → Type 0) (Q : B → Type 0) (f : A → B) (o : Option A)
    → Every P o
    → ((a : A) → P a → Q (f a))
    → Every Q (map_matcher f o)
unfolding map_matcher
map_matcher-Every P Q f none h k = tt
map_matcher-Every P Q f (some a) h k = k a h

pub and_then-any :
    {A B : Type 0} (Q : B → Type 0) (o : Option A) (f : A → Option B)
    → ((a : A) → Every Q (f a))
    → Every Q (and_then o f)
unfolding and_then
and_then-any Q none f k = tt
and_then-any Q (some a) f k = k a

pub cases_Every :
    {A : Type 0} (P : A → Type 0) (o : Option A) → ((a : A) → o ≡ some a → P a) → Every P o
cases_Every P none h = tt
cases_Every P (some a) h = h a refl

-- Both branches of a conditional.
pub if_Every :
    {A : Type 0} (P : A → Type 0) (b : Bool) (x y : Option A)
    → (b ≡ true → Every P x)
    → (b ≡ false → Every P y)
    → Every P (if b then x else y)
if_Every P true x y h k = h refl
if_Every P false x y h k = k refl

normalize_Allowed :
    (n : FieldName) (v w : ℕ) → normalize_field_value v (field_of n) ≡ some w → Allowed n w
unfolding normalize_field_value
normalize_Allowed seconds v w e = ground arith
normalize_Allowed minutes v w e = ground arith
normalize_Allowed hours v w e = ground arith
normalize_Allowed day_of_month v w e = ground arith
normalize_Allowed month v w e = ground arith
normalize_Allowed day_of_week v w e = ground arith
normalize_Allowed year v w e = ground arith

pub normalize_Every :
    (n : FieldName) (v : ℕ) → Every (Allowed n) (normalize_field_value v (field_of n))
normalize_Every n v = cases_Every (Allowed n) _ (normalize_Allowed n v)

cons_value-Every :
    (P : ℕ → Type 0) (o : Option ℕ) (rest : Option (List ℕ))
    → Every P o
    → Every (All P) rest
    → Every (All P) (cons_value o rest)
cons_value-Every P none rest h k = tt
cons_value-Every P (some v) none h k = tt
cons_value-Every P (some v) (some ws) h k = (h, k)

single-Every : (P : ℕ → Type 0) (o : Option ℕ) → Every P o → Every (All P) (single o)
single-Every P none h = tt
single-Every P (some v) h = (h, tt)

range_Allowed :
    (n : FieldName) (k i last step : ℕ) → Every (AllAllowed n) (range k i last step (field_of n))
unfolding range
range_Allowed n zero i last step = tt
range_Allowed n (suc k) i last step =
    if_Every (AllAllowed n) (ltb last i) (some []) _ (λ b. tt)
      (λ b.
        cons_value-Every (Allowed n) _ _ (normalize_Every n i)
          (range_Allowed n k (i + step) last step))

pub append_All : (P : ℕ → Type 0) (xs : List ℕ) (y : ℕ) → All P xs → P y → All P (xs ++ y ∷ [])
append_All P [] y h p = (p, tt)
append_All P (x ∷ xs) y h p = (h.0, append_All P xs y h.1 p)

pub add_all-All : (P : ℕ → Type 0) (ns ms : List ℕ) → All P ns → All P ms → All P (add_all ns ms)
add_all-All P ns [] h k = h
add_all-All P ns (m ∷ ms) h k = elim (Bool-cases (member m ns)) [
  | inl b ↦ rw b (add_all-All P ns ms h k.1)
  | inr b ↦ rw b (add_all-All P (ns ++ m ∷ []) ms (append_All P ns m h k.0) k.1)
]

-- A standard field is a wildcard, or its values are allowed.
abbrev pub FieldAllowed : FieldName → StandardField → Type 0
FieldAllowed n StandardField.wildcard = Unit
FieldAllowed n (StandardField.values vs) = AllAllowed n vs

sorted_Allowed :
    (n : FieldName) (o : Option (List ℕ))
    → Every (AllAllowed n) o
    → Every (FieldAllowed n) (sorted_values o)
sorted_Allowed n none h = tt
sorted_Allowed n (some vs) h = All-sort (λ a b. ltb b a) (Allowed n) vs h

module _ (number : Text → Option ℕ) where
  expand_range_Allowed :
      (n : FieldName) (r : Text) (step : ℕ)
      → Every (AllAllowed n) (expand_range number r step (field_of n))
  expand_range_Allowed n r step =
      if_Every (AllAllowed n) (text_eq r (text "*")) _ _ (λ b. range_Allowed n _ _ _ step)
        (λ b.
          if_Every (AllAllowed n) (has_char b'-' r) _ _
            (λ c. and_then-any (AllAllowed n) _ _ (λ start. and_then-any (AllAllowed n) _ _ (λ last.
              if_Every (AllAllowed n) (ltb last start) none _ (λ d. tt)
                (λ d. range_Allowed n (suc (last - start)) start last step))))
            (λ c.
              and_then-any (AllAllowed n) _ _
                (λ v. single-Every (Allowed n) _ (normalize_Every n v))))

  pub expand_token_Allowed :
      (n : FieldName) (t : Text) → Every (AllAllowed n) (expand_token number t (field_of n))
  unfolding expand_token
  expand_token_Allowed n t =
      and_then-any (AllAllowed n) _ _ (λ step. expand_range_Allowed n (range_part t) step)

  expand_all_Allowed :
      (n : FieldName) (ts : List Text) (ns : List ℕ)
      → AllAllowed n ns
      → Every (AllAllowed n) (expand_all number ts (field_of n) ns)
  unfolding expand_all
  expand_all_Allowed n [] ns h = h
  expand_all_Allowed n (t ∷ ts) ns h =
      and_then-Every (AllAllowed n) (AllAllowed n) _ _ (expand_token_Allowed n t)
        (λ ws k. expand_all_Allowed n ts (add_all ns ws) (add_all-All (Allowed n) ns ws h k))

  pub parse_standard_field_Allowed :
      (n : FieldName) (value : Text)
      → Every (FieldAllowed n) (parse_standard_field number value (field_of n))
  unfolding parse_standard_field
  parse_standard_field_Allowed n value =
      if_Every (FieldAllowed n) (text_eq value (text "*")) (some StandardField.wildcard) _ (λ b. tt)
        (λ b.
          if_Every (FieldAllowed n) (text_eq value (text "?")) _ _
            (λ c.
              if_Every (FieldAllowed n) (is_day_field (field_of n).name)
                (some StandardField.wildcard) none (λ d. tt) (λ d. tt))
            (λ c. sorted_Allowed n _ (expand_all_Allowed n (split_on b',' value) [] tt)))
