-- ===== src/Cron/Calendars/Meaning.antt =====
-- The keys and the patterns of a calendar mean the same: which days its entries cover.
pub mod Filters
use nope.Prelude.{
  ℕ, zero, suc, ◌+◌, ◌-◌, ◌*◌, ◌/◌, ◌%◌, ◌≤◌, ◌<◌, ◌≡◌, refl, sym, ap, ◌∙◌, subst, Bool, true,
  false, not, ◌&&◌, ◌||◌, List, [], ◌∷◌, ◌++◌, Option, none, some, ltb, leb, ◌==◌, if◌then◌else◌,
  Text, text_eq, split_on, text_dec, arith, inl, inr, Bool-cases,
}
use nope.Cron.CronPlan.{TimeFields, some_of}
use nope.Cron.Calendars.{
  Pattern, Entry, by_key, by_pattern, is_digit, is_year, is_pair, number, part_value, beyond,
  entry_of, entry_in, digits, to_text, pad, date_key, agrees, matches_pattern,
}

abbrev four : ℕ → Text
four y = (48 + y / 10 / 10 / 10) ∷ (48 + y / 10 / 10 % 10) ∷ (48 + y / 10 % 10) ∷ (48 + y % 10) ∷ []

abbrev two : ℕ → Text
two n = (48 + n / 10) ∷ (48 + n % 10) ∷ []

digits-four : (k y : ℕ) → 1000 ≤ y → y < 10000 → digits (suc (suc (suc (suc k)))) y ≡ four y
digits-four k y l h =
    let a : ltb y 10 ≡ false = ground arith in
    let b0 : 10 ≤ y / 10 = omega arith in
    let b : ltb (y / 10) 10 ≡ false = ground (arith, b0) in
    let c0 : 10 ≤ y / 10 / 10 = omega arith in
    let c : ltb (y / 10 / 10) 10 ≡ false = ground (arith, c0) in
    let d0 : y / 10 / 10 / 10 < 10 = omega arith in
    let d : ltb (y / 10 / 10 / 10) 10 ≡ true = ground (arith, d0) in rw (a, b, c, d) refl

to_text-four : (y : ℕ) → 1000 ≤ y → y < 10000 → to_text y ≡ four y
to_text-four (suc (suc (suc k))) l h = digits-four k (suc (suc (suc k))) l h
to_text-four zero l h = absurd (omega arith)
to_text-four (suc zero) l h = absurd (omega arith)
to_text-four (suc (suc zero)) l h = absurd (omega arith)

pad_small : (n : ℕ) → n < 10 → pad (to_text n) ≡ two n
pad_small n h =
    let a : ltb n 10 ≡ true = ground arith in
    let b : n / 10 ≡ 0 = omega arith in let c : n % 10 ≡ n = omega arith in rw (a, b, c) refl

pad_large : (k n : ℕ) → 10 ≤ n → n < 100 → digits (suc (suc k)) n ≡ two n
pad_large k n l h =
    let a : ltb n 10 ≡ false = ground arith in
    let b0 : n / 10 < 10 = omega arith in
    let b : ltb (n / 10) 10 ≡ true = ground (arith, b0) in rw (a, b) refl

pad-two : (n : ℕ) → n < 100 → pad (to_text n) ≡ two n
pad-two zero h = pad_small 0 (omega arith)
pad-two (suc k) h = elim (Bool-cases (ltb (suc k) 10)) [
  | inl b ↦ pad_small (suc k) (ground (arith, b))
  | inr b ↦ ap pad (pad_large k (suc k) (ground (arith, b)) h)
]

-- The last digit, and the number before it.
last_digit :
    (m c n : ℕ)
    → is_digit c ≡ true
    → ((m * 10 + (c - 48)) == n) ≡ ((m == n / 10) && (c == (48 + n % 10)))
last_digit m c n e = ground arith

first_digit : (c n : ℕ) → is_digit c ≡ true → n < 10 → ((0 * 10 + (c - 48)) == n) ≡ (c == (48 + n))
first_digit c n e h = ground arith

both : (p q : Bool) → (p && q) ≡ true → (p ≡ true) × (q ≡ true)
both true q e = (refl, e)
both false q e = absurd (cc)

regroup : (p q r s : Bool) → (((p && q) && r) && s) ≡ (p && (q && (r && s)))
regroup true q r s = regroup_rest q r s
  where
    regroup_rest : (q r s : Bool) → ((q && r) && s) ≡ (q && (r && s))
    regroup_rest true r s = refl
    regroup_rest false r s = refl
regroup false q r s = refl

year_digits :
    (a b c d y : ℕ)
    → (is_digit a && (is_digit b && (is_digit c && is_digit d))) ≡ true
    → y < 10000
    → (number 0 (a ∷ b ∷ c ∷ d ∷ []) == y) ≡ (
        (a == (48 + y / 10 / 10 / 10))
        && ((b == (48 + y / 10 / 10 % 10)) && ((c == (48 + y / 10 % 10)) && (d == (48 + y % 10)))))
year_digits a b c d y e h =
    let (ea, e1) = both (is_digit a) (is_digit b && (is_digit c && is_digit d)) e in
    let (eb, e2) = both (is_digit b) (is_digit c && is_digit d) e1 in
    let (ec, ed) = both (is_digit c) (is_digit d) e2 in
    let n1 = 0 * 10 + (a - 48) in
    let n2 = n1 * 10 + (b - 48) in
    let n3 = n2 * 10 + (c - 48) in
    last_digit n3 d y ed
    ∙ ap (λ x. x && (d == (48 + y % 10)))
        (last_digit n2 c (y / 10) ec
          ∙ ap (λ x. x && (c == (48 + y / 10 % 10)))
              (last_digit n1 b (y / 10 / 10) eb
                ∙ ap (λ x. x && (b == (48 + y / 10 / 10 % 10)))
                    (first_digit a (y / 10 / 10 / 10) ea (omega arith))))
    ∙ regroup (a == (48 + y / 10 / 10 / 10)) (b == (48 + y / 10 / 10 % 10))
        (c == (48 + y / 10 % 10)) (d == (48 + y % 10))

pair_digits :
    (a b n : ℕ)
    → (is_digit a && is_digit b) ≡ true
    → n < 100
    → (number 0 (a ∷ b ∷ []) == n) ≡ ((a == (48 + n / 10)) && (b == (48 + n % 10)))
pair_digits a b n e h = ground arith

-- Fields that a date of a year of four digits has.
pub record Dated (f : TimeFields) : Type 0 where
  pub year_from : 1000 ≤ f.year
  pub year_to : f.year < 10000
  pub month_to : f.month < 100
  pub day_to : f.day < 100

date_key_lem :
    (f : TimeFields) → Dated f → date_key f ≡ four f.year ++ 45 ∷ two f.month ++ 45 ∷ two f.day
unfolding date_key
date_key_lem f h =
    rw
      (
        to_text-four f.year h.year_from h.year_to,
        pad-two f.month h.month_to,
        pad-two f.day h.day_to,
      )
      refl

spread :
    (p q r s t u v w : Bool)
    → (p && (q && (r && (s && (t && (u && (v && (w && true))))))))
      ≡ ((p && (q && (r && s))) && ((t && u) && (v && w)))
spread false q r s t u v w = refl
spread true false r s t u v w = refl
spread true true false s t u v w = refl
spread true true true false t u v w = refl
spread true true true true false u v w = refl
spread true true true true true false v w = refl
spread true true true true true true false w = refl
spread true true true true true true true false = refl
spread true true true true true true true true = refl

-- A key is that of a date where its numbers are the date's.
pub key_agrees :
    (f : TimeFields) (a b c d e g h i : ℕ)
    → Dated f
    → is_year (a ∷ b ∷ c ∷ d ∷ []) ≡ true
    → is_pair (e ∷ g ∷ []) ≡ true
    → is_pair (h ∷ i ∷ []) ≡ true
    → text_eq (a ∷ b ∷ c ∷ d ∷ 45 ∷ e ∷ g ∷ 45 ∷ h ∷ i ∷ []) (date_key f) ≡ (
        (number 0 (a ∷ b ∷ c ∷ d ∷ []) == f.year)
        && ((number 0 (e ∷ g ∷ []) == f.month) && (number 0 (h ∷ i ∷ []) == f.day)))
key_agrees f a b c d e g h i k y m n =
    rw
      (
        date_key_lem f k,
        year_digits a b c d f.year y k.year_to,
        pair_digits e g f.month m k.month_to,
        pair_digits h i f.day n k.day_to,
      )
      (spread (a == (48 + f.year / 10 / 10 / 10)) (b == (48 + f.year / 10 / 10 % 10))
        (c == (48 + f.year / 10 % 10)) (d == (48 + f.year % 10)) (e == (48 + f.month / 10))
        (g == (48 + f.month % 10)) (h == (48 + f.day / 10)) (i == (48 + f.day % 10)))

-- Whether an entry covers a date: each of its parts that is not * is the date's number.
abbrev pub covers_parts : TimeFields → List Text → Bool
covers_parts f (y ∷ m ∷ d ∷ []) =
    agrees (part_value y) f.year && (agrees (part_value m) f.month && agrees (part_value d) f.day)
covers_parts f ts = false

abbrev pub covers : TimeFields → Text → Bool
covers f t = covers_parts f (split_on 45 t)

abbrev pub matches_entry : TimeFields → Entry → Bool
matches_entry f (by_key k) = text_eq k (date_key f)
matches_entry f (by_pattern p) = matches_pattern f p
