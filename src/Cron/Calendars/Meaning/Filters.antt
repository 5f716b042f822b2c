-- ===== src/Cron/Calendars/Meaning/Filters.antt =====
-- Which dates a filter accepts.
use nope.Prelude.{
  ◌≡◌, refl, sym, ap, ◌∙◌, subst, Bool, true, false, not, ◌&&◌, ◌||◌, List, [], ◌∷◌, ◌++◌, none,
  some, Text, text_eq, text_eq_iff, split_on, text_dec, arith, inl, inr, Bool-cases, Option-cases,
  if_pos, if_neg, append-nil, append_assoc,
}
use nope.Prelude.Sets.{has, add}
use nope.Cron.CronPlan.{TimeFields, some_of}
use nope.Cron.Calendars.{
  Rule, Pattern, Entry, by_key, by_pattern, Days, Filter, everything, filtered, is_year, is_pair,
  part_value, beyond, entry_of, entry_in, normalize_entry, date_key, matches_pattern, add_entry,
  add_all, listed, add_rules, no_days, create_calendar_filter, no_entries, on_days, accepts,
}
use nope.Cron.Calendars.Meaning.{Dated, covers, covers_parts, matches_entry, key_agrees}

abbrev pub includes_of : List Rule → List Text
includes_of [] = []
includes_of (r ∷ rs) = listed r.include ++ includes_of rs

abbrev pub excludes_of : List Rule → List Text
excludes_of [] = []
excludes_of (r ∷ rs) = listed r.exclude ++ excludes_of rs

abbrev pub is_empty : List Text → Bool
is_empty [] = true
is_empty (t ∷ ts) = false

some_of-concat :
    {A : Type 0} (p : A → Bool) (xs : List A) (x : A)
    → some_of p (xs ++ x ∷ []) ≡ (some_of p xs || p x)
some_of-concat p [] x = ground arith
some_of-concat p (y ∷ xs) x = let r = some_of-concat p xs x in ground arith

has-concat_eq :
    (ks : List Text) (k q : Text)
    → has text_dec (ks ++ k ∷ []) q ≡ (has text_dec ks q || text_eq k q)
has-concat_eq [] k q = elim (text_dec k q) [
  | yes e ↦ if_pos (text_dec k q) e true false ∙ sym ((text_eq_iff k q).1 e)
  | no n ↦ elim (Bool-cases (text_eq k q)) [
    | inl b ↦ absurd (n ((text_eq_iff k q).0 b))
    | inr b ↦ if_neg (text_dec k q) n true false ∙ sym b
  ]
]
has-concat_eq (j ∷ ks) k q = elim (text_dec j q) [
  | yes e ↦ rw (if_pos (text_dec j q) e, if_pos (text_dec j q) e) refl
  | no n ↦ rw (if_neg (text_dec j q) n, if_neg (text_dec j q) n) (has-concat_eq ks k q)
]

has-add :
    (ks : List Text) (k q : Text)
    → has text_dec (add text_dec ks k) q ≡ (has text_dec ks q || text_eq k q)
has-add ks k q = elim (Bool-cases (has text_dec ks k)) [
  | inl b ↦ elim (Bool-cases (text_eq k q)) [
    | inl e ↦
        let h : has text_dec ks q ≡ true = ap (has text_dec ks) (sym ((text_eq_iff k q).0 e)) ∙ b in
        rw (b, h) refl
    | inr e ↦ rw (b, e) (or_false (has text_dec ks q))
  ]
  | inr b ↦ rw b (has-concat_eq ks k q)
]
  where
    or_false : (x : Bool) → x ≡ (x || false)
    or_false true = refl
    or_false false = refl

keys_present :
    (ks : List Text) (k : Text) (ps : List Pattern) → no_entries (add text_dec ks k) ps ≡ false
keys_present [] k ps = refl
keys_present (j ∷ ks) k ps = elim (Bool-cases (has text_dec (j ∷ ks) k)) [
  | inl b ↦ rw b refl
  | inr b ↦ rw b refl
]

patterns_present :
    (ks : List Text) (ps : List Pattern) (p : Pattern) → no_entries ks (ps ++ p ∷ []) ≡ false
patterns_present [] [] p = refl
patterns_present [] (q ∷ ps) p = refl
patterns_present (k ∷ ks) ps p = refl

present : (ts : List Text) (t : Text) → is_empty (ts ++ t ∷ []) ≡ false
present [] t = refl
present (s ∷ ts) t = refl

abbrev pub accepted : TimeFields → List Text → List Text → Bool
accepted f us vs = not (some_of (covers f) vs) && (is_empty us || some_of (covers f) us)

module _ (f : TimeFields) (dated : Dated f) where
  parts_agree :
      (y m d : Text)
      → is_year y ≡ true
      → is_pair m ≡ true
      → is_pair d ≡ true
      → matches_entry f (entry_of y m d (part_value y) (part_value m) (part_value d))
        ≡ covers_parts f (y ∷ m ∷ d ∷ [])
  unfolding matches_pattern
  parts_agree [] m d a b c = absurd (cc)
  parts_agree (y ∷ []) m d a b c = refl
  parts_agree (y1 ∷ y2 ∷ []) m d a b c = absurd (cc)
  parts_agree (y1 ∷ y2 ∷ y3 ∷ []) m d a b c = absurd (cc)
  parts_agree (y1 ∷ y2 ∷ y3 ∷ y4 ∷ y5 ∷ y) m d a b c = absurd (cc)
  parts_agree (y1 ∷ y2 ∷ y3 ∷ y4 ∷ []) [] d a b c = absurd (cc)
  parts_agree (y1 ∷ y2 ∷ y3 ∷ y4 ∷ []) (m ∷ []) d a b c = refl
  parts_agree (y1 ∷ y2 ∷ y3 ∷ y4 ∷ []) (m1 ∷ m2 ∷ m3 ∷ m) d a b c = absurd (cc)
  parts_agree (y1 ∷ y2 ∷ y3 ∷ y4 ∷ []) (m1 ∷ m2 ∷ []) [] a b c = absurd (cc)
  parts_agree (y1 ∷ y2 ∷ y3 ∷ y4 ∷ []) (m1 ∷ m2 ∷ []) (d ∷ []) a b c = refl
  parts_agree (y1 ∷ y2 ∷ y3 ∷ y4 ∷ []) (m1 ∷ m2 ∷ []) (d1 ∷ d2 ∷ d3 ∷ d) a b c = absurd (cc)
  parts_agree (y1 ∷ y2 ∷ y3 ∷ y4 ∷ []) (m1 ∷ m2 ∷ []) (d1 ∷ d2 ∷ []) a b c =
      key_agrees f y1 y2 y3 y4 m1 m2 d1 d2 dated a b c

  entry_agrees :
      (ts : List Text) (e : Entry) → entry_in ts ≡ some e → matches_entry f e ≡ covers_parts f ts
  entry_agrees [] e h = absurd (cc)
  entry_agrees (y ∷ []) e h = absurd (cc)
  entry_agrees (y ∷ m ∷ []) e h = absurd (cc)
  entry_agrees (y ∷ m ∷ d ∷ x ∷ ts) e h = absurd (cc)
  entry_agrees (y ∷ m ∷ d ∷ []) e h = elim (Bool-cases (is_year y)) [
    | inr a ↦ let g : none ≡ some e = rw a at h in absurd (cc)
    | inl a ↦ elim (Bool-cases (is_pair m)) [
      | inr b ↦ let g : none ≡ some e = rw (a, b) at h in absurd (cc)
      | inl b ↦ elim (Bool-cases (is_pair d)) [
        | inr c ↦ let g : none ≡ some e = rw (a, b, c) at h in absurd (cc)
        | inl c ↦ elim (Bool-cases (beyond (part_value m) 12 || beyond (part_value d) 31)) [
          | inl o ↦ let g : none ≡ some e = rw (a, b, c, o) at h in absurd (cc)
          | inr o ↦
              let g : some (entry_of y m d (part_value y) (part_value m) (part_value d)) ≡ some e =
                rw (a, b, c, o) at h in
              let i : e ≡ entry_of y m d (part_value y) (part_value m) (part_value d) = cc in
              ap (matches_entry f) i ∙ parts_agree y m d a b c
        ]
      ]
    ]
  ]

  normal : (t : Text) (e : Entry) → normalize_entry t ≡ some e → matches_entry f e ≡ covers f t
  unfolding normalize_entry
  normal t e h = entry_agrees (split_on 45 t) e h

  -- The days that were collected from the entries.
  record Collected (d : Days) (ts : List Text) : Type 0 where
    on : on_days f d ≡ some_of (covers f) ts
    present_if : no_entries d.keys d.patterns ≡ is_empty ts

  add_entry-Collected :
      (d : Days) (ts : List Text) (t : Text) (e : Entry)
      → matches_entry f e ≡ covers f t
      → Collected d ts
      → Collected (add_entry d e) (ts ++ t ∷ [])
  unfolding on_days
  add_entry-Collected d ts t (by_key k) m h = record {
    on =
        let a = has-add d.keys k (date_key f) in
        let b = some_of-concat (covers f) ts t in let c = h.on in ground (arith, a, b, c, m);
    present_if = keys_present d.keys k d.patterns ∙ sym (present ts t);
  }
  add_entry-Collected d ts t (by_pattern p) m h = record {
    on =
        let a = some_of-concat (matches_pattern f) d.patterns p in
        let b = some_of-concat (covers f) ts t in let c = h.on in ground (arith, a, b, c, m);
    present_if = patterns_present d.keys d.patterns p ∙ sym (present ts t);
  }

  add_all-Collected :
      (ts us : List Text) (d d' : Days)
      → add_all ts d ≡ some d'
      → Collected d us
      → Collected d' (us ++ ts)
  unfolding add_all
  add_all-Collected [] us d d' e h =
      let same : d ≡ d' = cc in rw (append-nil us) (subst (λ x. Collected x us) same h)
  add_all-Collected (t ∷ ts) us d d' e h = elim (Option-cases (normalize_entry t)) [
    | inl n ↦ let g : none ≡ some d' = rw (add_all, n) at e in absurd (cc)
    | inr (x, n) ↦
        let g : add_all ts (add_entry d x) ≡ some d' = rw (add_all, n) at e in
        rw (← append_assoc us (t ∷ []) ts) (
          add_all-Collected ts (us ++ t ∷ []) (add_entry d x) d' g
            (add_entry-Collected d us t x (normal t x n) h))
  ]

  filtered-accepts :
      (is es : Days) (us vs : List Text)
      → Collected is us
      → Collected es vs
      → accepts (filtered is es) f ≡ accepted f us vs
  unfolding accepts
  filtered-accepts is es us vs h g =
      let a = h.on in let b = h.present_if in let c = g.on in ground (arith, a, b, c)

  add_rules-accepts :
      (rs : List Rule) (is es : Days) (us vs : List Text) (filter : Filter)
      → add_rules rs is es ≡ some filter
      → Collected is us
      → Collected es vs
      → accepts filter f ≡ accepted f (us ++ includes_of rs) (vs ++ excludes_of rs)
  unfolding add_rules
  add_rules-accepts [] is es us vs filter e h g =
      let same : filter ≡ filtered is es = cc in
      rw (append-nil us, append-nil vs)
        (ap (λ x. accepts x f) same ∙ filtered-accepts is es us vs h g)
  add_rules-accepts (r ∷ rs) is es us vs filter e h g =
      elim (Option-cases (add_all (listed r.include) is)) [
        | inl n ↦ let k : none ≡ some filter = rw (add_rules, n) at e in absurd (cc)
        | inr (is', n) ↦ elim (Option-cases (add_all (listed r.exclude) es)) [
          | inl m ↦ let k : none ≡ some filter = rw (add_rules, n, m) at e in absurd (cc)
          | inr (es', m) ↦
              let k : add_rules rs is' es' ≡ some filter = rw (add_rules, n, m) at e in
              rw
                (
                  ← append_assoc us (listed r.include) (includes_of rs),
                  ← append_assoc vs (listed r.exclude) (excludes_of rs),
                )
                (add_rules-accepts rs is' es' (us ++ listed r.include) (vs ++ listed r.exclude)
                  filter k (add_all-Collected (listed r.include) us is is' n h)
                  (add_all-Collected (listed r.exclude) vs es es' m g))
        ]
      ]

  no_days-Collected : Collected no_days []
  unfolding on_days
  no_days-Collected = record { on = refl; present_if = refl }

-- A filter that is made of rules accepts a date of a year of four digits where no entry that excludes
-- covers it, and some entry that includes does, or there is none that includes; an entry covers a date
-- where each of its parts that is not * is the date's number.
pub create_calendar_filter-accepts :
    (f : TimeFields) (rules : List Rule) (filter : Filter)
    → Dated f
    → create_calendar_filter (some rules) ≡ some filter
    → accepts filter f ≡ accepted f (includes_of rules) (excludes_of rules)
unfolding create_calendar_filter accepts
create_calendar_filter-accepts f [] filter d e =
    let same : filter ≡ everything = cc in ap (λ x. accepts x f) same
create_calendar_filter-accepts f (r ∷ rs) filter d e =
    add_rules-accepts f d (r ∷ rs) no_days no_days [] [] filter e (no_days-Collected f d)
      (no_days-Collected f d)
