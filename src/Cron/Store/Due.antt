-- ===== src/Cron/Store/Due.antt =====
-- Which triggers `listDueTriggers` gives.
use mathlib.Core.List.{Perm, perm_middle}
use mathlib.Core.List.Perm
use nope.Prelude.{
  ℕ, ◌≤◌, ◌≡◌, refl, sym, ap, ◌∙◌, ◌⊎◌, inl, inr, Bool, Bool-cases, Option-cases, ◌&&◌, true, false,
  not, List, [], ◌∷◌, ◌++◌, some, keep, drop, take, All, All-take, All-drop, All-keep, length,
  length-take-le, take-append-drop, arith, zero, suc, ltb, leb,
}
use nope.Prelude.Sort.{sort, IsSorted, sort-perm, sort-IsSorted, All-sort, take-IsSorted}
use nope.Cron.Store.Order.{LocaleOrder, First, behind_asym, behind_trans, not_behind}
use nope.Cron.Store.{
  Store, Trigger, is_due, comes_behind, list_due_triggers, list_triggers, map_values, truthy,
  time_or_zero,
}

-- The triggers that are to be run at the time `until`.
pub record Due {K P : Type 0} (until : ℕ) (t : Trigger K P) : Type 0 where
  pub active : t.paused ≡ false
  pub next : ℕ
  pub planned : t.next_run_at ≡ some next
  pub reached : next ≤ until
  pub unleased : (truthy t.lease_owner ≡ false) ⊎ (time_or_zero t.leased_until ≤ until)

is_due-Due : {K P : Type 0} (until : ℕ) (t : Trigger K P) → is_due until t ≡ true → Due until t
unfolding is_due
is_due-Due until t h = elim (Bool-cases t.paused) [
  | inl e ↦ let g : false ≡ true = rw e at h in absurd (cc)
  | inr e ↦ elim (Option-cases t.next_run_at) [
    | inl n ↦ let g : false ≡ true = rw (e, n) at h in absurd (cc)
    | inr (x, n) ↦
        elim (Bool-cases (truthy t.lease_owner && ltb until (time_or_zero t.leased_until))) [
          | inl b ↦ let g : false ≡ true = rw (e, n, b) at h in absurd (cc)
          | inr b ↦
              let g : leb x until ≡ true = rw (e, n, b) at h in
              record {
                active = e;
                next = x;
                planned = n;
                reached = ground (arith, g);
                unleased = ground (arith, b);
              }
        ]
  ]
]

not_due : {K P : Type 0} (until : ℕ) (t : Trigger K P) → is_due until t ≡ false → Due until t → ⊥
unfolding is_due
not_due until t h d =
    let a : leb d.next until ≡ true = let r = d.reached in ground arith in
    let b : (truthy t.lease_owner && ltb until (time_or_zero t.leased_until)) ≡ false =
      let u = d.unleased in ground arith in
    let g : true ≡ false = sym a ∙ (rw (d.active, d.planned, b) at h) in absurd (cc)

module _ {A : Type 0} where
  pub All-map : (P Q : A → Type 0) (xs : List A) → ((x : A) → P x → Q x) → All P xs → All Q xs
  All-map P Q [] f h = tt
  All-map P Q (x ∷ xs) f h = (f x h.0, All-map P Q xs f h.1)

  -- What passes a test, then what does not.
  split-perm : (p : A → Bool) (xs : List A) → Perm (keep p xs ++ keep (λ x. not (p x)) xs) xs
  split-perm p [] = Perm.refl []
  split-perm p (x ∷ xs) = elim (Bool-cases (p x)) [
    | inl e ↦ rw e (Perm.cons x (split-perm p xs))
    | inr e ↦ rw e (
        Perm.trans (perm_middle (keep p xs) (keep (λ x. not (p x)) xs))
          (Perm.cons x (split-perm p xs)))
  ]

  full-take : (n : ℕ) (xs : List A) → (length (take n xs) ≡ n) ⊎ (drop n xs ≡ [])
  full-take zero xs = inl refl
  full-take (suc n) [] = inr refl
  full-take (suc n) (x ∷ xs) = elim (full-take n xs) [ inl e ↦ inl (ap suc e) | inr e ↦ inr e ]

module _ {K P : Type 0} (locale : LocaleOrder K) where
  -- The one is first: by priority, then by time, then by id.
  abbrev pub Before : Trigger K P → Trigger K P → Type 0
  Before a b =
      First locale a.priority (time_or_zero a.next_run_at) a.id b.priority
        (time_or_zero b.next_run_at) b.id

  abbrev pub InOrder : List (Trigger K P) → Type 0
  InOrder [] = Unit
  InOrder (t ∷ ts) = All (Before t) ts × InOrder ts

  Before-of_sort : (a b : Trigger K P) → comes_behind locale.gt a b ≡ false → Before a b
  unfolding comes_behind
  Before-of_sort a b h =
      not_behind locale a.priority b.priority (time_or_zero a.next_run_at)
        (time_or_zero b.next_run_at) a.id b.id h

  InOrder-of_sort : (ts : List (Trigger K P)) → IsSorted (comes_behind locale.gt) ts → InOrder ts
  InOrder-of_sort [] h = tt
  InOrder-of_sort (t ∷ ts) h =
      (All-map _ (Before t) ts (Before-of_sort t) h.0, InOrder-of_sort ts h.1)

  asym :
      (a b : Trigger K P) → comes_behind locale.gt a b ≡ true → comes_behind locale.gt b a ≡ false
  unfolding comes_behind
  asym a b h =
      behind_asym locale a.priority b.priority (time_or_zero a.next_run_at)
        (time_or_zero b.next_run_at) a.id b.id h

  trans :
      (a b c : Trigger K P)
      → comes_behind locale.gt a b ≡ false
      → comes_behind locale.gt b c ≡ false
      → comes_behind locale.gt a c ≡ false
  unfolding comes_behind
  trans a b c h k =
      behind_trans locale a.priority b.priority c.priority (time_or_zero a.next_run_at)
        (time_or_zero b.next_run_at) (time_or_zero c.next_run_at) a.id b.id c.id h k

  -- What `listDueTriggers` promises: the triggers of the store are those that it gives, those that are
  -- due and wait for want of room, and those that are not due. The result is in order, nothing that
  -- waits belongs before it, and it is full if anything waits.
  pub record Selects (s : Store K P) (until limit : ℕ) (l waiting others : List (Trigger K P))
      : Type 0 where
    pub all : Perm ((l ++ waiting) ++ others) (list_triggers s)
    pub due : All (Due until) l
    pub due_waiting : All (Due until) waiting
    pub not_due_others : All (λ t. Due until t → ⊥) others
    pub sorted : InOrder l
    pub first : All (λ x. All (Before x) waiting) l
    pub bounded : length l ≤ limit
    pub full : (length l ≡ limit) ⊎ (waiting ≡ [])

  sort_split :
      (gt : Trigger K P → Trigger K P → Bool) (p : Trigger K P → Bool) (ts : List (Trigger K P))
      → Perm (sort gt (keep p ts) ++ keep (λ t. not (p t)) ts) ts
  sort_split gt p ts =
      Perm.trans (Perm.append_right (keep (λ t. not (p t)) ts) (sort-perm gt (keep p ts)))
        (split-perm p ts)

  kept_not :
      (p : Trigger K P → Bool) (ts : List (Trigger K P))
      → All (λ t. p t ≡ false) (keep (λ t. not (p t)) ts)
  kept_not p [] = tt
  kept_not p (t ∷ ts) = elim (Bool-cases (p t)) [
    | inl e ↦ rw e (kept_not p ts)
    | inr e ↦ rw e (e, kept_not p ts)
  ]

  -- The result of `listDueTriggers` holds due triggers only, sorted by priority, then time, then id; it
  -- has `limit` elements, or all the due triggers if they are fewer; and none that is left out belongs
  -- before one of the result.
  pub list_due-Selects :
      (s : Store K P) (until limit : ℕ)
      → (waiting : List (Trigger K P)) × (others : List (Trigger K P)) × Selects s until limit
          (list_due_triggers locale.gt s until limit)
          waiting
          others
  unfolding list_due_triggers list_triggers
  list_due-Selects s until limit =
      let due = keep (is_due until) (map_values s.triggers) in
      let gt = comes_behind locale.gt in
      let all_due : All (Due until) (sort gt due) = All-sort gt (Due until) due (
        All-map _ (Due until) due (is_due-Due until)
          (All-keep (is_due until) (map_values s.triggers))) in
      let (sorted, first) =
        take-IsSorted gt limit (sort gt due) (sort-IsSorted gt asym trans due) in
      (
        drop limit (sort gt due),
        keep (λ t. not (is_due until t)) (map_values s.triggers),
        record {
          all = rw take-append-drop (sort_split gt (is_due until) (map_values s.triggers));
          due = All-take (Due until) limit (sort gt due) all_due;
          due_waiting = All-drop (Due until) limit (sort gt due) all_due;
          not_due_others =
              All-map _ (λ t. Due until t → ⊥)
                (keep (λ t. not (is_due until t)) (map_values s.triggers)) (not_due until)
                (kept_not (is_due until) (map_values s.triggers));
          sorted = InOrder-of_sort (take limit (sort gt due)) sorted;
          first =
              All-map _ (λ x. All (Before x) (drop limit (sort gt due))) (take limit (sort gt due))
                (λ x h. All-map _ (Before x) (drop limit (sort gt due)) (Before-of_sort x) h) first;
          bounded = length-take-le limit (sort gt due);
          full = full-take limit (sort gt due);
        },
      )
