-- ===== src/Prelude/Sets.antt =====
-- The language's `Set`: the list of its members in insertion order.
use mathlib.Core.Path.{◌≡◌, refl, ap, ◌∙◌, subst}
use mathlib.Core.Logic.{◌⊎◌, inl, inr, if_pos, if_neg, ite}
use mathlib.Core.Bool.{Bool, true, false}
use mathlib.Core.List.{List, [], ◌∷◌, ◌++◌}
use Prim.Native.Nat.{ℕ, ◌+◌, ◌<◌, ◌≤◌}
use native.Mathlib.Omega.{arith}
use nope.Prelude.Tests.{if◌then◌else◌, Bool-cases}
use nope.Prelude.Lists.{All, length}

abbrev pub In : {A : Type 0} → A → List A → Type 0
In a [] = ⊥
In a (x ∷ xs) = (x ≡ a) ⊎ In a xs

module _ {A : Type 0} where
  pub In-append_left : (a : A) (xs ys : List A) → In a xs → In a (xs ++ ys)
  In-append_left a [] ys h = elim h [ ]
  In-append_left a (x ∷ xs) ys (inl e) = inl e
  In-append_left a (x ∷ xs) ys (inr h) = inr (In-append_left a xs ys h)

  pub In-append_right : (a : A) (xs ys : List A) → In a ys → In a (xs ++ ys)
  In-append_right a [] ys h = h
  In-append_right a (x ∷ xs) ys h = inr (In-append_right a xs ys h)

  pub In-append_cases : (a : A) (xs ys : List A) → In a (xs ++ ys) → In a xs ⊎ In a ys
  In-append_cases a [] ys h = inr h
  In-append_cases a (x ∷ xs) ys (inl e) = inl (inl e)
  In-append_cases a (x ∷ xs) ys (inr h) = elim (In-append_cases a xs ys h) [
    | inl i ↦ inl (inr i)
    | inr i ↦ inr i
  ]

module _ {A : Type 0} (dec : Discrete A) where
  abbrev pub has : List A → A → Bool
  has [] a = false
  has (x ∷ xs) a = let rest = has xs a in ite (dec x a) true rest

  abbrev pub add : List A → A → List A
  add xs a = if has xs a then xs else xs ++ a ∷ []

  abbrev pub remove : List A → A → List A
  remove [] a = []
  remove (x ∷ xs) a = ite (dec x a) (remove xs a) (x ∷ remove xs a)

  pub has-In : (xs : List A) (a : A) → has xs a ≡ true → In a xs
  has-In [] a h = absurd (cc)
  has-In (x ∷ xs) a h = elim (dec x a) [
    | yes e ↦ inl e
    | no n ↦ inr (has-In xs a (rw (if_neg (dec x a) n) at h))
  ]

  pub In-has : (xs : List A) (a : A) → In a xs → has xs a ≡ true
  In-has [] a h = elim h [ ]
  In-has (x ∷ xs) a (inl e) = if_pos (dec x a) e true (has xs a)
  In-has (x ∷ xs) a (inr h) = elim (dec x a) [
    | yes e ↦ if_pos (dec x a) e true (has xs a)
    | no n ↦ rw (if_neg (dec x a) n) (In-has xs a h)
  ]

  pub not_has : (xs : List A) (a : A) → has xs a ≡ false → In a xs → ⊥
  not_has xs a h i = let e = In-has xs a i in absurd (cc)

  pub remove-absent : (xs : List A) (a : A) → has xs a ≡ false → remove xs a ≡ xs
  remove-absent [] a h = refl
  remove-absent (x ∷ xs) a h = elim (dec x a) [
    | yes e ↦ absurd (not_has (x ∷ xs) a h (inl e))
    | no n ↦
        rw (if_neg (dec x a) n) (ap (◌∷◌ x) (remove-absent xs a (rw (if_neg (dec x a) n) at h)))
  ]

  -- What was added last is removed again.
  pub remove-concat : (xs : List A) (a : A) → has xs a ≡ false → remove (xs ++ a ∷ []) a ≡ xs
  remove-concat [] a h = if_pos (dec a a) refl [] (a ∷ [])
  remove-concat (x ∷ xs) a h = elim (dec x a) [
    | yes e ↦ absurd (not_has (x ∷ xs) a h (inl e))
    | no n ↦
        rw (if_neg (dec x a) n) (ap (◌∷◌ x) (remove-concat xs a (rw (if_neg (dec x a) n) at h)))
  ]

  pub has-concat : (xs : List A) (a u : A) → has xs u ≡ true → has (xs ++ a ∷ []) u ≡ true
  has-concat xs a u h = In-has (xs ++ a ∷ []) u (In-append_left u xs (a ∷ []) (has-In xs u h))

  pub has-concat_self : (xs : List A) (a : A) → has (xs ++ a ∷ []) a ≡ true
  has-concat_self xs a = In-has (xs ++ a ∷ []) a (In-append_right a xs (a ∷ []) (inl refl))

  -- The members of the first list that the second does not have.
  abbrev pub fresh : List A → List A → ℕ
  fresh [] vs = 0
  fresh (u ∷ us) vs = (if has vs u then 0 else 1) + fresh us vs

  pub fresh-concat-le : (us vs : List A) (a : A) → fresh us (vs ++ a ∷ []) ≤ fresh us vs
  fresh-concat-le [] vs a = omega arith
  fresh-concat-le (u ∷ us) vs a = elim (Bool-cases (has vs u)) [
    | inl b ↦ rw (b, has-concat vs a u b) (omega (arith, fresh-concat-le us vs a))
    | inr b ↦ rw b (ground (arith, fresh-concat-le us vs a))
  ]

  pub fresh-concat-lt :
      (us vs : List A) (a : A) → has vs a ≡ false → In a us → fresh us (vs ++ a ∷ []) < fresh us vs
  fresh-concat-lt [] vs a n h = elim h [ ]
  fresh-concat-lt (u ∷ us) vs a n (inl e) =
      let old : has vs u ≡ false = ap (has vs) e ∙ n in
      let new : has (vs ++ a ∷ []) u ≡ true = ap (has (vs ++ a ∷ [])) e ∙ has-concat_self vs a in
      rw (old, new) (omega (arith, fresh-concat-le us vs a))
  fresh-concat-lt (u ∷ us) vs a n (inr h) = elim (Bool-cases (has vs u)) [
    | inl b ↦ rw (b, has-concat vs a u b) (omega (arith, fresh-concat-lt us vs a n h))
    | inr b ↦ rw b (ground (arith, fresh-concat-lt us vs a n h))
  ]

  pub fresh-le-length : (us vs : List A) → fresh us vs ≤ length us
  fresh-le-length [] vs = omega arith
  fresh-le-length (u ∷ us) vs = ground (arith, fresh-le-length us vs)

module _ {A : Type 0} where
  pub All-of_In : (P : A → Type 0) (xs : List A) → ((a : A) → In a xs → P a) → All P xs
  All-of_In P [] h = tt
  All-of_In P (x ∷ xs) h = (h x (inl refl), All-of_In P xs (λ a i. h a (inr i)))

  pub All-In : (P : A → Type 0) (xs : List A) (a : A) → All P xs → In a xs → P a
  All-In P [] a h i = elim i [ ]
  All-In P (x ∷ xs) a h (inl e) = subst P e h.0
  All-In P (x ∷ xs) a h (inr i) = All-In P xs a h.1 i

  pub All-append : (P : A → Type 0) (xs ys : List A) → All P xs → All P ys → All P (xs ++ ys)
  All-append P [] ys h g = g
  All-append P (x ∷ xs) ys h g = (h.0, All-append P xs ys h.1 g)
