-- ===== src/Prelude/Sort.antt =====
-- `Array.prototype.sort` with a comparison: a stable sort, written as an insertion sort. `gt a b`
-- says that the comparison puts `a` behind `b`.
use Prim.Native.Nat.{ℕ, zero, suc}
use mathlib.Core.Path.{◌≡◌}
use mathlib.Core.Logic.{inl, inr}
use mathlib.Core.Bool.{Bool, true, false}
use mathlib.Core.List.{List, [], ◌∷◌, Perm}
use mathlib.Core.List.Perm
use nope.Prelude.Tests.{if◌then◌else◌, Bool-cases}
use nope.Prelude.Lists.{All, take, drop, All-take, All-drop}

module _ {A : Type 0} (gt : A → A → Bool) where
  abbrev pub insert : A → List A → List A
  insert x [] = x ∷ []
  insert x (y ∷ ys) = if gt x y then y ∷ insert x ys else x ∷ y ∷ ys

  abbrev pub sort : List A → List A
  sort [] = []
  sort (x ∷ xs) = insert x (sort xs)

  abbrev pub IsSorted : List A → Type 0
  IsSorted [] = Unit
  IsSorted (x ∷ xs) = All (λ y. gt x y ≡ false) xs × IsSorted xs

  insert-perm : (x : A) (xs : List A) → Perm (insert x xs) (x ∷ xs)
  insert-perm x [] = Perm.refl (x ∷ [])
  insert-perm x (y ∷ ys) = elim (Bool-cases (gt x y)) [
    | inl e ↦ rw e (Perm.trans (Perm.cons y (insert-perm x ys)) (Perm.swap x y ys))
    | inr e ↦ rw e (Perm.refl (x ∷ y ∷ ys))
  ]

  pub sort-perm : (xs : List A) → Perm (sort xs) xs
  sort-perm [] = Perm.refl []
  sort-perm (x ∷ xs) = Perm.trans (insert-perm x (sort xs)) (Perm.cons x (sort-perm xs))

  module _ (asym : (a b : A) → gt a b ≡ true → gt b a ≡ false)
      (trans : (a b c : A) → gt a b ≡ false → gt b c ≡ false → gt a c ≡ false) where
    All-insert : (P : A → Type 0) (x : A) (xs : List A) → P x → All P xs → All P (insert x xs)
    All-insert P x [] p h = (p, tt)
    All-insert P x (y ∷ ys) p h = elim (Bool-cases (gt x y)) [
      | inl e ↦ rw e (h.0, All-insert P x ys p h.1)
      | inr e ↦ rw e (p, h)
    ]

    All-below :
        (x y : A) (ys : List A)
        → gt x y ≡ false
        → All (λ z. gt y z ≡ false) ys
        → All (λ z. gt x z ≡ false) ys
    All-below x y [] e h = tt
    All-below x y (z ∷ ys) e h = (trans x y z e h.0, All-below x y ys e h.1)

    insert-IsSorted : (x : A) (xs : List A) → IsSorted xs → IsSorted (insert x xs)
    insert-IsSorted x [] h = (tt, tt)
    insert-IsSorted x (y ∷ ys) h = elim (Bool-cases (gt x y)) [
      | inl e ↦
          rw e (All-insert (λ z. gt y z ≡ false) x ys (asym x y e) h.0, insert-IsSorted x ys h.1)
      | inr e ↦ rw e ((e, All-below x y ys e h.0), h)
    ]

    pub sort-IsSorted : (xs : List A) → IsSorted (sort xs)
    sort-IsSorted [] = tt
    sort-IsSorted (x ∷ xs) = insert-IsSorted x (sort xs) (sort-IsSorted xs)

module _ {A : Type 0} (gt : A → A → Bool) where
  All-insert-All : (P : A → Type 0) (x : A) (xs : List A) → P x → All P xs → All P (insert gt x xs)
  All-insert-All P x [] p h = (p, tt)
  All-insert-All P x (y ∷ ys) p h = elim (Bool-cases (gt x y)) [
    | inl e ↦ rw e (h.0, All-insert-All P x ys p h.1)
    | inr e ↦ rw e (p, h)
  ]

  pub All-sort : (P : A → Type 0) (xs : List A) → All P xs → All P (sort gt xs)
  All-sort P [] h = tt
  All-sort P (x ∷ xs) h = All-insert-All P x (sort gt xs) h.0 (All-sort P xs h.1)

  -- The first `n` of a sorted list are sorted, and none of them belongs behind one of the others.
  pub take-IsSorted :
      (n : ℕ) (xs : List A)
      → IsSorted gt xs
      → IsSorted gt (take n xs) × All (λ x. All (λ y. gt x y ≡ false) (drop n xs)) (take n xs)
  take-IsSorted zero xs h = (tt, tt)
  take-IsSorted (suc n) [] h = (tt, tt)
  take-IsSorted (suc n) (x ∷ xs) h =
      let (sorted, ahead) = take-IsSorted n xs h.1 in
      ((All-take _ n xs h.0, sorted), (All-drop _ n xs h.0, ahead))
