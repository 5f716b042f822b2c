-- ===== src/Prelude/Keys.antt =====
-- Association lists in which every key occurs once.
use mathlib.Core.Path.{◌≡◌, refl, sym, ap, ◌∙◌, subst}
use mathlib.Core.Logic.{◌≢◌, if_pos, if_neg}
use mathlib.Core.List.{List, [], ◌∷◌, ◌++◌}
use mathlib.Core.Option.{none, some}
use native.Mathlib.Omega.{arith}
use nope.Prelude.Maps.{map_get, map_delete, map_get-delete_self, map_get-delete_ne}

module _ {K V : Type 0} (dec : Discrete K) where
  -- Every key occurs once.
  abbrev pub NoDup : List (K × V) → Type 0
  NoDup [] = Unit
  NoDup (x ∷ ns) = (map_get dec ns x.0 ≡ none) × NoDup ns

  -- An absent key stays absent.
  pub get_none-delete :
      (ns : List (K × V)) (k q : K)
      → map_get dec ns q ≡ none
      → map_get dec (map_delete dec ns k) q ≡ none
  get_none-delete ns k q e = elim (dec k q) [
    | yes p ↦
        subst (λ j. map_get dec (map_delete dec ns k) j ≡ none) p (map_get-delete_self dec ns k)
    | no n ↦ map_get-delete_ne dec ns k q n ∙ e
  ]

  pub NoDup-delete : (ns : List (K × V)) (k : K) → NoDup ns → NoDup (map_delete dec ns k)
  NoDup-delete [] k h = tt
  NoDup-delete ((j, e) ∷ ns) k h = elim (dec j k) [
    | yes p ↦ rw (if_pos (dec j k) p) (NoDup-delete ns k h.1)
    | no n ↦ rw (if_neg (dec j k) n) (get_none-delete ns k j h.0, NoDup-delete ns k h.1)
  ]

  pub delete_absent :
      (ns : List (K × V)) (k : K) → map_get dec ns k ≡ none → map_delete dec ns k ≡ ns
  delete_absent [] k h = refl
  delete_absent ((j, e) ∷ ns) k h = elim (dec j k) [
    | yes p ↦ absurd (ground (arith, h))
    | no n ↦ rw (if_neg (dec j k) n) (ap (◌∷◌ (j, e)) (delete_absent ns k (ground (arith, h))))
  ]

  get_none-append :
      (ns : List (K × V)) (j k : K) (e : V)
      → map_get dec ns j ≡ none
      → k ≢ j
      → map_get dec (ns ++ (k, e) ∷ []) j ≡ none
  get_none-append [] j k e h n = if_neg (dec k j) n (some e) none
  get_none-append ((i, x) ∷ ns) j k e h n = elim (dec i j) [
    | yes p ↦ absurd (ground (arith, h))
    | no m ↦ rw (if_neg (dec i j) m) (get_none-append ns j k e (ground (arith, h)) n)
  ]

  pub NoDup-append :
      (ns : List (K × V)) (k : K) (e : V)
      → NoDup ns
      → map_get dec ns k ≡ none
      → NoDup (ns ++ (k, e) ∷ [])
  NoDup-append [] k e h g = (refl, tt)
  NoDup-append ((j, x) ∷ ns) k e h g = elim (dec j k) [
    | yes p ↦ absurd (ground (arith, g))
    | no n ↦
        (get_none-append ns j k e h.0 (λ q. n (sym q)), NoDup-append ns k e h.1 (ground (arith, g)))
  ]
