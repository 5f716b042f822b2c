-- ===== src/Async/Outcomes.antt =====
-- shareds/async/src/try/wrappers.ts and collections.ts: the `Result` of tried calls, and lists of them.
use nope.Prelude.{◌≡◌, refl, Bool, true, false, List, [], ◌∷◌, ◌++◌, Option, none, some}

pub data Result (T E : Type 0) : Type 0 where
  ok : T → Result T E
  err : E → Result T E

abbrev pub not_empty : {A : Type 0} → List A → Bool
not_empty [] = false
not_empty (v ∷ vs) = true

abbrev pub head : {A : Type 0} → List A → Option A
head [] = none
head (e ∷ es) = some e

module _ {T E : Type 0} where
  -- The loop of `collectAll`, with `out`.
  abbrev pub collect_from : List T → List (Result T E) → Result (List T) E
  collect_from out [] = ok out
  collect_from out (ok v ∷ rs) = collect_from (out ++ v ∷ []) rs
  collect_from out (err e ∷ rs) = err e

  abbrev pub collect_all : List (Result T E) → Result (List T) E
  collect_all rs = collect_from [] rs

  -- The loop of `partitionOkErr`, with `oks` and `errs`.
  abbrev pub partition_from : List T → List E → List (Result T E) → List T × List E
  partition_from oks errs [] = (oks, errs)
  partition_from oks errs (ok v ∷ rs) = partition_from (oks ++ v ∷ []) errs rs
  partition_from oks errs (err e ∷ rs) = partition_from oks (errs ++ e ∷ []) rs

  abbrev pub partition_ok_err : List (Result T E) → List T × List E
  partition_ok_err rs = partition_from [] [] rs

  abbrev pub first_err : List (Result T E) → Option E
  first_err [] = none
  first_err (ok v ∷ rs) = first_err rs
  first_err (err e ∷ rs) = some e

  abbrev pub any_ok : List (Result T E) → Bool
  any_ok [] = false
  any_ok (ok v ∷ rs) = true
  any_ok (err e ∷ rs) = any_ok rs

  -- What `collectAll` answers, by the first error and the values that `partitionOkErr` finds.
  abbrev pub by_first : Option E → List T → Result (List T) E
  by_first none oks = ok oks
  by_first (some e) oks = err e

  collect_from-eq :
      (out : List T) (errs : List E) (rs : List (Result T E))
      → collect_from out rs ≡ by_first (first_err rs) (partition_from out errs rs).0
  collect_from-eq out errs [] = refl
  collect_from-eq out errs (ok v ∷ rs) = collect_from-eq (out ++ v ∷ []) errs rs
  collect_from-eq out errs (err e ∷ rs) = refl

  kept_first :
      (x : E) (oks : List T) (errs : List E) (rs : List (Result T E))
      → head (partition_from oks (x ∷ errs) rs).1 ≡ some x
  kept_first x oks errs [] = refl
  kept_first x oks errs (ok v ∷ rs) = kept_first x (oks ++ v ∷ []) errs rs
  kept_first x oks errs (err e ∷ rs) = kept_first x oks (errs ++ e ∷ []) rs

  first_from :
      (oks : List T) (rs : List (Result T E)) → head (partition_from oks [] rs).1 ≡ first_err rs
  first_from oks [] = refl
  first_from oks (ok v ∷ rs) = first_from (oks ++ v ∷ []) rs
  first_from oks (err e ∷ rs) = kept_first e oks [] rs

  kept_ok :
      (x : T) (oks : List T) (errs : List E) (rs : List (Result T E))
      → not_empty (partition_from (x ∷ oks) errs rs).0 ≡ true
  kept_ok x oks errs [] = refl
  kept_ok x oks errs (ok v ∷ rs) = kept_ok x (oks ++ v ∷ []) errs rs
  kept_ok x oks errs (err e ∷ rs) = kept_ok x oks (errs ++ e ∷ []) rs

  any_from :
      (errs : List E) (rs : List (Result T E)) → not_empty (partition_from [] errs rs).0 ≡ any_ok rs
  any_from errs [] = refl
  any_from errs (ok v ∷ rs) = kept_ok v [] errs rs
  any_from errs (err e ∷ rs) = any_from (errs ++ e ∷ []) rs

  -- `collectAll` gives the first error if there is one and else the values of `partitionOkErr`;
  -- `firstErr` is the first of its errors, and `anyOk` says whether it has a value.
  pub collect_all-eq :
      (rs : List (Result T E))
      → (collect_all rs ≡ by_first (first_err rs) (partition_ok_err rs).0)
        × (head (partition_ok_err rs).1 ≡ first_err rs)
        × (not_empty (partition_ok_err rs).0 ≡ any_ok rs)
  collect_all-eq rs = (collect_from-eq [] [] rs, first_from [] rs, any_from [] rs)
