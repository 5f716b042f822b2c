-- ===== src/Results/Plain.antt =====
-- shareds/error/src/result.ts: the functions on a plain `Result`, beside the methods of the wrapper.
use nope.Prelude.{◌≡◌, refl, Bool, true, false}
use nope.Results.{Result, ok, err, Outcome, returned, thrown, Misuse, unwrap_err_on_ok}
use nope.Results as Wrapper

module _ {T E : Type 0} where
  unfoldable pub is_ok : Result T E → Bool
  is_ok (ok v) = true
  is_ok (err e) = false

  unfoldable pub is_err : Result T E → Bool
  is_err (ok v) = false
  is_err (err e) = true

  unfoldable pub unwrap : Result T E → Outcome T E
  unwrap (ok v) = returned v
  unwrap (err e) = thrown e

  unfoldable pub unwrap_err : Result T E → Outcome E Misuse
  unwrap_err (err e) = returned e
  unwrap_err (ok v) = thrown unwrap_err_on_ok

  unfoldable pub unwrap_or : Result T E → T → T
  unwrap_or (ok v) d = v
  unwrap_or (err e) d = d

  unfoldable pub map : {U : Type 0} → Result T E → (T → U) → Result U E
  map (ok v) f = ok (f v)
  map (err e) f = err e

  unfoldable pub map_err : {F : Type 0} → Result T E → (E → F) → Result T F
  map_err (ok v) f = ok v
  map_err (err e) f = err (f e)

  -- Each function agrees with the method of the same name.
  pub plain-eq-wrapper :
      {U F : Type 0} (r : Result T E) (d : T) (f : T → U) (g : E → F)
      → (is_ok r ≡ Wrapper.is_ok r)
        × (is_err r ≡ Wrapper.is_err r)
        × (unwrap r ≡ Wrapper.unwrap r)
        × (unwrap_err r ≡ Wrapper.unwrap_err r)
        × (unwrap_or r d ≡ Wrapper.unwrap_or r d)
        × (map r f ≡ Wrapper.map r f)
        × (map_err r g ≡ Wrapper.map_err r g)
  unfolding Wrapper.is_ok Wrapper.is_err Wrapper.unwrap Wrapper.unwrap_err Wrapper.unwrap_or
      Wrapper.map Wrapper.map_err is_ok is_err unwrap unwrap_err unwrap_or map map_err
  plain-eq-wrapper (ok v) d f g = (refl, refl, refl, refl, refl, refl, refl)
  plain-eq-wrapper (err e) d f g = (refl, refl, refl, refl, refl, refl, refl)
