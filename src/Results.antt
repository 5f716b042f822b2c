-- ===== src/Results.antt =====
-- shareds/error/src/result.ts: `Result` and the methods of `ResultWrapper`. A wrapper holds one
-- result and never changes it, so a method is a function of that result. A union `E | F` of error
-- types is one type `E` that both belong to. A function called for its effect changes a state.
pub mod Plain
use nope.Prelude.{◌≡◌, refl, Bool, true, false, ◌||◌}

pub data Result (T E : Type 0) : Type 0 where
  ok : T → Result T E
  err : E → Result T E

-- What a call does: return a value, or throw one. A promise that is resolved or rejected is the same.
pub data Outcome (T X : Type 0) : Type 0 where
  returned : T → Outcome T X
  thrown : X → Outcome T X

-- `new Error("Called unwrapErr on an Ok result")`
pub data Misuse : Type 0 where
  unwrap_err_on_ok : Misuse

module _ {T E : Type 0} where
  unfoldable pub is_ok : Result T E → Bool
  is_ok (ok v) = true
  is_ok (err e) = false

  unfoldable pub is_err : Result T E → Bool
  is_err (ok v) = false
  is_err (err e) = true

  unfoldable pub map : {U : Type 0} → Result T E → (T → U) → Result U E
  map (ok v) f = ok (f v)
  map (err e) f = err e

  unfoldable pub map_err : {F : Type 0} → Result T E → (E → F) → Result T F
  map_err (ok v) f = ok v
  map_err (err e) f = err (f e)

  unfoldable pub flat_map : {U : Type 0} → Result T E → (T → Result U E) → Result U E
  flat_map (ok v) f = f v
  flat_map (err e) f = err e

  unfoldable pub tap : {S : Type 0} → Result T E → (T → S → S) → S → Result T E × S
  tap (ok v) f s = (ok v, f v s)
  tap (err e) f s = (err e, s)

  unfoldable pub tap_err : {S : Type 0} → Result T E → (E → S → S) → S → Result T E × S
  tap_err (ok v) f s = (ok v, s)
  tap_err (err e) f s = (err e, f e s)

  unfoldable pub unwrap : Result T E → Outcome T E
  unwrap (ok v) = returned v
  unwrap (err e) = thrown e

  unfoldable pub unwrap_err : Result T E → Outcome E Misuse
  unwrap_err (ok v) = thrown unwrap_err_on_ok
  unwrap_err (err e) = returned e

  unfoldable pub unwrap_or : Result T E → T → T
  unwrap_or (ok v) d = v
  unwrap_or (err e) d = d

  unfoldable pub unwrap_or_else : Result T E → (E → T) → T
  unwrap_or_else (ok v) f = v
  unwrap_or_else (err e) f = f e

  unfoldable pub match_with : {U : Type 0} → Result T E → (T → U) → (E → U) → U
  match_with (ok v) on_ok on_err = on_ok v
  match_with (err e) on_ok on_err = on_err e

  unfoldable pub to_promise : Result T E → Outcome T E
  to_promise (ok v) = returned v
  to_promise (err e) = thrown e

  unfoldable pub and_also : {U : Type 0} → Result T E → Result U E → Result (T × U) E
  and_also (ok v) (ok w) = ok (v, w)
  and_also (err e) r = err e
  and_also (ok v) (err e) = err e

  unfoldable pub or_else : Result T E → Result T E → Result T E
  or_else (ok v) r = ok v
  or_else (err e) r = r

module _ {T U W E : Type 0} where
  -- Chained calls associate: `flatMap` of `flatMap` is `flatMap` of the chain, a mapped chain is the
  -- chain of the mapped, and `and` is the chain that pairs the values, so that the first error wins.
  pub flat_map_assoc :
      (r : Result T E) (s : Result U E) (f : T → Result U E) (g : U → Result W E) (h : U → W)
      → (flat_map (flat_map r f) g ≡ flat_map r (λ v. flat_map (f v) g))
        × (map (flat_map r f) h ≡ flat_map r (λ v. map (f v) h))
        × (and_also r s ≡ flat_map r (λ v. map s (λ w. (v, w))))
  unfolding flat_map map and_also
  flat_map_assoc (ok v) (ok w) f g h = (refl, refl, refl)
  flat_map_assoc (ok v) (err e) f g h = (refl, refl, refl)
  flat_map_assoc (err e) s f g h = (refl, refl, refl)

  -- Every way to take a result apart is one `match` on it: the tests, `unwrap` and the promise,
  -- `unwrapErr`, the defaults, and what follows a change of its value and of its error.
  pub match_with-all :
      (r : Result T E) (d : T) (k : E → T) (f : T → U) (g : E → W) (p : U → Bool) (q : W → Bool)
      → (is_ok r ≡ match_with r (λ v. true) (λ e. false))
        × (is_err r ≡ match_with r (λ v. false) (λ e. true))
        × (unwrap r ≡ match_with r returned thrown)
        × (to_promise r ≡ unwrap r)
        × (unwrap_err r ≡ match_with r (λ v. thrown unwrap_err_on_ok) returned)
        × (unwrap_or r d ≡ unwrap_or_else r (λ e. d))
        × (unwrap_or_else r k ≡ match_with r (λ v. v) k)
        × (match_with (map_err (map r f) g) p q ≡ match_with r (λ v. p (f v)) (λ e. q (g e)))
  unfolding is_ok is_err match_with unwrap to_promise unwrap_err unwrap_or unwrap_or_else map
      map_err
  match_with-all (ok v) d k f g p q = (refl, refl, refl, refl, refl, refl, refl, refl)
  match_with-all (err e) d k f g p q = (refl, refl, refl, refl, refl, refl, refl, refl)

module _ {T E S : Type 0} where
  -- `tap` and then `tapErr` give the result back unchanged and call just the function that the result
  -- is for; and `or` gives the first success, whatever way it is grouped.
  pub tap-or :
      (r s t : Result T E) (f : T → S → S) (g : E → S → S) (x : S)
      → (tap_err (tap r f x).0 g (tap r f x).1 ≡ (r, match_with r (λ v. f v x) (λ e. g e x)))
        × (or_else (or_else r s) t ≡ or_else r (or_else s t))
        × (is_ok (or_else r s) ≡ (is_ok r || is_ok s))
  unfolding tap tap_err match_with or_else is_ok
  tap-or (ok v) s t f g x = (refl, refl, refl)
  tap-or (err e) s t f g x = (refl, refl, refl)
