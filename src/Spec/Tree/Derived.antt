-- ===== src/Spec/Tree/Derived.antt =====
-- The derived combinators.
use nope.Prelude.{◌≡◌, refl, ap, ◌∙◌, Bool, true, false, not, ◌&&◌, ◌||◌, some}
use nope.Spec.{Value, Numbers}
use nope.Spec.Tree.{
  Spec, nil, cons, negate, evaluate_spec, loop, none_spec, xor, implies, create_all_spec,
  create_any_spec, create_not_spec,
}
use nope.Spec.Tree.Meaning.{settle_logical, settle_negation}

abbrev pub differ : Bool → Bool → Bool
differ true y = not y
differ false y = y

xor_bits : (x y : Bool) → ((x && not y) || (not x && y)) ≡ differ x y
xor_bits true true = refl
xor_bits true false = refl
xor_bits false y = refl

module _ {N C : Type 0} (ns : Numbers N) (v : Value N) (c : C) where
  not_answer :
      (s : Spec N C) (x : Bool)
      → evaluate_spec ns s v c ≡ some x
      → evaluate_spec ns (create_not_spec s) v c ≡ some (not x)
  unfolding create_not_spec evaluate_spec
  not_answer s x e = settle_negation ns s nil v c ∙ ap negate e

  all_answer :
      (s t : Spec N C) (x y : Bool)
      → evaluate_spec ns s v c ≡ some x
      → evaluate_spec ns t v c ≡ some y
      → evaluate_spec ns (create_all_spec (cons s (cons t nil))) v c ≡ some (x && y)
  unfolding create_all_spec evaluate_spec loop
  all_answer s t true true e f = settle_logical ns true (cons s (cons t nil)) v c ∙ rw (e, f) refl
  all_answer s t true false e f = settle_logical ns true (cons s (cons t nil)) v c ∙ rw (e, f) refl
  all_answer s t false y e f = settle_logical ns true (cons s (cons t nil)) v c ∙ rw e refl

  any_answer :
      (s t : Spec N C) (x y : Bool)
      → evaluate_spec ns s v c ≡ some x
      → evaluate_spec ns t v c ≡ some y
      → evaluate_spec ns (create_any_spec (cons s (cons t nil))) v c ≡ some (x || y)
  unfolding create_any_spec evaluate_spec loop
  any_answer s t false true e f = settle_logical ns false (cons s (cons t nil)) v c ∙ rw (e, f) refl
  any_answer s t false false e f =
      settle_logical ns false (cons s (cons t nil)) v c ∙ rw (e, f) refl
  any_answer s t true y e f = settle_logical ns false (cons s (cons t nil)) v c ∙ rw e refl

  -- Of two specifications that answer, in whatever way, `xor` says whether the answers differ,
  -- `implies` whether the second holds where the first does, and `none` whether neither holds.
  pub xor-implies :
      (s t : Spec N C) (x y : Bool)
      → evaluate_spec ns s v c ≡ some x
      → evaluate_spec ns t v c ≡ some y
      → (evaluate_spec ns (xor s t) v c ≡ some (differ x y))
        × (evaluate_spec ns (implies s t) v c ≡ some (not x || y))
        × (evaluate_spec ns (none_spec (cons s (cons t nil))) v c ≡ some (not (x || y)))
  unfolding xor implies none_spec
  xor-implies s t x y e f = (
    any_answer _ _ _ _ (all_answer s _ x _ e (not_answer t y f))
          (all_answer _ t _ y (not_answer s x e) f)
        ∙ ap some (xor_bits x y),
    any_answer _ t _ y (not_answer s x e) f,
    not_answer _ _ (any_answer s t x y e f),
  )
