-- ===== src/Spec/Operators/Opposites.antt =====
-- Built-in operators that are each other's negation.
use nope.Prelude.{ℕ, ◌≡◌, refl, not, some}
use nope.Spec.{Value, Numbers, undefined, null, bool, num, str, arr, obj}
use nope.Spec.Tree.{Input}
use nope.Spec.Operators.{
  Js, eq, ne, within, not_in, exists, missing, length_lt, length_lte, length_gt, length_gte,
  get_length,
}

-- Numbers of which one of two is less, or the other is at most it: no NaN among them.
pub Total : {N : Type 0} → Numbers N → Type 0
Total {N} ns = (a b : N) → ns.le b a ≡ not (ns.lt a b)

module _ {N : Type 0} (js : Js N) where
  missing-not : (v : Value N) (input : Input N) → missing js v input ≡ not (exists js v input)
  unfolding missing exists
  missing-not undefined input = refl
  missing-not null input = refl
  missing-not (bool b) input = refl
  missing-not (num m) input = refl
  missing-not (str s) input = refl
  missing-not (arr r vs) input = refl
  missing-not (obj r ms) input = refl

  -- `missing` is the negation of `exists`, `ne` of `eq` and `notIn` of `in`, on every value and input.
  pub missing-exists :
      (v : Value N) (input : Input N)
      → (missing js v input ≡ not (exists js v input))
        × (ne js v input ≡ not (eq js v input))
        × (not_in js v input ≡ not (within js v input))
  unfolding ne eq not_in within
  missing-exists v input = (missing-not v input, refl, refl)

  -- Where the numbers have no NaN, for a value with a length and a bound that is a number: `lengthGte`
  -- is the negation of `lengthLt`, and `lengthLte` of `lengthGt`.
  pub length_gte-length_lt :
      (v : Value N) (input : Input N) (l : ℕ) (n : N)
      → Total js.numbers
      → get_length js v ≡ some l
      → input.value ≡ num n
      → (length_gte js v input ≡ not (length_lt js v input))
        × (length_lte js v input ≡ not (length_gt js v input))
  unfolding Total length_gte length_lt length_lte length_gt
  length_gte-length_lt v input l n total len e =
      rw (len, e) (total (js.numbers.of_nat l) n, total n (js.numbers.of_nat l))
