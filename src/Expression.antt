-- ===== src/Expression.antt =====
-- packages/expression: expressions as JSON logic. Values are those of `Spec`; the members of an object
-- have different names. An operation is an object, given by its members; `operations` is always there,
-- as the type of a schema says. `multipleOperations` is any text, since the code tests it.
pub mod Analyzer
pub mod Recursion
pub mod Validator
pub mod Evaluator
use nope.Prelude.{
  Bool, true, false, ◌||◌, List, Option, none, some, if◌then◌else◌, Text, text, text_eq,
}
use nope.Spec.{Value, Values, Members, undefined, null, bool, num, str, arr, obj, end, member}

-- `ExpressionSchema`
pub record Schema (N : Type 0) : Type 0 where
  pub id : Text
  pub name : Text
  pub description : Text
  pub multiple_operations : Text
  pub operations : List (Members N)
  pub version : Option Text

module _ {N : Type 0} where
  abbrev pub get_member : Members N → Text → Option (Value N)
  get_member end k = none
  get_member (member j v ms) k = let rest = get_member ms k in if text_eq j k then some v else rest

  -- `k in operand`
  abbrev pub has_member : Members N → Text → Bool
  has_member end k = false
  has_member (member j v ms) k = text_eq j k || has_member ms k

  -- `operand[k]`, if it is a string.
  abbrev pub as_text : Option (Value N) → Option Text
  as_text (some (str t)) = some t
  as_text _ = none

  abbrev pub string_member : Members N → Text → Option Text
  string_member ms k = as_text (get_member ms k)

  -- An operand that is no operation: it has a member `var`, `val`, `ref` or `literal`.
  abbrev pub is_operand : Members N → Bool
  is_operand ms =
      has_member ms (text "var")
      || has_member ms (text "val")
      || has_member ms (text "ref")
      || has_member ms (text "literal")
