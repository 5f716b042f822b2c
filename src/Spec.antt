-- ===== src/Spec.antt =====
-- packages/specification: values, numbers and texts, as the specifications see them. A text is the
-- list of its code units. A floating-point number is a parameter `N` with the comparisons of the
-- language; so is the test of a regular expression. An array or object carries its identity, by which
-- `===` compares it. Members that come from prototypes, other than the length, are not modelled.
pub mod Paths
pub mod Operators
pub mod Tree
pub mod Ast
pub mod Registry
pub mod Memo
use nope.Prelude.{
  Text, text, text_eq, text_dec, ℕ, zero, suc, ◌+◌, ◌-◌, ◌*◌, Bool, true, false, not, ◌&&◌, ◌||◌,
  List, [], ◌∷◌, Option, none, some, ltb, leb, ◌==◌, if◌then◌else◌, ite, ℕ_discrete, ◌≡◌, refl,
}

-- The numbers of the language: `of_nat` is the number of a length or an index.
pub record Numbers (N : Type 0) : Type 0 where
  pub eq : N → N → Bool
  pub lt : N → N → Bool
  pub le : N → N → Bool
  pub of_nat : ℕ → N

mutual
  pub data Value (N : Type 0) : Type 0 where
    undefined : Value N
    null : Value N
    bool : Bool → Value N
    num : N → Value N
    str : Text → Value N
    arr : ℕ → Values N → Value N
    obj : ℕ → Members N → Value N

  pub data Values (N : Type 0) : Type 0 where
    nil : Values N
    cons : Value N → Values N → Values N

  pub data Members (N : Type 0) : Type 0 where
    end : Members N
    member : Text → Value N → Members N → Members N

abbrev bool_eq : Bool → Bool → Bool
bool_eq true b = b
bool_eq false b = not b

module _ {N : Type 0} where
  -- `value == null`
  abbrev pub nullish : Value N → Bool
  nullish undefined = true
  nullish null = true
  nullish _ = false

  abbrev pub length_values : Values N → ℕ
  length_values nil = 0
  length_values (cons v vs) = suc (length_values vs)

  abbrev pub length_members : Members N → ℕ
  length_members end = 0
  length_members (member k v ms) = suc (length_members ms)

  abbrev pub value_at : Values N → ℕ → Value N
  value_at nil i = undefined
  value_at (cons v vs) zero = v
  value_at (cons v vs) (suc i) = value_at vs i

  -- `a === b`
  abbrev pub strict_eq : Numbers N → Value N → Value N → Bool
  strict_eq ns undefined undefined = true
  strict_eq ns null null = true
  strict_eq ns (bool a) (bool b) = bool_eq a b
  strict_eq ns (num a) (num b) = ns.eq a b
  strict_eq ns (str a) (str b) = text_eq a b
  strict_eq ns (arr i a) (arr j b) = i == j
  strict_eq ns (obj i a) (obj j b) = i == j
  strict_eq ns _ _ = false
