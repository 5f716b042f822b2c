-- ===== src/Tests/Specs.antt =====
-- Runs of packages/specification, with natural numbers for numbers and for contexts.
use nope.Prelude.{
  text, text_dec, ℕ, ◌≡◌, refl, Bool, List, true, false, [], ◌∷◌, none, some, ltb, leb, ◌==◌,
  ℕ_discrete, map, if◌then◌else◌,
}
use nope.Spec.{Value, Numbers, num, str, obj, end, member}
use nope.Spec.Paths.{name, tokenize, get_path}
use nope.Spec.Paths.Names.{join_dots, nested, get_path-join_dots}
use nope.Spec.Tree.{
  no_meta, with_meta, settle, Spec, Input, Outcome, returned, promised, field, base, composite, nil,
  cons, all_of, any_of, none_of, evaluate_spec, explain, create_not_spec, composite_verdict,
}
use nope.Spec.Tree.Meaning.{holds, Answers, evaluate_spec-holds}
use nope.Spec.Tree.Explain.{Honest, explain-evaluate_spec}
use nope.Spec.Registry.{
  Registry, Operator, create_registry, add_operators, add_operator, create_field_operator,
  get_operator,
}
use nope.Spec.Ast.{op, not_node, from_ast, to_ast, valid}
use nope.Spec.Ast.RoundTrip.{Registered, Returns, bare, from_ast-to_ast}
use nope.Spec.Ast.Rewrite.{NoRefs, to_ast-from_ast}
use nope.Spec.Memo.{Event, asks, asks_async, settles, AllAnswered, answers-AllAnswered}

abbrev numbers : Numbers ℕ
numbers = record { eq = ◌==◌; lt = ltb; le = leb; of_nat = λ n. n }

abbrev user : Value ℕ
user = obj 1 (
    member (text "age") (num 25)
      (member (text "name") (obj 2 (member (text "first") (str (text "A")) end)) end))

abbrev input : Input ℕ
input = record {
  path = text "age";
  value = num 18;
  values = none;
  pattern = none;
  flags = none;
  min = none;
  max = none;
  extra = [];
}

-- An operator on a field that is a number, at least the input's.
abbrev at_least : Value ℕ → Value ℕ → Bool
at_least (num a) (num b) = leb b a
at_least _ _ = false

abbrev gte : Value ℕ → Value ℕ → ℕ → Input ℕ → Outcome
gte actual root c i = returned (at_least actual i.value)

abbrev gte_operator : Operator ℕ ℕ
gte_operator = record {
  kind = text "gte";
  create = λ i. field (record {
    kind = text "gte";
    path = i.path;
    input = some i;
    predicate = λ a r c. gte a r c i;
    meta = no_meta;
  });
}

abbrev registry : Registry ℕ ℕ
registry = record { operators = (text "gte", gte_operator) ∷ []; specs = [] }

abbrev yes : Spec ℕ ℕ
yes = base (record { id = text "yes"; evaluate = λ v c. returned true })

abbrev later_no : Spec ℕ ℕ
later_no = base (record { id = text "no"; evaluate = λ v c. promised (some false) })

abbrev adult : Spec ℕ ℕ
adult = field (record {
  kind = text "gte";
  path = text "age";
  input = some input;
  predicate = λ a r c. gte a r c input;
  meta = no_meta;
})

abbrev tree : Spec ℕ ℕ
tree =
    composite all_of no_meta (cons yes (cons (composite none_of no_meta (cons later_no nil)) nil))

evaluate_spec-holds_example : evaluate_spec numbers tree user 0 ≡ some (holds numbers tree user 0)
unfolding Answers evaluate_spec
evaluate_spec-holds_example = evaluate_spec-holds numbers tree user 0 (tt, ((tt, (tt, tt)), tt))

explain-evaluate_spec_example :
    evaluate_spec numbers (composite any_of no_meta (cons yes (cons yes nil))) user 0 ≡ some true
unfolding Honest explain composite_verdict
explain-evaluate_spec_example =
    explain-evaluate_spec numbers (composite any_of no_meta (cons yes (cons yes nil))) user 0 true
      (tt, (tt, (tt, tt))) refl

-- A negation with a name.
abbrev minor : Spec ℕ ℕ
minor = with_meta (create_not_spec adult) (record no_meta { name = some (text "minor") })

from_ast-to_ast_example : Returns registry minor
unfolding Registered get_operator text_dec bare with_meta create_not_spec
from_ast-to_ast_example =
    from_ast-to_ast registry minor (tt, ((gte_operator, refl, refl, refl), tt))

to_ast-from_ast_example :
    to_ast false (composite none_of no_meta (cons adult nil))
    ≡ some (not_node (op (text "gte") input))
unfolding create_registry add_operators add_operator valid create_field_operator from_ast NoRefs
    get_operator text_dec create_not_spec
to_ast-from_ast_example =
    to_ast-from_ast registry ((text "gte", gte) ∷ []) false (not_node (op (text "gte") input))
      (composite none_of no_meta (cons adult nil)) refl tt refl

get_path-join_dots_example :
    (tokenize (join_dots (text "name" ∷ text "first" ∷ []))
      ≡ map name (text "name" ∷ text "first" ∷ []))
    × (get_path numbers user (join_dots (text "name" ∷ text "first" ∷ []))
        ≡ nested numbers user (text "name" ∷ text "first" ∷ []))
get_path-join_dots_example =
    get_path-join_dots numbers user (text "name") (text "first" ∷ [])
      ((refl, (refl, (refl, (refl, tt)))), ((refl, (refl, (refl, (refl, (refl, tt))))), tt))

abbrev own_hash : ℕ → ℕ
own_hash n = n

-- Small numbers are answered at once, the others by a promise.
abbrev small : ℕ → ℕ → Outcome
small n c = if ltb n 5 then returned true else promised (some false)

small_same : (v w : ℕ) (c d : ℕ) → own_hash v ≡ own_hash w → settle (small v c) ≡ settle (small w d)
small_same v w c d e = rw e refl

abbrev events : List (Event ℕ ℕ)
events =
    asks 3 0
    ∷ asks 8 0
    ∷ asks_async 8 0
    ∷ asks_async 3 1
    ∷ settles 0
    ∷ asks 8 1
    ∷ asks_async 8 1
    ∷ []

answers-AllAnswered_example :
    AllAnswered ℕ_discrete own_hash small (record { entry = none; waiting = [] }) events
answers-AllAnswered_example = answers-AllAnswered ℕ_discrete own_hash small events small_same
