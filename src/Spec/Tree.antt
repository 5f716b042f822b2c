-- ===== src/Spec/Tree.antt =====
-- packages/specification/src/core/base-spec.ts, core/evaluate.ts, core/combinators.ts and
-- ops/field-spec.ts: specifications as trees, without memoizer and hooks. The metadata of field
-- specifications and composites is kept, of another subclass of `BaseSpec` the id. `none` is an exception or a rejected promise. A specification that is no subclass of `BaseSpec`
-- is given by its methods.
pub mod Meaning
pub mod Explain
pub mod Derived
use nope.Prelude.{
  Text, text, text_eq, text_dec, ℕ, Bool, true, false, not, ◌&&◌, ◌||◌, List, [], ◌∷◌, Option, none,
  some, if◌then◌else◌,
}
use nope.Spec.{Value, Numbers}
use nope.Spec.Paths.{get_path}

-- `MaybePromise<boolean>`, as a call leaves it; a promise with what it settles to.
pub data Outcome : Type 0 where
  returned : Bool → Outcome
  thrown : Outcome
  promised : Option Bool → Outcome

-- `FieldOperatorInput`; an absent `value` is undefined, `extra` are the members without a name of
-- their own.
pub record Input (N : Type 0) : Type 0 where
  pub path : Text
  pub value : Value N
  pub values : Option (List (Value N))
  pub pattern : Option Text
  pub flags : Option Text
  pub min : Option N
  pub max : Option N
  pub extra : List (Text × Value N)

-- `SpecMeta` as a specification keeps it; an `id` of `none` is one that `nextId` made.
pub record SpecMeta : Type 0 where
  pub id : Option Text
  pub name : Option Text
  pub tags : Option (List Text)
  pub version : Option Text
  pub owner : Option Text

abbrev pub no_meta : SpecMeta
no_meta = record { id = none; name = none; tags = none; version = none; owner = none }

abbrev pub newer : {A : Type 0} → Option A → Option A → Option A
newer old none = old
newer old (some a) = some a

-- `meta.id ?? spec.id`
abbrev pub with_id : Option Text → Text → Text
with_id none id = id
with_id (some i) id = i

-- `{ ...spec.meta, ...meta }`
abbrev pub merge_meta : SpecMeta → SpecMeta → SpecMeta
merge_meta old m = record {
  id = newer old.id m.id;
  name = newer old.name m.name;
  tags = newer old.tags m.tags;
  version = newer old.version m.version;
  owner = newer old.owner m.owner;
}

-- `FieldSpec`
pub record FieldSpec (N C : Type 0) : Type 0 where
  pub kind : Text
  pub path : Text
  pub input : Option (Input N)
  pub predicate : Value N → Value N → C → Outcome
  pub meta : SpecMeta

-- Another subclass of `BaseSpec`.
pub record BaseSpec (N C : Type 0) : Type 0 where
  pub id : Text
  pub evaluate : Value N → C → Outcome

-- A specification of another class; `explain` gives the verdict `pass`.
pub record PlainSpec (N C : Type 0) : Type 0 where
  pub id : Option Text
  pub is_satisfied_by : Value N → C → Option Bool
  pub is_satisfied_by_async : Option (Value N → C → Option Bool)
  pub explain : Value N → C → Option (Option Bool)

-- `CompositeMode`
pub data CompositeMode : Type 0 where
  all_of any_of none_of : CompositeMode

mutual
  pub data Spec (N C : Type 0) : Type 0 where
    field : FieldSpec N C → Spec N C
    base : BaseSpec N C → Spec N C
    plain : PlainSpec N C → Spec N C
    composite : CompositeMode → SpecMeta → Specs N C → Spec N C

  pub data Specs (N C : Type 0) : Type 0 where
    nil : Specs N C
    cons : Spec N C → Specs N C → Specs N C

-- A verdict that is no promise, or an exception, as `isSatisfiedBy` makes one of a promise.
abbrev pub at_once : Outcome → Option Bool
at_once (returned b) = some b
at_once thrown = none
at_once (promised r) = none

-- What `Promise.resolve` settles to.
abbrev pub settle : Outcome → Option Bool
settle (returned b) = some b
settle thrown = none
settle (promised r) = r

abbrev pub sync : Option Bool → Outcome
sync none = thrown
sync (some b) = returned b

abbrev pub negate : Option Bool → Option Bool
negate none = none
negate (some b) = some (not b)

-- The step of a loop over the children: it goes on with `rest` while the verdict is `go`.
abbrev pub proceed : Bool → Option Bool → Option Bool → Option Bool
proceed go none rest = none
proceed true (some true) rest = rest
proceed true (some false) rest = some false
proceed false (some false) rest = rest
proceed false (some true) rest = some true

-- `evaluateLogical`, by whether a child is asynchronous and by the answers of its two loops.
abbrev pub evaluate_logical : Bool → Option Bool → Option Bool → Outcome
evaluate_logical true awaited quickly = promised awaited
evaluate_logical false awaited quickly = sync quickly

module _ {N C : Type 0} where
  -- Whether it has a method `isSatisfiedByAsync`.
  abbrev pub has_async : Spec N C → Bool
  has_async (field f) = true
  has_async (base b) = true
  has_async (plain p) = elim p.is_satisfied_by_async [ none ↦ false | some f ↦ true ]
  has_async (composite m meta ss) = true

  abbrev pub some_async : Specs N C → Bool
  some_async nil = false
  some_async (cons s ss) = has_async s || some_async ss

  -- `withMeta`
  unfoldable pub with_meta : Spec N C → SpecMeta → Spec N C
  with_meta (field f) m = field (record f { meta = merge_meta f.meta m })
  with_meta (base b) m = base (record b { id = with_id m.id b.id })
  with_meta (plain p) m = plain p
  with_meta (composite mode meta ss) m = composite mode (merge_meta meta m) ss

  -- `createAllSpec`, `createAnySpec` and `createNotSpec` without metadata, as the combinators
  -- `all`, `any`, `not` and the methods `and`, `or` and `not` call them.
  unfoldable pub create_all_spec : Specs N C → Spec N C
  create_all_spec ss = composite all_of no_meta ss

  unfoldable pub create_any_spec : Specs N C → Spec N C
  create_any_spec ss = composite any_of no_meta ss

  unfoldable pub create_not_spec : Spec N C → Spec N C
  create_not_spec s = composite none_of no_meta (cons s nil)

  unfoldable pub none_spec : Specs N C → Spec N C
  unfolding create_not_spec create_any_spec
  none_spec ss = create_not_spec (create_any_spec ss)

  unfoldable pub xor : Spec N C → Spec N C → Spec N C
  unfolding create_not_spec create_any_spec create_all_spec
  xor a b = create_any_spec (
      cons (create_all_spec (cons a (cons (create_not_spec b) nil)))
        (cons (create_all_spec (cons (create_not_spec a) (cons b nil))) nil))

  unfoldable pub implies : Spec N C → Spec N C → Spec N C
  unfolding create_not_spec create_any_spec
  implies premise conclusion =
      create_any_spec (cons (create_not_spec premise) (cons conclusion nil))

module _ {N C : Type 0} (ns : Numbers N) where
  -- `FieldSpec.evaluate`
  abbrev pub evaluate_field : FieldSpec N C → Value N → C → Outcome
  evaluate_field f v c = f.predicate (get_path ns v f.path) v c

  -- `CompositeSpec.evaluate` calls `evaluateNegation` or `evaluateLogical`, by its mode.
  unfoldable mutual
    pub is_satisfied_by : Spec N C → Value N → C → Option Bool
    is_satisfied_by (field f) v c = at_once (evaluate_field f v c)
    is_satisfied_by (base b) v c = at_once (b.evaluate v c)
    is_satisfied_by (plain p) v c = p.is_satisfied_by v c
    is_satisfied_by (composite none_of meta ss) v c = at_once (evaluate_negation ss v c)
    is_satisfied_by (composite all_of meta ss) v c =
        at_once (evaluate_logical (some_async ss) (loop true ss v c) (quick true ss v c))
    is_satisfied_by (composite any_of meta ss) v c =
        at_once (evaluate_logical (some_async ss) (loop false ss v c) (quick false ss v c))

    -- `evaluateSpec`: `isSatisfiedByAsync` where there is one.
    pub evaluate_spec : Spec N C → Value N → C → Option Bool
    evaluate_spec (field f) v c = settle (evaluate_field f v c)
    evaluate_spec (base b) v c = settle (b.evaluate v c)
    evaluate_spec (plain p) v c = elim p.is_satisfied_by_async [
      | none ↦ p.is_satisfied_by v c
      | some f ↦ f v c
    ]
    evaluate_spec (composite none_of meta ss) v c = settle (evaluate_negation ss v c)
    evaluate_spec (composite all_of meta ss) v c =
        settle (evaluate_logical (some_async ss) (loop true ss v c) (quick true ss v c))
    evaluate_spec (composite any_of meta ss) v c =
        settle (evaluate_logical (some_async ss) (loop false ss v c) (quick false ss v c))

    pub evaluate_negation : Specs N C → Value N → C → Outcome
    evaluate_negation nil v c = thrown
    evaluate_negation (cons s ss) v c =
        if has_async s
        then promised (negate (evaluate_spec s v c))
        else sync (negate (is_satisfied_by s v c))

    -- The loop of `evaluateLogical` with `await`; `go` is true in the mode "and".
    pub loop : Bool → Specs N C → Value N → C → Option Bool
    loop go nil v c = some go
    loop go (cons s ss) v c = proceed go (evaluate_spec s v c) (loop go ss v c)

    -- Its `every`, and its `some` where `go` is false.
    pub quick : Bool → Specs N C → Value N → C → Option Bool
    quick go nil v c = some go
    quick go (cons s ss) v c = proceed go (is_satisfied_by s v c) (quick go ss v c)

-- `computeCompositeVerdict`, on the verdicts of the children; `none` is "unknown".
abbrev pub has_unknown : List (Option Bool) → Bool
has_unknown [] = false
has_unknown (none ∷ ps) = true
has_unknown (some b ∷ ps) = has_unknown ps

abbrev pub every_pass : List (Option Bool) → Bool
every_pass [] = true
every_pass (none ∷ ps) = false
every_pass (some b ∷ ps) = b && every_pass ps

abbrev pub some_pass : List (Option Bool) → Bool
some_pass [] = false
some_pass (none ∷ ps) = some_pass ps
some_pass (some b ∷ ps) = b || some_pass ps

abbrev pub not_verdict : List (Option Bool) → Option Bool
not_verdict [] = some true
not_verdict (none ∷ ps) = none
not_verdict (some true ∷ ps) = none
not_verdict (some false ∷ ps) = some true

unfoldable pub composite_verdict : CompositeMode → List (Option Bool) → Option Bool
composite_verdict all_of ps = if has_unknown ps then none else some (every_pass ps)
composite_verdict any_of ps = if has_unknown ps then none else some (some_pass ps)
composite_verdict none_of ps = if has_unknown ps then none else not_verdict ps

-- `explain` of a specification of its own: the verdict of a promise is unknown.
abbrev pub explain_outcome : Outcome → Option (Option Bool)
explain_outcome (returned b) = some (some b)
explain_outcome thrown = none
explain_outcome (promised r) = some none

abbrev pub verdict_from : CompositeMode → Option (List (Option Bool)) → Option (Option Bool)
verdict_from m none = none
verdict_from m (some ps) = some (composite_verdict m ps)

abbrev pub attach : Option (Option Bool) → Option (List (Option Bool)) → Option (List (Option Bool))
attach none rest = none
attach (some p) none = none
attach (some p) (some ps) = some (p ∷ ps)

module _ {N C : Type 0} (ns : Numbers N) where
  -- `explain`: the verdict `pass` of the node; the outer `none` is an exception.
  unfoldable mutual
    pub explain : Spec N C → Value N → C → Option (Option Bool)
    explain (field f) v c = explain_outcome (evaluate_field ns f v c)
    explain (base b) v c = explain_outcome (b.evaluate v c)
    explain (plain p) v c = p.explain v c
    explain (composite m meta ss) v c = verdict_from m (explain_all ss v c)

    pub explain_all : Specs N C → Value N → C → Option (List (Option Bool))
    explain_all nil v c = some []
    explain_all (cons s ss) v c = attach (explain s v c) (explain_all ss v c)
