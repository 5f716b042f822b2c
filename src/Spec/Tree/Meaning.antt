-- ===== src/Spec/Tree/Meaning.antt =====
-- What a tree of specifications says is what the Boolean formula of its leaves says.
use nope.Prelude.{
  ◌≡◌, refl, ap, ◌∙◌, Bool, true, false, not, ◌&&◌, ◌||◌, Option, none, some, Bool-cases,
  Option-cases, inl, inr, arith,
}
use nope.Spec.{Value, Numbers}
use nope.Spec.Tree.{
  Spec, Specs, field, base, plain, composite, nil, cons, all_of, any_of, none_of, settle, sync,
  negate, proceed, has_async, some_async, is_satisfied_by, evaluate_spec, evaluate_logical,
  evaluate_negation, loop, quick,
}

-- An answer that is an error counts as a no.
abbrev pub yes : Option Bool → Bool
yes none = false
yes (some b) = b

abbrev pub Answered : Option Bool → Type 0
Answered none = ⊥
Answered (some b) = Unit

yes-Answered : (o : Option Bool) → Answered o → o ≡ some (yes o)
yes-Answered none a = absurd a
yes-Answered (some b) a = refl

settle-sync : (o : Option Bool) → settle (sync o) ≡ o
settle-sync none = refl
settle-sync (some b) = refl

pub proceed_and : (a b : Bool) → proceed true (some a) (some b) ≡ some (a && b)
proceed_and true b = refl
proceed_and false b = refl

pub proceed_or : (a b : Bool) → proceed false (some a) (some b) ≡ some (a || b)
proceed_or true b = refl
proceed_or false b = refl

or_nil : (a : Bool) → a ≡ (a || false)
or_nil true = refl
or_nil false = refl

or_false : (a b : Bool) → (a || b) ≡ false → (a ≡ false) × (b ≡ false)
or_false true b h = cc
or_false false b h = (refl, h)

-- A negation's list of children has one.
abbrev pub Single : {N C : Type 0} → Specs N C → Type 0
Single nil = ⊥
Single (cons s nil) = Unit
Single (cons s (cons t ss)) = ⊥

module _ {N C : Type 0} (ns : Numbers N) where
  -- The formula: `and`, `or` and `not` over the answers of the leaves.
  unfoldable mutual
    pub holds : Spec N C → Value N → C → Bool
    holds (field f) v c = yes (evaluate_spec ns (field f) v c)
    holds (base b) v c = yes (evaluate_spec ns (base b) v c)
    holds (plain p) v c = yes (evaluate_spec ns (plain p) v c)
    holds (composite all_of meta ss) v c = all_hold ss v c
    holds (composite any_of meta ss) v c = any_holds ss v c
    holds (composite none_of meta ss) v c = not (any_holds ss v c)

    pub all_hold : Specs N C → Value N → C → Bool
    all_hold nil v c = true
    all_hold (cons s ss) v c = holds s v c && all_hold ss v c

    pub any_holds : Specs N C → Value N → C → Bool
    any_holds nil v c = false
    any_holds (cons s ss) v c = holds s v c || any_holds ss v c

  -- No leaf fails to answer, and every negation is of one specification.
  unfoldable mutual
    pub Answers : Spec N C → Value N → C → Type 0
    Answers (field f) v c = Answered (evaluate_spec ns (field f) v c)
    Answers (base b) v c = Answered (evaluate_spec ns (base b) v c)
    Answers (plain p) v c = Answered (evaluate_spec ns (plain p) v c)
    Answers (composite all_of meta ss) v c = AllAnswer ss v c
    Answers (composite any_of meta ss) v c = AllAnswer ss v c
    Answers (composite none_of meta ss) v c = Single ss × AllAnswer ss v c

    pub AllAnswer : Specs N C → Value N → C → Type 0
    AllAnswer nil v c = Unit
    AllAnswer (cons s ss) v c = Answers s v c × AllAnswer ss v c

  -- Without asynchronous methods both ways to ask are the same.
  evaluate_spec_sync :
      (s : Spec N C) (v : Value N) (c : C)
      → has_async s ≡ false
      → is_satisfied_by ns s v c ≡ evaluate_spec ns s v c
  unfolding evaluate_spec
  evaluate_spec_sync (field f) v c h = cc
  evaluate_spec_sync (base b) v c h = cc
  evaluate_spec_sync (composite m meta ss) v c h = cc
  evaluate_spec_sync (plain p) v c h = elim (Option-cases p.is_satisfied_by_async) [
    | inl e ↦ rw (evaluate_spec, e) refl
    | inr (f, e) ↦ absurd (ground (arith, rw (has_async, e) at h))
  ]

  quick-loop :
      (go : Bool) (ss : Specs N C) (v : Value N) (c : C)
      → some_async ss ≡ false
      → quick ns go ss v c ≡ loop ns go ss v c
  unfolding loop
  quick-loop go nil v c h = refl
  quick-loop go (cons s ss) v c h =
      let (h1, h2) = or_false (has_async s) (some_async ss) h in
      ap (λ a. proceed go a (quick ns go ss v c)) (evaluate_spec_sync s v c h1)
      ∙ ap (proceed go (evaluate_spec ns s v c)) (quick-loop go ss v c h2)

  pub settle_logical :
      (go : Bool) (ss : Specs N C) (v : Value N) (c : C)
      → settle (evaluate_logical (some_async ss) (loop ns go ss v c) (quick ns go ss v c))
        ≡ loop ns go ss v c
  settle_logical go ss v c = elim (Bool-cases (some_async ss)) [
    | inl e ↦ rw e refl
    | inr e ↦ rw e (settle-sync (quick ns go ss v c) ∙ quick-loop go ss v c e)
  ]

  pub settle_negation :
      (s : Spec N C) (ss : Specs N C) (v : Value N) (c : C)
      → settle (evaluate_negation ns (cons s ss) v c) ≡ negate (evaluate_spec ns s v c)
  unfolding evaluate_negation
  settle_negation s ss v c = elim (Bool-cases (has_async s)) [
    | inl e ↦ rw e refl
    | inr e ↦
        rw e
          (settle-sync (negate (is_satisfied_by ns s v c)) ∙ ap negate (evaluate_spec_sync s v c e))
  ]

  mutual
    unfolding evaluate_spec holds Answers

    answer :
        (s : Spec N C) (v : Value N) (c : C)
        → Answers s v c
        → evaluate_spec ns s v c ≡ some (holds s v c)
    answer (field f) v c h = yes-Answered _ h
    answer (base b) v c h = yes-Answered _ h
    answer (plain p) v c h = yes-Answered _ h
    answer (composite all_of meta ss) v c h = settle_logical true ss v c ∙ loop_all ss v c h
    answer (composite any_of meta ss) v c h = settle_logical false ss v c ∙ loop_any ss v c h
    answer (composite none_of meta nil) v c h = absurd h.0
    answer (composite none_of meta (cons s nil)) v c h =
        settle_negation s nil v c
        ∙ ap negate (answer s v c h.1.0)
        ∙ ap (λ b. some (not b)) (or_nil (holds s v c))
    answer (composite none_of meta (cons s (cons t ss))) v c h = absurd h.0

    loop_all :
        (ss : Specs N C) (v : Value N) (c : C)
        → AllAnswer ss v c
        → loop ns true ss v c ≡ some (all_hold ss v c)
    loop_all nil v c h = refl
    loop_all (cons s ss) v c h =
        rw (answer s v c h.0, loop_all ss v c h.1) (proceed_and (holds s v c) (all_hold ss v c))

    loop_any :
        (ss : Specs N C) (v : Value N) (c : C)
        → AllAnswer ss v c
        → loop ns false ss v c ≡ some (any_holds ss v c)
    loop_any nil v c h = refl
    loop_any (cons s ss) v c h =
        rw (answer s v c h.0, loop_any ss v c h.1) (proceed_or (holds s v c) (any_holds ss v c))

  -- Where every leaf answers, and every negation is of one specification, a tree of specifications
  -- answers, and says what the Boolean formula says that it spells over the answers of its leaves.
  pub evaluate_spec-holds :
      (s : Spec N C) (v : Value N) (c : C)
      → Answers s v c
      → evaluate_spec ns s v c ≡ some (holds s v c)
  evaluate_spec-holds s v c h = answer s v c h
