-- ===== src/Spec/Tree/Explain.antt =====
-- The verdict of an explanation.
use nope.Prelude.{
  ◌≡◌, refl, sym, ap, ◌∙◌, ◌≢◌, Bool, true, false, List, [], ◌∷◌, Option, none, some, Bool-cases,
  inl, inr, arith,
}
use nope.Spec.{Value, Numbers}
use nope.Spec.Tree.{
  Spec, Specs, CompositeMode, Outcome, returned, thrown, promised, field, base, plain, composite,
  nil, cons, all_of, any_of, none_of, settle, negate, evaluate_spec, loop, explain, explain_all,
  explain_outcome, composite_verdict, has_unknown, every_pass, some_pass, create_not_spec, attach,
  verdict_from,
}
use nope.Spec.Tree.Meaning.{settle_logical, settle_negation, proceed_and, proceed_or}

outcome_verdict : (o : Outcome) (b : Bool) → explain_outcome o ≡ some (some b) → settle o ≡ some b
outcome_verdict (returned x) b e = ground arith
outcome_verdict thrown b e = cc
outcome_verdict (promised r) b e = ground arith

verdict_from-some :
    (m : CompositeMode) (o : Option (List (Option Bool))) (b : Bool)
    → verdict_from m o ≡ some (some b)
    → (ps : List (Option Bool)) × (o ≡ some ps) × (composite_verdict m ps ≡ some b)
verdict_from-some m none b e = cc
verdict_from-some m (some ps) b e = (ps, refl, ground arith)

attach-some :
    (o : Option (Option Bool)) (l : Option (List (Option Bool))) (ps : List (Option Bool))
    → attach o l ≡ some ps
    → (p : Option Bool) × (qs : List (Option Bool)) × (o ≡ some p) × (l ≡ some qs) × (ps ≡ p ∷ qs)
attach-some none l ps e = cc
attach-some (some p) none ps e = cc
attach-some (some p) (some qs) ps e = (p, qs, refl, refl, ground arith)

verdict_all :
    (ps : List (Option Bool)) (b : Bool)
    → composite_verdict all_of ps ≡ some b
    → (has_unknown ps ≡ false) × (every_pass ps ≡ b)
unfolding composite_verdict
verdict_all ps b e = elim (Bool-cases (has_unknown ps)) [
  | inl q ↦ absurd (ground (arith, rw q at e))
  | inr q ↦ let e' = rw q at e in (q, ground arith)
]

verdict_any :
    (ps : List (Option Bool)) (b : Bool)
    → composite_verdict any_of ps ≡ some b
    → (has_unknown ps ≡ false) × (some_pass ps ≡ b)
unfolding composite_verdict
verdict_any ps b e = elim (Bool-cases (has_unknown ps)) [
  | inl q ↦ absurd (ground (arith, rw q at e))
  | inr q ↦ let e' = rw q at e in (q, ground arith)
]

-- A negation's verdict is known only where it passes.
verdict_none :
    (p : Option Bool) (ps : List (Option Bool)) (b : Bool)
    → composite_verdict none_of (p ∷ ps) ≡ some b
    → (p ≡ some false) × (b ≡ true)
unfolding composite_verdict
verdict_none none ps b e = cc
verdict_none (some true) ps b e = elim (Bool-cases (has_unknown ps)) [
  | inl q ↦ absurd (ground (arith, rw q at e))
  | inr q ↦ absurd (ground (arith, rw q at e))
]
verdict_none (some false) ps b e = elim (Bool-cases (has_unknown ps)) [
  | inl q ↦ absurd (ground (arith, rw q at e))
  | inr q ↦ let e' = rw q at e in (refl, ground arith)
]

known :
    (p : Option Bool) (ps : List (Option Bool))
    → has_unknown (p ∷ ps) ≡ false
    → (x : Bool) × (p ≡ some x) × (has_unknown ps ≡ false)
known none ps h = cc
known (some x) ps h = (x, refl, h)

-- A negation is of at least one specification.
abbrev pub Applies : {N C : Type 0} → CompositeMode → Specs N C → Type 0
Applies none_of nil = ⊥
Applies none_of (cons s ss) = Unit
Applies all_of ss = Unit
Applies any_of ss = Unit

module _ {N C : Type 0} (ns : Numbers N) where
  -- The foreign specifications of a tree explain what they answer.
  unfoldable mutual
    pub Honest : Spec N C → Value N → C → Type 0
    Honest (field f) v c = Unit
    Honest (base b) v c = Unit
    Honest (plain p) v c =
        (b : Bool) → p.explain v c ≡ some (some b) → evaluate_spec ns (plain p) v c ≡ some b
    Honest (composite m meta ss) v c = Applies m ss × AllHonest ss v c

    pub AllHonest : Specs N C → Value N → C → Type 0
    AllHonest nil v c = Unit
    AllHonest (cons s ss) v c = Honest s v c × AllHonest ss v c

  mutual
    unfolding explain evaluate_spec Honest

    explained :
        (s : Spec N C) (v : Value N) (c : C) (b : Bool)
        → Honest s v c
        → explain ns s v c ≡ some (some b)
        → evaluate_spec ns s v c ≡ some b
    explained (field f) v c b h e = outcome_verdict _ b e
    explained (base x) v c b h e = outcome_verdict _ b e
    explained (plain p) v c b h e = h b e
    explained (composite all_of meta ss) v c b h e =
        let (ps, q, w) = verdict_from-some all_of _ b e in
        let (k, r) = verdict_all ps b w in
        settle_logical ns true ss v c ∙ (loops ss v c ps h.1 q k).0 ∙ ap some r
    explained (composite any_of meta ss) v c b h e =
        let (ps, q, w) = verdict_from-some any_of _ b e in
        let (k, r) = verdict_any ps b w in
        settle_logical ns false ss v c ∙ (loops ss v c ps h.1 q k).1 ∙ ap some r
    explained (composite none_of meta nil) v c b h e = absurd h.0
    explained (composite none_of meta (cons s ss)) v c b h e =
        let (ps, q, w) = verdict_from-some none_of _ b e in
        let (p, qs, f, g, d) = attach-some _ _ ps q in
        let (k, r) = verdict_none p qs b (rw d at w) in
        settle_negation ns s ss v c
        ∙ ap negate (explained s v c false h.1.0 (f ∙ ap some k))
        ∙ ap some (sym r)

    -- The loops over children whose verdicts are all known.
    loops :
        (ss : Specs N C) (v : Value N) (c : C) (ps : List (Option Bool))
        → AllHonest ss v c
        → explain_all ns ss v c ≡ some ps
        → has_unknown ps ≡ false
        → (loop ns true ss v c ≡ some (every_pass ps))
          × (loop ns false ss v c ≡ some (some_pass ps))
    loops nil v c [] h e k = (refl, refl)
    loops nil v c (p ∷ ps) h e k = cc
    loops (cons s ss) v c ps h e k =
        let (p, qs, f, g, d) = attach-some _ _ ps e in
        let (x, px, rest) = known p qs (rw d at k) in
        let (every, any) = loops ss v c qs h.1 g rest in
        let here = explained s v c x h.0 (f ∙ ap some px) in
        rw (d, px, here, every, any) (proceed_and x (every_pass qs), proceed_or x (some_pass qs))

  -- A verdict that an explanation knows is the answer of the specification, asynchronous or not, where
  -- the foreign specifications explain what they answer and every negation is of a specification.
  pub explain-evaluate_spec :
      (s : Spec N C) (v : Value N) (c : C) (b : Bool)
      → Honest s v c
      → explain ns s v c ≡ some (some b)
      → evaluate_spec ns s v c ≡ some b
  explain-evaluate_spec s v c b h e = explained s v c b h e

  -- The explanation of a negation never says that the negation fails.
  pub explain-create_not_spec :
      (s : Spec N C) (v : Value N) (c : C) → explain ns (create_not_spec s) v c ≢ some (some false)
  unfolding explain create_not_spec
  explain-create_not_spec s v c e =
      let (ps, q, w) = verdict_from-some none_of _ false e in
      let (p, qs, f, g, d) = attach-some _ _ ps q in
      absurd (ground (arith, (verdict_none p qs false (rw d at w)).1))
