-- ===== src/Expression/Validator/WellFormed.antt =====
-- Which expressions the validator takes.
use nope.Prelude.{
  ℕ, ◌+◌, ◌≤◌, ◌≡◌, refl, ◌∙◌, subst, true, false, List, [], ◌∷◌, ◌++◌, ◌↔◌, inl, inr, Bool-cases,
  arith, Text, text,
}
use nope.Spec.{
  Value, Values, undefined, null, bool, num, str, arr, obj, nil, cons, end, member, length_values,
}
use nope.Expression.Validator.{
  operator, index, Where, Problem, Requirement, anything, exact, min, between, requirement_of,
  count_problems, is_nested, nested_problems, arg_count, is_array, validate_operator_args,
  validate_operation, elements, validate_each,
}

-- The number of arguments that an operator takes.
abbrev pub Takes : Requirement → ℕ → Type 0
Takes anything n = Unit
Takes (exact e) n = n ≡ e
Takes (min m) n = m ≤ n
Takes (between m x) n = (m ≤ n) × (n ≤ x)

count_problems_iff :
    (r : Requirement) (n : ℕ) (path : Where) → (count_problems r n path ≡ []) ↔ Takes r n
unfolding count_problems
count_problems_iff anything n path = (λ _. tt, λ _. refl)
count_problems_iff (exact e) n path = (λ h. ground (arith, h), λ h. ground (arith, h))
count_problems_iff (min m) n path = (λ h. ground (arith, h), λ h. ground (arith, h))
count_problems_iff (between m x) n path = (λ h. ground (arith, h), λ h. ground (arith, h))

pub append_nil_iff : {A : Type 0} (xs ys : List A) → ((xs ++ ys) ≡ []) ↔ ((xs ≡ []) × (ys ≡ []))
append_nil_iff [] ys = (λ e. (refl, e), λ p. p.1)
append_nil_iff (x ∷ xs) ys = (λ e. cc, λ p. absurd (let q = p.0 in cc))

-- The rules of well-formed operations and arguments. An array of one element is an operation too, with
-- the operator `0`.
mutual
  pub data IsOperation {N : Type 0} : Value N → Type 0 where
    operation :
        (i : ℕ) (op : Text) (args : Value N)
        → Takes (requirement_of op) (arg_count args)
        → AreArguments args
        → IsOperation (obj i (member op args end))
    single :
        (i : ℕ) (args : Value N)
        → Takes (requirement_of (text "0")) (arg_count args)
        → AreArguments args
        → IsOperation (arr i (cons args nil))

  pub data AreArguments {N : Type 0} : Value N → Type 0 where
    many : (i : ℕ) (vs : Values N) → AllArguments vs → AreArguments (arr i vs)
    alone : (v : Value N) → is_array v ≡ false → IsArgument v → AreArguments v

  pub data IsArgument {N : Type 0} : Value N → Type 0 where
    simple : (v : Value N) → is_nested v ≡ false → IsArgument v
    nested : (v : Value N) → is_nested v ≡ true → IsOperation v → IsArgument v

  pub data AllArguments {N : Type 0} : Values N → Type 0 where
    no_more : AllArguments nil
    also : (v : Value N) (vs : Values N) → IsArgument v → AllArguments vs → AllArguments (cons v vs)

module _ {N : Type 0} where
  argument_sound :
      (v : Value N) (ps : List Problem)
      → (ps ≡ [] → IsOperation v)
      → nested_problems v ps ≡ []
      → IsArgument v
  argument_sound v ps f e = elim (Bool-cases (is_nested v)) [
    | inl b ↦ nested v b (f (rw b at e))
    | inr b ↦ simple v b
  ]

  simple_sound :
      (op : Text) (v : Value N) (path : Where) (ps : List Problem)
      → is_array v ≡ false
      → is_nested v ≡ false
      → (count_problems (requirement_of op) 1 path ++ ps) ≡ []
      → Takes (requirement_of op) 1 × AreArguments v
  simple_sound op v path ps a b e =
      let (c, _) = (append_nil_iff (count_problems (requirement_of op) 1 path) ps).0 e in
      ((count_problems_iff (requirement_of op) 1 path).0 c, alone v a (simple v b))

  mutual
    unfolding validate_operation elements validate_each

    pub operation_sound :
        (v : Value N) (path : Where) → validate_operation v path ≡ [] → IsOperation v
    operation_sound (obj i (member op args end)) path e =
        let p = path ++ operator op ∷ [] in
        let (t, a) =
          arguments_sound op args p (p ++ index 0 ∷ []) (operation_sound args (p ++ index 0 ∷ []))
            e in
        operation i op args t a
    operation_sound (obj i end) path e = cc
    operation_sound (obj i (member op args (member k v ms))) path e = cc
    operation_sound (arr i nil) path e = cc
    operation_sound (arr i (cons args nil)) path e =
        let p = path ++ operator (text "0") ∷ [] in
        let (t, a) =
          arguments_sound (text "0") args p (p ++ index 0 ∷ [])
            (operation_sound args (p ++ index 0 ∷ [])) e in
        single i args t a
    operation_sound (arr i (cons v (cons w vs))) path e = cc
    operation_sound undefined path e = cc
    operation_sound null path e = cc
    operation_sound (bool b) path e = cc
    operation_sound (num n) path e = cc
    operation_sound (str t) path e = cc

    arguments_sound :
        (op : Text) (args : Value N) (path p : Where)
        → (validate_operation args p ≡ [] → IsOperation args)
        → validate_operator_args op args path (elements args path) (validate_operation args p) ≡ []
        → Takes (requirement_of op) (arg_count args) × AreArguments args
    arguments_sound op (arr i vs) path p f e =
        let (c, d) =
          (append_nil_iff (count_problems (requirement_of op) (length_values vs) path)
              (validate_each vs 0 path)).0
            e in
        (
          (count_problems_iff (requirement_of op) (length_values vs) path).0 c,
          many i vs (each_sound vs 0 path d),
        )
    arguments_sound op (obj i ms) path p f e =
        let (c, d) =
          (append_nil_iff (count_problems (requirement_of op) 1 path)
              (nested_problems (obj i ms) (validate_operation (obj i ms) p))).0
            e in
        (
          (count_problems_iff (requirement_of op) 1 path).0 c,
          alone (obj i ms) refl (argument_sound (obj i ms) (validate_operation (obj i ms) p) f d),
        )
    arguments_sound op undefined path p f e = simple_sound op undefined path [] refl refl e
    arguments_sound op null path p f e = simple_sound op null path [] refl refl e
    arguments_sound op (bool b) path p f e = simple_sound op (bool b) path [] refl refl e
    arguments_sound op (num n) path p f e = simple_sound op (num n) path [] refl refl e
    arguments_sound op (str t) path p f e = simple_sound op (str t) path [] refl refl e

    each_sound :
        (vs : Values N) (n : ℕ) (path : Where) → validate_each vs n path ≡ [] → AllArguments vs
    each_sound nil n path e = no_more
    each_sound (cons v vs) n path e =
        let (c, d) =
          (append_nil_iff (nested_problems v (validate_operation v (path ++ index n ∷ [])))
              (validate_each vs (n + 1) path)).0
            e in
        also v vs
          (argument_sound v (validate_operation v (path ++ index n ∷ []))
            (operation_sound v (path ++ index n ∷ [])) c)
          (each_sound vs (n + 1) path d)

  count_alone : (v : Value N) → is_array v ≡ false → arg_count v ≡ 1
  count_alone (arr i vs) a = cc
  count_alone (obj i ms) a = refl
  count_alone undefined a = refl
  count_alone null a = refl
  count_alone (bool b) a = refl
  count_alone (num n) a = refl
  count_alone (str t) a = refl

  problems_alone :
      (op : Text) (v : Value N) (path : Where) (each one : List Problem)
      → is_array v ≡ false
      → validate_operator_args op v path each one
        ≡ count_problems (requirement_of op) 1 path ++ nested_problems v one
  problems_alone op (arr i vs) path each one a = cc
  problems_alone op (obj i ms) path each one a = refl
  problems_alone op undefined path each one a = refl
  problems_alone op null path each one a = refl
  problems_alone op (bool b) path each one a = refl
  problems_alone op (num n) path each one a = refl
  problems_alone op (str t) path each one a = refl

  mutual
    unfolding validate_operation elements validate_each

    pub operation_complete :
        (v : Value N) → IsOperation v → (path : Where) → validate_operation v path ≡ []
    operation_complete v (operation i op args t a) path =
        let p = path ++ operator op ∷ [] in arguments_complete args a op p (p ++ index 0 ∷ []) t
    operation_complete v (single i args t a) path =
        let p = path ++ operator (text "0") ∷ [] in
        arguments_complete args a (text "0") p (p ++ index 0 ∷ []) t

    arguments_complete :
        (args : Value N)
        → AreArguments args
        → (op : Text) (path p : Where) → Takes (requirement_of op) (arg_count args)
        → validate_operator_args op args path (elements args path) (validate_operation args p) ≡ []
    arguments_complete args (many i vs h) op path p t =
        (append_nil_iff (count_problems (requirement_of op) (length_values vs) path)
            (validate_each vs 0 path)).1
          (
            (count_problems_iff (requirement_of op) (length_values vs) path).1 t,
            each_complete vs h 0 path,
          )
    arguments_complete args (alone v a h) op path p t =
        problems_alone op v path (elements v path) (validate_operation v p) a
        ∙ (append_nil_iff (count_problems (requirement_of op) 1 path)
              (nested_problems v (validate_operation v p))).1
            (
              (count_problems_iff (requirement_of op) 1 path).1
                  (subst (Takes (requirement_of op)) (count_alone v a) t),
              argument_complete v h p,
            )

    argument_complete :
        (v : Value N)
        → IsArgument v
        → (path : Where) → nested_problems v (validate_operation v path) ≡ []
    argument_complete v (simple _ b) path = rw b refl
    argument_complete v (nested _ b h) path = rw b (operation_complete v h path)

    each_complete :
        (vs : Values N) → AllArguments vs → (n : ℕ) (path : Where) → validate_each vs n path ≡ []
    each_complete vs no_more n path = refl
    each_complete _ (also v vs h k) n path =
        (append_nil_iff (nested_problems v (validate_operation v (path ++ index n ∷ [])))
            (validate_each vs (n + 1) path)).1
          (argument_complete v h (path ++ index n ∷ []), each_complete vs k (n + 1) path)
