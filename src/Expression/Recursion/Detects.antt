-- ===== src/Expression/Recursion/Detects.antt =====
-- `checkRecursion` ends, reports only cycles, and reports one where there is one.
use nope.Prelude.{
  ℕ, zero, suc, ◌≤◌, ◌<◌, ◌≡◌, refl, sym, ap, ◌∙◌, subst, true, false, List, [], ◌∷◌, ◌++◌, Option,
  some, append_assoc, append-nil, All, ◌⊎◌, inl, inr, Bool-cases, arith, Text, text_dec, if_false,
}
use nope.Prelude.Sets.{
  In, In-append_cases, In-append_left, In-append_right, has, remove, has-In, not_has, remove-concat,
  fresh, fresh-concat-le, fresh-concat-lt, All-append, All-of_In, All-In,
}
use nope.Expression.Recursion.{Search, each, enter, leave, check_recursion}
use nope.Expression.Recursion.Walks.{Safe, safe, Chain, Chain-concat, Chain-Walk, IsCircular}

module _ (refs : Text → List Text) (ids : List Text) where
  -- What was visited and left again reaches no cycle.
  abbrev pub Settled : Search → Type 0
  Settled s = (v : Text) → In v s.visited → In v s.stack ⊎ Safe refs v

  -- From one state to the next: the stack is the same, nothing visited is forgotten, what is reported
  -- is circular, and where nothing is reported the ids are safe.
  pub record Post (rs : List Text) (s t : Search) : Type 0 where
    pub stack : t.stack ≡ s.stack
    pub fewer : fresh text_dec ids t.visited ≤ fresh text_dec ids s.visited
    pub new : List (List Text)
    pub issues : t.issues ≡ s.issues ++ new
    pub circular : All (IsCircular refs) new
    pub settled : new ≡ [] → Settled s → Settled t × All (Safe refs) rs

  abbrev Ends : List Text → Search → Option Search → Type 0
  Ends rs s o = (t : Search) × (o ≡ some t) × Post rs s t

  pub append_none : (xs ys : List (List Text)) → xs ++ ys ≡ [] → (xs ≡ []) × (ys ≡ [])
  append_none [] ys e = (refl, e)
  append_none (x ∷ xs) ys e = cc

  Post-trans :
      (r : Text) (rs : List Text) (s t u : Search)
      → Post (r ∷ []) s t
      → Post rs t u
      → Post (r ∷ rs) s u
  Post-trans r rs s t u p q = record {
    stack = q.stack ∙ p.stack;
    fewer = omega (arith, p.fewer, q.fewer);
    new = p.new ++ q.new;
    issues = q.issues ∙ ap (λ l. l ++ q.new) p.issues ∙ append_assoc s.issues p.new q.new;
    circular = All-append (IsCircular refs) p.new q.new p.circular q.circular;
    settled = λ e h.
        let (e1, e2) = append_none p.new q.new e in
        let (h1, a1) = p.settled e1 h in let (h2, a2) = q.settled e2 h1 in (h2, (a1.0, a2));
  }

  same_Post : (rs : List Text) (s : Search) → (Settled s → All (Safe refs) rs) → Post rs s s
  same_Post rs s h = record {
    stack = refl;
    fewer = omega arith;
    new = [];
    issues = sym (append-nil s.issues);
    circular = tt;
    settled = λ _ k. (k, h k);
  }

  same_Ends : (s : Search) → Ends [] s (some s)
  same_Ends s = (s, refl, same_Post [] s (λ _. tt))

  each_next :
      (f : Text → Search → Option Search) (r : Text) (rs : List Text) (s t : Search)
      → f r s ≡ some t
      → each f (r ∷ rs) s ≡ each f rs t
  each_next f r rs s t q = rw (q, each) refl

  each-Ends :
      (f : Text → Search → Option Search) (path : List Text) (m : ℕ)
      → ((r : Text) (s : Search)
          → fresh text_dec ids s.visited < m
          → s.stack ≡ path
          → Chain refs (path ++ r ∷ [])
          → Ends (r ∷ []) s (f r s))
      → (rs : List Text) (s : Search) → fresh text_dec ids s.visited < m
      → s.stack ≡ path
      → All (λ r. Chain refs (path ++ r ∷ [])) rs
      → Ends rs s (each f rs s)
  each-Ends f path m g [] s l e c = same_Ends s
  each-Ends f path m g (r ∷ rs) s l e c =
      let (t, q, p) = g r s l e c.0 in
      let (u, q', p') = each-Ends f path m g rs t (omega (arith, l, p.fewer)) (p.stack ∙ e) c.1 in
      (u, each_next f r rs s t q ∙ q', Post-trans r rs s t u p p')

  -- Either the id is one of those that are counted, or it refers to nothing.
  module _ (known : (v : Text) → In v ids ⊎ (refs v ≡ [])) where
    entered_fewer :
        (n : ℕ) (v : Text) (s : Search)
        → has text_dec s.visited v ≡ false
        → fresh text_dec ids s.visited < suc n
        → In v ids
        → fresh text_dec ids (s.visited ++ v ∷ []) < n
    entered_fewer n v s b l i = omega (arith, l, fresh-concat-lt text_dec ids s.visited v b i)

    -- The loop over the references of an id that is entered.
    inside_Ends :
        (f : Text → Search → Option Search) (path : List Text) (n : ℕ) (v : Text) (s : Search)
        → (In v ids → fresh text_dec ids s.visited < n)
        → ((r : Text) (x : Search)
            → fresh text_dec ids x.visited < n
            → x.stack ≡ path
            → Chain refs (path ++ r ∷ [])
            → Ends (r ∷ []) x (f r x))
        → s.stack ≡ path
        → All (λ r. Chain refs (path ++ r ∷ [])) (refs v)
        → Ends (refs v) s (each f (refs v) s)
    inside_Ends f path n v s l g e c = elim (known v) [
      | inl i ↦ each-Ends f path n g (refs v) s (l i) e c
      | inr z ↦ subst (λ rs. Ends rs s (each f rs s)) (sym z) (same_Ends s)
    ]

    seen_safe :
        (v : Text) (s : Search)
        → has text_dec s.stack v ≡ false
        → has text_dec s.visited v ≡ true
        → Settled s
        → Safe refs v
    seen_safe v s b d h = elim (h v (has-In text_dec s.visited v d)) [
      | inl i ↦ absurd (not_has text_dec s.stack v b i)
      | inr k ↦ k
    ]

    settle_last :
        (v : Text) (stack : List Text) (w : Text)
        → Safe refs v
        → In w (stack ++ v ∷ []) ⊎ Safe refs w
        → In w stack ⊎ Safe refs w
    settle_last v stack w h (inr k) = inr k
    settle_last v stack w h (inl i) = elim (In-append_cases w stack (v ∷ []) i) [
      | inl j ↦ inl j
      | inr (inl e) ↦ inr (subst (Safe refs) e h)
      | inr (inr k) ↦ elim k [ ]
    ]

    -- What holds after an id has been entered, its references followed, and the id left.
    left_Post :
        (v : Text) (s s' t : Search)
        → has text_dec s.stack v ≡ false
        → s'.stack ≡ s.stack ++ v ∷ []
        → s'.visited ≡ s.visited ++ v ∷ []
        → s'.issues ≡ s.issues
        → Post (refs v) s' t
        → Post (v ∷ []) s (record t { stack = remove text_dec t.stack v })
    left_Post v s s' t b es ev ei p = record {
      stack = ap (λ l. remove text_dec l v) (p.stack ∙ es) ∙ remove-concat text_dec s.stack v b;
      fewer =
          let le : fresh text_dec ids s'.visited ≤ fresh text_dec ids s.visited =
            subst (λ l. fresh text_dec ids l ≤ fresh text_dec ids s.visited) (sym ev)
              (fresh-concat-le text_dec ids s.visited v) in
          omega (arith, p.fewer, le);
      new = p.new;
      issues = p.issues ∙ ap (λ l. l ++ p.new) ei;
      circular = p.circular;
      settled = λ e h.
          let before : Settled s' = λ w i.
            elim (In-append_cases w s.visited (v ∷ []) (subst (In w) ev i)) [
              | inl j ↦ elim (h w j) [
                | inl k ↦ inl (subst (In w) (sym es) (In-append_left w s.stack (v ∷ []) k))
                | inr k ↦ inr k
              ]
              | inr j ↦ inl (subst (In w) (sym es) (In-append_right w s.stack (v ∷ []) j))
            ] in
          let (after, all) = p.settled e before in
          let done : Safe refs v = safe v (λ w i. All-In (Safe refs) (refs v) w all i) in
          let back : remove text_dec t.stack v ≡ s.stack =
            ap (λ l. remove text_dec l v) (p.stack ∙ es) ∙ remove-concat text_dec s.stack v b in
          (
            λ w i.
                subst (λ l. In w l ⊎ Safe refs w) (sym back)
                  (settle_last v s.stack w done
                    (subst (λ l. In w l ⊎ Safe refs w) (p.stack ∙ es) (after w i))),
            (done, tt),
          );
    }

    check_enter :
        (n : ℕ) (v : Text) (path : List Text) (s : Search)
        → has text_dec s.stack v ≡ false
        → has text_dec s.visited v ≡ false
        → check_recursion refs (suc n) v path s
          ≡ leave v (each (λ r x. check_recursion refs n r (path ++ v ∷ []) x) (refs v) (enter v s))
    unfolding check_recursion
    check_enter n v path s b d = if_false _ _ _ b ∙ if_false _ _ _ d

    -- With more fuel than ids that were not visited, the search of an id ends.
    pub check_recursion-Ends :
        (n : ℕ) (v : Text) (path : List Text) (s : Search)
        → fresh text_dec ids s.visited < n
        → s.stack ≡ path
        → Chain refs (path ++ v ∷ [])
        → Ends (v ∷ []) s (check_recursion refs n v path s)
    unfolding check_recursion
    check_recursion-Ends zero v path s l e c = absurd (omega (arith, l))
    check_recursion-Ends (suc n) v path s l e c = elim (Bool-cases (has text_dec s.stack v)) [
      | inl b ↦
          let i : In v path = subst (In v) e (has-In text_dec s.stack v b) in
          rw b (
            record s { issues = s.issues ++ (path ++ v ∷ []) ∷ [] },
            refl,
            record {
              stack = refl;
              fewer = omega arith;
              new = (path ++ v ∷ []) ∷ [];
              issues = refl;
              circular = (
                record {
                  chain = c;
                  id = v;
                  within = In-append_left v path (v ∷ []) i;
                  cycle = Chain-Walk refs path v v i c;
                },
                tt,
              );
              settled = λ x. absurd (cc);
            },
          )
      | inr b ↦ elim (Bool-cases (has text_dec s.visited v)) [
        | inl d ↦ rw b (rw d (s, refl, same_Post (v ∷ []) s (λ h. (seen_safe v s b d h, tt))))
        | inr d ↦
            let s' = enter v s in
            let es : s'.stack ≡ s.stack ++ v ∷ [] = rw b refl in
            let ev : s'.visited ≡ s.visited ++ v ∷ [] = rw d refl in
            let (t, q, p) =
              inside_Ends (λ r x. check_recursion refs n r (path ++ v ∷ []) x) (path ++ v ∷ []) n v
                s' (λ i. subst (λ x. fresh text_dec ids x < n) (sym ev) (entered_fewer n v s d l i))
                (λ r x l' e' c'. check_recursion-Ends n r (path ++ v ∷ []) x l' e' c')
                (es ∙ ap (λ x. x ++ v ∷ []) e)
                (All-of_In (λ r. Chain refs ((path ++ v ∷ []) ++ r ∷ [])) (refs v)
                  (λ r i. Chain-concat refs path v r c i)) in
            (
              record t { stack = remove text_dec t.stack v },
              check_enter n v path s b d ∙ ap (leave v) q,
              left_Post v s s' t b es ev refl p,
            )
      ]
    ]
