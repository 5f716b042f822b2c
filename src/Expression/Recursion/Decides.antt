-- ===== src/Expression/Recursion/Decides.antt =====
-- `detectRecursion` decides whether the references of some schemas have a cycle.
use nope.Prelude.{
  ℕ, suc, ◌<◌, ◌≡◌, refl, sym, ap, ◌∙◌, subst, List, [], ◌∷◌, ◌++◌, some, append_assoc, append-nil,
  All, ◌⊎◌, ◌↔◌, inl, inr, Bool-cases, arith, Text, text_dec, length, map_get, map_set,
  map_get-set_ne,
}
use nope.Prelude.Sets.{In, has, has-In, not_has, fresh-le-length, All-append, All-In}
use nope.Expression.{Schema}
use nope.Expression.Recursion.{
  Search, check_recursion, check_each, schema_map, references_found, references_of, ids_of,
  detect_recursion,
}
use nope.Expression.Recursion.Walks.{Walk, one, more, Safe, Safe-Walk, IsCircular}
use nope.Expression.Recursion.Detects.{append_none, check_recursion-Ends}

module _ (refs : Text → List Text) (ids : List Text)
    (known : (v : Text) → In v ids ⊎ (refs v ≡ [])) where
  -- What the loop over the ids adds to the issues.
  record Added (xs : List Text) (issues out : List (List Text)) : Type 0 where
    pub new : List (List Text)
    pub joined : out ≡ issues ++ new
    pub circular : All (IsCircular refs) new
    pub all_safe : new ≡ [] → All (Safe refs) xs

  check_each-next :
      (n : ℕ) (x : Text) (xs : List Text) (issues : List (List Text)) (t : Search)
      → check_recursion refs n x [] (record { visited = []; stack = []; issues = issues }) ≡ some t
      → check_each refs n (x ∷ xs) issues ≡ check_each refs n xs t.issues
  unfolding check_each
  check_each-next n x xs issues t q = rw (q, check_each) refl

  check_each-Added :
      (n : ℕ) (xs : List Text) (issues : List (List Text))
      → length ids < n
      → (out : List (List Text)) × (check_each refs n xs issues ≡ some out) × Added xs issues out
  unfolding check_each
  check_each-Added n [] issues l = (
    issues,
    refl,
    record { new = []; joined = sym (append-nil issues); circular = tt; all_safe = λ _. tt },
  )
  check_each-Added n (x ∷ xs) issues l =
      let s : Search = record { visited = []; stack = []; issues = issues } in
      let (t, q, p) =
        check_recursion-Ends refs ids known n x [] s
          (omega (arith, l, fresh-le-length text_dec ids [])) refl tt in
      let (out, q', a) = check_each-Added n xs t.issues l in
      (
        out,
        check_each-next n x xs issues t q ∙ q',
        record {
          new = p.new ++ a.new;
          joined = a.joined ∙ ap (λ k. k ++ a.new) p.issues ∙ append_assoc issues p.new a.new;
          circular = All-append (IsCircular refs) p.new a.new p.circular a.circular;
          all_safe = λ e.
              let (e1, e2) = append_none refs ids p.new a.new e in
              let (h, k) = p.settled e1 (λ v i. elim i [ ]) in (k.0, a.all_safe e2);
        },
      )

  -- A cycle starts at one of the ids.
  cycle_In : (v w : Text) → Walk refs v w → In v ids
  cycle_In v w (one _ _ h) = elim (known v) [
    | inl i ↦ i
    | inr z ↦ absurd (elim (subst (In w) z h) [ ])
  ]
  cycle_In v w (more _ x _ h p) = elim (known v) [
    | inl i ↦ i
    | inr z ↦ absurd (elim (subst (In x) z h) [ ])
  ]

  none_circular :
      (issues : List (List Text))
      → All (IsCircular refs) issues
      → ((v : Text) → Walk refs v v → ⊥)
      → issues ≡ []
  none_circular [] h n = refl
  none_circular (x ∷ issues) h n = absurd (n h.0.id h.0.cycle)

module _ {N : Type 0} where
  schema_map-absent :
      (xs : List (Schema N)) (m : List (Text × Schema N)) (v : Text)
      → (In v (ids_of xs) → ⊥)
      → map_get text_dec (schema_map xs m) v ≡ map_get text_dec m v
  schema_map-absent [] m v n = refl
  schema_map-absent (x ∷ xs) m v n =
      schema_map-absent xs (map_set text_dec m x.id x) v (λ i. n (inr i))
      ∙ map_get-set_ne text_dec m x.id v x (λ e. n (inl e))

  references_known :
      (xs : List (Schema N)) (v : Text) → In v (ids_of xs) ⊎ (references_of xs v ≡ [])
  unfolding references_of
  references_known xs v = elim (Bool-cases (has text_dec (ids_of xs) v)) [
    | inl b ↦ inl (has-In text_dec (ids_of xs) v b)
    | inr b ↦
        inr (ap references_found (schema_map-absent xs [] v (not_has text_dec (ids_of xs) v b)))
  ]

  length-ids_of : (xs : List (Schema N)) → length (ids_of xs) ≡ length xs
  length-ids_of [] = refl
  length-ids_of (x ∷ xs) = ap suc (length-ids_of xs)

  -- With one step of depth more than there are schemas, the search ends: every issue that it reports
  -- is a path of references that meets a cycle, and it reports none exactly where the references of the
  -- schemas have no cycle.
  pub detect_recursion-Decides :
      (schemas : List (Schema N))
      → (issues : List (List Text)) × (detect_recursion (suc (length schemas)) schemas
          ≡ some issues)
        × All (IsCircular (references_of schemas)) issues
        × ((issues ≡ []) ↔ ((v : Text) → Walk (references_of schemas) v v → ⊥))
  unfolding detect_recursion
  detect_recursion-Decides schemas =
      let refs = references_of schemas in
      let ids = ids_of schemas in
      let known = references_known schemas in
      let (out, q, a) =
        check_each-Added refs ids known (suc (length schemas)) ids []
          (omega (arith, length-ids_of schemas)) in
      (
        out,
        q,
        subst (All (IsCircular refs)) (sym a.joined) a.circular,
        (
          λ e v w.
              Safe-Walk refs v
                (All-In (Safe refs) ids v (a.all_safe (sym a.joined ∙ e))
                  (cycle_In refs ids known v v w))
                w,
          none_circular refs ids known out
              (subst (All (IsCircular refs)) (sym a.joined) a.circular),
        ),
      )
