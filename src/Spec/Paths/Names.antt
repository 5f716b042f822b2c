-- ===== src/Spec/Paths/Names.antt =====
-- A path of names is read as those names.
use nope.Prelude.{
  Text, ℕ, zero, suc, ◌≤◌, ◌≡◌, refl, Bool, true, List, [], ◌∷◌, ◌++◌, map, some, if◌then◌else◌,
  length, All, arith, ap, ◌∙◌, subst, append-nil, length-append,
}
use nope.Spec.{Value, Numbers, nullish, undefined}
use nope.Spec.Paths.{
  name, is_plain, span, tokens, tokenize, walk, get_path, match_of, match_head, member_of,
}

-- A name that needs no escape: it is not empty, and has no dot and no bracket.
abbrev pub IsName : Text → Type 0
IsName [] = ⊥
IsName (c ∷ cs) = All (λ d. is_plain d ≡ true) (c ∷ cs)

-- Names with dots between them.
abbrev pub join_dots : List Text → Text
join_dots [] = []
join_dots (t ∷ []) = t
join_dots (t ∷ u ∷ ts) = t ++ b'.' ∷ join_dots (u ∷ ts)

span-append :
    (p : ℕ → Bool) (a b : Text)
    → All (λ c. p c ≡ true) a
    → span p (a ++ b) ≡ (a ++ (span p b).0, (span p b).1)
span-append p [] b h = refl
span-append p (c ∷ a) b h = rw (h.0, span-append p a b h.1) refl

plain_dot :
    (t s : Text) → All (λ c. is_plain c ≡ true) t → span is_plain (t ++ b'.' ∷ s) ≡ (t, b'.' ∷ s)
plain_dot t s h = span-append is_plain t (b'.' ∷ s) h ∙ ap (λ a. (a, b'.' ∷ s)) (append-nil t)

tokens_nil : (n : ℕ) → tokens n [] ≡ []
unfolding tokens
tokens_nil zero = refl
tokens_nil (suc n) = refl

tokens_name :
    (n : ℕ) (c : ℕ) (t rest : Text)
    → span is_plain (c ∷ t ++ rest) ≡ (c ∷ t, rest)
    → tokens (suc n) (c ∷ t ++ rest) ≡ name (c ∷ t) ∷ tokens n rest
unfolding tokens match_head
tokens_name n c t rest e =
    let m : match_head c (t ++ rest) ≡ some (name (c ∷ t), rest) =
      ap (λ x. match_of x c (t ++ rest)) e in
    rw (tokens, m) refl

tokens_dot : (n : ℕ) (s : Text) → tokens (suc n) (b'.' ∷ s) ≡ tokens n s
unfolding tokens
tokens_dot n s = refl

tokens-join_dots :
    (n : ℕ) (ts : List Text)
    → All IsName ts
    → length (join_dots ts) ≤ n
    → tokens n (join_dots ts) ≡ map name ts
tokens-join_dots n [] h le = tokens_nil n
tokens-join_dots zero ((c ∷ t) ∷ []) h le = absurd (omega arith)
tokens-join_dots (suc n) ((c ∷ t) ∷ []) h le =
    subst (λ r. tokens (suc n) r ≡ name (c ∷ t) ∷ []) (append-nil (c ∷ t))
      (tokens_name n c t []
          (span-append is_plain (c ∷ t) [] h.0 ∙ ap (λ a. (a, [])) (append-nil (c ∷ t)))
        ∙ ap (◌∷◌ (name (c ∷ t))) (tokens_nil n))
tokens-join_dots zero ((c ∷ t) ∷ u ∷ ts) h le = absurd (omega arith)
tokens-join_dots (suc zero) ((c ∷ t) ∷ u ∷ ts) h le =
    absurd (omega (arith, length-append t (b'.' ∷ join_dots (u ∷ ts))))
tokens-join_dots (suc (suc n)) ((c ∷ t) ∷ u ∷ ts) h le =
    tokens_name (suc n) c t _ (plain_dot (c ∷ t) _ h.0)
    ∙ ap (◌∷◌ (name (c ∷ t))) (
        tokens_dot n _
        ∙ tokens-join_dots n (u ∷ ts) h.1
            (omega (arith, length-append t (b'.' ∷ join_dots (u ∷ ts)))))
tokens-join_dots n ([] ∷ ts) h le = absurd h.0

-- The member of a value that a list of names leads to; a value that is null or undefined has none.
abbrev pub nested : {N : Type 0} → Numbers N → Value N → List Text → Value N
nested ns v [] = v
nested ns v (t ∷ ts) = if nullish v then undefined else nested ns (member_of ns v (name t)) ts

walk_names :
    {N : Type 0} (ns : Numbers N) (v : Value N) (ts : List Text)
    → walk ns v (map name ts) ≡ nested ns v ts
unfolding walk
walk_names ns v [] = refl
walk_names ns v (t ∷ ts) = rw (walk_names ns (member_of ns v (name t)) ts) refl

-- A path of names with dots between them, none empty and none with a dot or a bracket inside, is cut
-- into those names, and leads to the member that they name one by one.
pub get_path-join_dots :
    {N : Type 0} (ns : Numbers N) (v : Value N) (t : Text) (ts : List Text)
    → All IsName (t ∷ ts)
    → (tokenize (join_dots (t ∷ ts)) ≡ map name (t ∷ ts))
      × (get_path ns v (join_dots (t ∷ ts)) ≡ nested ns v (t ∷ ts))
unfolding get_path tokenize
get_path-join_dots ns v [] ts h = absurd h.0
get_path-join_dots ns v (c ∷ t) [] h =
    let cut = tokens-join_dots (length (c ∷ t)) ((c ∷ t) ∷ []) h (omega arith) in
    (cut, ap (walk ns v) cut ∙ walk_names ns v ((c ∷ t) ∷ []))
get_path-join_dots ns v (c ∷ t) (u ∷ ts) h =
    let cut =
      tokens-join_dots (length (join_dots ((c ∷ t) ∷ u ∷ ts))) ((c ∷ t) ∷ u ∷ ts) h (omega arith) in
    (cut, ap (walk ns v) cut ∙ walk_names ns v ((c ∷ t) ∷ u ∷ ts))
