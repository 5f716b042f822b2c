-- ===== src/Common/Topics/Match.antt =====
-- The match of a topic, against the rules of the wildcards.
use nope.Prelude.{
  ℕ, suc, ◌+◌, ◌*◌, ◌≤◌, ◌≡◌, ◌≢◌, refl, sym, ap, ◌∙◌, subst, Bool, true, List, [], ◌∷◌, ◌++◌,
  Option, none, some, length, length-append, append_assoc, All, ◌⊎◌, ◌↔◌, inl, inr, arith, Text,
  text_eq_iff,
}
use nope.Common.Topics.{
  hash_word, star_word, Anchor, finished, going, only_hashes, round, match_words,
}

-- A word of a binding other than `#` stands for a word of a routing key.
pub record Fits (y x : Text) : Type 0 where
  pub no_hash : y ≢ hash_word
  pub same : (y ≡ x) ⊎ (y ≡ star_word)

-- The words of a binding match those of a routing key: `#` stands for any number of words.
pub data Matches : List Text → List Text → Type 0 where
  done : Matches [] []
  word : (y x : Text) (p t : List Text) → Fits y x → Matches p t → Matches (y ∷ p) (x ∷ t)
  hash :
      (y : Text) (p t u v : List Text)
      → y ≡ hash_word
      → t ≡ u ++ v
      → Matches p v
      → Matches (y ∷ p) t

-- Some end of the words is matched.
abbrev pub Star : List Text → List Text → Type 0
Star p t = (u : List Text) × (v : List Text) × (t ≡ u ++ v) × Matches p v

-- The last `#` could absorb at least one word more.
abbrev pub Later : Anchor → Type 0
Later none = ⊥
Later (some (q, [])) = ⊥
Later (some (q, z ∷ s)) = Star q s

abbrev pub NoHash : List Text → Type 0
NoHash = All (λ y. y ≢ hash_word)

-- The words between the anchor and the place that the loop has come to, for keys of at most `w` words.
abbrev pub Inv : ℕ → List Text → List Text → Anchor → Type 0
Inv w p t none = length p ≤ w
Inv w p t (some (q, s)) =
    (seg : List Text) × (u : List Text) × (q ≡ seg ++ p)
    × (s ≡ u ++ t)
    × (length seg ≡ length u)
    × NoHash seg
    × (length q ≤ w)

pub hash_Matches : (y : Text) (p t : List Text) → y ≡ hash_word → Matches (y ∷ p) t → Star p t
hash_Matches y p t e (word _ x _ t' f m) = absurd (f.no_hash e)
hash_Matches y p t e (hash _ _ _ u v _ d m) = (u, v, d, m)

pub word_Matches :
    (y x : Text) (p t : List Text)
    → y ≢ hash_word
    → Matches (y ∷ p) (x ∷ t)
    → Fits y x × Matches p t
word_Matches y x p t n (word _ _ _ _ f m) = (f, m)
word_Matches y x p t n (hash _ _ _ u v e d m) = absurd (n e)

pub no_Matches : (x : Text) (t : List Text) → Matches [] (x ∷ t) → ⊥
no_Matches x t h = elim h [ ]

-- Words without `#` take as many words as they are.
Matches-segment :
    (seg r v : List Text)
    → NoHash seg
    → Matches (seg ++ r) v
    → (u : List Text) × (w : List Text) × (v ≡ u ++ w) × (length u ≡ length seg) × Matches r w
Matches-segment [] r v h m = ([], v, refl, refl, m)
Matches-segment (y ∷ seg) r v h (word _ x _ t f m) =
    let (u, w, e, l, k) = Matches-segment seg r t h.1 m in (x ∷ u, w, ap (◌∷◌ x) e, ap suc l, k)
Matches-segment (y ∷ seg) r v h (hash _ _ _ u w e d m) = absurd (h.0 e)

-- Of two ends of a list, the one behind the shorter beginning is the longer.
longer_end :
    (a b t w : List Text) → a ++ t ≡ b ++ w → length a ≤ length b → (c : List Text) × (t ≡ c ++ w)
longer_end [] b t w e l = (b, e)
longer_end (x ∷ a) [] t w e l = absurd (omega (arith, l))
longer_end (x ∷ a) (y ∷ b) t w e l = longer_end a b t w (cc) (omega (arith, l))

-- Behind a new `#` the earlier one need not be tried again.
pub last_hash :
    (n : ℕ) (y : Text) (p t : List Text) (a : Anchor)
    → y ≡ hash_word
    → Inv n (y ∷ p) t a
    → Later a
    → Star p t
last_hash n y p t none e i l = elim l [ ]
last_hash n y p t (some (q, [])) e i l = elim l [ ]
last_hash n y p t (some (q, z ∷ s)) e (seg, u, eq, es, ll, nh, lw) (u1, v1, e1, m) =
    let (u2, w, e2, l2, k) = Matches-segment seg (y ∷ p) v1 nh (subst (λ l. Matches l v1) eq m) in
    let (u3, v3, e3, k3) = hash_Matches y p w e k in
    let whole : u ++ t ≡ (z ∷ u1 ++ u2) ++ w =
      sym es ∙ ap (◌∷◌ z) (e1 ∙ ap (◌++◌ u1) e2) ∙ ap (◌∷◌ z) (sym (append_assoc u1 u2 w)) in
    let (c, d) =
      longer_end u (z ∷ u1 ++ u2) t w whole (omega (arith, ll, l2, length-append u1 u2)) in
    (c ++ u3, v3, d ∙ ap (◌++◌ c) e3 ∙ sym (append_assoc c u3 v3), k3)

-- At the end of the routing key nothing is left to absorb.
pub no-Later : (n : ℕ) (p : List Text) (a : Anchor) → Inv n p [] a → Later a → ⊥
no-Later n p none i l = l
no-Later n p (some (q, [])) i l = l
no-Later n p (some (q, z ∷ s)) (seg, u, eq, es, ll, nh, lw) (u1, v1, e1, m) =
    let (u2, w, e2, l2, k) = Matches-segment seg p v1 nh (subst (λ l. Matches l v1) eq m) in
    absurd (
      omega (
        arith,
        ll,
        l2,
        ap (length {0}) es,
        ap (length {0}) e1,
        ap (length {0}) e2,
        length-append u1 v1,
        length-append u2 w,
        length-append u [],
      ))

end_nil : (u v : List Text) → u ++ v ≡ [] → v ≡ []
end_nil [] v e = e
end_nil (x ∷ u) v e = cc

only_hashes_of : (p t : List Text) → Matches p t → t ≡ [] → only_hashes p ≡ true
only_hashes_of _ _ done e = refl
only_hashes_of _ _ (word y x p t f m) e = cc
only_hashes_of _ _ (hash y p t u v e d m) n =
    let b = (text_eq_iff y hash_word).1 e in
    let rest = only_hashes_of p v m (end_nil u v (sym d ∙ n)) in ground (arith, b, rest)

pub only_hashes_iff : (p : List Text) → (only_hashes p ≡ true) ↔ Matches p []
only_hashes_iff [] = (λ e. done, λ m. refl)
only_hashes_iff (y ∷ p) = (
  λ e.
      hash y p [] [] [] ((text_eq_iff y hash_word).0 (ground (arith, e))) refl
        ((only_hashes_iff p).0 (ground (arith, e))),
  λ m. only_hashes_of (y ∷ p) [] m refl,
)

-- What the loop is to answer: whether the words match, from here or with more absorbed before.
abbrev pub Goal : List Text → List Text → Anchor → Type 0
Goal p t a = Matches p t ⊎ Later a

abbrev pub Answers : Option Bool → Type 0 → Type 0
Answers o G = (b : Bool) × (o ≡ some b) × ((b ≡ true) ↔ G)

-- The words that the last `#` could still absorb, times the words of the binding, and those left.
abbrev pub rounds : ℕ → List Text → List Text → Anchor → ℕ
rounds w p t none = length t * suc w + length p
rounds w p t (some (q, s)) = length s * suc w + length p

pub Answers_iff : {G H : Type 0} (o : Option Bool) → G ↔ H → Answers o G → Answers o H
Answers_iff o (f, g) (b, e, (h, k)) = (b, e, (λ x. f (h x), λ x. k (g x)))

pub Star-Later : (q s : List Text) → (Matches q s ⊎ Later (some (q, s))) ↔ Star q s
Star-Later q [] = (
  λ r. elim r [ inl m ↦ ([], [], refl, m) | inr l ↦ elim l [ ] ],
  λ (u, v, e, m). inl (subst (Matches q) (end_nil u v (sym e)) m),
)
Star-Later q (z ∷ s) = (
  λ r. elim r [ inl m ↦ ([], z ∷ s, refl, m) | inr (u, v, e, m) ↦ (z ∷ u, v, ap (◌∷◌ z) e, m) ],
  λ (u, v, e, m). from_star q z s u v e m,
)
  where
    from_star :
        (q : List Text) (z : Text) (s u v : List Text)
        → (z ∷ s) ≡ u ++ v
        → Matches q v
        → Matches q (z ∷ s) ⊎ Star q s
    from_star q z s [] v e m = inl (subst (Matches q) (sym e) m)
    from_star q z s (x ∷ u) v e m = inr (u, v, cc, m)

pub match_words-next :
    (n : ℕ) (p t q s : List Text) (a c : Anchor)
    → round p t a ≡ going q s c
    → match_words (suc n) p t a ≡ match_words n q s c
unfolding match_words
match_words-next n p t q s a c e = rw (e, match_words) refl

pub match_words-last :
    (n : ℕ) (p t : List Text) (a : Anchor) (b : Bool)
    → round p t a ≡ finished b
    → match_words (suc n) p t a ≡ some b
unfolding match_words
match_words-last n p t a b e = rw (e, match_words) refl

pub mul_step : (k w : ℕ) → suc k * suc w ≡ k * suc w + suc w
mul_step k w = grind arith
