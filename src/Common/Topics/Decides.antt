-- ===== src/Common/Topics/Decides.antt =====
-- `topicMatch` answers, and says whether the words match.
use nope.Prelude.{
  ℕ, zero, suc, ◌*◌, ◌≤◌, ◌<◌, ◌≡◌, ◌≢◌, refl, sym, ap, ◌∙◌, Bool, true, false, ◌||◌, List, [], ◌∷◌,
  ◌++◌, none, some, length, length-append, append_assoc, ◌⊎◌, ◌↔◌, inl, inr, Bool-cases, arith,
  Text, text_eq, text_eq_iff, split_on,
}
use nope.Prelude.Sets.{All-append}
use nope.Common.Topics.{
  hash_word, star_word, Anchor, finished, going, retreat, only_hashes, round, match_words, enough,
  is_valid_routing_key, topic_match,
}
use nope.Common.Topics.Match.{
  Fits, Matches, word, hash, Later, Inv, hash_Matches, word_Matches, no_Matches, last_hash,
  no-Later, only_hashes_iff, Goal, Answers, rounds, Answers_iff, Star-Later, match_words-next,
  match_words-last, mul_step,
}

mul_mono : (a b w : ℕ) → a ≤ b → a * suc w ≤ b * suc w
mul_mono a b w h = grind arith

-- What the rest of the loop is known to answer.
abbrev Rest : ℕ → ℕ → Type 0
Rest w n =
    (q s : List Text) (c : Anchor)
    → Inv w q s c
    → rounds w q s c < n
    → Answers (match_words n q s c) (Goal q s c)

retreat_Answers :
    (w n : ℕ) (p : List Text) (x : Text) (t : List Text) (a : Anchor)
    → Rest w n
    → (Matches p (x ∷ t) → ⊥)
    → Inv w p (x ∷ t) a
    → rounds w p (x ∷ t) a < suc n
    → round p (x ∷ t) a ≡ retreat a
    → Answers (match_words (suc n) p (x ∷ t) a) (Goal p (x ∷ t) a)
retreat_Answers w n p x t none rest never i l e = (
  false,
  match_words-last n p (x ∷ t) none false e,
  (λ f. cc, λ g. elim g [ inl m ↦ absurd (never m) | inr k ↦ elim k [ ] ]),
)
retreat_Answers w n p x t (some (q, [])) rest never (seg, u, eq, es, ll, nh, lw) l e =
    absurd (omega (arith, ap (length {0}) es, length-append u (x ∷ t)))
retreat_Answers w n p x t (some (q, z ∷ s)) rest never (seg, u, eq, es, ll, nh, lw) l e =
    let fewer : rounds w q s (some (q, s)) < n = omega (arith, l, lw, mul_step (length s) w) in
    let (b, f, g) = rest q s (some (q, s)) ([], [], refl, refl, refl, tt, lw) fewer in
    let old : (Matches q s ⊎ Later (some (q, s))) ↔ Goal p (x ∷ t) (some (q, z ∷ s)) = (
      λ k. inr ((Star-Later q s).0 k),
      λ k. elim k [ inl m ↦ absurd (never m) | inr j ↦ (Star-Later q s).1 j ],
    ) in
    Answers_iff (match_words (suc n) p (x ∷ t) (some (q, z ∷ s))) old
      (b, match_words-next n p (x ∷ t) q s (some (q, z ∷ s)) (some (q, s)) e ∙ f, g)

Inv-length : (w : ℕ) (y : Text) (p t : List Text) (a : Anchor) → Inv w (y ∷ p) t a → length p ≤ w
Inv-length w y p t none i = omega (arith, i)
Inv-length w y p t (some (q, s)) (seg, u, eq, es, ll, nh, lw) =
    omega (arith, lw, ap (length {0}) eq, length-append seg (y ∷ p))

hash_fewer :
    (w : ℕ) (y : Text) (p t : List Text) (a : Anchor)
    → Inv w (y ∷ p) t a
    → rounds w p t (some (p, t)) < rounds w (y ∷ p) t a
hash_fewer w y p t none i = omega arith
hash_fewer w y p t (some (q, s)) (seg, u, eq, es, ll, nh, lw) =
    let le : length t ≤ length s = omega (arith, ap (length {0}) es, length-append u t) in
    omega (arith, mul_mono (length t) (length s) w le)

hash_iff :
    (w : ℕ) (y : Text) (p t : List Text) (a : Anchor)
    → y ≡ hash_word
    → Inv w (y ∷ p) t a
    → (Matches p t ⊎ Later (some (p, t))) ↔ Goal (y ∷ p) t a
hash_iff w y p t a e i = (
  λ k. let (u, v, d, m) = (Star-Later p t).0 k in inl (hash y p t u v e d m),
  λ k. elim k [
    | inl m ↦ (Star-Later p t).1 (hash_Matches y p t e m)
    | inr l ↦ (Star-Later p t).1 (last_hash w y p t a e i l)
  ],
)

word_Inv :
    (w : ℕ) (y x : Text) (p t : List Text) (a : Anchor)
    → y ≢ hash_word
    → Inv w (y ∷ p) (x ∷ t) a
    → Inv w p t a
word_Inv w y x p t none n i = omega (arith, i)
word_Inv w y x p t (some (q, s)) n (seg, u, eq, es, ll, nh, lw) = (
  seg ++ y ∷ [],
  u ++ x ∷ [],
  eq ∙ sym (append_assoc seg (y ∷ []) p),
  es ∙ sym (append_assoc u (x ∷ []) t),
  omega (arith, ll, length-append seg (y ∷ []), length-append u (x ∷ [])),
  All-append (λ z. z ≢ hash_word) seg (y ∷ []) nh (n, tt),
  lw,
)

word_fewer :
    (w : ℕ) (y x : Text) (p t : List Text) (a : Anchor)
    → rounds w p t a < rounds w (y ∷ p) (x ∷ t) a
word_fewer w y x p t none = omega (arith, mul_mono (length t) (suc (length t)) w (omega arith))
word_fewer w y x p t (some (q, s)) = omega arith

match_words-Answers : (w n : ℕ) → Rest w n
match_words-Answers w zero p t a i l = absurd (omega (arith, l))
match_words-Answers w (suc n) p [] a i l =
    let last : round p [] a ≡ finished (only_hashes p) = ends p a in
    (
      only_hashes p,
      match_words-last n p [] a (only_hashes p) last,
      (
        λ e. inl ((only_hashes_iff p).0 e),
        λ g. elim g [ inl m ↦ (only_hashes_iff p).1 m | inr k ↦ absurd (no-Later w p a i k) ],
      ),
    )
  where
    ends : (p : List Text) (a : Anchor) → round p [] a ≡ finished (only_hashes p)
    ends [] a = refl
    ends (y ∷ p) a = refl
match_words-Answers w (suc n) [] (x ∷ t) a i l =
    retreat_Answers w n [] x t a (match_words-Answers w n) (no_Matches x t) i l refl
match_words-Answers w (suc n) (y ∷ p) (x ∷ t) a i l = elim (Bool-cases (text_eq y hash_word)) [
  | inl b ↦
      let e = (text_eq_iff y hash_word).0 b in
      let step : round (y ∷ p) (x ∷ t) a ≡ going p (x ∷ t) (some (p, x ∷ t)) = rw b refl in
      let (o, f, g) =
        match_words-Answers w n p (x ∷ t) (some (p, x ∷ t))
          ([], [], refl, refl, refl, tt, Inv-length w y p (x ∷ t) a i)
          (omega (arith, l, hash_fewer w y p (x ∷ t) a i)) in
      Answers_iff (match_words (suc n) (y ∷ p) (x ∷ t) a) (hash_iff w y p (x ∷ t) a e i)
        (o, match_words-next n (y ∷ p) (x ∷ t) p (x ∷ t) a (some (p, x ∷ t)) step ∙ f, g)
  | inr b ↦
      let no_hash : y ≢ hash_word = λ e. let d = (text_eq_iff y hash_word).1 e in cc in
      elim (Bool-cases (text_eq y x || text_eq y star_word)) [
        | inl d ↦
            let step : round (y ∷ p) (x ∷ t) a ≡ going p t a = rw b (rw d refl) in
            let fits : Fits y x = record { no_hash = no_hash; same = either y x d } in
            let (o, f, g) =
              match_words-Answers w n p t a (word_Inv w y x p t a no_hash i)
                (omega (arith, l, word_fewer w y x p t a)) in
            let goal : Goal p t a ↔ Goal (y ∷ p) (x ∷ t) a = (
              λ k. elim k [ inl m ↦ inl (word y x p t fits m) | inr j ↦ inr j ],
              λ k. elim k [ inl m ↦ inl (word_Matches y x p t no_hash m).1 | inr j ↦ inr j ],
            ) in
            Answers_iff (match_words (suc n) (y ∷ p) (x ∷ t) a) goal
              (o, match_words-next n (y ∷ p) (x ∷ t) p t a a step ∙ f, g)
        | inr d ↦
            let step : round (y ∷ p) (x ∷ t) a ≡ retreat a = rw b (rw d refl) in
            retreat_Answers w n (y ∷ p) x t a (match_words-Answers w n)
              (λ m. neither y x d (word_Matches y x p t no_hash m).0.same) i l step
      ]
]
  where
    either : (y x : Text) → (text_eq y x || text_eq y star_word) ≡ true → (y ≡ x) ⊎ (y ≡ star_word)
    either y x d = elim (Bool-cases (text_eq y x)) [
      | inl e ↦ inl ((text_eq_iff y x).0 e)
      | inr e ↦ inr ((text_eq_iff y star_word).0 (rw e at d))
    ]

    neither :
        (y x : Text) → (text_eq y x || text_eq y star_word) ≡ false → (y ≡ x) ⊎ (y ≡ star_word) → ⊥
    neither y x d (inl e) = let b = (text_eq_iff y x).1 e in cc (rw b at d)
    neither y x d (inr e) = let b = (text_eq_iff y star_word).1 e in ground (arith, b, d)

-- topicMatch answers, within the rounds given, and says that the routing key is valid and its words
-- match those of the binding: `#` stands for any number of words, `*` for one, another word for itself.
pub topic_match-Matches :
    (binding routing : Text)
    → (b : Bool) × (topic_match binding routing ≡ some b)
      × ((b ≡ true) ↔ (
          (is_valid_routing_key routing ≡ true)
          × Matches (split_on b'.' binding) (split_on b'.' routing)))
unfolding topic_match
topic_match-Matches binding routing =
    let p = split_on b'.' binding in
    let t = split_on b'.' routing in
    elim (Bool-cases (is_valid_routing_key routing)) [
      | inl v ↦
          let (b, e, g) =
            match_words-Answers (length p) (enough p t) p t none (omega arith) (omega arith) in
          rw v (
            b,
            e,
            (λ h. (refl, elim (g.0 h) [ inl m ↦ m | inr k ↦ elim k [ ] ]), λ h. g.1 (inl h.1)),
          )
      | inr v ↦ rw v (false, refl, (λ h. cc, λ h. cc (h.0)))
    ]
