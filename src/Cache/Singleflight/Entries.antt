-- ===== src/Cache/Singleflight/Entries.antt =====
-- The map of calls in flight, against a table of calls by their number.
use nope.Prelude.{
  ℕ, suc, ◌<◌, ◌≡◌, refl, sym, ap, ◌∙◌, ◌≢◌, ◌⊎◌, Bool-cases, true, List, Option, none, some,
  if◌then◌else◌, arith, map_get, map_set, map_delete, map_get-set_self, map_get-set_ne,
  map_get-delete_self, map_get-delete_ne, ℕ_discrete, inl, inr, ==_iff, subst,
}
use nope.Cache.Singleflight.{is_call}

module _ {A B : Type 0} (dec : Discrete A) where
  -- What stands under a key after a write, or after a removal.
  pub set_cases :
      (m : List (A × B)) (k q : A) (v w : B)
      → map_get dec (map_set dec m k v) q ≡ some w
      → ((k ≡ q) × (v ≡ w)) ⊎ ((k ≢ q) × (map_get dec m q ≡ some w))
  set_cases m k q v w h = elim (dec k q) [
    | yes e ↦
        let f : map_get dec (map_set dec m k v) q ≡ some v =
          ap (map_get dec (map_set dec m k v)) (sym e) ∙ map_get-set_self dec m k v in
        inl (e, cc)
    | no n ↦ inr (n, sym (map_get-set_ne dec m k q v n) ∙ h)
  ]

  pub delete_cases :
      (m : List (A × B)) (k q : A) (w : B)
      → map_get dec (map_delete dec m k) q ≡ some w
      → (k ≢ q) × (map_get dec m q ≡ some w)
  delete_cases m k q w h = elim (dec k q) [
    | yes e ↦
        let f : map_get dec (map_delete dec m k) q ≡ none =
          ap (map_get dec (map_delete dec m k)) (sym e) ∙ map_get-delete_self dec m k in
        absurd (cc)
    | no n ↦ (n, sym (map_get-delete_ne dec m k q n) ∙ h)
  ]

pub is_call→some : (o : Option ℕ) (p : ℕ) → is_call o p ≡ true → o ≡ some p
unfolding is_call
is_call→some none p h = cc
is_call→some (some q) p h = ap some ((==_iff q p).0 h)

pub some→is_call : (o : Option ℕ) (p : ℕ) → o ≡ some p → is_call o p ≡ true
unfolding is_call
some→is_call o p h = ap (λ c. is_call c p) h ∙ (==_iff p p).1 refl

pub some_inj : {A : Type 0} {x y : A} → some x ≡ some y → x ≡ y
some_inj e = cc

module _ {K : Type 0} (dec : Discrete K) where
  -- Every entry of the map stands in the table under its number.
  abbrev pub Backed : List (K × ℕ) → List (ℕ × K) → Type 0
  Backed es m = (k : K) (p : ℕ) → map_get dec es k ≡ some p → map_get ℕ_discrete m p ≡ some k

  -- Every call of the table stands in the map under its key.
  abbrev pub Shown : List (K × ℕ) → List (ℕ × K) → Type 0
  Shown es m = (k : K) (p : ℕ) → map_get ℕ_discrete m p ≡ some k → map_get dec es k ≡ some p

  -- The numbers of the table are less than the next one.
  abbrev pub Below : List (ℕ × K) → ℕ → Type 0
  Below m n = (k : K) (p : ℕ) → map_get ℕ_discrete m p ≡ some k → p < n

  pub Below-set :
      (m : List (ℕ × K)) (n : ℕ) (k : K) → Below m n → Below (map_set ℕ_discrete m n k) (suc n)
  Below-set m n k h q p e = elim (set_cases ℕ_discrete m n p k q e) [
    | inl i ↦ let f = i.0 in omega arith
    | inr i ↦ let f = h q p i.1 in omega arith
  ]

  pub Below-delete : (m : List (ℕ × K)) (n p : ℕ) → Below m n → Below (map_delete ℕ_discrete m p) n
  Below-delete m n p h q r e = h q r (delete_cases ℕ_discrete m p r q e).1

  pub Backed-set :
      (es : List (K × ℕ)) (m : List (ℕ × K)) (k : K) (n : ℕ)
      → Below m n
      → Backed es m
      → Backed (map_set dec es k n) (map_set ℕ_discrete m n k)
  Backed-set es m k n b h q p e = elim (set_cases dec es k q n p e) [
    | inl (f, g) ↦
        subst (λ r. map_get ℕ_discrete (map_set ℕ_discrete m n k) r ≡ some q) g
          (map_get-set_self ℕ_discrete m n k ∙ ap some f)
    | inr (f, g) ↦
        let old = h q p g in
        let lt = b q p old in map_get-set_ne ℕ_discrete m n p k (λ i. omega (arith, i)) ∙ old
  ]

  pub Shown-set :
      (es : List (K × ℕ)) (m : List (ℕ × K)) (k : K) (n : ℕ)
      → map_get dec es k ≡ none
      → Shown es m
      → Shown (map_set dec es k n) (map_set ℕ_discrete m n k)
  Shown-set es m k n a h q p e = elim (set_cases ℕ_discrete m n p k q e) [
    | inl (f, g) ↦
        subst (λ r. map_get dec (map_set dec es k n) r ≡ some p) g
          (map_get-set_self dec es k n ∙ ap some f)
    | inr (f, g) ↦
        let old = h q p g in
        map_get-set_ne dec es k q n
          (λ i. let e' : map_get dec es q ≡ none = ap (map_get dec es) (sym i) ∙ a in absurd (cc))
        ∙ old
  ]

  -- The map after the cleanup of a call `p` of `k`.
  abbrev pub cleaned : List (K × ℕ) → K → ℕ → List (K × ℕ)
  cleaned es k p = if is_call (map_get dec es k) p then map_delete dec es k else es

  pub cleaned_old :
      (es : List (K × ℕ)) (k q : K) (p r : ℕ)
      → map_get dec (cleaned es k p) q ≡ some r
      → (map_get dec es q ≡ some r) × (k ≡ q → r ≢ p)
  cleaned_old es k q p r h = elim (Bool-cases (is_call (map_get dec es k) p)) [
    | inl b ↦ let d = delete_cases dec es k q r (rw b at h) in (d.1, λ e. absurd (d.0 e))
    | inr b ↦
        let g : map_get dec es q ≡ some r = rw b at h in
        (
          g,
          λ e f.
              let c = some→is_call (map_get dec es k) p (ap (map_get dec es) e ∙ g ∙ ap some f) in
              absurd (cc),
        )
  ]

  pub cleaned_kept :
      (es : List (K × ℕ)) (k q : K) (p r : ℕ)
      → map_get dec es q ≡ some r
      → r ≢ p
      → map_get dec (cleaned es k p) q ≡ some r
  cleaned_kept es k q p r h n = elim (Bool-cases (is_call (map_get dec es k) p)) [
    | inl b ↦ rw b (
        map_get-delete_ne dec es k q (λ e.
          n (some_inj (sym h ∙ ap (map_get dec es) (sym e) ∙ is_call→some (map_get dec es k) p b)))
        ∙ h)
    | inr b ↦ rw b h
  ]

  pub Backed-cleaned :
      (es : List (K × ℕ)) (m : List (ℕ × K)) (k : K) (p : ℕ)
      → map_get ℕ_discrete m p ≡ some k
      → Backed es m
      → Backed (cleaned es k p) (map_delete ℕ_discrete m p)
  Backed-cleaned es m k p a h q r e =
      let (f, g) = cleaned_old es k q p r e in
      let old = h q r f in
      map_get-delete_ne ℕ_discrete m p r
        (λ i. g (some_inj (sym a ∙ ap (map_get ℕ_discrete m) i ∙ old)) (sym i))
      ∙ old

  pub Shown-cleaned :
      (es : List (K × ℕ)) (m : List (ℕ × K)) (k : K) (p : ℕ)
      → Shown es m
      → Shown (cleaned es k p) (map_delete ℕ_discrete m p)
  Shown-cleaned es m k p h q r e =
      let (f, g) = delete_cases ℕ_discrete m p r q e in
      cleaned_kept es k q p r (h q r g) (λ i. f (sym i))
