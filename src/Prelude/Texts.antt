-- ===== src/Prelude/Texts.antt =====
-- Texts as lists of code units.
use Prim.Native.Char.{code}
use Prim.Native.String.{String}
use Prim.Native.Nat.{ℕ, zero, suc}
use mathlib.Core.Path.{◌≡◌, refl}
use mathlib.Core.Logic.{◌↔◌, ◌≢◌}
use native.Mathlib.Omega.{arith}
use mathlib.Core.Bool.{Bool, true, false, ◌&&◌, ◌||◌}
use mathlib.Core.List.{List, [], ◌∷◌}
use native.Mathlib.Decide.{ℕ_discrete}
use nope.Prelude.Tests.{◌==◌, if◌then◌else◌}

abbrev pub Text : Type 0
Text = List ℕ

abbrev pub text : String → Text
text String.[] = []
text (String.◌∷◌ c s) = code c ∷ text s

abbrev pub text_eq : Text → Text → Bool
text_eq [] [] = true
text_eq [] (d ∷ t) = false
text_eq (c ∷ s) [] = false
text_eq (c ∷ s) (d ∷ t) = c == d && text_eq s t

pub text_eq_iff : (s t : Text) → (text_eq s t ≡ true) ↔ (s ≡ t)
text_eq_iff [] [] = (λ e. refl, λ e. refl)
text_eq_iff [] (d ∷ t) = (λ e. cc, λ e. cc)
text_eq_iff (c ∷ s) [] = (λ e. cc, λ e. cc)
text_eq_iff (c ∷ s) (d ∷ t) =
    let (there, back) = text_eq_iff s t in
    (λ e. ground (arith, e, there (ground (arith, e))), λ e. ground (arith, e, back (cc)))

pub text_ne : (s t : Text) → text_eq s t ≡ false → s ≢ t
text_ne s t h e = let g = (text_eq_iff s t).1 e in absurd (cc)

cons_dec : {c d : ℕ} {s t : Text} → Dec (c ≡ d) → Dec (s ≡ t) → Dec ((c ∷ s) ≡ (d ∷ t))
cons_dec (yes p) (yes q) = yes (rw (p, q) refl)
cons_dec (yes p) (no n) = no (λ e. n cc)
cons_dec (no n) q = no (λ e. n cc)

unfoldable pub text_dec : Discrete Text
unfolding cons_dec ℕ_discrete
text_dec [] [] = yes refl
text_dec [] (d ∷ t) = no (λ e. cc)
text_dec (c ∷ s) [] = no (λ e. cc)
text_dec (c ∷ s) (d ∷ t) = cons_dec (ℕ_discrete c d) (text_dec s t)

-- `text.split(c)`
abbrev pub push_front : ℕ → List Text → List Text
push_front c [] = (c ∷ []) ∷ []
push_front c (t ∷ ts) = (c ∷ t) ∷ ts

abbrev pub split_on : ℕ → Text → List Text
split_on s [] = [] ∷ []
split_on s (c ∷ cs) = let rest = split_on s cs in if c == s then [] ∷ rest else push_front c rest

abbrev pub has_char : ℕ → Text → Bool
has_char s [] = false
has_char s (c ∷ cs) = c == s || has_char s cs

abbrev pub part : List Text → ℕ → Text
part [] i = []
part (t ∷ ts) zero = t
part (t ∷ ts) (suc i) = part ts i

-- `text.slice(0, -1)` and `text.endsWith(c)`
abbrev pub but_last : Text → Text
but_last [] = []
but_last (c ∷ []) = []
but_last (c ∷ d ∷ cs) = c ∷ but_last (d ∷ cs)

abbrev pub ends_in : ℕ → Text → Bool
ends_in s [] = false
ends_in s (c ∷ []) = c == s
ends_in s (c ∷ d ∷ cs) = ends_in s (d ∷ cs)

abbrev pub starts : Text → Text → Bool
starts t [] = true
starts [] (d ∷ p) = false
starts (c ∷ t) (d ∷ p) = c == d && starts t p

abbrev pub behind : ℕ → Text → Text
behind zero t = t
behind (suc n) [] = []
behind (suc n) (c ∷ t) = behind n t
