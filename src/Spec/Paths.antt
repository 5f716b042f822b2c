-- ===== src/Spec/Paths.antt =====
-- packages/specification/src/utils/get-path.ts.
pub mod Names
use nope.Prelude.{
  Text, text, text_eq, text_dec, ℕ, zero, suc, ◌+◌, ◌-◌, ◌*◌, Bool, true, false, not, ◌&&◌, ◌||◌,
  List, [], ◌∷◌, Option, none, some, ltb, leb, ◌==◌, if◌then◌else◌,
}
use nope.Spec.{
  Value, Values, Members, undefined, null, bool, num, str, arr, obj, nil, cons, end, member,
  nullish, length_values, value_at, Numbers,
}
use nope.Prelude.{length, get_elem?}

-- A step of a path: a name, or the number in brackets.
pub data Token : Type 0 where
  name : Text → Token
  index : ℕ → Token

abbrev pub is_digit : ℕ → Bool
is_digit c = leb b'0' c && leb c b'9'

-- The characters that `[^.[\]]` matches.
abbrev pub is_plain : ℕ → Bool
is_plain c = not (c == b'.') && not (c == b'[') && not (c == b']')

-- The longest start of a text whose characters pass a test, and the rest.
abbrev pub span : (ℕ → Bool) → Text → Text × Text
span p [] = ([], [])
span p (c ∷ cs) = let (a, b) = span p cs in if p c then (c ∷ a, b) else ([], c ∷ cs)

-- `Number` of digits.
abbrev pub decimal : ℕ → Text → ℕ
decimal n [] = n
decimal n (c ∷ cs) = decimal (n * 10 + (c - b'0')) cs

-- `\[(\d+)\]` at the head of a text, behind its bracket: the digits, and the text behind the match.
abbrev pub bracket : Text → Option (Text × Text)
bracket s =
    let (digits, rest) = span is_digit s in
    elim digits [
      | [] ↦ none
      | d ∷ ds ↦ elim rest [ [] ↦ none | c ∷ cs ↦ if c == b']' then some (d ∷ ds, cs) else none ]
    ]

-- A match of the pattern at the head of `c ∷ cs`, and the text behind it; the pair is the longest
-- start of plain characters and the rest.
abbrev pub match_of : Text × Text → ℕ → Text → Option (Token × Text)
match_of (p ∷ ps, rest) c cs = some (name (p ∷ ps), rest)
match_of ([], rest) c cs =
    if c == b'['
    then elim (bracket cs) [ none ↦ none | some m ↦ some (index (decimal 0 m.0), m.1) ]
    else none

unfoldable pub match_head : ℕ → Text → Option (Token × Text)
match_head c cs = match_of (span is_plain (c ∷ cs)) c cs

-- The loop of `tokenize`, on fuel. Where no match begins, one character is passed.
unfoldable pub tokens : ℕ → Text → List Token
unfolding match_head
tokens zero s = []
tokens (suc n) [] = []
tokens (suc n) (c ∷ cs) = elim (match_head c cs) [
  | none ↦ tokens n cs
  | some m ↦ m.0 ∷ tokens n m.1
]

unfoldable pub tokenize : Text → List Token
unfolding tokens
tokenize s = tokens (length s) s

-- The index that a text spells, digits without a leading zero.
abbrev pub all_digits : Text → Bool
all_digits [] = true
all_digits (c ∷ cs) = is_digit c && all_digits cs

abbrev pub spelled : Text → Option ℕ
spelled [] = none
spelled (c ∷ []) = if is_digit c then some (c - b'0') else none
spelled (c ∷ d ∷ cs) =
    if not (c == b'0') && all_digits (c ∷ d ∷ cs) then some (decimal 0 (c ∷ d ∷ cs)) else none

-- Whether a token is the key.
abbrev pub is_key : Token → Text → Bool
is_key (name t) k = text_eq t k
is_key (index i) k = elim (spelled k) [ none ↦ false | some j ↦ i == j ]

module _ {N : Type 0} (ns : Numbers N) where
  abbrev pub own_member : Members N → Token → Value N
  own_member end t = undefined
  own_member (member k v ms) t = if is_key t k then v else own_member ms t

  abbrev pub unit_at : Text → ℕ → Value N
  unit_at s i = elim (get_elem? s i) [ none ↦ undefined | some c ↦ str (c ∷ []) ]

  abbrev pub position : Token → Option ℕ
  position (index i) = some i
  position (name t) = spelled t

  abbrev pub is_length : Token → Bool
  is_length (name t) = text_eq t (text "length")
  is_length (index i) = false

  -- `cursor[token]`, for a cursor that is not nullish.
  abbrev pub member_of : Value N → Token → Value N
  member_of undefined t = undefined
  member_of null t = undefined
  member_of (bool b) t = undefined
  member_of (num n) t = undefined
  member_of (str s) t =
      if is_length t
      then num (ns.of_nat (length s))
      else elim (position t) [ none ↦ undefined | some i ↦ unit_at s i ]
  member_of (arr r vs) t =
      if is_length t
      then num (ns.of_nat (length_values vs))
      else elim (position t) [ none ↦ undefined | some i ↦ value_at vs i ]
  member_of (obj r ms) t = own_member ms t

  -- The loop of `getPath`.
  unfoldable pub walk : Value N → List Token → Value N
  walk cursor [] = cursor
  walk cursor (t ∷ ts) = if nullish cursor then undefined else walk (member_of cursor t) ts

  unfoldable pub get_path : Value N → Text → Value N
  unfolding walk tokenize
  get_path v [] = v
  get_path v (c ∷ cs) = walk v (tokenize (c ∷ cs))
