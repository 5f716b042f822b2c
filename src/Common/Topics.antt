-- ===== src/Common/Topics.antt =====
-- shareds/common/src/regex/amqp.ts: keys of topics and their match. The indices into the two lists of
-- words are the words from there on; the loop of `topicMatch` runs on fuel. `bindingToRegExp` is not
-- modelled: regular expressions belong to the language.
pub mod Match
pub mod Decides
use nope.Prelude.{
  ℕ, zero, suc, ◌+◌, ◌*◌, ◌<◌, Bool, true, false, not, ◌&&◌, ◌||◌, List, [], ◌∷◌, ◌++◌, Option,
  none, some, ltb, leb, ◌==◌, if◌then◌else◌, length, keep, Text, text, text_eq, split_on, has_char,
  ends_in, starts,
}

-- `TextEncoder.encode(key).length` of UTF-16 code units: a surrogate without its partner is written as
-- the replacement character.
abbrev is_high : ℕ → Bool
is_high c = leb 0xd800 c && ltb c 0xdc00

abbrev is_low : ℕ → Bool
is_low c = leb 0xdc00 c && ltb c 0xe000

abbrev unit_length : ℕ → ℕ
unit_length c = if ltb c 0x80 then 1 else if ltb c 0x800 then 2 else 3

unfoldable pub byte_length : Text → ℕ
byte_length [] = 0
byte_length (c ∷ []) = unit_length c
byte_length (c ∷ d ∷ cs) =
    let pair = 4 + byte_length cs in
    let rest = byte_length (d ∷ cs) in if is_high c && is_low d then pair else unit_length c + rest

-- `key.includes("..")`
abbrev pub has_dots : Text → Bool
has_dots [] = false
has_dots (c ∷ []) = false
has_dots (c ∷ d ∷ cs) = (c == b'.' && d == b'.') || has_dots (d ∷ cs)

unfoldable pub is_valid_routing_key : Text → Bool
unfolding byte_length
is_valid_routing_key key =
    if text_eq key []
    then false
    else if ltb (byte_length key) 1 || ltb 255 (byte_length key)
    then false
    else not (starts key (text ".") || ends_in b'.' key || has_dots key)

-- `key.replaceAll("*", "x").replaceAll("#", "x")`
abbrev pub without_wildcards : Text → Text
without_wildcards [] = []
without_wildcards (c ∷ cs) = (if c == b'*' || c == b'#' then b'x' else c) ∷ without_wildcards cs

abbrev pub is_valid_atom : Text → Bool
is_valid_atom atom =
    text_eq atom (text "*")
    || text_eq atom (text "#")
    || (not (has_char b'*' atom) && not (has_char b'#' atom))

abbrev pub every_atom : List Text → Bool
every_atom [] = true
every_atom (a ∷ as') = is_valid_atom a && every_atom as'

pub is_valid_binding_key : Text → Bool
unfolding is_valid_routing_key
is_valid_binding_key key =
    if is_valid_routing_key (without_wildcards key) then every_atom (split_on b'.' key) else false

abbrev pub hash_word : Text
hash_word = text "#"

abbrev pub star_word : Text
star_word = text "*"

-- What is left of both keys behind the last `#`, and of the routing key where it is to go on.
abbrev pub Anchor : Type 0
Anchor = Option (List Text × List Text)

pub data Round : Type 0 where
  finished : Bool → Round
  going : List Text → List Text → Anchor → Round

-- Let the last `#` absorb one more word.
abbrev pub retreat : Anchor → Round
retreat none = finished false
retreat (some (q, [])) = finished false
retreat (some (q, z ∷ s)) = going q s (some (q, s))

abbrev pub only_hashes : List Text → Bool
only_hashes [] = true
only_hashes (y ∷ p) = text_eq y hash_word && only_hashes p

-- One round of the loop of `topicMatch`; at the end of the routing key, the second loop.
abbrev pub round : List Text → List Text → Anchor → Round
round p [] a = finished (only_hashes p)
round [] (x ∷ t) a = retreat a
round (y ∷ p) (x ∷ t) a =
    if text_eq y hash_word
    then going p (x ∷ t) (some (p, x ∷ t))
    else if text_eq y x || text_eq y star_word
    then going p t a
    else retreat a

unfoldable pub match_words : ℕ → List Text → List Text → Anchor → Option Bool
match_words zero p t a = none
match_words (suc n) p t a = elim (round p t a) [
  | finished b ↦ some b
  | going q s c ↦ match_words n q s c
]

-- Rounds that are enough.
abbrev pub enough : List Text → List Text → ℕ
enough b r = suc (length r * suc (length b) + length b)

unfoldable pub topic_match : Text → Text → Option Bool
unfolding is_valid_routing_key match_words
topic_match binding routing =
    let b = split_on b'.' binding in
    let r = split_on b'.' routing in
    if is_valid_routing_key routing then match_words (enough b r) b r none else some false

-- `topic.any`, `topic.all`, `topic.matchSet` and `route`, over the answers of `topicMatch`.
abbrev pub is_match : Option Bool → Bool
is_match none = false
is_match (some b) = b

pub any : List Text → Text → Bool
unfolding topic_match
any [] routing = false
any (b ∷ bs) routing = is_match (topic_match b routing) || any bs routing

pub all : List Text → Text → Bool
unfolding topic_match
all [] routing = true
all (b ∷ bs) routing = is_match (topic_match b routing) && all bs routing

pub match_set : List Text → Text → List Text
unfolding topic_match
match_set bs routing = keep (λ b. is_match (topic_match b routing)) bs

unfoldable pub route : {R : Type 0} → List (Text × (Text → R)) → Text → Option R
unfolding topic_match
route [] routing = none
route (e ∷ es) routing =
    let rest = route es routing in
    if is_match (topic_match e.0 routing) then some (e.1 routing) else rest
