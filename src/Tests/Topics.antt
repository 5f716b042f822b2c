-- ===== src/Tests/Topics.antt =====
-- Runs of the match of topics of shareds/common.
use nope.Prelude.{◌≡◌, refl, Bool, true, false, some, text, ◌↔◌, split_on}
use nope.Common.Topics.{topic_match, is_valid_routing_key, match_words, byte_length}
use nope.Common.Topics.Match.{Matches}
use nope.Common.Topics.Decides.{topic_match-Matches}

hash_in_front : topic_match (text "#.orange.#") (text "quick.orange.fox") ≡ some true
unfolding topic_match is_valid_routing_key match_words byte_length
hash_in_front = refl

one_word_only : topic_match (text "kern.*") (text "kern.crit.disk") ≡ some false
unfolding topic_match is_valid_routing_key match_words byte_length
one_word_only = refl

topic_match-Matches_example :
    (b : Bool) × (topic_match (text "#.error") (text "app.api.error") ≡ some b)
    × ((b ≡ true) ↔ (
        (is_valid_routing_key (text "app.api.error") ≡ true)
        × Matches (split_on b'.' (text "#.error")) (split_on b'.' (text "app.api.error"))))
topic_match-Matches_example = topic_match-Matches (text "#.error") (text "app.api.error")
