-- ===== src/SplitMessage/Examples.antt =====
-- Witnesses for the theorems about `splitMessage`, and tests.
use blueship.SplitMessage.{
  cut, cut_loop, cut_of, newline_at, paragraph_at, split_loop, split_message, send_long,
}
use blueship.SplitMessage.Chunks.{Fits, concat, concat-split_message}
use blueship.Prelude.Int.{pos}
use blueship.Prelude.{ℕ, ◌≡◌, refl, List, [], ◌∷◌, All}

-- "a\n\nb\ncdefg"
abbrev two_paragraphs : List ℕ
two_paragraphs = 97 ∷ 10 ∷ 10 ∷ 98 ∷ 10 ∷ 99 ∷ 100 ∷ 101 ∷ 102 ∷ 103 ∷ []

split_two_paragraphs :
    split_message two_paragraphs (pos 5)
    ≡ (97 ∷ 10 ∷ 10 ∷ []) ∷ (98 ∷ 10 ∷ []) ∷ (99 ∷ 100 ∷ 101 ∷ 102 ∷ 103 ∷ []) ∷ []
unfolding cut cut_loop cut_of newline_at paragraph_at split_loop split_message
split_two_paragraphs = refl

split_without_limit : split_message two_paragraphs (pos 0) ≡ []
unfolding split_message
split_without_limit = refl

send_short : send_long two_paragraphs ≡ two_paragraphs ∷ []
unfolding send_long
send_short = refl

concat-split_message_example :
    (concat (split_message two_paragraphs (pos 5)) ≡ two_paragraphs)
    × All (Fits 5) (split_message two_paragraphs (pos 5))
concat-split_message_example = concat-split_message two_paragraphs 4
