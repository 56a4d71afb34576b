-- ===== src/Words/Tests.antt =====
-- Runs of the tokenizer, and its theorem at a concrete input.
use greeg.Base.{◌≡◌, ◌↔◌, refl, true, [], ◌∷◌, Bytes, In}
use greeg.Words.{is_query_word, for_each_word}
use greeg.Words.Maximal.{IsWordOf}
use greeg.Words.Exact.{for_each_word_iff}

-- `ab c_d;e`
abbrev source : Bytes
source = b'a' ∷ b'b' ∷ b' ' ∷ b'c' ∷ b'_' ∷ b'd' ∷ b';' ∷ b'e' ∷ []

abbrev second : Bytes
second = b'c' ∷ b'_' ∷ b'd' ∷ []

-- The last word is one byte long.
for_each_word-source : for_each_word source ≡ (b'a' ∷ b'b' ∷ []) ∷ second ∷ []
unfolding for_each_word
for_each_word-source = refl

for_each_word_iff_example :
    In second (for_each_word source) ↔ ((is_query_word second ≡ true) × IsWordOf source second)
for_each_word_iff_example = for_each_word_iff source second
