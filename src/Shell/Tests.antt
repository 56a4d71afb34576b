-- ===== src/Shell/Tests.antt =====
-- Runs of the word splitter, and its theorem at a concrete command.
use greeg.Base.{◌≡◌, refl, true, false, List, [], ◌∷◌, Bytes, codes, ok, err, contains_char}
use greeg.Shell.{split_words, command_of, unquoted_glob}
use greeg.Shell.Quoting.{split_words-command_of}

split_quotes :
    split_words (codes "rg -n 'it''s' \"a b\"\\ c")
    ≡ ok (codes "rg" ∷ codes "-n" ∷ codes "its" ∷ codes "a b c" ∷ [], false)
unfolding split_words
split_quotes = refl

split_include :
    split_words (codes "grep --include=*.rs x")
    ≡ ok (codes "grep" ∷ codes "--include=*.rs" ∷ codes "x" ∷ [], true)
unfolding split_words
split_include = refl

split_refused : split_words (codes "rg *.rs") ≡ err unquoted_glob
unfolding split_words
split_refused = refl

abbrev search_words : List Bytes
search_words = codes "greeg" ∷ codes "it's $x" ∷ [] ∷ []

split_words-command_of_example : split_words (command_of search_words) ≡ ok (search_words, false)
unfolding contains_char
split_words-command_of_example = split_words-command_of search_words (refl, (refl, (refl, tt)))
