-- ===== src/Gram/Tests.antt =====
-- Runs of trigram extraction, and its theorems at concrete inputs.
use greeg.Base.{sort_unstable, dedup, ℕ, ◌≡◌, ◌↔◌, refl, [], ◌∷◌, map, Bytes, In, IsAscending}
use greeg.Gram.{fold, key3, new, extract, literal_keys}
use greeg.Base.Bits.{test_bit, set_bit}
use greeg.Gram.Windows.{HasGram}
use greeg.Gram.Extract.{IsClean, extract_lem}
use greeg.Gram.Literal.{InGroups, literal_keys_lem}

abbrev text : Bytes
text = b'a' ∷ b'b' ∷ b'c' ∷ b'\n' ∷ b'a' ∷ b'b' ∷ b'c' ∷ b'd' ∷ []

abbrev name : Bytes
name = b'F' ∷ b'o' ∷ b'O' ∷ b'\n' ∷ b'x' ∷ []

extract_run : (extract new text).1 ≡ 6382179 ∷ 6447972 ∷ []
unfolding extract sort_unstable test_bit key3 set_bit
extract_run = refl

literal_keys_run : literal_keys name ≡ (6713199 ∷ []) ∷ []
unfolding literal_keys dedup sort_unstable
literal_keys_run = refl

new-IsClean : IsClean new
new-IsClean = record { zeroed = λ w. refl; untouched = refl }

extract_lem_example :
    IsClean (extract new text).0
    × ((k : ℕ) → In k (extract new text).1 ↔ HasGram k text)
    × IsAscending (extract new text).1
extract_lem_example = extract_lem new text new-IsClean

literal_keys_lem_example : InGroups 6713199 (literal_keys name) ↔ HasGram 6713199 (map fold name)
literal_keys_lem_example = literal_keys_lem 6713199 name
