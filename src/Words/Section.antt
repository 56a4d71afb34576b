-- ===== src/Words/Section.antt =====
-- crates/greeg-index/src/words.rs: `serialize`, the section of a file that holds the word index.
use greeg.Base.{ℕ, zero, suc, ◌+◌, ◌-◌, ◌/◌, ◌%◌, ◌^◌, List, [], ◌∷◌, ◌++◌, map, Bytes, length}

-- A word, in how many files it is, and its serialized bitmap.
abbrev pub Entry : Type 0
Entry = Bytes × ℕ × Bytes

-- `to_le_bytes` of so many bytes, after the cast to them.
unfoldable pub le_bytes : ℕ → ℕ → Bytes
le_bytes zero v = []
le_bytes (suc size) v = v % 256 ∷ le_bytes size (v / 256)

unfoldable pub zeros : ℕ → Bytes
zeros zero = []
zeros (suc n) = 0 ∷ zeros n

unfoldable pub pad8 : Bytes → Bytes
unfolding zeros
pad8 v = v ++ zeros ((8 - length v % 8) % 8)

unfoldable pub total_length : List Bytes → ℕ
total_length [] = 0
total_length (x ∷ xs) = length x + total_length xs

-- The offset of each, and the end of the last, in an integer of `size` bytes.
unfoldable pub put_offsets : ℕ → ℕ → List Bytes → Bytes
unfolding le_bytes
put_offsets size off [] = le_bytes size off
put_offsets size off (x ∷ xs) =
    le_bytes size off ++ put_offsets size ((off + length x) % 256 ^ size) xs

unfoldable pub put_all : List Bytes → Bytes
put_all [] = []
put_all (x ∷ xs) = x ++ put_all xs

unfoldable pub put_counts : List ℕ → Bytes
unfolding le_bytes
put_counts [] = []
put_counts (c ∷ counts) = le_bytes 4 c ++ put_counts counts

abbrev pub words_in : List Entry → List Bytes
words_in = map (λ e. e.0)

abbrev pub counts_in : List Entry → List ℕ
counts_in = map (λ e. e.1)

abbrev pub postings_in : List Entry → List Bytes
postings_in = map (λ e. e.2)

unfoldable pub header_bytes : List Entry → Bytes
unfolding le_bytes total_length
header_bytes entries =
    le_bytes 4 (length entries)
    ++ (le_bytes 4 (total_length (words_in entries))
        ++ le_bytes 8 (total_length (postings_in entries)))

unfoldable pub serialize : List Entry → Bytes
unfolding header_bytes put_offsets put_all pad8 put_counts
serialize entries =
    let words = pad8 (
      (header_bytes entries ++ put_offsets 4 0 (words_in entries)) ++ put_all (words_in entries)) in
    let counts = pad8 (words ++ put_counts (counts_in entries)) in
    pad8 ((counts ++ put_offsets 8 0 (postings_in entries)) ++ put_all (postings_in entries))
