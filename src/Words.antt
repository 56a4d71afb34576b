-- ===== src/Words.antt =====
-- crates/greeg-index/src/words.rs: the words of a file. The two loops over an index are one function
-- each over the bytes left; the callback's calls are the list of its arguments. Words/Section.antt
-- and Words/View.antt are the serialized section of a word index and how it is read.
pub mod Maximal
pub mod Exact
pub mod Section
pub mod View
pub mod Layout
pub mod Placed
pub mod ReadsBack
pub mod Search
pub mod Lookup
pub mod Offsets
pub mod Distrust
mod Tests
mod SectionTests
use greeg.Base.{
  ℕ, Bool, true, false, ◌&&◌, ◌||◌, List, [], ◌∷◌, ◌++◌, Bytes, length, leb, ◌==◌, if◌then◌else◌,
  is_ascii_alphanumeric,
}

abbrev pub min_word : ℕ
min_word = 2

abbrev pub max_word : ℕ
max_word = 64

unfoldable pub is_word_byte : ℕ → Bool
is_word_byte b = is_ascii_alphanumeric b || b == b'_'

unfoldable pub all_word_bytes : Bytes → Bool
all_word_bytes [] = true
all_word_bytes (b ∷ w) = is_word_byte b && all_word_bytes w

-- `(MIN_WORD..=MAX_WORD).contains(&len)`
abbrev pub has_word_length : Bytes → Bool
has_word_length w = leb min_word (length w) && leb (length w) max_word

unfoldable pub is_query_word : Bytes → Bool
unfolding all_word_bytes
is_query_word w = has_word_length w && all_word_bytes w

-- `if (MIN_WORD..=MAX_WORD).contains(&(i - s)) { f(&src[s..i]) }`, before the calls that follow.
unfoldable pub call : Bytes → List Bytes → List Bytes
call w rest = if has_word_length w then w ∷ rest else rest

unfoldable mutual
  unfolding call is_word_byte

  pub for_each_word : Bytes → List Bytes
  for_each_word [] = []
  for_each_word (b ∷ src) = elim (is_word_byte b) [
    | false ↦ for_each_word src
    | true ↦ word_loop (b ∷ []) src
  ]

  -- The inner loop, after the word bytes `w`; the byte that ends it is skipped by the outer one.
  pub word_loop : Bytes → Bytes → List Bytes
  word_loop w [] = call w []
  word_loop w (b ∷ src) = elim (is_word_byte b) [
    | true ↦ word_loop (w ++ b ∷ []) src
    | false ↦ call w (for_each_word src)
  ]
