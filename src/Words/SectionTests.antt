-- ===== src/Words/SectionTests.antt =====
-- Runs of a word section, and its theorems at a concrete input.
use greeg.Base.{
  ℕ, true, ◌≤◌, ◌<◌, ◌≡◌, refl, arith, Option, none, some, List, [], ◌∷◌, Bytes, codes, ok, err,
}
use greeg.Base.Order.{less}
use greeg.Base.Slices.{get_elem?}
use greeg.Integrity.{Checked, Blocks, fresh}
use greeg.Words.Section.{Entry, total_length, serialize, words_in}
use greeg.Words.View.{
  SectionError, WordsView, pair_at, parse_view, word, count, posting_bytes, find, word_at_offset,
  dictionary,
}
use greeg.Words.Layout.{sums}
use greeg.Words.Distrust.{read_after_failure}
use greeg.Words.ReadsBack.{FitsSection, view_of, parse_view-reads_back}
use greeg.Words.Lookup.{AreSorted, Answers, find-serialize}
use greeg.Words.Offsets.{word_at_offset_lem}

abbrev no_digest : Bytes → Bytes
no_digest block = []

abbrev two_words : List Entry
two_words = (codes "Node", 2, 7 ∷ 8 ∷ []) ∷ (codes "node", 3, 9 ∷ []) ∷ []

two_words-FitsSection : FitsSection two_words
unfolding total_length
two_words-FitsSection = record {
  few = omega arith;
  short_words = omega arith;
  short_postings = omega arith;
  small_counts = (omega arith, (omega arith, tt));
}

two_words-AreSorted : AreSorted two_words
unfolding less
two_words-AreSorted = ((refl, tt), (tt, tt))

torn : parse_view no_digest 0 (2 ∷ []) none fresh ≡ (err SectionError.short_section, fresh)
unfolding parse_view
torn = refl

parse_view-reads_back_example :
    (v : WordsView) × (parse_view no_digest 4096 (serialize two_words) none fresh ≡ (ok v, fresh))
    × ((i : ℕ) (e : Entry)
        → get_elem? two_words i ≡ some e
        → (word no_digest none v i fresh ≡ (ok e.0, fresh))
          × (count no_digest none v i fresh ≡ (ok e.1, fresh))
          × (posting_bytes no_digest none v i fresh ≡ (ok e.2, fresh)))
parse_view-reads_back_example =
    parse_view-reads_back no_digest two_words 4096 fresh refl two_words-FitsSection

find-serialize_example :
    (v : WordsView) × (parse_view no_digest 4096 (serialize two_words) none fresh ≡ (ok v, fresh))
    × ((w : Bytes)
        → (o : Option ℕ) × (find no_digest none v w fresh ≡ (ok o, fresh)) × Answers two_words w o)
find-serialize_example =
    find-serialize no_digest two_words 4096 fresh refl two_words-FitsSection two_words-AreSorted

word_at_offset_example :
    (5 < total_length (words_in two_words)
      → (i : ℕ) × (start : ℕ) × (end : ℕ) × (word_at_offset (sums 0 (words_in two_words)) 5
          ≡ some i)
        × (pair_at (sums 0 (words_in two_words)) i ≡ some (start, end))
        × (start ≤ 5)
        × (5 < end))
    × (total_length (words_in two_words) ≤ 5
        → word_at_offset (sums 0 (words_in two_words)) 5 ≡ none)
word_at_offset_example = word_at_offset_lem (words_in two_words) 5

abbrev torn_blocks : Blocks
torn_blocks = record { body = serialize two_words; trailer = []; block = 4096 }

abbrev distrusted : Checked
distrusted = record { done = λ w. 0; bad = true; failed = true }

read_after_failure_example :
    ((e : SectionError) × (parse_view no_digest 4096
          (serialize two_words)
          (some torn_blocks)
          distrusted
        ≡ (err e, distrusted)))
    × (word no_digest (some torn_blocks) (view_of two_words) 1 distrusted ≡ (ok [], distrusted))
    × (posting_bytes no_digest (some torn_blocks) (view_of two_words) 1 distrusted
        ≡ (ok [], distrusted))
    × (count no_digest (some torn_blocks) (view_of two_words) 1 distrusted ≡ (ok 0, distrusted))
    × (find no_digest (some torn_blocks) (view_of two_words) (codes "node") distrusted
        ≡ (ok none, distrusted))
    × (dictionary no_digest (some torn_blocks) (view_of two_words) distrusted
        ≡ (ok none, distrusted))
read_after_failure_example =
    read_after_failure no_digest torn_blocks distrusted refl 4096 (serialize two_words)
      (view_of two_words) 1 (codes "node")
