-- ===== src/Words/ReadsBack.antt =====
-- crates/greeg-index/src/words.rs: a serialized word section parses, and its accessors give the entries.
use greeg.Base.{
  ℕ, zero, suc, ◌+◌, ◌*◌, ◌/◌, ◌%◌, ◌<◌, ◌≡◌, refl, sym, ap, ◌∙◌, arith, true, false, none, some,
  List, [], ◌∷◌, ◌++◌, map, Bytes, length, length-append, length-map, take, drop, All, ltb, ◌==◌,
  ◌&&◌, ok,
}
use mathlib.Core.Option.{some-injective, none-ne-some}
use greeg.Base.Slices.{get_elem?}
use greeg.Integrity.{Checked}
use greeg.Words.Section.{
  Entry, total_length, put_offsets, put_all, put_counts, words_in, counts_in, postings_in,
  header_bytes, serialize,
}
use greeg.Words.View.{
  Slice, WordsView, le_value, cast_items, try_cast_slice, last_or_zero, pair_at, get_slice,
  ok_range, parse_slices, parse_view, read_slice, word, count, posting_bytes,
}
use greeg.Words.Layout.{
  Starts-append, sums, cast_items-put_offsets, cast_items-put_counts, last_or_zero-sums, sums-slice,
  le_value-le_bytes,
}
use greeg.Words.Placed.{
  total, words_end, counts_at, offsets_at, postings_at, length-header_bytes, offsets_length,
  counts_length, get_words, get_arena, get_counts, get_offsets, get_postings, reaches_words,
}

-- The limits of the format's integers.
pub record FitsSection (entries : List Entry) : Type 0 where
  pub few : length entries < 4294967296
  pub short_words : total_length (words_in entries) < 4294967296
  pub short_postings : total_length (postings_in entries) < 18446744073709551616
  pub small_counts : All (λ c. c < 4294967296) (counts_in entries)

cast_fours :
    (k address : ℕ) (bytes : Bytes)
    → address % 4 ≡ 0
    → length bytes ≡ k * 4
    → try_cast_slice 4 address bytes ≡ some (cast_items 4 k bytes)
unfolding try_cast_slice
cast_fours k address bytes a l =
    let fits : (address % 4 == 0 && length bytes % 4 == 0) ≡ true = rw l (ground arith) in
    let many : length bytes / 4 ≡ k = omega arith in rw (fits, many) refl

cast_eights :
    (k address : ℕ) (bytes : Bytes)
    → address % 8 ≡ 0
    → length bytes ≡ k * 8
    → try_cast_slice 8 address bytes ≡ some (cast_items 8 k bytes)
unfolding try_cast_slice
cast_eights k address bytes a l =
    let fits : (address % 8 == 0 && length bytes % 8 == 0) ≡ true = rw l (ground arith) in
    let many : length bytes / 8 ≡ k = omega arith in rw (fits, many) refl

module _ (entries : List Entry) where
  abbrev pub view_of : WordsView
  view_of = record {
    word_off = record { at = 16; items = sums 0 (words_in entries) };
    arena = record { at = (words_end entries); items = put_all (words_in entries) };
    counts = record { at = (counts_at entries); items = counts_in entries };
    offsets = record { at = (offsets_at entries); items = sums 0 (postings_in entries) };
    postings = record { at = (postings_at entries); items = put_all (postings_in entries) };
  }

  module _ (address : ℕ) (aligned : address % 8 ≡ 0) (fits : FitsSection entries) where
    one_past :
        {A : Type 0} (xs : List A)
        → length xs ≡ (total entries)
        → (total entries) + 1 ≡ suc (length xs)
    one_past xs e = omega arith

    cast_words :
        try_cast_slice 4 (address + 16) (put_offsets 4 0 (words_in entries))
        ≡ some (sums 0 (words_in entries))
    cast_words =
        cast_fours ((total entries) + 1) (address + 16) (put_offsets 4 0 (words_in entries))
          (omega arith) ((offsets_length entries) 4 (λ e. e.0))
        ∙ ap some (
            ap (λ n. cast_items 4 n (put_offsets 4 0 (words_in entries)))
              (one_past (words_in entries) (length-map (λ (e : Entry). e.0) entries))
            ∙ cast_items-put_offsets 4 0 (words_in entries)
                (let f = fits.short_words in omega arith))

    cast_counts :
        try_cast_slice 4 (address + (counts_at entries)) (put_counts (counts_in entries))
        ≡ some (counts_in entries)
    cast_counts =
        cast_fours (total entries) (address + (counts_at entries)) (put_counts (counts_in entries))
          (omega arith) (counts_length entries)
        ∙ ap some (
            ap (λ n. cast_items 4 n (put_counts (counts_in entries)))
              (sym (length-map (λ (e : Entry). e.1) entries))
            ∙ cast_items-put_counts (counts_in entries) fits.small_counts)

    cast_offsets :
        try_cast_slice 8 (address + (offsets_at entries)) (put_offsets 8 0 (postings_in entries))
        ≡ some (sums 0 (postings_in entries))
    cast_offsets =
        cast_eights ((total entries) + 1) (address + (offsets_at entries))
          (put_offsets 8 0 (postings_in entries)) (omega arith)
          ((offsets_length entries) 8 (λ e. e.2))
        ∙ ap some (
            ap (λ n. cast_items 8 n (put_offsets 8 0 (postings_in entries)))
              (one_past (postings_in entries) (length-map (λ (e : Entry). e.2) entries))
            ∙ cast_items-put_offsets 8 0 (postings_in entries)
                (let f = fits.short_postings in omega arith))

    ends_agree :
        (last_or_zero (sums 0 (words_in entries)) == total_length (words_in entries)
          && last_or_zero (sums 0 (postings_in entries)) == total_length (postings_in entries))
        ≡ true
    ends_agree =
        let a = last_or_zero-sums 0 (words_in entries) in
        let b = last_or_zero-sums 0 (postings_in entries) in ground arith

    parse_slices-serialize :
        (digest : Bytes → Bytes) (c : Checked)
        → parse_slices digest address
            (serialize entries)
            none
            (total entries)
            (total_length (words_in entries))
            (total_length (postings_in entries))
            c
          ≡ (ok view_of, c)
    unfolding parse_slices
    parse_slices-serialize digest c =
        rw
          (
            (get_words entries),
            cast_words,
            (get_arena entries),
            (get_counts entries),
            cast_counts,
            (get_offsets entries),
            cast_offsets,
            (get_postings entries),
            ends_agree,
          )
          refl

    first_value :
        (rest : Bytes) → le_value (take 4 (header_bytes entries ++ rest)) ≡ (total entries)
    unfolding header_bytes
    first_value rest = le_value-le_bytes 4 (total entries) fits.few

    second_value :
        (rest : Bytes)
        → le_value (take 4 (drop 4 (header_bytes entries ++ rest)))
          ≡ total_length (words_in entries)
    unfolding header_bytes
    second_value rest = le_value-le_bytes 4 (total_length (words_in entries)) fits.short_words

    third_value :
        (rest : Bytes)
        → le_value (take 8 (drop 8 (header_bytes entries ++ rest)))
          ≡ total_length (postings_in entries)
    unfolding header_bytes
    third_value rest = le_value-le_bytes 8 (total_length (postings_in entries)) fits.short_postings

    pub parse_view-serialize :
        (digest : Bytes → Bytes) (c : Checked)
        → parse_view digest address (serialize entries) none c ≡ (ok view_of, c)
    unfolding parse_view
    parse_view-serialize digest c =
        let (rest, e) =
          Starts-append (header_bytes entries) (put_offsets 4 0 (words_in entries))
            (serialize entries) (reaches_words entries) in
        let whole =
          ap length e
          ∙ length-append (header_bytes entries) rest
          ∙ ap (λ n. n + length rest) (length-header_bytes entries) in
        let long : ltb (length (serialize entries)) 16 ≡ false = ground arith in
        let first = ap (λ b. le_value (take 4 b)) e ∙ first_value rest in
        let second = ap (λ b. le_value (take 4 (drop 4 b))) e ∙ second_value rest in
        let third = ap (λ b. le_value (take 8 (drop 8 b))) e ∙ third_value rest in
        rw (long, first, second, third) (parse_slices-serialize digest c)

-- Without blocks, what stands between two offsets is read.
read_slice-found :
    (digest : Bytes → Bytes) (offs held : Slice) (size i start end : ℕ) (x : Bytes) (c : Checked)
    → pair_at offs.items i ≡ some (start, end)
    → get_slice start end held.items ≡ some x
    → read_slice digest none offs size held i c ≡ (ok x, c)
unfolding read_slice ok_range
read_slice-found digest offs held size i start end x c p q = cc

at_field :
    {A : Type 0} (f : Entry → A) (entries : List Entry) (i : ℕ) (e : Entry)
    → get_elem? entries i ≡ some e
    → get_elem? (map f entries) i ≡ some (f e)
at_field f [] i e h = absurd (none-ne-some _ h)
at_field f (x ∷ entries) zero e h = ap some (ap f (some-injective _ _ h))
at_field f (x ∷ entries) (suc i) e h = at_field f entries i e h

-- What the accessors give at the place of an entry.
module _ (digest : Bytes → Bytes) (entries : List Entry) (i : ℕ) (e : Entry)
    (here : get_elem? entries i ≡ some e) (c : Checked) where
  pub word-view_of : word digest none (view_of entries) i c ≡ (ok e.0, c)
  unfolding word
  word-view_of =
      let (start, end, p, q) =
        sums-slice [] (words_in entries) i e.0 (at_field (λ x. x.0) entries i e here) in
      read_slice-found digest (view_of entries).word_off (view_of entries).arena 4 i start end e.0 c
        p q

  posting_bytes-view_of : posting_bytes digest none (view_of entries) i c ≡ (ok e.2, c)
  unfolding posting_bytes
  posting_bytes-view_of =
      let (start, end, p, q) =
        sums-slice [] (postings_in entries) i e.2 (at_field (λ x. x.2) entries i e here) in
      read_slice-found digest (view_of entries).offsets (view_of entries).postings 8 i start end e.2
        c p q

  count-view_of : count digest none (view_of entries) i c ≡ (ok e.1, c)
  unfolding count ok_range
  count-view_of = rw (at_field (λ x. x.1) entries i e here, count) refl

-- A section whose numbers fit its format, at an aligned address and without blocks to verify, parses to
-- a view that has at the place of each entry its word, its count and its posting list.
pub parse_view-reads_back :
    (digest : Bytes → Bytes) (entries : List Entry) (address : ℕ) (c : Checked)
    → address % 8 ≡ 0
    → FitsSection entries
    → (v : WordsView) × (parse_view digest address (serialize entries) none c ≡ (ok v, c))
      × ((i : ℕ) (e : Entry)
          → get_elem? entries i ≡ some e
          → (word digest none v i c ≡ (ok e.0, c))
            × (count digest none v i c ≡ (ok e.1, c))
            × (posting_bytes digest none v i c ≡ (ok e.2, c)))
parse_view-reads_back digest entries address c aligned fits = (
  view_of entries,
  parse_view-serialize entries address aligned fits digest c,
  λ i e here. (
    word-view_of digest entries i e here c,
    count-view_of digest entries i e here c,
    posting_bytes-view_of digest entries i e here c,
  ),
)
