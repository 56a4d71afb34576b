-- ===== src/Words/Placed.antt =====
-- crates/greeg-index/src/words.rs: where `serialize` puts the parts of a section.
use greeg.Base.{
  ℕ, ◌+◌, ◌*◌, ◌/◌, ◌≡◌, refl, sym, ap, ◌∙◌, arith, some, List, [], ◌++◌, map, append-nil, Bytes,
  length, length-append, length-map,
}
use greeg.Words.Section.{
  Entry, pad8, total_length, put_offsets, put_all, put_counts, words_in, counts_in, postings_in,
  header_bytes, serialize,
}
use greeg.Words.View.{get_bytes}
use greeg.Words.Layout.{
  Starts, Starts-append, Starts-pad8, length-pad8, get_bytes-Starts, length-put_offsets,
  length-put_counts, length-put_all,
}

module _ (entries : List Entry) where
  abbrev pub total : ℕ
  total = length entries

  abbrev pub words_end : ℕ
  words_end = 16 + (total + 1) * 4

  abbrev pub counts_at : ℕ
  counts_at = (words_end + total_length (words_in entries) + 7) / 8 * 8

  abbrev pub offsets_at : ℕ
  offsets_at = (counts_at + total * 4 + 7) / 8 * 8

  abbrev pub postings_at : ℕ
  postings_at = offsets_at + (total + 1) * 8

  -- What is written before each part.
  abbrev before_arena : Bytes
  before_arena = header_bytes entries ++ put_offsets 4 0 (words_in entries)

  abbrev before_counts : Bytes
  before_counts = pad8 (before_arena ++ put_all (words_in entries))

  abbrev before_offsets : Bytes
  before_offsets = pad8 (before_counts ++ put_counts (counts_in entries))

  abbrev before_postings : Bytes
  before_postings = before_offsets ++ put_offsets 8 0 (postings_in entries)

  pub length-header_bytes : length (header_bytes entries) ≡ 16
  unfolding header_bytes
  length-header_bytes = refl

  length-before_arena : words_end ≡ length before_arena
  length-before_arena = omega (
    arith,
    length-append (header_bytes entries) (put_offsets 4 0 (words_in entries)),
    length-header_bytes,
    length-put_offsets 4 0 (words_in entries),
    length-map (λ (e : Entry). e.0) entries,
  )

  length-before_counts : counts_at ≡ length before_counts
  length-before_counts = omega (
    arith,
    length-pad8 (before_arena ++ put_all (words_in entries)),
    length-append before_arena (put_all (words_in entries)),
    length-put_all (words_in entries),
    length-before_arena,
  )

  length-before_offsets : offsets_at ≡ length before_offsets
  length-before_offsets = omega (
    arith,
    length-pad8 (before_counts ++ put_counts (counts_in entries)),
    length-append before_counts (put_counts (counts_in entries)),
    length-put_counts (counts_in entries),
    length-map (λ (e : Entry). e.1) entries,
    length-before_counts,
  )

  length-before_postings : postings_at ≡ length before_postings
  length-before_postings = omega (
    arith,
    length-append before_offsets (put_offsets 8 0 (postings_in entries)),
    length-put_offsets 8 0 (postings_in entries),
    length-map (λ (e : Entry). e.2) entries,
    length-before_offsets,
  )

  reaches_postings : Starts (before_postings ++ put_all (postings_in entries)) (serialize entries)
  unfolding serialize
  reaches_postings =
      Starts-pad8 (before_postings ++ put_all (postings_in entries)) (serialize entries)
        ([], sym (append-nil (serialize entries)))

  reaches_offsets : Starts before_postings (serialize entries)
  reaches_offsets =
      Starts-append before_postings (put_all (postings_in entries)) (serialize entries)
        reaches_postings

  reaches_counts : Starts (before_counts ++ put_counts (counts_in entries)) (serialize entries)
  reaches_counts =
      Starts-pad8 (before_counts ++ put_counts (counts_in entries)) (serialize entries) (
        Starts-append before_offsets (put_offsets 8 0 (postings_in entries)) (serialize entries)
          reaches_offsets)

  reaches_arena : Starts (before_arena ++ put_all (words_in entries)) (serialize entries)
  reaches_arena = Starts-pad8 (before_arena ++ put_all (words_in entries)) (serialize entries) (
      Starts-append before_counts (put_counts (counts_in entries)) (serialize entries)
        reaches_counts)

  pub reaches_words : Starts before_arena (serialize entries)
  reaches_words =
      Starts-append before_arena (put_all (words_in entries)) (serialize entries) reaches_arena

  pub offsets_length :
      (size : ℕ) (field : Entry → Bytes)
      → length (put_offsets size 0 (map field entries)) ≡ (total + 1) * size
  offsets_length size field =
      length-put_offsets size 0 (map field entries)
      ∙ ap (λ n. (n + 1) * size) (length-map field entries)

  pub get_words :
      get_bytes 16 ((total + 1) * 4) (serialize entries) ≡ some (put_offsets 4 0 (words_in entries))
  get_words =
      get_bytes-Starts (header_bytes entries) (put_offsets 4 0 (words_in entries))
        (serialize entries) 16 ((total + 1) * 4) (sym length-header_bytes)
        (sym (offsets_length 4 (λ e. e.0))) reaches_words

  pub get_arena :
      get_bytes words_end (total_length (words_in entries)) (serialize entries)
      ≡ some (put_all (words_in entries))
  get_arena =
      get_bytes-Starts before_arena (put_all (words_in entries)) (serialize entries) words_end
        (total_length (words_in entries)) length-before_arena
        (sym (length-put_all (words_in entries))) reaches_arena

  pub counts_length : length (put_counts (counts_in entries)) ≡ total * 4
  counts_length =
      length-put_counts (counts_in entries)
      ∙ ap (λ n. n * 4) (length-map (λ (e : Entry). e.1) entries)

  pub get_counts :
      get_bytes counts_at (total * 4) (serialize entries) ≡ some (put_counts (counts_in entries))
  get_counts =
      get_bytes-Starts before_counts (put_counts (counts_in entries)) (serialize entries) counts_at
        (total * 4) length-before_counts (sym counts_length) reaches_counts

  pub get_offsets :
      get_bytes offsets_at ((total + 1) * 8) (serialize entries)
      ≡ some (put_offsets 8 0 (postings_in entries))
  get_offsets =
      get_bytes-Starts before_offsets (put_offsets 8 0 (postings_in entries)) (serialize entries)
        offsets_at ((total + 1) * 8) length-before_offsets (sym (offsets_length 8 (λ e. e.2)))
        reaches_offsets

  pub get_postings :
      get_bytes postings_at (total_length (postings_in entries)) (serialize entries)
      ≡ some (put_all (postings_in entries))
  get_postings =
      get_bytes-Starts before_postings (put_all (postings_in entries)) (serialize entries)
        postings_at (total_length (postings_in entries)) length-before_postings
        (sym (length-put_all (postings_in entries))) reaches_postings
