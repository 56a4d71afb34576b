-- ===== src/Words/Distrust.antt =====
-- crates/greeg-index/src/words.rs: a word section whose blocks failed a check is not read.
use greeg.Base.{
  ℕ, zero, suc, ◌+◌, ◌*◌, ◌/◌, ◌≡◌, inl, inr, refl, true, false, none, some, [], Bytes, length, ltb,
  Bool-cases, Option-cases, ok, err,
}
use greeg.Base.Slices.{get_elem?}
use greeg.Integrity.{Checked, Blocks, range}
use greeg.Words.View.{
  SectionError, Slice, WordsView, pair_at, ok_range, read_slice, parse_view, word, count,
  posting_bytes, dictionary, find_loop, find, is_bad,
}

module _ (digest : Bytes → Bytes) (b : Blocks) (c : Checked) (bad : c.bad ≡ true) where
  range-bad : (off len : ℕ) → range digest b off len c ≡ (some false, c)
  unfolding range
  range-bad off len = simp bad refl

  ok_range-bad : (off len : ℕ) → ok_range digest (some b) off len c ≡ (ok false, c)
  unfolding ok_range
  ok_range-bad off len = let r = range-bad off len in cc

  read_slice-bad :
      (offs held : Slice) (size i : ℕ) → read_slice digest (some b) offs size held i c ≡ (ok [], c)
  unfolding read_slice
  read_slice-bad offs held size i = elim (Option-cases (pair_at offs.items i)) [
    | inl e ↦ cc
    | inr ((start, end), e) ↦ let r = ok_range-bad (offs.at + i * size) (2 * size) in cc
  ]

  count-bad : (v : WordsView) (i : ℕ) → count digest (some b) v i c ≡ (ok 0, c)
  unfolding count
  count-bad v i = elim (Option-cases (get_elem? v.counts.items i)) [
    | inl e ↦ cc
    | inr (n, e) ↦ let r = ok_range-bad (v.counts.at + i * 4) 4 in cc
  ]

  dictionary-bad : (v : WordsView) → dictionary digest (some b) v c ≡ (ok none, c)
  unfolding dictionary
  dictionary-bad v = let r = ok_range-bad v.word_off.at (4 * length v.word_off.items) in cc

  find_loop-bad :
      (v : WordsView) (w : Bytes) (fuel lo hi : ℕ)
      → find_loop digest (some b) v w fuel lo hi c ≡ (ok none, c)
  unfolding find_loop word is_bad
  find_loop-bad v w zero lo hi = refl
  find_loop-bad v w (suc fuel) lo hi = elim (Bool-cases (ltb lo hi)) [
    | inr e ↦ rw (e, find_loop) refl
    | inl e ↦ let r = read_slice-bad v.word_off v.arena 4 ((lo + hi) / 2) in cc
  ]

  parse_view-bad :
      (address : ℕ) (body : Bytes)
      → (e : SectionError) × (parse_view digest address body (some b) c ≡ (err e, c))
  unfolding parse_view
  parse_view-bad address body = elim (Bool-cases (ltb (length body) 16)) [
    | inl e ↦ (SectionError.short_section, rw e refl)
    | inr e ↦ (SectionError.header_digest, (let r = ok_range-bad 0 16 in cc))
  ]

  -- Once a check of a section's blocks has failed, no view of it opens, and in one that was open before
  -- every word and every posting list reads as empty, every count as 0, no word is found and the
  -- dictionary is not given.
  pub read_after_failure :
      (address : ℕ) (body : Bytes) (v : WordsView) (i : ℕ) (w : Bytes)
      → ((e : SectionError) × (parse_view digest address body (some b) c ≡ (err e, c)))
        × (word digest (some b) v i c ≡ (ok [], c))
        × (posting_bytes digest (some b) v i c ≡ (ok [], c))
        × (count digest (some b) v i c ≡ (ok 0, c))
        × (find digest (some b) v w c ≡ (ok none, c))
        × (dictionary digest (some b) v c ≡ (ok none, c))
  unfolding word posting_bytes find
  read_after_failure address body v i w = (
    parse_view-bad address body,
    read_slice-bad v.word_off v.arena 4 i,
    read_slice-bad v.offsets v.postings 8 i,
    count-bad v i,
    find_loop-bad v w (suc (length v.counts.items)) 0 (length v.counts.items),
    dictionary-bad v,
  )
