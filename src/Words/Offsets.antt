-- ===== src/Words/Offsets.antt =====
-- crates/greeg-index/src/words.rs: `word_at_offset`, the word at an offset of the arena.
use greeg.Base.{
  ℕ, suc, ◌+◌, ◌≤◌, ◌<◌, ◌≡◌, inl, inr, refl, ap, ◌∙◌, arith, true, false, ◌||◌, none, some, List,
  [], ◌∷◌, Bytes, length, ltb, leb, ◌==◌, Bool-cases,
}
use greeg.Words.Section.{total_length}
use greeg.Words.View.{pair_at, partition_offsets, word_at_offset}
use greeg.Words.Layout.{sums, pair_first, pair_later}

length-sums : (start : ℕ) (xs : List Bytes) → length (sums start xs) ≡ suc (length xs)
unfolding sums
length-sums start [] = refl
length-sums start (x ∷ xs) = ap suc (length-sums (start + length x) xs)

none_before :
    (start off : ℕ) (xs : List Bytes) → off < start → partition_offsets (sums start xs) off ≡ 0
unfolding sums partition_offsets
none_before start off [] h = ground arith
none_before start off (x ∷ xs) h = let e : leb start off ≡ false = ground arith in rw e refl

record At (offs : List ℕ) (off n : ℕ) : Type 0 where
  index : ℕ
  start : ℕ
  end : ℕ
  counted : partition_offsets offs off ≡ suc index
  in_range : index < n
  bounds : pair_at offs index ≡ some (start, end)
  above : start ≤ off
  below : off < end

sums-At :
    (start off : ℕ) (xs : List Bytes)
    → start ≤ off
    → off < start + total_length xs
    → At (sums start xs) off (length xs)
unfolding sums total_length partition_offsets
sums-At start off [] a b = absurd (omega arith)
sums-At start off (x ∷ xs) a b =
    let e : leb start off ≡ true = ground arith in
    elim (Bool-cases (ltb off (start + length x))) [
      | inl g ↦ record {
        index = 0;
        start = start;
        end = start + length x;
        counted = rw (e, none_before (start + length x) off xs (ground arith)) refl;
        in_range = omega arith;
        bounds = pair_first start (start + length x) xs;
        above = a;
        below = ground arith;
      }
      | inr g ↦
          let r = sums-At (start + length x) off xs (ground arith) (omega arith) in
          record {
            index = suc r.index;
            start = r.start;
            end = r.end;
            counted = rw (e, r.counted) refl;
            in_range = let i = r.in_range in omega arith;
            bounds = pair_later start (start + length x) r.index xs ∙ r.bounds;
            above = r.above;
            below = r.below;
          }
    ]

all_counted :
    (start off : ℕ) (xs : List Bytes)
    → start + total_length xs ≤ off
    → partition_offsets (sums start xs) off ≡ suc (length xs)
unfolding sums total_length partition_offsets
all_counted start off [] h = ground arith
all_counted start off (x ∷ xs) h =
    let e : leb start off ≡ true = ground arith in
    rw (e, all_counted (start + length x) off xs (omega arith)) refl

-- In the offsets of words an offset inside the arena is that of the word whose bounds hold it, and an
-- offset past the arena is no word's.
pub word_at_offset_lem :
    (xs : List Bytes) (off : ℕ)
    → (off < total_length xs
        → (i : ℕ) × (start : ℕ) × (end : ℕ) × (word_at_offset (sums 0 xs) off ≡ some i)
          × (pair_at (sums 0 xs) i ≡ some (start, end))
          × (start ≤ off)
          × (off < end))
      × (total_length xs ≤ off → word_at_offset (sums 0 xs) off ≡ none)
unfolding word_at_offset
word_at_offset_lem xs off =
    let size = length-sums 0 xs in
    (
      λ b.
          let r = sums-At 0 off xs (omega arith) (omega arith) in
          let i = r.in_range in
          (
            r.index,
            r.start,
            r.end,
            rw (r.counted, size)
                (let inside : (suc r.index == 0 || leb (suc (length xs)) (suc r.index)) ≡ false =
                    ground arith in
                  rw inside (ap some (omega arith))),
            r.bounds,
            r.above,
            r.below,
          ),
      λ b. rw (all_counted 0 off xs (omega arith), size) (ground arith),
    )
