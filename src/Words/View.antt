-- ===== src/Words/View.antt =====
-- crates/greeg-index/src/words.rs: `WordsView`, a serialized word section as it is read. Its slices
-- stand at an offset of the section, where the blocks verify them. A panic of the verification is a
-- refusal.
use greeg.Base.{
  ℕ, zero, suc, ◌+◌, ◌-◌, ◌*◌, ◌/◌, ◌%◌, Bool, true, false, not, ◌&&◌, ◌||◌, Option, none, some,
  List, [], ◌∷◌, Bytes, length, take, drop, ltb, leb, ◌==◌, if◌then◌else◌, bytes_eq, Result, ok,
  err,
}
use greeg.Base.Order.{less}
use greeg.Base.Slices.{get_elem?}
use greeg.Integrity.{Checked, Blocks, fail, range}

pub data SectionError : Type 0 where
  short_section header_digest : SectionError
  no_word_offsets no_arena no_counts no_posting_offsets no_postings : SectionError
  unaligned_words unaligned_counts unaligned_postings : SectionError
  lengths_digest lengths_disagree panicked : SectionError

-- What reads bytes that are verified: it passes on what was verified so far.
abbrev pub WithChecks : Type 0 → Type 0
WithChecks A = Checked → Result SectionError A × Checked

module _ {A B : Type 0} where
  infixl 5 ◌then_read◌
  abbrev pub ◌then_read◌ : WithChecks A → (A → WithChecks B) → WithChecks B
  (m then_read f) c = let (r, d) = m c in elim r [ ok a ↦ f a d | err e ↦ (err e, d) ]

abbrev pub give : {A : Type 0} → A → WithChecks A
give a c = (ok a, c)

abbrev pub refuse : {A : Type 0} → SectionError → WithChecks A
refuse e c = (err e, c)

-- `.context(..)?`
abbrev pub or_refuse : {A : Type 0} → SectionError → Option A → WithChecks A
or_refuse e none = refuse e
or_refuse e (some a) = give a

pub record Slice : Type 0 where
  pub at : ℕ
  pub items : List ℕ

pub record WordsView : Type 0 where
  pub word_off : Slice
  pub arena : Slice
  pub counts : Slice
  pub offsets : Slice
  pub postings : Slice

-- `body.get(off..off + len)`
unfoldable pub get_bytes : ℕ → ℕ → Bytes → Option Bytes
get_bytes off len body =
    if leb (off + len) (length body) then some (take len (drop off body)) else none

unfoldable pub le_value : Bytes → ℕ
le_value [] = 0
le_value (b ∷ bytes) = b + 256 * le_value bytes

unfoldable pub cast_items : ℕ → ℕ → Bytes → List ℕ
unfolding le_value
cast_items size zero bytes = []
cast_items size (suc n) bytes = le_value (take size bytes) ∷ cast_items size n (drop size bytes)

-- `bytemuck::try_cast_slice` of bytes that stand at an address.
unfoldable pub try_cast_slice : ℕ → ℕ → Bytes → Option (List ℕ)
unfolding cast_items
try_cast_slice size address bytes =
    if address % size == 0 && length bytes % size == 0
    then some (cast_items size (length bytes / size) bytes)
    else none

-- `items.get(i..i + 2)`
unfoldable pub pair_at : List ℕ → ℕ → Option (ℕ × ℕ)
pair_at [] i = none
pair_at (a ∷ []) i = none
pair_at (a ∷ b ∷ items) zero = some (a, b)
pair_at (a ∷ b ∷ items) (suc i) = pair_at (b ∷ items) i

-- `items.get(start..end)`
unfoldable pub get_slice : ℕ → ℕ → List ℕ → Option (List ℕ)
get_slice start end items =
    if leb start end && leb end (length items)
    then some (take (end - start) (drop start items))
    else none

-- `.last().copied().unwrap_or(0)`
unfoldable pub last_or_zero : List ℕ → ℕ
last_or_zero [] = 0
last_or_zero (x ∷ []) = x
last_or_zero (x ∷ y ∷ items) = last_or_zero (y ∷ items)

module _ (digest : Bytes → Bytes) where
  -- `integrity::ok` on the bytes `off..off + len` of the section.
  unfoldable pub ok_range : Option Blocks → ℕ → ℕ → WithChecks Bool
  ok_range none off len c = (ok true, c)
  ok_range (some b) off len c =
      let (r, d) = range digest b off len c in
      elim r [ none ↦ (err SectionError.panicked, d) | some v ↦ (ok v, d) ]

  abbrev both_ok : Option Blocks → ℕ → ℕ → ℕ → ℕ → WithChecks Bool
  both_ok blocks off len at size =
      ok_range blocks off len then_read λ v. (if v then ok_range blocks at size else give false)

  -- The part of `parse` behind the header, of a section that starts at an address.
  unfoldable pub parse_slices : ℕ → Bytes → Option Blocks → ℕ → ℕ → ℕ → WithChecks WordsView
  unfolding ok_range get_bytes try_cast_slice last_or_zero
  parse_slices address body blocks n arena_len plen =
      let words_end = 16 + (n + 1) * 4 in
      let counts_at = (words_end + arena_len + 7) / 8 * 8 in
      let offsets_at = (counts_at + n * 4 + 7) / 8 * 8 in
      let postings_at = offsets_at + (n + 1) * 8 in
      or_refuse SectionError.no_word_offsets (get_bytes 16 ((n + 1) * 4) body) then_read λ ob.
      or_refuse SectionError.unaligned_words (try_cast_slice 4 (address + 16) ob)
      then_read λ word_off.
          or_refuse SectionError.no_arena (get_bytes words_end arena_len body) then_read λ arena.
          or_refuse SectionError.no_counts (get_bytes counts_at (n * 4) body) then_read λ cb.
          or_refuse SectionError.unaligned_counts (try_cast_slice 4 (address + counts_at) cb)
          then_read λ counts.
              or_refuse SectionError.no_posting_offsets (get_bytes offsets_at ((n + 1) * 8) body)
              then_read λ pb.
                  or_refuse SectionError.unaligned_postings
                    (try_cast_slice 8 (address + offsets_at) pb)
                  then_read λ offsets.
                      or_refuse SectionError.no_postings (get_bytes postings_at plen body)
                      then_read λ postings.
                          both_ok blocks (16 + n * 4) 4 (offsets_at + n * 8) 8 then_read λ verified.
                          (if not verified
                            then refuse SectionError.lengths_digest
                            else if last_or_zero word_off == arena_len
                                && last_or_zero offsets == plen
                            then give (record {
                              word_off = record { at = 16; items = word_off };
                              arena = record { at = words_end; items = arena };
                              counts = record { at = counts_at; items = counts };
                              offsets = record { at = offsets_at; items = offsets };
                              postings = record { at = postings_at; items = postings };
                            })
                            else refuse SectionError.lengths_disagree)

  unfoldable pub parse_view : ℕ → Bytes → Option Blocks → WithChecks WordsView
  unfolding parse_slices le_value
  parse_view address body blocks =
      if ltb (length body) 16
      then refuse SectionError.short_section
      else (ok_range blocks 0 16 then_read λ v.
          (if not v
            then refuse SectionError.header_digest
            else parse_slices address body blocks (le_value (take 4 body))
                (le_value (take 4 (drop 4 body))) (le_value (take 8 (drop 8 body)))))

  -- `integrity::ok` on the default slice, which is empty and stands outside every section.
  unfoldable pub ok_default : Option Blocks → WithChecks Bool
  unfolding fail
  ok_default none c = (ok true, c)
  ok_default (some b) c = (ok false, fail c)

  -- What stands between two offsets, empty when it cannot be verified.
  unfoldable pub read_slice : Option Blocks → Slice → ℕ → Slice → ℕ → WithChecks Bytes
  unfolding ok_range ok_default pair_at get_slice
  read_slice blocks offs size held i = elim (pair_at offs.items i) [
    | none ↦ give []
    | some (start, end) ↦ ok_range blocks (offs.at + i * size) (2 * size) then_read λ v. elim v [
      | false ↦ give []
      | true ↦ elim (get_slice start end held.items) [
        | none ↦ ok_default blocks then_read λ u. give []
        | some w ↦
            ok_range blocks (held.at + start) (length w) then_read λ u. give (if u then w else [])
      ]
    ]
  ]

  unfoldable pub word : Option Blocks → WordsView → ℕ → WithChecks Bytes
  unfolding read_slice
  word blocks v i = read_slice blocks v.word_off 4 v.arena i

  unfoldable pub posting_bytes : Option Blocks → WordsView → ℕ → WithChecks Bytes
  unfolding read_slice
  posting_bytes blocks v i = read_slice blocks v.offsets 8 v.postings i

  unfoldable pub count : Option Blocks → WordsView → ℕ → WithChecks ℕ
  unfolding ok_range
  count blocks v i = elim (get_elem? v.counts.items i) [
    | none ↦ give 0
    | some n ↦ ok_range blocks (v.counts.at + i * 4) 4 then_read λ u. give (if u then n else 0)
  ]

  unfoldable pub is_bad : Option Blocks → WithChecks Bool
  is_bad none c = (ok false, c)
  is_bad (some b) c = (ok c.bad, c)

  -- `while lo < hi`, with fuel for so many rounds.
  unfoldable pub find_loop : Option Blocks → WordsView → Bytes → ℕ → ℕ → ℕ → WithChecks (Option ℕ)
  unfolding word is_bad less bytes_eq
  find_loop blocks v w zero lo hi = give none
  find_loop blocks v w (suc fuel) lo hi = elim (ltb lo hi) [
    | false ↦ give none
    | true ↦
        let mid = (lo + hi) / 2 in
        word blocks v mid then_read λ at. is_bad blocks then_read λ bad. elim bad [
          | true ↦ give none
          | false ↦ elim (less at w) [
            | true ↦ find_loop blocks v w fuel (mid + 1) hi
            | false ↦ elim (bytes_eq at w) [
              | true ↦ give (some mid)
              | false ↦ find_loop blocks v w fuel lo mid
            ]
          ]
        ]
  ]

  unfoldable pub find : Option Blocks → WordsView → Bytes → WithChecks (Option ℕ)
  unfolding find_loop
  find blocks v w = let n = length v.counts.items in find_loop blocks v w (suc n) 0 n

  -- Offsets, words and counts, where all of them are verified.
  unfoldable pub dictionary :
      Option Blocks → WordsView → WithChecks (Option (List ℕ × Bytes × List ℕ))
  unfolding ok_range
  dictionary blocks v = ok_range blocks v.word_off.at (4 * length v.word_off.items) then_read λ a.
      (if a then ok_range blocks v.arena.at (length v.arena.items) else give false) then_read λ b.
      (if b then ok_range blocks v.counts.at (4 * length v.counts.items) else give false)
      then_read λ all.
          give (if all then some (v.word_off.items, v.arena.items, v.counts.items) else none)

-- `partition_point(|&o| o <= off)`
unfoldable pub partition_offsets : List ℕ → ℕ → ℕ
partition_offsets [] off = 0
partition_offsets (o ∷ offs) off =
    let rest = partition_offsets offs off in if leb o off then suc rest else 0

unfoldable pub word_at_offset : List ℕ → ℕ → Option ℕ
unfolding partition_offsets
word_at_offset word_off off =
    let i = partition_offsets word_off off in
    if i == 0 || leb (length word_off) i then none else some (i - 1)
