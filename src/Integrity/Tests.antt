-- ===== src/Integrity/Tests.antt =====
-- Runs of the checks, with a digest that keeps the first eight bytes.
use mathlib.Core.Option.{some-injective}
use greeg.Base.{
  ℕ, zero, suc, ◌*◌, ◌≤◌, ◌<◌, ◌≡◌, refl, sym, ap, ◌∙◌, arith, true, false, some, [], ◌∷◌, ◌++◌,
  Bytes, length, take, bytes_eq,
}
use greeg.Base.Bits.{test_bit, set_bit}
use greeg.Base.Slices.{get_elem?, drop-past}
use greeg.Integrity.{
  fresh, is_done, mark, fail, trailer_len, trailer_of, trailer, new, check, verify_loop, verify,
  range, all,
}
use greeg.Integrity.Honest.{fresh-IsHonest, IsHonest, Overlaps, range_sound}
use greeg.Integrity.Trailer.{block_at, with_trailer_of, range_complete}
use greeg.Integrity.Authentic.{range_authentic}
use greeg.Integrity.Refusals.{range_refused}

abbrev eight : Bytes
eight = 0 ∷ 0 ∷ 0 ∷ 0 ∷ 0 ∷ 0 ∷ 0 ∷ 0 ∷ []

abbrev head : Bytes → Bytes
head bytes = take 8 (bytes ++ eight)

take-length : (n : ℕ) (bytes : Bytes) → n ≤ length bytes → length (take n bytes) ≡ n
take-length zero bytes h = refl
take-length (suc n) [] h = absurd (omega arith)
take-length (suc n) (x ∷ bytes) h = ap suc (take-length n bytes (omega arith))

padded-length : (bytes : Bytes) → 8 ≤ length (bytes ++ eight)
padded-length [] = omega arith
padded-length (x ∷ bytes) = omega (arith, padded-length bytes)

head-length : (bytes : Bytes) → length (head bytes) ≡ 8
head-length bytes = take-length 8 (bytes ++ eight) (padded-length bytes)

abbrev built : Bytes
built = 1 ∷ 2 ∷ 3 ∷ []

abbrev flipped : Bytes
flipped = 1 ∷ 2 ∷ 4 ∷ []

trailer-length : length (trailer head built 2) ≡ trailer_len 3 2
unfolding trailer trailer_of trailer_len
trailer-length = refl

-- Block 0 verifies and block 1 does not.
only_the_blocks_read :
    ((range head (with_trailer_of head built flipped 2) 0 2 fresh).0 ≡ some true)
    × ((range head (with_trailer_of head built flipped 2) 1 2 fresh).0 ≡ some false)
unfolding range verify verify_loop check new trailer trailer_of is_done mark fail bytes_eq test_bit
    set_bit
only_the_blocks_read = (refl, refl)

whole : (all head (with_trailer_of head built built 2) fresh).0 ≡ some true
unfolding all range verify verify_loop check new trailer trailer_of is_done mark fail bytes_eq
    test_bit set_bit
whole = refl

range_complete_example : (range head (with_trailer_of head built built 2) 1 2 fresh).0 ≡ some true
range_complete_example =
    range_complete head head-length built 2 1 2 fresh (omega arith) refl (omega arith) (omega arith)

four-ne-three : (x y : ℕ) → x ≡ 4 → y ≡ 3 → x ≡ y → ⊥
four-ne-three x y p q h = omega arith

distinct :
    (i : ℕ)
    → head (block_at flipped 2 i) ≡ head (block_at built 2 i)
    → block_at flipped 2 i ≡ block_at built 2 i
distinct zero e = refl
distinct (suc zero) e =
    absurd (four-ne-three 4 3 refl refl (some-injective _ _ (ap (λ bytes. get_elem? bytes 0) e)))
distinct (suc (suc i)) e = ap (take 2) (
    drop-past (suc (suc i) * 2) flipped (grind arith)
    ∙ sym (drop-past (suc (suc i) * 2) built (grind arith)))

range_authentic_example : get_elem? flipped 1 ≡ get_elem? built 1
range_authentic_example =
    range_authentic head head-length built flipped 2 0 2 fresh (omega arith) refl distinct
      (fresh-IsHonest head (with_trailer_of head built flipped 2)) only_the_blocks_read.0 1
      (omega arith) (omega arith)

range_sound_example :
    IsHonest head
      (with_trailer_of head built flipped 2)
      (range head (with_trailer_of head built flipped 2) 0 2 fresh).1
    × ((range head (with_trailer_of head built flipped 2) 0 2 fresh).0 ≡ some true
        → 0 < 2
        → (i : ℕ) → Overlaps head (with_trailer_of head built flipped 2) 0 2 i
        → check head (with_trailer_of head built flipped 2) i ≡ some true)
range_sound_example =
    range_sound head (with_trailer_of head built flipped 2) 0 2 fresh
      (fresh-IsHonest head (with_trailer_of head built flipped 2))

range_refused_example :
    ((range head (with_trailer_of head built flipped 2) 1 2 fresh).1.failed ≡ true)
    × ((later size : ℕ)
        → (range head
            (with_trailer_of head built flipped 2)
            later
            size
            (range head (with_trailer_of head built flipped 2) 1 2 fresh).1).0
          ≡ some false)
range_refused_example =
    range_refused head (with_trailer_of head built flipped 2) 1 2 fresh refl only_the_blocks_read.1
