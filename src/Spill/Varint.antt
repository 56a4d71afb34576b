-- ===== src/Spill/Varint.antt =====
-- crates/greeg-index/src/external.rs: `put_varint`, and `Reader::varint`.
use greeg.Base.{
  ℕ, zero, suc, ◌+◌, ◌*◌, ◌/◌, ◌%◌, ◌^◌, true, false, Option, none, some, [], ◌∷◌, Bytes, ltb,
  Result, ok, err,
}

pub data Corrupt : Type 0 where
  varint_too_long truncated no_count short_of_ids : Corrupt

-- A `u64` takes at most ten bytes, so the loop goes on at most nine times.
unfoldable pub put_varint_loop : ℕ → ℕ → Bytes
put_varint_loop zero v = v % 256 ∷ []
put_varint_loop (suc k) v = elim (ltb v 128) [
  | true ↦ v % 256 ∷ []
  | false ↦ (v % 128 + 128) ∷ put_varint_loop k (v / 128)
]

unfoldable pub put_varint : ℕ → Bytes
unfolding put_varint_loop
put_varint v = put_varint_loop 9 v

-- The bits that `|=` adds are above those of `v`, so it is a sum; `<<` drops what passes 64 bits.
-- `none` is the end of the file, also inside a number.
unfoldable pub varint_loop : Bytes → ℕ → ℕ → Result Corrupt (Option (ℕ × Bytes))
varint_loop [] v shift = ok none
varint_loop (b ∷ rest) v shift =
    let next = v + b % 128 * 2 ^ shift % 18446744073709551616 in
    elim (ltb b 128) [
      | true ↦ ok (some (next, rest))
      | false ↦ elim (ltb (shift + 7) 64) [
        | true ↦ varint_loop rest next (shift + 7)
        | false ↦ err varint_too_long
      ]
    ]

unfoldable pub varint : Bytes → Result Corrupt (Option (ℕ × Bytes))
unfolding varint_loop
varint bytes = varint_loop bytes 0 0
