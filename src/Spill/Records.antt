-- ===== src/Spill/Records.antt =====
-- crates/greeg-index/src/external.rs: `Reader::take` and `Reader::advance`, on the bytes that are left.
use greeg.Base.{
  ℕ, zero, suc, ◌+◌, ◌%◌, Bool, true, false, Option, none, some, List, [], ◌∷◌, Bytes,
  if◌then◌else◌, Result, ok, err, ◌>>=◌,
}
use greeg.Spill.Varint.{Corrupt, truncated, no_count, short_of_ids, varint}
use greeg.Spill.Segment.{Record}

unfoldable pub take_bytes : ℕ → Bytes → Result Corrupt (Bytes × Bytes)
take_bytes zero bytes = ok ([], bytes)
take_bytes (suc n) [] = err truncated
take_bytes (suc n) (b ∷ bytes) = take_bytes n bytes >>= λ r. ok (b ∷ r.0, r.1)

-- `self.varint()?.context(..)?`
unfoldable pub varint_or : Corrupt → Bytes → Result Corrupt (ℕ × Bytes)
unfolding varint
varint_or reason bytes = varint bytes >>= λ o. elim o [ none ↦ err reason | some r ↦ ok r ]

-- `for i in 0..n`; ids are `u32`.
unfoldable pub read_ids : ℕ → Bool → ℕ → Bytes → Result Corrupt (List ℕ × Bytes)
unfolding varint_or
read_ids zero first prev bytes = ok ([], bytes)
read_ids (suc n) first prev bytes = varint_or short_of_ids bytes >>= λ d.
    let delta = d.0 % 4294967296 in
    let id = if first then delta else (prev + delta) % 4294967296 in
    (read_ids n false id d.1 >>= λ r. ok (id ∷ r.0, r.1))

-- The record after its key's length.
unfoldable pub read_record : ℕ → Bytes → Result Corrupt (Record × Bytes)
unfolding take_bytes varint_or read_ids
read_record key_len bytes = take_bytes key_len bytes >>= λ k.
    varint_or no_count k.1 >>= λ n. read_ids n.0 true 0 n.1 >>= λ r. ok ((k.0, r.0), r.1)

-- `none` at a clean end of file.
unfoldable pub advance : Bytes → Result Corrupt (Option (Record × Bytes))
unfolding varint read_record
advance bytes = varint bytes >>= λ o. elim o [
  | none ↦ ok none
  | some (key_len, rest) ↦ read_record key_len rest >>= λ r. ok (some r)
]
