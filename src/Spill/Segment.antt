-- ===== src/Spill/Segment.antt =====
-- crates/greeg-index/src/external.rs: the records that `Sink::spill` writes. A record is a key with its
-- files.
use greeg.Base.{ℕ, ◌+◌, ◌-◌, ◌%◌, List, [], ◌∷◌, ◌++◌, Bytes, length}
use greeg.Spill.Varint.{put_varint}

abbrev pub Record : Type 0
Record = Bytes × List ℕ

-- `id - prev` on `u32`.
unfoldable pub put_deltas : ℕ → List ℕ → Bytes
unfolding put_varint
put_deltas prev [] = []
put_deltas prev (id ∷ ids) = put_varint ((id + 4294967296 - prev) % 4294967296) ++ put_deltas id ids

-- The first id is written whole.
unfoldable pub put_ids : List ℕ → Bytes
unfolding put_varint put_deltas
put_ids [] = []
put_ids (id ∷ ids) = put_varint id ++ put_deltas id ids

unfoldable pub record_bytes : Record → Bytes
unfolding put_varint put_ids
record_bytes (key, ids) =
    put_varint (length key) ++ (key ++ (put_varint (length ids) ++ put_ids ids))

unfoldable pub segment_bytes : List Record → Bytes
unfolding record_bytes
segment_bytes [] = []
segment_bytes (r ∷ records) = record_bytes r ++ segment_bytes records
