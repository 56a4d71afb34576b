-- ===== src/Spill/Tests.antt =====
-- Runs of the accumulation and the merge of postings.
use greeg.Base.{
  ℕ, ◌↔◌, ◌+◌, ◌≡◌, refl, arith, false, some, List, [], ◌∷◌, ◌++◌, map, Bytes, length, All, codes,
  ok, err, sort_unstable, dedup,
}
use greeg.Base.Order.{less}
use greeg.Spill.Varint.{put_varint, put_varint_loop, varint, varint_loop, truncated}
use greeg.Spill.Segment.{Record, put_deltas, put_ids, record_bytes, segment_bytes}
use greeg.Spill.Records.{take_bytes, read_record, advance}
use greeg.Spill.RecordLaws.{IsRecord, advance-record_bytes}
use greeg.Spill.Sink.{
  Postings, new_sink, push, records_of, spill_if_full, finish, collect, all_memory, maps_of,
  segments_of,
}
use greeg.Spill.Merge.{merged, stream_batches}
use greeg.Spill.Keys.{write_key, from_key_bytes, write_key_lem}
use greeg.Spill.Loads.{Has, IsKeyed}
use greeg.Spill.Drained.{IsSegment, AreAscending, HasSome}
use greeg.Spill.Batches.{AreBatches, joined, stream_batches_lem}
use greeg.Spill.Runs.{Op, run, AreValid}
use greeg.Spill.Collected.{part_of, Posted, Yields, collect-refines}

abbrev key_cost : Bytes → ℕ
key_cost key = length key + 56

abbrev record_a : Record
record_a = (codes "ab", 3 ∷ 300 ∷ [])

-- A worker whose budget runs out after its first file, and one that keeps its map.
abbrev first_worker : List Op
first_worker =
    Op.posting (codes "b") 4
    ∷ Op.posting (codes "a") 4
    ∷ Op.between_files
    ∷ Op.posting (codes "a") 5
    ∷ Op.posting (codes "a") 5
    ∷ []

abbrev second_worker : List Op
second_worker = Op.posting (codes "a") 1 ∷ []

abbrev all_workers : List (List Op)
all_workers = first_worker ∷ second_worker ∷ []

record_a-bytes : record_bytes record_a ≡ 2 ∷ 97 ∷ 98 ∷ 2 ∷ 3 ∷ 169 ∷ 2 ∷ []
unfolding record_bytes put_varint put_varint_loop put_ids put_deltas
record_a-bytes = refl

cut_short : advance (2 ∷ 97 ∷ []) ≡ err truncated
unfolding advance varint varint_loop read_record take_bytes
cut_short = refl

record_a-IsRecord : IsRecord record_a
record_a-IsRecord = (omega arith, (omega arith, tt), (omega arith, (omega arith, tt)))

advance_example : advance (record_bytes record_a ++ 1 ∷ []) ≡ ok (some (record_a, 1 ∷ []))
advance_example = advance-record_bytes record_a (1 ∷ []) record_a-IsRecord

write_key_example :
    (from_key_bytes (write_key 66051) ≡ some 66051)
    × (less (write_key 66051) (write_key 512) ≡ false)
write_key_example = write_key_lem 66051 512 (omega arith) (omega arith)

abbrev two_segments : List (List Record)
two_segments = (record_a ∷ []) ∷ ((codes "a", 7 ∷ []) ∷ (codes "ab", 2 ∷ 3 ∷ []) ∷ []) ∷ []

merged_run :
    merged (map segment_bytes two_segments)
    ≡ ok ((codes "a", 7 ∷ []) ∷ (codes "ab", 2 ∷ 3 ∷ 300 ∷ []) ∷ [])
unfolding merged segment_bytes dedup sort_unstable
merged_run = refl

two_segments_sound : All IsSegment two_segments
unfolding less
two_segments_sound = (
  ((record_a-IsRecord, tt), tt),
  (
    (
      (
        (omega arith, tt, (omega arith, tt)),
        ((omega arith, (omega arith, tt), (omega arith, (omega arith, tt))), tt),
      ),
      (refl, tt),
    ),
    tt,
  ),
)

stream_batches_example :
    (out : List (List Record)) × (stream_batches (map segment_bytes two_segments) 1 ≡ ok out)
    × AreBatches 1 out
    × IsKeyed (joined out)
    × AreAscending (joined out)
    × ((key : Bytes) (file : ℕ) → Has key file (joined out) ↔ HasSome key file two_segments)
stream_batches_example = stream_batches_lem two_segments 1 (omega arith) two_segments_sound

collect_run :
    collect (map (part_of key_cost 100) all_workers)
    ≡ Postings.segments (
        segment_bytes ((codes "a", 4 ∷ []) ∷ (codes "b", 4 ∷ []) ∷ [])
        ∷ segment_bytes ((codes "a", 5 ∷ []) ∷ [])
        ∷ segment_bytes ((codes "a", 1 ∷ []) ∷ [])
        ∷ [])
unfolding collect part_of finish run new_sink all_memory maps_of segments_of segment_bytes push
    spill_if_full records_of dedup sort_unstable
collect_run = refl

all_workers-AreValid : All AreValid all_workers
all_workers-AreValid = (
  (
    omega arith,
    omega arith,
    (omega arith, omega arith, (omega arith, omega arith, (omega arith, omega arith, tt))),
  ),
  ((omega arith, omega arith, tt), tt),
)

collect_example :
    Yields (collect (map (part_of key_cost 100) all_workers)) (λ k f. Posted k f all_workers)
collect_example = collect-refines key_cost 100 all_workers all_workers-AreValid
