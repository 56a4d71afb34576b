-- ===== src/Spill.antt =====
-- crates/greeg-index/src/external.rs: the accumulation of postings under a byte budget, and the merge
-- of what was spilled. A key is the bytes that `write_key` gives; a segment file is its bytes, and a
-- `Reader` has those that its buffer and its file have left. Errors of the file system are left out,
-- and a map is a list of entries.
pub mod Varint
pub mod VarintLaws
pub mod Segment
pub mod Records
pub mod RecordLaws
pub mod Sink
pub mod Merge
pub mod Loads
pub mod Heaps
pub mod Merging
pub mod Keys
mod Tests
pub mod Drained
pub mod Batches
pub mod Slots
pub mod Sorted
pub mod Workers
pub mod Runs
pub mod Collected
