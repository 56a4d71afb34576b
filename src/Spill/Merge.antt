-- ===== src/Spill/Merge.antt =====
-- crates/greeg-index/src/external.rs: `Merger`, the streaming merge of segments, and `stream_batches`.
-- The heap is the list of its readers in the order in which they pop, each with its index.
use greeg.Base.{
  ℕ, zero, suc, ◌+◌, Bool, true, false, ◌&&◌, ◌||◌, Option, none, some, List, [], ◌∷◌, ◌++◌, Bytes,
  length, ltb, ◌==◌, if◌then◌else◌, bytes_eq, sort_unstable, dedup, Result, ok, ◌>>=◌,
}
use greeg.Base.Order.{less}
use greeg.Spill.Varint.{Corrupt}
use greeg.Spill.Segment.{Record}
use greeg.Spill.Records.{advance}

pub record Reader : Type 0 where
  pub index : ℕ
  pub key : Bytes
  pub files : List ℕ
  pub rest : Bytes

abbrev pub Heap : Type 0
Heap = List Reader

-- The order of `Reverse((key, index))`, from the top.
unfoldable pub pops_before : Reader → Reader → Bool
unfolding less bytes_eq
pops_before r s = less r.key s.key || bytes_eq r.key s.key && ltb r.index s.index

unfoldable pub heap_push : Reader → Heap → Heap
unfolding pops_before
heap_push r [] = r ∷ []
heap_push r (s ∷ heap) = if pops_before r s then r ∷ s ∷ heap else s ∷ heap_push r heap

-- The reader at its next record, pushed unless its segment has ended.
unfoldable pub push_next : ℕ → Bytes → Heap → Result Corrupt Heap
unfolding advance heap_push
push_next index bytes heap = advance bytes >>= λ o. elim o [
  | none ↦ ok heap
  | some ((key, files), rest) ↦
      ok (heap_push (record { index = index; key = key; files = files; rest = rest }) heap)
]

-- `Merger::open`: an empty segment takes no index.
unfoldable pub open_all : ℕ → List Bytes → Heap → Result Corrupt Heap
unfolding push_next
open_all index [] heap = ok heap
open_all index (segment ∷ segments) heap = push_next index segment heap >>= λ h.
    open_all (if length h == length heap then index else index + 1) segments h

-- `while let Some(..) = self.heap.peek()`, for as long as the key is `key`: the files so far, and the
-- heap. Each round reads a record, so as many rounds as there are bytes and readers are enough.
unfoldable pub merge_loop : ℕ → Bytes → List ℕ → Heap → Result Corrupt (List ℕ × Heap)
unfolding push_next bytes_eq
merge_loop zero key files heap = ok (files, heap)
merge_loop (suc fuel) key files [] = ok (files, [])
merge_loop (suc fuel) key files (r ∷ heap) = elim (bytes_eq r.key key) [
  | false ↦ ok (files, r ∷ heap)
  | true ↦ push_next r.index r.rest heap >>= λ h. merge_loop fuel key (files ++ r.files) h
]

unfoldable pub bytes_left : Heap → ℕ
bytes_left [] = 0
bytes_left (r ∷ heap) = suc (length r.rest) + bytes_left heap

unfoldable pub next : Heap → Result Corrupt (Option (Record × Heap))
unfolding merge_loop bytes_left
next [] = ok none
next (r ∷ heap) = merge_loop (suc (bytes_left (r ∷ heap))) r.key [] (r ∷ heap) >>= λ m.
    ok (some ((r.key, dedup (sort_unstable m.0)), m.1))

-- `while let Some((k, v)) = m.next()?`
unfoldable pub drain : ℕ → Heap → Result Corrupt (List Record)
unfolding next
drain zero heap = ok []
drain (suc fuel) heap = next heap >>= λ o. elim o [
  | none ↦ ok []
  | some (r, h) ↦ drain fuel h >>= λ records. ok (r ∷ records)
]

unfoldable pub merged : List Bytes → Result Corrupt (List Record)
unfolding open_all drain bytes_left
merged segments = open_all 0 segments [] >>= λ heap. drain (suc (bytes_left heap)) heap

-- The batches that `f` is called with: `batch` entries each, and what is left.
unfoldable pub batches : ℕ → List Record → List Record → List (List Record)
batches batch [] [] = []
batches batch (a ∷ acc) [] = (a ∷ acc) ∷ []
batches batch acc (r ∷ records) =
    let full = batches batch [] records in
    let more = batches batch (acc ++ r ∷ []) records in
    if length (acc ++ r ∷ []) == batch then (acc ++ r ∷ []) ∷ full else more

-- The callback is taken not to fail; the merge runs as a whole before it.
unfoldable pub stream_batches : List Bytes → ℕ → Result Corrupt (List (List Record))
unfolding merged batches
stream_batches segments batch = merged segments >>= λ records. ok (batches batch [] records)
