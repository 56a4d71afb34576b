-- ===== src/Spill/Batches.antt =====
-- crates/greeg-index/src/external.rs: the batches of `stream_batches`.
use greeg.Base.{
  ℕ, ◌+◌, ◌≤◌, ◌<◌, ◌≡◌, ◌↔◌, inl, inr, refl, arith, List, [], ◌∷◌, ◌++◌, map, append_assoc, Bytes,
  length, length-append, All, ◌==◌, ==_iff, Bool-cases, ok,
}
use greeg.Spill.Segment.{Record, segment_bytes}
use greeg.Spill.Merge.{batches, stream_batches}
use greeg.Spill.Loads.{Has, IsKeyed}
use greeg.Spill.Drained.{IsSegment, HasSome, AreAscending, merged-refines}

unfoldable pub joined : List (List Record) → List Record
joined [] = []
joined (b ∷ bs) = b ++ joined bs

-- Every batch but the last has `batch` records, and none is empty.
abbrev pub AreBatches : ℕ → List (List Record) → Type 0
AreBatches batch [] = Unit
AreBatches batch (b ∷ []) = (0 < length b) × (length b ≤ batch)
AreBatches batch (b ∷ c ∷ bs) = (length b ≡ batch) × AreBatches batch (c ∷ bs)

cons-AreBatches :
    (batch : ℕ) (b : List Record) (bs : List (List Record))
    → 0 < batch
    → length b ≡ batch
    → AreBatches batch bs
    → AreBatches batch (b ∷ bs)
cons-AreBatches batch b [] z e a = (omega arith, omega arith)
cons-AreBatches batch b (c ∷ bs) z e a = (e, a)

length-snoc : (acc : List Record) (r : Record) → length (acc ++ r ∷ []) ≡ length acc + 1
length-snoc acc r = length-append acc (r ∷ [])

pub batches-AreBatches :
    (batch : ℕ) (acc records : List Record)
    → length acc < batch
    → AreBatches batch (batches batch acc records)
unfolding batches
batches-AreBatches batch [] [] l = tt
batches-AreBatches batch (a ∷ acc) [] l = (omega arith, omega arith)
batches-AreBatches batch acc (r ∷ records) l =
    let n = length-snoc acc r in
    elim (Bool-cases (length (acc ++ r ∷ []) == batch)) [
      | inl e ↦ rw e (
          cons-AreBatches batch (acc ++ r ∷ []) (batches batch [] records) (omega arith)
            ((==_iff (length (acc ++ r ∷ [])) batch).0 e)
            (batches-AreBatches batch [] records (omega arith)))
      | inr e ↦ rw e (batches-AreBatches batch (acc ++ r ∷ []) records (ground arith))
    ]

joined-batches :
    (batch : ℕ) (acc records : List Record) → joined (batches batch acc records) ≡ acc ++ records
unfolding batches joined
joined-batches batch [] [] = refl
joined-batches batch (a ∷ acc) [] = refl
joined-batches batch acc (r ∷ records) = elim (Bool-cases (length (acc ++ r ∷ []) == batch)) [
  | inl e ↦ rw (e, joined-batches batch [] records) (append_assoc acc (r ∷ []) records)
  | inr e ↦ rw (e, joined-batches batch (acc ++ r ∷ []) records) (append_assoc acc (r ∷ []) records)
]

-- Of segments that a spill wrote, the batches are of `batch` records, a positive number, but for a last
-- shorter one that is not empty, and together they are the merge: every key once, in ascending order,
-- with the ascending files that some segment has for it, and no other.
pub stream_batches_lem :
    (segments : List (List Record)) (batch : ℕ)
    → 0 < batch
    → All IsSegment segments
    → (out : List (List Record)) × (stream_batches (map segment_bytes segments) batch ≡ ok out)
      × AreBatches batch out
      × IsKeyed (joined out)
      × AreAscending (joined out)
      × ((key : Bytes) (file : ℕ) → Has key file (joined out) ↔ HasSome key file segments)
unfolding stream_batches
stream_batches_lem segments batch z ss =
    let (out, e, keyed, ascending, same) = merged-refines segments ss in
    (
      batches batch [] out,
      rw e refl,
      batches-AreBatches batch [] out z,
      rw (joined-batches batch [] out) keyed,
      rw (joined-batches batch [] out) ascending,
      rw (joined-batches batch [] out) same,
    )
