-- ===== src/Spill/Drained.antt =====
-- crates/greeg-index/src/external.rs: `merged`, the whole stream of a merge, refines the union of its
-- segments.
use greeg.Base.{
  ℕ, zero, suc, ◌+◌, ◌<◌, ◌≡◌, ◌↔◌, ◌⊎◌, inl, inr, refl, arith, List, [], ◌∷◌, map, Bytes, length,
  All, In, sort_unstable, dedup, In-dedup, In-sort_unstable, IsAscending,
  dedup-sort_unstable-IsAscending, ◌==◌, if◌then◌else◌, ok,
}
use greeg.Spill.Segment.{Record, segment_bytes}
use greeg.Spill.RecordLaws.{IsRecord}
use greeg.Spill.Merge.{open_all, bytes_left, drain, merged}
use greeg.Spill.Loads.{
  Has, Over, IsKeyed, Load, load, IsLoad, HasAny, IsHeap, push_load, push_next-load,
  insert_load-All, HasAny-push_load, size,
}
use greeg.Spill.Heaps.{push_load-IsHeap, AllOver}
use greeg.Spill.Merging.{Left, next-Left, size-le-bytes_left}

-- Every list of files is ascending.
abbrev pub AreAscending : List Record → Type 0
AreAscending = All (λ r. IsAscending r.1)

record Drained (h : List Load) (out : List Record) : Type 0 where
  keyed : IsKeyed out
  over : (key : Bytes) → AllOver key h → Over key out
  ascending : AreAscending out
  same : (k : Bytes) (f : ℕ) → Has k f out ↔ HasAny k f h

pub In-sorted : (f : ℕ) (fs : List ℕ) → In f (dedup (sort_unstable fs)) ↔ In f fs
In-sorted f fs =
    let (a, b) = In-dedup f (sort_unstable fs) in
    let (c, d) = In-sort_unstable f fs in (λ p. c (a p), λ p. b (d p))

Drained-next :
    (l : Load) (h : List Load) (fs : List ℕ) (g : List Load) (out : List Record)
    → Left l.key [] (l ∷ h) fs g
    → Drained g out
    → Drained (l ∷ h) ((l.key, dedup (sort_unstable fs)) ∷ out)
Drained-next l h fs g out left d = record {
  keyed = d.over l.key left.over;
  over = (λ key o. (o.0, d.over l.key left.over));
  ascending = (dedup-sort_unstable-IsAscending fs, d.ascending);
  same = (λ k f.
      let (a, b) = In-sorted f fs in
      let (c, e) = d.same k f in
      let (to, from) = left.same k f in
      (
        λ p. elim p [
          | inl (q, r) ↦ elim (from (inr (q, a r))) [ inl s ↦ s | inr s ↦ absurd s.1 ]
          | inr q ↦ elim (from (inl (c q))) [ inl s ↦ s | inr s ↦ absurd s.1 ]
        ],
        λ p. elim (to (inl p)) [ inl q ↦ inr (e q) | inr (q, r) ↦ inl (q, b r) ],
      ));
}

drain-Drained :
    (fuel : ℕ) (h : List Load)
    → size h < fuel
    → All IsLoad h
    → IsHeap h
    → (out : List Record) × (drain fuel (map load h) ≡ ok out) × Drained h out
unfolding drain
drain-Drained zero h s ls i = absurd (omega arith)
drain-Drained (suc fuel) [] s ls i = (
  [],
  refl,
  record { keyed = tt; over = (λ k a. tt); ascending = tt; same = (λ k f. (λ p. p, λ p. p)) },
)
drain-Drained (suc fuel) (l ∷ h) s ls i =
    let (fs, g, r, left, less) = next-Left l h ls i in
    let (out, e, d) = drain-Drained fuel g (omega arith) left.loads left.heap in
    ((l.key, dedup (sort_unstable fs)) ∷ out, rw (r, e) refl, Drained-next l h fs g out left d)

-- Segments that a spill writes: ascending keys with their files.
abbrev pub IsSegment : List Record → Type 0
IsSegment records = All IsRecord records × IsKeyed records

-- Some segment has `file` for `key`.
abbrev pub HasSome : Bytes → ℕ → List (List Record) → Type 0
HasSome key file [] = ⊥
HasSome key file (records ∷ segments) = Has key file records ⊎ HasSome key file segments

push_first-IsLoad :
    (index : ℕ) (records : List Record) (h : List Load)
    → IsSegment records
    → All IsLoad h
    → All IsLoad (push_load index records h)
unfolding push_load
push_first-IsLoad index [] h s ls = ls
push_first-IsLoad index ((k, files) ∷ records) h ((r, a), o) ls =
    insert_load-All IsLoad (record { index = index; key = k; files = files; more = records }) h
      (a, o) ls

record Opened (h : List Load) (segments : List (List Record)) (g : List Load) : Type 0 where
  loads : All IsLoad g
  heap : IsHeap g
  same : (k : Bytes) (f : ℕ) → HasAny k f g ↔ (HasSome k f segments ⊎ HasAny k f h)

Opened-push :
    (index : ℕ) (records : List Record) (segments : List (List Record)) (h g : List Load)
    → Opened (push_load index records h) segments g
    → Opened h (records ∷ segments) g
Opened-push index records segments h g o = record {
  loads = o.loads;
  heap = o.heap;
  same = (λ k f.
      let (to, from) = o.same k f in
      let (a, b) = HasAny-push_load k f index records h in
      (
        λ p. elim (to p) [
          | inl q ↦ inl (inr q)
          | inr q ↦ elim (a q) [ inl r ↦ inl (inl r) | inr r ↦ inr r ]
        ],
        λ p. elim p [
          | inl (inl q) ↦ from (inr (b (inl q)))
          | inl (inr q) ↦ from (inl q)
          | inr q ↦ from (inr (b (inr q)))
        ],
      ));
}

open_all-Opened :
    (index : ℕ) (segments : List (List Record)) (h : List Load)
    → All IsSegment segments
    → All IsLoad h
    → IsHeap h
    → (g : List Load) × (open_all index (map segment_bytes segments) (map load h) ≡ ok (map load g))
      × Opened h segments g
unfolding open_all
open_all-Opened index [] h ss ls i = (
  h,
  refl,
  record {
    loads = ls;
    heap = i;
    same = (λ k f. (λ p. inr p, λ p. elim p [ inl q ↦ absurd q | inr q ↦ q ]));
  },
)
open_all-Opened index (records ∷ segments) h (s, ss) ls i =
    let pushed = push_load index records h in
    let (g, r, o) =
      open_all-Opened (if length (map load pushed) == length (map load h) then index else index + 1)
        segments pushed ss (push_first-IsLoad index records h s ls)
        (push_load-IsHeap index records h i) in
    (g, rw (push_next-load index records h s.0) r, Opened-push index records segments h g o)

-- The merge of segments that a spill wrote succeeds, and yields every key once, in ascending order,
-- with ascending files: those that some segment has for the key, and no other.
pub merged-refines :
    (segments : List (List Record))
    → All IsSegment segments
    → (out : List Record) × (merged (map segment_bytes segments) ≡ ok out)
      × IsKeyed out
      × AreAscending out
      × ((key : Bytes) (file : ℕ) → Has key file out ↔ HasSome key file segments)
unfolding merged
merged-refines segments ss =
    let (h, e, o) = open_all-Opened 0 segments [] ss tt tt in
    let (out, r, d) =
      drain-Drained (suc (bytes_left (map load h))) h (omega (arith, size-le-bytes_left h)) o.loads
        o.heap in
    (
      out,
      rw (e, r) refl,
      d.keyed,
      d.ascending,
      λ k f.
          let (a, b) = d.same k f in
          let (to, from) = o.same k f in
          (λ p. elim (to (a p)) [ inl q ↦ q | inr q ↦ absurd q ], λ p. b (from (inl p))),
    )
