-- ===== src/Spill/Collected.antt =====
-- crates/greeg-index/src/external.rs: what `finish` and `collect` make of the sinks of all workers.
use mathlib.Core.Bool.{true≢false}
use greeg.Base.{
  ℕ, ◌≡◌, ◌↔◌, ◌⊎◌, inl, inr, refl, sym, ◌∙◌, subst, true, List, [], ◌∷◌, ◌++◌, map, map-append,
  Bytes, All, Bool-cases, ok,
}
use greeg.Spill.Segment.{Record, segment_bytes}
use greeg.Spill.Sink.{
  Slot, Sink, new_sink, spill, Part, finish, Postings, all_memory, maps_of, segments_of, collect,
}
use greeg.Spill.Merge.{merged}
use greeg.Spill.Loads.{Has, IsKeyed}
use greeg.Spill.Drained.{IsSegment, HasSome, AreAscending, merged-refines}
use greeg.Spill.Slots.{HasSlot, IsMap}
use greeg.Spill.Workers.{All-append, HasSome-append, spill-Spilled}
use greeg.Spill.Runs.{Op, run, Records, AreValid, Ran, worker-Ran}

-- What a part has of the postings of `P`.
abbrev pub PartHolds : (Bytes → ℕ → Type 0) → Part → Type 0
PartHolds P (Part.memory slots) = IsMap slots × ((k : Bytes) (f : ℕ) → HasSlot k f slots ↔ P k f)
PartHolds P (Part.segments files) =
    (written : List (List Record)) × (files ≡ map segment_bytes written)
    × All IsSegment written
    × ((k : Bytes) (f : ℕ) → HasSome k f written ↔ P k f)

none_written : (written : List (List Record)) → [] ≡ map segment_bytes written → written ≡ []
none_written [] e = refl
none_written (w ∷ written) e = cc

finish-memory : (s : Sink) → s.segments ≡ [] → finish s ≡ Part.memory s.slots
unfolding finish
finish-memory s e = simp (e, finish) refl

finish-segments :
    (s : Sink) (file : Bytes) (files : List Bytes)
    → s.segments ≡ file ∷ files
    → finish s ≡ Part.segments (spill s).segments
unfolding finish
finish-segments s file files e = simp (e, finish) refl

finish_cases :
    (P : Bytes → ℕ → Type 0) (s : Sink) (files : List Bytes)
    → s.segments ≡ files
    → Ran P s
    → PartHolds P (finish s)
finish_cases P s [] e r =
    let none = none_written r.written (sym e ∙ r.wrote.bytes) in
    rw (finish-memory s e) (
      r.wrote.slots,
      λ k f.
          let (a, b) = r.same k f in
          (
            λ p. a (inl p),
            λ p. elim (b p) [ inl q ↦ q | inr q ↦ absurd (subst (HasSome k f) none q) ],
          ),
    )
finish_cases P s (file ∷ files) e r =
    let t = spill-Spilled s r.written r.wrote in
    rw (finish-segments s file files e) (
      t.more,
      t.wrote.bytes,
      t.wrote.sound,
      λ k f.
          let (to, from) = t.same k f in
          let (a, b) = r.same k f in (λ p. a (to p), λ p. from (b p)),
    )

pub finish-PartHolds : (P : Bytes → ℕ → Type 0) (s : Sink) → Ran P s → PartHolds P (finish s)
finish-PartHolds P s r = finish_cases P s s.segments refl r

-- The postings of all workers.
abbrev pub Posted : Bytes → ℕ → List (List Op) → Type 0
Posted k f [] = ⊥
Posted k f (ops ∷ workers) = Records k f ops ⊎ Posted k f workers

abbrev pub HasMap : Bytes → ℕ → List (List Slot) → Type 0
HasMap k f [] = ⊥
HasMap k f (slots ∷ maps) = HasSlot k f slots ⊎ HasMap k f maps

-- What the reader of collected postings gets: the maps, or the merge of the segments.
abbrev pub Yields : Postings → (Bytes → ℕ → Type 0) → Type 0
Yields (Postings.memory maps) P = All IsMap maps × ((k : Bytes) (f : ℕ) → HasMap k f maps ↔ P k f)
Yields (Postings.segments files) P =
    (out : List Record) × (merged files ≡ ok out)
    × IsKeyed out
    × AreAscending out
    × ((k : Bytes) (f : ℕ) → Has k f out ↔ P k f)

either_same : {A B C D : Type 0} → A ↔ C → B ↔ D → (A ⊎ B) ↔ (C ⊎ D)
either_same (a, b) (c, d) = (
  λ p. elim p [ inl q ↦ inl (a q) | inr q ↦ inr (c q) ],
  λ p. elim p [ inl q ↦ inl (b q) | inr q ↦ inr (d q) ],
)

module _ (cost : Bytes → ℕ) (budget : ℕ) where
  unfoldable pub part_of : List Op → Part
  part_of ops = finish (run cost ops (new_sink budget))

  part_of-PartHolds :
      (ops : List Op) → AreValid ops → PartHolds (λ k f. Records k f ops) (part_of ops)
  unfolding part_of
  part_of-PartHolds ops v =
      finish-PartHolds (λ k f. Records k f ops) (run cost ops (new_sink budget))
        (worker-Ran cost budget ops v)

-- Parts, each with what its worker recorded.
abbrev Match : List Part → List (List Op) → Type 0
Match [] [] = Unit
Match [] (ops ∷ workers) = ⊥
Match (part ∷ parts) [] = ⊥
Match (part ∷ parts) (ops ∷ workers) = PartHolds (λ k f. Records k f ops) part × Match parts workers

map-Match :
    (cost : Bytes → ℕ) (budget : ℕ) (workers : List (List Op))
    → All AreValid workers
    → Match (map (part_of cost budget) workers) workers
map-Match cost budget [] v = tt
map-Match cost budget (ops ∷ workers) (v, vs) =
    (part_of-PartHolds cost budget ops v, map-Match cost budget workers vs)

maps-Yields :
    (parts : List Part) (workers : List (List Op))
    → all_memory parts ≡ true
    → Match parts workers
    → Yields (Postings.memory (maps_of parts)) (λ k f. Posted k f workers)
unfolding all_memory maps_of
maps-Yields [] [] e m = (tt, λ k f. (λ p. p, λ p. p))
maps-Yields [] (ops ∷ workers) e m = absurd m
maps-Yields (part ∷ parts) [] e m = absurd m
maps-Yields (Part.memory slots ∷ parts) (ops ∷ workers) e ((i, h), m) =
    let (is, hs) = maps-Yields parts workers e m in ((i, is), λ k f. either_same (h k f) (hs k f))
maps-Yields (Part.segments files ∷ parts) (ops ∷ workers) e m = absurd (true≢false (sym e))

-- A map that did not spill, written out.
memory-segments :
    (P : Bytes → ℕ → Type 0) (s : Sink)
    → s.segments ≡ []
    → IsMap s.slots
    → ((k : Bytes) (f : ℕ) → HasSlot k f s.slots ↔ P k f)
    → PartHolds P (Part.segments (spill s).segments)
memory-segments P s e i h =
    let t = spill-Spilled s [] (record { bytes = e; sound = tt; slots = i }) in
    (
      t.more,
      t.wrote.bytes,
      t.wrote.sound,
      λ k f.
          let (to, from) = t.same k f in
          let (a, b) = h k f in
          (λ p. elim (to p) [ inl q ↦ a q | inr q ↦ absurd q ], λ p. from (inl (b p))),
    )

segments-append :
    (P Q : Bytes → ℕ → Type 0) (xs ys : List Bytes)
    → PartHolds P (Part.segments xs)
    → PartHolds Q (Part.segments ys)
    → PartHolds (λ k f. P k f ⊎ Q k f) (Part.segments (xs ++ ys))
segments-append P Q xs ys (v, d, s, h) (w, e, t, g) = (
  v ++ w,
  rw (d, e) (sym (map-append segment_bytes v w)),
  All-append IsSegment v w s t,
  λ k f.
      let (to, from) = HasSome-append k f v w in
      let (a, b) = either_same (h k f) (g k f) in (λ p. a (to p), λ p. from (b p)),
)

segments_of-PartHolds :
    (parts : List Part) (workers : List (List Op))
    → Match parts workers
    → PartHolds (λ k f. Posted k f workers) (Part.segments (segments_of parts))
unfolding segments_of
segments_of-PartHolds [] [] m = ([], refl, tt, λ k f. (λ p. p, λ p. p))
segments_of-PartHolds [] (ops ∷ workers) m = absurd m
segments_of-PartHolds (part ∷ parts) [] m = absurd m
segments_of-PartHolds (Part.memory slots ∷ parts) (ops ∷ workers) ((i, h), m) =
    segments-append (λ k f. Records k f ops) (λ k f. Posted k f workers)
      (spill (record {
        slots = slots;
        bytes = 18446744073709551615;
        budget = 18446744073709551615;
        segments = [];
      })).segments
      (segments_of parts)
      (memory-segments (λ k f. Records k f ops)
        (record {
          slots = slots;
          bytes = 18446744073709551615;
          budget = 18446744073709551615;
          segments = [];
        })
        refl i h)
      (segments_of-PartHolds parts workers m)
segments_of-PartHolds (Part.segments files ∷ parts) (ops ∷ workers) (h, m) =
    segments-append (λ k f. Records k f ops) (λ k f. Posted k f workers) files (segments_of parts) h
      (segments_of-PartHolds parts workers m)

segments-Yields :
    (P : Bytes → ℕ → Type 0) (files : List Bytes)
    → PartHolds P (Part.segments files)
    → Yields (Postings.segments files) P
segments-Yields P files (written, e, sound, h) =
    let (out, r, keyed, ascending, same) = merged-refines written sound in
    rw e (
      out,
      r,
      keyed,
      ascending,
      λ k f. let (a, b) = same k f in let (c, d) = h k f in (λ p. c (a p), λ p. b (d p)),
    )

-- Whatever the budget, and wherever each worker tests between files, what is collected of the workers'
-- sinks has just the postings that they recorded: as one map for each worker, every key once in a map,
-- where no worker spilled, and else as segments whose merge succeeds and yields every key once, in
-- ascending order, with its ascending files. Keys are shorter than 2^64 bytes and files below 2^32.
pub collect-refines :
    (cost : Bytes → ℕ) (budget : ℕ) (workers : List (List Op))
    → All AreValid workers
    → Yields (collect (map (part_of cost budget) workers)) (λ k f. Posted k f workers)
unfolding collect
collect-refines cost budget workers v =
    let parts = map (part_of cost budget) workers in
    let m = map-Match cost budget workers v in
    elim (Bool-cases (all_memory parts)) [
      | inl e ↦ rw e (maps-Yields parts workers e m)
      | inr e ↦ rw e (
          segments-Yields (λ k f. Posted k f workers) (segments_of parts)
            (segments_of-PartHolds parts workers m))
    ]
