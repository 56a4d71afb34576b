-- ===== src/Spill/Runs.antt =====
-- crates/greeg-index/src/external.rs: a worker's sink, from the postings it records to its `Part`.
use greeg.Base.{
  ℕ, ◌<◌, ◌≡◌, ◌↔◌, ◌⊎◌, inl, inr, refl, List, [], ◌∷◌, Bytes, length, leb, Bool-cases,
}
use greeg.Spill.Segment.{Record}
use greeg.Spill.RecordLaws.{IsU32}
use greeg.Spill.Sink.{Sink, new_sink, push, spill, spill_if_full}
use greeg.Spill.Slots.{HasSlot-push_slot, push_slot-IsMap}
use greeg.Spill.Workers.{Wrote, InSink, spill-Spilled}

-- What a worker does with its sink: a posting, or the test between two files.
pub data Op : Type 0 where
  posting : Bytes → ℕ → Op
  between_files : Op

unfoldable pub run : (Bytes → ℕ) → List Op → Sink → Sink
unfolding push spill_if_full
run cost [] s = s
run cost (Op.posting key file ∷ ops) s = run cost ops (push cost key file s)
run cost (Op.between_files ∷ ops) s = run cost ops (spill_if_full s)

-- The postings that a worker records.
abbrev pub Records : Bytes → ℕ → List Op → Type 0
Records k f [] = ⊥
Records k f (Op.posting key file ∷ ops) = ((k ≡ key) × (f ≡ file)) ⊎ Records k f ops
Records k f (Op.between_files ∷ ops) = Records k f ops

-- Keys fit in memory, and files are `u32`.
abbrev pub AreValid : List Op → Type 0
AreValid [] = Unit
AreValid (Op.posting key file ∷ ops) =
    (length key < 18446744073709551616) × IsU32 file × AreValid ops
AreValid (Op.between_files ∷ ops) = AreValid ops

-- A sink that wrote segments, and that holds or wrote just the postings of `P`.
pub record Ran (P : Bytes → ℕ → Type 0) (s : Sink) : Type 0 where
  pub written : List (List Record)
  pub wrote : Wrote s written
  pub same : (k : Bytes) (f : ℕ) → InSink s written k f ↔ P k f

module _ (cost : Bytes → ℕ) where
  Ran-push :
      (P : Bytes → ℕ → Type 0) (key : Bytes) (file : ℕ) (s : Sink)
      → length key < 18446744073709551616
      → IsU32 file
      → Ran P s
      → Ran (λ k f. ((k ≡ key) × (f ≡ file)) ⊎ P k f) (push cost key file s)
  unfolding push
  Ran-push P key file s kb u r = record {
    written = r.written;
    wrote = record {
      bytes = r.wrote.bytes;
      sound = r.wrote.sound;
      slots = push_slot-IsMap cost key file s.slots kb u r.wrote.slots;
    };
    same = (λ k f.
        let (to, from) = HasSlot-push_slot cost key file s.slots k f in
        let (a, b) = r.same k f in
        (
          λ p. elim p [
            | inl q ↦ elim (to q) [ inl e ↦ inl e | inr h ↦ inr (a (inl h)) ]
            | inr q ↦ inr (a (inr q))
          ],
          λ p. elim p [
            | inl e ↦ inl (from (inl e))
            | inr q ↦ elim (b q) [ inl h ↦ inl (from (inr h)) | inr h ↦ inr h ]
          ],
        ));
  }

  Ran-spill : (P : Bytes → ℕ → Type 0) (s : Sink) → Ran P s → Ran P (spill s)
  Ran-spill P s r =
      let t = spill-Spilled s r.written r.wrote in
      record {
        written = t.more;
        wrote = t.wrote;
        same = (λ k f.
            let (to, from) = t.same k f in
            let (a, b) = r.same k f in
            (
              λ p. elim p [ inl q ↦ absurd (t.emptied k f q) | inr q ↦ a (to q) ],
              λ p. inr (from (b p)),
            ));
      }

  Ran-spill_if_full : (P : Bytes → ℕ → Type 0) (s : Sink) → Ran P s → Ran P (spill_if_full s)
  unfolding spill_if_full
  Ran-spill_if_full P s r = elim (Bool-cases (leb s.budget s.bytes)) [
    | inl e ↦ rw e (Ran-spill P s r)
    | inr e ↦ rw e r
  ]

  Ran-same :
      (P Q : Bytes → ℕ → Type 0) (s : Sink)
      → ((k : Bytes) (f : ℕ) → P k f ↔ Q k f)
      → Ran P s
      → Ran Q s
  Ran-same P Q s h r = record {
    written = r.written;
    wrote = r.wrote;
    same = (λ k f. let (a, b) = r.same k f in let (c, d) = h k f in (λ p. c (a p), λ p. b (d p)));
  }

  run-Ran :
      (P : Bytes → ℕ → Type 0) (ops : List Op) (s : Sink)
      → AreValid ops
      → Ran P s
      → Ran (λ k f. Records k f ops ⊎ P k f) (run cost ops s)
  unfolding run
  run-Ran P [] s v r =
      Ran-same P (λ k f. Records k f [] ⊎ P k f) s
        (λ k f. (λ p. inr p, λ p. elim p [ inl q ↦ absurd q | inr q ↦ q ])) r
  run-Ran P (Op.posting key file ∷ ops) s (kb, u, v) r =
      Ran-same (λ k f. Records k f ops ⊎ (((k ≡ key) × (f ≡ file)) ⊎ P k f))
        (λ k f. Records k f (Op.posting key file ∷ ops) ⊎ P k f)
        (run cost ops (push cost key file s))
        (λ k f. (
          λ p. elim p [ inl q ↦ inl (inr q) | inr (inl q) ↦ inl (inl q) | inr (inr q) ↦ inr q ],
          λ p. elim p [ inl (inl q) ↦ inr (inl q) | inl (inr q) ↦ inl q | inr q ↦ inr (inr q) ],
        ))
        (run-Ran (λ k f. ((k ≡ key) × (f ≡ file)) ⊎ P k f) ops (push cost key file s) v
          (Ran-push P key file s kb u r))
  run-Ran P (Op.between_files ∷ ops) s v r =
      run-Ran P ops (spill_if_full s) v (Ran-spill_if_full P s r)

  -- A fresh sink has just what a worker records.
  pub worker-Ran :
      (budget : ℕ) (ops : List Op)
      → AreValid ops
      → Ran (λ k f. Records k f ops) (run cost ops (new_sink budget))
  unfolding new_sink
  worker-Ran budget ops v =
      Ran-same (λ k f. Records k f ops ⊎ ⊥) (λ k f. Records k f ops)
        (run cost ops (new_sink budget))
        (λ k f. (λ p. elim p [ inl q ↦ q | inr q ↦ absurd q ], λ p. inl p))
        (run-Ran (λ k f. ⊥) ops (new_sink budget) v
          (record {
            written = [];
            wrote = record { bytes = refl; sound = tt; slots = tt };
            same = (λ k f. (λ p. elim p [ inl q ↦ absurd q | inr q ↦ absurd q ], λ p. absurd p));
          }))
