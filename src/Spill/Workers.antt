-- ===== src/Spill/Workers.antt =====
-- crates/greeg-index/src/external.rs: what a spill writes to a segment.
use greeg.Base.{
  ℕ, ◌≡◌, ◌↔◌, ◌⊎◌, inl, inr, refl, sym, ap, ◌∙◌, subst, true, List, [], ◌∷◌, ◌++◌, map, map-append,
  Bytes, All, Bool-cases,
}
use greeg.Spill.Segment.{Record, segment_bytes}
use greeg.Spill.Sink.{Slot, Sink, records_of, is_empty_map, spill}
use greeg.Spill.Drained.{IsSegment, HasSome}
use greeg.Spill.Slots.{HasSlot, IsMap}
use greeg.Spill.Sorted.{records_of-IsSegment, Has-records_of}

-- The segments written so far hold these records, and the map is well formed.
pub record Wrote (s : Sink) (segments : List (List Record)) : Type 0 where
  pub bytes : s.segments ≡ map segment_bytes segments
  pub sound : All IsSegment segments
  pub slots : IsMap s.slots

abbrev pub InSink : Sink → List (List Record) → Bytes → ℕ → Type 0
InSink s segments k f = HasSlot k f s.slots ⊎ HasSome k f segments

pub All-append :
    {A : Type 0} (P : A → Type 0) (xs ys : List A) → All P xs → All P ys → All P (xs ++ ys)
All-append P [] ys a b = b
All-append P (x ∷ xs) ys (p, a) b = (p, All-append P xs ys a b)

pub HasSome-append :
    (k : Bytes) (f : ℕ) (xs ys : List (List Record))
    → HasSome k f (xs ++ ys) ↔ (HasSome k f xs ⊎ HasSome k f ys)
HasSome-append k f [] ys = (λ p. inr p, λ p. elim p [ inl q ↦ absurd q | inr q ↦ q ])
HasSome-append k f (x ∷ xs) ys =
    let (to, from) = HasSome-append k f xs ys in
    (
      λ p. elim p [
        | inl q ↦ inl (inl q)
        | inr q ↦ elim (to q) [ inl r ↦ inl (inr r) | inr r ↦ inr r ]
      ],
      λ p. elim p [
        | inl (inl q) ↦ inl q
        | inl (inr q) ↦ inr (from (inl q))
        | inr q ↦ inr (from (inr q))
      ],
    )

no_slots : (slots : List Slot) → is_empty_map slots ≡ true → slots ≡ []
unfolding is_empty_map
no_slots [] e = refl
no_slots (s ∷ slots) e = cc

-- What a sink holds after a spill, under the segments it has then.
pub record Spilled (s : Sink) (segments : List (List Record)) (t : Sink) : Type 0 where
  pub more : List (List Record)
  pub wrote : Wrote t more
  pub emptied : (k : Bytes) (f : ℕ) → HasSlot k f t.slots → ⊥
  pub same : (k : Bytes) (f : ℕ) → HasSome k f more ↔ InSink s segments k f

pub spill-Spilled :
    (s : Sink) (segments : List (List Record)) → Wrote s segments → Spilled s segments (spill s)
unfolding spill
spill-Spilled s segments w = elim (Bool-cases (is_empty_map s.slots)) [
  | inl e ↦
      let none_held = no_slots s.slots e in
      simp e (record {
        more = segments;
        wrote = w;
        emptied = (λ k f p. subst (HasSlot k f) none_held p);
        same = (λ k f. (
          λ p. inr p,
          λ p. elim p [ inl q ↦ absurd (subst (HasSlot k f) none_held q) | inr q ↦ q ],
        ));
      })
  | inr e ↦
      let last = records_of s.slots in
      simp e (record {
        more = segments ++ last ∷ [];
        wrote = record {
          bytes =
              ap (λ x. x ++ segment_bytes last ∷ []) w.bytes
              ∙ sym (map-append segment_bytes segments (last ∷ []));
          sound =
              All-append IsSegment segments (last ∷ []) w.sound
                (records_of-IsSegment s.slots w.slots, tt);
          slots = tt;
        };
        emptied = (λ k f p. p);
        same = (λ k f.
            let (to, from) = HasSome-append k f segments (last ∷ []) in
            let (a, b) = Has-records_of s.slots k f in
            (
              λ p. elim (to p) [ inl q ↦ inr q | inr (inl q) ↦ inl (a q) | inr (inr q) ↦ absurd q ],
              λ p. elim p [ inl q ↦ from (inr (inl (b q))) | inr q ↦ from (inl q) ],
            ));
      })
]
