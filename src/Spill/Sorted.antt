-- ===== src/Spill/Sorted.antt =====
-- crates/greeg-index/src/external.rs: the records that a spill makes of a map are in the order of their
-- keys, and hold what the map held.
use mathlib.Core.Bool.{true≢false}
use greeg.Base.{
  ℕ, ◌<◌, ◌≡◌, ◌↔◌, inl, inr, refl, sym, ◌∙◌, subst, true, false, List, [], ◌∷◌, map, Bytes, length,
  All, In, bytes_eq, bytes_eq_iff, Bool-cases, sort_unstable, dedup,
  dedup-sort_unstable-IsAscending,
}
use greeg.Base.Order.{less, less_total}
use greeg.Spill.RecordLaws.{IsU32, IsRecord}
use greeg.Spill.Sink.{Slot, insert_slot, sort_slots, record_of, records_of}
use greeg.Spill.Loads.{Has, Over, IsKeyed}
use greeg.Spill.Drained.{IsSegment, In-sorted}
use greeg.Spill.Slots.{HasSlot, Fresh, IsMap}

-- Keys in ascending order, above `key`.
abbrev SlotsOver : Bytes → List Slot → Type 0
SlotsOver key [] = Unit
SlotsOver key ((k, v, c) ∷ slots) = (less key k ≡ true) × SlotsOver k slots

abbrev AreKeyed : List Slot → Type 0
AreKeyed [] = Unit
AreKeyed ((k, v, c) ∷ slots) = SlotsOver k slots

HasSlot-insert_slot :
    (s : Slot) (slots : List Slot) (k : Bytes) (f : ℕ)
    → HasSlot k f (insert_slot s slots) ↔ HasSlot k f (s ∷ slots)
unfolding insert_slot
HasSlot-insert_slot s [] k f = (λ p. p, λ p. p)
HasSlot-insert_slot (j, v, c) ((i, w, d) ∷ slots) k f = elim (Bool-cases (less j i)) [
  | inl e ↦ rw e (λ p. p, λ p. p)
  | inr e ↦
      let (to, from) = HasSlot-insert_slot (j, v, c) slots k f in
      rw e (
        λ p. elim p [
          | inl q ↦ inr (inl q)
          | inr q ↦ elim (to q) [ inl r ↦ inl r | inr r ↦ inr (inr r) ]
        ],
        λ p. elim p [
          | inl q ↦ inr (from (inl q))
          | inr (inl q) ↦ inl q
          | inr (inr q) ↦ inr (from (inr q))
        ],
      )
]

HasSlot-sort_slots :
    (slots : List Slot) (k : Bytes) (f : ℕ) → HasSlot k f (sort_slots slots) ↔ HasSlot k f slots
unfolding sort_slots
HasSlot-sort_slots [] k f = (λ p. p, λ p. p)
HasSlot-sort_slots ((j, v, c) ∷ slots) k f =
    let (a, b) = HasSlot-insert_slot (j, v, c) (sort_slots slots) k f in
    let (to, from) = HasSlot-sort_slots slots k f in
    (
      λ p. elim (a p) [ inl q ↦ inl q | inr q ↦ inr (to q) ],
      λ p. elim p [ inl q ↦ b (inl q) | inr q ↦ b (inr (from q)) ],
    )

-- A property of each slot, kept by sorting.
All-insert_slot :
    (P : Slot → Type 0) (s : Slot) (slots : List Slot)
    → P s
    → All P slots
    → All P (insert_slot s slots)
unfolding insert_slot
All-insert_slot P s [] p a = (p, tt)
All-insert_slot P s (t ∷ slots) p (q, a) = elim (Bool-cases (less s.0 t.0)) [
  | inl e ↦ rw e (p, (q, a))
  | inr e ↦ rw e (q, All-insert_slot P s slots p a)
]

All-sort_slots : (P : Slot → Type 0) (slots : List Slot) → All P slots → All P (sort_slots slots)
unfolding sort_slots
All-sort_slots P [] a = tt
All-sort_slots P (s ∷ slots) (p, a) =
    All-insert_slot P s (sort_slots slots) p (All-sort_slots P slots a)

after : (a b : Bytes) → less a b ≡ false → bytes_eq b a ≡ false → less b a ≡ true
after a b e d = elim (less_total a b) [
  | inl same ↦ absurd (true≢false (sym ((bytes_eq_iff b a).1 (sym same)) ∙ d))
  | inr (inl p) ↦ absurd (true≢false (sym p ∙ e))
  | inr (inr p) ↦ p
]

insert_slot-SlotsOver :
    (key : Bytes) (s : Slot) (slots : List Slot)
    → less key s.0 ≡ true
    → Fresh s.0 slots
    → SlotsOver key slots
    → SlotsOver key (insert_slot s slots)
unfolding insert_slot
insert_slot-SlotsOver key s [] l n o = (l, tt)
insert_slot-SlotsOver key (j, v, c) ((i, w, d) ∷ slots) l (n, ns) (o, os) =
    elim (Bool-cases (less j i)) [
      | inl e ↦ rw e (l, (e, os))
      | inr e ↦ rw e (o, insert_slot-SlotsOver i (j, v, c) slots (after j i e n) ns os)
    ]

insert_slot-AreKeyed :
    (s : Slot) (slots : List Slot)
    → Fresh s.0 slots
    → AreKeyed slots
    → AreKeyed (insert_slot s slots)
unfolding insert_slot
insert_slot-AreKeyed s [] n o = tt
insert_slot-AreKeyed (j, v, c) ((i, w, d) ∷ slots) (n, ns) o = elim (Bool-cases (less j i)) [
  | inl e ↦ rw e (e, o)
  | inr e ↦ rw e (insert_slot-SlotsOver i (j, v, c) slots (after j i e n) ns o)
]

sort_slots-AreKeyed : (slots : List Slot) → IsMap slots → AreKeyed (sort_slots slots)
unfolding sort_slots
sort_slots-AreKeyed [] m = tt
sort_slots-AreKeyed ((k, v, c) ∷ slots) (n, b, u, m) =
    insert_slot-AreKeyed (k, v, c) (sort_slots slots)
      (All-sort_slots (λ s. bytes_eq s.0 k ≡ false) slots n) (sort_slots-AreKeyed slots m)

-- The slot fits a record.
abbrev Fits : Slot → Type 0
Fits (k, v, c) = (length k < 18446744073709551616) × All IsU32 v

IsMap-Fits : (slots : List Slot) → IsMap slots → All Fits slots
IsMap-Fits [] m = tt
IsMap-Fits ((k, v, c) ∷ slots) (n, b, u, m) = ((b, u), IsMap-Fits slots m)

All-In : (P : ℕ → Type 0) (v : List ℕ) → ((x : ℕ) → In x v → P x) → All P v
All-In P [] h = tt
All-In P (x ∷ v) h = (h x (inl refl), All-In P v (λ y i. h y (inr i)))

In-All : (P : ℕ → Type 0) (v : List ℕ) (x : ℕ) → All P v → In x v → P x
In-All P [] x a i = absurd i
In-All P (y ∷ v) x (p, a) (inl e) = subst P (sym e) p
In-All P (y ∷ v) x (p, a) (inr i) = In-All P v x a i

record_of-IsRecord : (s : Slot) → Fits s → IsRecord (record_of s)
unfolding record_of
record_of-IsRecord (k, v, c) (b, u) = (
  b,
  dedup-sort_unstable-IsAscending v,
  All-In IsU32 (dedup (sort_unstable v)) (λ x i. In-All IsU32 v x u ((In-sorted x v).0 i)),
)

records-All : (slots : List Slot) → All Fits slots → All IsRecord (map record_of slots)
records-All [] a = tt
records-All (s ∷ slots) (p, a) = (record_of-IsRecord s p, records-All slots a)

records-Over :
    (key : Bytes) (slots : List Slot) → SlotsOver key slots → Over key (map record_of slots)
unfolding record_of
records-Over key [] o = tt
records-Over key ((k, v, c) ∷ slots) (o, os) = (o, records-Over k slots os)

records-IsKeyed : (slots : List Slot) → AreKeyed slots → IsKeyed (map record_of slots)
unfolding record_of
records-IsKeyed [] o = tt
records-IsKeyed ((k, v, c) ∷ slots) o = records-Over k slots o

pub records_of-IsSegment : (slots : List Slot) → IsMap slots → IsSegment (records_of slots)
unfolding records_of
records_of-IsSegment slots m = (
  records-All (sort_slots slots) (All-sort_slots Fits slots (IsMap-Fits slots m)),
  records-IsKeyed (sort_slots slots) (sort_slots-AreKeyed slots m),
)

Has-records :
    (slots : List Slot) (k : Bytes) (f : ℕ) → Has k f (map record_of slots) ↔ HasSlot k f slots
unfolding record_of
Has-records [] k f = (λ p. p, λ p. p)
Has-records ((j, v, c) ∷ slots) k f =
    let (a, b) = In-sorted f v in
    let (to, from) = Has-records slots k f in
    (
      λ p. elim p [ inl (q, r) ↦ inl (q, a r) | inr q ↦ inr (to q) ],
      λ p. elim p [ inl (q, r) ↦ inl (q, b r) | inr q ↦ inr (from q) ],
    )

pub Has-records_of :
    (slots : List Slot) (k : Bytes) (f : ℕ) → Has k f (records_of slots) ↔ HasSlot k f slots
unfolding records_of
Has-records_of slots k f =
    let (a, b) = Has-records (sort_slots slots) k f in
    let (to, from) = HasSlot-sort_slots slots k f in (λ p. to (a p), λ p. b (from p))
