-- ===== src/Spill/Loads.antt =====
-- The heap of crates/greeg-index/src/external.rs's `Merger` by what its readers still hold: the records
-- of a segment instead of its bytes.
use greeg.Base.{
  ℕ, suc, ◌+◌, ◌≡◌, ◌↔◌, ◌⊎◌, inl, inr, refl, ap, arith, true, false, List, [], ◌∷◌, map, Bytes,
  length, All, In, if◌then◌else◌, Bool-cases, ok,
}
use greeg.Base.Order.{less}
use greeg.Spill.Varint.{varint, varint_loop}
use greeg.Spill.Records.{advance}
use greeg.Spill.Segment.{Record, segment_bytes}
use greeg.Spill.RecordLaws.{IsRecord, advance-record_bytes}
use greeg.Spill.Merge.{Reader, Heap, pops_before, heap_push, push_next}

-- `file` is among the files of `key`.
abbrev pub Has : Bytes → ℕ → List Record → Type 0
Has key file [] = ⊥
Has key file ((k, files) ∷ records) = ((key ≡ k) × In file files) ⊎ Has key file records

-- Keys above `key`, in ascending order.
abbrev pub Over : Bytes → List Record → Type 0
Over key [] = Unit
Over key ((k, files) ∷ records) = (less key k ≡ true) × Over k records

abbrev pub IsKeyed : List Record → Type 0
IsKeyed [] = Unit
IsKeyed ((k, files) ∷ records) = Over k records

pub record Load : Type 0 where
  pub index : ℕ
  pub key : Bytes
  pub files : List ℕ
  pub more : List Record

abbrev pub load : Load → Reader
load l = record { index = l.index; key = l.key; files = l.files; rest = segment_bytes l.more }

abbrev pub IsLoad : Load → Type 0
IsLoad l = All IsRecord l.more × Over l.key l.more

abbrev pub HasAny : Bytes → ℕ → List Load → Type 0
HasAny key file [] = ⊥
HasAny key file (l ∷ h) = Has key file ((l.key, l.files) ∷ l.more) ⊎ HasAny key file h

-- The top has no greater key than the others.
abbrev pub IsHeap : List Load → Type 0
IsHeap [] = Unit
IsHeap (l ∷ h) = All (λ m. less m.key l.key ≡ false) h × IsHeap h

unfoldable pub insert_load : Load → List Load → List Load
insert_load l [] = l ∷ []
insert_load l (m ∷ h) = if pops_before (load l) (load m) then l ∷ m ∷ h else m ∷ insert_load l h

unfoldable pub push_load : ℕ → List Record → List Load → List Load
unfolding insert_load
push_load index [] h = h
push_load index ((k, files) ∷ records) h =
    insert_load (record { index = index; key = k; files = files; more = records }) h

unfoldable pub size : List Load → ℕ
size [] = 0
size (l ∷ h) = suc (length l.more) + size h

heap_push-load :
    (l : Load) (h : List Load) → heap_push (load l) (map load h) ≡ map load (insert_load l h)
unfolding heap_push insert_load
heap_push-load l [] = refl
heap_push-load l (m ∷ h) = elim (Bool-cases (pops_before (load l) (load m))) [
  | inl e ↦ rw e refl
  | inr e ↦ rw e (ap (◌∷◌ (load m)) (heap_push-load l h))
]

push_next-end : (index : ℕ) (heap : Heap) → push_next index [] heap ≡ ok heap
unfolding push_next advance varint varint_loop
push_next-end index heap = refl

pub push_next-load :
    (index : ℕ) (records : List Record) (h : List Load)
    → All IsRecord records
    → push_next index (segment_bytes records) (map load h)
      ≡ ok (map load (push_load index records h))
unfolding push_next push_load segment_bytes
push_next-load index [] h a = push_next-end index (map load h)
push_next-load index ((k, files) ∷ records) h (r, a) =
    rw (advance-record_bytes (k, files) (segment_bytes records) r)
      (ap ok (heap_push-load (record { index = index; key = k; files = files; more = records }) h))

pub insert_load-All :
    (P : Load → Type 0) (l : Load) (h : List Load) → P l → All P h → All P (insert_load l h)
unfolding insert_load
insert_load-All P l [] p a = (p, tt)
insert_load-All P l (m ∷ h) p (q, a) = elim (Bool-cases (pops_before (load l) (load m))) [
  | inl e ↦ rw e (p, (q, a))
  | inr e ↦ rw e (q, insert_load-All P l h p a)
]

HasAny-insert_load :
    (key : Bytes) (file : ℕ) (l : Load) (h : List Load)
    → HasAny key file (insert_load l h) ↔ HasAny key file (l ∷ h)
unfolding insert_load
HasAny-insert_load key file l [] = (λ p. p, λ p. p)
HasAny-insert_load key file l (m ∷ h) = elim (Bool-cases (pops_before (load l) (load m))) [
  | inl e ↦ rw e (λ p. p, λ p. p)
  | inr e ↦
      let (f, g) = HasAny-insert_load key file l h in
      rw e (
        λ p. elim p [
          | inl q ↦ inr (inl q)
          | inr q ↦ elim (f q) [ inl r ↦ inl r | inr r ↦ inr (inr r) ]
        ],
        λ p. elim p [
          | inl q ↦ inr (g (inl q))
          | inr (inl q) ↦ inl q
          | inr (inr q) ↦ inr (g (inr q))
        ],
      )
]

pub HasAny-push_load :
    (key : Bytes) (file : ℕ) (index : ℕ) (records : List Record) (h : List Load)
    → HasAny key file (push_load index records h) ↔ (Has key file records ⊎ HasAny key file h)
unfolding push_load
HasAny-push_load key file index [] h = (λ p. inr p, λ p. elim p [ inl q ↦ absurd q | inr q ↦ q ])
HasAny-push_load key file index ((k, files) ∷ records) h =
    HasAny-insert_load key file (record { index = index; key = k; files = files; more = records }) h

size-insert_load :
    (l : Load) (h : List Load) → size (insert_load l h) ≡ suc (length l.more) + size h
unfolding size insert_load
size-insert_load l [] = omega arith
size-insert_load l (m ∷ h) = elim (Bool-cases (pops_before (load l) (load m))) [
  | inl e ↦ rw e refl
  | inr e ↦ rw e (omega (arith, size-insert_load l h))
]

pub size-push_load :
    (index : ℕ) (records : List Record) (h : List Load)
    → size (push_load index records h) ≡ length records + size h
unfolding push_load
size-push_load index [] h = omega arith
size-push_load index ((k, files) ∷ records) h =
    size-insert_load (record { index = index; key = k; files = files; more = records }) h
