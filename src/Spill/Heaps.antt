-- ===== src/Spill/Heaps.antt =====
-- The order of the heap of crates/greeg-index/src/external.rs's `Merger`, and its keys.
use mathlib.Core.Bool.{true≢false}
use greeg.Base.{
  ℕ, ◌≡◌, inl, inr, sym, ap, ◌∙◌, subst, true, false, List, [], ◌∷◌, Bytes, All, bytes_eq,
  bytes_eq_iff, Bool-cases,
}
use greeg.Base.Order.{less, less_irrefl, less_trans, less_total}
use greeg.Spill.Segment.{Record}
use greeg.Spill.RecordLaws.{IsRecord}
use greeg.Spill.Merge.{pops_before}
use greeg.Spill.Loads.{
  Has, Over, Load, load, IsLoad, HasAny, IsHeap, insert_load, insert_load-All, push_load,
}

not_less_trans : (a b c : Bytes) → less a b ≡ false → less b c ≡ false → less a c ≡ false
not_less_trans a b c p q = elim (Bool-cases (less a c)) [
  | inr e ↦ e
  | inl e ↦ elim (less_total b c) [
    | inl same ↦ absurd (true≢false (sym e ∙ ap (less a) (sym same) ∙ p))
    | inr (inl r) ↦ absurd (true≢false (sym r ∙ q))
    | inr (inr r) ↦ absurd (true≢false (sym (less_trans a c b e r) ∙ p))
  ]
]

less_asym : (a b : Bytes) → less a b ≡ true → less b a ≡ false
less_asym a b p = elim (Bool-cases (less b a)) [
  | inr e ↦ e
  | inl e ↦ absurd (true≢false (sym (less_trans a b a p e) ∙ less_irrefl a))
]

pops_before-le : (l m : Load) → pops_before (load l) (load m) ≡ true → less m.key l.key ≡ false
unfolding pops_before
pops_before-le l m h = elim (Bool-cases (less l.key m.key)) [
  | inl e ↦ less_asym l.key m.key e
  | inr e ↦ elim (Bool-cases (bytes_eq l.key m.key)) [
    | inl f ↦ subst (λ k. less k l.key ≡ false) ((bytes_eq_iff l.key m.key).0 f) (less_irrefl l.key)
    | inr f ↦ absurd (true≢false (sym (simp (e, f) at h)))
  ]
]

pops_after-le : (l m : Load) → pops_before (load l) (load m) ≡ false → less l.key m.key ≡ false
unfolding pops_before
pops_after-le l m h = elim (Bool-cases (less l.key m.key)) [
  | inr e ↦ e
  | inl e ↦ absurd (true≢false (simp e at h))
]

All-map : {P Q : Load → Type 0} (h : List Load) → ((l : Load) → P l → Q l) → All P h → All Q h
All-map [] f a = tt
All-map (l ∷ h) f (p, a) = (f l p, All-map h f a)

insert_load-IsHeap : (l : Load) (h : List Load) → IsHeap h → IsHeap (insert_load l h)
unfolding insert_load
insert_load-IsHeap l [] s = (tt, tt)
insert_load-IsHeap l (m ∷ h) (a, s) = elim (Bool-cases (pops_before (load l) (load m))) [
  | inl e ↦
      let le = pops_before-le l m e in
      rw e ((le, All-map h (λ x p. not_less_trans x.key m.key l.key p le) a), (a, s))
  | inr e ↦ rw e (
    insert_load-All (λ x. less x.key m.key ≡ false) l h (pops_after-le l m e) a,
    insert_load-IsHeap l h s,
  )
]

pub push_load-IsHeap :
    (index : ℕ) (records : List Record) (h : List Load)
    → IsHeap h
    → IsHeap (push_load index records h)
unfolding push_load
push_load-IsHeap index [] h s = s
push_load-IsHeap index ((k, files) ∷ records) h s =
    insert_load-IsHeap (record { index = index; key = k; files = files; more = records }) h s

pub push_load-IsLoad :
    (index : ℕ) (key : Bytes) (records : List Record) (h : List Load)
    → All IsRecord records
    → Over key records
    → All IsLoad h
    → All IsLoad (push_load index records h)
unfolding push_load
push_load-IsLoad index key [] h a o ls = ls
push_load-IsLoad index key ((k, files) ∷ records) h (r, a) (o, os) ls =
    insert_load-All IsLoad (record { index = index; key = k; files = files; more = records }) h
      (a, os) ls

-- No key under `key` is in a heap whose keys are not.
abbrev pub NotUnder : Bytes → List Load → Type 0
NotUnder key = All (λ l. less l.key key ≡ false)

abbrev pub AllOver : Bytes → List Load → Type 0
AllOver key = All (λ l. less key l.key ≡ true)

pub push_load-NotUnder :
    (index : ℕ) (key : Bytes) (records : List Record) (h : List Load)
    → Over key records
    → NotUnder key h
    → NotUnder key (push_load index records h)
unfolding push_load
push_load-NotUnder index key [] h o n = n
push_load-NotUnder index key ((k, files) ∷ records) h (o, os) n =
    insert_load-All (λ l. less l.key key ≡ false)
      (record { index = index; key = k; files = files; more = records }) h (less_asym key k o) n

-- Where the top is another key, all are above.
pub other_key-AllOver :
    (key : Bytes) (l : Load) (h : List Load)
    → less l.key key ≡ false
    → bytes_eq l.key key ≡ false
    → IsHeap (l ∷ h)
    → AllOver key (l ∷ h)
other_key-AllOver key l h n d (a, s) =
    let over : less key l.key ≡ true = elim (less_total key l.key) [
      | inl e ↦ absurd (true≢false (sym ((bytes_eq_iff l.key key).1 (sym e)) ∙ d))
      | inr (inl e) ↦ e
      | inr (inr e) ↦ absurd (true≢false (sym e ∙ n))
    ] in
    (over, All-map h (λ x p. above x p over) a)
  where
    above : (x : Load) → less x.key l.key ≡ false → less key l.key ≡ true → less key x.key ≡ true
    above x p over = elim (less_total l.key x.key) [
      | inl e ↦ subst (λ k. less key k ≡ true) e over
      | inr (inl e) ↦ less_trans key l.key x.key over e
      | inr (inr e) ↦ absurd (true≢false (sym e ∙ p))
    ]

-- A heap above a key does not have it.
Has-Over :
    (key : Bytes) (file : ℕ) (records : List Record) → Over key records → Has key file records → ⊥
Has-Over key file [] o p = p
Has-Over key file ((k, files) ∷ records) (o, os) (inl (same, q)) =
    true≢false (sym o ∙ ap (λ x. less x k) same ∙ less_irrefl k)
Has-Over key file ((k, files) ∷ records) (o, os) (inr p) =
    Has-Over key file records (weaken records os) p
  where
    weaken : (rs : List Record) → Over k rs → Over key rs
    weaken [] u = tt
    weaken ((j, fs) ∷ rs) (u, us) = (less_trans key k j o u, us)

pub HasAny-AllOver :
    (key : Bytes) (file : ℕ) (h : List Load) → AllOver key h → All IsLoad h → HasAny key file h → ⊥
HasAny-AllOver key file [] a ls p = p
HasAny-AllOver key file (l ∷ h) (o, a) ((rs, os), ls) (inl p) =
    Has-Over key file ((l.key, l.files) ∷ l.more) (o, os) p
HasAny-AllOver key file (l ∷ h) (o, a) (q, ls) (inr p) = HasAny-AllOver key file h a ls p
