-- ===== src/Base/Sorting.antt =====
-- `sort_unstable` and `dedup` on `Vec<u32>`: equal numbers cannot be told apart, so an insertion
-- sort gives what any sort gives.
use Prim.Native.Nat.{ℕ, ◌≤◌, ◌<◌}
use mathlib.Core.Path.{◌≡◌}
use mathlib.Core.Logic.{◌≢◌, ◌↔◌, ◌⊎◌, inl, inr}
use mathlib.Core.List.{List, [], ◌∷◌}
use native.Mathlib.Omega.{arith}
use greeg.Base.Tests.{leb, leb→le, ◌==◌, ==_iff, if◌then◌else◌, Bool-cases}
use greeg.Base.Lists.{In}

insert_sorted : ℕ → List ℕ → List ℕ
insert_sorted x [] = x ∷ []
insert_sorted x (y ∷ ys) = if leb x y then x ∷ y ∷ ys else y ∷ insert_sorted x ys

unfoldable pub sort_unstable : List ℕ → List ℕ
unfolding insert_sorted
sort_unstable [] = []
sort_unstable (x ∷ xs) = insert_sorted x (sort_unstable xs)

-- Each element that equals the one before it is dropped.
dedup_from : ℕ → List ℕ → List ℕ
dedup_from x [] = []
dedup_from x (y ∷ ys) = let rest = dedup_from y ys in if x == y then rest else y ∷ rest

unfoldable pub dedup : List ℕ → List ℕ
unfolding dedup_from
dedup [] = []
dedup (x ∷ xs) = x ∷ dedup_from x xs

-- Ascending, each number once.
abbrev pub Above : ℕ → List ℕ → Type 0
Above x [] = Unit
Above x (y ∷ ys) = (x < y) × Above y ys

abbrev pub IsAscending : List ℕ → Type 0
IsAscending [] = Unit
IsAscending (x ∷ xs) = Above x xs

In-insert_sorted : (k x : ℕ) (l : List ℕ) → In k (insert_sorted x l) ↔ ((k ≡ x) ⊎ In k l)
unfolding insert_sorted
In-insert_sorted k x [] = (λ h. h, λ h. h)
In-insert_sorted k x (y ∷ ys) =
    let (f, g) = In-insert_sorted k x ys in
    elim (Bool-cases (leb x y)) [
      | inl e ↦ rw e (λ h. h, λ h. h)
      | inr e ↦ rw e (
        λ h. elim h [
          | inl p ↦ inr (inl p)
          | inr q ↦ elim (f q) [ inl p ↦ inl p | inr r ↦ inr (inr r) ]
        ],
        λ h. elim h [
          | inl p ↦ inr (g (inl p))
          | inr (inl p) ↦ inl p
          | inr (inr q) ↦ inr (g (inr q))
        ],
      )
    ]

pub In-sort_unstable : (k : ℕ) (l : List ℕ) → In k (sort_unstable l) ↔ In k l
unfolding sort_unstable
In-sort_unstable k [] = (λ h. h, λ h. h)
In-sort_unstable k (x ∷ xs) =
    let (f, g) = In-sort_unstable k xs in
    let (a, b) = In-insert_sorted k x (sort_unstable xs) in
    (
      λ h. elim (a h) [ inl e ↦ inl e | inr r ↦ inr (f r) ],
      λ h. elim h [ inl e ↦ b (inl e) | inr r ↦ b (inr (g r)) ],
    )

-- Ascending, with repeats allowed.
abbrev AtLeast : ℕ → List ℕ → Type 0
AtLeast x [] = Unit
AtLeast x (y ∷ ys) = (x ≤ y) × AtLeast y ys

abbrev IsSorted : List ℕ → Type 0
IsSorted [] = Unit
IsSorted (x ∷ xs) = AtLeast x xs

insert_sorted-AtLeast : (z x : ℕ) (l : List ℕ) → z ≤ x → AtLeast z l → AtLeast z (insert_sorted x l)
unfolding insert_sorted
insert_sorted-AtLeast z x [] h a = (h, tt)
insert_sorted-AtLeast z x (y ∷ ys) h a = elim (Bool-cases (leb x y)) [
  | inl e ↦ rw e (h, (leb→le x y e, a.1))
  | inr e ↦ rw e (a.0, insert_sorted-AtLeast y x ys (ground arith) a.1)
]

insert_sorted-IsSorted : (x : ℕ) (l : List ℕ) → IsSorted l → IsSorted (insert_sorted x l)
unfolding insert_sorted
insert_sorted-IsSorted x [] a = tt
insert_sorted-IsSorted x (y ∷ ys) a = elim (Bool-cases (leb x y)) [
  | inl e ↦ rw e (leb→le x y e, a)
  | inr e ↦ rw e (insert_sorted-AtLeast y x ys (ground arith) a)
]

sort_unstable-IsSorted : (l : List ℕ) → IsSorted (sort_unstable l)
unfolding sort_unstable
sort_unstable-IsSorted [] = tt
sort_unstable-IsSorted (x ∷ xs) =
    insert_sorted-IsSorted x (sort_unstable xs) (sort_unstable-IsSorted xs)

dedup_from-Above : (x : ℕ) (l : List ℕ) → AtLeast x l → Above x (dedup_from x l)
unfolding dedup_from
dedup_from-Above x [] a = tt
dedup_from-Above x (y ∷ ys) a = elim (Bool-cases (x == y)) [
  | inl e ↦ rw e (rw ((==_iff x y).0 e) (dedup_from-Above y ys a.1))
  | inr e ↦ rw e (ground (arith, a.0), dedup_from-Above y ys a.1)
]

pub dedup-sort_unstable-IsAscending : (l : List ℕ) → IsAscending (dedup (sort_unstable l))
unfolding dedup
dedup-sort_unstable-IsAscending l = go (sort_unstable l) (sort_unstable-IsSorted l)
  where
    go : (l : List ℕ) → IsSorted l → IsAscending (dedup l)
    go [] a = tt
    go (x ∷ xs) a = dedup_from-Above x xs a

In-dedup_from : (k x : ℕ) (l : List ℕ) → ((k ≡ x) ⊎ In k (dedup_from x l)) ↔ ((k ≡ x) ⊎ In k l)
unfolding dedup_from
In-dedup_from k x [] = (λ h. h, λ h. h)
In-dedup_from k x (y ∷ ys) =
    let (f, g) = In-dedup_from k y ys in
    elim (Bool-cases (x == y)) [
      | inl e ↦
          rw e (rw ((==_iff x y).0 e) (λ h. inr (f h), λ h. elim h [ inl p ↦ inl p | inr q ↦ g q ]))
      | inr e ↦ rw e (
        λ h. elim h [ inl p ↦ inl p | inr q ↦ inr (f q) ],
        λ h. elim h [ inl p ↦ inl p | inr q ↦ inr (g q) ],
      )
    ]

pub In-dedup : (k : ℕ) (l : List ℕ) → In k (dedup l) ↔ In k l
unfolding dedup
In-dedup k [] = (λ h. h, λ h. h)
In-dedup k (x ∷ xs) = In-dedup_from k x xs

-- A list without repeats is strictly ascending once sorted.
abbrev pub IsUnique : List ℕ → Type 0
IsUnique [] = Unit
IsUnique (x ∷ xs) = (¬ In x xs) × IsUnique xs

insert_sorted-Above :
    (z x : ℕ) (l : List ℕ) → z < x → ¬ In x l → Above z l → Above z (insert_sorted x l)
unfolding insert_sorted
insert_sorted-Above z x [] h n a = (h, tt)
insert_sorted-Above z x (y ∷ ys) h n a = elim (Bool-cases (leb x y)) [
  | inl e ↦ rw e (h, (below (leb→le x y e) (λ p. n (inl p)), a.1))
  | inr e ↦ rw e (a.0, insert_sorted-Above y x ys (ground arith) (λ p. n (inr p)) a.1)
]
  where
    below : x ≤ y → x ≢ y → x < y
    below p q = omega arith

insert_sorted-IsAscending :
    (x : ℕ) (l : List ℕ) → ¬ In x l → IsAscending l → IsAscending (insert_sorted x l)
unfolding insert_sorted
insert_sorted-IsAscending x [] n a = tt
insert_sorted-IsAscending x (y ∷ ys) n a = elim (Bool-cases (leb x y)) [
  | inl e ↦ rw e (below (leb→le x y e) (λ p. n (inl p)), a)
  | inr e ↦ rw e (insert_sorted-Above y x ys (ground arith) (λ p. n (inr p)) a)
]
  where
    below : x ≤ y → x ≢ y → x < y
    below p q = omega arith

pub sort_unstable-IsAscending : (l : List ℕ) → IsUnique l → IsAscending (sort_unstable l)
unfolding sort_unstable
sort_unstable-IsAscending [] u = tt
sort_unstable-IsAscending (x ∷ xs) u =
    insert_sorted-IsAscending x (sort_unstable xs) (λ p. u.0 ((In-sort_unstable x xs).0 p))
      (sort_unstable-IsAscending xs u.1)
