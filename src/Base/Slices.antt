-- ===== src/Base/Slices.antt =====
-- Lemmas on parts of lists.
use Prim.Native.Nat.{min}
use greeg.Base.{
  ℕ, zero, suc, ◌+◌, ◌-◌, ◌≤◌, ◌<◌, ◌≡◌, refl, sym, ap, ◌∙◌, arith, Option, none, some, List, [],
  ◌∷◌, ◌++◌, length, take, drop,
}

zero_plus : (n : ℕ) → 0 + n ≡ n
zero_plus n = omega arith

suc_plus : (m n : ℕ) → suc m + n ≡ suc (m + n)
suc_plus m n = omega arith

min_zero : (n : ℕ) → min 0 n ≡ 0
min_zero n = omega arith

min_nil : (n : ℕ) → min (suc n) 0 ≡ 0
min_nil n = omega arith

min-suc : (m n : ℕ) → min (suc m) (suc n) ≡ suc (min m n)
min-suc m n = omega arith

module _ {A : Type 0} where
  pub take-append : (xs ys : List A) → take (length xs) (xs ++ ys) ≡ xs
  take-append [] ys = refl
  take-append (x ∷ xs) ys = ap (◌∷◌ x) (take-append xs ys)

  pub drop-append : (n : ℕ) (xs ys : List A) → drop (length xs + n) (xs ++ ys) ≡ drop n ys
  drop-append n [] ys = ap (λ k. drop k ys) (zero_plus n)
  drop-append n (x ∷ xs) ys = rw (suc_plus (length xs) n) (drop-append n xs ys)

  drop_nil : (n : ℕ) → drop {A = A} n [] ≡ []
  drop_nil zero = refl
  drop_nil (suc n) = refl

  pub drop-drop : (m n : ℕ) (xs : List A) → drop (m + n) xs ≡ drop n (drop m xs)
  drop-drop zero n xs = ap (λ k. drop k xs) (zero_plus n)
  drop-drop (suc m) n [] = drop_nil (suc m + n) ∙ sym (drop_nil n)
  drop-drop (suc m) n (x ∷ xs) = rw (suc_plus m n) (drop-drop m n xs)

  pub length-drop : (n : ℕ) (xs : List A) → length (drop n xs) ≡ length xs - n
  length-drop zero xs = omega arith
  length-drop (suc n) [] = omega arith
  length-drop (suc n) (x ∷ xs) = omega (arith, length-drop n xs)

  -- Taking no more than there is.
  pub take-min : (n : ℕ) (xs : List A) → take (min n (length xs)) xs ≡ take n xs
  take-min zero xs = ap (λ k. take k xs) (min_zero (length xs))
  take-min (suc n) [] = ap (λ k. take k []) (min_nil n)
  take-min (suc n) (x ∷ xs) = rw (min-suc n (length xs)) (ap (◌∷◌ x) (take-min n xs))

  abbrev pub get_elem? : List A → ℕ → Option A
  get_elem? [] n = none
  get_elem? (x ∷ xs) zero = some x
  get_elem? (x ∷ xs) (suc n) = get_elem? xs n

  get_elem?-drop : (m n : ℕ) (xs : List A) → get_elem? (drop m xs) n ≡ get_elem? xs (m + n)
  get_elem?-drop zero n xs = ap (get_elem? xs) (sym (zero_plus n))
  get_elem?-drop (suc m) n [] = refl
  get_elem?-drop (suc m) n (x ∷ xs) = rw (suc_plus m n) (get_elem?-drop m n xs)

  get_elem?-take : (m n : ℕ) (xs : List A) → n < m → get_elem? (take m xs) n ≡ get_elem? xs n
  get_elem?-take zero n xs h = absurd (omega arith)
  get_elem?-take (suc m) n [] h = refl
  get_elem?-take (suc m) zero (x ∷ xs) h = refl
  get_elem?-take (suc m) (suc n) (x ∷ xs) h = get_elem?-take m n xs (omega arith)

  -- An element of a slice, by its place in the list.
  pub get_elem?-slice :
      (start len n : ℕ) (xs : List A)
      → n < len
      → get_elem? (take len (drop start xs)) n ≡ get_elem? xs (start + n)
  get_elem?-slice start len n xs h =
      get_elem?-take len n (drop start xs) h ∙ get_elem?-drop start n xs

  pub get_elem?-past : (n : ℕ) (xs : List A) → length xs ≤ n → get_elem? xs n ≡ none
  get_elem?-past n [] h = refl
  get_elem?-past zero (x ∷ xs) h = absurd (omega arith)
  get_elem?-past (suc n) (x ∷ xs) h = get_elem?-past n xs (omega arith)

  pub drop-past : (n : ℕ) (xs : List A) → length xs ≤ n → drop n xs ≡ []
  drop-past n [] h = drop_nil n
  drop-past zero (x ∷ xs) h = absurd (omega arith)
  drop-past (suc n) (x ∷ xs) h = drop-past n xs (omega arith)
