-- ===== src/Words/Layout.antt =====
-- crates/greeg-index/src/words.rs: where the parts of a serialized section stand, and that the arrays
-- of integers read back.
use native.Mathlib.Nat.{pow-succ', add-mul, mod-eq_of_lt}
use greeg.Base.{
  ℕ, zero, suc, ◌+◌, ◌-◌, ◌*◌, ◌/◌, ◌%◌, ◌^◌, ◌<◌, ◌≡◌, refl, sym, ap, subst, ◌∙◌, arith, true,
  some, List, [], ◌∷◌, ◌++◌, append_assoc, append-nil, Bytes, length, length-append, take, drop,
  All, leb, ◌&&◌,
}
use mathlib.Core.Option.{none-ne-some}
use greeg.Base.Slices.{get_elem?, take-append, drop-append}
use greeg.Words.Section.{le_bytes, zeros, pad8, total_length, put_offsets, put_all, put_counts}
use greeg.Words.View.{pair_at, get_slice, get_bytes, le_value, cast_items, last_or_zero}

pub length-le_bytes : (size v : ℕ) → length (le_bytes size v) ≡ size
unfolding le_bytes
length-le_bytes zero v = refl
length-le_bytes (suc size) v = ap suc (length-le_bytes size (v / 256))

quotient_fits : (v p : ℕ) → v < 256 * p → v / 256 < p
quotient_fits v p h = omega arith

pub le_value-le_bytes : (size v : ℕ) → v < 256 ^ size → le_value (le_bytes size v) ≡ v
unfolding le_value le_bytes
le_value-le_bytes zero v h = omega arith
le_value-le_bytes (suc size) v h =
    let bound : v < 256 * 256 ^ size = subst (λ p. v < p) (pow-succ' 256 size) h in
    omega (arith, le_value-le_bytes size (v / 256) (quotient_fits v (256 ^ size) bound))

take-le_bytes : (size v : ℕ) (rest : Bytes) → take size (le_bytes size v ++ rest) ≡ le_bytes size v
take-le_bytes size v rest =
    subst (λ n. take n (le_bytes size v ++ rest) ≡ le_bytes size v) (length-le_bytes size v)
      (take-append (le_bytes size v) rest)

plus_zero : (n : ℕ) → n + 0 ≡ n
plus_zero n = omega arith

drop_prefix : (xs ys : Bytes) → drop (length xs) (xs ++ ys) ≡ ys
drop_prefix xs ys = rw (sym (plus_zero (length xs))) (drop-append 0 xs ys)

drop-le_bytes : (size v : ℕ) (rest : Bytes) → drop size (le_bytes size v ++ rest) ≡ rest
drop-le_bytes size v rest =
    subst (λ n. drop n (le_bytes size v ++ rest) ≡ rest) (length-le_bytes size v)
      (drop_prefix (le_bytes size v) rest)

-- What a body starts with.
abbrev pub Starts : Bytes → Bytes → Type 0
Starts s body = (rest : Bytes) × (body ≡ s ++ rest)

pub Starts-append : (s x body : Bytes) → Starts (s ++ x) body → Starts s body
Starts-append s x body (rest, e) = (x ++ rest, e ∙ append_assoc s x rest)

pub Starts-pad8 : (s body : Bytes) → Starts (pad8 s) body → Starts s body
unfolding pad8
Starts-pad8 s body h = Starts-append s (zeros ((8 - length s % 8) % 8)) body h

length-zeros : (n : ℕ) → length (zeros n) ≡ n
unfolding zeros
length-zeros zero = refl
length-zeros (suc n) = ap suc (length-zeros n)

pub length-pad8 : (s : Bytes) → length (pad8 s) ≡ (length s + 7) / 8 * 8
unfolding pad8
length-pad8 s =
    omega (
      arith,
      length-append s (zeros ((8 - length s % 8) % 8)),
      length-zeros ((8 - length s % 8) % 8),
    )

pub get_bytes-Starts :
    (s x body : Bytes) (off len : ℕ)
    → off ≡ length s
    → len ≡ length x
    → Starts (s ++ x) body
    → get_bytes off len body ≡ some x
unfolding get_bytes
get_bytes-Starts s x body off len e f (rest, g) =
    let whole : length body ≡ length s + length x + length rest =
      ap length g ∙ length-append (s ++ x) rest ∙ ap (λ n. n + length rest) (length-append s x) in
    let inside : leb (off + len) (length body) ≡ true = ground arith in
    let skipped : drop off body ≡ x ++ rest =
      rw (e, g, append_assoc s x rest) (drop_prefix s (x ++ rest)) in
    rw (inside, skipped, f) (ap some (take-append x rest))

-- The offsets that are put, where none wraps around.
unfoldable pub sums : ℕ → List Bytes → List ℕ
sums off [] = off ∷ []
sums off (x ∷ xs) = off ∷ sums (off + length x) xs

one_more : (n size : ℕ) → size + (n + 1) * size ≡ (suc n + 1) * size
one_more n size =
    let a = add-mul n 1 size in
    let b = add-mul (suc n) 1 size in let c = add-mul 1 n size in omega arith

pub length-put_offsets :
    (size off : ℕ) (xs : List Bytes) → length (put_offsets size off xs) ≡ (length xs + 1) * size
unfolding put_offsets
length-put_offsets size off [] = omega (arith, length-le_bytes size off)
length-put_offsets size off (x ∷ xs) =
    let next = (off + length x) % 256 ^ size in
    length-append (le_bytes size off) (put_offsets size next xs)
    ∙ rw (length-le_bytes size off, length-put_offsets size next xs) (one_more (length xs) size)

cast_items-le_bytes :
    (size n v : ℕ) (rest : Bytes)
    → v < 256 ^ size
    → cast_items size (suc n) (le_bytes size v ++ rest) ≡ v ∷ cast_items size n rest
unfolding cast_items
cast_items-le_bytes size n v rest h =
    rw (take-le_bytes size v rest, drop-le_bytes size v rest, le_value-le_bytes size v h) refl

pub cast_items-put_offsets :
    (size off : ℕ) (xs : List Bytes)
    → off + total_length xs < 256 ^ size
    → cast_items size (suc (length xs)) (put_offsets size off xs) ≡ sums off xs
unfolding put_offsets cast_items sums total_length
cast_items-put_offsets size off [] h =
    let bound : off < 256 ^ size = omega arith in
    rw (sym (append-nil (le_bytes size off)), take-le_bytes size off [])
      (ap (λ n. n ∷ []) (le_value-le_bytes size off bound))
cast_items-put_offsets size off (x ∷ xs) h =
    let next = (off + length x) % 256 ^ size in
    let same : next ≡ off + length x = mod-eq_of_lt (omega arith) in
    let rest = put_offsets size next xs in
    cast_items-le_bytes size (suc (length xs)) off rest (omega arith)
    ∙ (ap (◌∷◌ off)
        (cast_items-put_offsets size next xs (rw same (omega arith)) ∙ ap (λ n. sums n xs) same))

pub length-put_counts : (counts : List ℕ) → length (put_counts counts) ≡ length counts * 4
unfolding put_counts
length-put_counts [] = refl
length-put_counts (c ∷ counts) = omega (
  arith,
  length-append (le_bytes 4 c) (put_counts counts),
  length-le_bytes 4 c,
  length-put_counts counts,
)

pub cast_items-put_counts :
    (counts : List ℕ)
    → All (λ c. c < 4294967296) counts
    → cast_items 4 (length counts) (put_counts counts) ≡ counts
unfolding put_counts cast_items
cast_items-put_counts [] a = refl
cast_items-put_counts (c ∷ counts) (h, a) =
    cast_items-le_bytes 4 (length counts) c (put_counts counts) h
    ∙ ap (◌∷◌ c) (cast_items-put_counts counts a)

pub length-put_all : (xs : List Bytes) → length (put_all xs) ≡ total_length xs
unfolding put_all total_length
length-put_all [] = refl
length-put_all (x ∷ xs) = omega (arith, length-append x (put_all xs), length-put_all xs)

pub last_or_zero-sums :
    (off : ℕ) (xs : List Bytes) → last_or_zero (sums off xs) ≡ off + total_length xs
unfolding last_or_zero sums total_length
last_or_zero-sums off [] = omega arith
last_or_zero-sums off (x ∷ []) = omega arith
last_or_zero-sums off (x ∷ y ∷ xs) = omega (arith, last_or_zero-sums (off + length x) (y ∷ xs))

pub pair_first : (a b : ℕ) (xs : List Bytes) → pair_at (a ∷ sums b xs) 0 ≡ some (a, b)
unfolding pair_at sums
pair_first a b [] = refl
pair_first a b (x ∷ xs) = refl

pub pair_later :
    (a b i : ℕ) (xs : List Bytes) → pair_at (a ∷ sums b xs) (suc i) ≡ pair_at (sums b xs) i
unfolding pair_at sums
pair_later a b i [] = refl
pair_later a b i (x ∷ xs) = refl

middle :
    (before x after : Bytes)
    → get_slice (length before) (length before + length x) (before ++ (x ++ after)) ≡ some x
unfolding get_slice
middle before x after =
    let whole : length (before ++ (x ++ after)) ≡ length before + (length x + length after) =
      length-append before (x ++ after) ∙ ap (λ n. length before + n) (length-append x after) in
    let inside : (leb (length before) (length before + length x)
          && leb (length before + length x) (length (before ++ (x ++ after))))
        ≡ true =
      rw whole (ground arith) in
    let size : length before + length x - length before ≡ length x = omega arith in
    rw (inside, size, drop_prefix before (x ++ after)) (ap some (take-append x after))

-- Between the offsets of an item stands the item.
pub sums-slice :
    (before : Bytes) (xs : List Bytes) (i : ℕ) (x : Bytes)
    → get_elem? xs i ≡ some x
    → (start : ℕ) × (end : ℕ) × (pair_at (sums (length before) xs) i ≡ some (start, end))
      × (get_slice start end (before ++ put_all xs) ≡ some x)
unfolding sums put_all
sums-slice before [] i x e = absurd (none-ne-some _ e)
sums-slice before (y ∷ ys) zero x e = (
  length before,
  length before + length y,
  pair_first (length before) (length before + length y) ys,
  middle before y (put_all ys) ∙ e,
)
sums-slice before (y ∷ ys) (suc i) x e =
    let step = length-append before y in
    let (start, end, p, q) = sums-slice (before ++ y) ys i x e in
    (
      start,
      end,
      pair_later (length before) (length before + length y) i ys
          ∙ subst (λ n. pair_at (sums n ys) i ≡ some (start, end)) step p,
      subst (λ z. get_slice start end z ≡ some x) (append_assoc before y (put_all ys)) q,
    )
