-- ===== src/Integrity/Trailer.antt =====
-- A trailer that `trailer` wrote verifies: the digests stand at their blocks.
use Prim.Native.Nat.{min}
use native.Mathlib.Nat.{le-div_iff_mul-le}
use greeg.Base.{
  ℕ, zero, suc, ◌+◌, ◌-◌, ◌*◌, ◌/◌, ◌≤◌, ◌<◌, ◌≡◌, refl, sym, ap, ◌∙◌, arith, true, false, ◌&&◌,
  some, [], ◌∷◌, ◌++◌, Bytes, length, take, drop, ltb, leb, ◌==◌, inl, inr, Bool-cases, bytes_eq,
  bytes_eq_iff, length-append,
}
use greeg.Base.Slices.{take-append, drop-append, drop-drop, length-drop, take-min}
use greeg.Integrity.{
  Checked, is_done, mark, Blocks, new, trailer_of, trailer, check, verify_loop, verify, range,
}

-- What stands at block `i`: the bytes of a block, and the digest that a trailer holds for it.
abbrev pub block_at : Bytes → ℕ → ℕ → Bytes
block_at body block i = take block (drop (i * block) body)

abbrev pub digest_at : Bytes → ℕ → Bytes
digest_at trailer i = take 8 (drop (i * 8) trailer)

suc_times : (i k : ℕ) → suc i * k ≡ k + i * k
suc_times i k = grind arith

zero_times : (k : ℕ) → 0 * k ≡ 0
zero_times k = omega arith

block_first : (body : Bytes) (block : ℕ) → block_at body block 0 ≡ take block body
block_first body block = ap (λ k. take block (drop k body)) (zero_times block)

module _ (digest : Bytes → Bytes) (digest-len : (bytes : Bytes) → length (digest bytes) ≡ 8) where
  digest_first : (bytes rest : Bytes) → digest_at (digest bytes ++ rest) 0 ≡ digest bytes
  digest_first bytes rest =
      ap (λ k. take k (digest bytes ++ rest)) (sym (digest-len bytes))
      ∙ take-append (digest bytes) rest

  digest_next :
      (bytes rest : Bytes) (i : ℕ) → digest_at (digest bytes ++ rest) (suc i) ≡ digest_at rest i
  digest_next bytes rest i =
      ap (λ k. take 8 (drop k (digest bytes ++ rest)))
        (suc_times i 8 ∙ ap (λ k. k + i * 8) (sym (digest-len bytes)))
      ∙ ap (take 8) (drop-append (i * 8) (digest bytes) rest)

  block_next :
      (body : Bytes) (block i : ℕ)
      → block_at body block (suc i) ≡ block_at (drop block body) block i
  block_next body block i =
      ap (λ k. take block (drop k body)) (suc_times i block)
      ∙ ap (take block) (drop-drop block (i * block) body)

  -- The digest of a block that the body has stands at its place.
  trailer_of-at :
      (fuel : ℕ) (body : Bytes) (block i : ℕ)
      → length body ≤ fuel
      → 0 < block
      → i * block < length body
      → (digest_at (trailer_of digest fuel body block) i ≡ digest (block_at body block i))
        × ((i + 1) * 8 ≤ length (trailer_of digest fuel body block))
  unfolding trailer_of
  trailer_of-at fuel [] block i enough pos inside = absurd (omega arith)
  trailer_of-at zero (x ∷ body) block i enough pos inside = absurd (omega arith)
  trailer_of-at (suc fuel) (x ∷ body) block zero enough pos inside =
      let first = take block (x ∷ body) in
      let rest = trailer_of digest fuel (drop block (x ∷ body)) block in
      (
        digest_first first rest ∙ ap digest (sym (block_first (x ∷ body) block)),
        omega (arith, length-append (digest first) rest, digest-len first),
      )
  trailer_of-at (suc fuel) (x ∷ body) block (suc i) enough pos inside =
      let first = take block (x ∷ body) in
      let rest = trailer_of digest fuel (drop block (x ∷ body)) block in
      let shorter = length-drop block (x ∷ body) in
      let less = suc_times i block in
      let (at, long) =
        trailer_of-at fuel (drop block (x ∷ body)) block i (omega arith) pos (omega arith) in
      (
        digest_next first rest i ∙ at ∙ ap digest (sym (block_next (x ∷ body) block i)),
        omega (arith, length-append (digest first) rest, digest-len first),
      )

-- The slice that `check` takes of the body is the whole block, or what the body has of it.
slice_at :
    (body : Bytes) (block i : ℕ)
    → i * block ≤ length body
    → take (min (i * block + block) (length body) - i * block) (drop (i * block) body)
      ≡ block_at body block i
slice_at body block i inside =
    let left = length-drop (i * block) body in
    let end : min (i * block + block) (length body) - i * block
        ≡ min block (length (drop (i * block) body)) =
      ground arith in
    ap (λ k. take k (drop (i * block) body)) end ∙ take-min block (drop (i * block) body)

module _ (digest : Bytes → Bytes) where
  -- `check` compares what stands at the block with its digest.
  pub check-at :
      (b : Blocks) (i : ℕ)
      → i * b.block ≤ length b.body
      → (i + 1) * 8 ≤ length b.trailer
      → check digest b i
        ≡ some (bytes_eq (digest (block_at b.body b.block i)) (digest_at b.trailer i))
  unfolding check
  check-at b i inside long =
      let start : leb (i * b.block) (min (i * b.block + b.block) (length b.body)) ≡ true =
        ground arith in
      let end : leb ((i + 1) * 8) (length b.trailer) ≡ true = ground arith in
      rw (start, end, slice_at b.body b.block i inside) refl

  -- Blocks that all verify leave a run that answers true.
  verify_loop-true :
      (b : Blocks) (n i : ℕ) (c : Checked)
      → ((j : ℕ) → i ≤ j → j < i + n → check digest b j ≡ some true)
      → (verify_loop digest b n i c).0 ≡ some true
  unfolding verify_loop
  verify_loop-true b zero i c h = refl
  verify_loop-true b (suc n) i c h = elim (Bool-cases (is_done c i)) [
    | inl e ↦
        rw (e, verify_loop)
          (verify_loop-true b n (suc i) c (λ j a l. h j (omega arith) (omega arith)))
    | inr e ↦
        rw (e, verify_loop, h i (omega arith) (omega arith), verify_loop)
          (verify_loop-true b n (suc i) (mark i c) (λ j a l. h j (omega arith) (omega arith)))
  ]

  -- So does a range, where it is in the body and every block verifies.
  range-true :
      (b : Blocks) (off len : ℕ) (c : Checked)
      → 0 < b.block
      → c.bad ≡ false
      → off + len ≤ length b.body
      → length b.body < 18446744073709551616
      → ((j : ℕ) → j * b.block < length b.body → check digest b j ≡ some true)
      → (range digest b off len c).0 ≡ some true
  unfolding range verify
  range-true b off len c pos good inside bound h = elim (Bool-cases (len == 0)) [
    | inl e ↦ simp (good, e) refl
    | inr e ↦
        let fits : ltb (off + len) 18446744073709551616 && leb (off + len) (length b.body) ≡ true =
          ground arith in
        let n = (off + len - 1) / b.block + 1 - off / b.block in
        simp (good, e, fits)
          (verify_loop-true b n (off / b.block) c (λ j a l.
            let below : j ≤ (off + len - 1) / b.block = omega arith in
            let start = (le-div_iff_mul-le pos).0 below in h j (ground arith)))
  ]

-- The blocks of a body with the trailer that `trailer` writes for it, or another body in its place.
abbrev pub with_trailer_of : (Bytes → Bytes) → Bytes → Bytes → ℕ → Blocks
with_trailer_of digest built body block = new body (trailer digest built block) block

pub new-block :
    (body trailer : Bytes) (block : ℕ) → 0 < block → (new body trailer block).block ≡ block
unfolding new
new-block body trailer block pos = omega arith

module _ (digest : Bytes → Bytes) (digest-len : (bytes : Bytes) → length (digest bytes) ≡ 8) where
  -- `check` compares the block with the block that the trailer was written from.
  pub check_compares :
      (built body : Bytes) (block i : ℕ)
      → 0 < block
      → length body ≡ length built
      → i * block < length built
      → check digest (with_trailer_of digest built body block) i
        ≡ some (bytes_eq (digest (block_at body block i)) (digest (block_at built block i)))
  unfolding new trailer
  check_compares built body block i pos same inside =
      let (at, long) =
        trailer_of-at digest digest-len (length built) built block i (omega arith) pos inside in
      let size = new-block body (trailer digest built block) block pos in
      check-at digest (with_trailer_of digest built body block) i (rw size (rw same (omega arith)))
        long
      ∙ rw (size, at) refl

  -- With digests of 8 bytes, blocks of at least one byte and a body below 2^64 bytes, a range inside
  -- the body whose trailer `trailer` wrote verifies, unless a check failed before, whatever blocks
  -- are marked as verified.
  pub range_complete :
      (body : Bytes) (block off len : ℕ) (c : Checked)
      → 0 < block
      → c.bad ≡ false
      → off + len ≤ length body
      → length body < 18446744073709551616
      → (range digest (with_trailer_of digest body body block) off len c).0 ≡ some true
  unfolding new
  range_complete body block off len c pos good inside bound =
      let size = new-block body (trailer digest body block) block pos in
      range-true digest (with_trailer_of digest body body block) off len c (rw size pos) good inside
        bound
        (λ j low.
          check_compares body body block j pos refl (rw size at low)
          ∙ ap some ((bytes_eq_iff _ _).1 refl))
