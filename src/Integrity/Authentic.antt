-- ===== src/Integrity/Authentic.antt =====
-- What a verified range means for the bytes a reader takes: they are those that the build wrote.
use mathlib.Core.Option.{some-injective}
use native.Mathlib.Nat.{div-add-mod', div-mul-le_self, le-div_iff_mul-le, mod-lt}
use greeg.Base.{
  ℕ, ◌+◌, ◌-◌, ◌*◌, ◌/◌, ◌%◌, ◌≤◌, ◌<◌, ◌≡◌, inl, inr, sym, ap, ◌∙◌, arith, true, some, Bytes,
  length, ltb, Bool-cases, bytes_eq_iff,
}
use greeg.Base.Slices.{get_elem?, get_elem?-slice, get_elem?-past}
use greeg.Integrity.{Checked, trailer, range}
use greeg.Integrity.Honest.{IsHonest, range_sound}
use greeg.Integrity.Trailer.{block_at, with_trailer_of, new-block, check_compares}

div_mono : (x y k : ℕ) → 0 < k → x ≤ y → x / k ≤ y / k
div_mono x y k pos h = (le-div_iff_mul-le pos).1 (omega (arith, div-mul-le_self x k))

-- Byte `k` stands in block `k / block`.
byte_in_block :
    (body : Bytes) (block k : ℕ)
    → 0 < block
    → get_elem? (block_at body block (k / block)) (k % block) ≡ get_elem? body k
byte_in_block body block k pos =
    get_elem?-slice (k / block * block) block (k % block) body (mod-lt k pos)
    ∙ ap (get_elem? body) (div-add-mod' k block)

module _ (digest : Bytes → Bytes) (digest-len : (bytes : Bytes) → length (digest bytes) ≡ 8) where
  -- With digests of 8 bytes and blocks of at least one byte: if the body has the length of the one
  -- whose trailer `trailer` wrote, and the digests tell each of its blocks from the one that was
  -- there, then the bytes of a range that verifies are those of the built body, provided that the
  -- blocks marked before have the digest of the trailer.
  pub range_authentic :
      (built body : Bytes) (block off len : ℕ) (c : Checked)
      → 0 < block
      → length body ≡ length built
      → ((i : ℕ)
          → digest (block_at body block i) ≡ digest (block_at built block i)
          → block_at body block i ≡ block_at built block i)
      → IsHonest digest (with_trailer_of digest built body block) c
      → (range digest (with_trailer_of digest built body block) off len c).0 ≡ some true
      → (k : ℕ) → off ≤ k
      → k < off + len
      → get_elem? body k ≡ get_elem? built k
  range_authentic built body block off len c pos same distinct honest t k low high =
      elim (Bool-cases (ltb k (length body))) [
        | inr e ↦ get_elem?-past k body (ground arith) ∙ sym (get_elem?-past k built (ground arith))
        | inl e ↦
            let b = with_trailer_of digest built body block in
            let size = new-block body (trailer digest built block) block pos in
            let i = k / block in
            let checked = (range_sound digest b off len c honest).1 t (omega arith) i (
              rw size (
                div_mono off k block pos low,
                div_mono k (off + len - 1) block pos (omega arith),
              )) in
            let equal = some-injective _ _ (
              sym (
                check_compares digest digest-len built body block i pos same
                  (ground (arith, div-mul-le_self k block)))
              ∙ checked) in
            let blocks = distinct i ((bytes_eq_iff _ _).0 equal) in
            sym (byte_in_block body block k pos)
            ∙ ap (λ bytes. get_elem? bytes (k % block)) blocks
            ∙ byte_in_block built block k pos
      ]
