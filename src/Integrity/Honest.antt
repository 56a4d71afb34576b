-- ===== src/Integrity/Honest.antt =====
-- What `range` answers for: a bit is set only for a block that has the digest of the trailer.
use greeg.Base.{
  ℕ, zero, suc, ◌+◌, ◌-◌, ◌/◌, ◌%◌, ◌≤◌, ◌<◌, ◌≡◌, ◌⊎◌, inl, inr, sym, ◌∙◌, arith, Bool, true,
  false, ◌&&◌, Option, some, Bytes, length, ltb, leb, ◌==◌, Bool-cases, Option-cases, ==_iff,
}
use mathlib.Core.Option.{some-injective, none-ne-some}
use mathlib.Core.Bool.{true≢false}
use greeg.Base.Bits.{test_bit-set_bit_ne, test_bit_zero}
use greeg.Integrity.{Checked, fresh, fail, is_done, mark, Blocks, check, verify_loop, verify, range}

-- Setting a bit sets no other.
is_done-mark :
    (i j : ℕ) (c : Checked) → is_done (mark i c) j ≡ true → (j ≡ i) ⊎ (is_done c j ≡ true)
unfolding is_done mark
is_done-mark i j c h = elim (Bool-cases (j / 64 == i / 64)) [
  | inr e ↦ inr (rw e at h)
  | inl e ↦ elim (Bool-cases (i % 64 == j % 64)) [
    | inl f ↦ inl (
        let a : j / 64 ≡ i / 64 = (==_iff _ _).0 e in
        let b : i % 64 ≡ j % 64 = (==_iff _ _).0 f in omega arith)
    | inr f ↦ inr (
        sym (
          test_bit-set_bit_ne (c.done (j / 64)) (i % 64) (j % 64)
            (λ s. true≢false (sym ((==_iff _ _).1 s) ∙ f)))
        ∙ (rw e at h))
  ]
]

module _ (digest : Bytes → Bytes) (b : Blocks) where
  -- A bit is set only for a block that has its digest.
  abbrev pub IsHonest : Checked → Type 0
  IsHonest c = (i : ℕ) → is_done c i ≡ true → check digest b i ≡ some true

  pub fresh-IsHonest : IsHonest fresh
  unfolding is_done
  fresh-IsHonest i h = absurd (true≢false (sym h ∙ test_bit_zero (i % 64)))

  mark-IsHonest :
      (i : ℕ) (c : Checked) → check digest b i ≡ some true → IsHonest c → IsHonest (mark i c)
  mark-IsHonest i c e h j k = elim (is_done-mark i j c k) [
    | inl same ↦ rw same e
    | inr old ↦ h j old
  ]

  fail-IsHonest : (c : Checked) → IsHonest c → IsHonest (fail c)
  unfolding fail is_done
  fail-IsHonest c h = h

  -- What a run of the loop leaves: an honest state, and, if it answers true, `n` checked blocks.
  abbrev Leaves : ℕ → ℕ → Option Bool × Checked → Type 0
  Leaves n i r =
      IsHonest r.1 × (r.0 ≡ some true → (j : ℕ) → i ≤ j → j < i + n → check digest b j ≡ some true)

  Leaves-suc :
      (n i : ℕ) (r : Option Bool × Checked)
      → check digest b i ≡ some true
      → Leaves n (suc i) r
      → Leaves (suc n) i r
  Leaves-suc n i r e (h, f) = (
    h,
    λ t j a l. elim (Bool-cases (j == i)) [
      | inl same ↦ rw ((==_iff j i).0 same) e
      | inr other ↦ f t j (ground arith) (omega arith)
    ],
  )

  verify_loop-Leaves :
      (n i : ℕ) (c : Checked) → IsHonest c → Leaves n i (verify_loop digest b n i c)
  unfolding verify_loop
  verify_loop-Leaves zero i c h = (h, λ t j a l. absurd (omega arith))
  verify_loop-Leaves (suc n) i c h = elim (Bool-cases (is_done c i)) [
    | inl e ↦
        rw (e, verify_loop)
          (Leaves-suc n i (verify_loop digest b n (suc i) c) (h i e)
            (verify_loop-Leaves n (suc i) c h))
    | inr e ↦ elim (Option-cases (check digest b i)) [
      | inl f ↦ rw (e, verify_loop, f, verify_loop) (h, λ t. absurd (none-ne-some _ t))
      | inr (false, f) ↦
          rw (e, verify_loop, f, verify_loop)
            (fail-IsHonest c h, λ t. absurd (true≢false (sym (some-injective _ _ t))))
      | inr (true, f) ↦
          rw (e, verify_loop, f, verify_loop)
            (Leaves-suc n i (verify_loop digest b n (suc i) (mark i c)) f
              (verify_loop-Leaves n (suc i) (mark i c) (mark-IsHonest i c f h)))
    ]
  ]

  -- The block holds a byte of the range.
  abbrev pub Overlaps : ℕ → ℕ → ℕ → Type 0
  Overlaps off len i = (off / b.block ≤ i) × (i ≤ (off + len - 1) / b.block)

  -- From a state where a bit is set only for a block that has its digest in the trailer, `range`
  -- leaves such a state; and if it answers true for a range that is not empty, every block with a
  -- byte of the range has its digest, whether it was hashed now or before.
  pub range_sound :
      (off len : ℕ) (c : Checked)
      → IsHonest c
      → IsHonest (range digest b off len c).1
        × ((range digest b off len c).0 ≡ some true
            → 0 < len
            → (i : ℕ) → Overlaps off len i
            → check digest b i ≡ some true)
  unfolding range verify
  range_sound off len c h = elim (Bool-cases c.bad) [
    | inl e ↦ simp e (h, λ t. absurd (true≢false (sym (some-injective _ _ t))))
    | inr e ↦ elim (Bool-cases (len == 0)) [
      | inl f ↦ simp (e, f) (h, λ t pos. absurd (ground arith))
      | inr f ↦
          elim (Bool-cases
            (ltb (off + len) 18446744073709551616 && leb (off + len) (length b.body))) [
              | inr g ↦
                  simp (e, f, g)
                    (fail-IsHonest c h, λ t. absurd (true≢false (sym (some-injective _ _ t))))
              | inl g ↦
                  let (honest, all) =
                    verify_loop-Leaves ((off + len - 1) / b.block + 1 - off / b.block)
                      (off / b.block) c h in
                  simp (e, f, g) (honest, λ t pos i (low, high). all t i low (omega arith))
            ]
    ]
  ]
