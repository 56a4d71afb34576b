-- ===== src/Integrity/Refusals.antt =====
-- What a failed check leaves: the component and the process are marked for good.
use greeg.Base.{
  ℕ, zero, suc, ◌+◌, ◌-◌, ◌/◌, ◌≡◌, inl, inr, refl, Bool, true, false, ◌&&◌, Option, some, Bytes,
  length, ltb, leb, ◌==◌, Bool-cases, Option-cases,
}
use mathlib.Core.Option.{some-injective, none-ne-some}
use mathlib.Core.Bool.{true≢false}
use greeg.Integrity.{Checked, fail, is_done, mark, Blocks, check, verify_loop, verify, range}

-- The answer is not a refusal, or the flags are set.
abbrev IsMarked : Option Bool × Checked → Type 0
IsMarked r = r.0 ≡ some false → (r.1.bad ≡ true) × (r.1.failed ≡ true)

module _ (digest : Bytes → Bytes) (b : Blocks) where
  verify_loop-IsMarked : (n i : ℕ) (c : Checked) → IsMarked (verify_loop digest b n i c)
  unfolding verify_loop fail
  verify_loop-IsMarked zero i c = λ t. absurd (true≢false (some-injective _ _ t))
  verify_loop-IsMarked (suc n) i c = elim (Bool-cases (is_done c i)) [
    | inl e ↦ rw (e, verify_loop) (verify_loop-IsMarked n (suc i) c)
    | inr e ↦ elim (Option-cases (check digest b i)) [
      | inl f ↦ rw (e, verify_loop, f, verify_loop) (λ t. absurd (none-ne-some _ t))
      | inr (false, f) ↦ rw (e, verify_loop, f, verify_loop) (λ t. (refl, refl))
      | inr (true, f) ↦
          rw (e, verify_loop, f, verify_loop) (verify_loop-IsMarked n (suc i) (mark i c))
    ]
  ]

  range-IsMarked : (off len : ℕ) (c : Checked) → c.bad ≡ false → IsMarked (range digest b off len c)
  unfolding range verify fail
  range-IsMarked off len c good = elim (Bool-cases (len == 0)) [
    | inl e ↦ simp (good, e) (λ t. absurd (true≢false (some-injective _ _ t)))
    | inr e ↦
        elim (Bool-cases
          (ltb (off + len) 18446744073709551616 && leb (off + len) (length b.body))) [
            | inl f ↦
                simp (good, e, f)
                  (verify_loop-IsMarked ((off + len - 1) / b.block + 1 - off / b.block)
                    (off / b.block) c)
            | inr f ↦ simp (good, e, f) (λ t. (refl, refl))
          ]
  ]

  range_bad : (off len : ℕ) (c : Checked) → c.bad ≡ true → (range digest b off len c).0 ≡ some false
  unfolding range
  range_bad off len c e = simp e refl

  -- A range that is refused while no check had failed marks the component and the process, and from
  -- then on every range is refused, the empty one as well.
  pub range_refused :
      (off len : ℕ) (c : Checked)
      → c.bad ≡ false
      → (range digest b off len c).0 ≡ some false
      → ((range digest b off len c).1.failed ≡ true)
        × ((later size : ℕ)
            → (range digest b later size (range digest b off len c).1).0 ≡ some false)
  range_refused off len c good refused =
      let (bad, failed) = range-IsMarked off len c good refused in
      (failed, λ later size. range_bad later size (range digest b off len c).1 bad)
