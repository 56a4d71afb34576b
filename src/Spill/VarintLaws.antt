-- ===== src/Spill/VarintLaws.antt =====
-- A number that `put_varint` writes is read back.
use native.Mathlib.Nat.{mul_assoc, add-mul}
use native.Mathlib.Numerals.{towards_suc}
use greeg.Base.{
  ℕ, zero, suc, ◌+◌, ◌*◌, ◌/◌, ◌%◌, ◌^◌, ◌<◌, ◌≡◌, inl, inr, refl, sym, ap, ◌∙◌, subst, arith, true,
  false, some, ◌++◌, Bytes, ltb, Bool-cases, ok,
}
use greeg.Spill.Varint.{put_varint_loop, put_varint, varint_loop, varint}

no_wrap : (a : ℕ) → a < 18446744073709551616 → a % 18446744073709551616 ≡ a
no_wrap a h = omega arith

two_pow_add_seven : (s : ℕ) → 2 ^ (s + 7) ≡ 128 * 2 ^ s
two_pow_add_seven s = simp towards_suc (omega arith)

whole : (v : ℕ) → v % 128 + v / 128 * 128 ≡ v
whole v = omega arith

-- The part that a byte holds, and the rest.
split_product : (v p : ℕ) → v % 128 * p + v / 128 * (128 * p) ≡ v * p
split_product v p =
    ap (λ t. v % 128 * p + t) (sym (mul_assoc (v / 128) 128 p))
    ∙ sym (add-mul (v % 128) (v / 128 * 128) p)
    ∙ ap (λ t. t * p) (whole v)

last : (s : ℕ) → s + 7 * 0 ≡ 63 → 63 ≡ s
last s h = omega arith

last_byte :
    (v acc : ℕ) (rest : Bytes)
    → v * 2 ^ 63 < 18446744073709551616
    → varint_loop (put_varint_loop 0 v ++ rest) acc 63 ≡ ok (some (acc + v * 2 ^ 63, rest))
unfolding put_varint_loop varint_loop
last_byte v acc rest b = ground arith

varint_loop-put :
    (k s v acc : ℕ) (rest : Bytes)
    → s + 7 * k ≡ 63
    → v * 2 ^ s < 18446744073709551616
    → varint_loop (put_varint_loop k v ++ rest) acc s ≡ ok (some (acc + v * 2 ^ s, rest))
unfolding put_varint_loop varint_loop
varint_loop-put zero s v acc rest h b =
    subst
      (λ t.
        v * 2 ^ t < 18446744073709551616
        → varint_loop (put_varint_loop 0 v ++ rest) acc t ≡ ok (some (acc + v * 2 ^ t, rest)))
      (last s h) (λ c. last_byte v acc rest c) b
varint_loop-put (suc k) s v acc rest h b = elim (Bool-cases (ltb v 128)) [
  | inl e ↦
      let small : v % 256 ≡ v = ground arith in
      let low : v % 128 ≡ v = ground arith in
      rw (e, put_varint_loop, small, e, varint_loop, small, low, no_wrap (v * 2 ^ s) b) refl
  | inr e ↦
      let more : ltb (v % 128 + 128) 128 ≡ false = ground arith in
      let low : (v % 128 + 128) % 128 ≡ v % 128 = omega arith in
      let fits : ltb (s + 7) 64 ≡ true = ground arith in
      let power = two_pow_add_seven s in
      let parts = split_product v (2 ^ s) in
      rw
        (
          e,
          put_varint_loop,
          more,
          varint_loop,
          fits,
          varint_loop,
          low,
          no_wrap (v % 128 * 2 ^ s) (omega arith),
        )
        (varint_loop-put k (s + 7) (v / 128) (acc + v % 128 * 2 ^ s) rest (omega arith)
            (rw power (omega arith))
          ∙ ap (λ t. ok (some (t, rest))) (rw power (omega arith)))
]

-- What stands behind the number is left.
pub varint-put_varint :
    (v : ℕ) (rest : Bytes)
    → v < 18446744073709551616
    → varint (put_varint v ++ rest) ≡ ok (some (v, rest))
unfolding varint put_varint
varint-put_varint v rest h =
    varint_loop-put 9 0 v 0 rest (omega arith) (omega arith)
    ∙ ap (λ t. ok (some (t, rest))) (omega arith)
