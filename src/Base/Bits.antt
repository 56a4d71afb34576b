-- ===== src/Base/Bits.antt =====
-- One bit of a machine word, by its binary digits: `w & (1 << b)` and `w | (1 << b)`.
use Prim.Native.Nat.{ℕ, zero, suc, ◌+◌, ◌*◌, ◌/◌, ◌%◌}
use mathlib.Core.Path.{◌≡◌, refl, ap}
use mathlib.Core.Logic.{◌≢◌}
use mathlib.Core.Bool.{Bool, true, false}
use native.Mathlib.Omega.{arith}
use greeg.Base.Tests.{◌==◌}

-- `w & (1 << b) != 0`
unfoldable pub test_bit : ℕ → ℕ → Bool
test_bit w zero = w % 2 == 1
test_bit w (suc b) = test_bit (w / 2) b

-- `w | (1 << b)`
unfoldable pub set_bit : ℕ → ℕ → ℕ
set_bit w zero = w / 2 * 2 + 1
set_bit w (suc b) = set_bit (w / 2) b * 2 + w % 2

half_digit : (u w : ℕ) → (u * 2 + w % 2) / 2 ≡ u
half_digit u w = omega arith

half_odd : (w : ℕ) → (w / 2 * 2 + 1) / 2 ≡ w / 2
half_odd w = omega arith

low_digit : (u w : ℕ) → (u * 2 + w % 2) % 2 ≡ w % 2
low_digit u w = omega arith

pub test_bit-set_bit_self : (w b : ℕ) → test_bit (set_bit w b) b ≡ true
unfolding test_bit set_bit
test_bit-set_bit_self w zero = ground arith
test_bit-set_bit_self w (suc b) =
    rw (half_digit (set_bit (w / 2) b) w) (test_bit-set_bit_self (w / 2) b)

pub test_bit-set_bit_ne : (w b c : ℕ) → b ≢ c → test_bit (set_bit w b) c ≡ test_bit w c
unfolding test_bit set_bit
test_bit-set_bit_ne w zero zero h = absurd (h refl)
test_bit-set_bit_ne w zero (suc c) h = rw (half_odd w)
test_bit-set_bit_ne w (suc b) zero h = rw (low_digit (set_bit (w / 2) b) w)
test_bit-set_bit_ne w (suc b) (suc c) h =
    rw (half_digit (set_bit (w / 2) b) w) (test_bit-set_bit_ne (w / 2) b c (λ e. h (ap suc e)))

pub test_bit_zero : (b : ℕ) → test_bit 0 b ≡ false
unfolding test_bit
test_bit_zero zero = refl
test_bit_zero (suc b) = test_bit_zero b
