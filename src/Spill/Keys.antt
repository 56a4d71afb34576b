-- ===== src/Spill/Keys.antt =====
-- crates/greeg-index/src/external.rs: `Key for u32`, the key of a gram.
use greeg.Base.{
  Option, none, some, ℕ, ◌+◌, ◌*◌, ◌/◌, ◌%◌, ◌<◌, ◌≡◌, refl, ap, arith, [], ◌∷◌, Bytes, ltb, ◌==◌,
  ◌||◌, ◌&&◌,
}
use greeg.Base.Order.{less}

-- `to_be_bytes`
unfoldable pub write_key : ℕ → Bytes
write_key v = (v / 16777216) % 256 ∷ (v / 65536) % 256 ∷ (v / 256) % 256 ∷ v % 256 ∷ []

-- `u32::from_be_bytes`: `copy_from_slice` panics on another length.
unfoldable pub from_key_bytes : Bytes → Option ℕ
from_key_bytes (a ∷ b ∷ c ∷ d ∷ []) = some (((a * 256 + b) * 256 + c) * 256 + d)
from_key_bytes b = none

from_key_bytes-write_key : (v : ℕ) → v < 4294967296 → from_key_bytes (write_key v) ≡ some v
unfolding from_key_bytes write_key
from_key_bytes-write_key v b = ap some (omega arith)

byte_over_one :
    (x y m n : ℕ)
    → m < 256
    → n < 256
    → (ltb x y || x == y && ltb m n) ≡ ltb (x * 256 + m) (y * 256 + n)
byte_over_one x y m n a b = ground arith

byte_over_two :
    (x y m n : ℕ)
    → m < 65536
    → n < 65536
    → (ltb x y || x == y && ltb m n) ≡ ltb (x * 65536 + m) (y * 65536 + n)
byte_over_two x y m n a b = ground arith

byte_over_three :
    (x y m n : ℕ)
    → m < 16777216
    → n < 16777216
    → (ltb x y || x == y && ltb m n) ≡ ltb (x * 16777216 + m) (y * 16777216 + n)
byte_over_three x y m n a b = ground arith

less_one : (x y : ℕ) → less (x ∷ []) (y ∷ []) ≡ ltb x y
unfolding less
less_one x y = ground arith

digits :
    (v : ℕ)
    → v < 4294967296
    → (v / 16777216) % 256 * 16777216
        + ((v / 65536) % 256 * 65536 + ((v / 256) % 256 * 256 + v % 256))
      ≡ v
digits v b = omega arith

less-write_key :
    (v w : ℕ) → v < 4294967296 → w < 4294967296 → less (write_key v) (write_key w) ≡ ltb v w
unfolding less write_key
less-write_key v w a b =
    rw
      (
        less_one (v % 256) (w % 256),
        byte_over_one ((v / 256) % 256) ((w / 256) % 256) (v % 256) (w % 256) (omega arith)
            (omega arith),
        byte_over_two ((v / 65536) % 256) ((w / 65536) % 256) ((v / 256) % 256 * 256 + v % 256)
            ((w / 256) % 256 * 256 + w % 256) (omega arith) (omega arith),
        byte_over_three ((v / 16777216) % 256) ((w / 16777216) % 256)
            ((v / 65536) % 256 * 65536 + ((v / 256) % 256 * 256 + v % 256))
            ((w / 65536) % 256 * 65536 + ((w / 256) % 256 * 256 + w % 256)) (omega arith)
            (omega arith),
      )
      (rw (digits v a, digits w b) refl)

-- The key of a `u32` reads back as it, and the keys of two are in the order of the numbers.
pub write_key_lem :
    (v w : ℕ)
    → v < 4294967296
    → w < 4294967296
    → (from_key_bytes (write_key v) ≡ some v) × (less (write_key v) (write_key w) ≡ ltb v w)
write_key_lem v w a b = (from_key_bytes-write_key v a, less-write_key v w a b)
