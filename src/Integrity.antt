-- ===== src/Integrity.antt =====
-- crates/greeg-index/src/integrity.rs: `Blocks`, which verifies the blocks of a component as they are
-- read. The digest of a block (the crate xxhash_rust) is a parameter. What is shared by opens of one
-- file (`Checked`) and the process's `FAILED` are passed along; the debug assertion of `range` is
-- left out.
pub mod Honest
pub mod Trailer
pub mod Authentic
pub mod Refusals
mod Tests
use Prim.Native.Nat.{min, max}
use greeg.Base.{
  ℕ, zero, suc, ◌+◌, ◌-◌, ◌*◌, ◌/◌, ◌%◌, Bool, true, false, ◌&&◌, Option, none, some, List, [], ◌∷◌,
  ◌++◌, Bytes, length, take, drop, ltb, leb, ◌==◌, if◌then◌else◌, bytes_eq,
}
use greeg.Base.Bits.{test_bit, set_bit}

abbrev pub digest_len : ℕ
digest_len = 8

-- `len.div_ceil(block.max(1)) * DIGEST`
unfoldable pub trailer_len : ℕ → ℕ → ℕ
trailer_len len block = (len + max block 1 - 1) / max block 1 * digest_len

-- `Checked` and `FAILED`; `done` maps an index to its word of bits.
pub record Checked : Type 0 where
  pub done : ℕ → ℕ
  pub bad : Bool
  pub failed : Bool

abbrev pub fresh : Checked
fresh = record { done = λ w. 0; bad = false; failed = false }

unfoldable pub fail : Checked → Checked
fail c = record c { bad = true; failed = true }

-- `word.load() & bit != 0`, and `word.fetch_or(bit)`
unfoldable pub is_done : Checked → ℕ → Bool
is_done c i = test_bit (c.done (i / 64)) (i % 64)

unfoldable pub mark : ℕ → Checked → Checked
mark i c = record c { done = λ w. if w == i / 64 then set_bit (c.done w) (i % 64) else c.done w }

pub record Blocks : Type 0 where
  pub body : Bytes
  pub trailer : Bytes
  pub block : ℕ

-- `Blocks::new`, less the map of what other opens verified.
unfoldable pub new : Bytes → Bytes → ℕ → Blocks
new body trailer block = record { body = body; trailer = trailer; block = max block 1 }

module _ (digest : Bytes → Bytes) where
  -- `for b in body.chunks(block)`, with fuel for so many bytes.
  unfoldable pub trailer_of : ℕ → Bytes → ℕ → Bytes
  trailer_of fuel [] block = []
  trailer_of zero (x ∷ body) block = []
  trailer_of (suc fuel) (x ∷ body) block =
      digest (take block (x ∷ body)) ++ trailer_of fuel (drop block (x ∷ body)) block

  unfoldable pub trailer : Bytes → ℕ → Bytes
  unfolding trailer_of
  trailer body block = trailer_of (length body) body block

  -- Block `i` has the digest that the trailer holds; `none` is a slice out of range.
  unfoldable pub check : Blocks → ℕ → Option Bool
  check b i =
      let start = i * b.block in
      let end = min (start + b.block) (length b.body) in
      if leb start end && leb ((i + 1) * digest_len) (length b.trailer)
      then some (
          bytes_eq (digest (take (end - start) (drop start b.body)))
            (take digest_len (drop (i * digest_len) b.trailer)))
      else none

  -- `verify` over the blocks left: `none` is a panic.
  unfoldable pub verify_loop : Blocks → ℕ → ℕ → Checked → Option Bool × Checked
  unfolding is_done fail mark
  verify_loop b zero i c = (some true, c)
  verify_loop b (suc n) i c = elim (is_done c i) [
    | true ↦ verify_loop b n (suc i) c
    | false ↦ elim (check b i) [
      | none ↦ (none, c)
      | some false ↦ (some false, fail c)
      | some true ↦ verify_loop b n (suc i) (mark i c)
    ]
  ]

  unfoldable pub verify : Blocks → ℕ → ℕ → Checked → Option Bool × Checked
  unfolding verify_loop
  verify b first last c = verify_loop b (last + 1 - first) first c

  -- A `usize` has 64 bits, for `checked_add`.
  unfoldable pub range : Blocks → ℕ → ℕ → Checked → Option Bool × Checked
  unfolding verify fail
  range b off len c =
      if c.bad
      then (some false, c)
      else if len == 0
      then (some true, c)
      else if ltb (off + len) 18446744073709551616 && leb (off + len) (length b.body)
      then verify b (off / b.block) ((off + len - 1) / b.block) c
      else (some false, fail c)

  unfoldable pub all : Blocks → Checked → Option Bool × Checked
  unfolding range
  all b c = range b 0 (length b.body) c
