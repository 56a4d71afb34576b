-- ===== src/Base/Table.antt =====
-- A fact about every number of a range, checked by evaluation.
use Prim.Native.Nat.{ℕ, zero, suc, ◌+◌, ◌≤◌, ◌<◌}
use mathlib.Core.Path.{◌≡◌, subst}
use mathlib.Core.Logic.{inl, inr}
use mathlib.Core.Bool.{Bool, true, false}
use native.Mathlib.Omega.{arith}
use greeg.Base.Tests.{if◌then◌else◌, ◌==◌, ==_iff, Bool-cases}

unfoldable pub in_range : (ℕ → Bool) → ℕ → ℕ → Bool
in_range test first zero = true
in_range test first (suc count) =
    let rest = in_range test (suc first) count in if test first then rest else false

pub in_range_lem :
    (test : ℕ → Bool) (count first : ℕ)
    → in_range test first count ≡ true
    → (k : ℕ) → first ≤ k
    → k < first + count
    → test k ≡ true
unfolding in_range
in_range_lem test zero first table k low high = absurd (omega arith)
in_range_lem test (suc count) first table k low high = elim (Bool-cases (test first)) [
  | inr off ↦ let broken = rw off at table in cc
  | inl on ↦ elim (Bool-cases (first == k)) [
    | inl same ↦ subst (λ j. test j ≡ true) ((==_iff first k).0 same) on
    | inr other ↦
        in_range_lem test count (suc first) (rw on at table) k (ground arith) (omega arith)
  ]
]
