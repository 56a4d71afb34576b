-- ===== src/Base/Scan.antt =====
-- A `while i < n` loop that moves an index forward, with the fuel that is always enough: the loop
-- goes on at most once for each index.
use Prim.Native.Nat.{ℕ, zero, suc, ◌+◌, ◌≤◌, ◌<◌}
use mathlib.Core.Path.{◌≡◌, refl}
use mathlib.Core.Logic.{◌⊎◌, inl, inr}
use mathlib.Core.Bool.{true, false}
use native.Mathlib.Omega.{arith}
use greeg.Base.Tests.{ltb, Bool-cases}

-- One round: the index moves on by `suc k` bytes, or by `k` bytes at a `break`.
pub data Next (S : Type 0) : Type 0 where
  on : ℕ → S → Next S
  stop : ℕ → Next S

module _ {S : Type 0} where
  unfoldable pub scan : (ℕ → S → Next S) → ℕ → ℕ → ℕ → S → ℕ
  scan step n zero i s = i
  scan step n (suc fuel) i s = elim (ltb i n) [
    | false ↦ i
    | true ↦ elim (step i s) [ on k s' ↦ scan step n fuel (i + suc k) s' | stop k ↦ i + k ]
  ]

  pub Next-cases : (x : Next S) → ((k : ℕ) × (s : S) × (x ≡ on k s)) ⊎ ((k : ℕ) × (x ≡ stop k))
  Next-cases (on k s) = inl (k, s, refl)
  Next-cases (stop k) = inr (k, refl)

  pub scan-ge : (step : ℕ → S → Next S) (n fuel i : ℕ) (s : S) → i ≤ scan step n fuel i s
  unfolding scan
  scan-ge step n zero i s = omega arith
  scan-ge step n (suc fuel) i s = elim (Bool-cases (ltb i n)) [
    | inr e ↦ rw (e, scan) (omega arith)
    | inl e ↦ elim (Next-cases (step i s)) [
      | inl (k, s', f) ↦ rw (e, scan, f, scan) (omega (arith, scan-ge step n fuel (i + suc k) s'))
      | inr (k, f) ↦ rw (e, scan, f, scan) (omega arith)
    ]
  ]

  -- Enough fuel: the loop ends at a `break`, or past the last index.
  pub record Broke (step : ℕ → S → Next S) (n i result : ℕ) : Type 0 where
    pub at : ℕ
    pub state : S
    pub last : ℕ
    pub after : i ≤ at
    pub before : at < n
    pub broke : step at state ≡ stop last
    pub result_eq : result ≡ at + last

  pub scan-ends :
      (step : ℕ → S → Next S) (n fuel i : ℕ) (s : S)
      → n ≤ i + fuel
      → Broke step n i (scan step n fuel i s) ⊎ (n ≤ scan step n fuel i s)
  unfolding scan
  scan-ends step n zero i s h = inr (omega arith)
  scan-ends step n (suc fuel) i s h = elim (Bool-cases (ltb i n)) [
    | inr e ↦ rw (e, scan) (inr (ground arith))
    | inl e ↦ elim (Next-cases (step i s)) [
      | inl (k, s', f) ↦
          rw (e, scan, f, scan)
            (elim (scan-ends step n fuel (i + suc k) s' (omega arith)) [
              | inl b ↦ inl (record {
                at = b.at;
                state = b.state;
                last = b.last;
                after = (let a = b.after in omega arith);
                before = b.before;
                broke = b.broke;
                result_eq = b.result_eq;
              })
              | inr p ↦ inr p
            ])
      | inr (k, f) ↦
          rw (e, scan, f, scan)
            (inl (record {
              at = i;
              state = s;
              last = k;
              after = omega arith;
              before = ground arith;
              broke = f;
              result_eq = refl;
            }))
    ]
  ]

  -- What every round keeps holds where the loop ends.
  pub scan_inv :
      (P : ℕ → Type 0) (step : ℕ → S → Next S) (n : ℕ)
      → ((i : ℕ) (s s' : S) (k : ℕ) → i < n → P i → step i s ≡ on k s' → P (i + suc k))
      → ((i : ℕ) (s : S) (k : ℕ) → i < n → P i → step i s ≡ stop k → P (i + k))
      → (fuel i : ℕ) (s : S) → P i
      → P (scan step n fuel i s)
  unfolding scan
  scan_inv P step n f g zero i s p = p
  scan_inv P step n f g (suc fuel) i s p = elim (Bool-cases (ltb i n)) [
    | inr e ↦ rw (e, scan) p
    | inl e ↦
        let lt : i < n = ground arith in
        elim (Next-cases (step i s)) [
          | inl (k, s', h) ↦
              rw (e, scan, h, scan) (scan_inv P step n f g fuel (i + suc k) s' (f i s s' k lt p h))
          | inr (k, h) ↦ rw (e, scan, h, scan) (g i s k lt p h)
        ]
  ]
