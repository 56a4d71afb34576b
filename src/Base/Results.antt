-- ===== src/Base/Results.antt =====
-- Rust's `Result<A, E>`, and `?` as the monad's bind.

pub data Result {ℓ κ} (E : Type ℓ) (A : Type κ) : Type (ℓ ⊔ κ) where
  err : E → Result E A
  ok : A → Result E A

module _ {E A B : Type 0} where
  infixl 5 ◌>>=◌
  abbrev pub ◌>>=◌ : Result E A → (A → Result E B) → Result E B
  result >>= rest = elim result [ err reason ↦ err reason | ok value ↦ rest value ]
