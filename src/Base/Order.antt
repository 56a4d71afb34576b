-- ===== src/Base/Order.antt =====
-- The order of byte strings (`Ord` of `[u8]` and `Vec<u8>`).
use greeg.Base.{
  ◌≡◌, ◌⊎◌, inl, inr, refl, arith, Bool, true, false, ◌&&◌, ◌||◌, [], ◌∷◌, Bytes, ltb, ◌==◌,
}

unfoldable pub less : Bytes → Bytes → Bool
less [] [] = false
less [] (y ∷ ys) = true
less (x ∷ xs) [] = false
less (x ∷ xs) (y ∷ ys) = ltb x y || x == y && less xs ys

pub less_irrefl : (a : Bytes) → less a a ≡ false
unfolding less
less_irrefl [] = refl
less_irrefl (x ∷ a) = ground (arith, less_irrefl a)

pub less_trans : (a b c : Bytes) → less a b ≡ true → less b c ≡ true → less a c ≡ true
unfolding less
less_trans [] [] c p q = cc
less_trans [] (y ∷ b) [] p q = cc
less_trans [] (y ∷ b) (z ∷ c) p q = refl
less_trans (x ∷ a) [] c p q = cc
less_trans (x ∷ a) (y ∷ b) [] p q = cc
less_trans (x ∷ a) (y ∷ b) (z ∷ c) p q = ground (arith, less_trans a b c)

pub less_total : (a b : Bytes) → (a ≡ b) ⊎ ((less a b ≡ true) ⊎ (less b a ≡ true))
unfolding less
less_total [] [] = inl refl
less_total [] (y ∷ b) = inr (inl refl)
less_total (x ∷ a) [] = inr (inr refl)
less_total (x ∷ a) (y ∷ b) = elim (less_total a b) [
  | inl e ↦ ground arith
  | inr (inl e) ↦ ground arith
  | inr (inr e) ↦ ground arith
]
