-- ===== src/Gram/Windows.antt =====
-- The specification of trigram extraction: which keys a buffer holds.
use greeg.Base.{ℕ, ◌<◌, ◌≡◌, ◌≢◌, ◌⊎◌, inl, inr, [], ◌∷◌, ◌++◌, arith, Bytes, length}
use greeg.Gram.{key3}

-- Three consecutive bytes of the buffer, none of them a line feed, have the key `k`.
pub data HasGram (k : ℕ) : Bytes → Type 0 where
  here :
      (a b c : ℕ) (rest : Bytes)
      → a ≢ b'\n'
      → b ≢ b'\n'
      → c ≢ b'\n'
      → k ≡ key3 a b c
      → HasGram k (a ∷ b ∷ c ∷ rest)
  there : (x : ℕ) {bs : Bytes} → HasGram k bs → HasGram k (x ∷ bs)

pub HasGram-append_left : {k : ℕ} (xs ys : Bytes) → HasGram k ys → HasGram k (xs ++ ys)
HasGram-append_left [] ys h = h
HasGram-append_left (x ∷ xs) ys h = there x (HasGram-append_left xs ys h)

pub HasGram-append_right : {k : ℕ} {xs : Bytes} (ys : Bytes) → HasGram k xs → HasGram k (xs ++ ys)
HasGram-append_right ys (here a b c rest p q r e) = here a b c (rest ++ ys) p q r e
HasGram-append_right ys (there x h) = there x (HasGram-append_right ys h)

-- A buffer's keys are those of any part of it, and more.
pub HasGram-infix :
    {k : ℕ} (pre : Bytes) {xs : Bytes} (post : Bytes)
    → HasGram k xs
    → HasGram k (pre ++ (xs ++ post))
HasGram-infix pre {xs} post h = HasGram-append_left pre (xs ++ post) (HasGram-append_right post h)

-- What the first bytes allow: the window at the front, or one further on.
pub HasGram-cons_cases :
    {k a b c : ℕ} {rest : Bytes}
    → HasGram k (a ∷ b ∷ c ∷ rest)
    → ((a ≢ b'\n') × (b ≢ b'\n') × (c ≢ b'\n') × (k ≡ key3 a b c)) ⊎ HasGram k (b ∷ c ∷ rest)
HasGram-cons_cases (here a b c rest p q r e) = inl (p, q, r, e)
HasGram-cons_cases (there x h) = inr h

-- A buffer of fewer than three bytes has no key.
pub HasGram-short : {k : ℕ} {bs : Bytes} → HasGram k bs → length bs < 3 → ⊥
HasGram-short (here a b c rest p q r e) l = omega arith
HasGram-short (there x h) l = HasGram-short h (omega arith)

-- A line feed ends every window that would hold it.
pub HasGram-newline_first : {k a : ℕ} {xs : Bytes} → a ≡ b'\n' → HasGram k (a ∷ xs) → HasGram k xs
HasGram-newline_first e (here a b c rest p q r x) = absurd (p e)
HasGram-newline_first e (there x h) = h

pub HasGram-newline_second :
    {k x a : ℕ} {xs : Bytes} → a ≡ b'\n' → HasGram k (x ∷ a ∷ xs) → HasGram k (a ∷ xs)
HasGram-newline_second e (here a b c rest p q r x) = absurd (q e)
HasGram-newline_second e (there x h) = h

pub HasGram-newline_third :
    {k x y a : ℕ} {xs : Bytes} → a ≡ b'\n' → HasGram k (x ∷ y ∷ a ∷ xs) → HasGram k (y ∷ a ∷ xs)
HasGram-newline_third e (here a b c rest p q r x) = absurd (r e)
HasGram-newline_third e (there x h) = h
