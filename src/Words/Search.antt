-- ===== src/Words/Search.antt =====
-- crates/greeg-index/src/words.rs: `find`, the binary search of the dictionary.
use mathlib.Core.Bool.{true≢false}
use greeg.Base.{
  ℕ, zero, suc, ◌+◌, ◌-◌, ◌/◌, ◌≤◌, ◌<◌, ◌≡◌, ◌≢◌, ◌⊎◌, inl, inr, refl, sym, ap, subst, ◌∙◌, arith,
  true, false, Option, none, some, Bytes, length, ltb, bytes_eq, bytes_eq_iff, Bool-cases, ok,
}
use greeg.Base.Order.{less, less_irrefl, less_trans, less_total}
use greeg.Integrity.{Checked}
use greeg.Words.View.{WordsView, word, is_bad, find_loop, find}

-- The dictionary that a view without blocks has: so many words, in ascending order.
pub record IsDictionary (digest : Bytes → Bytes) (v : WordsView) (at : ℕ → Bytes) : Type 0 where
  pub reads :
      (i : ℕ) (c : Checked) → i < length v.counts.items → word digest none v i c ≡ (ok (at i), c)
  pub sorted : (i j : ℕ) → i < j → j < length v.counts.items → less (at i) (at j) ≡ true

-- The place of a word between two bounds, or that it is not there.
abbrev pub Found : (ℕ → Bytes) → Bytes → ℕ → ℕ → Option ℕ → Type 0
Found at w lo hi none = (i : ℕ) → lo ≤ i → i < hi → at i ≢ w
Found at w lo hi (some i) = (lo ≤ i) × (i < hi) × (at i ≡ w)

module _ (digest : Bytes → Bytes) (v : WordsView) (at : ℕ → Bytes) (d : IsDictionary digest v at)
    (w : Bytes) (c : Checked) where
  apart : less w w ≡ true → ⊥
  apart l = true≢false (sym l ∙ less_irrefl w)

  ordered :
      (i j : ℕ) → i ≤ j → j < length v.counts.items → (at i ≡ at j) ⊎ (less (at i) (at j) ≡ true)
  ordered i j l n = elim (Bool-cases (ltb i j)) [
    | inl g ↦ inr (d.sorted i j (ground arith) n)
    | inr g ↦ let same : i ≡ j = ground arith in inl (ap at same)
  ]

  not_before :
      (i mid : ℕ) → i ≤ mid → mid < length v.counts.items → less (at mid) w ≡ true → at i ≢ w
  not_before i mid l n m e = elim (ordered i mid l n) [
    | inl s ↦ apart (subst (λ x. less x w ≡ true) (sym s ∙ e) m)
    | inr s ↦ apart (subst (λ x. less x w ≡ true) e (less_trans (at i) (at mid) w s m))
  ]

  not_after : (i mid : ℕ) → mid ≤ i → i < length v.counts.items → less w (at mid) ≡ true → at i ≢ w
  not_after i mid l n m e = elim (ordered mid i l n) [
    | inl s ↦ apart (subst (λ x. less w x ≡ true) (s ∙ e) m)
    | inr s ↦ apart (subst (λ x. less w x ≡ true) e (less_trans w (at mid) (at i) m s))
  ]

  after_word : (x : Bytes) → less x w ≡ false → bytes_eq x w ≡ false → less w x ≡ true
  after_word x l s = elim (less_total x w) [
    | inl same ↦ absurd (true≢false (sym ((bytes_eq_iff x w).1 same) ∙ s))
    | inr (inl p) ↦ absurd (true≢false (sym p ∙ l))
    | inr (inr p) ↦ p
  ]

  Found-above :
      (lo mid hi : ℕ) (o : Option ℕ)
      → lo ≤ mid
      → mid < hi
      → hi ≤ length v.counts.items
      → less (at mid) w ≡ true
      → Found at w (mid + 1) hi o
      → Found at w lo hi o
  Found-above lo mid hi none a b n l f = λ i p q. elim (Bool-cases (ltb mid i)) [
    | inl g ↦ f i (ground arith) q
    | inr g ↦ not_before i mid (ground arith) (omega arith) l
  ]
  Found-above lo mid hi (some i) a b n l (p, q, e) = (omega arith, q, e)

  Found-below :
      (lo mid hi : ℕ) (o : Option ℕ)
      → lo ≤ mid
      → mid < hi
      → hi ≤ length v.counts.items
      → less w (at mid) ≡ true
      → Found at w lo mid o
      → Found at w lo hi o
  Found-below lo mid hi none a b n l f = λ i p q. elim (Bool-cases (ltb i mid)) [
    | inl g ↦ f i p (ground arith)
    | inr g ↦ not_after i mid (ground arith) (omega arith) l
  ]
  Found-below lo mid hi (some i) a b n l (p, q, e) = (p, omega arith, e)

  find_loop-Found :
      (fuel lo hi : ℕ)
      → hi - lo < fuel
      → hi ≤ length v.counts.items
      → (o : Option ℕ) × (find_loop digest none v w fuel lo hi c ≡ (ok o, c)) × Found at w lo hi o
  unfolding find_loop is_bad
  find_loop-Found zero lo hi f n = absurd (omega arith)
  find_loop-Found (suc fuel) lo hi f n = elim (Bool-cases (ltb lo hi)) [
    | inr e ↦ (none, rw (e, find_loop) refl, λ i p q. ground arith)
    | inl e ↦
        let mid = (lo + hi) / 2 in
        let low : lo ≤ mid = ground arith in
        let high : mid < hi = ground arith in
        let r = d.reads mid c (omega arith) in
        elim (Bool-cases (less (at mid) w)) [
          | inl l ↦
              let (o, g, h) = find_loop-Found fuel (mid + 1) hi (omega arith) n in
              (o, cc, Found-above lo mid hi o low high n l h)
          | inr l ↦ elim (Bool-cases (bytes_eq (at mid) w)) [
            | inl s ↦ (some mid, cc, (low, high, (bytes_eq_iff (at mid) w).0 s))
            | inr s ↦
                let (o, g, h) = find_loop-Found fuel lo mid (omega arith) (omega arith) in
                (o, cc, Found-below lo mid hi o low high n (after_word (at mid) l s) h)
          ]
        ]
  ]

  -- Where the words of a view without blocks are in ascending order, `find` gives the place of the word,
  -- and nothing where no place has it; its fuel is enough.
  pub find-Found :
      (o : Option ℕ) × (find digest none v w c ≡ (ok o, c)) × Found at w 0 (length v.counts.items) o
  unfolding find
  find-Found =
      let n = length v.counts.items in find_loop-Found (suc n) 0 n (omega arith) (omega arith)
