-- ===== src/Lexer/Kept.antt =====
-- What a lexer keeps from round to round: its spans are in order and apart, and no brace is in one.
use greeg.Base.{
  ℕ, ◌-◌, ◌≤◌, ◌<◌, ◌≡◌, ◌≢◌, ◌⊎◌, inl, inr, sym, ap, ◌∙◌, arith, Bool, true, false, List, [], ◌∷◌,
  ◌++◌, Bytes, length, ltb, leb, All, Bool-cases,
}
use mathlib.Core.Bool.{true≢false}
use greeg.Lexer.{Span, Brace, Lexed, byte, is_ascii_alphabetic}

pub newline-ne_alpha : (b : ℕ) → b ≡ b'\n' → is_ascii_alphabetic b ≡ true → ⊥
unfolding is_ascii_alphabetic
newline-ne_alpha b e h = ground arith

-- In order: each span ends before those after it start, each brace stands before those after it.
abbrev pub Sorted : List Span → Type 0
Sorted [] = Unit
Sorted (s ∷ spans) = All (λ (t : Span). s.end ≤ t.start) spans × Sorted spans

abbrev pub Ascending : List Brace → Type 0
Ascending [] = Unit
Ascending (b ∷ braces) = All (λ (c : Brace). b.off < c.off) braces × Ascending braces

module _ {A : Type 0} where
  pub All-push : (P : A → Type 0) (l : List A) (x : A) → All P l → P x → All P (l ++ x ∷ [])
  All-push P [] x a p = (p, tt)
  All-push P (y ∷ l) x a p = (a.0, All-push P l x a.1 p)

  pub All-imp : (P Q : A → Type 0) → ((x : A) → P x → Q x) → (l : List A) → All P l → All Q l
  All-imp P Q f [] a = tt
  All-imp P Q f (x ∷ l) a = (f x a.0, All-imp P Q f l a.1)

pub Sorted-push :
    (spans : List Span) (x : Span)
    → Sorted spans
    → All (λ (s : Span). s.end ≤ x.start) spans
    → Sorted (spans ++ x ∷ [])
Sorted-push [] x s a = (tt, tt)
Sorted-push (t ∷ spans) x s a =
    (All-push (λ (u : Span). t.end ≤ u.start) spans x s.0 a.0, Sorted-push spans x s.1 a.1)

pub Ascending-push :
    (braces : List Brace) (x : Brace)
    → Ascending braces
    → All (λ (b : Brace). b.off < x.off) braces
    → Ascending (braces ++ x ∷ [])
Ascending-push [] x s a = (tt, tt)
Ascending-push (t ∷ braces) x s a =
    (All-push (λ (u : Brace). t.off < u.off) braces x s.0 a.0, Ascending-push braces x s.1 a.1)

module _ (src : Bytes) (strict : Bool) where
  -- The span that ends at `e` does not run on into a string's prefix.
  abbrev pub Barrier : ℕ → Type 0
  Barrier e =
      (is_ascii_alphabetic (byte src (e - 1)) ≡ false) ⊎ (byte src e ≡ b'\n') ⊎ (length src ≤ e)

  -- A span up to the index `i`.
  pub record IsSpan (i : ℕ) (s : Span) : Type 0 where
    pub nonempty : s.start < s.end
    pub in_file : s.end ≤ length src
    pub passed : s.end ≤ i
    pub barrier : strict ≡ true → Barrier s.end

  -- A brace before the index `i`, outside the spans.
  pub record IsBrace (i : ℕ) (spans : List Span) (b : Brace) : Type 0 where
    pub before : b.off < i
    pub is_brace : is_ascii_alphabetic (byte src b.off) ≡ false
    pub outside : All (λ (s : Span). (b.off < s.start) ⊎ (s.end ≤ b.off)) spans

  pub record Kept (i : ℕ) (out : Lexed) : Type 0 where
    pub sorted : Sorted out.spans
    pub spans_ok : All (IsSpan i) out.spans
    pub ascending : Ascending out.braces
    pub braces_ok : All (IsBrace i out.spans) out.braces

  -- A span that starts at `start` may be pushed when the index is `i`.
  pub data Clear (i : ℕ) : ℕ → Type 0 where
    here : Clear i i
    prefix :
        {start : ℕ}
        → strict ≡ true
        → i < length src
        → byte src i ≢ b'\n'
        → ((k : ℕ) → start ≤ k → k < i → is_ascii_alphabetic (byte src k) ≡ true)
        → Clear i start

  pub Clear-span : (i start : ℕ) (s : Span) → Clear i start → IsSpan i s → s.end ≤ start
  Clear-span i start s here p = p.passed
  Clear-span i start s (prefix on lt ne alpha) p = elim (Bool-cases (leb s.end start)) [
    | inl e ↦ ground arith
    | inr e ↦
        let beyond : start < s.end = ground arith in
        let small = p.nonempty in
        let top = p.passed in
        absurd (elim (p.barrier on) [
          | inl b ↦ true≢false (sym (alpha (s.end - 1) (omega arith) (omega arith)) ∙ b)
          | inr (inl b) ↦ elim (Bool-cases (ltb s.end i)) [
            | inl f ↦ newline-ne_alpha (byte src s.end) b (alpha s.end (omega arith) (ground arith))
            | inr f ↦ let same : s.end ≡ i = ground arith in ne (ap (byte src) (sym same) ∙ b)
          ]
          | inr (inr b) ↦ omega arith
        ])
  ]

  pub Clear-brace :
      (i start : ℕ) (spans : List Span) (b : Brace)
      → Clear i start
      → IsBrace i spans b
      → b.off < start
  Clear-brace i start spans b here p = p.before
  Clear-brace i start spans b (prefix on lt ne alpha) p = elim (Bool-cases (ltb b.off start)) [
    | inl e ↦ ground arith
    | inr e ↦ absurd (true≢false (sym (alpha b.off (ground arith) p.before) ∙ p.is_brace))
  ]
