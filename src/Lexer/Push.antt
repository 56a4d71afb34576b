-- ===== src/Lexer/Push.antt =====
-- What one round adds keeps the spans and braces in order, and the loop reaches the end.
use greeg.Base.{
  ℕ, zero, suc, ◌+◌, ◌≤◌, ◌<◌, ◌≡◌, inl, inr, refl, arith, Bool, true, false, List, [], ◌∷◌, ◌++◌,
  Bytes, length, ltb, Bool-cases,
}
use greeg.Lexer.{
  SpanKind, Span, Brace, Lexed, no_lexed, byte, as_u32, push_span, spanned, push_brace,
  is_ascii_alphabetic, lex_loop,
}
use greeg.Lexer.Kept.{
  All-push, All-imp, Sorted-push, Ascending-push, Barrier, IsSpan, IsBrace, Kept, Clear, Clear-span,
  Clear-brace,
}

as_u32-eq : (x : ℕ) → x < 4294967296 → as_u32 x ≡ x
as_u32-eq x h = omega arith

push_span-empty :
    (l : List Span) (start end : ℕ) (kind : SpanKind)
    → ltb start end ≡ false
    → push_span l start end kind ≡ l
unfolding push_span
push_span-empty l start end kind e = rw e refl

push_span-eq :
    (l : List Span) (start end : ℕ) (kind : SpanKind)
    → ltb start end ≡ true
    → end < 4294967296
    → push_span l start end kind ≡ l ++ record { start = start; end = end; kind = kind } ∷ []
unfolding push_span
push_span-eq l start end kind e h =
    let a : as_u32 start ≡ start = as_u32-eq start (ground arith) in
    let b : as_u32 end ≡ end = as_u32-eq end h in rw (e, a, b) refl

module _ (src : Bytes) (strict : Bool) (small : length src < 4294967296) where
  IsSpan-moves : (i j : ℕ) (s : Span) → i ≤ j → IsSpan src strict i s → IsSpan src strict j s
  IsSpan-moves i j s h p = record {
    nonempty = p.nonempty;
    in_file = p.in_file;
    passed = (let q = p.passed in omega arith);
    barrier = p.barrier;
  }

  IsBrace-moves :
      (i j : ℕ) (spans : List Span) (b : Brace)
      → i ≤ j
      → IsBrace src strict i spans b
      → IsBrace src strict j spans b
  IsBrace-moves i j spans b h p = record {
    before = (let q = p.before in omega arith);
    is_brace = p.is_brace;
    outside = p.outside;
  }

  pub Kept-moves : (i j : ℕ) (out : Lexed) → i ≤ j → Kept src strict i out → Kept src strict j out
  Kept-moves i j out h k = record {
    sorted = k.sorted;
    spans_ok = All-imp _ _ (λ s. IsSpan-moves i j s h) out.spans k.spans_ok;
    ascending = k.ascending;
    braces_ok = All-imp _ _ (λ b. IsBrace-moves i j out.spans b h) out.braces k.braces_ok;
  }

  -- A span pushed at the index `i`, which moves on to `j`.
  pushed-Kept :
      (i j start end : ℕ) (kind : SpanKind) (out : Lexed)
      → Kept src strict i out
      → Clear src strict i start
      → i ≤ j
      → end ≤ j
      → end ≤ length src
      → (strict ≡ true → Barrier src strict end)
      → start < end
      → Kept src strict j (record out {
        spans = out.spans ++ record { start = start; end = end; kind = kind } ∷ [];
      })
  pushed-Kept i j start end kind out k c h g f b n =
      let x : Span = record { start = start; end = end; kind = kind } in
      record {
        sorted =
            Sorted-push out.spans x k.sorted
              (All-imp _ _ (λ s p. Clear-span src strict i start s c p) out.spans k.spans_ok);
        spans_ok =
            All-push _ out.spans x (All-imp _ _ (λ s. IsSpan-moves i j s h) out.spans k.spans_ok)
              (record { nonempty = n; in_file = f; passed = g; barrier = b });
        ascending = k.ascending;
        braces_ok =
            All-imp _ _
              (λ b p. record {
                before = (let q = p.before in omega arith);
                is_brace = p.is_brace;
                outside =
                    All-push _ out.spans x p.outside
                      (inl (Clear-brace src strict i start out.spans b c p));
              })
              out.braces k.braces_ok;
      }

  pub spanned-Kept :
      (i j start end : ℕ) (kind : SpanKind) (out : Lexed)
      → Kept src strict i out
      → Clear src strict i start
      → i ≤ j
      → end ≤ j
      → end ≤ length src
      → (strict ≡ true → Barrier src strict end)
      → Kept src strict j (spanned out start end kind)
  spanned-Kept i j start end kind out k c h g f b = elim (Bool-cases (ltb start end)) [
    | inl e ↦
        rw (push_span-eq out.spans start end kind e (omega arith))
          (pushed-Kept i j start end kind out k c h g f b (ground arith))
    | inr e ↦ rw (push_span-empty out.spans start end kind e) (Kept-moves i j out h k)
  ]

  pub push_brace-Kept :
      (i : ℕ) (open_brace : Bool) (out : Lexed)
      → i < length src
      → is_ascii_alphabetic (byte src i) ≡ false
      → Kept src strict i out
      → Kept src strict (i + 1) (push_brace i open_brace out)
  unfolding push_brace
  push_brace-Kept i o out l a k =
      let e : as_u32 i ≡ i = as_u32-eq i (omega arith) in
      rw e (record {
        sorted = k.sorted;
        spans_ok = All-imp _ _ (λ s. IsSpan-moves i (i + 1) s (omega arith)) out.spans k.spans_ok;
        ascending =
            Ascending-push out.braces (record { off = i; open_brace = o }) k.ascending
              (All-imp _ _ (λ b p. p.before) out.braces k.braces_ok);
        braces_ok =
            All-push _ out.braces (record { off = i; open_brace = o })
              (All-imp _ _ (λ b. IsBrace-moves i (i + 1) out.spans b (omega arith)) out.braces
                k.braces_ok)
              (record {
                before = omega arith;
                is_brace = a;
                outside = All-imp _ _ (λ s p. inr p.passed) out.spans k.spans_ok;
              });
      })

  -- What a round leaves: the index has moved on.
  abbrev pub Goes : ℕ → ℕ × Lexed → Type 0
  Goes i r = Kept src strict r.0 r.1 × (i < r.0)

  pub lex_loop-Kept :
      (body : ℕ → Lexed → ℕ × Lexed)
      → ((i : ℕ) (out : Lexed) → i < length src → Kept src strict i out → Goes i (body i out))
      → (fuel i : ℕ) (out : Lexed) → length src ≤ i + fuel
      → Kept src strict i out
      → Kept src strict
          (lex_loop body (length src) fuel i out).0
          (lex_loop body (length src) fuel i out).1
        × (length src ≤ (lex_loop body (length src) fuel i out).0)
  unfolding lex_loop
  lex_loop-Kept body f zero i out h k = (k, omega arith)
  lex_loop-Kept body f (suc fuel) i out h k = elim (Bool-cases (ltb i (length src))) [
    | inr e ↦ rw (e, lex_loop) (k, ground arith)
    | inl e ↦
        let (kept, on) = f i out (ground arith) k in
        rw (e, lex_loop)
          (lex_loop-Kept body f fuel (body i out).0 (body i out).1 (omega arith) kept)
  ]

  no_lexed-Kept : Kept src strict 0 no_lexed
  no_lexed-Kept = record { sorted = tt; spans_ok = tt; ascending = tt; braces_ok = tt }

  pub lex_loop-Kept_start :
      (body : ℕ → Lexed → ℕ × Lexed)
      → ((i : ℕ) (out : Lexed) → i < length src → Kept src strict i out → Goes i (body i out))
      → Kept src strict
          (lex_loop body (length src) (length src) 0 no_lexed).0
          (lex_loop body (length src) (length src) 0 no_lexed).1
        × (length src ≤ (lex_loop body (length src) (length src) 0 no_lexed).0)
  lex_loop-Kept_start body f =
      lex_loop-Kept body f (length src) 0 no_lexed (omega arith) no_lexed-Kept
