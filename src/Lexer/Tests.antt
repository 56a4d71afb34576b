-- ===== src/Lexer/Tests.antt =====
-- Runs of the lexers, and their theorems at concrete inputs.
use greeg.Base.{
  ℕ, suc, ◌+◌, ◌≤◌, ◌<◌, ◌≡◌, ◌↔◌, inl, inr, refl, sym, arith, true, false, Option, none, some, [],
  ◌∷◌, Bytes, In, length, ◌==◌, Bool-cases, Option-cases, ==_iff, if◌then◌else◌, starts_with, codes,
}
use mathlib.Core.Option.{some-injective, none-ne-some}
use greeg.Lexer.{SpanKind, Lexed, byte, Memchr, span_at, lex_loop, no_lexed, push_span, line_end}
use greeg.Base.Scan.{scan}
use greeg.Lexer.Lex.{Lang, ExtraLang, lex}
use greeg.Lexer.CLike.{c_like_body}
use greeg.Lexer.Reads.{starts_with-length}
use greeg.Lexer.SpanAt.{IsLexed, Holds, lex-IsLexed, span_at_iff}
use greeg.Lexer.Disjoint.{lex_c_like_ends}

first_index : ℕ → Bytes → Option ℕ
first_index b [] = none
first_index b (c ∷ src) =
    if c == b then some 0 else elim (first_index b src) [ none ↦ none | some k ↦ some (suc k) ]

first_index-byte :
    (b : ℕ) (src : Bytes) (k : ℕ) → first_index b src ≡ some k → (k < length src) × (byte src k ≡ b)
unfolding first_index byte
first_index-byte b [] k e = absurd (none-ne-some _ e)
first_index-byte b (c ∷ src) k e = elim (Bool-cases (c == b)) [
  | inl h ↦
      let z : 0 ≡ k = some-injective _ _ (rw h at e) in rw (sym z) (omega arith, (==_iff c b).0 h)
  | inr h ↦ elim (Option-cases (first_index b src)) [
    | inl f ↦ absurd (none-ne-some _ (rw (h, f) at e))
    | inr (j, f) ↦
        let z : suc j ≡ k = some-injective _ _ (rw (h, f) at e) in
        let (l, q) = first_index-byte b src j f in rw (sym z) (omega arith, q)
  ]
]

first_match : Bytes → Bytes → Option ℕ
first_match [] needle = if starts_with [] needle then some 0 else none
first_match (c ∷ src) needle =
    if starts_with (c ∷ src) needle
    then some 0
    else elim (first_match src needle) [ none ↦ none | some k ↦ some (suc k) ]

first_match-le :
    (src needle : Bytes) (k : ℕ) → first_match src needle ≡ some k → k + length needle ≤ length src
unfolding first_match
first_match-le [] needle k e = elim (Bool-cases (starts_with [] needle)) [
  | inl h ↦
      let z : 0 ≡ k = some-injective _ _ (rw h at e) in
      omega (arith, starts_with-length [] needle h)
  | inr h ↦ absurd (none-ne-some _ (rw h at e))
]
first_match-le (c ∷ src) needle k e = elim (Bool-cases (starts_with (c ∷ src) needle)) [
  | inl h ↦
      let z : 0 ≡ k = some-injective _ _ (rw h at e) in
      omega (arith, starts_with-length (c ∷ src) needle h)
  | inr h ↦ elim (Option-cases (first_match src needle)) [
    | inl f ↦ absurd (none-ne-some _ (rw (h, f) at e))
    | inr (j, f) ↦
        let z : suc j ≡ k = some-injective _ _ (rw (h, f) at e) in
        omega (arith, first_match-le src needle j f)
  ]
]

abbrev searches : Memchr
searches = record {
  memchr = first_index;
  find = first_match;
  memchr-byte = first_index-byte;
  find-lt = first_match-le;
}

abbrev no_languages : ℕ → Option ExtraLang
no_languages i = none

-- A Rust string, a brace, and a raw byte string with a `#` inside.
abbrev rust_source : Bytes
rust_source = codes "f(\"a\\\"b\"){br#\"x\"y\"#}//"

abbrev rust_lexed : Lexed
rust_lexed = record {
  spans =
      record { start = 2; end = 8; kind = SpanKind.string }
      ∷ record { start = 10; end = 19; kind = SpanKind.string }
      ∷ record { start = 20; end = 22; kind = SpanKind.comment }
      ∷ [];
  braces = record { off = 9; open_brace = true } ∷ record { off = 19; open_brace = false } ∷ [];
}

lex-rust : lex searches no_languages Lang.rust rust_source ≡ rust_lexed
unfolding lex first_index byte push_span scan line_end
lex-rust = refl

-- A prefixed docstring at the start of its line, and a comment.
lex_python-docstring : lex searches no_languages Lang.python (codes " r\"\"\"d\"\"\" #x") ≡ record {
  spans =
      record { start = 1; end = 9; kind = SpanKind.docstring }
      ∷ record { start = 10; end = 12; kind = SpanKind.comment }
      ∷ [];
  braces = [];
}
unfolding lex first_index byte push_span scan line_end
lex_python-docstring = refl

lex-IsLexed_example : IsLexed rust_source (lex searches no_languages Lang.rust rust_source)
lex-IsLexed_example =
    lex-IsLexed searches no_languages rust_source (omega arith) Lang.rust
      (λ i l e. absurd (none-ne-some _ e))

rust_lexed-IsLexed : IsLexed rust_source rust_lexed
rust_lexed-IsLexed = record {
  sorted = omega arith;
  in_file = omega arith;
  ascending = omega arith;
  outside = omega arith;
}

span_at_iff_example :
    (span_at rust_lexed 4 ≡ some (record { start = 2; end = 8; kind = SpanKind.string })) ↔ (
      In (record { start = 2; end = 8; kind = SpanKind.string }) rust_lexed.spans
      × Holds (record { start = 2; end = 8; kind = SpanKind.string }) 4)
span_at_iff_example =
    span_at_iff rust_source rust_lexed 4 (record { start = 2; end = 8; kind = SpanKind.string })
      rust_lexed-IsLexed

lex_c_like_ends_example :
    22 ≤ (lex_loop (c_like_body searches rust_source true true false false) 22 22 0 no_lexed).0
lex_c_like_ends_example =
    lex_c_like_ends searches rust_source true true false false (omega arith) (λ h. refl) (λ h. refl)
