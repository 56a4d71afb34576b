-- ===== src/Lexer/SpanAt.antt =====
-- What `lex` gives, and what `span_at` finds in it.
use greeg.Base.{
  ℕ, ◌≤◌, ◌<◌, ◌≡◌, ◌⊎◌, ◌↔◌, inl, inr, refl, sym, ap, ◌∙◌, subst, arith, Bool, true, false, ◌&&◌,
  Option, some, List, [], ◌∷◌, Bytes, In, All, length, ltb, leb, Bool-cases, Option-cases,
}
use mathlib.Core.Option.{some-injective, none-ne-some}
use greeg.Lexer.{Span, Brace, Lexed, no_lexed, Memchr, partition_point, get_span, holding, span_at}
use greeg.Lexer.Kept.{All-imp, Sorted, Ascending, Kept}
use greeg.Lexer.Lex.{Lang, ExtraLang, lex}
use greeg.Lexer.PythonOrder.{lex_python-Kept}
use greeg.Lexer.GenericOrder.{StartsOnLine, lex_generic-Kept}
use greeg.Lexer.Disjoint.{lex_c_like-Kept}

-- Spans in order, apart, none empty, all in the file; braces in order, none of them in a span.
pub record IsLexed (src : Bytes) (l : Lexed) : Type 0 where
  pub sorted : Sorted l.spans
  pub in_file : All (λ (s : Span). (s.start < s.end) × (s.end ≤ length src)) l.spans
  pub ascending : Ascending l.braces
  pub outside :
      All (λ (b : Brace). All (λ (s : Span). (b.off < s.start) ⊎ (s.end ≤ b.off)) l.spans) l.braces

Kept-IsLexed :
    (src : Bytes) (strict : Bool) (i : ℕ) (out : Lexed) → Kept src strict i out → IsLexed src out
Kept-IsLexed src strict i out k = record {
  sorted = k.sorted;
  in_file = All-imp _ _ (λ s p. (p.nonempty, p.in_file)) out.spans k.spans_ok;
  ascending = k.ascending;
  outside = All-imp _ _ (λ b p. p.outside) out.braces k.braces_ok;
}

no_lexed-IsLexed : (src : Bytes) → IsLexed src no_lexed
no_lexed-IsLexed src = record { sorted = tt; in_file = tt; ascending = tt; outside = tt }

-- No registered language has a line comment whose marker starts with a newline.
abbrev pub AllStartOnLine : (ℕ → Option ExtraLang) → Type 0
AllStartOnLine get = (i : ℕ) (l : ExtraLang) → get i ≡ some l → StartsOnLine l.line_comment

module _ (m : Memchr) (get : ℕ → Option ExtraLang) (src : Bytes)
    (small : length src < 4294967296) where
  -- For every language the spans of a file below 4 GiB are in order, apart, not empty and in the
  -- file, its braces are in order and outside the spans, if the registered languages' line comments
  -- do not start with a newline.
  pub lex-IsLexed : (lang : Lang) → AllStartOnLine get → IsLexed src (lex m get lang src)
  unfolding lex
  lex-IsLexed Lang.python ok =
      let (i, k, e) = lex_python-Kept m src small in Kept-IsLexed src true i _ k
  lex-IsLexed Lang.rust ok =
      let (i, k, e) = lex_c_like-Kept m src true true false false small (λ h. refl) (λ h. refl) in
      Kept-IsLexed src true i _ k
  lex-IsLexed Lang.java_script ok =
      let (i, k, e) = lex_c_like-Kept m src false false true false small (λ h. cc) (λ h. cc) in
      Kept-IsLexed src false i _ k
  lex-IsLexed Lang.type_script ok =
      let (i, k, e) = lex_c_like-Kept m src false false true false small (λ h. cc) (λ h. cc) in
      Kept-IsLexed src false i _ k
  lex-IsLexed Lang.kotlin ok =
      let (i, k, e) = lex_c_like-Kept m src true false false true small (λ h. cc) (λ h. cc) in
      Kept-IsLexed src false i _ k
  lex-IsLexed (Lang.extra n) ok = elim (Option-cases (get n)) [
    | inl e ↦ rw (e, lex) (no_lexed-IsLexed src)
    | inr (l, e) ↦
        let (i, k, f) =
          lex_generic-Kept m src l.line_comment l.block_comment l.strings small (ok n l e) in
        rw (e, lex) (Kept-IsLexed src false i _ k)
  ]
  lex-IsLexed Lang.none ok = no_lexed-IsLexed src
  lex-IsLexed Lang.text ok = no_lexed-IsLexed src

-- The span holds the offset.
abbrev pub Holds : Span → ℕ → Type 0
Holds s off = (s.start ≤ off) × (off < s.end)

-- Nothing after a span that ends beyond the offset holds it.
later_apart :
    (off end : ℕ) (spans : List Span) (s : Span)
    → off < end
    → All (λ (t : Span). end ≤ t.start) spans
    → In s spans
    → Holds s off
    → ⊥
later_apart off end [] s l a i h = i
later_apart off end (t ∷ spans) s l a (inl e) h =
    let f : end ≤ s.start = subst (λ (u : Span). end ≤ u.start) (sym e) a.0 in omega arith
later_apart off end (t ∷ spans) s l a (inr i) h = later_apart off end spans s l a.1 i h

found : List Span → ℕ → Option Span
unfolding holding get_span partition_point
found spans off = holding off (get_span spans (partition_point (λ s. leb s.end off) spans))

holding-eq-some : (off : ℕ) (t s : Span) → holding off (some t) ≡ some s → (s ≡ t) × Holds t off
unfolding holding
holding-eq-some off t s e = elim (Bool-cases (leb t.start off && ltb off t.end)) [
  | inl h ↦ (sym (some-injective _ _ (rw h at e)), (ground arith, ground arith))
  | inr h ↦ absurd (none-ne-some _ (rw h at e))
]

holding-some : (off : ℕ) (t : Span) → Holds t off → holding off (some t) ≡ some t
unfolding holding
holding-some off t h = let e : (leb t.start off && ltb off t.end) ≡ true = ground arith in rw e refl

-- The search among spans in order.
found_to :
    (spans : List Span) (off : ℕ) (s : Span) → found spans off ≡ some s → In s spans × Holds s off
unfolding found
found_to [] off s e = absurd (none-ne-some _ e)
found_to (t ∷ spans) off s e = elim (Bool-cases (leb t.end off)) [
  | inl h ↦ let (i, k) = found_to spans off s (rw h at e) in (inr i, k)
  | inr h ↦
      let (same, k) = holding-eq-some off t s (rw h at e) in
      (inl same, subst (λ u. Holds u off) (sym same) k)
]

found_from :
    (spans : List Span) (off : ℕ) (s : Span)
    → Sorted spans
    → In s spans
    → Holds s off
    → found spans off ≡ some s
unfolding found
found_from [] off s o i h = absurd i
found_from (t ∷ spans) off s o (inl e) h =
    let k : Holds t off = subst (λ u. Holds u off) e h in
    let b : leb t.end off ≡ false = ground arith in rw b (holding-some off t k ∙ ap some (sym e))
found_from (t ∷ spans) off s o (inr i) h = elim (Bool-cases (leb t.end off)) [
  | inl b ↦ rw b (found_from spans off s o.1 i h)
  | inr b ↦ absurd (later_apart off t.end spans s (ground arith) o.0 i h)
]

-- In what a lexer gives, `span_at` finds a span exactly when it is one of the spans and holds the
-- offset; so no offset is in two of them.
pub span_at_iff :
    (src : Bytes) (l : Lexed) (off : ℕ) (s : Span)
    → IsLexed src l
    → (span_at l off ≡ some s) ↔ (In s l.spans × Holds s off)
unfolding span_at found
span_at_iff src l off s o =
    (found_to l.spans off s, λ (i, h). found_from l.spans off s o.sorted i h)
