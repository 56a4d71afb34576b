-- ===== src/Lexer/GenericOrder.antt =====
-- The spans of `lex_generic` are in order and apart, and no brace is inside one.
use greeg.Base.{
  ℕ, ◌+◌, ◌≤◌, ◌<◌, ◌≡◌, ◌≢◌, inl, inr, sym, ap, ◌∙◌, arith, true, false, ◌||◌, Option, none, some,
  [], ◌∷◌, Bytes, length, drop, ◌==◌, Bool-cases, Option-cases, contains_char,
}
use greeg.Base.Scan.{scan-ge}
use greeg.Lexer.{SpanKind, Lexed, no_lexed, byte, Memchr, line_end, is_ascii_alphabetic, lex_loop}
use greeg.Lexer.Kept.{Kept}
use greeg.Lexer.Push.{Kept-moves, push_brace-Kept, Goes, lex_loop-Kept_start}
use greeg.Lexer.Reads.{line_end_lem, byte-drop, length-drop, starts_with-byte, starts_with-length}
use greeg.Lexer.Rounds.{arm-Goes}
use greeg.Lexer.Generic.{
  marker_at, quoted_step, block_end, generic_code, generic_block, generic_body, lex_generic,
}

-- A line comment's marker does not start with a newline.
pub data StartsOnLine : Option Bytes → Type 0 where
  no_marker : StartsOnLine none
  empty_marker : StartsOnLine (some [])
  marker : {c : ℕ} {cs : Bytes} → c ≢ b'\n' → StartsOnLine (some (c ∷ cs))

-- The marker that stands at `i` is not empty, and lies in the file.
marker_at_lem :
    (opening src : Bytes) (i : ℕ)
    → i < length src
    → marker_at (some opening) src i ≡ true
    → (0 < length opening) × (i + length opening ≤ length src)
unfolding marker_at
marker_at_lem [] src i l h = cc
marker_at_lem (c ∷ cs) src i l h =
    let a = starts_with-length (drop i src) (c ∷ cs) h in
    let b = length-drop i src (omega arith) in (omega arith, omega arith)

marker_at-StartsOnLine :
    (line : Option Bytes) (src : Bytes) (i : ℕ)
    → StartsOnLine line
    → marker_at line src i ≡ true
    → byte src i ≢ b'\n'
unfolding marker_at
marker_at-StartsOnLine none src i n h f = cc
marker_at-StartsOnLine (some []) src i n h f = cc
marker_at-StartsOnLine (some (c ∷ cs)) src i (marker ne) h f =
    let e : i + 0 ≡ i = omega arith in
    ne (sym (starts_with-byte (drop i src) c cs h) ∙ byte-drop i 0 src ∙ ap (byte src) e ∙ f)

brace-alpha : (b : ℕ) → (b == b'{' || b == b'}') ≡ true → is_ascii_alphabetic b ≡ false
unfolding is_ascii_alphabetic
brace-alpha b h = ground arith

module _ (m : Memchr) (src : Bytes) (line : Option Bytes) (block : Option (Bytes × Bytes))
    (quotes : Bytes) (small : length src < 4294967296) where
  block_end_bounds :
      (opening closing : Bytes) (i : ℕ)
      → i < length src
      → marker_at (some opening) src i ≡ true
      → (i < block_end m src line block quotes opening closing i)
        × (block_end m src line block quotes opening closing i ≤ length src)
  unfolding block_end
  block_end_bounds opening closing i l h =
      let (pos, fits) = marker_at_lem opening src i l h in
      elim (Option-cases (m.find (drop (i + length opening) src) closing)) [
        | inl e ↦ rw (e, block_end) (l, omega arith)
        | inr (k, e) ↦
            let a = m.find-lt (drop (i + length opening) src) closing k e in
            let b = length-drop (i + length opening) src fits in
            rw (e, block_end) (omega arith, omega arith)
      ]

  generic_code-Goes :
      (i : ℕ) (out : Lexed)
      → i < length src
      → Kept src false i out
      → Goes src false small i (generic_code m src line block quotes i out)
  unfolding generic_code
  generic_code-Goes i out l k =
      let a = scan-ge (quoted_step src (byte src i)) (length src) (length src) (i + 1) tt in
      elim (Bool-cases (contains_char quotes (byte src i))) [
        | inl e ↦ rw e (
            arm-Goes src false small i _ _ SpanKind.string out k (omega arith) (omega arith)
              (omega arith) (λ h. cc))
        | inr e ↦ rw e (elim (Bool-cases (byte src i == b'{' || byte src i == b'}')) [
          | inl f ↦ rw f (
            push_brace-Kept src false small i (byte src i == b'{') out l
                (brace-alpha (byte src i) f) k,
            omega arith,
          )
          | inr f ↦ rw f (Kept-moves src false small i (i + 1) out (omega arith) k, omega arith)
        ])
      ]

  generic_block-Goes :
      (b : Option (Bytes × Bytes)) (i : ℕ) (out : Lexed)
      → i < length src
      → Kept src false i out
      → Goes src false small i (generic_block m src line block quotes b i out)
  unfolding generic_block
  generic_block-Goes none i out l k = generic_code-Goes i out l k
  generic_block-Goes (some (opening, closing)) i out l k =
      elim (Bool-cases (marker_at (some opening) src i)) [
        | inl e ↦
            let (after, in_file) = block_end_bounds opening closing i l e in
            rw e (
              arm-Goes src false small i _ _ SpanKind.comment out k after (omega arith) in_file
                (λ h. cc))
        | inr e ↦ rw e (generic_code-Goes i out l k)
      ]

  module _ (on_line : StartsOnLine line) where
    generic_body-Goes :
        (i : ℕ) (out : Lexed)
        → i < length src
        → Kept src false i out
        → Goes src false small i (generic_body m src line block quotes i out)
    unfolding generic_body
    generic_body-Goes i out l k = elim (Bool-cases (marker_at line src i)) [
      | inl e ↦
          let r = line_end_lem m src i l (marker_at-StartsOnLine line src i on_line e) in
          rw e (
            arm-Goes src false small i (line_end m src i) (line_end m src i) SpanKind.comment out k
              r.after (omega arith) r.in_file (λ h. cc))
      | inr e ↦ rw e (generic_block-Goes block i out l k)
    ]

    pub lex_generic-Kept :
        (i : ℕ) × Kept src false i (lex_generic m src line block quotes) × (length src ≤ i)
    unfolding lex_generic
    lex_generic-Kept =
        let (k, e) =
          lex_loop-Kept_start src false small (generic_body m src line block quotes)
            generic_body-Goes in
        (
          (lex_loop (generic_body m src line block quotes) (length src) (length src) 0 no_lexed).0,
          k,
          e,
        )
