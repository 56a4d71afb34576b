-- ===== src/Lexer/Generic.antt =====
-- `lex_generic`: the spans of a language that is loaded at run time.
use greeg.Base.{
  ℕ, ◌+◌, Bool, false, ◌&&◌, not, Option, none, some, Bytes, length, drop, ◌==◌, if◌then◌else◌,
  contains_char, starts_with, ◌||◌, [], ◌∷◌,
}
use Prim.Native.Nat.{min, max}
use greeg.Base.Scan.{Next, on, stop, scan}
use greeg.Lexer.{SpanKind, Lexed, no_lexed, byte, Memchr, spanned, push_brace, line_end, lex_loop}

-- `!lc.is_empty() && src[i..].starts_with(lc)`
unfoldable pub marker_at : Option Bytes → Bytes → ℕ → Bool
marker_at none src i = false
marker_at (some []) src i = false
marker_at (some (c ∷ cs)) src i = starts_with (drop i src) (c ∷ cs)

-- The loop over a string's bytes after its opening quote `q`.
unfoldable pub quoted_step : Bytes → ℕ → ℕ → Unit {0} → Next (Unit {0})
quoted_step src q j s =
    if byte src j == b'\\'
    then on 1 tt
    else if byte src j == q
    then stop 1
    else if byte src j == b'\n' && not (q == b'`')
    then stop 0
    else on 0 tt

module _ (m : Memchr) (src : Bytes) (line : Option Bytes) (block : Option (Bytes × Bytes))
    (quotes : Bytes) where
  -- Where the block comment that opens at `i` ends.
  unfoldable pub block_end : Bytes → Bytes → ℕ → ℕ
  block_end opening closing i = elim (m.find (drop (i + length opening) src) closing) [
    | some k ↦ i + length opening + k + length closing
    | none ↦ length src
  ]

  -- The rest of a round, where no comment starts.
  unfoldable pub generic_code : ℕ → Lexed → ℕ × Lexed
  unfolding quoted_step
  generic_code i out =
      let j =
        min (scan (quoted_step src (byte src i)) (length src) (length src) (i + 1) tt)
          (length src) in
      if contains_char quotes (byte src i)
      then (max j (i + 1), spanned out i j SpanKind.string)
      else if byte src i == b'{' || byte src i == b'}'
      then (i + 1, push_brace i (byte src i == b'{') out)
      else (i + 1, out)

  unfoldable pub generic_block : Option (Bytes × Bytes) → ℕ → Lexed → ℕ × Lexed
  unfolding generic_code marker_at block_end
  generic_block none i out = generic_code i out
  generic_block (some (opening, closing)) i out =
      if marker_at (some opening) src i
      then (
        block_end opening closing i,
        spanned out i (block_end opening closing i) SpanKind.comment,
      )
      else generic_code i out

  unfoldable pub generic_body : ℕ → Lexed → ℕ × Lexed
  unfolding generic_block marker_at
  generic_body i out =
      if marker_at line src i
      then (line_end m src i, spanned out i (line_end m src i) SpanKind.comment)
      else generic_block block i out

  unfoldable pub lex_generic : Lexed
  unfolding generic_body lex_loop
  lex_generic = (lex_loop generic_body (length src) (length src) 0 no_lexed).1
