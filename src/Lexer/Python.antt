-- ===== src/Lexer/Python.antt =====
-- `lex_python`.
use greeg.Base.{
  ℕ, zero, suc, ◌+◌, ◌-◌, Bool, true, false, ◌&&◌, ◌||◌, not, Option, none, some, Bytes, List, [],
  ◌∷◌, length, take, drop, ltb, leb, ◌==◌, if◌then◌else◌,
}
use Prim.Native.Nat.{min}
use greeg.Base.Scan.{Next, on, stop, scan}
use greeg.Lexer.{
  SpanKind, Span, Lexed, no_lexed, byte, Memchr, spanned, line_end, lex_loop, is_ascii_alphabetic,
}

-- The prefix of the string at `start` begins at the result, from `s` backwards.
unfoldable pub prefix_start : Bytes → ℕ → ℕ → ℕ
unfolding is_ascii_alphabetic
prefix_start src start zero = 0
prefix_start src start (suc s) =
    if is_ascii_alphabetic (byte src s) && ltb start (suc s + 3)
    then prefix_start src start s
    else suc s

-- `src[s..start].iter().any(|&p| p == b'r' || p == b'R')`
unfoldable pub any_raw : Bytes → Bool
any_raw [] = false
any_raw (p ∷ ps) = p == b'r' || p == b'R' || any_raw ps

-- `iter().rposition(|&b| b == b'\n')`
unfoldable pub last_newline : Bytes → Option ℕ
last_newline [] = none
last_newline (b ∷ bs) = elim (last_newline bs) [
  | some k ↦ some (suc k)
  | none ↦ if b == b'\n' then some 0 else none
]

-- `iter().all(|&b| b == b' ' || b == b'\t')`
unfoldable pub all_indent : Bytes → Bool
all_indent [] = true
all_indent (b ∷ bs) = (b == b' ' || b == b'\t') && all_indent bs

unfoldable pub first_on_line : Bytes → ℕ → Bool
unfolding last_newline all_indent
first_on_line src s = elim (last_newline (take s src)) [
  | some k ↦ all_indent (drop (k + 1) (take s src))
  | none ↦ all_indent (take s src)
]

-- The three bytes from `i` on are the quote `q`.
abbrev pub triple_at : Bytes → ℕ → ℕ → Bool
triple_at src q i = ltb (i + 2) (length src) && byte src (i + 1) == q && byte src (i + 2) == q

unfoldable pub python_step : Bytes → ℕ → Bool → Bool → ℕ → Unit {0} → Next (Unit {0})
python_step src q triple is_raw i s =
    if byte src i == b'\\' && not is_raw
    then on 1 tt
    else if triple
    then (if byte src i == q && triple_at src q i then stop 3 else on 0 tt)
    else if byte src i == q
    then stop 1
    else if byte src i == b'\n'
    then stop 0
    else on 0 tt

-- The end of the string whose quote stands at `start`: the loop's, or the end of the file.
unfoldable pub python_end : Bytes → ℕ → Bool → Bool → ℕ
unfolding python_step
python_end src start triple is_raw =
    min
      (scan (python_step src (byte src start) triple is_raw) (length src) (length src)
        (start + (if triple then 3 else 1)) tt)
      (length src)

unfoldable pub python_string : Bytes → ℕ → Lexed → ℕ × Lexed
unfolding python_end prefix_start any_raw first_on_line
python_string src start out =
    let s = prefix_start src start start in
    let triple = triple_at src (byte src start) start in
    let is_raw = any_raw (take (start - s) (drop s src)) in
    let end = python_end src start triple is_raw in
    (
      end,
      spanned out s end
          (if triple && first_on_line src s then SpanKind.docstring else SpanKind.string),
    )

unfoldable pub python_body : Memchr → Bytes → ℕ → Lexed → ℕ × Lexed
unfolding python_string
python_body m src i out =
    if byte src i == b'#'
    then (line_end m src i, spanned out i (line_end m src i) SpanKind.comment)
    else if byte src i == b'\'' || byte src i == b'"'
    then python_string src i out
    else (i + 1, out)

-- `sort_by_key(|s| s.start)`, which is stable.
unfoldable pub insert_span : Span → List Span → List Span
insert_span s [] = s ∷ []
insert_span s (t ∷ spans) = if leb s.start t.start then s ∷ t ∷ spans else t ∷ insert_span s spans

unfoldable pub sort_spans : List Span → List Span
unfolding insert_span
sort_spans [] = []
sort_spans (s ∷ spans) = insert_span s (sort_spans spans)

unfoldable pub lex_python : Memchr → Bytes → Lexed
unfolding python_body lex_loop sort_spans
lex_python m src =
    let out = (lex_loop (python_body m src) (length src) (length src) 0 no_lexed).1 in
    record out { spans = sort_spans out.spans }
