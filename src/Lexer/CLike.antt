-- ===== src/Lexer/CLike.antt =====
-- `lex_c_like`: an arm of its `match` is a function that gives the next index and the output.
use greeg.Base.{
  ℕ, zero, suc, ◌+◌, ◌-◌, Bool, true, false, ◌&&◌, ◌||◌, not, Bytes, List, [], ◌∷◌, length, take,
  drop, ltb, ◌==◌, if◌then◌else◌, codes, contains_text, contains_char,
}
use Prim.Native.Nat.{min}
use greeg.Base.Scan.{Next, on, stop, scan}
use greeg.Lexer.Strings.{next_is, string_arm, rust_raw_arm, quote_arm, template_arm}
use greeg.Lexer.{
  SpanKind, Lexed, no_lexed, byte, Memchr, spanned, push_brace, line_end, lex_loop, is_ident_byte,
  is_ascii_alphabetic,
}

-- Inside a block comment, at a depth.
unfoldable pub comment_step : Bytes → Bool → ℕ → ℕ → Next ℕ
comment_step src nested_block i depth =
    if nested_block && ltb (i + 1) (length src) && byte src i == b'/' && byte src (i + 1) == b'*'
    then on 1 (depth + 1)
    else if ltb (i + 1) (length src) && byte src i == b'*' && byte src (i + 1) == b'/'
    then (if depth - 1 == 0 then stop 2 else on 1 (depth - 1))
    else on 0 depth

abbrev pub is_doc_block : Bytes → ℕ → Bool
is_doc_block src i =
    ltb (i + 2) (length src)
    && (byte src (i + 2) == b'*' || byte src (i + 2) == b'!')
    && not (ltb (i + 3) (length src) && byte src (i + 3) == b'/')

-- The letters after a regex literal.
unfoldable pub flags_step : Bytes → ℕ → Unit {0} → Next (Unit {0})
unfolding is_ascii_alphabetic
flags_step src i s = if is_ascii_alphabetic (byte src i) then on 0 tt else stop 0

-- Inside a regex literal: the state says whether a class is open. A `/` ends it, with its flags.
unfoldable pub regex_step : Bytes → ℕ → Bool → Next Bool
unfolding flags_step
regex_step src i in_class =
    if byte src i == b'\\'
    then on 1 in_class
    else if byte src i == b'\n'
    then stop 0
    else if in_class
    then on 0 (not (byte src i == b']'))
    else if byte src i == b'['
    then on 0 true
    else if byte src i == b'/'
    then stop (scan (flags_step src) (length src) (length src) (i + 1) tt - i)
    else on 0 false

-- The blanks before `j`, from `j` backwards.
unfoldable pub skip_blanks : Bytes → ℕ → ℕ
skip_blanks src zero = 0
skip_blanks src (suc j) =
    if byte src j == b' ' || byte src j == b'\t' then skip_blanks src j else suc j

unfoldable pub word_start : Bytes → ℕ → ℕ
unfolding is_ident_byte
word_start src zero = 0
word_start src (suc s) = if is_ident_byte (byte src s) then word_start src s else suc s

abbrev pub regex_bytes : Bytes
regex_bytes =
    b'=' ∷ b'(' ∷ b',' ∷ b':' ∷ b'[' ∷ b'!' ∷ b'&' ∷ b'|' ∷ b'?' ∷ b'{' ∷ b'}' ∷ b';' ∷ b'\n'
    ∷ b'\r' ∷ b'+' ∷ b'-' ∷ b'*' ∷ b'%' ∷ b'<' ∷ b'>' ∷ b'~' ∷ b'^' ∷ []

abbrev pub regex_words : List Bytes
regex_words =
    codes "return"
    ∷ codes "typeof"
    ∷ codes "case"
    ∷ codes "in"
    ∷ codes "of"
    ∷ codes "delete"
    ∷ codes "void"
    ∷ codes "throw"
    ∷ codes "new"
    ∷ codes "do"
    ∷ codes "else"
    ∷ codes "instanceof"
    ∷ codes "yield"
    ∷ codes "await"
    ∷ []

unfoldable pub regex_can_start : Bytes → ℕ → Bool
unfolding skip_blanks word_start is_ident_byte contains_char contains_text
regex_can_start src i =
    let j = skip_blanks src i in
    let p = byte src (j - 1) in
    let s = word_start src (j - 1) in
    if j == 0
    then true
    else if contains_char regex_bytes p
    then true
    else if is_ident_byte p
    then contains_text regex_words (take (j - s) (drop s src))
    else false

unfoldable pub line_comment_arm : Memchr → Bytes → Bool → ℕ → Lexed → ℕ × Lexed
line_comment_arm m src rust i out =
    let kind =
      if rust && ltb (i + 2) (length src) && (byte src (i + 2) == b'/' || byte src (i + 2) == b'!')
      then SpanKind.docstring
      else SpanKind.comment in
    (line_end m src i, spanned out i (line_end m src i) kind)

unfoldable pub block_comment_arm : Bytes → Bool → ℕ → Lexed → ℕ × Lexed
unfolding comment_step
block_comment_arm src nested_block i out =
    let end = scan (comment_step src nested_block) (length src) (length src) (i + 2) 1 in
    (
      end,
      spanned out i (min end (length src))
          (if is_doc_block src i then SpanKind.docstring else SpanKind.comment),
    )

unfoldable pub regex_arm : Bytes → ℕ → Lexed → ℕ × Lexed
unfolding regex_step
regex_arm src i out =
    let end = scan (regex_step src) (length src) (length src) (i + 1) false in
    (end, spanned out i (min end (length src)) SpanKind.string)

module _ (m : Memchr) (src : Bytes) (nested_block rust js kotlin : Bool) where
  unfoldable pub c_like_body : ℕ → Lexed → ℕ × Lexed
  unfolding line_comment_arm block_comment_arm regex_arm regex_can_start string_arm rust_raw_arm
      quote_arm template_arm push_brace
  c_like_body i out =
      let c = byte src i in
      if c == b'/' && next_is src i b'/'
      then line_comment_arm m src rust i out
      else if c == b'/' && next_is src i b'*'
      then block_comment_arm src nested_block i out
      else if c == b'/' && js && regex_can_start src i
      then regex_arm src i out
      else if c == b'"'
      then string_arm src rust kotlin i out
      else if c == b'r' && rust && (next_is src i b'"' || next_is src i b'#')
      then rust_raw_arm src i out
      else if c == b'\''
      then quote_arm src js i out
      else if c == b'`' && js
      then template_arm src i out
      else if c == b'{'
      then (i + 1, push_brace i true out)
      else if c == b'}'
      then (i + 1, push_brace i false out)
      else (i + 1, out)

  unfoldable pub lex_c_like : Lexed
  unfolding c_like_body lex_loop
  lex_c_like = (lex_loop c_like_body (length src) (length src) 0 no_lexed).1
