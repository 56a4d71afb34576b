-- ===== src/Lexer/Strings.antt =====
-- The string arms of `lex_c_like`: strings, raw strings, character literals and templates.
use greeg.Base.{ℕ, ◌+◌, ◌-◌, ◌/◌, Bool, ◌&&◌, ◌||◌, not, Bytes, length, ltb, ◌==◌, if◌then◌else◌}
use Prim.Native.Nat.{min}
use greeg.Base.Scan.{Next, on, stop, scan}
use greeg.Lexer.{SpanKind, Lexed, byte, spanned, is_ident_byte}

abbrev pub next_is : Bytes → ℕ → ℕ → Bool
next_is src i b = ltb (i + 1) (length src) && byte src (i + 1) == b

abbrev pub next_two_are : Bytes → ℕ → ℕ → Bool
next_two_are src i b = ltb (i + 2) (length src) && byte src (i + 1) == b && byte src (i + 2) == b

-- The quotes after the three that end a Kotlin raw string.
unfoldable pub quotes_step : Bytes → ℕ → Unit {0} → Next (Unit {0})
quotes_step src i s = if byte src i == b'"' then on 0 tt else stop 0

unfoldable pub kotlin_raw_step : Bytes → ℕ → Unit {0} → Next (Unit {0})
unfolding quotes_step
kotlin_raw_step src i s =
    if byte src i == b'"' && next_two_are src i b'"'
    then stop (scan (quotes_step src) (length src) (length src) (i + 3) tt - i)
    else on 0 tt

-- A string inside a template expression.
unfoldable pub nested_step : Bytes → ℕ → Unit {0} → Next (Unit {0})
nested_step src i s =
    if byte src i == b'"' || byte src i == b'\n'
    then stop 0
    else if byte src i == b'\\'
    then on 1 tt
    else on 0 tt

-- One byte of a Kotlin template expression.
unfoldable pub expression_step : Bytes → ℕ → ℕ → Next ℕ
unfolding nested_step
expression_step src i depth =
    if byte src i == b'{'
    then on 0 (depth + 1)
    else if byte src i == b'}'
    then on 0 (depth - 1)
    else if byte src i == b'"'
    then on (scan (nested_step src) (length src) (length src) (i + 1) tt - i) depth
    else on 0 depth

-- Inside a string, at a depth of template expressions.
unfoldable pub string_step : Bytes → Bool → Bool → ℕ → ℕ → Next ℕ
unfolding expression_step
string_step src rust kotlin i depth =
    if byte src i == b'\\'
    then on 1 depth
    else if kotlin && byte src i == b'$' && next_is src i b'{'
    then on 1 (depth + 1)
    else if kotlin && ltb 0 depth
    then expression_step src i depth
    else if byte src i == b'"'
    then stop 1
    else if byte src i == b'\n' && not rust
    then stop 0
    else on 0 depth

unfoldable pub string_arm : Bytes → Bool → Bool → ℕ → Lexed → ℕ × Lexed
unfolding kotlin_raw_step string_step
string_arm src rust kotlin i out =
    let raw_end = scan (kotlin_raw_step src) (length src) (length src) (i + 3) tt in
    let end = scan (string_step src rust kotlin) (length src) (length src) (i + 1) 0 in
    if kotlin && next_two_are src i b'"'
    then (raw_end, spanned out i (min raw_end (length src)) SpanKind.string)
    else (end, spanned out i (min end (length src)) SpanKind.string)

unfoldable pub hash_step : Bytes → ℕ → Unit {0} → Next (Unit {0})
hash_step src j s = if byte src j == b'#' then on 0 tt else stop 0

-- The `#`s after a quote, no more than the opening has: the state counts them.
unfoldable pub closing_step : Bytes → ℕ → ℕ → ℕ → Next ℕ
closing_step src hashes k h = if byte src k == b'#' && ltb h hashes then on 0 (h + 1) else stop 0

-- Inside a raw string that opened with so many `#`s.
unfoldable pub rust_raw_step : Bytes → ℕ → ℕ → Unit {0} → Next (Unit {0})
unfolding closing_step
rust_raw_step src hashes j s =
    let k = scan (closing_step src hashes) (length src) (length src) (j + 1) 0 in
    if byte src j == b'"' && k - (j + 1) == hashes then stop (k - j) else on 0 tt

-- `i > 0 && (src[i - 1] == b'b' || …) && (i < 2 || !is_ident_byte(src[i - 2]))`
unfoldable pub is_prefixed : Bytes → ℕ → Bool
unfolding is_ident_byte
is_prefixed src i =
    ltb 0 i
    && (byte src (i - 1) == b'b' || byte src (i - 1) == b'c')
    && (ltb i 2 || not (is_ident_byte (byte src (i - 2))))

-- Where the `#`s after the `r` at `i` end.
unfoldable pub hashes_end : Bytes → ℕ → ℕ
unfolding hash_step
hashes_end src i = scan (hash_step src) (length src) (length src) (i + 1) tt

unfoldable pub rust_raw_end : Bytes → ℕ → ℕ
unfolding rust_raw_step hashes_end
rust_raw_end src i =
    min
      (scan (rust_raw_step src (hashes_end src i - (i + 1))) (length src) (length src)
        (hashes_end src i + 1) tt)
      (length src)

unfoldable pub rust_raw_arm : Bytes → ℕ → Lexed → ℕ × Lexed
unfolding is_prefixed rust_raw_end
rust_raw_arm src i out =
    let j = hashes_end src i in
    let start = if is_prefixed src i then i - 1 else i in
    if ltb j (length src)
      && byte src j == b'"'
      && (i == 0 || is_prefixed src i || not (is_ident_byte (byte src (i - 1))))
    then (rust_raw_end src i, spanned out start (rust_raw_end src i) SpanKind.string)
    else (i + 1, out)

-- A JavaScript string in single quotes.
unfoldable pub js_step : Bytes → ℕ → Unit {0} → Next (Unit {0})
js_step src i s =
    if byte src i == b'\\'
    then on 1 tt
    else if byte src i == b'\''
    then stop 1
    else if byte src i == b'\n'
    then stop 0
    else on 0 tt

-- An escape in a character literal that starts at `i`.
unfoldable pub escape_step : Bytes → ℕ → ℕ → Unit {0} → Next (Unit {0})
escape_step src i j s = if ltb j (i + 8) && not (byte src j == b'\'') then on 0 tt else stop 0

unfoldable pub utf8_width : ℕ → ℕ
utf8_width b = if ltb b 0x80 then 1 else if b / 32 == 6 then 2 else if b / 16 == 14 then 3 else 4

-- Where a character literal that starts at `i` must have its closing quote.
unfoldable pub char_end : Bytes → ℕ → ℕ
unfolding escape_step utf8_width
char_end src i =
    if next_is src i b'\\'
    then scan (escape_step src i) (length src) (length src) (i + 3) tt
    else if ltb (i + 1) (length src)
    then i + 1 + utf8_width (byte src (i + 1))
    else i + 1

unfoldable pub quote_arm : Bytes → Bool → ℕ → Lexed → ℕ × Lexed
unfolding js_step char_end
quote_arm src js i out =
    let end = scan (js_step src) (length src) (length src) (i + 1) tt in
    let j = char_end src i in
    if js
    then (end, spanned out i (min end (length src)) SpanKind.string)
    else if ltb j (length src) && byte src j == b'\''
    then (j + 1, spanned out i (j + 1) SpanKind.string)
    else (i + 1, out)

-- Inside a template literal, at a depth of `${ }`.
unfoldable pub template_step : Bytes → ℕ → ℕ → Next ℕ
template_step src i depth =
    if byte src i == b'\\'
    then on 1 depth
    else if byte src i == b'$' && next_is src i b'{'
    then on 1 (depth + 1)
    else if byte src i == b'}' && ltb 0 depth
    then on 0 (depth - 1)
    else if byte src i == b'`' && depth == 0
    then stop 1
    else on 0 depth

unfoldable pub template_arm : Bytes → ℕ → Lexed → ℕ × Lexed
unfolding template_step
template_arm src i out =
    let end = scan (template_step src) (length src) (length src) (i + 1) 0 in
    (end, spanned out i (min end (length src)) SpanKind.string)
