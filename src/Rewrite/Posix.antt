-- ===== src/Rewrite/Posix.antt =====
-- crates/greeg/src/rewrite.rs: `posix_regex`, whose loop reads the list of the characters left.
use greeg.Base.{
  ℕ, zero, suc, ◌+◌, ◌-◌, Bool, true, false, not, ◌&&◌, ◌||◌, Option, none, some, [], ◌∷◌, ◌++◌,
  Bytes, ltb, leb, ◌==◌, if◌then◌else◌, codes, starts_with, contains_char, Result, ok, err, ◌>>=◌,
}
use greeg.Rewrite.Bracket.{
  PosixError, is_empty_text, interval, braced, is_ascii_punctuation, bracket, trailing_backslash,
  unmatched_close, malformed_interval, nothing_to_repeat, back_reference, unmatched_open,
  not_syntax,
}

pub record Posix : Type 0 where
  pub out : Bytes
  pub at_start : Bool
  pub depth : ℕ

-- What a character becomes, the state after it, and how many characters after it were read.
abbrev pub PosixStep : Type 0
PosixStep = Result PosixError (Posix × ℕ)

abbrev pub push_text : Bytes → Posix → Posix
push_text text s = record s { out = s.out ++ text }

abbrev pub open_group : Posix → Posix
open_group s = record { out = s.out ++ codes "("; at_start = true; depth = s.depth + 1 }

abbrev pub add_alternative : Posix → Posix
add_alternative s = record { out = s.out ++ codes "|"; at_start = true; depth = s.depth }

-- An escaped interval, which must end with `\}`.
unfoldable pub escaped_interval : Option (Bytes × ℕ) → Bool → Posix → PosixStep
unfolding braced
escaped_interval none start s = err malformed_interval
escaped_interval (some (body, n)) start s =
    if start then err nothing_to_repeat else ok (push_text (braced body) s, n + 1)

-- The character `e` after a backslash, with `cs` after it.
unfoldable pub escape : Bool → Bool → ℕ → Bytes → Posix → PosixStep
unfolding escaped_interval interval contains_char is_ascii_punctuation
escape extended start e cs s =
    if e == b'(' && not extended
    then ok (open_group s, 1)
    else if e == b')' && not extended
    then if s.depth == 0
      then err unmatched_close
      else ok (push_text (codes ")") (record s { depth = s.depth - 1 }), 1)
    else if e == b'|' && not extended
    then ok (add_alternative s, 1)
    else if (e == b'+' || e == b'?') && not extended && not start
    then ok (push_text (e ∷ []) s, 1)
    else if e == b'{' && not extended
    then escaped_interval (interval cs (codes "\\}")) start s
    else if contains_char (codes "<>bBwWsS") e
    then ok (push_text (b'\\' ∷ e ∷ []) s, 1)
    else if leb b'1' e && leb e b'9'
    then err back_reference
    else if is_ascii_punctuation e
    then ok (push_text (b'\\' ∷ e ∷ []) s, 1)
    else err (not_syntax e)

unfoldable pub escape_first : Bool → Bool → Bytes → Posix → PosixStep
unfolding escape
escape_first extended start [] s = err trailing_backslash
escape_first extended start (e ∷ cs) s = escape extended start e cs s

-- An interval of an extended expression, or a literal brace.
unfoldable pub brace : Option (Bytes × ℕ) → Posix → PosixStep
unfolding braced
brace none s = ok (push_text (codes "\\{") s, 0)
brace (some (body, n)) s = ok (push_text (braced body) s, n)

-- `$` ends the expression, a group or an alternative, or is literal.
unfoldable pub is_end : Bool → Bytes → Bool
unfolding is_empty_text starts_with
is_end extended cs =
    extended || is_empty_text cs || starts_with cs (codes "\\)") || starts_with cs (codes "\\|")

-- The arms of the loop from `$` on.
unfoldable pub operator : Bool → Bool → ℕ → Bytes → Posix → PosixStep
unfolding is_end brace interval contains_char
operator extended start c cs s =
    if c == b'$'
    then ok (push_text (if is_end extended cs then codes "$" else codes "\\$") s, 0)
    else if (c == b'+' || c == b'?') && extended && not start
    then ok (push_text (c ∷ []) s, 0)
    else if c == b'{' && extended && not start
    then brace (interval cs (codes "}")) s
    else if c == b'(' && extended
    then ok (open_group s, 0)
    else if c == b')' && extended && ltb 0 s.depth
    then ok (push_text (codes ")") (record s { depth = s.depth - 1 }), 0)
    else if c == b'|' && extended
    then ok (add_alternative s, 0)
    else if contains_char (codes "+?{}()|") c
    then ok (push_text (b'\\' ∷ c ∷ []) s, 0)
    else ok (push_text (c ∷ []) s, 0)

-- The body of the loop, on the character `c` with `cs` after it.
unfoldable pub posix_step : Bool → Bool → ℕ → Bytes → Posix → PosixStep
unfolding bracket escape_first operator
posix_step extended start c cs s =
    if c == b'['
    then bracket cs >>= (λ b. ok (push_text b.0 s, b.1))
    else if c == b'\\'
    then escape_first extended start cs s
    else if c == b'*' && start
    then ok (push_text (codes "\\*") s, 0)
    else if c == b'*' || c == b'.'
    then ok (push_text (c ∷ []) s, 0)
    else if c == b'^' && (extended || start)
    then ok (push_text (codes "^") (record s { at_start = true }), 0)
    else if c == b'^'
    then ok (push_text (codes "\\^") s, 0)
    else operator extended start c cs s

-- The loop, past `skip` characters already read.
unfoldable pub posix_loop : Bool → Bytes → ℕ → Posix → Result PosixError Bytes
unfolding posix_step
posix_loop extended [] skip s = if ltb 0 s.depth then err unmatched_open else ok s.out
posix_loop extended (c ∷ cs) (suc skip) s = posix_loop extended cs skip s
posix_loop extended (c ∷ cs) zero s =
    posix_step extended s.at_start c cs (record s { at_start = false }) >>= λ r.
    posix_loop extended cs r.1 r.0

unfoldable pub posix_regex : Bytes → Bool → Result PosixError Bytes
unfolding posix_loop
posix_regex p extended = posix_loop extended p 0 (record { out = []; at_start = true; depth = 0 })
