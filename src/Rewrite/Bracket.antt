-- ===== src/Rewrite/Bracket.antt =====
-- crates/greeg/src/rewrite.rs: the errors of `posix_regex`, its intervals, and `bracket`. The index over
-- the characters is the list of those left; a step says how many of them it has read already.
use greeg.Base.{
  ℕ, zero, suc, ◌+◌, Bool, true, false, not, ◌&&◌, ◌||◌, Option, none, some, List, [], ◌∷◌, ◌++◌,
  Bytes, length, take, drop, leb, ◌==◌, if◌then◌else◌, codes, starts_with, contains_char,
  contains_text, bytes_eq, is_ascii_digit, Result, ok, err, ◌>>=◌,
}

pub data PosixError : Type 0 where
  trailing_backslash unmatched_close malformed_interval nothing_to_repeat back_reference :
      PosixError
  unmatched_open unterminated_bracket collating_element dashes : PosixError
  not_syntax : ℕ → PosixError
  unknown_class : Bytes → PosixError

-- The digits and commas at the start.
unfoldable pub take_bounds : Bytes → Bytes
take_bounds [] = []
take_bounds (c ∷ cs) = if is_ascii_digit c || c == b',' then c ∷ take_bounds cs else []

unfoldable pub count_char : ℕ → Bytes → ℕ
count_char c [] = 0
count_char c (x ∷ s) = if x == c then 1 + count_char c s else count_char c s

unfoldable pub is_empty_text : Bytes → Bool
is_empty_text [] = true
is_empty_text (c ∷ cs) = false

-- `interval`: its body, and how many characters it has with `close`.
unfoldable pub interval : Bytes → Bytes → Option (Bytes × ℕ)
unfolding take_bounds count_char is_empty_text bytes_eq
interval cs close =
    let body = take_bounds cs in
    let rest = take (length close) (drop (length body) cs) in
    if not (is_empty_text body)
      && leb (count_char b',' body) 1
      && not (bytes_eq body (codes ","))
      && bytes_eq rest close
    then some (body, length body + length close)
    else none

-- `{`, a zero where the lower bound is left out, the body, `}`.
unfoldable pub braced : Bytes → Bytes
unfolding starts_with
braced body =
    codes "{" ++ (if starts_with body (codes ",") then codes "0" else []) ++ body ++ codes "}"

unfoldable pub is_ascii_punctuation : ℕ → Bool
is_ascii_punctuation c =
    leb b'!' c && leb c b'/'
    || leb b':' c && leb c b'@'
    || leb b'[' c && leb c b'`'
    || leb b'{' c && leb c b'~'

abbrev pub class_names : List Bytes
class_names =
    codes "alnum"
    ∷ codes "alpha"
    ∷ codes "blank"
    ∷ codes "cntrl"
    ∷ codes "digit"
    ∷ codes "graph"
    ∷ codes "lower"
    ∷ codes "print"
    ∷ codes "punct"
    ∷ codes "space"
    ∷ codes "upper"
    ∷ codes "xdigit"
    ∷ []

-- `c[i + 1..].iter().take_while(|&&x| x != ':')`
unfoldable pub before_colon : Bytes → Bytes
before_colon [] = []
before_colon (c ∷ cs) = if c == b':' then [] else c ∷ before_colon cs

-- `[:name:]`
unfoldable pub class_member : Bytes → Bytes → Result PosixError (Bytes × ℕ)
unfolding contains_text starts_with
class_member name cs =
    if contains_text class_names name && starts_with (drop (length name + 2) cs) (codes "]")
    then ok (codes "[:" ++ name ++ codes ":]", length name + 3)
    else err (unknown_class name)

-- The text that a member of a class becomes, and how many of the characters `cs` after `c` it reads.
unfoldable pub member : ℕ → Bytes → Result PosixError (Bytes × ℕ)
unfolding before_colon class_member starts_with contains_char
member c cs =
    if c == b'[' && starts_with cs (codes ":")
    then class_member (before_colon (drop 1 cs)) cs
    else if c == b'[' && (starts_with cs (codes "=") || starts_with cs (codes "."))
    then err collating_element
    else if contains_char (codes "[\\&~") c
    then ok (b'\\' ∷ c ∷ [], 0)
    else if c == b'-' && starts_with cs (codes "-")
    then err dashes
    else ok (c ∷ [], 0)

-- The loop of `bracket`, past `skip` characters already read, with the text so far and how many
-- characters were read.
unfoldable pub bracket_loop : Bytes → ℕ → Bytes → ℕ → Result PosixError (Bytes × ℕ)
unfolding member
bracket_loop [] skip out n = err unterminated_bracket
bracket_loop (c ∷ cs) (suc skip) out n = bracket_loop cs skip out (n + 1)
bracket_loop (c ∷ cs) zero out n =
    if c == b']'
    then ok (out ++ codes "]", n + 1)
    else (member c cs >>= λ m. bracket_loop cs m.1 (out ++ m.0) (n + 1))

-- The members, where a first `]` is one.
unfoldable pub members : Bytes → Bytes → ℕ → Result PosixError (Bytes × ℕ)
unfolding bracket_loop starts_with
members cs out n =
    if starts_with cs (codes "]")
    then bracket_loop (drop 1 cs) 0 (out ++ codes "\\]") (n + 1)
    else bracket_loop cs 0 out n

-- The Rust class for the expression after `[`, and how many characters it has.
unfoldable pub bracket : Bytes → Result PosixError (Bytes × ℕ)
unfolding members starts_with
bracket cs =
    if starts_with cs (codes "^")
    then members (drop 1 cs) (codes "[^") 1
    else members cs (codes "[") 0
