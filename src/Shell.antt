-- ===== src/Shell.antt =====
-- crates/greeg/src/rewrite.rs: shell words and their quoting. A text is its code points; the
-- iterator over characters with its two inner loops is a scan with a mode.
pub mod Quoting
mod Tests
use Prim.Native.String.{String}
use greeg.Base.{
  ℕ, Bool, true, false, not, ◌&&◌, ◌||◌, List, [], ◌∷◌, ◌++◌, Bytes, ◌==◌, if◌then◌else◌, codes,
  starts_with, contains_char, is_ascii_alphanumeric, Result, ok, err, ◌>>=◌,
}

-- The `Err`s of `split_words`.
pub data Refusal : Type 0 where
  nul_byte unterminated continuation expansion redirection pipeline several_commands : Refusal
  group unquoted_glob comment tilde : Refusal

pub record Words : Type 0 where
  pub out : List Bytes
  pub cur : Bytes
  pub in_word : Bool
  pub glob : Bool

-- Between words or in an unquoted one; in single or double quotes; after a backslash, and after
-- one in double quotes.
pub data Mode : Type 0 where
  plain single double escaped double_escaped : Mode

-- The arms of the outer `match c`, before their guards.
pub data Kind : Type 0 where
  quote_mark double_quote backslash blank newline dollar angle separator bracket wildcard hash :
      Kind
  home ordinary : Kind

unfoldable pub classify : ℕ → Kind
classify c =
    if c == b'\''
    then Kind.quote_mark
    else if c == b'"'
    then Kind.double_quote
    else if c == b'\\'
    then Kind.backslash
    else if c == b' ' || c == b'\t'
    then Kind.blank
    else if c == b'\n'
    then Kind.newline
    else if c == b'$' || c == b'`'
    then Kind.dollar
    else if c == b'<' || c == b'>'
    then Kind.angle
    else if c == b';' || c == b'&' || c == b'|'
    then Kind.separator
    else if c == b'(' || c == b')' || c == b'{' || c == b'}'
    then Kind.bracket
    else if c == b'*' || c == b'?' || c == b'['
    then Kind.wildcard
    else if c == b'#'
    then Kind.hash
    else if c == b'~'
    then Kind.home
    else Kind.ordinary

-- `chars.clone().all(|c| matches!(c, ' ' | '\t' | '\n'))`
unfoldable pub all_blank : Bytes → Bool
all_blank [] = true
all_blank (c ∷ cs) = (c == b' ' || c == b'\t' || c == b'\n') && all_blank cs

unfoldable pub is_nil : List Bytes → Bool
is_nil [] = true
is_nil (w ∷ ws) = false

-- `cur.push(c)`
abbrev pub push : ℕ → Words → Words
push c s = record s { cur = s.cur ++ c ∷ [] }

abbrev pub enter : Words → Words
enter s = record s { in_word = true }

-- `out.push(std::mem::take(&mut cur))` if a word is under way.
unfoldable pub end_word : Words → Words
end_word s =
    if s.in_word
    then record { out = s.out ++ s.cur ∷ []; cur = []; in_word = false; glob = s.glob }
    else s

-- A word that starts with one of grep's glob flags keeps its wildcards.
abbrev pub is_glob_flag : Bytes → Bool
is_glob_flag cur =
    starts_with cur (codes "--include=")
    || starts_with cur (codes "--exclude=")
    || starts_with cur (codes "--exclude-dir=")

-- One character outside quotes; `next` goes on with the rest `cs` in a mode.
unfoldable pub plain_arm :
    Kind → ℕ → Bytes → Words → (Mode → Words → Result Refusal Words) → Result Refusal Words
unfolding end_word all_blank is_nil starts_with
plain_arm Kind.quote_mark c cs s next = next Mode.single (enter s)
plain_arm Kind.double_quote c cs s next = next Mode.double (enter s)
plain_arm Kind.backslash c cs s next = next Mode.escaped (enter s)
plain_arm Kind.blank c cs s next = next Mode.plain (end_word s)
plain_arm Kind.newline c cs s next =
    if is_nil s.out && not s.in_word
    then next Mode.plain s
    else if all_blank cs
    then ok (end_word s)
    else err several_commands
plain_arm Kind.dollar c cs s next = err expansion
plain_arm Kind.angle c cs s next = err redirection
plain_arm Kind.separator c cs s next = err pipeline
plain_arm Kind.bracket c cs s next = err group
plain_arm Kind.wildcard c cs s next =
    if is_glob_flag s.cur
    then next Mode.plain (push c (record s { glob = true }))
    else err unquoted_glob
plain_arm Kind.hash c cs s next =
    if not s.in_word then err comment else next Mode.plain (push c (enter s))
plain_arm Kind.home c cs s next =
    if not s.in_word then err tilde else next Mode.plain (push c (enter s))
plain_arm Kind.ordinary c cs s next = next Mode.plain (push c (enter s))

unfoldable pub arm :
    Mode → ℕ → Bytes → Words → (Mode → Words → Result Refusal Words) → Result Refusal Words
unfolding plain_arm classify
arm Mode.plain c cs s next = plain_arm (classify c) c cs s next
arm Mode.single c cs s next = if c == b'\'' then next Mode.plain s else next Mode.single (push c s)
arm Mode.double c cs s next =
    if c == b'"'
    then next Mode.plain s
    else if c == b'\\'
    then next Mode.double_escaped s
    else if c == b'$' || c == b'`'
    then err expansion
    else next Mode.double (push c s)
arm Mode.escaped c cs s next = if c == b'\n' then err continuation else next Mode.plain (push c s)
arm Mode.double_escaped c cs s next =
    if c == b'\n'
    then err continuation
    else if c == b'"' || c == b'\\' || c == b'$' || c == b'`'
    then next Mode.double (push c s)
    else next Mode.double (push c (push b'\\' s))

-- The loop over the characters; at their end an open quote or escape is an error.
unfoldable pub scan : Bytes → Mode → Words → Result Refusal Words
unfolding arm end_word
scan [] Mode.plain s = ok (end_word s)
scan [] Mode.single s = err unterminated
scan [] Mode.double s = err unterminated
scan [] Mode.escaped s = err unterminated
scan [] Mode.double_escaped s = err unterminated
scan (c ∷ cs) mode s = arm mode c cs s (scan cs)

abbrev pub start : Words
start = record { out = []; cur = []; in_word = false; glob = false }

abbrev pub parts : Words → Result Refusal (List Bytes × Bool)
parts w = ok (w.out, w.glob)

unfoldable pub split_words : Bytes → Result Refusal (List Bytes × Bool)
unfolding scan contains_char
split_words s = if contains_char s 0 then err nul_byte else (scan s Mode.plain start >>= parts)

unfoldable pub shell_words : Bytes → Result Refusal (List Bytes)
unfolding split_words
shell_words s = split_words s >>= λ r. ok r.0

unfoldable pub is_safe : ℕ → Bool
unfolding contains_char
is_safe b = is_ascii_alphanumeric b || contains_char (codes "-_./:=,@+") b

unfoldable pub all_safe : Bytes → Bool
unfolding is_safe
all_safe [] = true
all_safe (b ∷ bs) = is_safe b && all_safe bs

-- `w.replace('\'', "'\\''")`
unfoldable pub escape_quotes : Bytes → Bytes
escape_quotes [] = []
escape_quotes (c ∷ w) =
    if c == b'\'' then b'\'' ∷ b'\\' ∷ b'\'' ∷ b'\'' ∷ escape_quotes w else c ∷ escape_quotes w

abbrev pub quoted : Bytes → Bytes
quoted w = b'\'' ∷ (escape_quotes w ++ b'\'' ∷ [])

unfoldable pub quote : Bytes → Bytes
unfolding all_safe escape_quotes
quote [] = quoted []
quote (b ∷ w) = if all_safe (b ∷ w) then b ∷ w else quoted (b ∷ w)

-- `words.iter().map(|w| quote(w)).collect::<Vec<_>>().join(" ")`
unfoldable pub command_of : List Bytes → Bytes
unfolding quote
command_of [] = []
command_of (w ∷ []) = quote w
command_of (w ∷ v ∷ ws) = quote w ++ b' ' ∷ command_of (v ∷ ws)
