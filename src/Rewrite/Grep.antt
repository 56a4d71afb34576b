-- ===== src/Rewrite/Grep.antt =====
-- crates/greeg/src/rewrite.rs: `rewrite_grep`. Its loop over the words is that of `parse`, with its own
-- flags.
use greeg.Base.{
  ℕ, Bool, true, false, ◌||◌, Option, none, some, List, [], ◌∷◌, ◌++◌, Bytes, drop, ◌==◌,
  if◌then◌else◌, codes, starts_with, strip_prefix, contains_char, contains_text, bytes_eq, Result,
  ok, err, ◌>>=◌,
}
use greeg.Rewrite.Flags.{RgError}
use greeg.Rewrite.Parse.{is_positional, split_once}
use greeg.Rewrite.Emit.{Operand, greeg_words}
use greeg.Rewrite.Bracket.{PosixError}
use greeg.Rewrite.Posix.{posix_regex}
use greeg.Rewrite.Reader.{ReaderRefusal, reader_of}
use greeg.Rewrite.GrepFlags.{
  GrepError, Grep, GrepStep, set_matcher, grep_flag, number_flag, grep_values, grep_colors,
  long_grep, follows_links, hides_notes, counts_files, leaves_names, not_recursive, several,
  no_grep_pattern, no_value, value_given, unsupported, not_posix, not_words,
}

unfoldable pub word_after : Option Bytes → Bytes → Result GrepError Bytes
word_after none name = err (no_value name)
word_after (some v) name = ok v

abbrev pub to_step : Result GrepError Grep → Bool → Bool → Result GrepError GrepStep
to_step r dd took = r >>= λ g. ok (record { grep = g; after_dd = dd; took = took })

-- `--name` or `--name=value`.
unfoldable pub long_word :
    Bytes → Option Bytes → Option Bytes → Bool → Grep → Result GrepError GrepStep
unfolding long_grep word_after contains_text
long_word name (some v) next dd g =
    if contains_text grep_values name || contains_text grep_colors name
    then to_step (long_grep name v g) dd false
    else err (value_given name)
long_word name none next dd g =
    if contains_text grep_values name
    then word_after next name >>= (λ v. to_step (long_grep name v g) dd true)
    else to_step (long_grep name [] g) dd false

-- `-e`, `-A`, `-B` and `-C` with their value.
unfoldable pub short_valued : ℕ → Bytes → Grep → Result GrepError Grep
unfolding number_flag
short_valued c v g =
    if c == b'e'
    then ok (record g { patterns = g.patterns ++ v ∷ [] })
    else number_flag (b'-' ∷ c ∷ []) v g

-- The value is the rest of the group, or the next word.
unfoldable pub short_value : ℕ → Bytes → Option Bytes → Bool → Grep → Result GrepError GrepStep
unfolding short_valued word_after
short_value c [] next dd g =
    word_after next (b'-' ∷ c ∷ []) >>= λ v. to_step (short_valued c v g) dd true
short_value c (d ∷ rest) next dd g = to_step (short_valued c (d ∷ rest) g) dd false

-- A short flag without a value.
unfoldable pub short_grep : ℕ → Grep → Result GrepError Grep
unfolding set_matcher contains_char
short_grep c g =
    if c == b'r'
    then ok (record g { recursive = true })
    else if c == b'R'
    then err follows_links
    else if c == b'n'
    then ok (record g { numbered = true })
    else if c == b'H' || c == b'I'
    then ok g
    else if c == b's'
    then err hides_notes
    else if contains_char (codes "iwxl") c
    then ok (grep_flag ((b'-' ∷ c ∷ []) ∷ []) g)
    else if contains_char (codes "EGF") c
    then set_matcher c g
    else if c == b'c'
    then err counts_files
    else if c == b'h'
    then err leaves_names
    else err (unsupported (b'-' ∷ c ∷ []))

unfoldable pub grep_group : Bytes → Option Bytes → Bool → Grep → Result GrepError GrepStep
unfolding short_grep short_value contains_char
grep_group [] next dd g = ok (record { grep = g; after_dd = dd; took = false })
grep_group (c ∷ cs) next dd g = elim (contains_char (codes "eABC") c) [
  | true ↦ short_value c cs next dd g
  | false ↦ short_grep c g >>= λ h. grep_group cs next dd h
]

unfoldable pub grep_flags : Bytes → Option Bytes → Bool → Grep → Result GrepError GrepStep
unfolding long_word split_once grep_group strip_prefix
grep_flags w next dd g = elim (strip_prefix (codes "--") w) [
  | some rest ↦ let (name, inline) = split_once rest in long_word name inline next dd g
  | none ↦ grep_group (drop 1 w) next dd g
]

unfoldable pub grep_word : Bytes → Option Bytes → Bool → Grep → Result GrepError GrepStep
unfolding grep_flags starts_with bytes_eq
grep_word w next dd g =
    if is_positional w dd
    then ok (record {
      grep = record g { positional = g.positional ++ (w, dd) ∷ [] };
      after_dd = dd;
      took = false;
    })
    else if bytes_eq w (codes "--")
    then ok (record { grep = g; after_dd = true; took = false })
    else grep_flags w next dd g

unfoldable pub grep_loop : List Bytes → Bool → Grep → Result GrepError Grep
unfolding grep_word
grep_loop [] dd g = ok g
grep_loop (w ∷ []) dd g = grep_word w none dd g >>= λ s. ok s.grep
grep_loop (w ∷ v ∷ rest) dd g = grep_word w (some v) dd g >>= λ s. elim s.took [
  | true ↦ grep_loop rest s.after_dd s.grep
  | false ↦ grep_loop (v ∷ rest) s.after_dd s.grep
]

abbrev pub no_grep : Option ℕ → Grep
no_grep matcher = record {
  matcher = matcher;
  recursive = false;
  numbered = false;
  colored = false;
  flags = [];
  include = [];
  exclude = [];
  patterns = [];
  positional = [];
}

-- The matcher of the program's name, `egrep`, `fgrep` or `grep`.
unfoldable pub first_matcher : Bytes → Option ℕ
unfolding bytes_eq
first_matcher program =
    if bytes_eq program (codes "egrep")
    then some b'E'
    else if bytes_eq program (codes "fgrep")
    then some b'F'
    else none

unfoldable pub parse_grep : List Bytes → Result GrepError Grep
unfolding grep_loop first_matcher
parse_grep [] = err not_recursive
parse_grep (program ∷ words) = grep_loop words false (no_grep (first_matcher program))

-- The pattern of `-e`, or the first operand; with the operands left.
unfoldable pub chosen_of : List Bytes → List Operand → Result GrepError (Operand × List Operand)
chosen_of [] [] = err no_grep_pattern
chosen_of [] (first ∷ rest) = ok (first, rest)
chosen_of (e ∷ []) positional = ok ((e, false), positional)
chosen_of (e ∷ f ∷ patterns) positional = err several

unfoldable pub grep_pattern : Grep → Result GrepError (Operand × List Operand)
unfolding chosen_of
grep_pattern g = if g.recursive then chosen_of g.patterns g.positional else err not_recursive

unfoldable pub is_matcher : ℕ → Option ℕ → Bool
is_matcher m none = false
is_matcher m (some was) = was == m

abbrev pub as_regex : Result PosixError Bytes → Result GrepError (Option Bytes)
as_regex (err reason) = err (not_posix reason)
as_regex (ok regex) = ok (some regex)

-- `regex`: the translated pattern, but of a fixed one.
unfoldable pub regex_of : Option ℕ → Bytes → Result GrepError (Option Bytes)
unfolding is_matcher posix_regex
regex_of matcher pattern =
    if is_matcher b'F' matcher
    then ok none
    else as_regex (posix_regex pattern (is_matcher b'E' matcher))

unfoldable pub text_of : Option Bytes → Bytes → Bytes
text_of none pattern = pattern
text_of (some regex) pattern = regex

abbrev pub fixed_words : Option Bytes → List Bytes
fixed_words none = codes "-F" ∷ []
fixed_words (some regex) = []

unfoldable pub glob_words : List Bytes → List Bytes
glob_words [] = []
glob_words (glob ∷ globs) = codes "-g" ∷ glob ∷ glob_words globs

-- With no file operand `grep -r` searches the working directory.
unfoldable pub or_here : List Operand → List Operand
or_here [] = (codes ".", false) ∷ []
or_here (path ∷ paths) = path ∷ paths

abbrev pub as_grep : Result RgError (List Bytes) → Result GrepError (List Bytes)
as_grep (err reason) = err (not_words reason)
as_grep (ok words) = ok words

-- The words, the regex and the reader.
abbrev pub GrepRewrite : Type 0
GrepRewrite = List Bytes × Option Bytes × Result ReaderRefusal (Option Bytes)

unfoldable pub rewrite_grep : List Bytes → Result GrepError GrepRewrite
unfolding parse_grep grep_pattern regex_of text_of glob_words or_here greeg_words reader_of
rewrite_grep words = parse_grep words >>= λ g. grep_pattern g >>= λ chosen.
    regex_of g.matcher chosen.0.0 >>= λ regex.
    as_grep (
      greeg_words
        (codes "--from-grep"
          ∷ (g.flags ++ fixed_words regex ++ glob_words (g.include ++ g.exclude)))
        (text_of regex chosen.0.0, chosen.0.1) (or_here chosen.1) none)
    >>= λ out. ok (out, regex, reader_of g.numbered g.colored g.flags chosen.1)
