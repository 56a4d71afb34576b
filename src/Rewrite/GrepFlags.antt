-- ===== src/Rewrite/GrepFlags.antt =====
-- crates/greeg/src/rewrite.rs: the flags of `rewrite_grep`, and what each does to its variables.
use greeg.Base.{
  ℕ, Bool, true, ◌&&◌, ◌||◌, Option, none, some, List, [], ◌∷◌, ◌++◌, Bytes, ◌==◌, if◌then◌else◌,
  codes, contains_char, contains_text, bytes_eq, Result, ok, err, ◌>>=◌,
}
use greeg.Rewrite.Flags.{RgError, is_u64}
use greeg.Rewrite.Emit.{Operand}
use greeg.Rewrite.Bracket.{PosixError}

pub data GrepError : Type 0 where
  conflicting_matchers follows_links hides_notes counts_files leaves_names : GrepError
  not_recursive several no_grep_pattern : GrepError
  no_value not_number value_given no_glob not_color unsupported : Bytes → GrepError
  not_posix : PosixError → GrepError
  not_words : RgError → GrepError

pub record Grep : Type 0 where
  pub matcher : Option ℕ
  pub recursive : Bool
  pub numbered : Bool
  pub colored : Bool
  pub flags : List Bytes
  pub include : List Bytes
  pub exclude : List Bytes
  pub patterns : List Bytes
  pub positional : List Operand

pub record GrepStep : Type 0 where
  pub grep : Grep
  pub after_dd : Bool
  pub took : Bool

-- `set_matcher`: grep refuses two different matchers.
unfoldable pub set_matcher : ℕ → Grep → Result GrepError Grep
set_matcher m g = elim g.matcher [
  | none ↦ ok (record g { matcher = some m })
  | some was ↦ if was == m then ok (record g { matcher = some m }) else err conflicting_matchers
]

-- A pattern by which grep selects files by name, as greeg's glob.
unfoldable pub file_glob : Bytes → Bytes → Result GrepError Bytes
unfolding contains_char
file_glob name [] = err (no_glob name)
file_glob name (c ∷ glob) =
    if contains_char (c ∷ glob) b'/'
      || contains_char (c ∷ glob) b'{'
      || contains_char (c ∷ glob) b'}'
    then err (no_glob name)
    else ok (c ∷ glob)

abbrev pub grep_flag : List Bytes → Grep → Grep
grep_flag words g = record g { flags = g.flags ++ words }

-- `number(..)?` and the flag with its value.
unfoldable pub number_flag : Bytes → Bytes → Grep → Result GrepError Grep
unfolding is_u64
number_flag name v g = if is_u64 v then ok (grep_flag (name ∷ v ∷ []) g) else err (not_number name)

abbrev pub grep_values : List Bytes
grep_values =
    codes "regexp"
    ∷ codes "include"
    ∷ codes "exclude"
    ∷ codes "exclude-dir"
    ∷ codes "after-context"
    ∷ codes "before-context"
    ∷ codes "context"
    ∷ codes "binary-files"
    ∷ []

abbrev pub grep_contexts : List Bytes
grep_contexts = codes "after-context" ∷ codes "before-context" ∷ codes "context" ∷ []

abbrev pub grep_colors : List Bytes
grep_colors = codes "color" ∷ codes "colour" ∷ []

abbrev pub quiet_colors : List Bytes
quiet_colors = [] ∷ codes "auto" ∷ codes "never" ∷ []

-- The arms on the name that take a value, or refuse.
unfoldable pub valued_flag : Bytes → Bytes → Grep → Result GrepError Grep
unfolding file_glob number_flag contains_text
valued_flag name v g =
    let flag = codes "--" ++ name in
    if bytes_eq name (codes "regexp")
    then ok (record g { patterns = g.patterns ++ v ∷ [] })
    else if bytes_eq name (codes "include")
    then (file_glob flag v >>= λ glob. ok (record g { include = g.include ++ glob ∷ [] }))
    else if bytes_eq name (codes "exclude")
    then (file_glob flag v >>= λ glob. ok (record g { exclude = g.exclude ++ (b'!' ∷ glob) ∷ [] }))
    else if bytes_eq name (codes "exclude-dir")
    then (file_glob flag v >>= λ glob.
        ok (record g { exclude = g.exclude ++ (b'!' ∷ (glob ++ codes "/")) ∷ [] }))
    else if contains_text grep_contexts name
    then number_flag flag v g
    else err (unsupported flag)

unfoldable pub matcher_flag : Bytes → Bytes → Grep → Result GrepError Grep
unfolding set_matcher valued_flag
matcher_flag name v g =
    if bytes_eq name (codes "extended-regexp")
    then set_matcher b'E' g
    else if bytes_eq name (codes "basic-regexp")
    then set_matcher b'G' g
    else if bytes_eq name (codes "fixed-strings")
    then set_matcher b'F' g
    else valued_flag name v g

-- `match name`
unfoldable pub long_grep : Bytes → Bytes → Grep → Result GrepError Grep
unfolding matcher_flag contains_text
long_grep name v g =
    if bytes_eq name (codes "recursive")
    then ok (record g { recursive = true })
    else if bytes_eq name (codes "dereference-recursive")
    then err follows_links
    else if bytes_eq name (codes "line-number")
    then ok (record g { numbered = true })
    else if bytes_eq name (codes "with-filename")
    then ok g
    else if contains_text grep_colors name
    then if contains_text quiet_colors v
      then ok g
      else if bytes_eq v (codes "always")
      then ok (record g { colored = true })
      else err (not_color name)
    else if bytes_eq name (codes "no-messages")
    then err hides_notes
    else if bytes_eq name (codes "binary-files") && bytes_eq v (codes "without-match")
    then ok g
    else if bytes_eq name (codes "ignore-case")
    then ok (grep_flag (codes "-i" ∷ []) g)
    else if bytes_eq name (codes "word-regexp")
    then ok (grep_flag (codes "-w" ∷ []) g)
    else if bytes_eq name (codes "line-regexp")
    then ok (grep_flag (codes "-x" ∷ []) g)
    else if bytes_eq name (codes "files-with-matches")
    then ok (grep_flag (codes "-l" ∷ []) g)
    else matcher_flag name v g
