-- ===== src/Rewrite/Cli.antt =====
-- crates/greeg/src/main.rs: the command line that greeg takes (`Cli`, `Common` and `Cmd`), by the names
-- of its flags. The parsing itself is the crate clap's, and an interface here. `--help`, `--capabilities`,
-- `--json`, `--no-ladder`, which conflicts with `--matching`, and
-- the flags whose values have a parser of their own or are paths, are left out.
use greeg.Base.{
  ◌≡◌, Bool, true, false, not, ◌&&◌, Option, none, some, List, [], ◌∷◌, ◌++◌, Bytes, All,
  if◌then◌else◌, codes, starts_with, contains_text, bytes_eq,
}
use greeg.Rewrite.Flags.{is_u64}

-- Flags without a value: ripgrep's, and greeg's own.
abbrev pub rg_switches : List Bytes
rg_switches =
    codes "-i"
    ∷ codes "--ignore-case"
    ∷ codes "-S"
    ∷ codes "--smart-case"
    ∷ codes "-s"
    ∷ codes "--case-sensitive"
    ∷ codes "-w"
    ∷ codes "--word-regexp"
    ∷ codes "-x"
    ∷ codes "--line-regexp"
    ∷ codes "-F"
    ∷ codes "--fixed-strings"
    ∷ codes "-U"
    ∷ codes "--multiline"
    ∷ codes "-n"
    ∷ codes "--line-number"
    ∷ codes "-l"
    ∷ codes "--files-with-matches"
    ∷ codes "-c"
    ∷ codes "--count"
    ∷ codes "--no-ignore"
    ∷ codes "--hidden"
    ∷ codes "-N"
    ∷ codes "--no-line-number"
    ∷ codes "-H"
    ∷ codes "--with-filename"
    ∷ codes "-h"
    ∷ codes "--no-filename"
    ∷ codes "--heading"
    ∷ codes "--no-heading"
    ∷ codes "-p"
    ∷ codes "--pretty"
    ∷ codes "--column"
    ∷ codes "--no-column"
    ∷ codes "--no-messages"
    ∷ codes "--trim"
    ∷ codes "--line-buffered"
    ∷ codes "--block-buffered"
    ∷ codes "-u"
    ∷ codes "--unrestricted"
    ∷ codes "-a"
    ∷ codes "--text"
    ∷ codes "--no-config"
    ∷ []

abbrev pub greeg_switches : List Bytes
greeg_switches =
    codes "--explain"
    ∷ codes "--no-tests"
    ∷ codes "--no-vendored"
    ∷ codes "--no-generated"
    ∷ codes "--all"
    ∷ codes "--chain"
    ∷ codes "--stats"
    ∷ codes "--no-index"
    ∷ codes "--precise"
    ∷ codes "--no-session"
    ∷ codes "--no-persist"
    ∷ codes "--after-sigbus"
    ∷ codes "--from-grep"
    ∷ []

unfoldable pub is_switch : Bytes → Bool
unfolding contains_text
is_switch name = contains_text (rg_switches ++ greeg_switches) name

-- Flags whose value is a `usize` or a `u64`, and those whose value is any text.
abbrev pub number_options : List Bytes
number_options =
    codes "-A"
    ∷ codes "--after-context"
    ∷ codes "-B"
    ∷ codes "--before-context"
    ∷ codes "-C"
    ∷ codes "--context"
    ∷ codes "-j"
    ∷ codes "--threads"
    ∷ codes "--max-columns"
    ∷ codes "--max-filesize"
    ∷ codes "--max-bytes"
    ∷ codes "--per-file"
    ∷ []

abbrev pub text_options : List Bytes
text_options =
    codes "-g"
    ∷ codes "--glob"
    ∷ codes "-t"
    ∷ codes "--type"
    ∷ codes "-T"
    ∷ codes "--type-not"
    ∷ codes "--sort"
    ∷ codes "--color"
    ∷ codes "--colors"
    ∷ codes "--sortr"
    ∷ codes "--mode"
    ∷ codes "--near"
    ∷ codes "--kind"
    ∷ codes "--fresh"
    ∷ codes "--session"
    ∷ []

-- `value_parser = ["exact", "discover"]`
abbrev pub policies : List Bytes
policies = codes "exact" ∷ codes "discover" ∷ []

-- The value suits the flag.
unfoldable pub accepts : Bytes → Bytes → Bool
unfolding contains_text is_u64 bytes_eq
accepts name v =
    if contains_text number_options name
    then is_u64 v
    else if bytes_eq name (codes "--matching")
    then contains_text policies v
    else contains_text text_options name

-- The variants of `Cmd`, as clap spells them.
abbrev pub subcommands : List Bytes
subcommands =
    codes "index"
    ∷ codes "def"
    ∷ codes "refs"
    ∷ codes "callers"
    ∷ codes "impls"
    ∷ codes "show"
    ∷ codes "outline"
    ∷ codes "map"
    ∷ codes "impact"
    ∷ codes "find"
    ∷ codes "doctor"
    ∷ codes "purge"
    ∷ codes "man"
    ∷ codes "hook"
    ∷ codes "lang"
    ∷ codes "budget"
    ∷ codes "stats"
    ∷ []

-- The patterns of `-e`, and the operands.
abbrev pub Reading : Type 0
Reading = List Bytes × List Bytes

unfoldable pub add_operand : Bytes → Option Reading → Option Reading
add_operand w none = none
add_operand w (some (expressions, operands)) = some (expressions, w ∷ operands)

unfoldable pub add_expression : Bytes → Option Reading → Option Reading
add_expression v none = none
add_expression v (some (expressions, operands)) = some (v ∷ expressions, operands)

-- A word that clap takes for a flag: a lone dash is none.
unfoldable pub is_dashed : Bytes → Bool
unfolding starts_with bytes_eq
is_dashed w = starts_with w (codes "-") && not (bytes_eq w (codes "-"))

-- `PathBuf` refuses an empty path.
abbrev pub IsGiven : Bytes → Type 0
IsGiven w = bytes_eq w [] ≡ false

-- What clap documents of words that greeg is called with, by their flags: a switch stands alone, an
-- option takes the next word, which has no dash, or what follows `=`, after `--` all words are operands,
-- and an operand before it is none that is spelled like a subcommand. `none` is a refusal or a
-- subcommand.
pub record Clap : Type 0 where
  pub parse : List Bytes → Option Reading
  pub at_end : parse [] ≡ some ([], [])
  pub switch :
      (name : Bytes) (ws : List Bytes) → is_switch name ≡ true → parse (name ∷ ws) ≡ parse ws
  pub option :
      (name v : Bytes) (ws : List Bytes)
      → accepts name v ≡ true
      → is_dashed v ≡ false
      → parse (name ∷ v ∷ ws) ≡ parse ws
  pub attached :
      (name v : Bytes) (ws : List Bytes)
      → accepts name v ≡ true
      → parse ((name ++ b'=' ∷ v) ∷ ws) ≡ parse ws
  pub expression :
      (v : Bytes) (ws : List Bytes)
      → is_dashed v ≡ false
      → parse (codes "-e" ∷ v ∷ ws) ≡ add_expression v (parse ws)
  pub escape : (ws : List Bytes) → All IsGiven ws → parse (codes "--" ∷ ws) ≡ some ([], ws)
  pub operand :
      (w : Bytes) (ws : List Bytes)
      → IsGiven w
      → is_dashed w ≡ false
      → contains_text subcommands w ≡ false
      → parse (w ∷ ws) ≡ add_operand w (parse ws)

-- `Cli` with its `-e`, or with its first operand: what is searched for, and where.
unfoldable pub searched : Option Reading → Option (Bytes × List Bytes)
searched (some (e ∷ [], operands)) = some (e, operands)
searched (some ([], w ∷ operands)) = some (w, operands)
searched _ = none
