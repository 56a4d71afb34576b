-- ===== src/Rewrite/Tests.antt =====
-- Runs of the rewriting of `rg`.
use greeg.Base.{
  true, false, none, drop, ◌≡◌, refl, List, [], ◌∷◌, Bytes, codes, ok, err, contains_char,
  contains_text, bytes_eq, starts_with, strip_prefix, is_some,
}
use greeg.Rewrite.Flags.{
  Parsed, several_patterns, no_pattern, stdin_search, given_twice, short_flag, long_flag,
  digits_fit, is_u64, set_max_filesize, apply_value, is_color, apply,
}
use greeg.Rewrite.Parse.{
  split_once, missing_value, takes_value, is_unsupported, long_value, long_kind, is_value,
  group_value, short_group, flag_step, word_step, parse_loop, parse,
}
use greeg.Rewrite.Emit.{
  Operand, any_stdin, operand_words, or_largest, greeg_words, pattern_of, unrestricted_flags,
  rewrite_rg,
}
use greeg.Rewrite.Cli.{searched, is_switch, is_dashed, add_expression}
use greeg.Rewrite.CliReader.{reader, read, kind_of, is_option}
use greeg.Rewrite.Faithful.{Searches, rewrite_rg_reads}
use mathlib.Core.Bool.{true≢false}

abbrev exact : List Bytes → List Bytes
exact words = codes "greeg" ∷ codes "--matching" ∷ codes "exact" ∷ codes "--max-filesize" ∷ words

abbrev largest : Bytes
largest = codes "18446744073709551615"

-- A group, an attached number, a value with a dash, and operands on both sides of `--`.
abbrev command : List Bytes
command =
    codes "rg" ∷ codes "-inA3" ∷ codes "map" ∷ codes "--glob=-x" ∷ codes "--" ∷ codes "-p" ∷ []

abbrev rewritten : List Bytes
rewritten = exact (
    largest
    ∷ codes "-i"
    ∷ codes "-A"
    ∷ codes "3"
    ∷ codes "--glob=-x"
    ∷ codes "-e"
    ∷ codes "map"
    ∷ codes "--"
    ∷ codes "-p"
    ∷ [])

command-rewritten : rewrite_rg command ≡ ok rewritten
unfolding rewrite_rg greeg_words unrestricted_flags pattern_of or_largest operand_words any_stdin
    parse parse_loop word_step flag_step short_group group_value is_value long_kind long_value
    is_unsupported takes_value missing_value split_once apply is_color apply_value set_max_filesize
    is_u64 digits_fit long_flag short_flag contains_char contains_text bytes_eq starts_with
    strip_prefix is_some
command-rewritten = refl

several : rewrite_rg (codes "rg" ∷ codes "-ea" ∷ codes "-e" ∷ codes "b" ∷ []) ≡ err several_patterns
unfolding rewrite_rg greeg_words unrestricted_flags pattern_of or_largest operand_words any_stdin
    parse parse_loop word_step flag_step short_group group_value is_value long_kind long_value
    is_unsupported takes_value missing_value split_once apply is_color apply_value set_max_filesize
    is_u64 digits_fit long_flag short_flag contains_char contains_text bytes_eq starts_with
    strip_prefix is_some
several = refl

without_pattern : rewrite_rg (codes "rg" ∷ codes "-uu" ∷ []) ≡ err no_pattern
unfolding rewrite_rg greeg_words unrestricted_flags pattern_of or_largest operand_words any_stdin
    parse parse_loop word_step flag_step short_group group_value is_value long_kind long_value
    is_unsupported takes_value missing_value split_once apply is_color apply_value set_max_filesize
    is_u64 digits_fit long_flag short_flag contains_char contains_text bytes_eq starts_with
    strip_prefix is_some
without_pattern = refl

stdin : rewrite_rg (codes "rg" ∷ codes "a" ∷ codes "-" ∷ []) ≡ err stdin_search
unfolding rewrite_rg greeg_words unrestricted_flags pattern_of or_largest operand_words any_stdin
    parse parse_loop word_step flag_step short_group group_value is_value long_kind long_value
    is_unsupported takes_value missing_value split_once apply is_color apply_value set_max_filesize
    is_u64 digits_fit long_flag short_flag contains_char contains_text bytes_eq starts_with
    strip_prefix is_some
stdin = refl

twice :
    rewrite_rg
      (codes "rg" ∷ codes "--max-filesize=1" ∷ codes "--max-filesize" ∷ codes "2" ∷ codes "a" ∷ [])
    ≡ err (given_twice (codes "--max-filesize"))
unfolding rewrite_rg greeg_words unrestricted_flags pattern_of or_largest operand_words any_stdin
    parse parse_loop word_step flag_step short_group group_value is_value long_kind long_value
    is_unsupported takes_value missing_value split_once apply is_color apply_value set_max_filesize
    is_u64 digits_fit long_flag short_flag contains_char contains_text bytes_eq starts_with
    strip_prefix is_some
twice = refl

abbrev parsed : Parsed
parsed = record {
  flags = codes "-i" ∷ codes "-A" ∷ codes "3" ∷ codes "--glob=-x" ∷ [];
  patterns = [];
  positional = (codes "map", false) ∷ (codes "-p", true) ∷ [];
  fixed = false;
  unrestricted = 0;
  max_filesize = none;
}

command-parsed : parse command ≡ ok parsed
unfolding rewrite_rg greeg_words unrestricted_flags pattern_of or_largest operand_words any_stdin
    parse parse_loop word_step flag_step short_group group_value is_value long_kind long_value
    is_unsupported takes_value missing_value split_once apply is_color apply_value set_max_filesize
    is_u64 digits_fit long_flag short_flag contains_char contains_text bytes_eq starts_with
    strip_prefix is_some
command-parsed = refl

abbrev chosen : Operand × List Operand
chosen = ((codes "map", false), (codes "-p", true) ∷ [])

rewrite_rg_reads_example : Searches reader (codes "map", false) ((codes "-p", true) ∷ []) rewritten
unfolding pattern_of bytes_eq
rewrite_rg_reads_example =
    rewrite_rg_reads reader command rewritten parsed chosen command-parsed refl refl
      ((refl, λ e. absurd (true≢false e)), tt) command-rewritten

-- A path that is spelled like a subcommand: greeg runs that.
abbrev verb_words : List Bytes
verb_words = exact (largest ∷ codes "-e" ∷ codes "def" ∷ codes "map" ∷ [])

verb_path : rewrite_rg (codes "rg" ∷ codes "def" ∷ codes "map" ∷ []) ≡ ok verb_words
unfolding rewrite_rg greeg_words unrestricted_flags pattern_of or_largest operand_words any_stdin
    parse parse_loop word_step flag_step short_group group_value is_value long_kind long_value
    is_unsupported takes_value missing_value split_once apply is_color apply_value set_max_filesize
    is_u64 digits_fit long_flag short_flag contains_char contains_text bytes_eq starts_with
    strip_prefix is_some
verb_path = refl

verb_path-read : searched (read (drop 1 verb_words) none) ≡ none
unfolding read kind_of is_option is_dashed is_switch split_once searched add_expression
    contains_text bytes_eq starts_with strip_prefix is_some
verb_path-read = refl
