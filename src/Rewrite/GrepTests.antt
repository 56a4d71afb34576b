-- ===== src/Rewrite/GrepTests.antt =====
-- Runs of the rewriting of `grep`.
use greeg.Base.{
  Option, ◌≡◌, refl, true, false, none, some, List, [], ◌∷◌, Bytes, codes, ok, err, contains_char,
  contains_text, bytes_eq, starts_with, strip_prefix, is_some,
}
use greeg.Rewrite.Flags.{is_u64, digits_fit}
use greeg.Rewrite.Parse.{split_once}
use greeg.Rewrite.Emit.{any_stdin, operand_words, or_largest, greeg_words}
use greeg.Rewrite.Bracket.{
  take_bounds, count_char, is_empty_text, interval, braced, is_ascii_punctuation, before_colon,
  class_member, member, bracket_loop, members, bracket,
}
use greeg.Rewrite.Posix.{
  escaped_interval, escape, escape_first, brace, is_end, operator, posix_step, posix_loop,
  posix_regex,
}
use greeg.Rewrite.GrepFlags.{
  Grep, not_recursive, conflicting_matchers, set_matcher, file_glob, number_flag, valued_flag,
  matcher_flag, long_grep,
}
use greeg.Rewrite.Grep.{
  word_after, long_word, short_valued, short_value, short_grep, grep_group, grep_flags, grep_word,
  grep_loop, first_matcher, parse_grep, chosen_of, grep_pattern, is_matcher, regex_of, text_of,
  glob_words, or_here, rewrite_grep,
}
use greeg.Rewrite.Emit.{Operand}
use greeg.Rewrite.CliReader.{reader}
use greeg.Rewrite.Faithful.{Searches}
use greeg.Rewrite.GrepFaithful.{rewrite_grep_reads}

abbrev command : List Bytes
command =
    codes "grep"
    ∷ codes "-rnA2"
    ∷ codes "--include=*.rs"
    ∷ codes "--exclude-dir"
    ∷ codes "target"
    ∷ codes "a\\|b"
    ∷ codes "src"
    ∷ []

abbrev parsed : Grep
parsed = record {
  matcher = none;
  recursive = true;
  numbered = true;
  colored = false;
  flags = codes "-A" ∷ codes "2" ∷ [];
  include = codes "*.rs" ∷ [];
  exclude = codes "!target/" ∷ [];
  patterns = [];
  positional = (codes "a\\|b", false) ∷ (codes "src", false) ∷ [];
}

abbrev rewritten : List Bytes
rewritten =
    codes "greeg"
    ∷ codes "--matching"
    ∷ codes "exact"
    ∷ codes "--max-filesize"
    ∷ codes "18446744073709551615"
    ∷ codes "--from-grep"
    ∷ codes "-A"
    ∷ codes "2"
    ∷ codes "-g"
    ∷ codes "*.rs"
    ∷ codes "-g"
    ∷ codes "!target/"
    ∷ codes "a|b"
    ∷ codes "src"
    ∷ []

command-parsed : parse_grep command ≡ ok parsed
unfolding rewrite_grep parse_grep grep_loop grep_word grep_flags grep_group short_grep short_value
    short_valued long_word word_after first_matcher chosen_of grep_pattern is_matcher regex_of
    text_of glob_words or_here set_matcher file_glob number_flag valued_flag matcher_flag long_grep
    greeg_words or_largest operand_words any_stdin split_once is_u64 digits_fit posix_regex
    posix_loop posix_step operator is_end brace escape_first escape escaped_interval bracket members
    bracket_loop member class_member before_colon is_ascii_punctuation braced interval is_empty_text
    count_char take_bounds contains_char contains_text bytes_eq starts_with strip_prefix is_some
command-parsed = refl

command-rewritten :
    rewrite_grep command ≡ ok (rewritten, some (codes "a|b"), ok (some (codes "src")))
unfolding rewrite_grep parse_grep grep_loop grep_word grep_flags grep_group short_grep short_value
    short_valued long_word word_after first_matcher chosen_of grep_pattern is_matcher regex_of
    text_of glob_words or_here set_matcher file_glob number_flag valued_flag matcher_flag long_grep
    greeg_words or_largest operand_words any_stdin split_once is_u64 digits_fit posix_regex
    posix_loop posix_step operator is_end brace escape_first escape escaped_interval bracket members
    bracket_loop member class_member before_colon is_ascii_punctuation braced interval is_empty_text
    count_char take_bounds contains_char contains_text bytes_eq starts_with strip_prefix is_some
command-rewritten = refl

one_file : rewrite_grep (codes "grep" ∷ codes "a" ∷ codes "f" ∷ []) ≡ err not_recursive
unfolding rewrite_grep parse_grep grep_loop grep_word grep_flags grep_group short_grep short_value
    short_valued long_word word_after first_matcher chosen_of grep_pattern is_matcher regex_of
    text_of glob_words or_here set_matcher file_glob number_flag valued_flag matcher_flag long_grep
    greeg_words or_largest operand_words any_stdin split_once is_u64 digits_fit posix_regex
    posix_loop posix_step operator is_end brace escape_first escape escaped_interval bracket members
    bracket_loop member class_member before_colon is_ascii_punctuation braced interval is_empty_text
    count_char take_bounds contains_char contains_text bytes_eq starts_with strip_prefix is_some
one_file = refl

two_matchers :
    rewrite_grep (codes "egrep" ∷ codes "-rF" ∷ codes "a" ∷ []) ≡ err conflicting_matchers
unfolding rewrite_grep parse_grep grep_loop grep_word grep_flags grep_group short_grep short_value
    short_valued long_word word_after first_matcher chosen_of grep_pattern is_matcher regex_of
    text_of glob_words or_here set_matcher file_glob number_flag valued_flag matcher_flag long_grep
    greeg_words or_largest operand_words any_stdin split_once is_u64 digits_fit posix_regex
    posix_loop posix_step operator is_end brace escape_first escape escaped_interval bracket members
    bracket_loop member class_member before_colon is_ascii_punctuation braced interval is_empty_text
    count_char take_bounds contains_char contains_text bytes_eq starts_with strip_prefix is_some
two_matchers = refl

abbrev chosen : Operand × List Operand
chosen = ((codes "a\\|b", false), (codes "src", false) ∷ [])

abbrev translated : Option Bytes
translated = some (codes "a|b")

chosen-translated : regex_of none (codes "a\\|b") ≡ ok translated
unfolding rewrite_grep parse_grep grep_loop grep_word grep_flags grep_group short_grep short_value
    short_valued long_word word_after first_matcher chosen_of grep_pattern is_matcher regex_of
    text_of glob_words or_here set_matcher file_glob number_flag valued_flag matcher_flag long_grep
    greeg_words or_largest operand_words any_stdin split_once is_u64 digits_fit posix_regex
    posix_loop posix_step operator is_end brace escape_first escape escaped_interval bracket members
    bracket_loop member class_member before_colon is_ascii_punctuation braced interval is_empty_text
    count_char take_bounds contains_char contains_text bytes_eq starts_with strip_prefix is_some
chosen-translated = refl

rewrite_grep_reads_example :
    (translated ≡ translated)
    × Searches reader (codes "a|b", false) ((codes "src", false) ∷ []) rewritten
unfolding grep_pattern chosen_of text_of or_here starts_with strip_prefix is_some bytes_eq
    contains_text
rewrite_grep_reads_example =
    rewrite_grep_reads reader command parsed chosen translated
      (rewritten, translated, ok (some (codes "src"))) command-parsed refl chosen-translated refl
      ((refl, λ e. refl), tt) (refl, tt) command-rewritten
