-- ===== src/Rewrite/PosixTests.antt =====
-- Runs of the translation of POSIX expressions.
use greeg.Base.{
  ◌≡◌, refl, true, false, some, Bytes, codes, ok, err, contains_char, contains_text, bytes_eq,
  starts_with, strip_prefix, is_some,
}
use greeg.Rewrite.Bracket.{
  unmatched_open, unmatched_close, back_reference, unterminated_bracket, take_bounds, count_char,
  is_empty_text, interval, braced, is_ascii_punctuation, before_colon, class_member, member,
  bracket_loop, members, bracket,
}
use greeg.Rewrite.Posix.{
  escaped_interval, escape, escape_first, brace, is_end, operator, posix_step, posix_loop,
  posix_regex,
}
use greeg.Rewrite.Scanned.{scan_regex, outside}
use greeg.Rewrite.Balanced.{posix_regex-balanced}

-- A group, an interval, a class with `]` first, and a literal parenthesis.
abbrev basic : Bytes
basic = codes "*a\\(b\\{,2\\}\\)[]x[:digit:](]("

abbrev translated : Bytes
translated = codes "\\*a(b{0,2})[\\]x[:digit:](]\\("

basic-translated : posix_regex basic false ≡ ok translated
unfolding posix_regex posix_loop posix_step operator is_end brace escape_first escape
    escaped_interval bracket members bracket_loop member class_member before_colon
    is_ascii_punctuation braced interval is_empty_text count_char take_bounds contains_char
    contains_text bytes_eq starts_with strip_prefix is_some
basic-translated = refl

extended_group : posix_regex (codes "(a|b+)$") true ≡ ok (codes "(a|b+)$")
unfolding posix_regex posix_loop posix_step operator is_end brace escape_first escape
    escaped_interval bracket members bracket_loop member class_member before_colon
    is_ascii_punctuation braced interval is_empty_text count_char take_bounds contains_char
    contains_text bytes_eq starts_with strip_prefix is_some
extended_group = refl

open_bracket : posix_regex (codes "[ab") true ≡ err unterminated_bracket
unfolding posix_regex posix_loop posix_step operator is_end brace escape_first escape
    escaped_interval bracket members bracket_loop member class_member before_colon
    is_ascii_punctuation braced interval is_empty_text count_char take_bounds contains_char
    contains_text bytes_eq starts_with strip_prefix is_some
open_bracket = refl

open_paren : posix_regex (codes "(a") true ≡ err unmatched_open
unfolding posix_regex posix_loop posix_step operator is_end brace escape_first escape
    escaped_interval bracket members bracket_loop member class_member before_colon
    is_ascii_punctuation braced interval is_empty_text count_char take_bounds contains_char
    contains_text bytes_eq starts_with strip_prefix is_some
open_paren = refl

close_paren : posix_regex (codes "a\\)") false ≡ err unmatched_close
unfolding posix_regex posix_loop posix_step operator is_end brace escape_first escape
    escaped_interval bracket members bracket_loop member class_member before_colon
    is_ascii_punctuation braced interval is_empty_text count_char take_bounds contains_char
    contains_text bytes_eq starts_with strip_prefix is_some
close_paren = refl

reference : posix_regex (codes "\\(a\\)\\1") false ≡ err back_reference
unfolding posix_regex posix_loop posix_step operator is_end brace escape_first escape
    escaped_interval bracket members bracket_loop member class_member before_colon
    is_ascii_punctuation braced interval is_empty_text count_char take_bounds contains_char
    contains_text bytes_eq starts_with strip_prefix is_some
reference = refl

posix_regex-balanced_example : scan_regex translated (outside 0) ≡ some (outside 0)
posix_regex-balanced_example = posix_regex-balanced basic translated false basic-translated
