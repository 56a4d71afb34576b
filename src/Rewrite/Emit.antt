-- ===== src/Rewrite/Emit.antt =====
-- crates/greeg/src/rewrite.rs: greeg's words (`greeg_words`), and `rewrite_rg`.
use greeg.Base.{
  ℕ, Bool, true, false, not, ◌&&◌, ◌||◌, Option, none, some, List, [], ◌∷◌, ◌++◌, Bytes, ◌==◌,
  if◌then◌else◌, codes, starts_with, contains_text, bytes_eq, Result, ok, err, ◌>>=◌,
}
use greeg.Rewrite.Flags.{RgError, several_patterns, no_pattern, binary_files, stdin_search}
use greeg.Rewrite.Parse.{parse}

abbrev pub verbs : List Bytes
verbs =
    codes "def"
    ∷ codes "refs"
    ∷ codes "callers"
    ∷ codes "impls"
    ∷ codes "outline"
    ∷ codes "show"
    ∷ codes "map"
    ∷ codes "impact"
    ∷ codes "find"
    ∷ codes "index"
    ∷ codes "doctor"
    ∷ codes "purge"
    ∷ codes "man"
    ∷ codes "hook"
    ∷ codes "lang"
    ∷ codes "budget"
    ∷ codes "stats"
    ∷ []

-- A word, and whether it stands after `--`.
abbrev pub Operand : Type 0
Operand = Bytes × Bool

unfoldable pub any_stdin : List Operand → Bool
unfolding bytes_eq
any_stdin [] = false
any_stdin ((w, dd) ∷ paths) = bytes_eq w (codes "-") || any_stdin paths

-- The operands, with `--` before the first that stands after one.
unfoldable pub operand_words : List Operand → Bool → List Bytes
operand_words [] dd_done = []
operand_words ((w, dd) ∷ operands) dd_done =
    if dd && not dd_done
    then codes "--" ∷ w ∷ operand_words operands true
    else w ∷ operand_words operands dd_done

-- `max_filesize.unwrap_or_else(|| u64::MAX.to_string())`
unfoldable pub or_largest : Option Bytes → Bytes
or_largest none = codes "18446744073709551615"
or_largest (some v) = v

unfoldable pub greeg_words :
    List Bytes → Operand → List Operand → Option Bytes → Result RgError (List Bytes)
unfolding any_stdin or_largest starts_with contains_text operand_words
greeg_words flags (pattern, dd) paths max_filesize =
    if any_stdin paths
    then err stdin_search
    else let pattern_dd = dd || starts_with pattern (codes "-") in
      let marked = if not pattern_dd && contains_text verbs pattern then codes "-e" ∷ [] else [] in
      ok (
        codes "greeg"
        ∷ codes "--matching"
        ∷ codes "exact"
        ∷ codes "--max-filesize"
        ∷ or_largest max_filesize
        ∷ (flags ++ marked ++ operand_words ((pattern, pattern_dd) ∷ paths) false))

-- The pattern of `-e`, or the first operand; with the operands left.
unfoldable pub pattern_of : List Bytes → List Operand → Result RgError (Operand × List Operand)
pattern_of [] [] = err no_pattern
pattern_of [] (first ∷ rest) = ok (first, rest)
pattern_of (e ∷ []) positional = ok ((e, false), positional)
pattern_of (e ∷ f ∷ patterns) positional = err several_patterns

unfoldable pub unrestricted_flags : ℕ → Result RgError (List Bytes)
unrestricted_flags n =
    if n == 0
    then ok []
    else if n == 1
    then ok (codes "--no-ignore" ∷ [])
    else if n == 2
    then ok (codes "--no-ignore" ∷ codes "--hidden" ∷ [])
    else err binary_files

abbrev pub fixed_flag : Bool → List Bytes
fixed_flag fixed = if fixed then codes "-F" ∷ [] else []

unfoldable pub rewrite_rg : List Bytes → Result RgError (List Bytes)
unfolding parse pattern_of unrestricted_flags greeg_words
rewrite_rg words = parse words >>= λ p. pattern_of p.patterns p.positional >>= λ chosen.
    unrestricted_flags p.unrestricted >>= λ more.
    greeg_words (p.flags ++ more ++ fixed_flag p.fixed) chosen.0 chosen.1 p.max_filesize
