-- ===== src/Rewrite/GrepFaithful.antt =====
-- What the words say that a recursive grep becomes.
use greeg.Base.{
  ◌≡◌, refl, Option, none, some, List, [], ◌∷◌, ◌++◌, Bytes, All, codes, starts_with, strip_prefix,
  is_some, contains_text, bytes_eq, Result, ok, err,
}
use greeg.Base.Binds.{Holds, refused, held, Holds-if, Holds-bind, Holds-ok}
use greeg.Rewrite.Flags.{RgError}
use greeg.Rewrite.Emit.{Operand}
use greeg.Rewrite.Cli.{Clap, IsGiven, is_switch, accepts}
use greeg.Rewrite.Plain.{Plain, Plain-append, no_dash-is_dashed}
use greeg.Rewrite.Applied.{IsTyped}
use greeg.Rewrite.Faithful.{IsPath, Searches, greeg_words-Searches}
use greeg.Rewrite.GrepFlags.{GrepError, Grep}
use greeg.Rewrite.Grep.{
  parse_grep, chosen_of, grep_pattern, regex_of, text_of, fixed_words, glob_words, or_here, as_grep,
  GrepRewrite, rewrite_grep,
}
use greeg.Rewrite.GrepKept.{HasNoDash}
use greeg.Rewrite.GrepSteps.{parse_grep-Keeps}

glob_words-Plain : (globs : List Bytes) → All HasNoDash globs → Plain (glob_words globs)
unfolding glob_words accepts contains_text bytes_eq
glob_words-Plain [] h = Plain.nil
glob_words-Plain (glob ∷ globs) (a, h) =
    Plain.valued refl (no_dash-is_dashed glob a) (glob_words-Plain globs h)

fixed_words-Plain : (regex : Option Bytes) → Plain (fixed_words regex)
unfolding is_switch contains_text bytes_eq
fixed_words-Plain none = Plain.bare refl Plain.nil
fixed_words-Plain (some regex) = Plain.nil

from_grep-Plain : (flags : List Bytes) → Plain flags → Plain (codes "--from-grep" ∷ flags)
unfolding is_switch contains_text bytes_eq
from_grep-Plain flags h = Plain.bare refl h

globs-append : (a b : List Bytes) → All HasNoDash a → All HasNoDash b → All HasNoDash (a ++ b)
globs-append [] b h k = k
globs-append (x ∷ a) b (d, h) k = (d, globs-append a b h k)

chosen_of-IsTyped :
    (patterns : List Bytes) (os : List Operand)
    → IsTyped os
    → Holds (λ chosen. IsTyped chosen.1) (chosen_of patterns os)
unfolding chosen_of
chosen_of-IsTyped [] [] t = refused _
chosen_of-IsTyped [] (o ∷ os) (t, ts) = held _ ts
chosen_of-IsTyped (e ∷ []) os t = held _ t
chosen_of-IsTyped (e ∷ f ∷ patterns) os t = refused _

grep_pattern-IsTyped :
    (g : Grep) → IsTyped g.positional → Holds (λ chosen. IsTyped chosen.1) (grep_pattern g)
unfolding grep_pattern
grep_pattern-IsTyped g t =
    Holds-if g.recursive (λ _. chosen_of-IsTyped g.patterns g.positional t) (λ _. refused _)

or_here-IsTyped : (os : List Operand) → IsTyped os → IsTyped (or_here os)
unfolding or_here starts_with strip_prefix is_some bytes_eq
or_here-IsTyped [] t = (refl, tt)
or_here-IsTyped (o ∷ os) t = t

as_grep-Holds :
    {P : List Bytes → Type 0} {r : Result RgError (List Bytes)} → Holds P r → Holds P (as_grep r)
as_grep-Holds (Holds.refused reason) = refused _
as_grep-Holds (Holds.held a h) = held a h

any-Holds : {A : Type 0} (r : Result GrepError A) → Holds (λ a. Unit) r
any-Holds (err reason) = refused _
any-Holds (ok a) = held _ tt

or_here-IsPath : (os : List Operand) → All IsPath os → All IsPath (or_here os)
unfolding or_here contains_text bytes_eq
or_here-IsPath [] a = ((refl, λ e. refl), tt)
or_here-IsPath (o ∷ os) a = a

-- Where a `grep` command is rewritten, the words begin with `greeg --matching exact`, and greeg's command
-- line, as clap reads it, searches for the pattern that the parser found, translated or fixed, in the
-- paths that it found, or in the working directory where it found none. The text searched for and the
-- paths are not empty, no path before `--` is spelled like a subcommand, and no glob of the `--include`
-- flags begins with a dash.
pub rewrite_grep_reads :
    (clap : Clap) (words : List Bytes) (g : Grep) (chosen : Operand × List Operand)
    (regex : Option Bytes) (r : GrepRewrite)
    → parse_grep words ≡ ok g
    → grep_pattern g ≡ ok chosen
    → regex_of g.matcher chosen.0.0 ≡ ok regex
    → IsGiven (text_of regex chosen.0.0)
    → All IsPath chosen.1
    → All HasNoDash g.include
    → rewrite_grep words ≡ ok r
    → (r.1 ≡ regex) × Searches clap (text_of regex chosen.0.0, chosen.0.1) (or_here chosen.1) r.0
unfolding rewrite_grep
rewrite_grep_reads clap words g chosen regex r parsed found translated given all_paths included e =
    let (plain, typed, excluded) = Holds-ok g (parse_grep-Keeps words) parsed in
    let paths = Holds-ok chosen (grep_pattern-IsTyped g typed) found in
    let globs = globs-append g.include g.exclude included excluded in
    let flags =
      from_grep-Plain (g.flags ++ fixed_words regex ++ glob_words (g.include ++ g.exclude)) (
        Plain-append (Plain-append plain (fixed_words-Plain regex))
          (glob_words-Plain (g.include ++ g.exclude) globs)) in
    let text : Operand = (text_of regex chosen.0.0, chosen.0.1) in
    let whole : Holds
        (λ (x : GrepRewrite). (x.1 ≡ regex) × Searches clap text (or_here chosen.1) x.0)
        (rewrite_grep words) =
      rw (parsed, found, translated)
        (Holds-bind
          (as_grep-Holds (
            greeg_words-Searches clap
              (codes "--from-grep"
                ∷ (g.flags ++ fixed_words regex ++ glob_words (g.include ++ g.exclude)))
              text (or_here chosen.1) none flags given (or_here-IsTyped chosen.1 paths)
              (or_here-IsPath chosen.1 all_paths) tt))
          (λ out h. held _ (refl, h))) in
    Holds-ok r whole e
