-- ===== src/Rewrite/Faithful.antt =====
-- What greeg's words say on its command line: they search for the pattern that `parse` found, in the
-- paths that it found.
use mathlib.Core.Bool.{true≢false}
use greeg.Base.{
  ℕ, ◌≡◌, inl, inr, refl, sym, ap, ◌∙◌, Bool, true, false, not, ◌&&◌, ◌||◌, Option, none, some,
  List, [], ◌∷◌, ◌++◌, append_assoc, Bytes, All, take, drop, ◌==◌, if◌then◌else◌, codes,
  starts_with, strip_prefix, is_some, contains_text, bytes_eq, Bool-cases, ok,
}
use greeg.Base.Binds.{Holds, refused, held, Holds-if, Holds-bind, Holds-ok}
use greeg.Rewrite.Flags.{Parsed, is_u64, digits_fit}
use greeg.Rewrite.Parse.{is_positional, parse}
use greeg.Rewrite.Emit.{
  verbs, Operand, any_stdin, operand_words, or_largest, greeg_words, pattern_of, unrestricted_flags,
  fixed_flag, rewrite_rg,
}
use greeg.Rewrite.Cli.{
  Clap, IsGiven, is_switch, accepts, subcommands, is_dashed, add_operand, add_expression, searched,
}
use greeg.Rewrite.Plain.{
  All-contains, Plain, Plain-append, parse-Plain, no_dash-is_dashed, is_u64-is_dashed,
}
use greeg.Rewrite.Applied.{IsTyped, IsSize}
use greeg.Rewrite.Kept.{parse-IsParsed}

abbrev pub words_of : List Operand → List Bytes
words_of [] = []
words_of ((w, dd) ∷ operands) = w ∷ words_of operands

-- A path that greeg's command line takes for one: not empty, and before `--` no subcommand's name.
abbrev pub IsPath : Operand → Type 0
IsPath (w, dd) = IsGiven w × (dd ≡ false → contains_text subcommands w ≡ false)

words_after : (os : List Operand) → operand_words os true ≡ words_of os
unfolding operand_words
words_after [] = refl
words_after ((w, true) ∷ os) = ap (◌∷◌ w) (words_after os)
words_after ((w, false) ∷ os) = ap (◌∷◌ w) (words_after os)

words_of-IsGiven : (os : List Operand) → All IsPath os → All IsGiven (words_of os)
words_of-IsGiven [] a = tt
words_of-IsGiven ((w, dd) ∷ os) ((g, n), a) = (g, words_of-IsGiven os a)

typed-is_dashed : (w : Bytes) → is_positional w false ≡ true → is_dashed w ≡ false
unfolding is_dashed
typed-is_dashed w t = elim (Bool-cases (starts_with w (codes "-"))) [
  | inr e ↦ rw e refl
  | inl e ↦ elim (Bool-cases (bytes_eq w (codes "-"))) [
    | inl f ↦ rw (e, f) refl
    | inr f ↦ absurd (true≢false (sym (rw (e, f) at t)))
  ]
]

all_verbs : All (λ v. contains_text verbs v ≡ true) subcommands
unfolding contains_text bytes_eq
all_verbs = (
  refl,
  (
    refl,
    (
      refl,
      (
        refl,
        (
          refl,
          (
            refl,
            (
              refl,
              (refl, (refl, (refl, (refl, (refl, (refl, (refl, (refl, (refl, (refl, tt)))))))))),
            ),
          ),
        ),
      ),
    ),
  ),
)

-- No subcommand is missing among the verbs.
verbs-subcommands :
    (w : Bytes) → contains_text verbs w ≡ false → contains_text subcommands w ≡ false
verbs-subcommands w h = elim (Bool-cases (contains_text subcommands w)) [
  | inr e ↦ e
  | inl e ↦ absurd (
      true≢false
        (sym (All-contains (λ v. contains_text verbs v ≡ true) subcommands w all_verbs e) ∙ h))
]

-- The words from the pattern on.
pattern_words : Bytes → Bool → List Operand → List Bytes
unfolding starts_with contains_text
pattern_words pattern dd paths =
    let pattern_dd = dd || starts_with pattern (codes "-") in
    (if not pattern_dd && contains_text verbs pattern then codes "-e" ∷ [] else [])
    ++ operand_words ((pattern, pattern_dd) ∷ paths) false

module _ (clap : Clap) where
  escaped :
      (w : Bytes) (os : List Operand)
      → IsGiven w
      → All IsPath os
      → clap.parse (codes "--" ∷ w ∷ operand_words os true) ≡ some ([], w ∷ words_of os)
  escaped w os g a = rw (words_after os) (clap.escape (w ∷ words_of os) (g, words_of-IsGiven os a))

  parse-operand_words :
      (os : List Operand)
      → IsTyped os
      → any_stdin os ≡ false
      → All IsPath os
      → clap.parse (operand_words os false) ≡ some ([], words_of os)
  unfolding operand_words any_stdin add_operand
  parse-operand_words [] t s a = clap.at_end
  parse-operand_words ((w, true) ∷ os) (t, ts) s ((g, n), a) = escaped w os g a
  parse-operand_words ((w, false) ∷ os) (t, ts) s ((g, n), a) =
      elim (Bool-cases (bytes_eq w (codes "-"))) [
        | inl e ↦ absurd (true≢false (rw e at s))
        | inr e ↦
            clap.operand w (operand_words os false) g (typed-is_dashed w t) (n refl)
            ∙ ap (add_operand w) (parse-operand_words os ts (rw e at s) a)
      ]

  searched-pattern_words :
      (pattern : Bytes) (dd : Bool) (paths : List Operand)
      → IsGiven pattern
      → IsTyped paths
      → any_stdin paths ≡ false
      → All IsPath paths
      → searched (clap.parse (pattern_words pattern dd paths)) ≡ some (pattern, words_of paths)
  unfolding pattern_words operand_words searched add_operand add_expression
  searched-pattern_words pattern true paths g t s a = ap searched (escaped pattern paths g a)
  searched-pattern_words pattern false paths g t s a =
      elim (Bool-cases (starts_with pattern (codes "-"))) [
        | inl e ↦ rw e (ap searched (escaped pattern paths g a))
        | inr e ↦
            let rest = parse-operand_words paths t s a in
            let plain = no_dash-is_dashed pattern e in
            elim (Bool-cases (contains_text verbs pattern)) [
              | inl f ↦
                  rw (e, f)
                    (ap searched (
                      clap.expression pattern (operand_words paths false) plain
                      ∙ ap (add_expression pattern) rest))
              | inr f ↦
                  rw (e, f)
                    (ap searched (
                      clap.operand pattern (operand_words paths false) g plain
                        (verbs-subcommands pattern f)
                      ∙ ap (add_operand pattern) rest))
            ]
      ]

  -- Greeg's words for a pattern and paths.
  abbrev pub Searches : Operand → List Operand → List Bytes → Type 0
  Searches pattern paths out =
      (take 3 out ≡ codes "greeg" ∷ codes "--matching" ∷ codes "exact" ∷ [])
      × (searched (clap.parse (drop 1 out)) ≡ some (pattern.0, words_of paths))

  size-Plain :
      (size : Option Bytes) (flags : List Bytes)
      → IsSize size
      → Plain flags
      → Plain
          (codes "--matching" ∷ codes "exact" ∷ codes "--max-filesize" ∷ or_largest size ∷ flags)
  unfolding or_largest accepts contains_text bytes_eq is_dashed starts_with strip_prefix is_some
      is_u64 digits_fit
  size-Plain none flags s p = Plain.valued refl refl (Plain.valued refl refl p)
  size-Plain (some v) flags s p = Plain.valued refl refl (Plain.valued s (is_u64-is_dashed v s) p)

  pub greeg_words-Searches :
      (flags : List Bytes) (pattern : Operand) (paths : List Operand) (size : Option Bytes)
      → Plain flags
      → IsGiven pattern.0
      → IsTyped paths
      → All IsPath paths
      → IsSize size
      → Holds (Searches pattern paths) (greeg_words flags pattern paths size)
  unfolding greeg_words pattern_words
  greeg_words-Searches flags (pattern, dd) paths size plain given typed all_paths s =
      let pattern_dd = dd || starts_with pattern (codes "-") in
      let marked = if not pattern_dd && contains_text verbs pattern then codes "-e" ∷ [] else [] in
      let words = operand_words ((pattern, pattern_dd) ∷ paths) false in
      Holds-if (any_stdin paths) (λ _. refused _)
        (λ no_stdin. held _ (
          refl,
          ap
                (λ ws. searched (
                  clap.parse (
                    codes "--matching"
                    ∷ codes "exact"
                    ∷ codes "--max-filesize"
                    ∷ or_largest size
                    ∷ ws)))
                (append_assoc flags marked words)
              ∙ ap searched (
                  parse-Plain clap (pattern_words pattern dd paths) (size-Plain size flags s plain))
              ∙ searched-pattern_words pattern dd paths given typed no_stdin all_paths,
        ))

unrestricted_flags-Plain : (n : ℕ) → Holds Plain (unrestricted_flags n)
unfolding unrestricted_flags is_switch contains_text bytes_eq
unrestricted_flags-Plain n =
    Holds-if (n == 0) (λ _. held _ Plain.nil)
      (λ _.
        Holds-if (n == 1) (λ _. held _ (Plain.bare refl Plain.nil))
          (λ _.
            Holds-if (n == 2) (λ _. held _ (Plain.bare refl (Plain.bare refl Plain.nil)))
              (λ _. refused _)))

fixed_flag-Plain : (fixed : Bool) → Plain (fixed_flag fixed)
unfolding is_switch contains_text bytes_eq
fixed_flag-Plain true = Plain.bare refl Plain.nil
fixed_flag-Plain false = Plain.nil

pattern_of-IsTyped :
    (patterns : List Bytes) (os : List Operand)
    → IsTyped os
    → Holds (λ chosen. IsTyped chosen.1) (pattern_of patterns os)
unfolding pattern_of
pattern_of-IsTyped [] [] t = refused _
pattern_of-IsTyped [] (o ∷ os) (t, ts) = held _ ts
pattern_of-IsTyped (e ∷ []) os t = held _ t
pattern_of-IsTyped (e ∷ f ∷ patterns) os t = refused _

-- Where an `rg` command is rewritten, the words begin with `greeg --matching exact`, and greeg's command
-- line, as clap reads it, searches for the pattern that `parse` found, from `-e` or as the first operand,
-- in the paths that it found: no path is read as a flag, as a flag's value or as a subcommand, and no
-- flag or value as one of them. Neither the pattern nor a path is empty, and no path before `--` is
-- spelled like a subcommand.
pub rewrite_rg_reads :
    (clap : Clap) (words out : List Bytes) (p : Parsed) (chosen : Operand × List Operand)
    → parse words ≡ ok p
    → pattern_of p.patterns p.positional ≡ ok chosen
    → IsGiven chosen.0.0
    → All IsPath chosen.1
    → rewrite_rg words ≡ ok out
    → Searches clap chosen.0 chosen.1 out
unfolding rewrite_rg
rewrite_rg_reads clap words out p chosen parsed found given all_paths e =
    let (plain, typed, size) = Holds-ok p (parse-IsParsed words) parsed in
    let paths = Holds-ok chosen (pattern_of-IsTyped p.patterns p.positional typed) found in
    let r : Holds (Searches clap chosen.0 chosen.1) (rewrite_rg words) =
      rw (parsed, found)
        (Holds-bind (unrestricted_flags-Plain p.unrestricted) (λ more extra.
          greeg_words-Searches clap (p.flags ++ more ++ fixed_flag p.fixed) chosen.0 chosen.1
            p.max_filesize (Plain-append (Plain-append plain extra) (fixed_flag-Plain p.fixed))
            given paths all_paths size)) in
    Holds-ok out r e
